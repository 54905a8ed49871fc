-- ===== src/Hart/Decode/Laws.antt =====
-- What is decoded: the registered instruction that matches, whatever the buckets.
use riscv_isa_sim.Base.{
  ℕ, ◌+◌, ◌-◌, ◌^◌, ◌<◌, ◌≡◌, ◌∙◌, ap, arith, Bool, true, false, if◌then◌else◌, u32, u64, minus_one,
  bit_and, bit_and_low, bit_and-lt, length, get_or, Option, none, some, List, [], ◌∷◌, ◌++◌,
}
use mathlib.Core.List.{Memᴰ}
use native.Mathlib.Nat.{mod-lt, one-le-pow}
use riscv_isa_sim.Hart.Decode.{
  InsnDesc, OpcodeMap, low_mask, compare_insn, fill_buckets, build_opcode_map, scan, decode_insn,
  sentinel, advance,
}
use riscv_isa_sim.Hart.Decode.LowMask.{IsLowMask, low_mask-IsLowMask}
use riscv_isa_sim.Hart.Decode.Buckets.{key, IsFilled, fill_buckets-IsFilled}
use riscv_isa_sim.Hart.Decode.Scan.{
  matches, IsSort, ordered-IsKeySorted, advance_mem, scan-sentinel, scan_only, scan_none, scan_or,
  key_of_match, same_branches, bit_and_comm,
}

module _ {F : Type 0} where
  module _ (illegal : F)
      (sort : (InsnDesc F → InsnDesc F → Bool) → List (InsnDesc F) → List (InsnDesc F))
      (instructions : List (InsnDesc F)) where
    -- The mask of the buckets, and the instructions in their order.
    abbrev pub low : ℕ
    low = low_mask instructions minus_one

    abbrev pub sorted : List (InsnDesc F)
    sorted = sort (compare_insn low) instructions

    module _ (d : InsnDesc F) (mem : Memᴰ d instructions) (narrow : d.mask < 2 ^ 32)
        (s : IsSort (compare_insn low) instructions sorted) where
      l : IsLowMask minus_one instructions low
      l = low_mask-IsLowMask instructions 64 (omega arith)

      low-lt : low < 2 ^ 32
      low-lt =
          omega (arith, bit_and_comm d.mask low, bit_and-lt 32 low d.mask narrow, l.of_masks d mem)

      masked-lt : (x : ℕ) → bit_and x low < low + 1
      masked-lt x = omega (
        arith,
        ap (bit_and x) l.all_ones,
        l.all_ones,
        bit_and_low l.ones x,
        mod-lt x (one-le-pow l.ones 2 (omega arith)),
      )

      abbrev filled : OpcodeMap F
      filled = fill_buckets low (low + 1) 0 0 sorted

      built :
          build_opcode_map illegal sort instructions
          ≡ record filled { opcode_store = filled.opcode_store ++ (sentinel illegal ∷ []) }
      unfolding build_opcode_map
      built =
          ap (λ (n : ℕ). assemble (u32 (n + 2 ^ 64 - 1)) (u64 (n + 2 ^ 64 - 1)) n)
            {x = u64 (low + 1)} {y = low + 1} (omega (arith, low-lt))
          ∙ ap (λ (k : ℕ). assemble k (u64 (low + 1 + 2 ^ 64 - 1)) (low + 1))
              {x = u32 (low + 1 + 2 ^ 64 - 1)} {y = low} (omega (arith, low-lt))
          ∙ ap (λ (k : ℕ). assemble low k (low + 1)) {x = u64 (low + 1 + 2 ^ 64 - 1)} {y = low}
              (omega (arith, low-lt))
        where
          assemble : ℕ → ℕ → ℕ → OpcodeMap F
          assemble order mask n =
              let f = fill_buckets mask n 0 0 (sort (compare_insn order) instructions) in
              record f { opcode_store = f.opcode_store ++ (sentinel illegal ∷ []) }

      f : IsFilled low (low + 1) 0 0 sorted filled
      f =
          fill_buckets-IsFilled low (low + 1) 0 0 sorted (ordered-IsKeySorted low sorted s.ordered)
            (λ x _. omega arith) (λ x _. omega (arith, masked-lt x.match_bits))

      -- Decoding is a scan of the sorted instructions from a place on that has its whole bucket.
      decoded :
          (is_rv64 : Bool) (bits : ℕ)
          → (from : ℕ) × (decode_insn is_rv64 (build_opcode_map illegal sort instructions) bits
              ≡ some (
                  let desc = scan_or illegal bits (advance from sorted) in
                  if is_rv64 then desc.rv64 else desc.rv32))
            × ((x : InsnDesc F)
                → Memᴰ x sorted
                → key low x ≡ bit_and bits low
                → Memᴰ x (advance from sorted))
      unfolding decode_insn
      decoded is_rv64 bits =
          let (from, start, within, members) = f.found (bit_and bits low) (masked-lt bits) in
          (
            from,
            ap (λ map. decode_insn is_rv64 map bits) built
                ∙ ap chosen (
                    ap
                      (λ (mask : ℕ). scan bits (
                        advance (get_or filled.opcode_map (bit_and bits mask) 0)
                          (filled.opcode_store ++ (sentinel illegal ∷ []))))
                      {x = u64 (length filled.opcode_map + 2 ^ 64 - 1)} {y = low}
                      (omega (arith, low-lt, f.buckets))
                    ∙ ap
                        (λ (k : ℕ).
                          scan bits (advance k (filled.opcode_store ++ (sentinel illegal ∷ []))))
                        {y = from} (omega (arith, start))
                    ∙ ap
                        (λ (store : List (InsnDesc F)).
                          scan bits (advance from (store ++ (sentinel illegal ∷ []))))
                        f.store
                    ∙ scan-sentinel illegal bits from sorted within),
            λ x mem' e. members x mem' (omega (arith, e)),
          )
        where
          chosen : Option (InsnDesc F) → Option F
          chosen found = elim found [
            | none ↦ none
            | some desc ↦ some (if is_rv64 then desc.rv64 else desc.rv32)
          ]

      -- A word that matches one of the registered instructions, one with a mask of 32 bits, and no
      -- other is decoded to its function for the width of the hart. The instructions may be
      -- registered in any order, and `std::sort` is any function that keeps the elements and puts
      -- them in order.
      pub decode_insn-build_opcode_map :
          (is_rv64 : Bool) (bits : ℕ)
          → matches bits d ≡ true
          → ((x : InsnDesc F) → Memᴰ x instructions → matches bits x ≡ true → x ≡ d)
          → decode_insn is_rv64 (build_opcode_map illegal sort instructions) bits
            ≡ some (if is_rv64 then d.rv64 else d.rv32)
      decode_insn-build_opcode_map is_rv64 bits m only =
          let (from, scanned, members) = decoded is_rv64 bits in
          scanned
          ∙ ap (λ (desc : InsnDesc F). some (if is_rv64 then desc.rv64 else desc.rv32))
              (scan_only illegal bits (advance from sorted) d
                (members d (s.kept d mem)
                  (key_of_match low bits d (l.of_masks d mem) (ground (arith, m))))
                m (λ x mem' m'. only x (s.no_other x (advance_mem from sorted x mem')) m'))

      -- A word that matches none of the registered instructions is decoded to
      -- `illegal_instruction`, where at least one instruction with a mask of 32 bits is registered
      -- and `std::sort` keeps the elements and puts them in order.
      pub decode_insn-illegal :
          (is_rv64 : Bool) (bits : ℕ)
          → ((x : InsnDesc F) → Memᴰ x instructions → matches bits x ≡ false)
          → decode_insn is_rv64 (build_opcode_map illegal sort instructions) bits ≡ some illegal
      decode_insn-illegal is_rv64 bits unmatched =
          let (from, scanned, _) = decoded is_rv64 bits in
          scanned
          ∙ ap (λ (desc : InsnDesc F). some (if is_rv64 then desc.rv64 else desc.rv32))
              (scan_none illegal bits (advance from sorted)
                (λ x mem'. unmatched x (s.no_other x (advance_mem from sorted x mem'))))
          ∙ ap some (same_branches is_rv64 illegal)
