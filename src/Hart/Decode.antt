-- ===== src/Hart/Decode.antt =====
-- `register_insn`, `build_opcode_map` and `decode_insn` of riscv/processor.cc: the instructions
-- sorted into buckets by their low bits.
pub mod LowMask
pub mod Buckets
pub mod Scan
pub mod Laws
use riscv_isa_sim.Base.{
  ℕ, zero, suc, ◌+◌, ◌-◌, ◌*◌, ◌/◌, ◌%◌, ◌^◌, Bool, true, false, ◌==◌, ltb, not, if◌then◌else◌,
  bit_and, u64, minus_one, get_or, length, u32, Option, none, some, List, [], ◌∷◌, ◌++◌,
}

-- `insn_func_t` is a parameter: what the functions do is no matter of decoding.
pub record InsnDesc (F : Type 0) : Type 0 where
  pub match_bits : ℕ
  pub mask : ℕ
  pub rv32 : F
  pub rv64 : F

-- What `build_opcode_map` leaves: `opcode_map[b]` is an index in `opcode_store`.
pub record OpcodeMap (F : Type 0) : Type 0 where
  pub opcode_map : List ℕ
  pub opcode_store : List (InsnDesc F)

-- `while ((inst.mask & buckets) != buckets) buckets /= 2`: at most 64 rounds, since 0 passes.
unfoldable pub shrink_buckets : ℕ → ℕ → ℕ → ℕ
shrink_buckets zero mask buckets = buckets
shrink_buckets (suc fuel) mask buckets =
    let rest = shrink_buckets fuel mask (buckets / 2) in
    if bit_and mask buckets == buckets then buckets else rest

module _ {F : Type 0} where
  unfoldable pub register_insn : InsnDesc F → List (InsnDesc F) → List (InsnDesc F)
  register_insn desc instructions = instructions ++ (desc ∷ [])

  -- `buckets` after the loop over the instructions, before it is increased.
  unfoldable pub low_mask : List (InsnDesc F) → ℕ → ℕ
  unfolding shrink_buckets
  low_mask [] buckets = buckets
  low_mask (inst ∷ rest) buckets = low_mask rest (shrink_buckets 64 inst.mask buckets)

  -- The order that the instructions are sorted by.
  unfoldable pub compare_insn : ℕ → InsnDesc F → InsnDesc F → Bool
  compare_insn mask lhs rhs =
      if bit_and lhs.match_bits mask == bit_and rhs.match_bits mask
      then ltb lhs.match_bits rhs.match_bits
      else ltb (bit_and lhs.match_bits mask) (bit_and rhs.match_bits mask)

  -- The inner loop: the instructions of bucket b that are next, and the others.
  unfoldable pub take_bucket : ℕ → ℕ → List (InsnDesc F) → List (InsnDesc F) × List (InsnDesc F)
  take_bucket mask b [] = ([], [])
  take_bucket mask b (inst ∷ rest) =
      let (taken, left) = take_bucket mask b rest in
      if b == bit_and inst.match_bits mask then (inst ∷ taken, left) else ([], inst ∷ rest)

  -- The outer loop from bucket b on, n buckets, with j instructions stored.
  unfoldable pub fill_buckets : ℕ → ℕ → ℕ → ℕ → List (InsnDesc F) → OpcodeMap F
  unfolding take_bucket
  fill_buckets mask zero b j left = record { opcode_map = []; opcode_store = [] }
  fill_buckets mask (suc n) b j left =
      let (taken, rest) = take_bucket mask b left in
      let filled = fill_buckets mask n (b + 1) (j + length taken) rest in
      record { opcode_map = j ∷ filled.opcode_map; opcode_store = taken ++ filled.opcode_store }

  -- `desc++`, n times.
  abbrev pub advance : ℕ → List (InsnDesc F) → List (InsnDesc F)
  advance zero xs = xs
  advance (suc n) [] = []
  advance (suc n) (x ∷ xs) = advance n xs

  module _ (illegal_instruction : F) where
    abbrev pub sentinel : InsnDesc F
    sentinel = record {
      match_bits = 0;
      mask = 0;
      rv32 = illegal_instruction;
      rv64 = illegal_instruction;
    }

    -- `sort` is `std::sort` with the order `compare_insn`.
    unfoldable pub build_opcode_map :
        (sort : (InsnDesc F → InsnDesc F → Bool) → List (InsnDesc F) → List (InsnDesc F))
        → List (InsnDesc F)
        → OpcodeMap F
    unfolding low_mask compare_insn fill_buckets
    build_opcode_map sort instructions =
        let buckets = u64 (low_mask instructions minus_one + 1) in
        let sorted = sort (compare_insn (u32 (buckets + 2 ^ 64 - 1))) instructions in
        let filled = fill_buckets (u64 (buckets + 2 ^ 64 - 1)) buckets 0 0 sorted in
        record filled { opcode_store = filled.opcode_store ++ (sentinel ∷ []) }

  -- The first entry from the pointer on that matches the word; there is none where the code would read
  -- past the end of `opcode_store`.
  unfoldable pub scan : ℕ → List (InsnDesc F) → Option (InsnDesc F)
  scan bits [] = none
  scan bits (desc ∷ rest) =
      let later = scan bits rest in
      if bit_and bits desc.mask == desc.match_bits then some desc else later

  unfoldable pub decode_insn : Bool → OpcodeMap F → ℕ → Option F
  unfolding scan
  decode_insn is_rv64 map bits =
      let mask = u64 (length map.opcode_map + 2 ^ 64 - 1) in
      elim (scan bits (advance (get_or map.opcode_map (bit_and bits mask) 0) map.opcode_store)) [
        | none ↦ none
        | some desc ↦ some (if is_rv64 then desc.rv64 else desc.rv32)
      ]
