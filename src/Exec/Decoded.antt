-- ===== src/Exec/Decoded.antt =====
-- Whatever holds of every function registered, and of `illegal_instruction`, holds of the function
-- that `decode_insn` of riscv/processor.cc finds.
use riscv_isa_sim.Base.{
  minus_one, ℕ, zero, suc, ◌+◌, ◌-◌, ◌^◌, refl, sym, subst, inl, inr, Bool, true, false, ◌==◌,
  if◌then◌else◌, bit_and, u64, u32, get_or, length, Option, none, some, List, [], ◌∷◌, ◌++◌,
}
use mathlib.Core.Option
use mathlib.Core.List.{Memᴰ}
use mathlib.Core.List.Memᴰ.{head, tail, not-nil, cases_cons}
use riscv_isa_sim.Hart.Decode.{
  InsnDesc, OpcodeMap, take_bucket, fill_buckets, advance, sentinel, build_opcode_map, scan,
  decode_insn, low_mask, compare_insn,
}

module _ {F : Type 0} (P : F → Type 0) where
  abbrev pub Good : InsnDesc F → Type 0
  Good d = P d.rv32 × P d.rv64

  abbrev pub AllGood : List (InsnDesc F) → Type 0
  AllGood [] = Unit {0}
  AllGood (d ∷ rest) = Good d × AllGood rest

  AllGood-of_mem : (xs : List (InsnDesc F)) → ((d : InsnDesc F) → Memᴰ d xs → Good d) → AllGood xs
  AllGood-of_mem [] all = tt
  AllGood-of_mem (d ∷ rest) all =
      (all d (head refl), AllGood-of_mem rest (λ e mem. all e (tail mem)))

  AllGood-mem : (xs : List (InsnDesc F)) → AllGood xs → (d : InsnDesc F) → Memᴰ d xs → Good d
  AllGood-mem [] all d mem = absurd (not-nil mem)
  AllGood-mem (x ∷ rest) all d mem = elim (cases_cons mem) [
    | inl e ↦ subst Good (sym e) all.0
    | inr later ↦ AllGood-mem rest all.1 d later
  ]

  AllGood-append : (xs ys : List (InsnDesc F)) → AllGood xs → AllGood ys → AllGood (xs ++ ys)
  AllGood-append [] ys p q = q
  AllGood-append (x ∷ xs) ys p q = (p.0, AllGood-append xs ys p.1 q)

  abbrev BothGood : List (InsnDesc F) × List (InsnDesc F) → Type 0
  BothGood r = AllGood r.0 × AllGood r.1

  BothGood-if :
      (test : Bool) (r r' : List (InsnDesc F) × List (InsnDesc F))
      → BothGood r
      → BothGood r'
      → BothGood (if test then r else r')
  BothGood-if true r r' p q = p
  BothGood-if false r r' p q = q

  take_bucket-good :
      (mask b : ℕ) (xs : List (InsnDesc F))
      → AllGood xs
      → AllGood (take_bucket mask b xs).0 × AllGood (take_bucket mask b xs).1
  unfolding take_bucket
  take_bucket-good mask b [] p = (tt, tt)
  take_bucket-good mask b (d ∷ rest) p =
      let q = take_bucket-good mask b rest p.1 in
      BothGood-if (b == bit_and d.match_bits mask)
        (d ∷ (take_bucket mask b rest).0, (take_bucket mask b rest).1) ([], d ∷ rest)
        ((p.0, q.0), q.1) (tt, p)

  fill_buckets-good :
      (mask n b j : ℕ) (xs : List (InsnDesc F))
      → AllGood xs
      → AllGood (fill_buckets mask n b j xs).opcode_store
  unfolding fill_buckets
  fill_buckets-good mask zero b j xs p = tt
  fill_buckets-good mask (suc n) b j xs p =
      let q = take_bucket-good mask b xs p in
      AllGood-append (take_bucket mask b xs).0 _ q.0 (
        fill_buckets-good mask n (b + 1) (j + length (take_bucket mask b xs).0)
          (take_bucket mask b xs).1 q.1)

  advance-good : (n : ℕ) (xs : List (InsnDesc F)) → AllGood xs → AllGood (advance n xs)
  advance-good zero xs p = p
  advance-good (suc n) [] p = tt
  advance-good (suc n) (x ∷ xs) p = advance-good n xs p.1

  module _ (illegal : F) (p : P illegal) where
    abbrev GoodIf : Option (InsnDesc F) → Type 0
    GoodIf none = Unit {0}
    GoodIf (some d) = Good d

    GoodIf-if :
        (test : Bool) (o o' : Option (InsnDesc F))
        → GoodIf o
        → GoodIf o'
        → GoodIf (if test then o else o')
    GoodIf-if true o o' p q = p
    GoodIf-if false o o' p q = q

    scan-Good : (bits : ℕ) (xs : List (InsnDesc F)) → AllGood xs → GoodIf (scan bits xs)
    unfolding scan
    scan-Good bits [] q = tt
    scan-Good bits (d ∷ rest) q = GoodIf-if _ (some d) _ q.0 (scan-Good bits rest q.1)

    P-if : (test : Bool) (f g : F) → P f → P g → P (if test then f else g)
    P-if true f g q r = q
    P-if false f g q r = r

    chosen-good :
        (is_rv64 : Bool) (found : Option (InsnDesc F))
        → GoodIf found
        → P (
            Option.get_or
              (elim found [
                | none ↦ none
                | some desc ↦ some (if is_rv64 then desc.rv64 else desc.rv32)
              ])
              illegal)
    chosen-good is_rv64 none q = p
    chosen-good is_rv64 (some desc) q = P-if is_rv64 desc.rv64 desc.rv32 q.1 q.0

    pub decode_insn-good :
        (opcodes : OpcodeMap F)
        → AllGood opcodes.opcode_store
        → (is_rv64 : Bool) (bits : ℕ) → P (Option.get_or (decode_insn is_rv64 opcodes bits) illegal)
    unfolding decode_insn
    decode_insn-good opcodes all is_rv64 bits =
        let from =
          get_or opcodes.opcode_map (bit_and bits (u64 (length opcodes.opcode_map + 2 ^ 64 - 1)))
            0 in
        chosen-good is_rv64 _ (
          scan-Good bits (advance from opcodes.opcode_store)
            (advance-good from opcodes.opcode_store all))

    -- `std::sort` adds nothing.
    pub build_opcode_map-good :
        (sort : (InsnDesc F → InsnDesc F → Bool) → List (InsnDesc F) → List (InsnDesc F))
        → ((less : InsnDesc F → InsnDesc F → Bool) (xs : List (InsnDesc F)) (d : InsnDesc F)
            → Memᴰ d (sort less xs)
            → Memᴰ d xs)
        → (instructions : List (InsnDesc F)) → AllGood instructions
        → AllGood (build_opcode_map illegal sort instructions).opcode_store
    unfolding build_opcode_map
    build_opcode_map-good sort no_other instructions all =
        let buckets = u64 (low_mask instructions minus_one + 1) in
        let less = compare_insn {F = F} (u32 (buckets + 2 ^ 64 - 1)) in
        let sorted = sort less instructions in
        let good =
          AllGood-of_mem sorted
            (λ d mem. AllGood-mem instructions all d (no_other less instructions d mem)) in
        let mask = u64 (buckets + 2 ^ 64 - 1) in
        AllGood-append (fill_buckets mask buckets 0 0 sorted).opcode_store (sentinel illegal ∷ [])
          (fill_buckets-good mask buckets 0 0 sorted good) ((p, p), tt)
