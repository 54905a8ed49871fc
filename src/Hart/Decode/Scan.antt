-- ===== src/Hart/Decode/Scan.antt =====
-- The scan for the first entry that matches a word.
use riscv_isa_sim.Base.{
  ℕ, zero, suc, ◌≡◌, ap, refl, arith, Bool, true, false, Bool-cases, inl, inr, ◌==◌, if◌then◌else◌,
  bit, bit_and, bit-bit_and, bit_ext_all, bit_and_low, ◌≤◌, length, some, List, [], ◌∷◌, ◌++◌,
}
use mathlib.Core.List.{Memᴰ}
use mathlib.Core.List.Memᴰ.{head, tail, not-nil, cases_cons}
use riscv_isa_sim.Hart.Decode.{InsnDesc, compare_insn, scan, sentinel, advance}
use riscv_isa_sim.Hart.Decode.LowMask.{Covers}
use riscv_isa_sim.Hart.Decode.Buckets.{key, IsKeySorted}

pub bit_and_comm : (a b : ℕ) → bit_and a b ≡ bit_and b a
bit_and_comm a b =
    bit_ext_all (bit_and a b) (bit_and b a)
      (λ i. omega (arith, bit-bit_and a b i, bit-bit_and b a i))

matches_all : (bits : ℕ) → (bit_and bits 0 == 0) ≡ true
matches_all bits = ground (arith, bit_and_low 0 bits)

module _ {F : Type 0} where
  abbrev pub matches : ℕ → InsnDesc F → Bool
  matches bits d = bit_and bits d.mask == d.match_bits

  -- No later entry comes before an earlier one.
  abbrev pub IsOrdered : (InsnDesc F → InsnDesc F → Bool) → List (InsnDesc F) → Type 0
  IsOrdered less [] = Unit
  IsOrdered less (d ∷ rest) =
      ((e : InsnDesc F) → Memᴰ e rest → less e d ≡ false) × IsOrdered less rest

  -- What is asked of `std::sort`: the elements stay, and come in order.
  pub record IsSort (less : InsnDesc F → InsnDesc F → Bool) (xs sorted : List (InsnDesc F))
      : Type 0 where
    pub kept : (d : InsnDesc F) → Memᴰ d xs → Memᴰ d sorted
    pub no_other : (d : InsnDesc F) → Memᴰ d sorted → Memᴰ d xs
    pub ordered : IsOrdered less sorted

  pub ordered-IsKeySorted :
      (mask : ℕ) (xs : List (InsnDesc F)) → IsOrdered (compare_insn mask) xs → IsKeySorted mask xs
  unfolding compare_insn
  ordered-IsKeySorted mask [] o = tt
  ordered-IsKeySorted mask (d ∷ rest) o =
      (λ e mem. ground (arith, o.0 e mem), ordered-IsKeySorted mask rest o.1)

  pub advance_mem :
      (n : ℕ) (xs : List (InsnDesc F)) (d : InsnDesc F) → Memᴰ d (advance n xs) → Memᴰ d xs
  advance_mem zero xs d mem = mem
  advance_mem (suc n) [] d mem = mem
  advance_mem (suc n) (x ∷ xs) d mem = tail (advance_mem n xs d mem)

  module _ (illegal : F) (bits : ℕ) where
    -- The first entry that matches, or the sentinel.
    unfoldable pub scan_or : List (InsnDesc F) → InsnDesc F
    scan_or [] = sentinel illegal
    scan_or (x ∷ xs) = if matches bits x then x else scan_or xs

    -- With the sentinel at the end, a scan from a place up to there finds an entry.
    pub scan-sentinel :
        (n : ℕ) (xs : List (InsnDesc F))
        → n ≤ length xs
        → scan bits (advance n (xs ++ (sentinel illegal ∷ []))) ≡ some (scan_or (advance n xs))
    unfolding scan scan_or
    scan-sentinel zero [] le = rw (matches_all bits) refl
    scan-sentinel zero (x ∷ xs) le = elim (Bool-cases (matches bits x)) [
      | inl e ↦ rw e refl
      | inr e ↦ rw e (scan-sentinel zero xs (omega arith))
    ]
    scan-sentinel (suc n) [] le = absurd (omega arith)
    scan-sentinel (suc n) (x ∷ xs) le = scan-sentinel n xs (omega arith)

    pub scan_only :
        (xs : List (InsnDesc F)) (d : InsnDesc F)
        → Memᴰ d xs
        → matches bits d ≡ true
        → ((x : InsnDesc F) → Memᴰ x xs → matches bits x ≡ true → x ≡ d)
        → scan_or xs ≡ d
    unfolding scan_or
    scan_only [] d mem m only = absurd (not-nil mem)
    scan_only (x ∷ xs) d mem m only = elim (Bool-cases (matches bits x)) [
      | inl e ↦ rw e (only x (head refl) e)
      | inr e ↦ rw e (elim (cases_cons mem) [
        | inl same ↦ absurd (ground (arith, e, m, ap (matches bits) same))
        | inr deeper ↦ scan_only xs d deeper m (λ y mem' m'. only y (tail mem') m')
      ])
    ]

    pub scan_none :
        (xs : List (InsnDesc F))
        → ((x : InsnDesc F) → Memᴰ x xs → matches bits x ≡ false)
        → scan_or xs ≡ sentinel illegal
    unfolding scan_or
    scan_none [] unmatched = refl
    scan_none (x ∷ xs) unmatched =
        rw (unmatched x (head refl)) (scan_none xs (λ y mem. unmatched y (tail mem)))

  -- A word is in the bucket of each instruction that it matches.
  pub key_of_match :
      (r bits : ℕ) (d : InsnDesc F)
      → Covers d.mask r
      → bit_and bits d.mask ≡ d.match_bits
      → key r d ≡ bit_and bits r
  key_of_match r bits d c e = bit_ext_all (bit_and d.match_bits r) (bit_and bits r) (λ i. omega (
    arith,
    bit-bit_and d.match_bits r i,
    bit-bit_and bits r i,
    bit-bit_and bits d.mask i,
    bit-bit_and d.mask r i,
    ap (λ t. bit t i) c,
    ap (λ t. bit t i) e,
  ))

  pub same_branches : (b : Bool) (x : F) → (if b then x else x) ≡ x
  same_branches true x = refl
  same_branches false x = refl
