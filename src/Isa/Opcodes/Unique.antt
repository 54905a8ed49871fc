-- ===== src/Isa/Opcodes/Unique.antt =====
-- No two entries of the opcode table match one word.
use riscv_isa_sim.Base.{
  ap₂, ℕ, zero, suc, ◌<◌, ◌≡◌, ◌∙◌, ap, sym, refl, arith, Bool, true, inl, inr, ◌==◌, ◌&&◌, not,
  bit, bit_and, bit_xor, min, bit-lt, bit-bit_and, bit-bit_xor, zero-bit, bit_ext_all, List, [],
  ◌∷◌,
}
use Prim.Native.Nat.{differ}
use mathlib.Core.List.{Memᴰ}
use mathlib.Core.List.Memᴰ.{not-nil, cases_cons}
use riscv_isa_sim.Hart.Decode.{InsnDesc}
use riscv_isa_sim.Hart.Decode.Scan.{matches}
use riscv_isa_sim.Isa.Opcodes.{InsnName, registered}

agree : (x y z : ℕ) → x < 2 → y < 2 → z < 2 → min (min (differ (min x y) (min x z)) y) z ≡ 0
agree zero zero zero p q r = refl
agree zero zero (suc zero) p q r = refl
agree zero zero (suc (suc z)) p q r = absurd (omega arith)
agree zero (suc zero) zero p q r = refl
agree zero (suc zero) (suc zero) p q r = refl
agree zero (suc zero) (suc (suc z)) p q r = absurd (omega arith)
agree zero (suc (suc y)) z p q r = absurd (omega arith)
agree (suc zero) zero zero p q r = refl
agree (suc zero) zero (suc zero) p q r = refl
agree (suc zero) zero (suc (suc z)) p q r = absurd (omega arith)
agree (suc zero) (suc zero) zero p q r = refl
agree (suc zero) (suc zero) (suc zero) p q r = refl
agree (suc zero) (suc zero) (suc (suc z)) p q r = absurd (omega arith)
agree (suc zero) (suc (suc y)) z p q r = absurd (omega arith)
agree (suc (suc x)) y z p q r = absurd (omega arith)

-- A word that two entries match has, at each bit that both test, what both ask for.
common_bits :
    (bits kd ke : ℕ) → bit_and (bit_and (bit_xor (bit_and bits kd) (bit_and bits ke)) kd) ke ≡ 0
common_bits bits kd ke = bit_ext_all _ 0 (λ i.
    bit-bit_and (bit_and (bit_xor (bit_and bits kd) (bit_and bits ke)) kd) ke i
    ∙ ap (λ t. min t (bit ke i))
        (bit-bit_and (bit_xor (bit_and bits kd) (bit_and bits ke)) kd i
          ∙ ap (λ t. min t (bit kd i))
              (bit-bit_xor (bit_and bits kd) (bit_and bits ke) i
                ∙ ap₂ differ (bit-bit_and bits kd i) (bit-bit_and bits ke i)))
    ∙ agree (bit bits i) (bit kd i) (bit ke i) (bit-lt bits i) (bit-lt kd i) (bit-lt ke i)
    ∙ sym (zero-bit i))

module _ {F : Type 0} where
  -- A bit that both test, and for which they ask differently.
  abbrev pub are_disjoint : InsnDesc F → InsnDesc F → Bool
  are_disjoint d e = not (bit_and (bit_and (bit_xor d.match_bits e.match_bits) d.mask) e.mask == 0)

  unfoldable pub is_disjoint_from : InsnDesc F → List (InsnDesc F) → Bool
  is_disjoint_from d [] = true
  is_disjoint_from d (e ∷ rest) = are_disjoint d e && is_disjoint_from d rest

  unfoldable pub all_disjoint : List (InsnDesc F) → Bool
  unfolding is_disjoint_from
  all_disjoint [] = true
  all_disjoint (d ∷ rest) = is_disjoint_from d rest && all_disjoint rest

  not_both :
      (bits : ℕ) (d e : InsnDesc F)
      → are_disjoint d e ≡ true
      → matches bits d ≡ true
      → matches bits e ≡ true
      → ⊥
  not_both bits d e apart p q = ground (
    arith,
    apart,
    common_bits bits d.mask e.mask,
    ap₂ (λ (x y : ℕ). bit_and (bit_and (bit_xor x y) d.mask) e.mask) (asked d p) (asked e q),
  )
    where
      asked : (x : InsnDesc F) → matches bits x ≡ true → bit_and bits x.mask ≡ x.match_bits
      asked x m = ground (arith, m)

  not_both_of :
      (bits : ℕ) (d : InsnDesc F) (rest : List (InsnDesc F)) (e : InsnDesc F)
      → is_disjoint_from d rest ≡ true
      → Memᴰ e rest
      → matches bits d ≡ true
      → matches bits e ≡ true
      → ⊥
  unfolding is_disjoint_from
  not_both_of bits d [] e apart mem p q = absurd (not-nil mem)
  not_both_of bits d (x ∷ rest) e apart mem p q = elim (cases_cons mem) [
    | inl same ↦ not_both bits d x (ground (arith, apart)) p (sym (ap (matches bits) same) ∙ q)
    | inr deeper ↦ not_both_of bits d rest e (ground (arith, apart)) deeper p q
  ]

  only_match :
      (bits : ℕ) (xs : List (InsnDesc F)) (d e : InsnDesc F)
      → all_disjoint xs ≡ true
      → Memᴰ d xs
      → Memᴰ e xs
      → matches bits d ≡ true
      → matches bits e ≡ true
      → e ≡ d
  unfolding all_disjoint
  only_match bits [] d e apart m n p q = absurd (not-nil m)
  only_match bits (x ∷ rest) d e apart m n p q = elim (cases_cons m) [
    | inl d_first ↦ elim (cases_cons n) [
      | inl e_first ↦ e_first ∙ sym d_first
      | inr e_later ↦ absurd (
          not_both_of bits x rest e (ground (arith, apart)) e_later
            (sym (ap (matches bits) d_first) ∙ p) q)
    ]
    | inr d_later ↦ elim (cases_cons n) [
      | inl e_first ↦ absurd (
          not_both_of bits x rest d (ground (arith, apart)) d_later
            (sym (ap (matches bits) e_first) ∙ q) p)
      | inr e_later ↦ only_match bits rest d e (ground (arith, apart)) d_later e_later p q
    ]
  ]

-- By computing: every pair of the table.
all_disjoint-registered : all_disjoint registered ≡ true
unfolding all_disjoint registered
all_disjoint-registered = refl

-- Of the instructions of the opcode table, a word matches one at most.
pub registered_unique :
    (bits : ℕ) (d e : InsnDesc InsnName)
    → Memᴰ d registered
    → Memᴰ e registered
    → matches bits d ≡ true
    → matches bits e ≡ true
    → e ≡ d
registered_unique bits d e m n p q = only_match bits registered d e all_disjoint-registered m n p q
