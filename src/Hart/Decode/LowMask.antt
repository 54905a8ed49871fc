-- ===== src/Hart/Decode/LowMask.antt =====
-- The mask that the buckets are counted with: ones from the lowest bit up, which every instruction
-- tests.
use riscv_isa_sim.Base.{
  subst, bit_and-zero, ℕ, zero, suc, ◌+◌, ◌-◌, ◌/◌, ◌%◌, ◌^◌, ◌≤◌, ◌≡◌, ◌∙◌, ap, sym, refl, arith,
  Bool-cases, inl, inr, ◌==◌, bit, bit_and, bit-bit_and, bit_ext_all, bit_and_low, List, [], ◌∷◌,
}
use native.Mathlib.Nat.{pow-suc, one-le-pow, add-mod_right, mod-eq_of_lt}
use mathlib.Core.List.{Memᴰ}
use mathlib.Core.List.Memᴰ.{not-nil, cases_cons}
use riscv_isa_sim.Hart.Decode.{InsnDesc, shrink_buckets, low_mask}

-- Every bit of the second is in the first.
abbrev pub Covers : ℕ → ℕ → Type 0
Covers a b = bit_and a b ≡ b

pub Covers-trans : (a b c : ℕ) → Covers a b → Covers b c → Covers a c
Covers-trans a b c p q = bit_ext_all (bit_and a c) c (λ i. omega (
  arith,
  bit-bit_and a c i,
  bit-bit_and a b i,
  bit-bit_and b c i,
  ap (λ t. bit t i) p,
  ap (λ t. bit t i) q,
))

Covers-self : (a : ℕ) → Covers a a
Covers-self a = bit_ext_all (bit_and a a) a (λ i. omega (arith, bit-bit_and a a i))

Covers-half : (k : ℕ) → Covers (2 ^ suc k - 1) (2 ^ k - 1)
Covers-half k =
    bit_and_low k (2 ^ suc k - 1)
    ∙ ap (λ (t : ℕ). t % 2 ^ k) {x = 2 ^ suc k - 1} {y = 2 ^ k - 1 + 2 ^ k}
        (omega (arith, pow-suc 2 k, one-le-pow k 2 (omega arith)))
    ∙ add-mod_right (2 ^ k - 1) (2 ^ k)
    ∙ mod-eq_of_lt (omega (arith, one-le-pow k 2 (omega arith)))

-- k ones, covered by what came before and by the mask of the instruction.
record IsShrunk (start mask value : ℕ) : Type 0 where
  ones : ℕ
  few : ones ≤ 64
  all_ones : value ≡ 2 ^ ones - 1
  of_start : Covers start value
  of_mask : Covers mask value

-- A further round.
shrink_more :
    (k mask value : ℕ) → IsShrunk (2 ^ k - 1) mask value → IsShrunk (2 ^ suc k - 1) mask value
shrink_more k mask value s = record {
  ones = s.ones;
  few = s.few;
  all_ones = s.all_ones;
  of_start = Covers-trans (2 ^ suc k - 1) (2 ^ k - 1) value (Covers-half k) s.of_start;
  of_mask = s.of_mask;
}

halved : (k : ℕ) → 2 ^ k - 1 ≡ (2 ^ suc k - 1) / 2
halved k = omega (arith, pow-suc 2 k)

shrink_buckets-IsShrunk :
    (fuel k mask : ℕ)
    → k ≤ fuel
    → fuel ≤ 64
    → IsShrunk (2 ^ k - 1) mask (shrink_buckets fuel mask (2 ^ k - 1))
unfolding shrink_buckets
shrink_buckets-IsShrunk zero k mask h small = record {
  ones = 0;
  few = omega arith;
  all_ones = ap (λ (t : ℕ). 2 ^ t - 1) {x = k} {y = 0} (omega arith);
  of_start = Covers-self (2 ^ k - 1);
  of_mask =
      ap (λ (t : ℕ). bit_and mask (2 ^ t - 1)) {x = k} {y = 0} (omega arith)
      ∙ bit_and-zero mask
      ∙ ap (λ (t : ℕ). 2 ^ t - 1) {x = 0} {y = k} (omega arith);
}
shrink_buckets-IsShrunk (suc fuel) zero mask h small =
    subst (λ v. IsShrunk (2 ^ 0 - 1) mask v) (ground (arith, bit_and-zero mask))
      (record {
        ones = 0;
        few = omega arith;
        all_ones = refl;
        of_start = Covers-self (2 ^ 0 - 1);
        of_mask = bit_and-zero mask;
      })
shrink_buckets-IsShrunk (suc fuel) (suc k) mask h small =
    elim (Bool-cases (bit_and mask (2 ^ suc k - 1) == 2 ^ suc k - 1)) [
      | inl e ↦ rw e (record {
        ones = suc k;
        few = omega arith;
        all_ones = refl;
        of_start = Covers-self (2 ^ suc k - 1);
        of_mask = ground (arith, e);
      })
      | inr e ↦ rw e (
          shrink_more k mask (shrink_buckets fuel mask ((2 ^ suc k - 1) / 2)) (
            subst (λ v. IsShrunk (2 ^ k - 1) mask (shrink_buckets fuel mask v)) (halved k)
              (shrink_buckets-IsShrunk fuel k mask (omega arith) (omega arith))))
    ]

-- What the loop over the instructions leaves.
pub record IsLowMask {F : Type 0} (start : ℕ) (instructions : List (InsnDesc F)) (value : ℕ)
    : Type 0 where
  pub ones : ℕ
  pub few : ones ≤ 64
  pub all_ones : value ≡ 2 ^ ones - 1
  pub of_start : Covers start value
  pub of_masks : (d : InsnDesc F) → Memᴰ d instructions → Covers d.mask value

pub low_mask-IsLowMask :
    {F : Type 0} (instructions : List (InsnDesc F)) (k : ℕ)
    → k ≤ 64
    → IsLowMask (2 ^ k - 1) instructions (low_mask instructions (2 ^ k - 1))
unfolding low_mask
low_mask-IsLowMask [] k h = record {
  ones = k;
  few = h;
  all_ones = refl;
  of_start = Covers-self (2 ^ k - 1);
  of_masks = λ d mem. absurd (not-nil mem);
}
low_mask-IsLowMask (inst ∷ rest) k h =
    let s = shrink_buckets-IsShrunk 64 k inst.mask h (omega arith) in
    let next : ℕ = shrink_buckets 64 inst.mask (2 ^ k - 1) in
    let l : IsLowMask next rest (low_mask rest next) =
      subst (λ v. IsLowMask v rest (low_mask rest v)) (sym s.all_ones)
        (low_mask-IsLowMask rest s.ones s.few) in
    record {
      ones = l.ones;
      few = l.few;
      all_ones = l.all_ones;
      of_start = Covers-trans (2 ^ k - 1) next (low_mask rest next) s.of_start l.of_start;
      of_masks = λ d mem. elim (cases_cons mem) [
        | inl same ↦
            ap (λ (e : InsnDesc _). bit_and e.mask (low_mask rest next)) same
            ∙ Covers-trans inst.mask next (low_mask rest next) s.of_mask l.of_start
        | inr deeper ↦ l.of_masks d deeper
      ];
    }
