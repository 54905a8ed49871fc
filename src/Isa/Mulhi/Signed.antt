-- ===== src/Isa/Mulhi/Signed.antt =====
-- `mulh` and `mulhsu` against the exact product of the signed numbers.
use riscv_isa_sim.Base.{
  ℕ, ◌+◌, ◌-◌, ◌*◌, ◌/◌, ◌%◌, ◌^◌, ◌≤◌, ◌<◌, ◌≡◌, ap, ap₂, ◌∙◌, sym, arith, ltb, if◌then◌else◌,
  true, zero, suc, ◌↔◌,
}
use native.Mathlib.Decide.{dec_lt}
use native.Mathlib.Nat.{add-mul-mod_self_left, mul-zero, zero-mod, mod_self, mul_comm}
use riscv_isa_sim.Isa.Mulhi.{mulhu, mulh, mulhsu, magnitude, negate_high}
use riscv_isa_sim.Isa.Mulhi.Laws.{mulhu_lem}

-- The 128-bit two's complement pattern of an int64_t.
abbrev pub extend128 : ℕ → ℕ
extend128 a = if ltb a (2 ^ 63) then a else a + (2 ^ 128 - 2 ^ 64)

mul-lt128 : (x y : ℕ) → x ≤ 2 ^ 63 → y < 2 ^ 64 → x * y < 2 ^ 127
mul-lt128 x y p q = grind arith

negate_high_lem :
    (m low : ℕ)
    → m < 2 ^ 128
    → (low ≡ 0) ↔ (m % 2 ^ 64 ≡ 0)
    → negate_high true (m / 2 ^ 64) low ≡ (2 ^ 128 - m) % 2 ^ 128 / 2 ^ 64
unfolding negate_high
negate_high_lem m low h e = ground arith

expand_mul : (d x w y : ℕ) → d + x ≡ w → d * y + x * y ≡ w * y
expand_mul d x w y e = omega (arith, ap (λ (t : ℕ). t * y) e)

-- The product of a negative and a non-negative number, modulo a power of two.
mul_negated : (w x y : ℕ) → 0 < w → x ≤ w → x * y ≤ w → (w - x) * y % w ≡ (w - x * y) % w
mul_negated w x zero pos h k =
    ap (λ (t : ℕ). t % w) (mul-zero (w - x))
    ∙ zero-mod w
    ∙ sym (
        ap (λ (t : ℕ). (w - t) % w) (mul-zero x) ∙ ap (λ (t : ℕ). t % w) (omega arith) ∙ mod_self w)
mul_negated w x (suc y) pos h k =
    ap (λ (t : ℕ). t % w) expanded ∙ add-mul-mod_self_left (w - x * suc y) w y
  where
    expanded : (w - x) * suc y ≡ w - x * suc y + w * y
    expanded = omega (arith, expand_mul (w - x) x w (suc y) (omega arith))

-- The product of two negative numbers.
mul_both_negated : (w x y : ℕ) → x ≤ w → y ≤ w → x + y ≤ w → (w - x) * (w - y) % w ≡ x * y % w
mul_both_negated w x y p q r =
    ap (λ (t : ℕ). t % w) expanded ∙ add-mul-mod_self_left (x * y) w (w - x - y)
  where
    expanded : (w - x) * (w - y) ≡ x * y + w * (w - x - y)
    expanded = omega (
      arith,
      expand_mul (w - x) x w y (omega arith),
      expand_mul (w - y) y w (w - x) (omega arith),
      expand_mul (w - x - y) y (w - x) w (omega arith),
    )

-- The two operands of different sign: x is the magnitude of the negative one.
mixed_signs :
    (x y : ℕ)
    → 0 < x
    → x ≤ 2 ^ 63
    → y < 2 ^ 64
    → negate_high true (x * y / 2 ^ 64) ((2 ^ 64 - x) * y % 2 ^ 64)
      ≡ (2 ^ 128 - x) * y % 2 ^ 128 / 2 ^ 64
mixed_signs x y pos p q =
    negate_high_lem (x * y) ((2 ^ 64 - x) * y % 2 ^ 64) (omega (arith, mul-lt128 x y p q))
      ((λ h. omega (arith, low)), (λ h. omega (arith, low)))
    ∙ ap (λ (t : ℕ). t / 2 ^ 64)
        (sym (
          mul_negated (2 ^ 128) x y (omega arith) (omega arith) (omega (arith, mul-lt128 x y p q))))
  where
    low : (2 ^ 64 - x) * y + x * y ≡ 2 ^ 64 * y
    low = expand_mul (2 ^ 64 - x) x (2 ^ 64) y (omega arith)

neg_parts :
    (a : ℕ)
    → a < 2 ^ 64
    → 2 ^ 63 ≤ a
    → (a ≡ 2 ^ 64 - magnitude a)
      × (extend128 a ≡ 2 ^ 128 - magnitude a)
      × (0 < magnitude a)
      × (magnitude a ≤ 2 ^ 63)
unfolding magnitude
neg_parts a p n = ground arith

pos_parts : (a : ℕ) → a < 2 ^ 63 → (magnitude a ≡ a) × (extend128 a ≡ a)
unfolding magnitude
pos_parts a p = ground arith

mul-lt_pos : (x y : ℕ) → x < 2 ^ 64 → y < 2 ^ 64 → x * y < 2 ^ 128
mul-lt_pos x y p q = grind arith

-- A negative number times y, by magnitudes.
neg_times :
    (a y : ℕ)
    → a < 2 ^ 64
    → 2 ^ 63 ≤ a
    → y < 2 ^ 64
    → negate_high true (mulhu (magnitude a) y) (a * y % 2 ^ 64) ≡ extend128 a * y % 2 ^ 128 / 2 ^ 64
neg_times a y p n q =
    ap₂ (negate_high true) (mulhu_lem (magnitude a) y (omega (arith, parts)) q)
      (ap (λ (t : ℕ). t * y % 2 ^ 64) parts.0)
    ∙ mixed_signs (magnitude a) y parts.2 parts.3 q
    ∙ ap (λ (t : ℕ). t * y % 2 ^ 128 / 2 ^ 64) (sym parts.1)
  where
    parts :
        (a ≡ 2 ^ 64 - magnitude a)
        × (extend128 a ≡ 2 ^ 128 - magnitude a)
        × (0 < magnitude a)
        × (magnitude a ≤ 2 ^ 63)
    parts = neg_parts a p n

pos_times : (x y : ℕ) → x < 2 ^ 64 → y < 2 ^ 64 → mulhu x y ≡ x * y % 2 ^ 128 / 2 ^ 64
pos_times x y p q = omega (arith, mulhu_lem x y p q, mul-lt_pos x y p q)

mulhsu-neg :
    (a b : ℕ) → 2 ^ 63 ≤ a → mulhsu a b ≡ negate_high true (mulhu (magnitude a) b) (a * b % 2 ^ 64)
unfolding mulhsu
mulhsu-neg a b h = ground arith

mulhsu-pos : (a b : ℕ) → a < 2 ^ 63 → mulhsu a b ≡ mulhu a b
unfolding mulhsu
mulhsu-pos a b h = ground arith

-- `mulhsu` returns the high 64 bits of the product of a signed and an unsigned word.
pub mulhsu_lem :
    (a b : ℕ) → a < 2 ^ 64 → b < 2 ^ 64 → mulhsu a b ≡ extend128 a * b % 2 ^ 128 / 2 ^ 64
mulhsu_lem a b p q = elim (dec_lt a (2 ^ 63)) [
  | yes h ↦
      mulhsu-pos a b h
      ∙ pos_times a b p q
      ∙ ap (λ (t : ℕ). t * b % 2 ^ 128 / 2 ^ 64) (sym (pos_parts a h).1)
  | no h ↦ mulhsu-neg a b (omega arith) ∙ neg_times a b p (omega arith) q
]

mulh-neg_neg : (a b : ℕ) → 2 ^ 63 ≤ a → 2 ^ 63 ≤ b → mulh a b ≡ mulhu (magnitude a) (magnitude b)
unfolding mulh
mulh-neg_neg a b h k = ground arith

mulh-neg_pos :
    (a b : ℕ)
    → 2 ^ 63 ≤ a
    → b < 2 ^ 63
    → mulh a b ≡ negate_high true (mulhu (magnitude a) b) (a * b % 2 ^ 64)
unfolding mulh
mulh-neg_pos a b h k = ground arith

mulh-pos_neg :
    (a b : ℕ)
    → a < 2 ^ 63
    → 2 ^ 63 ≤ b
    → mulh a b ≡ negate_high true (mulhu a (magnitude b)) (a * b % 2 ^ 64)
unfolding mulh
mulh-pos_neg a b h k = ground arith

mulh-pos_pos : (a b : ℕ) → a < 2 ^ 63 → b < 2 ^ 63 → mulh a b ≡ mulhu a b
unfolding mulh
mulh-pos_pos a b h k = ground arith

mulhu_comm : (a b : ℕ) → a < 2 ^ 64 → b < 2 ^ 64 → mulhu a b ≡ mulhu b a
mulhu_comm a b p q = omega (arith, mulhu_lem a b p q, mulhu_lem b a q p)

both_neg :
    (a b : ℕ)
    → a < 2 ^ 64
    → b < 2 ^ 64
    → 2 ^ 63 ≤ a
    → 2 ^ 63 ≤ b
    → mulhu (magnitude a) (magnitude b) ≡ extend128 a * extend128 b % 2 ^ 128 / 2 ^ 64
both_neg a b p q h k =
    pos_times (magnitude a) (magnitude b) (omega (arith, neg_parts a p h))
      (omega (arith, neg_parts b q k))
    ∙ ap (λ (t : ℕ). t / 2 ^ 64)
        (sym (
          mul_both_negated (2 ^ 128) (magnitude a) (magnitude b) (omega (arith, neg_parts a p h))
            (omega (arith, neg_parts b q k)) (omega (arith, neg_parts a p h, neg_parts b q k))))
    ∙ ap₂ (λ (s t : ℕ). s * t % 2 ^ 128 / 2 ^ 64) (sym (neg_parts a p h).1)
        (sym (neg_parts b q k).1)

-- `mulh` returns the high 64 bits of the product of two signed words.
pub mulh_lem :
    (a b : ℕ) → a < 2 ^ 64 → b < 2 ^ 64 → mulh a b ≡ extend128 a * extend128 b % 2 ^ 128 / 2 ^ 64
mulh_lem a b p q = elim (dec_lt a (2 ^ 63)) [
  | yes h ↦ elim (dec_lt b (2 ^ 63)) [
    | yes k ↦
        mulh-pos_pos a b h k
        ∙ pos_times a b p q
        ∙ ap₂ (λ (s t : ℕ). s * t % 2 ^ 128 / 2 ^ 64) (sym (pos_parts a h).1)
            (sym (pos_parts b k).1)
    | no k ↦
        mulh-pos_neg a b h (omega arith)
        ∙ ap₂ (negate_high true)
            (mulhu_comm a (magnitude b) p (omega (arith, neg_parts b q (omega arith))))
            (omega arith)
        ∙ neg_times b a q (omega arith) p
        ∙ ap (λ (t : ℕ). t % 2 ^ 128 / 2 ^ 64) (mul_comm (extend128 b) a)
        ∙ ap (λ (t : ℕ). t * extend128 b % 2 ^ 128 / 2 ^ 64) (sym (pos_parts a h).1)
  ]
  | no h ↦ elim (dec_lt b (2 ^ 63)) [
    | yes k ↦
        mulh-neg_pos a b (omega arith) k
        ∙ neg_times a b p (omega arith) q
        ∙ ap (λ (t : ℕ). extend128 a * t % 2 ^ 128 / 2 ^ 64) (sym (pos_parts b k).1)
    | no k ↦
        mulh-neg_neg a b (omega arith) (omega arith) ∙ both_neg a b p q (omega arith) (omega arith)
  ]
]
