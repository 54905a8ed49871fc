-- ===== src/Isa/Mulhi/Laws.antt =====
-- `mulhu`, `mulh` and `mulhsu` against the exact product.
use riscv_isa_sim.Base.{
  ap₂, bit_or, ℕ, ◌+◌, ◌-◌, ◌*◌, ◌/◌, ◌%◌, ◌^◌, ◌≤◌, ◌<◌, ◌≡◌, ap, ◌∙◌, sym, arith, bit_or_sum, u32,
  u64,
}
use riscv_isa_sim.Isa.Mulhi.{mulhu}

mul_small : (x y : ℕ) → x < 2 ^ 32 → y < 2 ^ 32 → x * y ≤ (2 ^ 32 - 1) * (2 ^ 32 - 1)
mul_small x y p q = grind arith

carries :
    (p11 p10 p01 p00 s t : ℕ)
    → s ≡ p10 + p00 / 2 ^ 32
    → t ≡ p01 + s % 2 ^ 32
    → p11 + s / 2 ^ 32 + t / 2 ^ 32 ≡ (p11 * 2 ^ 64 + p10 * 2 ^ 32 + p01 * 2 ^ 32 + p00) / 2 ^ 64
carries p11 p10 p01 p00 s t hs ht = omega arith

joins : (t : ℕ) → t < 2 ^ 64 → bit_or (u64 (u32 (t / 2 ^ 32) * 2 ^ 32)) (u32 t) ≡ t
joins t h =
    ap (λ (s : ℕ). bit_or s (u32 t)) (omega arith)
    ∙ bit_or_sum 32 (t / 2 ^ 32) (t % 2 ^ 32) (omega arith)
    ∙ omega arith

-- The three partial sums of `mulhu`, over halves: none of them wraps.
module _ (a0 a1 b0 b1 : ℕ) (ha0 : a0 < 2 ^ 32) (ha1 : a1 < 2 ^ 32) (hb0 : b0 < 2 ^ 32)
    (hb1 : b1 < 2 ^ 32) where
  abbrev t1 : ℕ
  t1 = u64 (u64 (a1 * b0) + u64 (a0 * b0) / 2 ^ 32)

  abbrev t2 : ℕ
  t2 = u64 (u64 (a0 * b1) + u32 t1)

  abbrev t3 : ℕ
  t3 = u64 (u64 (u64 (a1 * b1) + u32 (t1 / 2 ^ 32)) + t2 / 2 ^ 32)

  t1-eq : t1 ≡ a1 * b0 + a0 * b0 / 2 ^ 32
  t1-eq = omega (arith, mul_small a1 b0 ha1 hb0, mul_small a0 b0 ha0 hb0)

  t2-eq : t2 ≡ a0 * b1 + (a1 * b0 + a0 * b0 / 2 ^ 32) % 2 ^ 32
  t2-eq = omega (arith, mul_small a0 b1 ha0 hb1, ap u32 t1-eq)

  t3-eq : t3 ≡ a1 * b1 + t1 / 2 ^ 32 + t2 / 2 ^ 32
  t3-eq = omega (arith, mul_small a1 b1 ha1 hb1, mul_small a0 b1 ha0 hb1, t1-eq, t2-eq)

  halves : t3 ≡ (a1 * b1 * 2 ^ 64 + a1 * b0 * 2 ^ 32 + a0 * b1 * 2 ^ 32 + a0 * b0) / 2 ^ 64
  halves =
      t3-eq
      ∙ carries (a1 * b1) (a1 * b0) (a0 * b1) (a0 * b0) t1 t2 t1-eq
          (t2-eq ∙ ap (λ (t : ℕ). a0 * b1 + t % 2 ^ 32) (sym t1-eq))

  product :
      (a1 * 2 ^ 32 + a0) * (b1 * 2 ^ 32 + b0)
      ≡ a1 * b1 * 2 ^ 64 + a1 * b0 * 2 ^ 32 + a0 * b1 * 2 ^ 32 + a0 * b0
  product = omega arith

  t3-lt : t3 < 2 ^ 64
  t3-lt = omega arith

-- `mulhu` returns the high 64 bits of the exact product of two 64-bit words: no carry is lost.
pub mulhu_lem : (a b : ℕ) → a < 2 ^ 64 → b < 2 ^ 64 → mulhu a b ≡ a * b / 2 ^ 64
unfolding mulhu
mulhu_lem a b p q =
    let a1 : ℕ = a / 2 ^ 32 in
    let b1 : ℕ = b / 2 ^ 32 in
    let h0 : a % 2 ^ 32 < 2 ^ 32 = omega arith in
    let h1 : a1 < 2 ^ 32 = omega arith in
    let h2 : b % 2 ^ 32 < 2 ^ 32 = omega arith in
    let h3 : b1 < 2 ^ 32 = omega arith in
    let top : ℕ = t3 (a % 2 ^ 32) a1 (b % 2 ^ 32) b1 h0 h1 h2 h3 in
    let joined : bit_or (u64 (u32 (top / 2 ^ 32) * 2 ^ 32)) (u32 top) ≡ top =
      joins top (t3-lt (a % 2 ^ 32) a1 (b % 2 ^ 32) b1 h0 h1 h2 h3) in
    let exact =
      halves (a % 2 ^ 32) a1 (b % 2 ^ 32) b1 h0 h1 h2 h3
      ∙ ap (λ (t : ℕ). t / 2 ^ 64) (sym (product (a % 2 ^ 32) a1 (b % 2 ^ 32) b1 h0 h1 h2 h3)) in
    joined ∙ exact ∙ ap₂ (λ (x y : ℕ). x * y / 2 ^ 64) (omega arith) (omega arith)
