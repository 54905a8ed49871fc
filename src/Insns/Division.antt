-- ===== src/Insns/Division.antt =====
-- Division and remainder of riscv/insns fit together, division by zero and overflow included.
use riscv_isa_sim.Base.{
  ℕ, ◌+◌, ◌-◌, ◌*◌, ◌/◌, ◌%◌, ◌^◌, ◌≤◌, ◌<◌, ◌≡◌, ◌⊎◌, ==_iff, refl, sym, ap, ap₂, ◌∙◌, arith, Bool,
  true, false, ◌==◌, ◌&&◌, if◌then◌else◌, Bool-cases, inl, inr, is_neg, add64, sub64, mul64,
  minus_one, u64, sar64,
}
use native.Mathlib.Nat.{mod-le, mod-lt, mod-add-div, mul_comm, div-le_self, mul-add, add-mul}
use riscv_isa_sim.Build.{Build}
use riscv_isa_sim.Isa.Mulhi.{magnitude}
use riscv_isa_sim.Isa.Insn.{rd}
use riscv_isa_sim.Hart.RegFile.{read, write_both}
use riscv_isa_sim.Hart.RegFile.Laws.{IsValid, read-write_both}
use riscv_isa_sim.Hart.Machine.{Machine, Outcome, done}
use riscv_isa_sim.Insns.Macros.{sext_xprlen, rs1_val, rs2_val, result, next_pc, write_rd_and_tag}
use riscv_isa_sim.Insns.Muldiv.{sdiv64, srem64, int64_min, rv_div, rv_rem}

-- At 64 bits nothing is cut.
sext_xprlen-64 : (x : ℕ) → x < 2 ^ 64 → sext_xprlen true x ≡ x
unfolding sext_xprlen sar64
sext_xprlen-64 x small = ground arith

-- A product with the negated number, at 64 bits.
neg_mul : (q b : ℕ) → q ≤ 2 ^ 64 → mul64 (sub64 0 q) b ≡ (2 ^ 64 * b - q * b) % 2 ^ 64
neg_mul q b fits = elim (Bool-cases (q == 0)) [
  | inl none ↦
      ap (λ (t : ℕ). mul64 (sub64 0 t) b) (is_zero none)
      ∙ omega arith
      ∙ sym (ap (λ (t : ℕ). (2 ^ 64 * b - t * b) % 2 ^ 64) (is_zero none))
  | inr some ↦
      ap (λ (t : ℕ). u64 (t * b)) {x = sub64 0 q} {y = 2 ^ 64 - q} (ground arith)
      ∙ ap u64 {x = (2 ^ 64 - q) * b} (omega (arith, split))
]
  where
    is_zero : (q == 0) ≡ true → q ≡ 0
    is_zero e = ground arith

    split : (2 ^ 64 - q) * b + q * b ≡ 2 ^ 64 * b
    split =
        sym (add-mul (2 ^ 64 - q) q b)
        ∙ ap (λ (t : ℕ). t * b) {x = 2 ^ 64 - q + q} {y = 2 ^ 64} (omega arith)

-- A quotient q and a remainder r of the magnitudes, by the signs of the two numbers.
module _ (m n q r : ℕ) (divided : r + q * n ≡ m) (q_le : q ≤ m) where
  both_negative :
      m ≤ 2 ^ 63 → n ≤ 2 ^ 64 → 0 < m → add64 (mul64 q (2 ^ 64 - n)) (sub64 0 r) ≡ 2 ^ 64 - m
  both_negative m_small n_small pos = omega (arith, products)
    where
      products : q * (2 ^ 64 - n) + q * n ≡ q * 2 ^ 64
      products =
          sym (mul-add q (2 ^ 64 - n) n)
          ∙ ap (λ (t : ℕ). q * t) {x = 2 ^ 64 - n + n} {y = 2 ^ 64} (omega arith)

  dividend_negative :
      m ≤ 2 ^ 63 → 0 < m → 0 < n → add64 (mul64 (sub64 0 q) n) (sub64 0 r) ≡ 2 ^ 64 - m
  dividend_negative m_small pos n_pos = omega (arith, neg_mul q n (omega arith))

  divisor_negative : m < 2 ^ 63 → n ≤ 2 ^ 63 → 0 < n → add64 (mul64 (sub64 0 q) (2 ^ 64 - n)) r ≡ m
  divisor_negative m_small n_small pos =
      omega (arith, neg_mul q (2 ^ 64 - n) (omega arith), products)
    where
      products : q * (2 ^ 64 - n) + q * n ≡ q * 2 ^ 64
      products =
          sym (mul-add q (2 ^ 64 - n) n)
          ∙ ap (λ (t : ℕ). q * t) {x = 2 ^ 64 - n + n} {y = 2 ^ 64} (omega arith)

  none_negative : m < 2 ^ 63 → add64 (mul64 q n) r ≡ m
  none_negative m_small = omega arith

module _ (a b : ℕ) (a_small : a < 2 ^ 64) (b_small : b < 2 ^ 64) (nonzero : 0 < b) where
  divided : (m n : ℕ) → m % n + m / n * n ≡ m
  divided m n = omega (arith, mod-add-div m n, mul_comm n (m / n))

  -- The magnitude of a negative number.
  negated :
      (x : ℕ)
      → x < 2 ^ 64
      → is_neg x ≡ true
      → (2 ^ 64 - sub64 0 x ≡ x) × (0 < sub64 0 x) × (sub64 0 x ≤ 2 ^ 63)
  negated x small neg = ground arith

  kept : (x : ℕ) → is_neg x ≡ false → x < 2 ^ 63
  kept x pos = ground arith

  -- The remainder and the quotient times the divisor make up the dividend.
  sdiv64-srem64 : add64 (mul64 (sdiv64 a b) b) (srem64 a b) ≡ a
  unfolding sdiv64 srem64
  sdiv64-srem64 = elim (Bool-cases (is_neg a)) [
    | inl an ↦ elim (Bool-cases (is_neg b)) [
      | inl bn ↦
          let m = sub64 0 a in
          let n = sub64 0 b in
          rw an (
            rw bn (
              ap (λ (t : ℕ). add64 (mul64 (m / n) t) (sub64 0 (m % n)))
                (sym (negated b b_small bn).0)
              ∙ both_negative m n (m / n) (m % n) (divided m n) (div-le_self m n)
                  (negated a a_small an).2 (omega (arith, (negated b b_small bn).2))
                  (negated a a_small an).1
              ∙ (negated a a_small an).0))
      | inr bp ↦
          let m = sub64 0 a in
          rw an (
            rw bp (
              dividend_negative m b (m / b) (m % b) (divided m b) (div-le_self m b)
                (negated a a_small an).2 (negated a a_small an).1 nonzero
              ∙ (negated a a_small an).0))
    ]
    | inr pa ↦ elim (Bool-cases (is_neg b)) [
      | inl bn ↦
          let n = sub64 0 b in
          rw pa (
            rw bn (
              ap (λ (t : ℕ). add64 (mul64 (sub64 0 (a / n)) t) (a % n))
                (sym (negated b b_small bn).0)
              ∙ divisor_negative a n (a / n) (a % n) (divided a n) (div-le_self a n) (kept a pa)
                  (negated b b_small bn).2 (negated b b_small bn).1))
      | inr bp ↦
          rw pa
            (rw bp (none_negative a b (a / b) (a % b) (divided a b) (div-le_self a b) (kept a pa)))
    ]
  ]

sdiv64-lt : (a b : ℕ) → a < 2 ^ 64 → sdiv64 a b < 2 ^ 64
unfolding sdiv64 magnitude
sdiv64-lt a b small = ground (
  arith,
  div-le_self a b,
  div-le_self a (sub64 0 b),
  div-le_self (sub64 0 a) b,
  div-le_self (sub64 0 a) (sub64 0 b),
)

srem64-lt : (a b : ℕ) → a < 2 ^ 64 → srem64 a b < 2 ^ 64
unfolding srem64 magnitude
srem64-lt a b small =
    ground (
      arith,
      mod-le a b,
      mod-le a (sub64 0 b),
      mod-le (sub64 0 a) b,
      mod-le (sub64 0 a) (sub64 0 b),
    )

magnitude-pos : (b : ℕ) → b < 2 ^ 64 → 0 < b → magnitude 0 < magnitude b
unfolding magnitude
magnitude-pos b small pos = ground arith

magnitude-srem64 :
    (a b : ℕ) → a < 2 ^ 64 → b < 2 ^ 64 → 0 < b → magnitude (srem64 a b) < magnitude b
unfolding srem64 magnitude
magnitude-srem64 a b a_small b_small pos = elim (Bool-cases (is_neg b)) [
  | inl bn ↦
      let n_pos : 0 < sub64 0 b = ground arith in
      ground (arith, mod-lt a n_pos, mod-lt (sub64 0 a) n_pos)
  | inr bp ↦ ground (arith, mod-lt a pos, mod-lt (sub64 0 a) pos)
]

-- What the two instructions write at 64 bits.
abbrev quotient : ℕ → ℕ → ℕ
quotient a b =
    if b == 0 then minus_one else if a == int64_min && b == minus_one then a else sdiv64 a b

abbrev remainder : ℕ → ℕ → ℕ
remainder a b = if b == 0 then a else if a == int64_min && b == minus_one then 0 else srem64 a b

module _ (b : Build) (insn pc : ℕ) (m : Machine) (lhs_small : rs1_val insn m < 2 ^ 64)
    (rhs_small : rs2_val insn m < 2 ^ 64) where
  abbrev lhs : ℕ
  lhs = rs1_val insn m

  abbrev rhs : ℕ
  rhs = rs2_val insn m

  module _ (valid : IsValid 32 true m.state.xpr) (bound : rd insn < 32)
      (written : (rd insn == 0) ≡ false) where
    abbrev Writes : Outcome ℕ → ℕ → Type 0
    Writes o v =
        (m' : Machine) × (o ≡ done (next_pc true pc) m') × (read m'.state.xpr (rd insn) ≡ v)

    result-Writes : (v tag : ℕ) → Writes (result true insn pc v tag m) v
    unfolding result write_rd_and_tag
    result-Writes v tag = (
      record m { state = record m.state { xpr = write_both true (rd insn) v tag m.state.xpr } },
      refl,
      ground (arith, (read-write_both 32 true (rd insn) (rd insn) v tag m.state.xpr valid bound).0),
    )

    Writes-if :
        (test : Bool) (o o' : Outcome ℕ) (v v' : ℕ)
        → Writes o v
        → Writes o' v'
        → Writes (if test then o else o') (if test then v else v')
    Writes-if true o o' v v' w w' = w
    Writes-if false o o' v v' w w' = w'

    rv_div-Writes : Writes (rv_div b true insn pc m) (quotient lhs rhs)
    unfolding rv_div
    rv_div-Writes =
        rw
          (
            sext_xprlen-64 lhs lhs_small,
            sext_xprlen-64 rhs rhs_small,
            sext_xprlen-64 (sdiv64 lhs rhs) (sdiv64-lt lhs rhs lhs_small),
          )
          (Writes-if (rhs == 0) _ _ _ _ (result-Writes minus_one _) (
            Writes-if (lhs == int64_min && rhs == minus_one) _ _ _ _ (result-Writes lhs _)
              (result-Writes (sdiv64 lhs rhs) _)))

    rv_rem-Writes : Writes (rv_rem b true insn pc m) (remainder lhs rhs)
    unfolding rv_rem
    rv_rem-Writes =
        rw
          (
            sext_xprlen-64 lhs lhs_small,
            sext_xprlen-64 rhs rhs_small,
            sext_xprlen-64 (srem64 lhs rhs) (srem64-lt lhs rhs lhs_small),
          )
          (Writes-if (rhs == 0) _ _ _ _ (result-Writes lhs _) (
            Writes-if (lhs == int64_min && rhs == minus_one) _ _ _ _ (result-Writes 0 _)
              (result-Writes (srem64 lhs rhs) _)))

    quotient-remainder : add64 (mul64 (quotient lhs rhs) rhs) (remainder lhs rhs) ≡ lhs
    quotient-remainder = elim (Bool-cases (rhs == 0)) [
      | inl none ↦ rw none (ground arith)
      | inr some ↦ rw some (elim (Bool-cases (lhs == int64_min && rhs == minus_one)) [
        | inl over ↦ rw over (
            overflow ((==_iff lhs int64_min).0 (ground arith))
              ((==_iff rhs minus_one).0 (ground arith)))
        | inr fits ↦ rw fits (sdiv64-srem64 lhs rhs lhs_small rhs_small (ground arith))
      ])
    ]
      where
        overflow : lhs ≡ int64_min → rhs ≡ minus_one → add64 (mul64 lhs rhs) 0 ≡ lhs
        overflow l r = ap₂ (λ (x : ℕ) (y : ℕ). add64 (mul64 x y) 0) l r ∙ sym l

    remainder_bound : (rhs ≡ 0) ⊎ (magnitude (remainder lhs rhs) < magnitude rhs)
    remainder_bound = elim (Bool-cases (rhs == 0)) [
      | inl none ↦ inl (ground arith)
      | inr some ↦ inr (
          rw some (elim (Bool-cases (lhs == int64_min && rhs == minus_one)) [
            | inl over ↦ rw over (magnitude-pos rhs rhs_small (ground arith))
            | inr fits ↦ rw fits (magnitude-srem64 lhs rhs lhs_small rhs_small (ground arith))
          ]))
    ]

    -- At 64 bits, DIV and REM of the same registers end, and the quotient times the divisor plus the
    -- remainder is the dividend, as 64-bit words: also for a divisor of 0 and for the quotient that
    -- overflows. The magnitude of the remainder is below that of the divisor, unless that is 0. The
    -- registers hold 64-bit words, and the destination is not register 0.
    pub rv_div-rv_rem :
        (mq : Machine) × (mr : Machine) × (rv_div b true insn pc m ≡ done (next_pc true pc) mq)
        × (rv_rem b true insn pc m ≡ done (next_pc true pc) mr)
        × (add64 (mul64 (read mq.state.xpr (rd insn)) rhs) (read mr.state.xpr (rd insn)) ≡ lhs)
        × ((rhs ≡ 0) ⊎ (magnitude (read mr.state.xpr (rd insn)) < magnitude rhs))
    rv_div-rv_rem =
        let (mq, eq, vq) = rv_div-Writes in
        let (mr, er, vr) = rv_rem-Writes in
        (mq, mr, eq, er, rw (vq, vr) quotient-remainder, rw vr remainder_bound)
