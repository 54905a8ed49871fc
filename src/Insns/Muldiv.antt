-- ===== src/Insns/Muldiv.antt =====
-- Multiplication and division.
use riscv_isa_sim.Base.{
  ℕ, ◌^◌, ◌/◌, ◌%◌, not, ◌==◌, ◌&&◌, if◌then◌else◌, u32, minus_one, mul64, sub64, is_neg, shr64,
  sar64, sext32,
}
use riscv_isa_sim.Build.{Build}
use riscv_isa_sim.Tags.{tag_arith, tag_arith_immediate, tag_null}
use riscv_isa_sim.Isa.Mulhi.{mulhu, mulh, mulhsu, magnitude}
use riscv_isa_sim.Insns.Macros.{
  InsnFunc, sext_xprlen, zext_xprlen, rs1_val, rs2_val, tag_s1, tag_s2, result, require_xpr64,
}

-- `/` and `%` of two int64_t, which round to 0. The code tests for the divisor 0 and the overflow.
unfoldable pub sdiv64 : ℕ → ℕ → ℕ
unfolding magnitude
sdiv64 a b =
    let q = magnitude a / magnitude b in
    let negate = if is_neg a then not (is_neg b) else is_neg b in if negate then sub64 0 q else q

unfoldable pub srem64 : ℕ → ℕ → ℕ
unfolding magnitude
srem64 a b = let r = magnitude a % magnitude b in if is_neg a then sub64 0 r else r

abbrev pub int64_min : ℕ
int64_min = 2 ^ 63

module _ (b : Build) where
  unfoldable pub rv_mul : InsnFunc
  unfolding result
  rv_mul xpr64 insn pc m =
      result xpr64 insn pc (sext_xprlen xpr64 (mul64 (rs1_val insn m) (rs2_val insn m)))
        (tag_arith b (tag_s1 insn m) (tag_s2 insn m)) m

  unfoldable pub rv_mulw : InsnFunc
  unfolding result require_xpr64
  rv_mulw xpr64 insn pc = require_xpr64 xpr64 (λ m.
      result xpr64 insn pc (sext32 (mul64 (rs1_val insn m) (rs2_val insn m)))
        (tag_arith b (tag_s1 insn m) (tag_s2 insn m)) m)

  unfoldable pub rv_mulh : InsnFunc
  unfolding result
  rv_mulh xpr64 insn pc m =
      if xpr64
      then result xpr64 insn pc (mulh (rs1_val insn m) (rs2_val insn m))
          (tag_arith b (tag_s1 insn m) (tag_s2 insn m)) m
      else result xpr64 insn pc
          (sext32 (sar64 (mul64 (sext32 (rs1_val insn m)) (sext32 (rs2_val insn m))) 32))
          (tag_arith b (tag_s1 insn m) (tag_s2 insn m)) m

  unfoldable pub rv_mulhsu : InsnFunc
  unfolding result
  rv_mulhsu xpr64 insn pc m =
      if xpr64
      then result xpr64 insn pc (mulhsu (rs1_val insn m) (rs2_val insn m))
          (tag_arith b (tag_s1 insn m) (tag_s2 insn m)) m
      else result xpr64 insn pc
          (sext32 (shr64 (mul64 (sext32 (rs1_val insn m)) (u32 (rs2_val insn m))) 32))
          (tag_arith b (tag_s1 insn m) (tag_s2 insn m)) m

  unfoldable pub rv_mulhu : InsnFunc
  unfolding result
  rv_mulhu xpr64 insn pc m =
      if xpr64
      then result xpr64 insn pc (mulhu (rs1_val insn m) (rs2_val insn m))
          (tag_arith b (tag_s1 insn m) (tag_s2 insn m)) m
      else result xpr64 insn pc
          (sext32 (shr64 (mul64 (u32 (rs1_val insn m)) (u32 (rs2_val insn m))) 32))
          (tag_arith b (tag_s1 insn m) (tag_s2 insn m)) m

  unfoldable pub rv_div : InsnFunc
  unfolding result
  rv_div xpr64 insn pc m =
      let lhs = sext_xprlen xpr64 (rs1_val insn m) in
      let rhs = sext_xprlen xpr64 (rs2_val insn m) in
      if rhs == 0
      then result xpr64 insn pc (minus_one) (tag_arith b (tag_s1 insn m) (tag_s2 insn m)) m
      else if lhs == int64_min && rhs == minus_one
      then result xpr64 insn pc (lhs) (tag_arith b (tag_s1 insn m) (tag_s2 insn m)) m
      else result xpr64 insn pc (sext_xprlen xpr64 (sdiv64 lhs rhs))
          (tag_arith b (tag_s1 insn m) (tag_s2 insn m)) m

  unfoldable pub rv_divu : InsnFunc
  unfolding result
  rv_divu xpr64 insn pc m =
      let lhs = zext_xprlen xpr64 (rs1_val insn m) in
      let rhs = zext_xprlen xpr64 (rs2_val insn m) in
      if rhs == 0
      then result xpr64 insn pc (minus_one) (tag_arith b (tag_s1 insn m) (tag_s2 insn m)) m
      else result xpr64 insn pc (sext_xprlen xpr64 (lhs / rhs))
          (tag_arith b (tag_s1 insn m) (tag_s2 insn m)) m

  unfoldable pub rv_divw : InsnFunc
  unfolding result require_xpr64
  rv_divw xpr64 insn pc = require_xpr64 xpr64 (λ m.
      let lhs = sext32 (rs1_val insn m) in
      let rhs = sext32 (rs2_val insn m) in
      if rhs == 0
      then result xpr64 insn pc (minus_one) (tag_arith b (tag_s1 insn m) (tag_s2 insn m)) m
      else result xpr64 insn pc (sext32 (sdiv64 lhs rhs))
          (tag_arith b (tag_s1 insn m) (tag_s2 insn m)) m)

  unfoldable pub rv_divuw : InsnFunc
  unfolding result require_xpr64
  rv_divuw xpr64 insn pc = require_xpr64 xpr64 (λ m.
      let lhs = u32 (rs1_val insn m) in
      let rhs = u32 (rs2_val insn m) in
      if rhs == 0
      then result xpr64 insn pc (minus_one) (tag_arith b (tag_s1 insn m) (tag_s2 insn m)) m
      else result xpr64 insn pc (sext32 (lhs / rhs)) (tag_arith b (tag_s1 insn m) (tag_s2 insn m))
          m)

  unfoldable pub rv_rem : InsnFunc
  unfolding result
  rv_rem xpr64 insn pc m =
      let lhs = sext_xprlen xpr64 (rs1_val insn m) in
      let rhs = sext_xprlen xpr64 (rs2_val insn m) in
      if rhs == 0
      then result xpr64 insn pc (lhs) (tag_arith_immediate (tag_s1 insn m)) m
      else if lhs == int64_min && rhs == minus_one
      then result xpr64 insn pc (0) (tag_null) m
      else result xpr64 insn pc (sext_xprlen xpr64 (srem64 lhs rhs))
          (tag_arith b (tag_s1 insn m) (tag_s2 insn m)) m

  unfoldable pub rv_remu : InsnFunc
  unfolding result
  rv_remu xpr64 insn pc m =
      let lhs = zext_xprlen xpr64 (rs1_val insn m) in
      let rhs = zext_xprlen xpr64 (rs2_val insn m) in
      if rhs == 0
      then result xpr64 insn pc (sext_xprlen xpr64 (rs1_val insn m))
          (tag_arith_immediate (tag_s1 insn m)) m
      else result xpr64 insn pc (sext_xprlen xpr64 (lhs % rhs))
          (tag_arith b (tag_s1 insn m) (tag_s2 insn m)) m

  unfoldable pub rv_remw : InsnFunc
  unfolding result require_xpr64
  rv_remw xpr64 insn pc = require_xpr64 xpr64 (λ m.
      let lhs = sext32 (rs1_val insn m) in
      let rhs = sext32 (rs2_val insn m) in
      if rhs == 0
      then result xpr64 insn pc (lhs) (tag_arith_immediate (tag_s1 insn m)) m
      else result xpr64 insn pc (sext32 (srem64 lhs rhs))
          (tag_arith b (tag_s1 insn m) (tag_s2 insn m)) m)

  unfoldable pub rv_remuw : InsnFunc
  unfolding result require_xpr64
  rv_remuw xpr64 insn pc = require_xpr64 xpr64 (λ m.
      let lhs = u32 (rs1_val insn m) in
      let rhs = u32 (rs2_val insn m) in
      if rhs == 0
      then result xpr64 insn pc (sext32 (lhs)) (tag_arith_immediate (tag_s1 insn m)) m
      else result xpr64 insn pc (sext32 (lhs % rhs)) (tag_arith b (tag_s1 insn m) (tag_s2 insn m))
          m)
