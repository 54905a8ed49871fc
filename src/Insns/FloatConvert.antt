-- ===== src/Insns/FloatConvert.antt =====
-- Conversions between floating point and integers: riscv/insns/fcvt_w_s.h and the like.
use riscv_isa_sim.Base.{u32, sext32}
use riscv_isa_sim.Build.{Build}
use riscv_isa_sim.Insns.Macros.{InsnFunc, rs1_val, require_xpr64}
use riscv_isa_sim.Insns.Float.{
  Softfloat, Flagged, flagged, frs1, write_rd, write_frd, float_rounded,
}

-- `sext32` of the value.
abbrev sext_value : Flagged → Flagged
sext_value (flagged value flags) = flagged (sext32 value) flags

module _ (b : Build) (sf : Softfloat) where
  unfoldable pub rv_fcvt_d_l : InsnFunc
  unfolding require_xpr64
  rv_fcvt_d_l xpr64 insn pc =
      require_xpr64 xpr64 (
        float_rounded b write_frd (λ mode insn m. sf.i64_to_f64 mode (rs1_val insn m)) xpr64 insn
          pc)

  unfoldable pub rv_fcvt_d_lu : InsnFunc
  unfolding require_xpr64
  rv_fcvt_d_lu xpr64 insn pc = require_xpr64 xpr64 (
      float_rounded b write_frd (λ mode insn m. sf.ui64_to_f64 mode (rs1_val insn m)) xpr64 insn pc)

  unfoldable pub rv_fcvt_d_s : InsnFunc
  rv_fcvt_d_s = float_rounded b write_frd (λ mode insn m. sf.f32_to_f64 mode (u32 (frs1 insn m)))

  unfoldable pub rv_fcvt_d_w : InsnFunc
  rv_fcvt_d_w = float_rounded b write_frd (λ mode insn m. sf.i32_to_f64 mode (u32 (rs1_val insn m)))

  unfoldable pub rv_fcvt_d_wu : InsnFunc
  rv_fcvt_d_wu =
      float_rounded b write_frd (λ mode insn m. sf.ui32_to_f64 mode (u32 (rs1_val insn m)))

  unfoldable pub rv_fcvt_l_d : InsnFunc
  unfolding require_xpr64
  rv_fcvt_l_d xpr64 insn pc =
      require_xpr64 xpr64
        (float_rounded b write_rd (λ mode insn m. sf.f64_to_i64 mode (frs1 insn m)) xpr64 insn pc)

  unfoldable pub rv_fcvt_l_s : InsnFunc
  unfolding require_xpr64
  rv_fcvt_l_s xpr64 insn pc = require_xpr64 xpr64 (
      float_rounded b write_rd (λ mode insn m. sf.f32_to_i64 mode (u32 (frs1 insn m))) xpr64 insn
        pc)

  unfoldable pub rv_fcvt_lu_d : InsnFunc
  unfolding require_xpr64
  rv_fcvt_lu_d xpr64 insn pc =
      require_xpr64 xpr64
        (float_rounded b write_rd (λ mode insn m. sf.f64_to_ui64 mode (frs1 insn m)) xpr64 insn pc)

  unfoldable pub rv_fcvt_lu_s : InsnFunc
  unfolding require_xpr64
  rv_fcvt_lu_s xpr64 insn pc = require_xpr64 xpr64 (
      float_rounded b write_rd (λ mode insn m. sf.f32_to_ui64 mode (u32 (frs1 insn m))) xpr64 insn
        pc)

  unfoldable pub rv_fcvt_s_d : InsnFunc
  rv_fcvt_s_d = float_rounded b write_frd (λ mode insn m. sf.f64_to_f32 mode (frs1 insn m))

  unfoldable pub rv_fcvt_s_l : InsnFunc
  unfolding require_xpr64
  rv_fcvt_s_l xpr64 insn pc =
      require_xpr64 xpr64 (
        float_rounded b write_frd (λ mode insn m. sf.i64_to_f32 mode (rs1_val insn m)) xpr64 insn
          pc)

  unfoldable pub rv_fcvt_s_lu : InsnFunc
  unfolding require_xpr64
  rv_fcvt_s_lu xpr64 insn pc = require_xpr64 xpr64 (
      float_rounded b write_frd (λ mode insn m. sf.ui64_to_f32 mode (rs1_val insn m)) xpr64 insn pc)

  unfoldable pub rv_fcvt_s_w : InsnFunc
  rv_fcvt_s_w = float_rounded b write_frd (λ mode insn m. sf.i32_to_f32 mode (u32 (rs1_val insn m)))

  unfoldable pub rv_fcvt_s_wu : InsnFunc
  rv_fcvt_s_wu =
      float_rounded b write_frd (λ mode insn m. sf.ui32_to_f32 mode (u32 (rs1_val insn m)))

  unfoldable pub rv_fcvt_w_d : InsnFunc
  rv_fcvt_w_d =
      float_rounded b write_rd (λ mode insn m. sext_value (sf.f64_to_i32 mode (frs1 insn m)))

  unfoldable pub rv_fcvt_w_s : InsnFunc
  rv_fcvt_w_s =
      float_rounded b write_rd (λ mode insn m. sext_value (sf.f32_to_i32 mode (u32 (frs1 insn m))))

  unfoldable pub rv_fcvt_wu_d : InsnFunc
  rv_fcvt_wu_d =
      float_rounded b write_rd (λ mode insn m. sext_value (sf.f64_to_ui32 mode (frs1 insn m)))

  unfoldable pub rv_fcvt_wu_s : InsnFunc
  rv_fcvt_wu_s =
      float_rounded b write_rd (λ mode insn m. sext_value (sf.f32_to_ui32 mode (u32 (frs1 insn m))))
