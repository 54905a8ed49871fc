-- ===== src/Insns/FloatMove.antt =====
-- Comparisons, signs and moves of floating point: riscv/insns/feq_s.h, fsgnj_s.h, fmv_x_s.h and the
-- like.
use riscv_isa_sim.Base.{ℕ, Bool, ◌==◌, if◌then◌else◌, bit_and, bit_or, bit_xor, not64, u32, sext32}
use riscv_isa_sim.Build.{Build}
use riscv_isa_sim.Insns.Macros.{InsnFunc, rs1_val, require_xpr64}
use riscv_isa_sim.Insns.Float.{
  Softfloat, Flagged, flagged, sign_32, sign_64, frs1, frs2, write_rd, write_frd, float_flagged,
  float_move,
}

-- `isNaN(b) || test ? a : b`, with the flags of the test, where that is made.
unfoldable pub pick : Bool → Flagged → ℕ → ℕ → Flagged
pick nan (flagged test flags) a b =
    if nan then flagged a 0 else if test == 0 then flagged b flags else flagged a flags

module _ (b : Build) (sf : Softfloat) where
  unfoldable pub rv_feq_d : InsnFunc
  rv_feq_d = float_flagged b write_rd (λ insn m. sf.f64_eq (frs1 insn m) (frs2 insn m))

  unfoldable pub rv_feq_s : InsnFunc
  rv_feq_s = float_flagged b write_rd (λ insn m. sf.f32_eq (u32 (frs1 insn m)) (u32 (frs2 insn m)))

  unfoldable pub rv_fle_d : InsnFunc
  rv_fle_d = float_flagged b write_rd (λ insn m. sf.f64_le (frs1 insn m) (frs2 insn m))

  unfoldable pub rv_fle_s : InsnFunc
  rv_fle_s = float_flagged b write_rd (λ insn m. sf.f32_le (u32 (frs1 insn m)) (u32 (frs2 insn m)))

  unfoldable pub rv_flt_d : InsnFunc
  rv_flt_d = float_flagged b write_rd (λ insn m. sf.f64_lt (frs1 insn m) (frs2 insn m))

  unfoldable pub rv_flt_s : InsnFunc
  rv_flt_s = float_flagged b write_rd (λ insn m. sf.f32_lt (u32 (frs1 insn m)) (u32 (frs2 insn m)))

  unfoldable pub rv_fmax_d : InsnFunc
  rv_fmax_d = float_flagged b write_frd (λ insn m.
      pick (sf.is_nan_f64 (frs2 insn m)) (sf.f64_le_quiet (frs2 insn m) (frs1 insn m)) (frs1 insn m)
        (frs2 insn m))

  unfoldable pub rv_fmax_s : InsnFunc
  rv_fmax_s = float_flagged b write_frd (λ insn m.
      pick (sf.is_nan_f32 (u32 (frs2 insn m)))
        (sf.f32_le_quiet (u32 (frs2 insn m)) (u32 (frs1 insn m))) (frs1 insn m) (frs2 insn m))

  unfoldable pub rv_fmin_d : InsnFunc
  rv_fmin_d = float_flagged b write_frd (λ insn m.
      pick (sf.is_nan_f64 (frs2 insn m)) (sf.f64_lt_quiet (frs1 insn m) (frs2 insn m)) (frs1 insn m)
        (frs2 insn m))

  unfoldable pub rv_fmin_s : InsnFunc
  rv_fmin_s = float_flagged b write_frd (λ insn m.
      pick (sf.is_nan_f32 (u32 (frs2 insn m)))
        (sf.f32_lt_quiet (u32 (frs1 insn m)) (u32 (frs2 insn m))) (frs1 insn m) (frs2 insn m))

  unfoldable pub rv_fclass_d : InsnFunc
  rv_fclass_d = float_move b write_rd (λ insn m. sf.f64_classify (frs1 insn m))

  unfoldable pub rv_fclass_s : InsnFunc
  rv_fclass_s = float_move b write_rd (λ insn m. sf.f32_classify (u32 (frs1 insn m)))

  unfoldable pub rv_fsgnj_d : InsnFunc
  rv_fsgnj_d =
      float_move b write_frd
        (λ insn m. bit_or (bit_and (frs1 insn m) (not64 sign_64)) (bit_and (frs2 insn m) sign_64))

  unfoldable pub rv_fsgnj_s : InsnFunc
  rv_fsgnj_s =
      float_move b write_frd
        (λ insn m. bit_or (bit_and (frs1 insn m) 0x7fffffff) (bit_and (frs2 insn m) sign_32))

  unfoldable pub rv_fsgnjn_d : InsnFunc
  rv_fsgnjn_d = float_move b write_frd (λ insn m.
      bit_or (bit_and (frs1 insn m) (not64 sign_64)) (bit_and (not64 (frs2 insn m)) sign_64))

  unfoldable pub rv_fsgnjn_s : InsnFunc
  rv_fsgnjn_s =
      float_move b write_frd (λ insn m.
        bit_or (bit_and (frs1 insn m) 0x7fffffff) (bit_and (not64 (frs2 insn m)) sign_32))

  unfoldable pub rv_fsgnjx_d : InsnFunc
  rv_fsgnjx_d =
      float_move b write_frd (λ insn m. bit_xor (frs1 insn m) (bit_and (frs2 insn m) sign_64))

  unfoldable pub rv_fsgnjx_s : InsnFunc
  rv_fsgnjx_s =
      float_move b write_frd (λ insn m. bit_xor (frs1 insn m) (bit_and (frs2 insn m) sign_32))

  unfoldable pub rv_fmv_d_x : InsnFunc
  unfolding require_xpr64
  rv_fmv_d_x xpr64 insn pc =
      require_xpr64 xpr64 (float_move b write_frd (λ insn m. rs1_val insn m) xpr64 insn pc)

  unfoldable pub rv_fmv_s_x : InsnFunc
  rv_fmv_s_x = float_move b write_frd (λ insn m. rs1_val insn m)

  unfoldable pub rv_fmv_x_d : InsnFunc
  unfolding require_xpr64
  rv_fmv_x_d xpr64 insn pc =
      require_xpr64 xpr64 (float_move b write_rd (λ insn m. frs1 insn m) xpr64 insn pc)

  unfoldable pub rv_fmv_x_s : InsnFunc
  rv_fmv_x_s = float_move b write_rd (λ insn m. sext32 (frs1 insn m))
