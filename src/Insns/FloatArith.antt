-- ===== src/Insns/FloatArith.antt =====
-- The arithmetic of floating point: riscv/insns/fadd_s.h and the like.
use riscv_isa_sim.Base.{bit_and, bit_xor, u32}
use riscv_isa_sim.Build.{Build}
use riscv_isa_sim.Insns.Macros.{InsnFunc}
use riscv_isa_sim.Insns.Float.{
  Softfloat, sign_32, sign_64, frs1, frs2, frs3, write_frd, float_rounded,
}

module _ (b : Build) (sf : Softfloat) where
  unfoldable pub rv_fadd_d : InsnFunc
  rv_fadd_d =
      float_rounded b write_frd
        (λ mode insn m. sf.f64_mul_add mode (frs1 insn m) 0x3ff0000000000000 (frs2 insn m))

  unfoldable pub rv_fadd_s : InsnFunc
  rv_fadd_s =
      float_rounded b write_frd
        (λ mode insn m. sf.f32_mul_add mode (u32 (frs1 insn m)) 0x3f800000 (u32 (frs2 insn m)))

  unfoldable pub rv_fsub_d : InsnFunc
  rv_fsub_d = float_rounded b write_frd (λ mode insn m.
      sf.f64_mul_add mode (frs1 insn m) 0x3ff0000000000000 (bit_xor (frs2 insn m) sign_64))

  unfoldable pub rv_fsub_s : InsnFunc
  rv_fsub_s = float_rounded b write_frd (λ mode insn m.
      sf.f32_mul_add mode (u32 (frs1 insn m)) 0x3f800000 (u32 (bit_xor (frs2 insn m) sign_32)))

  unfoldable pub rv_fmul_d : InsnFunc
  rv_fmul_d = float_rounded b write_frd (λ mode insn m.
      sf.f64_mul_add mode (frs1 insn m) (frs2 insn m)
        (bit_and (bit_xor (frs1 insn m) (frs2 insn m)) sign_64))

  unfoldable pub rv_fmul_s : InsnFunc
  rv_fmul_s = float_rounded b write_frd (λ mode insn m.
      sf.f32_mul_add mode (u32 (frs1 insn m)) (u32 (frs2 insn m))
        (u32 (bit_and (bit_xor (frs1 insn m) (frs2 insn m)) sign_32)))

  unfoldable pub rv_fdiv_d : InsnFunc
  rv_fdiv_d = float_rounded b write_frd (λ mode insn m. sf.f64_div mode (frs1 insn m) (frs2 insn m))

  unfoldable pub rv_fdiv_s : InsnFunc
  rv_fdiv_s =
      float_rounded b write_frd
        (λ mode insn m. sf.f32_div mode (u32 (frs1 insn m)) (u32 (frs2 insn m)))

  unfoldable pub rv_fsqrt_d : InsnFunc
  rv_fsqrt_d = float_rounded b write_frd (λ mode insn m. sf.f64_sqrt mode (frs1 insn m))

  unfoldable pub rv_fsqrt_s : InsnFunc
  rv_fsqrt_s = float_rounded b write_frd (λ mode insn m. sf.f32_sqrt mode (u32 (frs1 insn m)))

  unfoldable pub rv_fmadd_d : InsnFunc
  rv_fmadd_d =
      float_rounded b write_frd
        (λ mode insn m. sf.f64_mul_add mode (frs1 insn m) (frs2 insn m) (frs3 insn m))

  unfoldable pub rv_fmadd_s : InsnFunc
  rv_fmadd_s = float_rounded b write_frd (λ mode insn m.
      sf.f32_mul_add mode (u32 (frs1 insn m)) (u32 (frs2 insn m)) (u32 (frs3 insn m)))

  unfoldable pub rv_fmsub_d : InsnFunc
  rv_fmsub_d = float_rounded b write_frd (λ mode insn m.
      sf.f64_mul_add mode (frs1 insn m) (frs2 insn m) (bit_xor (frs3 insn m) sign_64))

  unfoldable pub rv_fmsub_s : InsnFunc
  rv_fmsub_s = float_rounded b write_frd (λ mode insn m.
      sf.f32_mul_add mode (u32 (frs1 insn m)) (u32 (frs2 insn m))
        (u32 (bit_xor (frs3 insn m) sign_32)))

  unfoldable pub rv_fnmadd_d : InsnFunc
  rv_fnmadd_d = float_rounded b write_frd (λ mode insn m.
      sf.f64_mul_add mode (bit_xor (frs1 insn m) sign_64) (frs2 insn m)
        (bit_xor (frs3 insn m) sign_64))

  unfoldable pub rv_fnmadd_s : InsnFunc
  rv_fnmadd_s = float_rounded b write_frd (λ mode insn m.
      sf.f32_mul_add mode (u32 (bit_xor (frs1 insn m) sign_32)) (u32 (frs2 insn m))
        (u32 (bit_xor (frs3 insn m) sign_32)))

  unfoldable pub rv_fnmsub_d : InsnFunc
  rv_fnmsub_d = float_rounded b write_frd (λ mode insn m.
      sf.f64_mul_add mode (bit_xor (frs1 insn m) sign_64) (frs2 insn m) (frs3 insn m))

  unfoldable pub rv_fnmsub_s : InsnFunc
  rv_fnmsub_s = float_rounded b write_frd (λ mode insn m.
      sf.f32_mul_add mode (u32 (bit_xor (frs1 insn m) sign_32)) (u32 (frs2 insn m))
        (u32 (frs3 insn m)))
