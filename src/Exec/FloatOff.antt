-- ===== src/Exec/FloatOff.antt =====
-- With floating point off, every instruction of floating point traps and changes nothing.
use riscv_isa_sim.Base.{ℕ, ◌≡◌, refl, Bool, true, false, ◌&&◌, if◌then◌else◌, has, arith}
use riscv_isa_sim.Build.{Build}
use riscv_isa_sim.Isa.Encoding.{sr_ef}
use riscv_isa_sim.Isa.Opcodes.{
  InsnName, insn_fadd_d, insn_fadd_s, insn_fsub_d, insn_fsub_s, insn_fmul_d, insn_fmul_s,
  insn_fdiv_d, insn_fdiv_s, insn_fsqrt_d, insn_fsqrt_s, insn_fmadd_d, insn_fmadd_s, insn_fmsub_d,
  insn_fmsub_s, insn_fnmadd_d, insn_fnmadd_s, insn_fnmsub_d, insn_fnmsub_s, insn_feq_d, insn_feq_s,
  insn_fle_d, insn_fle_s, insn_flt_d, insn_flt_s, insn_fmax_d, insn_fmax_s, insn_fmin_d,
  insn_fmin_s, insn_fclass_d, insn_fclass_s, insn_fsgnj_d, insn_fsgnj_s, insn_fsgnjn_d,
  insn_fsgnjn_s, insn_fsgnjx_d, insn_fsgnjx_s, insn_fmv_d_x, insn_fmv_s_x, insn_fmv_x_d,
  insn_fmv_x_s, insn_fcvt_d_l, insn_fcvt_d_lu, insn_fcvt_d_s, insn_fcvt_d_w, insn_fcvt_d_wu,
  insn_fcvt_l_d, insn_fcvt_l_s, insn_fcvt_lu_d, insn_fcvt_lu_s, insn_fcvt_s_d, insn_fcvt_s_l,
  insn_fcvt_s_lu, insn_fcvt_s_w, insn_fcvt_s_wu, insn_fcvt_w_d, insn_fcvt_w_s, insn_fcvt_wu_d,
  insn_fcvt_wu_s, insn_fld, insn_flw, insn_fsd, insn_fsw,
}
use riscv_isa_sim.Isa.Opcodes.Floats.{is_float}
use riscv_isa_sim.Hart.Machine.{Machine, Trap, M, trapped, ◌>>=◌, ◌>>◌}
use riscv_isa_sim.Hart.Csr.{require_fp, trap_illegal_instruction, trap_fp_disabled}
use riscv_isa_sim.Insns.Macros.{require_xpr64}
use riscv_isa_sim.Insns.Float.{Softfloat, Flagged, float_rounded, float_flagged, float_move}
use riscv_isa_sim.Insns.FloatArith.{
  rv_fadd_d, rv_fadd_s, rv_fsub_d, rv_fsub_s, rv_fmul_d, rv_fmul_s, rv_fdiv_d, rv_fdiv_s,
  rv_fsqrt_d, rv_fsqrt_s, rv_fmadd_d, rv_fmadd_s, rv_fmsub_d, rv_fmsub_s, rv_fnmadd_d, rv_fnmadd_s,
  rv_fnmsub_d, rv_fnmsub_s,
}
use riscv_isa_sim.Insns.FloatMove.{
  rv_feq_d, rv_feq_s, rv_fle_d, rv_fle_s, rv_flt_d, rv_flt_s, rv_fmax_d, rv_fmax_s, rv_fmin_d,
  rv_fmin_s, rv_fclass_d, rv_fclass_s, rv_fsgnj_d, rv_fsgnj_s, rv_fsgnjn_d, rv_fsgnjn_s,
  rv_fsgnjx_d, rv_fsgnjx_s, rv_fmv_d_x, rv_fmv_s_x, rv_fmv_x_d, rv_fmv_x_s,
}
use riscv_isa_sim.Insns.FloatConvert.{
  rv_fcvt_d_l, rv_fcvt_d_lu, rv_fcvt_d_s, rv_fcvt_d_w, rv_fcvt_d_wu, rv_fcvt_l_d, rv_fcvt_l_s,
  rv_fcvt_lu_d, rv_fcvt_lu_s, rv_fcvt_s_d, rv_fcvt_s_l, rv_fcvt_s_lu, rv_fcvt_s_w, rv_fcvt_s_wu,
  rv_fcvt_w_d, rv_fcvt_w_s, rv_fcvt_wu_d, rv_fcvt_wu_s,
}
use riscv_isa_sim.Insns.FloatMemory.{rv_fld, rv_flw, rv_fsd, rv_fsw}
use riscv_isa_sim.Exec.Dispatch.{execute}

-- From that machine, the action throws a trap and has changed nothing.
unfoldable pub Traps : Machine → M ℕ → Type 0
Traps m action = (t : Trap) × (action m ≡ trapped t m)

module _ (b : Build) (m : Machine) (off : (b.enable_fpu && has m.state.sr sr_ef) ≡ false) where
  require_fp-off : (t : Trap) × (require_fp b m ≡ trapped t m)
  unfolding require_fp
  require_fp-off =
      (if b.enable_fpu then trap_fp_disabled else trap_illegal_instruction, ground arith)

  bind-off : (rest : M ℕ) → Traps m (require_fp b >> rest)
  unfolding Traps
  bind-off rest = (require_fp-off.0, rw (require_fp-off.1, ◌>>=◌))

  float_rounded-off :
      (write_value : ℕ → ℕ → M (Unit {0})) (value : (mode insn : ℕ) → Machine → Flagged)
      (xpr64 : Bool) (insn pc : ℕ)
      → Traps m (float_rounded b write_value value xpr64 insn pc)
  unfolding float_rounded
  float_rounded-off write_value value xpr64 insn pc = bind-off _

  float_flagged-off :
      (write_value : ℕ → ℕ → M (Unit {0})) (value : (insn : ℕ) → Machine → Flagged) (xpr64 : Bool)
      (insn pc : ℕ)
      → Traps m (float_flagged b write_value value xpr64 insn pc)
  unfolding float_flagged
  float_flagged-off write_value value xpr64 insn pc = bind-off _

  float_move-off :
      (write_value : ℕ → ℕ → M (Unit {0})) (value : (insn : ℕ) → Machine → ℕ) (xpr64 : Bool)
      (insn pc : ℕ)
      → Traps m (float_move b write_value value xpr64 insn pc)
  unfolding float_move
  float_move-off write_value value xpr64 insn pc = bind-off _

  require_xpr64-off :
      (xpr64 : Bool) (body : M ℕ) → Traps m body → Traps m (require_xpr64 xpr64 body)
  unfolding require_xpr64 Traps
  require_xpr64-off true body traps = traps
  require_xpr64-off false body traps = (trap_illegal_instruction, refl)

  -- Where the build has no floating point, or the status register has it off, each instruction whose
  -- name is of floating point throws a trap and leaves the machine as it was.
  pub execute-float_off :
      (garbage : ℕ) (tick : Machine → Machine) (sf : Softfloat) (name : InsnName) (xpr64 : Bool)
      (insn pc : ℕ)
      → is_float name ≡ true
      → Traps m (execute b garbage tick sf name xpr64 insn pc)
  unfolding execute is_float rv_fadd_d rv_fadd_s rv_fsub_d rv_fsub_s rv_fmul_d rv_fmul_s rv_fdiv_d
      rv_fdiv_s rv_fsqrt_d rv_fsqrt_s rv_fmadd_d rv_fmadd_s rv_fmsub_d rv_fmsub_s rv_fnmadd_d
      rv_fnmadd_s rv_fnmsub_d rv_fnmsub_s rv_feq_d rv_feq_s rv_fle_d rv_fle_s rv_flt_d rv_flt_s
      rv_fmax_d rv_fmax_s rv_fmin_d rv_fmin_s rv_fclass_d rv_fclass_s rv_fsgnj_d rv_fsgnj_s
      rv_fsgnjn_d rv_fsgnjn_s rv_fsgnjx_d rv_fsgnjx_s rv_fmv_d_x rv_fmv_s_x rv_fmv_x_d rv_fmv_x_s
      rv_fcvt_d_l rv_fcvt_d_lu rv_fcvt_d_s rv_fcvt_d_w rv_fcvt_d_wu rv_fcvt_l_d rv_fcvt_l_s
      rv_fcvt_lu_d rv_fcvt_lu_s rv_fcvt_s_d rv_fcvt_s_l rv_fcvt_s_lu rv_fcvt_s_w rv_fcvt_s_wu
      rv_fcvt_w_d rv_fcvt_w_s rv_fcvt_wu_d rv_fcvt_wu_s rv_fld rv_flw rv_fsd rv_fsw
  execute-float_off garbage tick sf insn_fadd_d xpr64 insn pc e =
      float_rounded-off _ _ xpr64 insn pc
  execute-float_off garbage tick sf insn_fadd_s xpr64 insn pc e =
      float_rounded-off _ _ xpr64 insn pc
  execute-float_off garbage tick sf insn_fsub_d xpr64 insn pc e =
      float_rounded-off _ _ xpr64 insn pc
  execute-float_off garbage tick sf insn_fsub_s xpr64 insn pc e =
      float_rounded-off _ _ xpr64 insn pc
  execute-float_off garbage tick sf insn_fmul_d xpr64 insn pc e =
      float_rounded-off _ _ xpr64 insn pc
  execute-float_off garbage tick sf insn_fmul_s xpr64 insn pc e =
      float_rounded-off _ _ xpr64 insn pc
  execute-float_off garbage tick sf insn_fdiv_d xpr64 insn pc e =
      float_rounded-off _ _ xpr64 insn pc
  execute-float_off garbage tick sf insn_fdiv_s xpr64 insn pc e =
      float_rounded-off _ _ xpr64 insn pc
  execute-float_off garbage tick sf insn_fsqrt_d xpr64 insn pc e =
      float_rounded-off _ _ xpr64 insn pc
  execute-float_off garbage tick sf insn_fsqrt_s xpr64 insn pc e =
      float_rounded-off _ _ xpr64 insn pc
  execute-float_off garbage tick sf insn_fmadd_d xpr64 insn pc e =
      float_rounded-off _ _ xpr64 insn pc
  execute-float_off garbage tick sf insn_fmadd_s xpr64 insn pc e =
      float_rounded-off _ _ xpr64 insn pc
  execute-float_off garbage tick sf insn_fmsub_d xpr64 insn pc e =
      float_rounded-off _ _ xpr64 insn pc
  execute-float_off garbage tick sf insn_fmsub_s xpr64 insn pc e =
      float_rounded-off _ _ xpr64 insn pc
  execute-float_off garbage tick sf insn_fnmadd_d xpr64 insn pc e =
      float_rounded-off _ _ xpr64 insn pc
  execute-float_off garbage tick sf insn_fnmadd_s xpr64 insn pc e =
      float_rounded-off _ _ xpr64 insn pc
  execute-float_off garbage tick sf insn_fnmsub_d xpr64 insn pc e =
      float_rounded-off _ _ xpr64 insn pc
  execute-float_off garbage tick sf insn_fnmsub_s xpr64 insn pc e =
      float_rounded-off _ _ xpr64 insn pc
  execute-float_off garbage tick sf insn_feq_d xpr64 insn pc e = float_flagged-off _ _ xpr64 insn pc
  execute-float_off garbage tick sf insn_feq_s xpr64 insn pc e = float_flagged-off _ _ xpr64 insn pc
  execute-float_off garbage tick sf insn_fle_d xpr64 insn pc e = float_flagged-off _ _ xpr64 insn pc
  execute-float_off garbage tick sf insn_fle_s xpr64 insn pc e = float_flagged-off _ _ xpr64 insn pc
  execute-float_off garbage tick sf insn_flt_d xpr64 insn pc e = float_flagged-off _ _ xpr64 insn pc
  execute-float_off garbage tick sf insn_flt_s xpr64 insn pc e = float_flagged-off _ _ xpr64 insn pc
  execute-float_off garbage tick sf insn_fmax_d xpr64 insn pc e =
      float_flagged-off _ _ xpr64 insn pc
  execute-float_off garbage tick sf insn_fmax_s xpr64 insn pc e =
      float_flagged-off _ _ xpr64 insn pc
  execute-float_off garbage tick sf insn_fmin_d xpr64 insn pc e =
      float_flagged-off _ _ xpr64 insn pc
  execute-float_off garbage tick sf insn_fmin_s xpr64 insn pc e =
      float_flagged-off _ _ xpr64 insn pc
  execute-float_off garbage tick sf insn_fclass_d xpr64 insn pc e = float_move-off _ _ xpr64 insn pc
  execute-float_off garbage tick sf insn_fclass_s xpr64 insn pc e = float_move-off _ _ xpr64 insn pc
  execute-float_off garbage tick sf insn_fsgnj_d xpr64 insn pc e = float_move-off _ _ xpr64 insn pc
  execute-float_off garbage tick sf insn_fsgnj_s xpr64 insn pc e = float_move-off _ _ xpr64 insn pc
  execute-float_off garbage tick sf insn_fsgnjn_d xpr64 insn pc e = float_move-off _ _ xpr64 insn pc
  execute-float_off garbage tick sf insn_fsgnjn_s xpr64 insn pc e = float_move-off _ _ xpr64 insn pc
  execute-float_off garbage tick sf insn_fsgnjx_d xpr64 insn pc e = float_move-off _ _ xpr64 insn pc
  execute-float_off garbage tick sf insn_fsgnjx_s xpr64 insn pc e = float_move-off _ _ xpr64 insn pc
  execute-float_off garbage tick sf insn_fmv_d_x xpr64 insn pc e =
      require_xpr64-off xpr64 _ (float_move-off _ _ xpr64 insn pc)
  execute-float_off garbage tick sf insn_fmv_s_x xpr64 insn pc e = float_move-off _ _ xpr64 insn pc
  execute-float_off garbage tick sf insn_fmv_x_d xpr64 insn pc e =
      require_xpr64-off xpr64 _ (float_move-off _ _ xpr64 insn pc)
  execute-float_off garbage tick sf insn_fmv_x_s xpr64 insn pc e = float_move-off _ _ xpr64 insn pc
  execute-float_off garbage tick sf insn_fcvt_d_l xpr64 insn pc e =
      require_xpr64-off xpr64 _ (float_rounded-off _ _ xpr64 insn pc)
  execute-float_off garbage tick sf insn_fcvt_d_lu xpr64 insn pc e =
      require_xpr64-off xpr64 _ (float_rounded-off _ _ xpr64 insn pc)
  execute-float_off garbage tick sf insn_fcvt_d_s xpr64 insn pc e =
      float_rounded-off _ _ xpr64 insn pc
  execute-float_off garbage tick sf insn_fcvt_d_w xpr64 insn pc e =
      float_rounded-off _ _ xpr64 insn pc
  execute-float_off garbage tick sf insn_fcvt_d_wu xpr64 insn pc e =
      float_rounded-off _ _ xpr64 insn pc
  execute-float_off garbage tick sf insn_fcvt_l_d xpr64 insn pc e =
      require_xpr64-off xpr64 _ (float_rounded-off _ _ xpr64 insn pc)
  execute-float_off garbage tick sf insn_fcvt_l_s xpr64 insn pc e =
      require_xpr64-off xpr64 _ (float_rounded-off _ _ xpr64 insn pc)
  execute-float_off garbage tick sf insn_fcvt_lu_d xpr64 insn pc e =
      require_xpr64-off xpr64 _ (float_rounded-off _ _ xpr64 insn pc)
  execute-float_off garbage tick sf insn_fcvt_lu_s xpr64 insn pc e =
      require_xpr64-off xpr64 _ (float_rounded-off _ _ xpr64 insn pc)
  execute-float_off garbage tick sf insn_fcvt_s_d xpr64 insn pc e =
      float_rounded-off _ _ xpr64 insn pc
  execute-float_off garbage tick sf insn_fcvt_s_l xpr64 insn pc e =
      require_xpr64-off xpr64 _ (float_rounded-off _ _ xpr64 insn pc)
  execute-float_off garbage tick sf insn_fcvt_s_lu xpr64 insn pc e =
      require_xpr64-off xpr64 _ (float_rounded-off _ _ xpr64 insn pc)
  execute-float_off garbage tick sf insn_fcvt_s_w xpr64 insn pc e =
      float_rounded-off _ _ xpr64 insn pc
  execute-float_off garbage tick sf insn_fcvt_s_wu xpr64 insn pc e =
      float_rounded-off _ _ xpr64 insn pc
  execute-float_off garbage tick sf insn_fcvt_w_d xpr64 insn pc e =
      float_rounded-off _ _ xpr64 insn pc
  execute-float_off garbage tick sf insn_fcvt_w_s xpr64 insn pc e =
      float_rounded-off _ _ xpr64 insn pc
  execute-float_off garbage tick sf insn_fcvt_wu_d xpr64 insn pc e =
      float_rounded-off _ _ xpr64 insn pc
  execute-float_off garbage tick sf insn_fcvt_wu_s xpr64 insn pc e =
      float_rounded-off _ _ xpr64 insn pc
  execute-float_off garbage tick sf insn_fld xpr64 insn pc e = bind-off _
  execute-float_off garbage tick sf insn_flw xpr64 insn pc e = bind-off _
  execute-float_off garbage tick sf insn_fsd xpr64 insn pc e = bind-off _
  execute-float_off garbage tick sf insn_fsw xpr64 insn pc e = bind-off _
  execute-float_off garbage tick sf other xpr64 insn pc e = absurd (ground (arith, e))
