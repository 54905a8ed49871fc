-- ===== src/Isa/Opcodes/Floats.antt =====
-- The instructions of floating point in riscv/encoding.h, by their names and by their opcodes.
use riscv_isa_sim.Base.{
  ℕ, ◌%◌, ◌≡◌, refl, Bool, true, false, ◌==◌, ◌&&◌, ◌||◌, not, if◌then◌else◌, List, [], ◌∷◌,
}
use riscv_isa_sim.Hart.Decode.{InsnDesc}
use riscv_isa_sim.Isa.Opcodes.{
  InsnName, registered, insn_fadd_d, insn_fadd_s, insn_fsub_d, insn_fsub_s, insn_fmul_d,
  insn_fmul_s, insn_fdiv_d, insn_fdiv_s, insn_fsqrt_d, insn_fsqrt_s, insn_fmadd_d, insn_fmadd_s,
  insn_fmsub_d, insn_fmsub_s, insn_fnmadd_d, insn_fnmadd_s, insn_fnmsub_d, insn_fnmsub_s,
  insn_feq_d, insn_feq_s, insn_fle_d, insn_fle_s, insn_flt_d, insn_flt_s, insn_fmax_d, insn_fmax_s,
  insn_fmin_d, insn_fmin_s, insn_fclass_d, insn_fclass_s, insn_fsgnj_d, insn_fsgnj_s, insn_fsgnjn_d,
  insn_fsgnjn_s, insn_fsgnjx_d, insn_fsgnjx_s, insn_fmv_d_x, insn_fmv_s_x, insn_fmv_x_d,
  insn_fmv_x_s, insn_fcvt_d_l, insn_fcvt_d_lu, insn_fcvt_d_s, insn_fcvt_d_w, insn_fcvt_d_wu,
  insn_fcvt_l_d, insn_fcvt_l_s, insn_fcvt_lu_d, insn_fcvt_lu_s, insn_fcvt_s_d, insn_fcvt_s_l,
  insn_fcvt_s_lu, insn_fcvt_s_w, insn_fcvt_s_wu, insn_fcvt_w_d, insn_fcvt_w_s, insn_fcvt_wu_d,
  insn_fcvt_wu_s, insn_fld, insn_flw, insn_fsd, insn_fsw,
}

-- Those that are named after floating point.
unfoldable pub is_float : InsnName → Bool
is_float insn_fadd_d = true
is_float insn_fadd_s = true
is_float insn_fsub_d = true
is_float insn_fsub_s = true
is_float insn_fmul_d = true
is_float insn_fmul_s = true
is_float insn_fdiv_d = true
is_float insn_fdiv_s = true
is_float insn_fsqrt_d = true
is_float insn_fsqrt_s = true
is_float insn_fmadd_d = true
is_float insn_fmadd_s = true
is_float insn_fmsub_d = true
is_float insn_fmsub_s = true
is_float insn_fnmadd_d = true
is_float insn_fnmadd_s = true
is_float insn_fnmsub_d = true
is_float insn_fnmsub_s = true
is_float insn_feq_d = true
is_float insn_feq_s = true
is_float insn_fle_d = true
is_float insn_fle_s = true
is_float insn_flt_d = true
is_float insn_flt_s = true
is_float insn_fmax_d = true
is_float insn_fmax_s = true
is_float insn_fmin_d = true
is_float insn_fmin_s = true
is_float insn_fclass_d = true
is_float insn_fclass_s = true
is_float insn_fsgnj_d = true
is_float insn_fsgnj_s = true
is_float insn_fsgnjn_d = true
is_float insn_fsgnjn_s = true
is_float insn_fsgnjx_d = true
is_float insn_fsgnjx_s = true
is_float insn_fmv_d_x = true
is_float insn_fmv_s_x = true
is_float insn_fmv_x_d = true
is_float insn_fmv_x_s = true
is_float insn_fcvt_d_l = true
is_float insn_fcvt_d_lu = true
is_float insn_fcvt_d_s = true
is_float insn_fcvt_d_w = true
is_float insn_fcvt_d_wu = true
is_float insn_fcvt_l_d = true
is_float insn_fcvt_l_s = true
is_float insn_fcvt_lu_d = true
is_float insn_fcvt_lu_s = true
is_float insn_fcvt_s_d = true
is_float insn_fcvt_s_l = true
is_float insn_fcvt_s_lu = true
is_float insn_fcvt_s_w = true
is_float insn_fcvt_s_wu = true
is_float insn_fcvt_w_d = true
is_float insn_fcvt_w_s = true
is_float insn_fcvt_wu_d = true
is_float insn_fcvt_wu_s = true
is_float insn_fld = true
is_float insn_flw = true
is_float insn_fsd = true
is_float insn_fsw = true
is_float other = false

-- Those whose opcode is of loads, stores, sums of products and operations of floating point.
abbrev is_float_opcode : ℕ → Bool
is_float_opcode bits =
    bits == 0x07
    || bits == 0x27
    || bits == 0x43
    || bits == 0x47
    || bits == 0x4b
    || bits == 0x4f
    || bits == 0x53

unfoldable pub all_agree : List (InsnDesc InsnName) → Bool
unfolding is_float
all_agree [] = true
all_agree (d ∷ rest) =
    (if is_float_opcode (d.match_bits % 0x80) then is_float d.rv64 else not (is_float d.rv64))
    && all_agree rest

-- The registered instructions that are named after floating point are those with one of its opcodes.
float_opcodes : all_agree registered ≡ true
unfolding all_agree registered
float_opcodes = refl
