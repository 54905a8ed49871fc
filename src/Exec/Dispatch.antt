-- ===== src/Exec/Dispatch.antt =====
-- The function that `DECLARE_INSN` of riscv/encoding.h registers for each instruction, by its name:
-- `rv32_NAME` and `rv64_NAME` of riscv/insn_template.cc. The library of software floating point is a
-- parameter.
use riscv_isa_sim.Base.{ℕ, Bool, true, false, List, map}
use riscv_isa_sim.Build.{Build}
use riscv_isa_sim.Hart.Machine.{Machine}
use riscv_isa_sim.Hart.Decode.{InsnDesc, OpcodeMap, build_opcode_map}
use riscv_isa_sim.Hart.Trap.{sret}
use riscv_isa_sim.Isa.Opcodes.{
  InsnName, registered, insn_add, insn_addi, insn_addiw, insn_addw, insn_amoadd_d, insn_amoadd_w,
  insn_amoand_d, insn_amoand_w, insn_amomax_d, insn_amomax_w, insn_amomaxu_d, insn_amomaxu_w,
  insn_amomin_d, insn_amomin_w, insn_amominu_d, insn_amominu_w, insn_amoor_d, insn_amoor_w,
  insn_amoswap_d, insn_amoswap_w, insn_amoxor_d, insn_amoxor_w, insn_and, insn_andi, insn_auipc,
  insn_beq, insn_bge, insn_bgeu, insn_blt, insn_bltu, insn_bne, insn_csrrc, insn_csrrci, insn_csrrs,
  insn_csrrsi, insn_csrrw, insn_csrrwi, insn_div, insn_divu, insn_divuw, insn_divw, insn_fence,
  insn_fence_i, insn_jal, insn_jalr, insn_lb, insn_lbu, insn_ld, insn_lh, insn_lhu, insn_lr_d,
  insn_lr_w, insn_lui, insn_lw, insn_lwu, insn_mul, insn_mulh, insn_mulhsu, insn_mulhu, insn_mulw,
  insn_or, insn_ori, insn_rem, insn_remu, insn_remuw, insn_remw, insn_sb, insn_sbreak, insn_sc_d,
  insn_sc_w, insn_scall, insn_sd, insn_settag, insn_sh, insn_sll, insn_slli, insn_slliw, insn_sllw,
  insn_slt, insn_slti, insn_sltiu, insn_sltu, insn_sra, insn_srai, insn_sraiw, insn_sraw, insn_srl,
  insn_srli, insn_srliw, insn_srlw, insn_sub, insn_subw, insn_sw, insn_tagenforce, insn_xor,
  insn_xori, insn_sret, insn_fadd_d, insn_fadd_s, insn_fsub_d, insn_fsub_s, insn_fmul_d,
  insn_fmul_s, insn_fdiv_d, insn_fdiv_s, insn_fsqrt_d, insn_fsqrt_s, insn_fmadd_d, insn_fmadd_s,
  insn_fmsub_d, insn_fmsub_s, insn_fnmadd_d, insn_fnmadd_s, insn_fnmsub_d, insn_fnmsub_s,
  insn_feq_d, insn_feq_s, insn_fle_d, insn_fle_s, insn_flt_d, insn_flt_s, insn_fmax_d, insn_fmax_s,
  insn_fmin_d, insn_fmin_s, insn_fclass_d, insn_fclass_s, insn_fsgnj_d, insn_fsgnj_s, insn_fsgnjn_d,
  insn_fsgnjn_s, insn_fsgnjx_d, insn_fsgnjx_s, insn_fmv_d_x, insn_fmv_s_x, insn_fmv_x_d,
  insn_fmv_x_s, insn_fcvt_d_l, insn_fcvt_d_lu, insn_fcvt_d_s, insn_fcvt_d_w, insn_fcvt_d_wu,
  insn_fcvt_l_d, insn_fcvt_l_s, insn_fcvt_lu_d, insn_fcvt_lu_s, insn_fcvt_s_d, insn_fcvt_s_l,
  insn_fcvt_s_lu, insn_fcvt_s_w, insn_fcvt_s_wu, insn_fcvt_w_d, insn_fcvt_w_s, insn_fcvt_wu_d,
  insn_fcvt_wu_s, insn_fld, insn_flw, insn_fsd, insn_fsw,
}
use riscv_isa_sim.Insns.Macros.{InsnFunc}
use riscv_isa_sim.Insns.Alu.{
  rv_add, rv_addi, rv_addiw, rv_addw, rv_and, rv_andi, rv_auipc, rv_lui, rv_or, rv_ori, rv_sll,
  rv_slli, rv_slliw, rv_sllw, rv_slt, rv_slti, rv_sltiu, rv_sltu, rv_sra, rv_srai, rv_sraiw,
  rv_sraw, rv_srl, rv_srli, rv_srliw, rv_srlw, rv_sub, rv_subw, rv_xor, rv_xori,
}
use riscv_isa_sim.Insns.Muldiv.{
  rv_div, rv_divu, rv_divuw, rv_divw, rv_mul, rv_mulh, rv_mulhsu, rv_mulhu, rv_mulw, rv_rem,
  rv_remu, rv_remuw, rv_remw,
}
use riscv_isa_sim.Insns.Jumps.{rv_beq, rv_bge, rv_bgeu, rv_blt, rv_bltu, rv_bne, rv_jal, rv_jalr}
use riscv_isa_sim.Insns.Memory.{
  rv_lb, rv_lbu, rv_ld, rv_lh, rv_lhu, rv_lw, rv_lwu, rv_sb, rv_sd, rv_sh, rv_sw,
}
use riscv_isa_sim.Insns.Amo.{
  rv_amoadd_d, rv_amoadd_w, rv_amoand_d, rv_amoand_w, rv_amomax_d, rv_amomax_w, rv_amomaxu_d,
  rv_amomaxu_w, rv_amomin_d, rv_amomin_w, rv_amominu_d, rv_amominu_w, rv_amoor_d, rv_amoor_w,
  rv_amoswap_d, rv_amoswap_w, rv_amoxor_d, rv_amoxor_w, rv_lr_d, rv_lr_w, rv_sc_d, rv_sc_w,
}
use riscv_isa_sim.Insns.System.{
  rv_csrrc, rv_csrrci, rv_csrrs, rv_csrrsi, rv_csrrw, rv_csrrwi, rv_fence, rv_fence_i, rv_sbreak,
  rv_scall, rv_settag, rv_tagenforce,
}
use riscv_isa_sim.Insns.Float.{Softfloat}
use riscv_isa_sim.Insns.FloatArith.{
  rv_fadd_d, rv_fadd_s, rv_fsub_d, rv_fsub_s, rv_fmul_d, rv_fmul_s, rv_fdiv_d, rv_fdiv_s,
  rv_fsqrt_d, rv_fsqrt_s, rv_fmadd_d, rv_fmadd_s, rv_fmsub_d, rv_fmsub_s, rv_fnmadd_d, rv_fnmadd_s,
  rv_fnmsub_d, rv_fnmsub_s,
}
use riscv_isa_sim.Insns.FloatMove.{
  rv_feq_d, rv_feq_s, rv_fle_d, rv_fle_s, rv_flt_d, rv_flt_s, rv_fmax_d, rv_fmax_s, rv_fmin_d,
  rv_fmin_s, rv_fclass_d, rv_fclass_s, rv_fsgnj_d, rv_fsgnj_s, rv_fsgnjn_d, rv_fsgnjn_s,
  rv_fsgnjx_d, rv_fsgnjx_s, rv_fmv_d_x, rv_fmv_s_x, rv_fmv_x_d, rv_fmv_x_s,
}
use riscv_isa_sim.Insns.FloatConvert.{
  rv_fcvt_d_l, rv_fcvt_d_lu, rv_fcvt_d_s, rv_fcvt_d_w, rv_fcvt_d_wu, rv_fcvt_l_d, rv_fcvt_l_s,
  rv_fcvt_lu_d, rv_fcvt_lu_s, rv_fcvt_s_d, rv_fcvt_s_l, rv_fcvt_s_lu, rv_fcvt_s_w, rv_fcvt_s_wu,
  rv_fcvt_w_d, rv_fcvt_w_s, rv_fcvt_wu_d, rv_fcvt_wu_s,
}
use riscv_isa_sim.Insns.FloatMemory.{rv_fld, rv_flw, rv_fsd, rv_fsw}
use riscv_isa_sim.Exec.Step.{Func, illegal_instruction}

module _ (b : Build) (garbage : ℕ) (tick : Machine → Machine) (sf : Softfloat) where
  unfoldable pub execute : InsnName → InsnFunc
  execute insn_add = rv_add b
  execute insn_addi = rv_addi
  execute insn_addiw = rv_addiw
  execute insn_addw = rv_addw b
  execute insn_amoadd_d = rv_amoadd_d garbage b
  execute insn_amoadd_w = rv_amoadd_w garbage b
  execute insn_amoand_d = rv_amoand_d garbage b
  execute insn_amoand_w = rv_amoand_w garbage b
  execute insn_amomax_d = rv_amomax_d garbage b
  execute insn_amomax_w = rv_amomax_w garbage b
  execute insn_amomaxu_d = rv_amomaxu_d garbage b
  execute insn_amomaxu_w = rv_amomaxu_w garbage b
  execute insn_amomin_d = rv_amomin_d garbage b
  execute insn_amomin_w = rv_amomin_w garbage b
  execute insn_amominu_d = rv_amominu_d garbage b
  execute insn_amominu_w = rv_amominu_w garbage b
  execute insn_amoor_d = rv_amoor_d garbage b
  execute insn_amoor_w = rv_amoor_w garbage b
  execute insn_amoswap_d = rv_amoswap_d garbage
  execute insn_amoswap_w = rv_amoswap_w garbage
  execute insn_amoxor_d = rv_amoxor_d garbage b
  execute insn_amoxor_w = rv_amoxor_w garbage b
  execute insn_and = rv_and b
  execute insn_andi = rv_andi
  execute insn_auipc = rv_auipc
  execute insn_beq = rv_beq
  execute insn_bge = rv_bge
  execute insn_bgeu = rv_bgeu
  execute insn_blt = rv_blt
  execute insn_bltu = rv_bltu
  execute insn_bne = rv_bne
  execute insn_csrrc = rv_csrrc b tick
  execute insn_csrrci = rv_csrrci b tick
  execute insn_csrrs = rv_csrrs b tick
  execute insn_csrrsi = rv_csrrsi b tick
  execute insn_csrrw = rv_csrrw b tick
  execute insn_csrrwi = rv_csrrwi b tick
  execute insn_div = rv_div b
  execute insn_divu = rv_divu b
  execute insn_divuw = rv_divuw b
  execute insn_divw = rv_divw b
  execute insn_fence = rv_fence
  execute insn_fence_i = rv_fence_i
  execute insn_jal = rv_jal
  execute insn_jalr = rv_jalr b
  execute insn_lb = rv_lb b garbage
  execute insn_lbu = rv_lbu b garbage
  execute insn_ld = rv_ld b garbage
  execute insn_lh = rv_lh b garbage
  execute insn_lhu = rv_lhu b garbage
  execute insn_lr_d = rv_lr_d garbage
  execute insn_lr_w = rv_lr_w garbage
  execute insn_lui = rv_lui
  execute insn_lw = rv_lw b garbage
  execute insn_lwu = rv_lwu b garbage
  execute insn_mul = rv_mul b
  execute insn_mulh = rv_mulh b
  execute insn_mulhsu = rv_mulhsu b
  execute insn_mulhu = rv_mulhu b
  execute insn_mulw = rv_mulw b
  execute insn_or = rv_or b
  execute insn_ori = rv_ori
  execute insn_rem = rv_rem b
  execute insn_remu = rv_remu b
  execute insn_remuw = rv_remuw b
  execute insn_remw = rv_remw b
  execute insn_sb = rv_sb b
  execute insn_sbreak = rv_sbreak
  execute insn_sc_d = rv_sc_d
  execute insn_sc_w = rv_sc_w
  execute insn_scall = rv_scall
  execute insn_sd = rv_sd b
  execute insn_settag = rv_settag
  execute insn_sh = rv_sh b
  execute insn_sll = rv_sll b
  execute insn_slli = rv_slli
  execute insn_slliw = rv_slliw
  execute insn_sllw = rv_sllw b
  execute insn_slt = rv_slt b
  execute insn_slti = rv_slti
  execute insn_sltiu = rv_sltiu
  execute insn_sltu = rv_sltu b
  execute insn_sra = rv_sra b
  execute insn_srai = rv_srai
  execute insn_sraiw = rv_sraiw
  execute insn_sraw = rv_sraw b
  execute insn_srl = rv_srl b
  execute insn_srli = rv_srli
  execute insn_srliw = rv_srliw
  execute insn_srlw = rv_srlw b
  execute insn_sub = rv_sub b
  execute insn_subw = rv_subw b
  execute insn_sw = rv_sw b
  execute insn_tagenforce = rv_tagenforce
  execute insn_xor = rv_xor b
  execute insn_xori = rv_xori
  execute insn_sret = λ xpr64 _ _. sret b xpr64
  execute insn_fadd_d = rv_fadd_d b sf
  execute insn_fadd_s = rv_fadd_s b sf
  execute insn_fsub_d = rv_fsub_d b sf
  execute insn_fsub_s = rv_fsub_s b sf
  execute insn_fmul_d = rv_fmul_d b sf
  execute insn_fmul_s = rv_fmul_s b sf
  execute insn_fdiv_d = rv_fdiv_d b sf
  execute insn_fdiv_s = rv_fdiv_s b sf
  execute insn_fsqrt_d = rv_fsqrt_d b sf
  execute insn_fsqrt_s = rv_fsqrt_s b sf
  execute insn_fmadd_d = rv_fmadd_d b sf
  execute insn_fmadd_s = rv_fmadd_s b sf
  execute insn_fmsub_d = rv_fmsub_d b sf
  execute insn_fmsub_s = rv_fmsub_s b sf
  execute insn_fnmadd_d = rv_fnmadd_d b sf
  execute insn_fnmadd_s = rv_fnmadd_s b sf
  execute insn_fnmsub_d = rv_fnmsub_d b sf
  execute insn_fnmsub_s = rv_fnmsub_s b sf
  execute insn_feq_d = rv_feq_d b sf
  execute insn_feq_s = rv_feq_s b sf
  execute insn_fle_d = rv_fle_d b sf
  execute insn_fle_s = rv_fle_s b sf
  execute insn_flt_d = rv_flt_d b sf
  execute insn_flt_s = rv_flt_s b sf
  execute insn_fmax_d = rv_fmax_d b sf
  execute insn_fmax_s = rv_fmax_s b sf
  execute insn_fmin_d = rv_fmin_d b sf
  execute insn_fmin_s = rv_fmin_s b sf
  execute insn_fclass_d = rv_fclass_d b sf
  execute insn_fclass_s = rv_fclass_s b sf
  execute insn_fsgnj_d = rv_fsgnj_d b sf
  execute insn_fsgnj_s = rv_fsgnj_s b sf
  execute insn_fsgnjn_d = rv_fsgnjn_d b sf
  execute insn_fsgnjn_s = rv_fsgnjn_s b sf
  execute insn_fsgnjx_d = rv_fsgnjx_d b sf
  execute insn_fsgnjx_s = rv_fsgnjx_s b sf
  execute insn_fmv_d_x = rv_fmv_d_x b sf
  execute insn_fmv_s_x = rv_fmv_s_x b sf
  execute insn_fmv_x_d = rv_fmv_x_d b sf
  execute insn_fmv_x_s = rv_fmv_x_s b sf
  execute insn_fcvt_d_l = rv_fcvt_d_l b sf
  execute insn_fcvt_d_lu = rv_fcvt_d_lu b sf
  execute insn_fcvt_d_s = rv_fcvt_d_s b sf
  execute insn_fcvt_d_w = rv_fcvt_d_w b sf
  execute insn_fcvt_d_wu = rv_fcvt_d_wu b sf
  execute insn_fcvt_l_d = rv_fcvt_l_d b sf
  execute insn_fcvt_l_s = rv_fcvt_l_s b sf
  execute insn_fcvt_lu_d = rv_fcvt_lu_d b sf
  execute insn_fcvt_lu_s = rv_fcvt_lu_s b sf
  execute insn_fcvt_s_d = rv_fcvt_s_d b sf
  execute insn_fcvt_s_l = rv_fcvt_s_l b sf
  execute insn_fcvt_s_lu = rv_fcvt_s_lu b sf
  execute insn_fcvt_s_w = rv_fcvt_s_w b sf
  execute insn_fcvt_s_wu = rv_fcvt_s_wu b sf
  execute insn_fcvt_w_d = rv_fcvt_w_d b sf
  execute insn_fcvt_w_s = rv_fcvt_w_s b sf
  execute insn_fcvt_wu_d = rv_fcvt_wu_d b sf
  execute insn_fcvt_wu_s = rv_fcvt_wu_s b sf
  execute insn_fld = rv_fld b garbage
  execute insn_flw = rv_flw b garbage
  execute insn_fsd = rv_fsd b garbage
  execute insn_fsw = rv_fsw b garbage

  unfoldable pub with_funcs : InsnDesc InsnName → InsnDesc Func
  unfolding execute
  with_funcs desc = record {
    match_bits = desc.match_bits;
    mask = desc.mask;
    rv32 = execute desc.rv32 false;
    rv64 = execute desc.rv64 true;
  }

  -- What the constructor of a processor leaves.
  unfoldable pub base_opcodes :
      (sort : (InsnDesc Func → InsnDesc Func → Bool) → List (InsnDesc Func) → List (InsnDesc Func))
      → OpcodeMap Func
  unfolding with_funcs registered build_opcode_map
  base_opcodes sort = build_opcode_map illegal_instruction sort (map with_funcs registered)
