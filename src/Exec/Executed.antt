-- ===== src/Exec/Executed.antt =====
-- No instruction changes the constant register 0, or the number of registers.
use riscv_isa_sim.Base.{ℕ, Bool, true, false}
use riscv_isa_sim.Build.{Build}
use riscv_isa_sim.Hart.Machine.{Machine}
use riscv_isa_sim.Isa.Opcodes.{
  InsnName, insn_add, insn_addi, insn_addiw, insn_addw, insn_amoadd_d, insn_amoadd_w, insn_amoand_d,
  insn_amoand_w, insn_amomax_d, insn_amomax_w, insn_amomaxu_d, insn_amomaxu_w, insn_amomin_d,
  insn_amomin_w, insn_amominu_d, insn_amominu_w, insn_amoor_d, insn_amoor_w, insn_amoswap_d,
  insn_amoswap_w, insn_amoxor_d, insn_amoxor_w, insn_and, insn_andi, insn_auipc, insn_beq, insn_bge,
  insn_bgeu, insn_blt, insn_bltu, insn_bne, insn_csrrc, insn_csrrci, insn_csrrs, insn_csrrsi,
  insn_csrrw, insn_csrrwi, insn_div, insn_divu, insn_divuw, insn_divw, insn_fence, insn_fence_i,
  insn_jal, insn_jalr, insn_lb, insn_lbu, insn_ld, insn_lh, insn_lhu, insn_lr_d, insn_lr_w,
  insn_lui, insn_lw, insn_lwu, insn_mul, insn_mulh, insn_mulhsu, insn_mulhu, insn_mulw, insn_or,
  insn_ori, insn_rem, insn_remu, insn_remuw, insn_remw, insn_sb, insn_sbreak, insn_sc_d, insn_sc_w,
  insn_scall, insn_sd, insn_settag, insn_sh, insn_sll, insn_slli, insn_slliw, insn_sllw, insn_slt,
  insn_slti, insn_sltiu, insn_sltu, insn_sra, insn_srai, insn_sraiw, insn_sraw, insn_srl, insn_srli,
  insn_srliw, insn_srlw, insn_sub, insn_subw, insn_sw, insn_tagenforce, insn_xor, insn_xori,
  insn_sret, insn_fadd_d, insn_fadd_s, insn_fsub_d, insn_fsub_s, insn_fmul_d, insn_fmul_s,
  insn_fdiv_d, insn_fdiv_s, insn_fsqrt_d, insn_fsqrt_s, insn_fmadd_d, insn_fmadd_s, insn_fmsub_d,
  insn_fmsub_s, insn_fnmadd_d, insn_fnmadd_s, insn_fnmsub_d, insn_fnmsub_s, insn_feq_d, insn_feq_s,
  insn_fle_d, insn_fle_s, insn_flt_d, insn_flt_s, insn_fmax_d, insn_fmax_s, insn_fmin_d,
  insn_fmin_s, insn_fclass_d, insn_fclass_s, insn_fsgnj_d, insn_fsgnj_s, insn_fsgnjn_d,
  insn_fsgnjn_s, insn_fsgnjx_d, insn_fsgnjx_s, insn_fmv_d_x, insn_fmv_s_x, insn_fmv_x_d,
  insn_fmv_x_s, insn_fcvt_d_l, insn_fcvt_d_lu, insn_fcvt_d_s, insn_fcvt_d_w, insn_fcvt_d_wu,
  insn_fcvt_l_d, insn_fcvt_l_s, insn_fcvt_lu_d, insn_fcvt_lu_s, insn_fcvt_s_d, insn_fcvt_s_l,
  insn_fcvt_s_lu, insn_fcvt_s_w, insn_fcvt_s_wu, insn_fcvt_w_d, insn_fcvt_w_s, insn_fcvt_wu_d,
  insn_fcvt_wu_s, insn_fld, insn_flw, insn_fsd, insn_fsw,
}
use riscv_isa_sim.Insns.Alu.{
  rv_add, rv_addi, rv_addiw, rv_addw, rv_and, rv_andi, rv_auipc, rv_lui, rv_or, rv_ori, rv_sll,
  rv_slli, rv_slliw, rv_sllw, rv_slt, rv_slti, rv_sltiu, rv_sltu, rv_sra, rv_srai, rv_sraiw,
  rv_sraw, rv_srl, rv_srli, rv_srliw, rv_srlw, rv_sub, rv_subw, rv_xor, rv_xori,
}
use riscv_isa_sim.Insns.Muldiv.{
  rv_div, rv_divu, rv_divuw, rv_divw, rv_mul, rv_mulh, rv_mulhsu, rv_mulhu, rv_mulw, rv_rem,
  rv_remu, rv_remuw, rv_remw,
}
use riscv_isa_sim.Insns.Jumps.{rv_beq, rv_bge, rv_bgeu, rv_blt, rv_bltu, rv_bne, rv_jal, rv_jalr}
use riscv_isa_sim.Insns.Memory.{
  rv_lb, rv_lbu, rv_ld, rv_lh, rv_lhu, rv_lw, rv_lwu, rv_sb, rv_sd, rv_sh, rv_sw,
}
use riscv_isa_sim.Insns.Amo.{
  rv_amoadd_d, rv_amoadd_w, rv_amoand_d, rv_amoand_w, rv_amomax_d, rv_amomax_w, rv_amomaxu_d,
  rv_amomaxu_w, rv_amomin_d, rv_amomin_w, rv_amominu_d, rv_amominu_w, rv_amoor_d, rv_amoor_w,
  rv_amoswap_d, rv_amoswap_w, rv_amoxor_d, rv_amoxor_w, rv_lr_d, rv_lr_w, rv_sc_d, rv_sc_w,
}
use riscv_isa_sim.Insns.System.{
  rv_csrrc, rv_csrrci, rv_csrrs, rv_csrrsi, rv_csrrw, rv_csrrwi, rv_fence, rv_fence_i, rv_sbreak,
  rv_scall, rv_settag, rv_tagenforce,
}
use riscv_isa_sim.Insns.Float.{Softfloat}
use riscv_isa_sim.Insns.FloatArith.{
  rv_fadd_d, rv_fadd_s, rv_fsub_d, rv_fsub_s, rv_fmul_d, rv_fmul_s, rv_fdiv_d, rv_fdiv_s,
  rv_fsqrt_d, rv_fsqrt_s, rv_fmadd_d, rv_fmadd_s, rv_fmsub_d, rv_fmsub_s, rv_fnmadd_d, rv_fnmadd_s,
  rv_fnmsub_d, rv_fnmsub_s,
}
use riscv_isa_sim.Insns.FloatMove.{
  rv_feq_d, rv_feq_s, rv_fle_d, rv_fle_s, rv_flt_d, rv_flt_s, rv_fmax_d, rv_fmax_s, rv_fmin_d,
  rv_fmin_s, rv_fclass_d, rv_fclass_s, rv_fsgnj_d, rv_fsgnj_s, rv_fsgnjn_d, rv_fsgnjn_s,
  rv_fsgnjx_d, rv_fsgnjx_s, rv_fmv_d_x, rv_fmv_s_x, rv_fmv_x_d, rv_fmv_x_s,
}
use riscv_isa_sim.Insns.FloatConvert.{
  rv_fcvt_d_l, rv_fcvt_d_lu, rv_fcvt_d_s, rv_fcvt_d_w, rv_fcvt_d_wu, rv_fcvt_l_d, rv_fcvt_l_s,
  rv_fcvt_lu_d, rv_fcvt_lu_s, rv_fcvt_s_d, rv_fcvt_s_l, rv_fcvt_s_lu, rv_fcvt_s_w, rv_fcvt_s_wu,
  rv_fcvt_w_d, rv_fcvt_w_s, rv_fcvt_wu_d, rv_fcvt_wu_s,
}
use riscv_isa_sim.Insns.FloatMemory.{rv_fld, rv_flw, rv_fsd, rv_fsw}
use riscv_isa_sim.Insns.FloatKeeps.{
  write_rd-Keeps, write_frd-Keeps, float_rounded-Keeps, float_flagged-Keeps, float_move-Keeps,
  float_load-Keeps, float_store-Keeps,
}
use riscv_isa_sim.Hart.Keeps.{returned, threw, Keeps, After-bind, After-if}
use riscv_isa_sim.Hart.Machine.{done}
use riscv_isa_sim.Isa.Insn.{rd, u_imm_noshift}
use riscv_isa_sim.Insns.Macros.{write_reg_tag, next_pc, tag_s2}
use riscv_isa_sim.Insns.Memory.{partial_tag}
use riscv_isa_sim.Insns.System.{set_tag_mode}
use riscv_isa_sim.Mmu.Tables.{flush_icache}
use riscv_isa_sim.Insns.CsrKeeps.{csr_insn-Keeps}
use riscv_isa_sim.Insns.Keeps.{
  V, write_reg_tag-Keeps, done-Keeps, result-Keeps, require_xpr64-Keeps, branch_if-Keeps,
  rv_jal-Keeps, rv_jalr-Keeps, load_insn-Keeps, store_insn-Keeps, amo-Keeps, load_reserved-Keeps,
  store_conditional-Keeps, sret-Keeps, rv_div-Keeps, rv_rem-Keeps,
}
use riscv_isa_sim.Base.{add64, bit_and, bit_or, bit_xor, slt64, sext32, ltb, u32}
use riscv_isa_sim.Tags.{tag_add, tag_logic}
use riscv_isa_sim.Insns.Amo.{max_by, min_by}
use riscv_isa_sim.Base.{bit_or}
use riscv_isa_sim.Exec.Dispatch.{execute}

module _ (b : Build) (garbage : ℕ) (tick : Machine → Machine)
    (tick-V : (m : Machine) → V m → V (tick m)) (sf : Softfloat) where
  pub execute-Keeps :
      (name : InsnName) (xpr64 : Bool) (insn pc : ℕ)
      → Keeps V (execute b garbage tick sf name xpr64 insn pc)
  unfolding execute rv_add rv_addi rv_addiw rv_addw rv_amoadd_d rv_amoadd_w rv_amoand_d rv_amoand_w
      rv_amomax_d rv_amomax_w rv_amomaxu_d rv_amomaxu_w rv_amomin_d rv_amomin_w rv_amominu_d
      rv_amominu_w rv_amoor_d rv_amoor_w rv_amoswap_d rv_amoswap_w rv_amoxor_d rv_amoxor_w rv_and
      rv_andi rv_auipc rv_beq rv_bge rv_bgeu rv_blt rv_bltu rv_bne rv_csrrc rv_csrrci rv_csrrs
      rv_csrrsi rv_csrrw rv_csrrwi rv_div rv_divu rv_divuw rv_divw rv_fence rv_fence_i rv_jal
      rv_jalr rv_lb rv_lbu rv_ld rv_lh rv_lhu rv_lr_d rv_lr_w rv_lui rv_lw rv_lwu rv_mul rv_mulh
      rv_mulhsu rv_mulhu rv_mulw rv_or rv_ori rv_rem rv_remu rv_remuw rv_remw rv_sb rv_sbreak
      rv_sc_d rv_sc_w rv_scall rv_sd rv_settag rv_sh rv_sll rv_slli rv_slliw rv_sllw rv_slt rv_slti
      rv_sltiu rv_sltu rv_sra rv_srai rv_sraiw rv_sraw rv_srl rv_srli rv_srliw rv_srlw rv_sub
      rv_subw rv_sw rv_tagenforce rv_xor rv_xori rv_fadd_d rv_fadd_s rv_fsub_d rv_fsub_s rv_fmul_d
      rv_fmul_s rv_fdiv_d rv_fdiv_s rv_fsqrt_d rv_fsqrt_s rv_fmadd_d rv_fmadd_s rv_fmsub_d
      rv_fmsub_s rv_fnmadd_d rv_fnmadd_s rv_fnmsub_d rv_fnmsub_s rv_feq_d rv_feq_s rv_fle_d rv_fle_s
      rv_flt_d rv_flt_s rv_fmax_d rv_fmax_s rv_fmin_d rv_fmin_s rv_fclass_d rv_fclass_s rv_fsgnj_d
      rv_fsgnj_s rv_fsgnjn_d rv_fsgnjn_s rv_fsgnjx_d rv_fsgnjx_s rv_fmv_d_x rv_fmv_s_x rv_fmv_x_d
      rv_fmv_x_s rv_fcvt_d_l rv_fcvt_d_lu rv_fcvt_d_s rv_fcvt_d_w rv_fcvt_d_wu rv_fcvt_l_d
      rv_fcvt_l_s rv_fcvt_lu_d rv_fcvt_lu_s rv_fcvt_s_d rv_fcvt_s_l rv_fcvt_s_lu rv_fcvt_s_w
      rv_fcvt_s_wu rv_fcvt_w_d rv_fcvt_w_s rv_fcvt_wu_d rv_fcvt_wu_s rv_fld rv_flw rv_fsd rv_fsw
  execute-Keeps insn_add xpr64 insn pc = λ m v. result-Keeps xpr64 insn pc _ _ m v
  execute-Keeps insn_addi xpr64 insn pc = λ m v. result-Keeps xpr64 insn pc _ _ m v
  execute-Keeps insn_addiw xpr64 insn pc =
      require_xpr64-Keeps xpr64 _ (λ m v. result-Keeps xpr64 insn pc _ _ m v)
  execute-Keeps insn_addw xpr64 insn pc =
      require_xpr64-Keeps xpr64 _ (λ m v. result-Keeps xpr64 insn pc _ _ m v)
  execute-Keeps insn_amoadd_d xpr64 insn pc =
      require_xpr64-Keeps xpr64 _
        (amo-Keeps garbage 8 false add64 (λ v t. tag_add b v.tag t) (λ v _. v.tag) xpr64 insn pc)
  execute-Keeps insn_amoadd_w xpr64 insn pc =
      amo-Keeps garbage 4 true add64 (λ v t. tag_add b v.tag t) (λ v _. v.tag) xpr64 insn pc
  execute-Keeps insn_amoand_d xpr64 insn pc =
      require_xpr64-Keeps xpr64 _ (
        amo-Keeps garbage 8 false bit_and (λ v t. tag_logic b v.tag t) (λ v _. v.tag) xpr64 insn pc)
  execute-Keeps insn_amoand_w xpr64 insn pc =
      amo-Keeps garbage 4 true bit_and (λ v t. tag_logic b v.tag t) (λ v _. v.tag) xpr64 insn pc
  execute-Keeps insn_amomax_d xpr64 insn pc = require_xpr64-Keeps xpr64 _ (
      amo-Keeps garbage 8 true (max_by slt64) (λ v t. tag_logic b v.tag t) (λ v _. v.tag) xpr64 insn
        pc)
  execute-Keeps insn_amomax_w xpr64 insn pc =
      amo-Keeps garbage 4 true (λ s v. max_by slt64 (sext32 s) (sext32 v))
        (λ v t. tag_logic b v.tag t) (λ v _. v.tag) xpr64 insn pc
  execute-Keeps insn_amomaxu_d xpr64 insn pc = require_xpr64-Keeps xpr64 _ (
      amo-Keeps garbage 8 false (max_by ltb) (λ v t. tag_logic b v.tag t) (λ v _. v.tag) xpr64 insn
        pc)
  execute-Keeps insn_amomaxu_w xpr64 insn pc =
      amo-Keeps garbage 4 true (λ s v. max_by ltb (u32 s) (u32 v)) (λ v t. tag_logic b v.val t)
        (λ v _. v.tag) xpr64 insn pc
  execute-Keeps insn_amomin_d xpr64 insn pc = require_xpr64-Keeps xpr64 _ (
      amo-Keeps garbage 8 true (min_by slt64) (λ v t. tag_logic b v.val t) (λ v _. v.tag) xpr64 insn
        pc)
  execute-Keeps insn_amomin_w xpr64 insn pc =
      amo-Keeps garbage 4 true (λ s v. min_by slt64 (sext32 s) (sext32 v))
        (λ v t. tag_logic b v.val t) (λ v _. v.tag) xpr64 insn pc
  execute-Keeps insn_amominu_d xpr64 insn pc = require_xpr64-Keeps xpr64 _ (
      amo-Keeps garbage 8 false (min_by ltb) (λ v t. tag_logic b v.val t)
        (λ v t. tag_logic b v.tag t) xpr64 insn pc)
  execute-Keeps insn_amominu_w xpr64 insn pc =
      amo-Keeps garbage 4 true (λ s v. min_by ltb (u32 s) (u32 v)) (λ v t. tag_logic b v.tag t)
        (λ v _. v.tag) xpr64 insn pc
  execute-Keeps insn_amoor_d xpr64 insn pc =
      require_xpr64-Keeps xpr64 _
        (amo-Keeps garbage 8 false bit_or (λ v t. tag_logic b v.tag t) (λ v _. v.tag) xpr64 insn pc)
  execute-Keeps insn_amoor_w xpr64 insn pc =
      amo-Keeps garbage 4 true bit_or (λ v t. tag_logic b v.tag t) (λ v _. v.tag) xpr64 insn pc
  execute-Keeps insn_amoswap_d xpr64 insn pc =
      require_xpr64-Keeps xpr64 _
        (amo-Keeps garbage 8 false (λ s _. s) (λ _ t. t) (λ v _. v.tag) xpr64 insn pc)
  execute-Keeps insn_amoswap_w xpr64 insn pc =
      amo-Keeps garbage 4 true (λ s _. s) (λ _ t. t) (λ v _. v.tag) xpr64 insn pc
  execute-Keeps insn_amoxor_d xpr64 insn pc =
      require_xpr64-Keeps xpr64 _ (
        amo-Keeps garbage 8 false bit_xor (λ v t. tag_logic b v.tag t) (λ v _. v.tag) xpr64 insn pc)
  execute-Keeps insn_amoxor_w xpr64 insn pc =
      amo-Keeps garbage 4 true bit_xor (λ v t. tag_logic b v.tag t) (λ v _. v.tag) xpr64 insn pc
  execute-Keeps insn_and xpr64 insn pc = λ m v. result-Keeps xpr64 insn pc _ _ m v
  execute-Keeps insn_andi xpr64 insn pc = λ m v. result-Keeps xpr64 insn pc _ _ m v
  execute-Keeps insn_auipc xpr64 insn pc = λ m v. result-Keeps xpr64 insn pc _ _ m v
  execute-Keeps insn_beq xpr64 insn pc = λ m v. branch_if-Keeps _ xpr64 insn pc m v
  execute-Keeps insn_bge xpr64 insn pc = λ m v. branch_if-Keeps _ xpr64 insn pc m v
  execute-Keeps insn_bgeu xpr64 insn pc = λ m v. branch_if-Keeps _ xpr64 insn pc m v
  execute-Keeps insn_blt xpr64 insn pc = λ m v. branch_if-Keeps _ xpr64 insn pc m v
  execute-Keeps insn_bltu xpr64 insn pc = λ m v. branch_if-Keeps _ xpr64 insn pc m v
  execute-Keeps insn_bne xpr64 insn pc = λ m v. branch_if-Keeps _ xpr64 insn pc m v
  execute-Keeps insn_csrrc xpr64 insn pc = csr_insn-Keeps b tick tick-V _ _ xpr64 insn pc
  execute-Keeps insn_csrrci xpr64 insn pc = csr_insn-Keeps b tick tick-V _ _ xpr64 insn pc
  execute-Keeps insn_csrrs xpr64 insn pc = csr_insn-Keeps b tick tick-V _ _ xpr64 insn pc
  execute-Keeps insn_csrrsi xpr64 insn pc = csr_insn-Keeps b tick tick-V _ _ xpr64 insn pc
  execute-Keeps insn_csrrw xpr64 insn pc = csr_insn-Keeps b tick tick-V _ _ xpr64 insn pc
  execute-Keeps insn_csrrwi xpr64 insn pc = csr_insn-Keeps b tick tick-V _ _ xpr64 insn pc
  execute-Keeps insn_div xpr64 insn pc = rv_div-Keeps b xpr64 insn pc
  execute-Keeps insn_divu xpr64 insn pc = λ m v.
      After-if _ _ _ (result-Keeps xpr64 insn pc _ _ m v) (result-Keeps xpr64 insn pc _ _ m v)
  execute-Keeps insn_divuw xpr64 insn pc = require_xpr64-Keeps xpr64 _ (λ m v.
      After-if _ _ _ (result-Keeps xpr64 insn pc _ _ m v) (result-Keeps xpr64 insn pc _ _ m v))
  execute-Keeps insn_divw xpr64 insn pc = require_xpr64-Keeps xpr64 _ (λ m v.
      After-if _ _ _ (result-Keeps xpr64 insn pc _ _ m v) (result-Keeps xpr64 insn pc _ _ m v))
  execute-Keeps insn_fence xpr64 insn pc = done-Keeps _
  execute-Keeps insn_fence_i xpr64 insn pc =
      λ m v. returned _ (record m { mmu = flush_icache m.mmu }) v
  execute-Keeps insn_jal xpr64 insn pc = rv_jal-Keeps xpr64 insn pc
  execute-Keeps insn_jalr xpr64 insn pc = rv_jalr-Keeps b xpr64 insn pc
  execute-Keeps insn_lb xpr64 insn pc = load_insn-Keeps b garbage _ _ xpr64 insn pc
  execute-Keeps insn_lbu xpr64 insn pc = load_insn-Keeps b garbage _ _ xpr64 insn pc
  execute-Keeps insn_ld xpr64 insn pc =
      require_xpr64-Keeps xpr64 _ (load_insn-Keeps b garbage _ _ xpr64 insn pc)
  execute-Keeps insn_lh xpr64 insn pc = load_insn-Keeps b garbage _ _ xpr64 insn pc
  execute-Keeps insn_lhu xpr64 insn pc = load_insn-Keeps b garbage _ _ xpr64 insn pc
  execute-Keeps insn_lr_d xpr64 insn pc =
      require_xpr64-Keeps xpr64 _ (load_reserved-Keeps garbage _ xpr64 insn pc)
  execute-Keeps insn_lr_w xpr64 insn pc = load_reserved-Keeps garbage _ xpr64 insn pc
  execute-Keeps insn_lui xpr64 insn pc = λ m v. result-Keeps xpr64 insn pc _ _ m v
  execute-Keeps insn_lw xpr64 insn pc = load_insn-Keeps b garbage _ _ xpr64 insn pc
  execute-Keeps insn_lwu xpr64 insn pc =
      require_xpr64-Keeps xpr64 _ (load_insn-Keeps b garbage _ _ xpr64 insn pc)
  execute-Keeps insn_mul xpr64 insn pc = λ m v. result-Keeps xpr64 insn pc _ _ m v
  execute-Keeps insn_mulh xpr64 insn pc = λ m v.
      After-if _ _ _ (result-Keeps xpr64 insn pc _ _ m v) (result-Keeps xpr64 insn pc _ _ m v)
  execute-Keeps insn_mulhsu xpr64 insn pc = λ m v.
      After-if _ _ _ (result-Keeps xpr64 insn pc _ _ m v) (result-Keeps xpr64 insn pc _ _ m v)
  execute-Keeps insn_mulhu xpr64 insn pc = λ m v.
      After-if _ _ _ (result-Keeps xpr64 insn pc _ _ m v) (result-Keeps xpr64 insn pc _ _ m v)
  execute-Keeps insn_mulw xpr64 insn pc =
      require_xpr64-Keeps xpr64 _ (λ m v. result-Keeps xpr64 insn pc _ _ m v)
  execute-Keeps insn_or xpr64 insn pc = λ m v. result-Keeps xpr64 insn pc _ _ m v
  execute-Keeps insn_ori xpr64 insn pc = λ m v. result-Keeps xpr64 insn pc _ _ m v
  execute-Keeps insn_rem xpr64 insn pc = rv_rem-Keeps b xpr64 insn pc
  execute-Keeps insn_remu xpr64 insn pc = λ m v.
      After-if _ _ _ (result-Keeps xpr64 insn pc _ _ m v) (result-Keeps xpr64 insn pc _ _ m v)
  execute-Keeps insn_remuw xpr64 insn pc = require_xpr64-Keeps xpr64 _ (λ m v.
      After-if _ _ _ (result-Keeps xpr64 insn pc _ _ m v) (result-Keeps xpr64 insn pc _ _ m v))
  execute-Keeps insn_remw xpr64 insn pc = require_xpr64-Keeps xpr64 _ (λ m v.
      After-if _ _ _ (result-Keeps xpr64 insn pc _ _ m v) (result-Keeps xpr64 insn pc _ _ m v))
  execute-Keeps insn_sb xpr64 insn pc = store_insn-Keeps b _ (partial_tag b) xpr64 insn pc
  execute-Keeps insn_sbreak xpr64 insn pc = λ m v. threw _ m v
  execute-Keeps insn_sc_d xpr64 insn pc =
      require_xpr64-Keeps xpr64 _ (store_conditional-Keeps _ xpr64 insn pc)
  execute-Keeps insn_sc_w xpr64 insn pc = store_conditional-Keeps _ xpr64 insn pc
  execute-Keeps insn_scall xpr64 insn pc = λ m v. threw _ m v
  execute-Keeps insn_sd xpr64 insn pc =
      require_xpr64-Keeps xpr64 _ (store_insn-Keeps b _ tag_s2 xpr64 insn pc)
  execute-Keeps insn_settag xpr64 insn pc = λ m v.
      After-bind (write_reg_tag (rd insn) (u_imm_noshift insn)) (λ _. done (next_pc xpr64 pc)) m
        (write_reg_tag-Keeps _ _ m v) (λ _. done-Keeps (next_pc xpr64 pc))
  execute-Keeps insn_sh xpr64 insn pc = store_insn-Keeps b _ (partial_tag b) xpr64 insn pc
  execute-Keeps insn_sll xpr64 insn pc = λ m v. result-Keeps xpr64 insn pc _ _ m v
  execute-Keeps insn_slli xpr64 insn pc = λ m v.
      After-if _ _ _ (result-Keeps xpr64 insn pc _ _ m v)
        (After-if _ _ _ (threw _ m v) (result-Keeps xpr64 insn pc _ _ m v))
  execute-Keeps insn_slliw xpr64 insn pc =
      require_xpr64-Keeps xpr64 _ (λ m v. result-Keeps xpr64 insn pc _ _ m v)
  execute-Keeps insn_sllw xpr64 insn pc =
      require_xpr64-Keeps xpr64 _ (λ m v. result-Keeps xpr64 insn pc _ _ m v)
  execute-Keeps insn_slt xpr64 insn pc = λ m v. result-Keeps xpr64 insn pc _ _ m v
  execute-Keeps insn_slti xpr64 insn pc = λ m v. result-Keeps xpr64 insn pc _ _ m v
  execute-Keeps insn_sltiu xpr64 insn pc = λ m v. result-Keeps xpr64 insn pc _ _ m v
  execute-Keeps insn_sltu xpr64 insn pc = λ m v. result-Keeps xpr64 insn pc _ _ m v
  execute-Keeps insn_sra xpr64 insn pc = λ m v. result-Keeps xpr64 insn pc _ _ m v
  execute-Keeps insn_srai xpr64 insn pc = λ m v.
      After-if _ _ _ (result-Keeps xpr64 insn pc _ _ m v)
        (After-if _ _ _ (threw _ m v) (result-Keeps xpr64 insn pc _ _ m v))
  execute-Keeps insn_sraiw xpr64 insn pc =
      require_xpr64-Keeps xpr64 _ (λ m v. result-Keeps xpr64 insn pc _ _ m v)
  execute-Keeps insn_sraw xpr64 insn pc =
      require_xpr64-Keeps xpr64 _ (λ m v. result-Keeps xpr64 insn pc _ _ m v)
  execute-Keeps insn_srl xpr64 insn pc = λ m v.
      After-if _ _ _ (result-Keeps xpr64 insn pc _ _ m v) (result-Keeps xpr64 insn pc _ _ m v)
  execute-Keeps insn_srli xpr64 insn pc = λ m v.
      After-if _ _ _ (result-Keeps xpr64 insn pc _ _ m v)
        (After-if _ _ _ (threw _ m v) (result-Keeps xpr64 insn pc _ _ m v))
  execute-Keeps insn_srliw xpr64 insn pc =
      require_xpr64-Keeps xpr64 _ (λ m v. result-Keeps xpr64 insn pc _ _ m v)
  execute-Keeps insn_srlw xpr64 insn pc =
      require_xpr64-Keeps xpr64 _ (λ m v. result-Keeps xpr64 insn pc _ _ m v)
  execute-Keeps insn_sub xpr64 insn pc = λ m v. result-Keeps xpr64 insn pc _ _ m v
  execute-Keeps insn_subw xpr64 insn pc =
      require_xpr64-Keeps xpr64 _ (λ m v. result-Keeps xpr64 insn pc _ _ m v)
  execute-Keeps insn_sw xpr64 insn pc = store_insn-Keeps b _ (partial_tag b) xpr64 insn pc
  execute-Keeps insn_tagenforce xpr64 insn pc =
      λ m v. returned _ (record m { state = set_tag_mode (u_imm_noshift insn) m.state }) v
  execute-Keeps insn_xor xpr64 insn pc = λ m v. result-Keeps xpr64 insn pc _ _ m v
  execute-Keeps insn_xori xpr64 insn pc = λ m v. result-Keeps xpr64 insn pc _ _ m v
  execute-Keeps insn_sret xpr64 insn pc = λ m v. sret-Keeps b xpr64 m v
  execute-Keeps insn_fadd_d xpr64 insn pc = float_rounded-Keeps b _ write_frd-Keeps _ xpr64 insn pc
  execute-Keeps insn_fadd_s xpr64 insn pc = float_rounded-Keeps b _ write_frd-Keeps _ xpr64 insn pc
  execute-Keeps insn_fsub_d xpr64 insn pc = float_rounded-Keeps b _ write_frd-Keeps _ xpr64 insn pc
  execute-Keeps insn_fsub_s xpr64 insn pc = float_rounded-Keeps b _ write_frd-Keeps _ xpr64 insn pc
  execute-Keeps insn_fmul_d xpr64 insn pc = float_rounded-Keeps b _ write_frd-Keeps _ xpr64 insn pc
  execute-Keeps insn_fmul_s xpr64 insn pc = float_rounded-Keeps b _ write_frd-Keeps _ xpr64 insn pc
  execute-Keeps insn_fdiv_d xpr64 insn pc = float_rounded-Keeps b _ write_frd-Keeps _ xpr64 insn pc
  execute-Keeps insn_fdiv_s xpr64 insn pc = float_rounded-Keeps b _ write_frd-Keeps _ xpr64 insn pc
  execute-Keeps insn_fsqrt_d xpr64 insn pc = float_rounded-Keeps b _ write_frd-Keeps _ xpr64 insn pc
  execute-Keeps insn_fsqrt_s xpr64 insn pc = float_rounded-Keeps b _ write_frd-Keeps _ xpr64 insn pc
  execute-Keeps insn_fmadd_d xpr64 insn pc = float_rounded-Keeps b _ write_frd-Keeps _ xpr64 insn pc
  execute-Keeps insn_fmadd_s xpr64 insn pc = float_rounded-Keeps b _ write_frd-Keeps _ xpr64 insn pc
  execute-Keeps insn_fmsub_d xpr64 insn pc = float_rounded-Keeps b _ write_frd-Keeps _ xpr64 insn pc
  execute-Keeps insn_fmsub_s xpr64 insn pc = float_rounded-Keeps b _ write_frd-Keeps _ xpr64 insn pc
  execute-Keeps insn_fnmadd_d xpr64 insn pc =
      float_rounded-Keeps b _ write_frd-Keeps _ xpr64 insn pc
  execute-Keeps insn_fnmadd_s xpr64 insn pc =
      float_rounded-Keeps b _ write_frd-Keeps _ xpr64 insn pc
  execute-Keeps insn_fnmsub_d xpr64 insn pc =
      float_rounded-Keeps b _ write_frd-Keeps _ xpr64 insn pc
  execute-Keeps insn_fnmsub_s xpr64 insn pc =
      float_rounded-Keeps b _ write_frd-Keeps _ xpr64 insn pc
  execute-Keeps insn_feq_d xpr64 insn pc = float_flagged-Keeps b _ write_rd-Keeps _ xpr64 insn pc
  execute-Keeps insn_feq_s xpr64 insn pc = float_flagged-Keeps b _ write_rd-Keeps _ xpr64 insn pc
  execute-Keeps insn_fle_d xpr64 insn pc = float_flagged-Keeps b _ write_rd-Keeps _ xpr64 insn pc
  execute-Keeps insn_fle_s xpr64 insn pc = float_flagged-Keeps b _ write_rd-Keeps _ xpr64 insn pc
  execute-Keeps insn_flt_d xpr64 insn pc = float_flagged-Keeps b _ write_rd-Keeps _ xpr64 insn pc
  execute-Keeps insn_flt_s xpr64 insn pc = float_flagged-Keeps b _ write_rd-Keeps _ xpr64 insn pc
  execute-Keeps insn_fmax_d xpr64 insn pc = float_flagged-Keeps b _ write_frd-Keeps _ xpr64 insn pc
  execute-Keeps insn_fmax_s xpr64 insn pc = float_flagged-Keeps b _ write_frd-Keeps _ xpr64 insn pc
  execute-Keeps insn_fmin_d xpr64 insn pc = float_flagged-Keeps b _ write_frd-Keeps _ xpr64 insn pc
  execute-Keeps insn_fmin_s xpr64 insn pc = float_flagged-Keeps b _ write_frd-Keeps _ xpr64 insn pc
  execute-Keeps insn_fclass_d xpr64 insn pc = float_move-Keeps b _ write_rd-Keeps _ xpr64 insn pc
  execute-Keeps insn_fclass_s xpr64 insn pc = float_move-Keeps b _ write_rd-Keeps _ xpr64 insn pc
  execute-Keeps insn_fsgnj_d xpr64 insn pc = float_move-Keeps b _ write_frd-Keeps _ xpr64 insn pc
  execute-Keeps insn_fsgnj_s xpr64 insn pc = float_move-Keeps b _ write_frd-Keeps _ xpr64 insn pc
  execute-Keeps insn_fsgnjn_d xpr64 insn pc = float_move-Keeps b _ write_frd-Keeps _ xpr64 insn pc
  execute-Keeps insn_fsgnjn_s xpr64 insn pc = float_move-Keeps b _ write_frd-Keeps _ xpr64 insn pc
  execute-Keeps insn_fsgnjx_d xpr64 insn pc = float_move-Keeps b _ write_frd-Keeps _ xpr64 insn pc
  execute-Keeps insn_fsgnjx_s xpr64 insn pc = float_move-Keeps b _ write_frd-Keeps _ xpr64 insn pc
  execute-Keeps insn_fmv_d_x xpr64 insn pc =
      require_xpr64-Keeps xpr64 _ (float_move-Keeps b _ write_frd-Keeps _ xpr64 insn pc)
  execute-Keeps insn_fmv_s_x xpr64 insn pc = float_move-Keeps b _ write_frd-Keeps _ xpr64 insn pc
  execute-Keeps insn_fmv_x_d xpr64 insn pc =
      require_xpr64-Keeps xpr64 _ (float_move-Keeps b _ write_rd-Keeps _ xpr64 insn pc)
  execute-Keeps insn_fmv_x_s xpr64 insn pc = float_move-Keeps b _ write_rd-Keeps _ xpr64 insn pc
  execute-Keeps insn_fcvt_d_l xpr64 insn pc =
      require_xpr64-Keeps xpr64 _ (float_rounded-Keeps b _ write_frd-Keeps _ xpr64 insn pc)
  execute-Keeps insn_fcvt_d_lu xpr64 insn pc =
      require_xpr64-Keeps xpr64 _ (float_rounded-Keeps b _ write_frd-Keeps _ xpr64 insn pc)
  execute-Keeps insn_fcvt_d_s xpr64 insn pc =
      float_rounded-Keeps b _ write_frd-Keeps _ xpr64 insn pc
  execute-Keeps insn_fcvt_d_w xpr64 insn pc =
      float_rounded-Keeps b _ write_frd-Keeps _ xpr64 insn pc
  execute-Keeps insn_fcvt_d_wu xpr64 insn pc =
      float_rounded-Keeps b _ write_frd-Keeps _ xpr64 insn pc
  execute-Keeps insn_fcvt_l_d xpr64 insn pc =
      require_xpr64-Keeps xpr64 _ (float_rounded-Keeps b _ write_rd-Keeps _ xpr64 insn pc)
  execute-Keeps insn_fcvt_l_s xpr64 insn pc =
      require_xpr64-Keeps xpr64 _ (float_rounded-Keeps b _ write_rd-Keeps _ xpr64 insn pc)
  execute-Keeps insn_fcvt_lu_d xpr64 insn pc =
      require_xpr64-Keeps xpr64 _ (float_rounded-Keeps b _ write_rd-Keeps _ xpr64 insn pc)
  execute-Keeps insn_fcvt_lu_s xpr64 insn pc =
      require_xpr64-Keeps xpr64 _ (float_rounded-Keeps b _ write_rd-Keeps _ xpr64 insn pc)
  execute-Keeps insn_fcvt_s_d xpr64 insn pc =
      float_rounded-Keeps b _ write_frd-Keeps _ xpr64 insn pc
  execute-Keeps insn_fcvt_s_l xpr64 insn pc =
      require_xpr64-Keeps xpr64 _ (float_rounded-Keeps b _ write_frd-Keeps _ xpr64 insn pc)
  execute-Keeps insn_fcvt_s_lu xpr64 insn pc =
      require_xpr64-Keeps xpr64 _ (float_rounded-Keeps b _ write_frd-Keeps _ xpr64 insn pc)
  execute-Keeps insn_fcvt_s_w xpr64 insn pc =
      float_rounded-Keeps b _ write_frd-Keeps _ xpr64 insn pc
  execute-Keeps insn_fcvt_s_wu xpr64 insn pc =
      float_rounded-Keeps b _ write_frd-Keeps _ xpr64 insn pc
  execute-Keeps insn_fcvt_w_d xpr64 insn pc = float_rounded-Keeps b _ write_rd-Keeps _ xpr64 insn pc
  execute-Keeps insn_fcvt_w_s xpr64 insn pc = float_rounded-Keeps b _ write_rd-Keeps _ xpr64 insn pc
  execute-Keeps insn_fcvt_wu_d xpr64 insn pc =
      float_rounded-Keeps b _ write_rd-Keeps _ xpr64 insn pc
  execute-Keeps insn_fcvt_wu_s xpr64 insn pc =
      float_rounded-Keeps b _ write_rd-Keeps _ xpr64 insn pc
  execute-Keeps insn_fld xpr64 insn pc = float_load-Keeps b garbage _ xpr64 insn pc
  execute-Keeps insn_flw xpr64 insn pc = float_load-Keeps b garbage _ xpr64 insn pc
  execute-Keeps insn_fsd xpr64 insn pc = float_store-Keeps b garbage _ xpr64 insn pc
  execute-Keeps insn_fsw xpr64 insn pc = float_store-Keeps b garbage _ xpr64 insn pc
