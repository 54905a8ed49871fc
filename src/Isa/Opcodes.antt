-- ===== src/Isa/Opcodes.antt =====
-- The opcode table of riscv/encoding.h: for each instruction the bits that are tested, and what
-- they are to be.
pub mod Unique
pub mod Floats
use riscv_isa_sim.Base.{ℕ, List, [], ◌∷◌, ◌++◌}
use riscv_isa_sim.Hart.Decode.{InsnDesc}

pub data InsnName : Type 0 where
  insn_fmv_s_x insn_subw insn_remuw insn_fmin_d insn_amomax_d insn_bltu insn_fsgnjn_d : InsnName
  insn_fmin_s insn_csrrw insn_slliw insn_lb insn_fmax_s insn_lh insn_fcvt_d_w insn_lw : InsnName
  insn_add insn_csrrc insn_fmax_d insn_bne insn_fcvt_s_d insn_bgeu insn_fadd_d insn_sltiu : InsnName
  insn_fadd_s insn_fclass_d insn_fcvt_s_w insn_mul insn_amominu_d insn_fcvt_s_lu insn_srli :
      InsnName
  insn_amominu_w insn_divuw insn_mulw insn_srlw insn_div insn_fdiv_d insn_settag insn_fence :
      InsnName
  insn_fnmsub_s insn_fcvt_l_s insn_sbreak insn_fle_s insn_fdiv_s insn_fle_d insn_fence_i : InsnName
  insn_fnmsub_d insn_addw insn_sll insn_xor insn_jalr insn_blt insn_scall insn_fclass_s : InsnName
  insn_sc_w insn_rem insn_srliw insn_lui insn_csrrci insn_addi insn_mulh insn_fmul_s : InsnName
  insn_csrrsi insn_srai insn_amoand_d insn_flt_d insn_sraw insn_fmul_d insn_ld insn_ori : InsnName
  insn_csrrs insn_flt_s insn_addiw insn_amoand_w insn_feq_s insn_fsgnjx_d insn_sra insn_bge :
      InsnName
  insn_sraiw insn_srl insn_fsub_d insn_fsgnjx_s insn_feq_d insn_fcvt_d_wu insn_or : InsnName
  insn_fcvt_wu_d insn_and insn_fcvt_d_l insn_amomaxu_d insn_xori insn_amoxor_d insn_amomaxu_w :
      InsnName
  insn_fcvt_wu_s insn_andi insn_fmv_x_s insn_sret insn_fnmadd_s insn_jal insn_lwu : InsnName
  insn_fmv_x_d insn_fcvt_d_s insn_fnmadd_d insn_amoadd_d insn_amomax_w insn_fcvt_w_s : InsnName
  insn_mulhsu insn_amoadd_w insn_fcvt_d_lu insn_lr_w insn_fcvt_w_d insn_slt insn_sllw : InsnName
  insn_amoor_d insn_slti insn_remu insn_flw insn_remw insn_sltu insn_slli insn_amoor_w : InsnName
  insn_beq insn_fld insn_fsub_s insn_tagenforce insn_fmv_d_x insn_lbu insn_fsgnj_s : InsnName
  insn_amoxor_w insn_lr_d insn_fsgnj_d insn_mulhu insn_fcvt_l_d insn_fcvt_s_wu insn_fcvt_lu_s :
      InsnName
  insn_fcvt_s_l insn_auipc insn_fcvt_lu_d insn_csrrwi insn_sc_d insn_fmadd_s insn_fsqrt_s : InsnName
  insn_amomin_w insn_fsgnjn_s insn_amoswap_d insn_fsqrt_d insn_fmadd_d insn_divw : InsnName
  insn_amomin_d insn_divu insn_amoswap_w insn_sub insn_fsd insn_sw insn_fmsub_s insn_lhu : InsnName
  insn_sh insn_fsw insn_sb insn_fmsub_d insn_sd : InsnName

-- DECLARE_INSN: one function for each width, here both by the name.
abbrev pub desc : InsnName → ℕ → ℕ → InsnDesc InsnName
desc name match_bits mask = record {
  match_bits = match_bits;
  mask = mask;
  rv32 = name;
  rv64 = name;
}

unfoldable pub opcodes_1 : List (InsnDesc InsnName)
opcodes_1 =
    desc insn_fmv_s_x 0xf0000053 0xfff0707f
    ∷ desc insn_subw 0x4000003b 0xfe00707f
    ∷ desc insn_remuw 0x200703b 0xfe00707f
    ∷ desc insn_fmin_d 0x2a000053 0xfe00707f
    ∷ desc insn_amomax_d 0xa000302f 0xf800707f
    ∷ desc insn_bltu 0x6063 0x707f
    ∷ desc insn_fsgnjn_d 0x22001053 0xfe00707f
    ∷ desc insn_fmin_s 0x28000053 0xfe00707f
    ∷ desc insn_csrrw 0x1073 0x707f
    ∷ desc insn_slliw 0x101b 0xfe00707f
    ∷ desc insn_lb 0x3 0x707f
    ∷ desc insn_fmax_s 0x28001053 0xfe00707f
    ∷ desc insn_lh 0x1003 0x707f
    ∷ desc insn_fcvt_d_w 0xd2000053 0xfff0007f
    ∷ desc insn_lw 0x2003 0x707f
    ∷ desc insn_add 0x33 0xfe00707f
    ∷ desc insn_csrrc 0x3073 0x707f
    ∷ desc insn_fmax_d 0x2a001053 0xfe00707f
    ∷ desc insn_bne 0x1063 0x707f
    ∷ desc insn_fcvt_s_d 0x40100053 0xfff0007f
    ∷ desc insn_bgeu 0x7063 0x707f
    ∷ desc insn_fadd_d 0x2000053 0xfe00007f
    ∷ desc insn_sltiu 0x3013 0x707f
    ∷ desc insn_fadd_s 0x53 0xfe00007f
    ∷ desc insn_fclass_d 0xe2001053 0xfff0707f
    ∷ desc insn_fcvt_s_w 0xd0000053 0xfff0007f
    ∷ desc insn_mul 0x2000033 0xfe00707f
    ∷ desc insn_amominu_d 0xc000302f 0xf800707f
    ∷ desc insn_fcvt_s_lu 0xd0300053 0xfff0007f
    ∷ desc insn_srli 0x5013 0xfc00707f
    ∷ desc insn_amominu_w 0xc000202f 0xf800707f
    ∷ desc insn_divuw 0x200503b 0xfe00707f
    ∷ desc insn_mulw 0x200003b 0xfe00707f
    ∷ desc insn_srlw 0x503b 0xfe00707f
    ∷ desc insn_div 0x2004033 0xfe00707f
    ∷ desc insn_fdiv_d 0x1a000053 0xfe00007f
    ∷ desc insn_settag 0x6b 0x7f
    ∷ desc insn_fence 0xf 0x707f
    ∷ desc insn_fnmsub_s 0x4b 0x600007f
    ∷ desc insn_fcvt_l_s 0xc0200053 0xfff0007f
    ∷ desc insn_sbreak 0x100073 0xffffffff
    ∷ desc insn_fle_s 0xa0000053 0xfe00707f
    ∷ desc insn_fdiv_s 0x18000053 0xfe00007f
    ∷ desc insn_fle_d 0xa2000053 0xfe00707f
    ∷ desc insn_fence_i 0x100f 0x707f
    ∷ desc insn_fnmsub_d 0x200004b 0x600007f
    ∷ desc insn_addw 0x3b 0xfe00707f
    ∷ desc insn_sll 0x1033 0xfe00707f
    ∷ desc insn_xor 0x4033 0xfe00707f
    ∷ desc insn_jalr 0x67 0x707f
    ∷ desc insn_blt 0x4063 0x707f
    ∷ desc insn_scall 0x73 0xffffffff
    ∷ desc insn_fclass_s 0xe0001053 0xfff0707f
    ∷ []

unfoldable pub opcodes_2 : List (InsnDesc InsnName)
opcodes_2 =
    desc insn_sc_w 0x1800202f 0xf800707f
    ∷ desc insn_rem 0x2006033 0xfe00707f
    ∷ desc insn_srliw 0x501b 0xfe00707f
    ∷ desc insn_lui 0x37 0x7f
    ∷ desc insn_csrrci 0x7073 0x707f
    ∷ desc insn_addi 0x13 0x707f
    ∷ desc insn_mulh 0x2001033 0xfe00707f
    ∷ desc insn_fmul_s 0x10000053 0xfe00007f
    ∷ desc insn_csrrsi 0x6073 0x707f
    ∷ desc insn_srai 0x40005013 0xfc00707f
    ∷ desc insn_amoand_d 0x6000302f 0xf800707f
    ∷ desc insn_flt_d 0xa2001053 0xfe00707f
    ∷ desc insn_sraw 0x4000503b 0xfe00707f
    ∷ desc insn_fmul_d 0x12000053 0xfe00007f
    ∷ desc insn_ld 0x3003 0x707f
    ∷ desc insn_ori 0x6013 0x707f
    ∷ desc insn_csrrs 0x2073 0x707f
    ∷ desc insn_flt_s 0xa0001053 0xfe00707f
    ∷ desc insn_addiw 0x1b 0x707f
    ∷ desc insn_amoand_w 0x6000202f 0xf800707f
    ∷ desc insn_feq_s 0xa0002053 0xfe00707f
    ∷ desc insn_fsgnjx_d 0x22002053 0xfe00707f
    ∷ desc insn_sra 0x40005033 0xfe00707f
    ∷ desc insn_bge 0x5063 0x707f
    ∷ desc insn_sraiw 0x4000501b 0xfe00707f
    ∷ desc insn_srl 0x5033 0xfe00707f
    ∷ desc insn_fsub_d 0xa000053 0xfe00007f
    ∷ desc insn_fsgnjx_s 0x20002053 0xfe00707f
    ∷ desc insn_feq_d 0xa2002053 0xfe00707f
    ∷ desc insn_fcvt_d_wu 0xd2100053 0xfff0007f
    ∷ desc insn_or 0x6033 0xfe00707f
    ∷ desc insn_fcvt_wu_d 0xc2100053 0xfff0007f
    ∷ desc insn_and 0x7033 0xfe00707f
    ∷ desc insn_fcvt_d_l 0xd2200053 0xfff0007f
    ∷ desc insn_amomaxu_d 0xe000302f 0xf800707f
    ∷ desc insn_xori 0x4013 0x707f
    ∷ desc insn_amoxor_d 0x2000302f 0xf800707f
    ∷ desc insn_amomaxu_w 0xe000202f 0xf800707f
    ∷ desc insn_fcvt_wu_s 0xc0100053 0xfff0007f
    ∷ desc insn_andi 0x7013 0x707f
    ∷ desc insn_fmv_x_s 0xe0000053 0xfff0707f
    ∷ desc insn_sret 0x80000073 0xffffffff
    ∷ desc insn_fnmadd_s 0x4f 0x600007f
    ∷ desc insn_jal 0x6f 0x7f
    ∷ desc insn_lwu 0x6003 0x707f
    ∷ desc insn_fmv_x_d 0xe2000053 0xfff0707f
    ∷ desc insn_fcvt_d_s 0x42000053 0xfff0007f
    ∷ desc insn_fnmadd_d 0x200004f 0x600007f
    ∷ desc insn_amoadd_d 0x302f 0xf800707f
    ∷ desc insn_amomax_w 0xa000202f 0xf800707f
    ∷ desc insn_fcvt_w_s 0xc0000053 0xfff0007f
    ∷ desc insn_mulhsu 0x2002033 0xfe00707f
    ∷ desc insn_amoadd_w 0x202f 0xf800707f
    ∷ []

unfoldable pub opcodes_3 : List (InsnDesc InsnName)
opcodes_3 =
    desc insn_fcvt_d_lu 0xd2300053 0xfff0007f
    ∷ desc insn_lr_w 0x1000202f 0xf9f0707f
    ∷ desc insn_fcvt_w_d 0xc2000053 0xfff0007f
    ∷ desc insn_slt 0x2033 0xfe00707f
    ∷ desc insn_sllw 0x103b 0xfe00707f
    ∷ desc insn_amoor_d 0x4000302f 0xf800707f
    ∷ desc insn_slti 0x2013 0x707f
    ∷ desc insn_remu 0x2007033 0xfe00707f
    ∷ desc insn_flw 0x2007 0x707f
    ∷ desc insn_remw 0x200603b 0xfe00707f
    ∷ desc insn_sltu 0x3033 0xfe00707f
    ∷ desc insn_slli 0x1013 0xfc00707f
    ∷ desc insn_amoor_w 0x4000202f 0xf800707f
    ∷ desc insn_beq 0x63 0x707f
    ∷ desc insn_fld 0x3007 0x707f
    ∷ desc insn_fsub_s 0x8000053 0xfe00007f
    ∷ desc insn_tagenforce 0xb 0x7f
    ∷ desc insn_fmv_d_x 0xf2000053 0xfff0707f
    ∷ desc insn_lbu 0x4003 0x707f
    ∷ desc insn_fsgnj_s 0x20000053 0xfe00707f
    ∷ desc insn_amoxor_w 0x2000202f 0xf800707f
    ∷ desc insn_lr_d 0x1000302f 0xf9f0707f
    ∷ desc insn_fsgnj_d 0x22000053 0xfe00707f
    ∷ desc insn_mulhu 0x2003033 0xfe00707f
    ∷ desc insn_fcvt_l_d 0xc2200053 0xfff0007f
    ∷ desc insn_fcvt_s_wu 0xd0100053 0xfff0007f
    ∷ desc insn_fcvt_lu_s 0xc0300053 0xfff0007f
    ∷ desc insn_fcvt_s_l 0xd0200053 0xfff0007f
    ∷ desc insn_auipc 0x17 0x7f
    ∷ desc insn_fcvt_lu_d 0xc2300053 0xfff0007f
    ∷ desc insn_csrrwi 0x5073 0x707f
    ∷ desc insn_sc_d 0x1800302f 0xf800707f
    ∷ desc insn_fmadd_s 0x43 0x600007f
    ∷ desc insn_fsqrt_s 0x58000053 0xfff0007f
    ∷ desc insn_amomin_w 0x8000202f 0xf800707f
    ∷ desc insn_fsgnjn_s 0x20001053 0xfe00707f
    ∷ desc insn_amoswap_d 0x800302f 0xf800707f
    ∷ desc insn_fsqrt_d 0x5a000053 0xfff0007f
    ∷ desc insn_fmadd_d 0x2000043 0x600007f
    ∷ desc insn_divw 0x200403b 0xfe00707f
    ∷ desc insn_amomin_d 0x8000302f 0xf800707f
    ∷ desc insn_divu 0x2005033 0xfe00707f
    ∷ desc insn_amoswap_w 0x800202f 0xf800707f
    ∷ desc insn_sub 0x40000033 0xfe00707f
    ∷ desc insn_fsd 0x3027 0x707f
    ∷ desc insn_sw 0x2023 0x707f
    ∷ desc insn_fmsub_s 0x47 0x600007f
    ∷ desc insn_lhu 0x5003 0x707f
    ∷ desc insn_sh 0x1023 0x707f
    ∷ desc insn_fsw 0x2027 0x707f
    ∷ desc insn_sb 0x23 0x707f
    ∷ desc insn_fmsub_d 0x2000047 0x600007f
    ∷ desc insn_sd 0x3023 0x707f
    ∷ []

-- What the constructor of `processor_t` registers.
unfoldable pub registered : List (InsnDesc InsnName)
unfolding opcodes_1 opcodes_2 opcodes_3
registered = opcodes_1 ++ opcodes_2 ++ opcodes_3
