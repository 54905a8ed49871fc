-- ===== src/Disasm/Table.antt =====
-- The entries of the constructor `disassembler_t` of spike_main/disasm.cc, in its order. A macro that
-- adds an entry is a function of what MATCH and MASK of riscv/encoding.h are for its instruction.
use riscv_isa_sim.Base.{ℕ, ◌*◌, ◌^◌, bit_or, List, [], ◌∷◌, ◌++◌, map}
use riscv_isa_sim.Hart.Decode.{InsnDesc}
use riscv_isa_sim.Isa.Opcodes.{InsnName, registered}
use riscv_isa_sim.Disasm.{
  Arg, load_address, store_address, amo_address, xrd, xrs1, xrs2, frd, frs1, frs2, frs3, csr_arg,
  imm, bigimm, zimm5, branch_offset, jump_offset, DisasmInsn, Chains, no_chains, add_insns,
}

abbrev pub mask_rd : ℕ
mask_rd = 0x1f * 2 ^ 7

abbrev pub match_rd_ra : ℕ
match_rd_ra = 1 * 2 ^ 7

abbrev pub mask_rs1 : ℕ
mask_rs1 = 0x1f * 2 ^ 15

abbrev pub match_rs1_ra : ℕ
match_rs1_ra = 1 * 2 ^ 15

abbrev pub mask_rs2 : ℕ
mask_rs2 = 0x1f * 2 ^ 20

abbrev pub mask_imm : ℕ
mask_imm = 0xfff * 2 ^ 20

abbrev pub match_imm_1 : ℕ
match_imm_1 = 1 * 2 ^ 20

abbrev pub entry : (match_bits mask : ℕ) → List Arg → DisasmInsn
entry match_bits mask args = record { match_bits = match_bits; mask = mask; args = args }

abbrev pub define_noarg : (match_bits mask : ℕ) → DisasmInsn
define_noarg match_bits mask = entry match_bits mask []

abbrev pub define_rtype : (match_bits mask : ℕ) → DisasmInsn
define_rtype match_bits mask = entry match_bits mask (xrd ∷ (xrs1 ∷ (xrs2 ∷ [])))

abbrev pub define_itype : (match_bits mask : ℕ) → DisasmInsn
define_itype match_bits mask = entry match_bits mask (xrd ∷ (xrs1 ∷ (imm ∷ [])))

abbrev pub define_i0type : (match_bits mask : ℕ) → DisasmInsn
define_i0type match_bits mask = entry match_bits (bit_or mask mask_rs1) (xrd ∷ (imm ∷ []))

abbrev pub define_i1type : (match_bits mask : ℕ) → DisasmInsn
define_i1type match_bits mask = entry match_bits (bit_or mask mask_imm) (xrd ∷ (xrs1 ∷ []))

abbrev pub define_i2type : (match_bits mask : ℕ) → DisasmInsn
define_i2type match_bits mask = entry match_bits (bit_or (bit_or mask mask_rd) mask_imm) (xrs1 ∷ [])

abbrev pub define_ltype : (match_bits mask : ℕ) → DisasmInsn
define_ltype match_bits mask = entry match_bits mask (xrd ∷ (bigimm ∷ []))

abbrev pub define_btype : (match_bits mask : ℕ) → DisasmInsn
define_btype match_bits mask = entry match_bits mask (xrs1 ∷ (xrs2 ∷ (branch_offset ∷ [])))

abbrev pub define_b0type : (match_bits mask : ℕ) → DisasmInsn
define_b0type match_bits mask =
    entry match_bits (bit_or (bit_or mask mask_rs1) mask_rs2) (branch_offset ∷ [])

abbrev pub define_b1type : (match_bits mask : ℕ) → DisasmInsn
define_b1type match_bits mask =
    entry match_bits (bit_or mask mask_rs2) (xrs1 ∷ (branch_offset ∷ []))

abbrev pub define_xload : (match_bits mask : ℕ) → DisasmInsn
define_xload match_bits mask = entry match_bits mask (xrd ∷ (load_address ∷ []))

abbrev pub define_xstore : (match_bits mask : ℕ) → DisasmInsn
define_xstore match_bits mask = entry match_bits mask (xrs2 ∷ (store_address ∷ []))

abbrev pub define_xamo : (match_bits mask : ℕ) → DisasmInsn
define_xamo match_bits mask = entry match_bits mask (xrd ∷ (xrs2 ∷ (amo_address ∷ [])))

abbrev pub define_fload : (match_bits mask : ℕ) → DisasmInsn
define_fload match_bits mask = entry match_bits mask (frd ∷ (load_address ∷ []))

abbrev pub define_fstore : (match_bits mask : ℕ) → DisasmInsn
define_fstore match_bits mask = entry match_bits mask (frs2 ∷ (store_address ∷ []))

abbrev pub define_frtype : (match_bits mask : ℕ) → DisasmInsn
define_frtype match_bits mask = entry match_bits mask (frd ∷ (frs1 ∷ (frs2 ∷ [])))

abbrev pub define_fr1type : (match_bits mask : ℕ) → DisasmInsn
define_fr1type match_bits mask = entry match_bits mask (frd ∷ (frs1 ∷ []))

abbrev pub define_fr3type : (match_bits mask : ℕ) → DisasmInsn
define_fr3type match_bits mask = entry match_bits mask (frd ∷ (frs1 ∷ (frs2 ∷ (frs3 ∷ []))))

abbrev pub define_fxtype : (match_bits mask : ℕ) → DisasmInsn
define_fxtype match_bits mask = entry match_bits mask (xrd ∷ (frs1 ∷ []))

abbrev pub define_xftype : (match_bits mask : ℕ) → DisasmInsn
define_xftype match_bits mask = entry match_bits mask (frd ∷ (xrs1 ∷ []))

unfoldable pub integer_entries : List DisasmInsn
integer_entries =
    (define_xload 0x3 0x707f)
    ∷ (define_xload 0x4003 0x707f)
    ∷ (define_xload 0x1003 0x707f)
    ∷ (define_xload 0x5003 0x707f)
    ∷ (define_xload 0x2003 0x707f)
    ∷ (define_xload 0x6003 0x707f)
    ∷ (define_xload 0x3003 0x707f)
    ∷ (define_xstore 0x23 0x707f)
    ∷ (define_xstore 0x1023 0x707f)
    ∷ (define_xstore 0x2023 0x707f)
    ∷ (define_xstore 0x3023 0x707f)
    ∷ (define_xamo 0x202f 0xf800707f)
    ∷ (define_xamo 0x800202f 0xf800707f)
    ∷ (define_xamo 0x6000202f 0xf800707f)
    ∷ (define_xamo 0x4000202f 0xf800707f)
    ∷ (define_xamo 0x2000202f 0xf800707f)
    ∷ (define_xamo 0x8000202f 0xf800707f)
    ∷ (define_xamo 0xa000202f 0xf800707f)
    ∷ (define_xamo 0xc000202f 0xf800707f)
    ∷ (define_xamo 0xe000202f 0xf800707f)
    ∷ (define_xamo 0x302f 0xf800707f)
    ∷ (define_xamo 0x800302f 0xf800707f)
    ∷ (define_xamo 0x6000302f 0xf800707f)
    ∷ (define_xamo 0x4000302f 0xf800707f)
    ∷ (define_xamo 0x2000302f 0xf800707f)
    ∷ (define_xamo 0x8000302f 0xf800707f)
    ∷ (define_xamo 0xa000302f 0xf800707f)
    ∷ (define_xamo 0xc000302f 0xf800707f)
    ∷ (define_xamo 0xe000302f 0xf800707f)
    ∷ (define_xamo 0x1000202f 0xf9f0707f)
    ∷ (define_xamo 0x1800202f 0xf800707f)
    ∷ (define_xamo 0x1000302f 0xf9f0707f)
    ∷ (define_xamo 0x1800302f 0xf800707f)
    ∷ (define_fload 0x2007 0x707f)
    ∷ (define_fload 0x3007 0x707f)
    ∷ (define_fstore 0x2027 0x707f)
    ∷ (define_fstore 0x3027 0x707f)
    ∷ (entry 0x6f (bit_or 0x7f mask_rd) (jump_offset ∷ []))
    ∷ (entry (bit_or 0x6f match_rd_ra) (bit_or 0x7f mask_rd) (jump_offset ∷ []))
    ∷ (entry 0x6f 0x7f (xrd ∷ (jump_offset ∷ [])))
    ∷ (define_b1type 0x63 0x707f)
    ∷ (define_b1type 0x1063 0x707f)
    ∷ (define_b1type 0x4063 0x707f)
    ∷ (define_b1type 0x5063 0x707f)
    ∷ (define_btype 0x63 0x707f)
    ∷ (define_btype 0x1063 0x707f)
    ∷ (define_btype 0x4063 0x707f)
    ∷ (define_btype 0x5063 0x707f)
    ∷ (define_btype 0x6063 0x707f)
    ∷ (define_btype 0x7063 0x707f)
    ∷ (define_ltype 0x37 0x7f)
    ∷ (define_ltype 0x17 0x7f)
    ∷ (define_ltype 0xb 0x7f)
    ∷ (define_ltype 0x6b 0x7f)
    ∷ (entry (bit_or 0x67 match_rs1_ra) (bit_or (bit_or (bit_or 0x707f mask_rd) mask_rs1) mask_imm)
        [])
    ∷ (define_i2type 0x67 0x707f)
    ∷ (entry (bit_or 0x67 match_rd_ra) (bit_or (bit_or 0x707f mask_rd) mask_imm) (xrs1 ∷ []))
    ∷ (define_itype 0x67 0x707f)
    ∷ (entry 0x13 (bit_or (bit_or (bit_or 0x707f mask_rd) mask_rs1) mask_imm) [])
    ∷ (entry 0x4033 (bit_or (bit_or (bit_or 0xfe00707f mask_rd) mask_rs1) mask_rs2) [])
    ∷ (define_i0type 0x13 0x707f)
    ∷ (define_i1type 0x13 0x707f)
    ∷ (define_itype 0x13 0x707f)
    ∷ (define_itype 0x1013 0xfc00707f)
    ∷ (define_itype 0x2013 0x707f)
    ∷ (entry (bit_or 0x3013 match_imm_1) (bit_or 0x707f mask_imm) (xrd ∷ (xrs1 ∷ [])))
    ∷ (define_itype 0x3013 0x707f)
    ∷ (entry (bit_or 0x4013 mask_imm) (bit_or 0x707f mask_imm) (xrd ∷ (xrs1 ∷ [])))
    ∷ (define_itype 0x4013 0x707f)
    ∷ (define_itype 0x5013 0xfc00707f)
    ∷ (define_itype 0x40005013 0xfc00707f)
    ∷ (define_itype 0x6013 0x707f)
    ∷ (define_itype 0x7013 0x707f)
    ∷ (define_i1type 0x1b 0x707f)
    ∷ (define_itype 0x1b 0x707f)
    ∷ (define_itype 0x101b 0xfe00707f)
    ∷ (define_itype 0x501b 0xfe00707f)
    ∷ (define_itype 0x4000501b 0xfe00707f)
    ∷ (define_rtype 0x33 0xfe00707f)
    ∷ (define_rtype 0x40000033 0xfe00707f)
    ∷ (define_rtype 0x1033 0xfe00707f)
    ∷ (define_rtype 0x2033 0xfe00707f)
    ∷ (entry 0x3033 (bit_or 0xfe00707f mask_rs1) (xrd ∷ (xrs2 ∷ [])))
    ∷ (define_rtype 0x3033 0xfe00707f)
    ∷ (define_rtype 0x4033 0xfe00707f)
    ∷ (define_rtype 0x5033 0xfe00707f)
    ∷ (define_rtype 0x40005033 0xfe00707f)
    ∷ (define_rtype 0x6033 0xfe00707f)
    ∷ (define_rtype 0x7033 0xfe00707f)
    ∷ (define_rtype 0x2000033 0xfe00707f)
    ∷ (define_rtype 0x2001033 0xfe00707f)
    ∷ (define_rtype 0x2003033 0xfe00707f)
    ∷ (define_rtype 0x2002033 0xfe00707f)
    ∷ (define_rtype 0x2004033 0xfe00707f)
    ∷ (define_rtype 0x2005033 0xfe00707f)
    ∷ (define_rtype 0x2006033 0xfe00707f)
    ∷ (define_rtype 0x2007033 0xfe00707f)
    ∷ (define_rtype 0x3b 0xfe00707f)
    ∷ (define_rtype 0x4000003b 0xfe00707f)
    ∷ (define_rtype 0x103b 0xfe00707f)
    ∷ (define_rtype 0x503b 0xfe00707f)
    ∷ (define_rtype 0x4000503b 0xfe00707f)
    ∷ (define_rtype 0x200003b 0xfe00707f)
    ∷ (define_rtype 0x200403b 0xfe00707f)
    ∷ (define_rtype 0x200503b 0xfe00707f)
    ∷ (define_rtype 0x200603b 0xfe00707f)
    ∷ (define_rtype 0x200703b 0xfe00707f)
    ∷ (define_noarg 0x73 0xffffffff)
    ∷ (define_noarg 0x100073 0xffffffff)
    ∷ (define_noarg 0xf 0x707f)
    ∷ (define_noarg 0x100f 0x707f)
    ∷ (entry 0x2073 (bit_or 0x707f mask_rs1) (xrd ∷ (csr_arg ∷ [])))
    ∷ (entry 0x1073 (bit_or 0x707f mask_rd) (csr_arg ∷ (xrs1 ∷ [])))
    ∷ (entry 0x2073 (bit_or 0x707f mask_rd) (csr_arg ∷ (xrs1 ∷ [])))
    ∷ (entry 0x3073 (bit_or 0x707f mask_rd) (csr_arg ∷ (xrs1 ∷ [])))
    ∷ []

unfoldable pub float_entries : List DisasmInsn
float_entries =
    (entry 0x5073 (bit_or 0x707f mask_rd) (csr_arg ∷ (zimm5 ∷ [])))
    ∷ (entry 0x6073 (bit_or 0x707f mask_rd) (csr_arg ∷ (zimm5 ∷ [])))
    ∷ (entry 0x7073 (bit_or 0x707f mask_rd) (csr_arg ∷ (zimm5 ∷ [])))
    ∷ (entry 0x1073 0x707f (xrd ∷ (csr_arg ∷ (xrs1 ∷ []))))
    ∷ (entry 0x2073 0x707f (xrd ∷ (csr_arg ∷ (xrs1 ∷ []))))
    ∷ (entry 0x3073 0x707f (xrd ∷ (csr_arg ∷ (xrs1 ∷ []))))
    ∷ (entry 0x5073 0x707f (xrd ∷ (csr_arg ∷ (zimm5 ∷ []))))
    ∷ (entry 0x6073 0x707f (xrd ∷ (csr_arg ∷ (zimm5 ∷ []))))
    ∷ (entry 0x7073 0x707f (xrd ∷ (csr_arg ∷ (zimm5 ∷ []))))
    ∷ (define_noarg 0x80000073 0xffffffff)
    ∷ (define_frtype 0x53 0xfe00007f)
    ∷ (define_frtype 0x8000053 0xfe00007f)
    ∷ (define_frtype 0x10000053 0xfe00007f)
    ∷ (define_frtype 0x18000053 0xfe00007f)
    ∷ (define_fr1type 0x58000053 0xfff0007f)
    ∷ (define_frtype 0x28000053 0xfe00707f)
    ∷ (define_frtype 0x28001053 0xfe00707f)
    ∷ (define_fr3type 0x43 0x600007f)
    ∷ (define_fr3type 0x47 0x600007f)
    ∷ (define_fr3type 0x4f 0x600007f)
    ∷ (define_fr3type 0x4b 0x600007f)
    ∷ (define_frtype 0x20000053 0xfe00707f)
    ∷ (define_frtype 0x20001053 0xfe00707f)
    ∷ (define_frtype 0x20002053 0xfe00707f)
    ∷ (define_fr1type 0x40100053 0xfff0007f)
    ∷ (define_xftype 0xd0200053 0xfff0007f)
    ∷ (define_xftype 0xd0300053 0xfff0007f)
    ∷ (define_xftype 0xd0000053 0xfff0007f)
    ∷ (define_xftype 0xd0100053 0xfff0007f)
    ∷ (define_xftype 0xd0100053 0xfff0007f)
    ∷ (define_xftype 0xf0000053 0xfff0707f)
    ∷ (define_fxtype 0xc0200053 0xfff0007f)
    ∷ (define_fxtype 0xc0300053 0xfff0007f)
    ∷ (define_fxtype 0xc0000053 0xfff0007f)
    ∷ (define_fxtype 0xc0100053 0xfff0007f)
    ∷ (define_fxtype 0xe0001053 0xfff0707f)
    ∷ (define_fxtype 0xe0000053 0xfff0707f)
    ∷ (define_fxtype 0xa0002053 0xfe00707f)
    ∷ (define_fxtype 0xa0001053 0xfe00707f)
    ∷ (define_fxtype 0xa0000053 0xfe00707f)
    ∷ (define_frtype 0x2000053 0xfe00007f)
    ∷ (define_frtype 0xa000053 0xfe00007f)
    ∷ (define_frtype 0x12000053 0xfe00007f)
    ∷ (define_frtype 0x1a000053 0xfe00007f)
    ∷ (define_fr1type 0x5a000053 0xfff0007f)
    ∷ (define_frtype 0x2a000053 0xfe00707f)
    ∷ (define_frtype 0x2a001053 0xfe00707f)
    ∷ (define_fr3type 0x2000043 0x600007f)
    ∷ (define_fr3type 0x2000047 0x600007f)
    ∷ (define_fr3type 0x200004f 0x600007f)
    ∷ (define_fr3type 0x200004b 0x600007f)
    ∷ (define_frtype 0x22000053 0xfe00707f)
    ∷ (define_frtype 0x22001053 0xfe00707f)
    ∷ (define_frtype 0x22002053 0xfe00707f)
    ∷ (define_fr1type 0x42000053 0xfff0007f)
    ∷ (define_xftype 0xd2200053 0xfff0007f)
    ∷ (define_xftype 0xd2300053 0xfff0007f)
    ∷ (define_xftype 0xd2000053 0xfff0007f)
    ∷ (define_xftype 0xd2100053 0xfff0007f)
    ∷ (define_xftype 0xd2100053 0xfff0007f)
    ∷ (define_xftype 0xf2000053 0xfff0707f)
    ∷ (define_fxtype 0xc2200053 0xfff0007f)
    ∷ (define_fxtype 0xc2300053 0xfff0007f)
    ∷ (define_fxtype 0xc2000053 0xfff0007f)
    ∷ (define_fxtype 0xc2100053 0xfff0007f)
    ∷ (define_fxtype 0xe2001053 0xfff0707f)
    ∷ (define_fxtype 0xe2000053 0xfff0707f)
    ∷ (define_fxtype 0xa2002053 0xfe00707f)
    ∷ (define_fxtype 0xa2001053 0xfe00707f)
    ∷ (define_fxtype 0xa2000053 0xfe00707f)
    ∷ []

-- The entries with no arguments for all instructions, as a fallback.
abbrev pub fallback : InsnDesc InsnName → DisasmInsn
fallback desc = entry desc.match_bits desc.mask []

unfoldable pub disasm_entries : List DisasmInsn
unfolding integer_entries float_entries registered
disasm_entries = integer_entries ++ (float_entries ++ map fallback registered)

-- What the constructor leaves.
unfoldable pub disassembler : Chains
unfolding disasm_entries add_insns
disassembler = add_insns disasm_entries no_chains
