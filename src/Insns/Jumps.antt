-- ===== src/Insns/Jumps.antt =====
-- Branches and jumps.
use riscv_isa_sim.Base.{
  ℕ, Bool, true, not, ◌==◌, ◌&&◌, ltb, leb, if◌then◌else◌, bit_and, has, add64, not64, slt64,
}
use riscv_isa_sim.Build.{Build}
use riscv_isa_sim.Tags.{tag_pc, tag_data}
use riscv_isa_sim.Isa.Insn.{i_imm, rs1}
use riscv_isa_sim.Hart.Machine.{Machine, M, done, ◌>>◌}
use riscv_isa_sim.Insns.Macros.{
  InsnFunc, cmp_trunc, rs1_val, rs2_val, tag_s1, write_rd_and_tag, branch_target, jump_target,
  is_supervisor, next_pc, set_pc,
}

-- `if(test) set_pc(BRANCH_TARGET);`
unfoldable pub branch_if : Bool → Bool → ℕ → ℕ → M ℕ
unfolding set_pc next_pc
branch_if test xpr64 insn pc m =
    if test then set_pc xpr64 (branch_target insn pc) m else done (next_pc xpr64 pc) m

unfoldable pub rv_beq : InsnFunc
unfolding branch_if
rv_beq xpr64 insn pc m =
    branch_if (cmp_trunc xpr64 (rs1_val insn m) == cmp_trunc xpr64 (rs2_val insn m)) xpr64 insn pc m

unfoldable pub rv_bne : InsnFunc
unfolding branch_if
rv_bne xpr64 insn pc m =
    branch_if (not (cmp_trunc xpr64 (rs1_val insn m) == cmp_trunc xpr64 (rs2_val insn m))) xpr64
      insn pc m

unfoldable pub rv_blt : InsnFunc
unfolding branch_if
rv_blt xpr64 insn pc m =
    branch_if (slt64 (cmp_trunc xpr64 (rs1_val insn m)) (cmp_trunc xpr64 (rs2_val insn m))) xpr64
      insn pc m

unfoldable pub rv_bge : InsnFunc
unfolding branch_if
rv_bge xpr64 insn pc m =
    branch_if (not (slt64 (cmp_trunc xpr64 (rs1_val insn m)) (cmp_trunc xpr64 (rs2_val insn m))))
      xpr64 insn pc m

unfoldable pub rv_bltu : InsnFunc
unfolding branch_if
rv_bltu xpr64 insn pc m =
    branch_if (ltb (cmp_trunc xpr64 (rs1_val insn m)) (cmp_trunc xpr64 (rs2_val insn m))) xpr64 insn
      pc m

unfoldable pub rv_bgeu : InsnFunc
unfolding branch_if
rv_bgeu xpr64 insn pc m =
    branch_if (leb (cmp_trunc xpr64 (rs2_val insn m)) (cmp_trunc xpr64 (rs1_val insn m))) xpr64 insn
      pc m

unfoldable pub rv_jal : InsnFunc
unfolding write_rd_and_tag next_pc set_pc
rv_jal xpr64 insn pc = (do
  write_rd_and_tag insn (next_pc xpr64 pc) tag_pc
  set_pc xpr64 (jump_target insn pc))

-- `TAG_TRAP()` with TRAP_DEBUG set, as it is: `monitor`, which stops the run after the step.
unfoldable pub tag_trap_if : Bool → Machine → Machine
tag_trap_if test m = if test then record m { ctrlc_pressed = true } else m

module _ (b : Build) where
  -- The jump to what is no code address, by the register of returns in user mode.
  unfoldable pub is_bad_return : ℕ → Machine → Bool
  is_bad_return insn m =
      not (has (tag_s1 insn m) tag_pc) && (rs1 insn == 1) && not (is_supervisor m)

  unfoldable pub rv_jalr : InsnFunc
  unfolding write_rd_and_tag next_pc set_pc is_bad_return tag_trap_if
  rv_jalr xpr64 insn pc m =
      let m1 = tag_trap_if (is_bad_return insn m) m in
      let m2 = tag_trap_if (b.no_partial_copy && has (tag_s1 insn m) tag_data) m1 in
      let target = bit_and (add64 (rs1_val insn m) (i_imm insn)) (not64 1) in
      (do write_rd_and_tag insn (next_pc xpr64 pc) tag_pc; set_pc xpr64 target) m2
