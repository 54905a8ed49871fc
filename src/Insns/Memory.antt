-- ===== src/Insns/Memory.antt =====
-- Loads and stores, with the policies on what is copied.
use riscv_isa_sim.Base.{ℕ, Bool, true, false, not, ◌==◌, ◌&&◌, if◌then◌else◌, has, add64}
use riscv_isa_sim.Build.{Build}
use riscv_isa_sim.Tags.{tag_data, tag_pc, clear_pc_tag}
use riscv_isa_sim.Isa.Insn.{i_imm, s_imm, rs2}
use riscv_isa_sim.Hart.Machine.{Machine, M, done, ◌>>=◌, ◌>>◌}
use riscv_isa_sim.Mmu.Memory.{load_tagged, store_tagged, store_tag_value}
use riscv_isa_sim.Insns.Macros.{
  InsnFunc, rs1_val, rs2_val, tag_s1, tag_s2, write_reg_tag, is_supervisor, next_pc, result,
  require_xpr64,
}
use riscv_isa_sim.Insns.Jumps.{tag_trap_if}

abbrev pub return_register : ℕ
return_register = 1

module _ (b : Build) where
  -- TAG_POLICY_NO_PARTIAL_COPY: an access through a data pointer, outside the kernel's half.
  unfoldable pub is_data_access : ℕ → ℕ → Machine → Bool
  is_data_access insn addr m =
      b.no_partial_copy && has (tag_s1 insn m) tag_data && not (has addr 0x8000_0000_0000_0000)

  -- TAG_POLICY_NO_RETURN_COPY: a load in user mode takes the PC tag away from the memory.
  unfoldable pub clear_loaded_tag : ℕ → ℕ → M (Unit {0})
  unfolding clear_pc_tag
  clear_loaded_tag addr tag m =
      if b.no_return_copy && not (is_supervisor m) && not (clear_pc_tag tag == tag)
      then store_tag_value (clear_pc_tag tag) addr m
      else done tt m

  -- The body that all loads share, from `addr` on.
  unfoldable pub load_insn : (garbage : ℕ) → ℕ → Bool → InsnFunc
  unfolding is_data_access clear_loaded_tag tag_trap_if result
  load_insn garbage bytes signed xpr64 insn pc m =
      let addr = add64 (rs1_val insn m) (i_imm insn) in
      (do
        v ← load_tagged garbage bytes signed addr
        clear_loaded_tag addr v.tag
        result xpr64 insn pc v.val v.tag)
        (tag_trap_if (is_data_access insn addr m) m)

  -- TAG_POLICY_NO_RETURN_COPY: a store of the return address in user mode takes the PC tag away
  -- from the register.
  unfoldable pub clear_stored_tag : ℕ → M (Unit {0})
  unfolding clear_pc_tag write_reg_tag
  clear_stored_tag insn m =
      if b.no_return_copy
        && m.state.tag_mode == 1
        && rs2 insn == return_register
        && not (is_supervisor m)
      then write_reg_tag return_register (clear_pc_tag tag_pc) m
      else done tt m

  -- The tag that a store of less than eight bytes writes.
  unfoldable pub partial_tag : ℕ → Machine → ℕ
  partial_tag insn m =
      if b.no_partial_copy && not (m.state.tag_mode == 4) then tag_data else tag_s2 insn m

  -- The body that all stores share.
  unfoldable pub store_insn : ℕ → (ℕ → Machine → ℕ) → InsnFunc
  unfolding is_data_access clear_stored_tag tag_trap_if next_pc
  store_insn bytes tag xpr64 insn pc m =
      let addr = add64 (rs1_val insn m) (s_imm insn) in
      (do
        store_tagged bytes addr (rs2_val insn m) (tag insn m)
        clear_stored_tag insn
        done (next_pc xpr64 pc))
        (tag_trap_if (is_data_access insn addr m) m)

  unfoldable pub rv_sb : InsnFunc
  unfolding store_insn partial_tag
  rv_sb = store_insn 1 partial_tag

  unfoldable pub rv_sh : InsnFunc
  unfolding store_insn partial_tag
  rv_sh = store_insn 2 partial_tag

  unfoldable pub rv_sw : InsnFunc
  unfolding store_insn partial_tag
  rv_sw = store_insn 4 partial_tag

  unfoldable pub rv_sd : InsnFunc
  unfolding store_insn require_xpr64
  rv_sd xpr64 insn pc = require_xpr64 xpr64 (store_insn 8 tag_s2 xpr64 insn pc)

  module _ (garbage : ℕ) where
    unfoldable pub rv_lb : InsnFunc
    unfolding load_insn
    rv_lb = load_insn garbage 1 true

    unfoldable pub rv_lbu : InsnFunc
    unfolding load_insn
    rv_lbu = load_insn garbage 1 false

    unfoldable pub rv_lh : InsnFunc
    unfolding load_insn
    rv_lh = load_insn garbage 2 true

    unfoldable pub rv_lhu : InsnFunc
    unfolding load_insn
    rv_lhu = load_insn garbage 2 false

    unfoldable pub rv_lw : InsnFunc
    unfolding load_insn
    rv_lw = load_insn garbage 4 true

    unfoldable pub rv_lwu : InsnFunc
    unfolding load_insn require_xpr64
    rv_lwu xpr64 insn pc = require_xpr64 xpr64 (load_insn garbage 4 false xpr64 insn pc)

    unfoldable pub rv_ld : InsnFunc
    unfolding load_insn require_xpr64
    rv_ld xpr64 insn pc = require_xpr64 xpr64 (load_insn garbage 8 true xpr64 insn pc)
