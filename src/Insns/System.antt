-- ===== src/Insns/System.antt =====
-- Control registers, traps on purpose, tags and fences.
use riscv_isa_sim.Base.{ℕ, Bool, true, not, ◌==◌, bit_and, bit_or, not64, u32, none}
use riscv_isa_sim.Build.{Build}
use riscv_isa_sim.Tags.{tag_csr}
use riscv_isa_sim.Isa.Encoding.{cause_syscall, cause_breakpoint}
use riscv_isa_sim.Isa.Insn.{rd, rs1, csr, u_imm_noshift}
use riscv_isa_sim.Hart.State.{State}
use riscv_isa_sim.Hart.Machine.{
  Machine, Trap, done, trapped, gets, modify, modify_state, ◌>>=◌, ◌>>◌,
}
use riscv_isa_sim.Hart.Csr.{validate_csr, get_pcr, set_pcr}
use riscv_isa_sim.Mmu.Tables.{flush_icache}
use riscv_isa_sim.Insns.Macros.{InsnFunc, sext_xprlen, rs1_val, write_reg_tag, next_pc, result}

abbrev pub trap_syscall : Trap
trap_syscall = record { cause = cause_syscall; badvaddr = none }

abbrev pub trap_breakpoint : Trap
trap_breakpoint = record { cause = cause_breakpoint; badvaddr = none }

unfoldable pub rv_scall : InsnFunc
rv_scall xpr64 insn pc m = trapped trap_syscall m

unfoldable pub rv_sbreak : InsnFunc
rv_sbreak xpr64 insn pc m = trapped trap_breakpoint m

unfoldable pub rv_settag : InsnFunc
unfolding write_reg_tag next_pc
rv_settag xpr64 insn pc = (do write_reg_tag (rd insn) (u_imm_noshift insn); done (next_pc xpr64 pc))

-- `set_tag_mode`, whose argument is cut to 32 bits.
unfoldable pub set_tag_mode : ℕ → State → State
set_tag_mode enforcing s = record s { tag_mode = u32 enforcing }

unfoldable pub rv_tagenforce : InsnFunc
unfolding set_tag_mode next_pc
rv_tagenforce xpr64 insn pc = (do
  modify_state (set_tag_mode (u_imm_noshift insn))
  done (next_pc xpr64 pc))

-- fence.h is empty.
unfoldable pub rv_fence : InsnFunc
unfolding next_pc
rv_fence xpr64 insn pc = done (next_pc xpr64 pc)

unfoldable pub rv_fence_i : InsnFunc
unfolding flush_icache next_pc
rv_fence_i xpr64 insn pc = (do
  modify (λ m. record m { mmu = flush_icache m.mmu })
  done (next_pc xpr64 pc))

-- `tick` is the host interface's.
module _ (b : Build) (tick : Machine → Machine) where
  -- The body of all six: the new value from the old one and the machine.
  unfoldable pub csr_insn : Bool → (ℕ → Machine → ℕ) → InsnFunc
  unfolding result
  csr_insn write value xpr64 insn pc = (do
    which ← validate_csr (csr insn) write
    old ← get_pcr b tick which
    new ← gets (value old)
    set_pcr b which new
    result xpr64 insn pc (sext_xprlen xpr64 old) tag_csr)

  unfoldable pub rv_csrrw : InsnFunc
  unfolding csr_insn
  rv_csrrw xpr64 insn = csr_insn true (λ _. rs1_val insn) xpr64 insn

  unfoldable pub rv_csrrs : InsnFunc
  unfolding csr_insn
  rv_csrrs xpr64 insn =
      csr_insn (not (rs1 insn == 0)) (λ old m. bit_or old (rs1_val insn m)) xpr64 insn

  unfoldable pub rv_csrrc : InsnFunc
  unfolding csr_insn
  rv_csrrc xpr64 insn = csr_insn true (λ old m. bit_and old (not64 (rs1_val insn m))) xpr64 insn

  unfoldable pub rv_csrrwi : InsnFunc
  unfolding csr_insn
  rv_csrrwi xpr64 insn = csr_insn true (λ _ _. rs1 insn) xpr64 insn

  unfoldable pub rv_csrrsi : InsnFunc
  unfolding csr_insn
  rv_csrrsi xpr64 insn = csr_insn true (λ old _. bit_or old (rs1 insn)) xpr64 insn

  unfoldable pub rv_csrrci : InsnFunc
  unfolding csr_insn
  rv_csrrci xpr64 insn = csr_insn true (λ old _. bit_and old (not64 (rs1 insn))) xpr64 insn
