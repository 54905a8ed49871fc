-- ===== src/Rocc.antt =====
-- The interface of an accelerator: `extension_t` of riscv/extension.h and riscv/extension.cc, and
-- `rocc_t` of riscv/rocc.h and riscv/rocc.cc. The state of the accelerator, of a type E, is passed
-- beside the machine, and what it did before a throw stays done.
pub mod Dummy
pub mod Laws
use riscv_isa_sim.Base.{
  ℕ, ◌/◌, ◌%◌, ◌^◌, Bool, true, false, ◌==◌, if◌then◌else◌, has, add64, minus_one, Option, none,
  some, List, [], ◌∷◌,
}
use riscv_isa_sim.Isa.Encoding.{sr_ea, irq_cop, cause_accelerator_disabled}
use riscv_isa_sim.Hart.Interrupt.{set_interrupt, take_interrupt}
use riscv_isa_sim.Hart.Decode.{InsnDesc}
use riscv_isa_sim.Hart.Machine.{Machine, Trap, M, Outcome, done, trapped, serialize_thrown}
use riscv_isa_sim.Hart.Csr.{trap_illegal_instruction}
use riscv_isa_sim.Disasm.{DisasmInsn}
use riscv_isa_sim.Insns.Macros.{rs1_val, rs2_val}
use riscv_isa_sim.Insns.Float.{write_rd}

abbrev pub trap_accelerator_disabled : Trap
trap_accelerator_disabled = record { cause = cause_accelerator_disabled; badvaddr = none }

-- `extension_t`: an interrupt of the coprocessor is raised and taken, or cleared.
unfoldable pub raise_interrupt : M (Unit {0})
unfolding set_interrupt take_interrupt
raise_interrupt m =
    let raised = record m { state = set_interrupt irq_cop true m.state } in
    elim (take_interrupt raised.state) [ none ↦ done tt raised | some t ↦ trapped t raised ]

unfoldable pub clear_interrupt : M (Unit {0})
unfolding set_interrupt
clear_interrupt m = done tt (record m { state = set_interrupt irq_cop false m.state })

-- The fields of `rocc_insn_t` that the code reads, less rs2, which is that of the word.
abbrev pub xs2 : ℕ → Bool
xs2 insn = insn / 2 ^ 12 % 2 == 1

abbrev pub xs1 : ℕ → Bool
xs1 insn = insn / 2 ^ 13 % 2 == 1

abbrev pub xd : ℕ → Bool
xd insn = insn / 2 ^ 14 % 2 == 1

abbrev pub funct : ℕ → ℕ
funct insn = insn / 2 ^ 25 % 2 ^ 7

abbrev pub Custom : Type 0 → Type 0
Custom E = (insn xs1 xs2 : ℕ) → E → Machine → Outcome ℕ × E

-- A function of an instruction, which can also change the accelerator.
abbrev pub RoccFunc : Type 0 → Type 0
RoccFunc E = (insn pc : ℕ) → E → Machine → Outcome ℕ × E

pub record Rocc (E : Type 0) : Type 0 where
  pub custom0 : Custom E
  pub custom1 : Custom E
  pub custom2 : Custom E
  pub custom3 : Custom E

-- `if (u.r.xd) WRITE_RD(xd); return pc+4;`.
unfoldable pub finish_custom : (insn pc : ℕ) → Outcome ℕ → Outcome ℕ
unfolding write_rd
finish_custom insn pc (trapped t m) = trapped t m
finish_custom insn pc (serialize_thrown m) = serialize_thrown m
finish_custom insn pc (done value m) =
    if xd insn
    then elim (write_rd insn value m) [
      | done _ after ↦ done (add64 pc 4) after
      | trapped t after ↦ trapped t after
      | serialize_thrown after ↦ serialize_thrown after
    ]
    else done (add64 pc 4) m

module _ {E : Type 0} where
  -- What `rocc_t` does where its subclass does not say.
  abbrev pub default_custom : Custom E
  default_custom insn x1 x2 e m = (trapped trap_illegal_instruction m, e)

  -- `customX(n)`.
  unfoldable pub custom_x : Custom E → RoccFunc E
  unfolding finish_custom
  custom_x custom insn pc e m =
      let x1 = if xs1 insn then rs1_val insn m else minus_one in
      let x2 = if xs2 insn then rs2_val insn m else minus_one in
      let (outcome, e') = custom insn x1 x2 e m in
      if has m.state.sr sr_ea
      then (finish_custom insn pc outcome, e')
      else (trapped trap_accelerator_disabled m, e)

  -- `illegal_instruction` of riscv/processor.cc.
  abbrev pub illegal : RoccFunc E
  illegal insn pc e m = (trapped trap_illegal_instruction m, e)

  unfoldable pub get_instructions : Rocc E → List (InsnDesc (RoccFunc E))
  unfolding custom_x
  get_instructions r =
      record { match_bits = 0x0b; mask = 0x7f; rv32 = illegal; rv64 = custom_x r.custom0 }
      ∷ (record { match_bits = 0x2b; mask = 0x7f; rv32 = illegal; rv64 = custom_x r.custom1 }
          ∷ (record { match_bits = 0x5b; mask = 0x7f; rv32 = illegal; rv64 = custom_x r.custom2 }
              ∷ (record {
                match_bits = 0x7b;
                mask = 0x7f;
                rv32 = illegal;
                rv64 = custom_x r.custom3;
              }
                  ∷ [])))

abbrev pub get_disasms : List DisasmInsn
get_disasms = []
