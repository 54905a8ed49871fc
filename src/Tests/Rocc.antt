-- ===== src/Tests/Rocc.antt =====
-- Instructions of the dummy accelerator at concrete inputs.
use riscv_isa_sim.Base.{
  ◌&&◌, not, ℕ, ◌+◌, ◌*◌, ◌^◌, ◌≡◌, refl, arith, inr, true, ◌==◌, if◌then◌else◌, has, add64, List,
  [], ◌∷◌, get_or,
}
use riscv_isa_sim.Isa.Encoding.{sr_ea}
use riscv_isa_sim.Isa.Insn.{rd, rs1, rs2}
use riscv_isa_sim.Hart.RegFile.{read, write_both}
use riscv_isa_sim.Hart.RegFile
use riscv_isa_sim.Hart.RegFile.Laws.{IsValid, reset-IsValid, write_both-IsValid}
use riscv_isa_sim.Hart.Machine.{Machine, done}
use riscv_isa_sim.Insns.Macros.{rs1_val}
use riscv_isa_sim.Rocc.{funct, custom_x, xd}
use riscv_isa_sim.Rocc.Dummy.{dummy_custom0}
use riscv_isa_sim.Rocc.Laws.{c0, sum_after, operand_of, c0-sums}
use riscv_isa_sim.Tests.Machines.{machine}

-- Register 1 holds 40, and the accelerator is on.
abbrev accelerated : Machine
accelerated = record machine {
  state = record machine.state { sr = sr_ea; xpr = write_both true 1 40 0 (RegFile.reset 32) };
}

accelerated-IsValid : IsValid 32 true accelerated.state.xpr
accelerated-IsValid = write_both-IsValid 32 true 1 40 0 (RegFile.reset 32) (reset-IsValid 32 true)

is_enabled : has accelerated.state.sr sr_ea ≡ true
is_enabled = refl

-- Add register 1 to sum 2, which goes to register 3.
abbrev adding : ℕ
adding = 0x0b + 3 * 2 ^ 7 + 2 ^ 13 + 2 ^ 14 + 1 * 2 ^ 15 + 2 * 2 ^ 20 + 3 * 2 ^ 25

abbrev held : List ℕ
held = 0 ∷ (0 ∷ (2 ∷ (0 ∷ [])))

sum_run : get_or (c0 adding 0x2000 held accelerated).1 2 0 ≡ 42
unfolding rs1_val rs1 rs2 read write_both RegFile.reset custom_x dummy_custom0
sum_run = refl

c0-sums_example :
    (after : Machine) × ((c0 adding 0x2000 held accelerated).0 ≡ done (add64 0x2000 4) after)
    × ((j : ℕ)
        → read after.state.xpr j ≡ (
            if xd adding && (rd adding == j && not (j == 0))
            then get_or held (rs2 adding) 0
            else read accelerated.state.xpr j))
    × ((i : ℕ)
        → get_or (c0 adding 0x2000 held accelerated).1 i 0 ≡ (
            if i == rs2 adding
            then sum_after (funct adding) (get_or held i 0) (operand_of adding accelerated)
            else get_or held i 0))
unfolding rd rs2
c0-sums_example =
    c0-sums accelerated is_enabled adding 0x2000 held accelerated-IsValid (omega arith)
      (omega arith) refl (inr (inr refl))
