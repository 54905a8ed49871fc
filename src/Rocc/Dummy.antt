-- ===== src/Rocc/Dummy.antt =====
-- `dummy_rocc_t` of dummy_rocc/dummy_rocc.cc: an accelerator of four sums.
use riscv_isa_sim.Base.{ℕ, ◌==◌, leb, if◌then◌else◌, false, add64, List, get_or, set, replicate}
use riscv_isa_sim.Isa.Insn.{rs2}
use riscv_isa_sim.Hart.Machine.{Outcome, done, trapped, serialize_thrown}
use riscv_isa_sim.Hart.Csr.{trap_illegal_instruction}
use riscv_isa_sim.Mmu.Memory.{load}
use riscv_isa_sim.Rocc.{Custom, Rocc, default_custom, funct}

abbrev pub num_acc : ℕ
num_acc = 4

-- The constructor.
abbrev pub new_acc : List ℕ
new_acc = replicate num_acc 0

-- Case 2: acc[rs2] <- Mem[xs1].
unfoldable pub load_acc : (which previous : ℕ) → List ℕ → Outcome ℕ → Outcome ℕ × List ℕ
load_acc which previous acc (done value m) = (done previous m, set acc which value)
load_acc which previous acc (trapped t m) = (trapped t m, acc)
load_acc which previous acc (serialize_thrown m) = (serialize_thrown m, acc)

-- The sum is read before its number is tested; a number out of range reads 0 here, which is not used.
unfoldable pub dummy_custom0 : Custom (List ℕ)
unfolding load_acc
dummy_custom0 insn x1 x2 acc m =
    let previous = get_or acc (rs2 insn) 0 in
    if leb num_acc (rs2 insn)
    then (trapped trap_illegal_instruction m, acc)
    else if funct insn == 0
    then (done previous m, set acc (rs2 insn) x1)
    else if funct insn == 1
    then (done previous m, acc)
    else if funct insn == 2
    then load_acc (rs2 insn) previous acc (load 8 false x1 m)
    else if funct insn == 3
    then (done previous m, set acc (rs2 insn) (add64 previous x1))
    else (trapped trap_illegal_instruction m, acc)

unfoldable pub dummy_rocc : Rocc (List ℕ)
unfolding dummy_custom0
dummy_rocc = record {
  custom0 = dummy_custom0;
  custom1 = default_custom;
  custom2 = default_custom;
  custom3 = default_custom;
}
