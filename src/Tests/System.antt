-- ===== src/Tests/System.antt =====
-- Two harts that share a memory.
use riscv_isa_sim.Base.{false, [], ◌∷◌, ◌≡◌, refl, true}
use riscv_isa_sim.Hart.State
use riscv_isa_sim.Hart.RegFile
use riscv_isa_sim.Hart.RegFile.Laws.{reset-IsValid}
use riscv_isa_sim.Sim.{Sim, step}
use riscv_isa_sim.Sim.System.{System, leave, system_harts}
use riscv_isa_sim.Sim.Registers.{AllValid, step-AllValid}
use riscv_isa_sim.Tests.Machines.{default_build, machine}
use riscv_isa_sim.Tests.Floats.{no_floats}

abbrev two : System
two = record {
  procs = λ p. record machine { id = p; nprocs = 2 };
  nprocs = 2;
  mem = machine.mem;
  tagmem = machine.tagmem;
  ctrlc_pressed = false;
}

abbrev start : Sim System
start = record {
  harts = two;
  nprocs = 2;
  memsz = machine.memsz;
  current_step = 0;
  current_proc = 0;
}

two-AllValid : AllValid two
unfolding State.reset RegFile.reset
two-AllValid p = reset-IsValid 32 true

-- Hart 0 leaves a byte of memory changed and an interrupt for hart 1.
abbrev sent : System
sent = leave 0 (record machine { mem = λ _. 7; ipis = 1 ∷ [] }) two

memory_shared : sent.mem 5 ≡ 7
unfolding leave
memory_shared = refl

step-AllValid_example :
    AllValid
      (step
        (system_harts default_build 0 (λ m. m) no_floats (λ _ xs. xs) (λ _. false) (λ s. s))
        7000
        start).harts
step-AllValid_example =
    step-AllValid default_build 0 (λ m. m) (λ m v. v) no_floats (λ _ xs. xs) (λ less xs d mem. mem)
      (λ _. false) (λ s. s) (λ s all. all) 7000 start two-AllValid
