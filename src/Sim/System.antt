-- ===== src/Sim/System.antt =====
-- The harts of riscv/processor.cc in the turns of riscv/sim.cc: they share the memory, its tags and
-- the flag that stops the run. A hart that runs sees the shared parts, and what
-- it leaves in them is there for the next. An interprocessor interrupt is delivered when the steps of
-- its sender end, before another hart runs.
use riscv_isa_sim.Base.{ℕ, Bool, ltb, if◌then◌else◌, ◌==◌, List, [], ◌∷◌}
use riscv_isa_sim.Build.{Build}
use riscv_isa_sim.Hart.Machine.{Machine}
use riscv_isa_sim.Hart.Decode.{InsnDesc}
use riscv_isa_sim.Hart.Csr.{deliver_ipi}
use riscv_isa_sim.Hart.Trap.{yield_load_reservation}
use riscv_isa_sim.Insns.Float.{Softfloat}
use riscv_isa_sim.Exec.Step
use riscv_isa_sim.Exec.Step.{Func}
use riscv_isa_sim.Exec.Dispatch.{base_opcodes}
use riscv_isa_sim.Sim.{Harts}

pub record System : Type 0 where
  pub procs : ℕ → Machine
  pub nprocs : ℕ
  pub mem : ℕ → ℕ
  pub tagmem : ℕ → ℕ
  pub ctrlc_pressed : Bool

-- The hart with the shared parts as they are.
unfoldable pub enter : System → ℕ → Machine
enter s p = record (s.procs p) {
  mem = s.mem;
  tagmem = s.tagmem;
  ctrlc_pressed = s.ctrlc_pressed;
  ipis = [];
}

unfoldable pub set_proc : ℕ → Machine → System → System
set_proc p m s = record s { procs = λ q. if q == p then m else s.procs q }

-- `sim_t::send_ipi`.
unfoldable pub send_to : ℕ → System → System
unfolding set_proc
send_to who s = if ltb who s.nprocs then set_proc who (deliver_ipi (s.procs who)) s else s

-- The interrupts, the last sent first.
unfoldable pub send_all : List ℕ → System → System
unfolding send_to
send_all [] s = s
send_all (who ∷ earlier) s = send_to who (send_all earlier s)

-- What the hart leaves.
unfoldable pub leave : ℕ → Machine → System → System
unfolding set_proc send_all
leave p m s =
    send_all m.ipis
      (record (set_proc p m s) { mem = m.mem; tagmem = m.tagmem; ctrlc_pressed = m.ctrlc_pressed })

unfoldable pub yield_proc : ℕ → System → System
unfolding set_proc
yield_proc p s =
    set_proc p (record (s.procs p) { state = yield_load_reservation (s.procs p).state }) s

module _ (b : Build) (garbage : ℕ) (tick : Machine → Machine) (sf : Softfloat)
    (sort : (InsnDesc Func → InsnDesc Func → Bool) → List (InsnDesc Func) → List (InsnDesc Func))
    (debug : ℕ → Bool) (host_tick : System → System) where
  unfoldable pub step_proc : (p n : ℕ) → System → System
  unfolding enter leave
  step_proc p n s =
      leave p (Step.step (base_opcodes b garbage tick sf sort) b (debug p) n (enter s p)) s

  -- The harts that `sim_t::step` calls.
  unfoldable pub system_harts : Harts System
  unfolding step_proc yield_proc
  system_harts = record { step = step_proc; yield_load_reservation = yield_proc; tick = host_tick }
