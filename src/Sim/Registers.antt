-- ===== src/Sim/Registers.antt =====
-- The registers of all harts in a run of `sim_t::step` of riscv/sim.cc.
use riscv_isa_sim.Base.{ℕ, Bool, Bool-cases, inl, inr, ltb, ◌==◌, List, [], ◌∷◌}
use mathlib.Core.List.{Memᴰ}
use riscv_isa_sim.Build.{Build}
use riscv_isa_sim.Hart.Machine.{Machine}
use riscv_isa_sim.Hart.Decode.{InsnDesc}
use riscv_isa_sim.Hart.Csr.{deliver_ipi}
use riscv_isa_sim.Hart.Trap.{yield_load_reservation}
use riscv_isa_sim.Insns.Float.{Softfloat}
use riscv_isa_sim.Insns.Keeps.{V}
use riscv_isa_sim.Insns.CsrKeeps.{deliver_ipi-V}
use riscv_isa_sim.Exec.Step
use riscv_isa_sim.Exec.Step.{Func}
use riscv_isa_sim.Exec.Dispatch.{base_opcodes}
use riscv_isa_sim.Exec.Frame.{step-IsValidXpr}
use riscv_isa_sim.Sim.{Sim, step}
use riscv_isa_sim.Sim.Invariant.{step-keeps}
use riscv_isa_sim.Sim.System.{
  System, enter, set_proc, send_to, send_all, leave, step_proc, yield_proc, system_harts,
}

-- The register file of every hart is well formed.
abbrev pub AllValid : System → Type 0
AllValid s = (p : ℕ) → V (s.procs p)

set_proc-AllValid :
    (p : ℕ) (m : Machine) (s : System) → V m → AllValid s → AllValid (set_proc p m s)
unfolding set_proc
set_proc-AllValid p m s good all q = elim (Bool-cases (q == p)) [
  | inl e ↦ rw e good
  | inr e ↦ rw e (all q)
]

send_to-AllValid : (who : ℕ) (s : System) → AllValid s → AllValid (send_to who s)
unfolding send_to
send_to-AllValid who s all = elim (Bool-cases (ltb who s.nprocs)) [
  | inl e ↦ rw e (
      set_proc-AllValid who (deliver_ipi (s.procs who)) s (deliver_ipi-V (s.procs who) (all who))
        all)
  | inr e ↦ rw e all
]

send_all-AllValid : (sent : List ℕ) (s : System) → AllValid s → AllValid (send_all sent s)
unfolding send_all
send_all-AllValid [] s all = all
send_all-AllValid (who ∷ earlier) s all =
    send_to-AllValid who (send_all earlier s) (send_all-AllValid earlier s all)

leave-AllValid : (p : ℕ) (m : Machine) (s : System) → V m → AllValid s → AllValid (leave p m s)
unfolding leave
leave-AllValid p m s good all = send_all-AllValid m.ipis _ (set_proc-AllValid p m s good all)

yield_proc-AllValid : (p : ℕ) (s : System) → AllValid s → AllValid (yield_proc p s)
unfolding yield_proc yield_load_reservation
yield_proc-AllValid p s all = set_proc-AllValid p _ s (all p) all

module _ (b : Build) (garbage : ℕ) (tick : Machine → Machine)
    (tick-V : (m : Machine) → V m → V (tick m)) (sf : Softfloat)
    (sort : (InsnDesc Func → InsnDesc Func → Bool) → List (InsnDesc Func) → List (InsnDesc Func))
    (no_other : (less : InsnDesc Func → InsnDesc Func → Bool) (xs : List (InsnDesc Func))
        (d : InsnDesc Func)
      → Memᴰ d (sort less xs)
      → Memᴰ d xs)
    (debug : ℕ → Bool) (host_tick : System → System)
    (host-AllValid : (s : System) → AllValid s → AllValid (host_tick s)) where
  step_proc-AllValid :
      (p n : ℕ) (s : System)
      → AllValid s
      → AllValid (step_proc b garbage tick sf sort debug host_tick p n s)
  unfolding step_proc enter
  step_proc-AllValid p n s all =
      leave-AllValid p (Step.step (base_opcodes b garbage tick sf sort) b (debug p) n (enter s p)) s
        (step-IsValidXpr b garbage tick tick-V sf sort no_other (debug p) n (enter s p) (all p)) all

  -- Whatever the programs of the harts are, the simulator keeps the constant register 0 and the number
  -- of registers of every hart, where the ticks of the host keep them and `std::sort` adds no
  -- instruction.
  pub step-AllValid :
      (n : ℕ) (s : Sim System)
      → AllValid s.harts
      → AllValid (step (system_harts b garbage tick sf sort debug host_tick) n s).harts
  unfolding system_harts
  step-AllValid n s all =
      step-keeps (system_harts b garbage tick sf sort debug host_tick) AllValid step_proc-AllValid
        yield_proc-AllValid host-AllValid n s all
