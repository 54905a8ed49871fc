-- ===== src/Sim/Invariant.antt =====
-- What the harts and the host keep, `sim_t::step` of riscv/sim.cc keeps.
use riscv_isa_sim.Base.{ℕ, zero, suc, ◌-◌, inl, inr, Bool-cases, ◌==◌, min}
use riscv_isa_sim.Sim.{Harts, Sim, end_turn, take_turn, step_loop, step, interleave}

module _ {S : Type 0} (h : Harts S) (P : S → Type 0)
    (step-P : (p n : ℕ) (x : S) → P x → P (h.step p n x))
    (yield-P : (p : ℕ) (x : S) → P x → P (h.yield_load_reservation p x))
    (tick-P : (x : S) → P x → P (h.tick x)) where
  end_turn-P : (s : Sim S) → P s.harts → P (end_turn h s).harts
  unfolding end_turn
  end_turn-P s good = elim (Bool-cases (s.current_step == interleave)) [
    | inl e ↦ rw e (tick-P _ (yield-P s.current_proc s.harts good))
    | inr e ↦ rw e good
  ]

  step_loop-P : (fuel left : ℕ) (s : Sim S) → P s.harts → P (step_loop h fuel left s).harts
  unfolding step_loop take_turn
  step_loop-P zero left s good = good
  step_loop-P (suc fuel) left s good = elim (Bool-cases (left == 0)) [
    | inl e ↦ rw e good
    | inr e ↦ rw e (
        step_loop-P fuel (left - min left (interleave - s.current_step)) _ (
          end_turn-P _
            (step-P s.current_proc (min left (interleave - s.current_step)) s.harts good)))
  ]

  pub step-keeps : (n : ℕ) (s : Sim S) → P s.harts → P (step h n s).harts
  unfolding step
  step-keeps n s good = step_loop-P n n s good
