-- ===== src/Sim/Rounds.antt =====
-- A whole round of turns: `sim_t::step` of riscv/sim.cc comes to every hart.
use riscv_isa_sim.Base.{
  ℕ, zero, suc, ◌+◌, ◌-◌, ◌*◌, ◌≤◌, ◌<◌, ◌≡◌, ◌∙◌, refl, ap, ap₂, min, false, arith, ◌==◌,
  if◌then◌else◌,
}
use riscv_isa_sim.Sim.{Harts, Sim, end_turn, take_turn, step_loop, step, interleave}

module _ {S : Type 0} (h : Harts S) where
  -- What a whole turn does: INTERLEAVE steps of the hart, its reservation given up, and the host.
  abbrev pub whole_turn : ℕ → S → S
  whole_turn p x = h.tick (h.yield_load_reservation p (h.step p interleave x))

  -- The turns of the harts p, p + 1, ..., p + count - 1.
  abbrev pub turns_in_order : (count p : ℕ) → S → S
  turns_in_order zero p x = x
  turns_in_order (suc count) p x = turns_in_order count (p + 1) (whole_turn p x)

  module _ (nprocs memsz : ℕ) where
    -- At the start of the turn of hart p.
    abbrev pub at_turn : ℕ → S → Sim S
    at_turn p x = record {
      harts = x;
      nprocs = nprocs;
      memsz = memsz;
      current_step = 0;
      current_proc = p;
    }

    abbrev next_proc : ℕ → ℕ
    next_proc p = if p == nprocs then 0 else p

    step_loop-none : (fuel : ℕ) (s : Sim S) → step_loop h fuel 0 s ≡ s
    unfolding step_loop
    step_loop-none zero s = refl
    step_loop-none (suc fuel) s = refl

    step_loop-turn :
        (fuel left p : ℕ) (x : S)
        → interleave ≤ left
        → step_loop h (suc fuel) left (at_turn p x)
          ≡ step_loop h fuel (left - interleave) (at_turn (next_proc (p + 1)) (whole_turn p x))
    unfolding step_loop take_turn end_turn
    step_loop-turn fuel left p x le = rw (nonzero, whole) refl
      where
        nonzero : (left == 0) ≡ false
        nonzero = ground arith

        whole : min left interleave ≡ interleave
        whole = omega arith

    step_loop-turns :
        (fuel count p : ℕ) (x : S)
        → count ≤ fuel
        → p < nprocs
        → p + count ≤ nprocs
        → step_loop h fuel (count * interleave) (at_turn p x)
          ≡ at_turn (next_proc (p + count)) (turns_in_order count p x)
    unfolding step_loop
    step_loop-turns zero zero p x le lt fits = ap (λ q. at_turn q x) (ground arith)
    step_loop-turns zero (suc count) p x le lt fits = absurd (omega arith)
    step_loop-turns (suc fuel) zero p x le lt fits = ap (λ q. at_turn q x) (ground arith)
    step_loop-turns (suc fuel) (suc zero) p x le lt fits =
        step_loop-turn fuel (1 * interleave) p x (omega arith) ∙ step_loop-none fuel _
    step_loop-turns (suc fuel) (suc (suc count)) p x le lt fits =
        step_loop-turn fuel (suc (suc count) * interleave) p x (omega arith)
        ∙ ap₂ (λ left q. step_loop h fuel left (at_turn q (whole_turn p x))) (omega arith)
            (ground arith)
        ∙ step_loop-turns fuel (suc count) (p + 1) (whole_turn p x) (omega arith) (omega arith)
            (omega arith)
        ∙ ap (λ q. at_turn (next_proc q) (turns_in_order (suc (suc count)) p x)) (omega arith)

    -- A step of INTERLEAVE times the number of harts, from the start of the turn of hart 0, gives every
    -- hart a whole turn, hart 0 first and the others in order, after each of which the hart gives up its
    -- load reservation and the host is served, and comes back to the start of the turn of hart 0.
    pub step-round :
        (x : S)
        → 0 < nprocs
        → step h (nprocs * interleave) (at_turn 0 x) ≡ at_turn 0 (turns_in_order nprocs 0 x)
    unfolding step
    step-round x some_hart =
        step_loop-turns (nprocs * interleave) nprocs 0 x (omega arith) some_hart (omega arith)
        ∙ ap (λ p. at_turn p (turns_in_order nprocs 0 x)) (ground arith)
