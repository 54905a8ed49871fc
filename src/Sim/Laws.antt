-- ===== src/Sim/Laws.antt =====
-- The turns of the harts.
use riscv_isa_sim.Base.{
  ℕ, zero, suc, ◌+◌, ◌-◌, ◌*◌, ◌%◌, ◌<◌, ◌≤◌, ◌≡◌, ◌∙◌, ap, sym, arith, Bool-cases, inl, inr, ◌==◌,
  min,
}
use native.Mathlib.Nat.{mod_self, mod-add-mod, mod-eq_of_lt}
use riscv_isa_sim.Sim.{Harts, Sim, end_turn, take_turn, step_loop, step, interleave}

module _ {S : Type 0} (h : Harts S) where
  -- A turn is under way, and it is that of a hart there is.
  pub record IsValid (s : Sim S) : Type 0 where
    pub in_turn : s.current_step < interleave
    pub is_hart : s.current_proc < s.nprocs

  -- How far the simulator is in a cycle of all turns.
  abbrev pub position : Sim S → ℕ
  position s = s.current_proc * interleave + s.current_step

  abbrev pub cycle : Sim S → ℕ
  cycle s = s.nprocs * interleave

  take_turn-IsValid :
      (steps : ℕ) (s : Sim S)
      → IsValid s
      → s.current_step + steps ≤ interleave
      → IsValid (take_turn h steps s)
  unfolding take_turn end_turn
  take_turn-IsValid steps s v le = record {
    in_turn = ground (arith, v.in_turn);
    is_hart = ground (arith, v.is_hart);
  }

  take_turn-position :
      (steps : ℕ) (s : Sim S)
      → IsValid s
      → s.current_step + steps ≤ interleave
      → position (take_turn h steps s) ≡ (position s + steps) % cycle s
  unfolding take_turn end_turn
  take_turn-position steps s v le = ground (
    arith,
    v.is_hart,
    v.in_turn,
    mod_self (cycle s),
    mod-eq_of_lt {n = position s + steps} {m = cycle s},
  )

  take_turn-cycle : (steps : ℕ) (s : Sim S) → cycle (take_turn h steps s) ≡ cycle s
  unfolding take_turn end_turn
  take_turn-cycle steps s = ground arith

  step_loop-IsValid :
      (fuel left : ℕ) (s : Sim S)
      → IsValid s
      → left ≤ fuel
      → IsValid (step_loop h fuel left s)
        × (position (step_loop h fuel left s) ≡ (position s + left) % cycle s)
  unfolding step_loop
  step_loop-IsValid zero left s v le = (
    v,
    sym (mod-eq_of_lt (omega (arith, v.in_turn, v.is_hart)))
        ∙ ap (λ (t : ℕ). t % cycle s) (omega arith),
  )
  step_loop-IsValid (suc fuel) left s v le = elim (Bool-cases (left == 0)) [
    | inl e ↦ rw e (
      v,
      sym (mod-eq_of_lt (omega (arith, v.in_turn, v.is_hart)))
          ∙ ap (λ (t : ℕ). t % cycle s) (ground (arith, e)),
    )
    | inr e ↦
        let steps : ℕ = min left (interleave - s.current_step) in
        let s' : Sim S = take_turn h steps s in
        let (v', there) =
          step_loop-IsValid fuel (left - steps) s'
            (take_turn-IsValid steps s v (omega (arith, v.in_turn)))
            (ground (arith, e, v.in_turn)) in
        rw e (
          v',
          there
              ∙ ap (λ (c : ℕ). (position s' + (left - steps)) % c) (take_turn-cycle steps s)
              ∙ ap (λ (p : ℕ). (p + (left - steps)) % cycle s)
                  (take_turn-position steps s v (omega (arith, v.in_turn)))
              ∙ mod-add-mod (position s + steps) (cycle s) (left - steps)
              ∙ ap (λ (t : ℕ). t % cycle s) (omega (arith, v.in_turn)),
        )
  ]

  -- `step(n)` ends, and counted in steps round the cycle in which every hart has INTERLEAVE of
  -- them the simulator is then n further on, with the turn of a hart there is under way.
  pub step-position :
      (n : ℕ) (s : Sim S)
      → IsValid s
      → IsValid (step h n s) × (position (step h n s) ≡ (position s + n) % cycle s)
  unfolding step
  step-position n s v = step_loop-IsValid n n s v (omega arith)
