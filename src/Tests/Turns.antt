-- ===== src/Tests/Turns.antt =====
-- Two harts taking turns.
use riscv_isa_sim.Base.{ℕ, ◌+◌, ◌*◌, ◌%◌, ◌≡◌, refl, arith, List, [], ◌∷◌}
use riscv_isa_sim.Sim.{Harts, Sim, step, step_loop, take_turn, end_turn}
use riscv_isa_sim.Sim.Rounds.{at_turn, turns_in_order, step-round}
use riscv_isa_sim.Sim.Laws.{IsValid, position, step-position}

-- The calls, the last first: the hart and its steps.
abbrev calls : Harts (List (ℕ × ℕ))
calls = record {
  step = λ who steps log. (who, steps) ∷ log;
  yield_load_reservation = λ who log. log;
  tick = λ log. log;
}

abbrev start : Sim (List (ℕ × ℕ))
start = record { harts = []; nprocs = 2; memsz = 0; current_step = 4000; current_proc = 1 }

-- Hart 1 ends its turn, hart 0 has a whole one, and hart 1 begins the next.
loop_example : (step_loop calls 3 7000 start).harts ≡ (1, 1000) ∷ (0, 5000) ∷ (1, 1000) ∷ []
unfolding step_loop take_turn end_turn
loop_example = refl

start-IsValid : IsValid calls start
start-IsValid = record { in_turn = omega arith; is_hart = omega arith }

step-position_example :
    IsValid calls (step calls 7000 start)
    × (position calls (step calls 7000 start) ≡ (1 * 5000 + 4000 + 7000) % (2 * 5000))
step-position_example = step-position calls 7000 start start-IsValid

-- Two harts, each with a whole turn.
round_example : turns_in_order calls 2 0 [] ≡ (1, 5000) ∷ (0, 5000) ∷ []
round_example = refl

step-round_example :
    step calls (2 * 5000) (at_turn calls 2 0 0 [])
    ≡ at_turn calls 2 0 0 (turns_in_order calls 2 0 [])
step-round_example = step-round calls 2 0 [] (omega arith)
