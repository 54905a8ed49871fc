-- ===== src/Sim.antt =====
-- `sim_t` of riscv/sim.h and riscv/sim.cc: the harts take turns of INTERLEAVE steps.
pub mod Laws
pub mod Rounds
pub mod Invariant
pub mod System
pub mod Registers
use riscv_isa_sim.Base.{
  ℕ, zero, suc, ◌+◌, ◌-◌, ◌*◌, ◌/◌, ◌^◌, ◌==◌, ltb, if◌then◌else◌, min, minus_one,
}

-- What the simulator calls: a processor's `step` and `yield_load_reservation`, by the number of
-- the hart, and the host interface's `tick`. They share a state.
pub record Harts (S : Type 0) : Type 0 where
  pub step : ℕ → ℕ → S → S
  pub yield_load_reservation : ℕ → S → S
  pub tick : S → S

-- `nprocs` is `procs.size()`.
pub record Sim (S : Type 0) : Type 0 where
  pub harts : S
  pub nprocs : ℕ
  pub memsz : ℕ
  pub current_step : ℕ
  pub current_proc : ℕ

abbrev pub interleave : ℕ
interleave = 5000

module _ {S : Type 0} where
  unfoldable pub get_scr : ℕ → Sim S → ℕ
  get_scr which s =
      if which == 0 then s.nprocs else if which == 1 then s.memsz / 2 ^ 20 else minus_one

  module _ (h : Harts S) where
    -- The end of a turn, where it is the end.
    unfoldable pub end_turn : Sim S → Sim S
    end_turn s =
        if s.current_step == interleave
        then record s {
          current_step = 0;
          current_proc = if s.current_proc + 1 == s.nprocs then 0 else s.current_proc + 1;
          harts = h.tick (h.yield_load_reservation s.current_proc s.harts);
        }
        else s

    -- One round of the loop.
    unfoldable pub take_turn : ℕ → Sim S → Sim S
    unfolding end_turn
    take_turn steps s = end_turn (record s {
      harts = h.step s.current_proc steps s.harts;
      current_step = s.current_step + steps;
    })

    -- The loop with n - i = left.
    unfoldable pub step_loop : ℕ → ℕ → Sim S → Sim S
    unfolding take_turn
    step_loop zero left s = s
    step_loop (suc fuel) left s =
        let steps = min left (interleave - s.current_step) in
        let rest = step_loop fuel (left - steps) (take_turn steps s) in
        if left == 0 then s else rest

    -- Each round takes a step or more, so n rounds are enough.
    unfoldable pub step : ℕ → Sim S → Sim S
    unfolding step_loop
    step n s = step_loop n n s
