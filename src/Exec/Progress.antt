-- ===== src/Exec/Progress.antt =====
-- How many instructions a step of riscv/processor.cc runs, and how many it counts.
use riscv_isa_sim.Base.{
  ℕ, zero, suc, ◌+◌, ◌-◌, ◌≤◌, ◌<◌, ◌≡◌, refl, arith, Bool, true, false, ◌==◌, ltb, if◌then◌else◌,
  Bool-cases, inl, inr, ltb→lt,
}
use riscv_isa_sim.Hart.Machine.{Machine, M, Outcome, done, trapped, serialize_thrown, ◌>>=◌}
use riscv_isa_sim.Hart.Decode.{OpcodeMap}
use riscv_isa_sim.Mmu.Translate.{translate}
use riscv_isa_sim.Exec.Icache.{icache_index, icache_entries, access_icache, fetch_insn, fill_icache}
use riscv_isa_sim.Exec.Step.{
  Func, Thrown, nothing, a_trap, a_serialize, Run, run_with, after_fetch, after_insn, unless_thrown,
  execute_insn, run_entries, run_loop, run_debug,
}

-- What is returned, where something is.
abbrev Yields : {A : Type 0} → (A → Type 0) → Outcome A → Type 0
Yields P (done a m) = P a
Yields P (trapped t m) = Unit {0}
Yields P (serialize_thrown m) = Unit {0}

Yields-bind_go :
    {A : Type 0} {B : Type 0} (P : B → Type 0) (rest : A → M B) (o : Outcome A)
    → ((a : A) (m : Machine) → Yields P (rest a m))
    → Yields P (elim o [
      | done result after ↦ rest result after
      | trapped thrown after ↦ trapped thrown after
      | serialize_thrown after ↦ serialize_thrown after
    ])
Yields-bind_go P rest (done a m) all = all a m
Yields-bind_go P rest (trapped t m) all = tt
Yields-bind_go P rest (serialize_thrown m) all = tt

Yields-if :
    {A : Type 0} (P : A → Type 0) (test : Bool) (o o' : Outcome A)
    → Yields P o
    → Yields P o'
    → Yields P (if test then o else o')
Yields-if P true o o' p p' = p
Yields-if P false o o' p p' = p'

access_icache-index :
    (addr : ℕ) (m : Machine) → Yields (λ (i : ℕ). i < icache_entries) (access_icache addr m)
unfolding access_icache
access_icache-index addr m =
    Yields-if _ ((m.mmu.icache (icache_index addr)).tag == addr) _ _ small (
      Yields-bind_go _
        (λ iaddr. fetch_insn addr iaddr >>= λ insn after.
          done (icache_index addr) (fill_icache addr insn iaddr after))
        (translate addr 4 false true m)
        (λ iaddr m'.
          Yields-bind_go _
            (λ insn after. done (icache_index addr) (fill_icache addr insn iaddr after))
            (fetch_insn addr iaddr m') (λ insn m''. small)))
  where
    small : icache_index addr < icache_entries
    small = unfold icache_index in (omega arith)

module _ (opcodes : OpcodeMap Func) where
  -- Between i and i + most instructions are counted.
  abbrev Counts : ℕ → ℕ → Run → Type 0
  Counts i most r = (i ≤ r.instret) × (r.instret ≤ i + most)

  after_insn-Counts :
      (idx pc i left : ℕ) (next : ℕ → Machine → Run) (o : Outcome ℕ)
      → ((npc : ℕ) (m : Machine) → Counts (i + 1) left (next npc m))
      → Counts i (suc left) (after_insn idx pc i next o)
        × ((after_insn idx pc i next o).thrown ≡ nothing → i < (after_insn idx pc i next o).instret)
  unfolding after_insn
  after_insn-Counts idx pc i left next (done npc m) counts = ground (arith, counts npc m)
  after_insn-Counts idx pc i left next (trapped t m) counts = ground arith
  after_insn-Counts idx pc i left next (serialize_thrown m) counts = ground arith

  run_entries-Counts :
      (left idx pc i : ℕ) (m : Machine) → Counts i left (run_entries opcodes left idx pc i m)
  unfolding run_entries
  run_entries-Counts zero idx pc i m = omega arith
  run_entries-Counts (suc left) idx pc i m =
      (after_insn-Counts idx pc i left
        (λ npc after. run_entries opcodes left (idx + 1) npc (i + 1) after) _
        (λ npc after. run_entries-Counts left (idx + 1) npc (i + 1) after)).0

  run_entries_progress :
      (left idx pc i : ℕ) (m : Machine)
      → 0 < left
      → (run_entries opcodes left idx pc i m).thrown ≡ nothing
      → i < (run_entries opcodes left idx pc i m).instret
  unfolding run_entries
  run_entries_progress zero idx pc i m pos = absurd (omega arith)
  run_entries_progress (suc left) idx pc i m pos =
      (after_insn-Counts idx pc i left
        (λ npc after. run_entries opcodes left (idx + 1) npc (i + 1) after) _
        (λ npc after. run_entries-Counts left (idx + 1) npc (i + 1) after)).1

  round_counts :
      (pc i : ℕ) (o : Outcome ℕ)
      → Yields (λ (idx : ℕ). idx < icache_entries) o
      → let r =
          after_fetch pc i
            (λ idx after. run_entries opcodes (icache_entries - idx) idx pc i after)
            o in
        (i ≤ r.instret) × (r.instret ≤ i + icache_entries) × (r.thrown ≡ nothing → i < r.instret)
  unfolding after_fetch
  round_counts pc i (done idx m) small = (
    (run_entries-Counts (icache_entries - idx) idx pc i m).0,
    omega (arith, (run_entries-Counts (icache_entries - idx) idx pc i m).1),
    run_entries_progress (icache_entries - idx) idx pc i m (omega arith),
  )
  round_counts pc i (trapped t m) small = ground arith
  round_counts pc i (serialize_thrown m) small = ground arith

  -- What a loop that starts with i instructions counted is to have counted at its end.
  record Ended (n i : ℕ) (r : Run) : Type 0 where
    all_run : r.thrown ≡ nothing → n ≤ r.instret
    below : r.instret < n + icache_entries
    from : i ≤ r.instret

  Ended-unless_thrown :
      (n i : ℕ) (round rest : Run)
      → i ≤ round.instret
      → round.instret < n + icache_entries
      → (round.thrown ≡ nothing → Ended n round.instret rest)
      → Ended n i (unless_thrown round rest)
  unfolding unless_thrown
  Ended-unless_thrown n i round rest from below ended = go round.thrown refl
    where
      go :
          (t : Thrown)
          → round.thrown ≡ t
          → Ended n i
              (elim t as (λ _. Run) [ nothing ↦ rest | a_trap _ ↦ round | a_serialize ↦ round ])
      go nothing e =
          let d = ended e in
          record { all_run = d.all_run; below = d.below; from = omega (arith, d.from) }
      go (a_trap t) e = record { all_run = λ h. absurd (cc); below = below; from = from }
      go a_serialize e = record { all_run = λ h. absurd (cc); below = below; from = from }

  abbrev round_of : ℕ → ℕ → Machine → Run
  round_of pc i m =
      after_fetch pc i (λ idx after. run_entries opcodes (icache_entries - idx) idx pc i after)
        (access_icache pc m)

  run_loop-Ended :
      (fuel n pc i : ℕ) (m : Machine)
      → n ≤ i + fuel
      → i < n + icache_entries
      → Ended n i (run_loop opcodes fuel n pc i m)
  unfolding run_loop
  run_loop-Ended zero n pc i m enough below = record {
    all_run = λ _. omega arith;
    below = below;
    from = omega arith;
  }
  run_loop-Ended (suc fuel) n pc i m enough below =
      let round = round_of pc i m in
      let counts = round_counts pc i (access_icache pc m) (access_icache-index pc m) in
      elim (Bool-cases (ltb i n)) [
        | inl more ↦ rw more (
            Ended-unless_thrown n i round
              (run_loop opcodes fuel n round.pc round.instret round.machine) counts.0
              (omega (arith, counts.1, ltb→lt i n more))
              (λ e.
                run_loop-Ended fuel n round.pc round.instret round.machine
                  (omega (arith, counts.2 e)) (omega (arith, counts.1, ltb→lt i n more))))
        | inr last ↦
            rw last (record { all_run = λ _. ground arith; below = below; from = omega arith })
      ]

  -- A run that is asked for n instructions, where nothing is thrown, does run n or more: n rounds of
  -- the loop are enough. Fewer than 1024 are run above n, since the switch over the instruction cache
  -- does not look at n.
  pub run_loop_counts :
      (n pc : ℕ) (m : Machine)
      → (run_loop opcodes n n pc 0 m).thrown ≡ nothing
      → (n ≤ (run_loop opcodes n n pc 0 m).instret)
        × ((run_loop opcodes n n pc 0 m).instret < n + icache_entries)
  run_loop_counts n pc m quiet =
      let d = run_loop-Ended n n pc 0 m (omega arith) (omega arith) in (d.all_run quiet, d.below)

  after_fetch_instret :
      (pc i : ℕ) (rest : ℕ → Machine → Run) (o : Outcome ℕ)
      → ((idx : ℕ) (m : Machine) → (rest idx m).instret ≡ i)
      → (after_fetch pc i rest o).instret ≡ i
  unfolding after_fetch
  after_fetch_instret pc i rest (done idx m) same = same idx m
  after_fetch_instret pc i rest (trapped t m) same = refl
  after_fetch_instret pc i rest (serialize_thrown m) same = refl

  -- At the end of the debug loop one more is counted than n.
  record Counted (n : ℕ) (r : Run) : Type 0 where
    one_more : r.thrown ≡ nothing → r.instret ≡ n + 1
    at_most : r.instret ≤ n + 1

  Counted-unless_thrown :
      (n : ℕ) (round rest : Run)
      → round.instret ≤ n
      → Counted n rest
      → Counted n (unless_thrown round rest)
  unfolding unless_thrown
  Counted-unless_thrown n round rest below counted = go round.thrown refl
    where
      go :
          (t : Thrown)
          → round.thrown ≡ t
          → Counted n
              (elim t as (λ _. Run) [ nothing ↦ rest | a_trap _ ↦ round | a_serialize ↦ round ])
      go nothing e = counted
      go (a_trap t) e = record { one_more = λ h. absurd (cc); at_most = omega arith }
      go a_serialize e = record { one_more = λ h. absurd (cc); at_most = omega arith }

  abbrev debug_round_of : ℕ → ℕ → Machine → Run
  debug_round_of pc i m =
      after_fetch pc (i + 1)
        (λ idx after.
          after_fetch pc (i + 1) (λ npc last. run_with nothing npc (i + 1) last)
            (execute_insn opcodes (after.mmu.icache idx) pc after))
        (access_icache pc m)

  run_debug-Counted :
      (fuel n pc i : ℕ) (m : Machine)
      → n + 1 ≡ i + fuel
      → i ≤ n
      → Counted n (run_debug opcodes fuel n pc i m)
  unfolding run_debug
  run_debug-Counted zero n pc i m enough below = absurd (omega arith)
  run_debug-Counted (suc fuel) n pc i m enough below =
      let round = debug_round_of pc i m in
      let one =
        after_fetch_instret pc (i + 1)
          (λ (idx : ℕ) (after : Machine).
            after_fetch pc (i + 1) (λ npc last. run_with nothing npc (i + 1) last)
              (execute_insn opcodes (after.mmu.icache idx) pc after))
          (access_icache pc m)
          (λ idx after.
            after_fetch_instret pc (i + 1) (λ npc last. run_with nothing npc (i + 1) last)
              (execute_insn opcodes (after.mmu.icache idx) pc after) (λ npc last. refl)) in
      elim (Bool-cases (ltb i n)) [
        | inl more ↦ rw more (
            Counted-unless_thrown n round
              (run_debug opcodes fuel n round.pc round.instret round.machine)
              (omega (arith, one, ltb→lt i n more))
              (run_debug-Counted fuel n round.pc round.instret round.machine (omega (arith, one))
                (omega (arith, one, ltb→lt i n more))))
        | inr last ↦ rw last (record { one_more = λ _. ground arith; at_most = omega arith })
      ]

  -- With debugging, n + 1 rounds are enough, and a run of n instructions where nothing is thrown is
  -- counted as n + 1.
  pub run_debug_counts :
      (n pc : ℕ) (m : Machine)
      → (run_debug opcodes (suc n) n pc 0 m).thrown ≡ nothing
      → (run_debug opcodes (suc n) n pc 0 m).instret ≡ n + 1
  run_debug_counts n pc m quiet =
      (run_debug-Counted (suc n) n pc 0 m (omega arith) (omega arith)).one_more quiet
