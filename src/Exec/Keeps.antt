-- ===== src/Exec/Keeps.antt =====
-- What `step` of riscv/processor.cc leaves true of `state_t`, from what each instruction does.
use riscv_isa_sim.Base.{
  ℕ, zero, suc, ◌+◌, ◌-◌, Bool, true, false, ◌==◌, ◌||◌, not, ltb, if◌then◌else◌, bit_or, min,
  add64, none, some,
}
use riscv_isa_sim.Build.{Build}
use riscv_isa_sim.Hart.State.{State}
use riscv_isa_sim.Hart.Machine.{Machine, Trap, M, Outcome, done, ◌>>=◌, HostPtr, IcacheEntry}
use riscv_isa_sim.Hart.Keeps.{After, returned, threw, threw_serialize, Keeps, After-bind, After-if}
use riscv_isa_sim.Hart.Decode.{OpcodeMap}
use riscv_isa_sim.Hart.Interrupt.{take_interrupt}
use riscv_isa_sim.Hart.Timer.{next_timer}
use riscv_isa_sim.Hart.Trap.{take_trap}
use riscv_isa_sim.Mmu.Translate.{translate}
use riscv_isa_sim.Mmu.Keeps.{OfState, translate-Keeps}
use riscv_isa_sim.Exec.Icache.{
  access_icache, fetch_insn, fetch_half, fetch_4, fetch_6, fetch_8, fill_icache, icache_entries,
}
use riscv_isa_sim.Exec.Step.{
  Func, after_fetch, after_insn, unless_thrown, Thrown, nothing, a_trap, a_serialize, Run, run_with,
  execute_insn, run_entries, run_loop, run_debug, run_insns, finish_step, end_step, step,
}

module _ (Q : State → Type 0) where
  fetch_half-Keeps :
      (signed : Bool) (addr shift : ℕ) → Keeps (OfState Q) (fetch_half signed addr shift)
  unfolding fetch_half
  fetch_half-Keeps signed addr shift m q =
      After-bind (translate addr 2 false true) _ m (translate-Keeps Q addr 2 false true m q)
        (λ p m' q'. returned _ m' q')

  half_then :
      {B : Type 0} (signed : Bool) (addr shift : ℕ) (rest : ℕ → M B)
      → ((half : ℕ) → Keeps (OfState Q) (rest half))
      → Keeps (OfState Q) (fetch_half signed addr shift >>= rest)
  half_then signed addr shift rest keep m q =
      After-bind (fetch_half signed addr shift) rest m (fetch_half-Keeps signed addr shift m q) keep

  fetch_4-Keeps :
      (addr : ℕ) (iaddr : HostPtr) (insn : ℕ) → Keeps (OfState Q) (fetch_4 addr iaddr insn)
  unfolding fetch_4
  fetch_4-Keeps addr iaddr insn m q = After-if _ _ _ (returned _ m q) (
      half_then true (add64 addr 2) 16 (λ high. done (bit_or insn high))
        (λ high m' q'. returned _ m' q') m q)

  fetch_6-Keeps : (addr insn : ℕ) → Keeps (OfState Q) (fetch_6 addr insn)
  unfolding fetch_6
  fetch_6-Keeps addr insn =
      half_then true (add64 addr 4) 32 _
        (λ high. half_then false (add64 addr 2) 16 _ (λ middle m' q'. returned _ m' q'))

  fetch_8-Keeps : (addr insn : ℕ) → Keeps (OfState Q) (fetch_8 addr insn)
  unfolding fetch_8
  fetch_8-Keeps addr insn = half_then true (add64 addr 6) 48 _ (λ top.
      half_then false (add64 addr 4) 32 _
        (λ high. half_then false (add64 addr 2) 16 _ (λ middle m' q'. returned _ m' q')))

  fetch_insn-Keeps : (addr : ℕ) (iaddr : HostPtr) → Keeps (OfState Q) (fetch_insn addr iaddr)
  unfolding fetch_insn
  fetch_insn-Keeps addr iaddr m q = After-if _ _ _ (returned _ m q) (
      After-if _ _ _ (fetch_4-Keeps addr iaddr _ m q)
        (After-if _ _ _ (fetch_6-Keeps addr _ m q) (fetch_8-Keeps addr _ m q)))

  pub access_icache-Keeps : (addr : ℕ) → Keeps (OfState Q) (access_icache addr)
  unfolding access_icache fill_icache
  access_icache-Keeps addr m q = After-if _ _ _ (returned _ m q) (
      After-bind (translate addr 4 false true) _ m (translate-Keeps Q addr 4 false true m q)
        (λ iaddr m' q'.
          After-bind (fetch_insn addr iaddr) _ m' (fetch_insn-Keeps addr iaddr m' q')
            (λ insn m'' q''. returned _ (fill_icache addr insn iaddr m'') q'')))

  module _ (opcodes : OpcodeMap Func)
      (insns : (fetch : IcacheEntry) (pc : ℕ)
        → Keeps (OfState Q) (execute_insn opcodes fetch pc)) where
    abbrev RunKeeps : Run → Type 0
    RunKeeps r = OfState Q r.machine

    after_fetch-keep :
        (pc instret : ℕ) (rest : ℕ → Machine → Run) (o : Outcome ℕ)
        → ((idx : ℕ) (m : Machine) → OfState Q m → RunKeeps (rest idx m))
        → After (OfState Q) o
        → RunKeeps (after_fetch pc instret rest o)
    unfolding after_fetch
    after_fetch-keep pc instret rest _ keep (returned a m q) = keep a m q
    after_fetch-keep pc instret rest _ keep (threw t m q) = q
    after_fetch-keep pc instret rest _ keep (threw_serialize m q) = q

    RunKeeps-if :
        (test : Bool) (r r' : Run) → RunKeeps r → RunKeeps r' → RunKeeps (if test then r else r')
    RunKeeps-if true r r' k k' = k
    RunKeeps-if false r r' k k' = k'

    after_insn-keep :
        (idx pc instret : ℕ) (next : ℕ → Machine → Run) (o : Outcome ℕ)
        → ((npc : ℕ) (m : Machine) → OfState Q m → RunKeeps (next npc m))
        → After (OfState Q) o
        → RunKeeps (after_insn idx pc instret next o)
    unfolding after_insn
    after_insn-keep idx pc instret next _ keep (returned npc m q) =
        RunKeeps-if _ _ _ q (keep npc m q)
    after_insn-keep idx pc instret next _ keep (threw t m q) = q
    after_insn-keep idx pc instret next _ keep (threw_serialize m q) = q

    unless_thrown-keep :
        (thrown : Thrown) (pc instret : ℕ) (m : Machine) (rest : Run)
        → OfState Q m
        → RunKeeps rest
        → RunKeeps (unless_thrown (run_with thrown pc instret m) rest)
    unfolding unless_thrown
    unless_thrown-keep nothing pc instret m rest k k' = k'
    unless_thrown-keep (a_trap t) pc instret m rest k k' = k
    unless_thrown-keep a_serialize pc instret m rest k k' = k

    run_entries-keep :
        (left idx pc instret : ℕ) (m : Machine)
        → OfState Q m
        → RunKeeps (run_entries opcodes left idx pc instret m)
    unfolding run_entries
    run_entries-keep zero idx pc instret m q = q
    run_entries-keep (suc left) idx pc instret m q =
        after_insn-keep idx pc instret _ _
          (λ npc after. run_entries-keep left (idx + 1) npc (instret + 1) after)
          (insns (m.mmu.icache idx) pc m q)

    run_loop-keep :
        (fuel n pc instret : ℕ) (m : Machine)
        → OfState Q m
        → RunKeeps (run_loop opcodes fuel n pc instret m)
    unfolding run_loop
    run_loop-keep zero n pc instret m q = q
    run_loop-keep (suc fuel) n pc instret m q =
        let kept =
          after_fetch-keep pc instret
            (λ idx after. run_entries opcodes (icache_entries - idx) idx pc instret after)
            (access_icache pc m)
            (λ idx after. run_entries-keep (icache_entries - idx) idx pc instret after)
            (access_icache-Keeps pc m q) in
        RunKeeps-if (ltb instret n) _ _
          (unless_thrown-keep _ _ _ _ _ kept (run_loop-keep fuel n _ _ _ kept)) q

    run_debug-keep :
        (fuel n pc instret : ℕ) (m : Machine)
        → OfState Q m
        → RunKeeps (run_debug opcodes fuel n pc instret m)
    unfolding run_debug
    run_debug-keep zero n pc instret m q = q
    run_debug-keep (suc fuel) n pc instret m q =
        let kept =
          after_fetch-keep pc (instret + 1) _ (access_icache pc m)
            (λ idx after q'.
              after_fetch-keep pc (instret + 1)
                (λ npc last. run_with nothing npc (instret + 1) last) _ (λ npc last k. k)
                (insns (after.mmu.icache idx) pc after q'))
            (access_icache-Keeps pc m q) in
        RunKeeps-if (ltb instret n) _ _
          (unless_thrown-keep _ _ _ _ _ kept (run_debug-keep fuel n _ _ _ kept)) q

    run_insns-keep :
        (debug : Bool) (n : ℕ) (m : Machine) → OfState Q m → RunKeeps (run_insns opcodes debug n m)
    unfolding run_insns
    run_insns-keep debug n m q =
        elim (take_interrupt m.state)
          as (λ o. RunKeeps (elim o [
            | some t ↦ run_with (a_trap t) m.state.pc 0 m
            | none ↦
                if debug
                then run_debug opcodes (suc n) n m.state.pc 0 m
                else run_loop opcodes n n m.state.pc 0 m
          ])) [
            | some t ↦ q
            | none ↦
                RunKeeps-if debug _ _ (run_debug-keep (suc n) n m.state.pc 0 m q)
                  (run_loop-keep n n m.state.pc 0 m q)
          ]

    -- What every instruction of the opcode map, a trap, and the end of a step keep of the state, a step
    -- keeps, whether it stops by itself or something is thrown.
    module _ (b : Build)
        (traps : (t : Trap) (epc : ℕ) (m : Machine)
          → OfState Q m
          → OfState Q (take_trap b t epc m).1)
        (finish : (pc instret : ℕ) (m : Machine)
          → OfState Q m
          → OfState Q (finish_step opcodes b pc instret m)) where
      OfState-if :
          (test : Bool) (m m' : Machine)
          → OfState Q m
          → OfState Q m'
          → OfState Q (if test then m else m')
      OfState-if true m m' q q' = q
      OfState-if false m m' q q' = q'

      end_step-keep :
          (thrown : Thrown) (pc instret : ℕ) (m : Machine)
          → OfState Q m
          → OfState Q (end_step opcodes b (run_with thrown pc instret m))
      unfolding end_step
      end_step-keep nothing pc instret m q = finish pc instret m q
      end_step-keep a_serialize pc instret m q = finish pc instret m q
      end_step-keep (a_trap t) pc instret m q =
          finish (take_trap b t pc m).0 instret (take_trap b t pc m).1 (traps t pc m q)

      pub step-keep :
          (debug : Bool) (n : ℕ) (m : Machine) → OfState Q m → OfState Q (step opcodes b debug n m)
      unfolding step
      step-keep debug n m q =
          let ran = run_insns opcodes debug (min n (bit_or (next_timer m.state) 1)) m in
          OfState-if (not m.run || n == 0) m (end_step opcodes b ran) q (
            end_step-keep ran.thrown ran.pc ran.instret ran.machine
              (run_insns-keep debug (min n (bit_or (next_timer m.state) 1)) m q))
