-- ===== src/Exec/Step.antt =====
-- `execute_insn` and `processor_t::step` of riscv/processor.cc. The opcode map is a parameter: what
-- `build_opcode_map` made of the instructions registered. A run of instructions ends where the code
-- leaves the loop, or where an instruction or the fetch throws; the fuel is a round of the loop
-- each. No tracker is attached.
use riscv_isa_sim.Base.{
  ℕ, zero, suc, ◌+◌, ◌-◌, Bool, ◌==◌, ◌||◌, not, ltb, min, if◌then◌else◌, bit_or, none, some,
}
use riscv_isa_sim.Build.{Build}
use riscv_isa_sim.Hart.Machine.{
  Machine, Trap, M, Outcome, done, trapped, serialize_thrown, IcacheEntry,
}
use mathlib.Core.Option
use riscv_isa_sim.Hart.Decode.{OpcodeMap, decode_insn}
use riscv_isa_sim.Hart.Csr.{trap_illegal_instruction}
use riscv_isa_sim.Hart.Interrupt.{take_interrupt}
use riscv_isa_sim.Hart.Timer.{update_timer, next_timer}
use riscv_isa_sim.Hart.Trap.{take_trap}
use riscv_isa_sim.Exec.Icache.{icache_entries, access_icache}

-- `insn_func_t`, of the word and its address.
abbrev pub Func : Type 0
Func = (insn : ℕ) → (pc : ℕ) → M ℕ

-- `pc`, `instret` and the machine where the loop is left, and what was thrown there.
pub data Thrown : Type 0 where
  nothing : Thrown
  a_trap : Trap → Thrown
  a_serialize : Thrown

pub record Run : Type 0 where
  pub thrown : Thrown
  pub pc : ℕ
  pub instret : ℕ
  pub machine : Machine

abbrev pub run_with : Thrown → ℕ → ℕ → Machine → Run
run_with thrown pc instret m = record { thrown = thrown; pc = pc; instret = instret; machine = m }

unfoldable pub illegal_instruction : Func
illegal_instruction insn pc m = trapped trap_illegal_instruction m

-- What follows a fetch, or an instruction of the debug loop, with its result, unless it throws.
unfoldable pub after_fetch : (pc : ℕ) (instret : ℕ) (rest : ℕ → Machine → Run) → Outcome ℕ → Run
after_fetch pc instret rest (done idx after) = rest idx after
after_fetch pc instret rest (trapped t after) = run_with (a_trap t) pc instret after
after_fetch pc instret rest (serialize_thrown after) = run_with a_serialize pc instret after

-- What follows an instruction in ICACHE_ACCESS: the next entry, while it is the next instruction's.
unfoldable pub after_insn :
    (idx : ℕ) (pc : ℕ) (instret : ℕ) (next : ℕ → Machine → Run) → Outcome ℕ → Run
after_insn idx pc instret next (done npc after) =
    if idx == icache_entries - 1 || not ((after.mmu.icache (idx + 1)).tag == npc)
    then run_with nothing npc (instret + 1) after
    else next npc after
after_insn idx pc instret next (trapped t after) = run_with (a_trap t) pc instret after
after_insn idx pc instret next (serialize_thrown after) = run_with a_serialize pc instret after

-- The loop goes on, unless something was thrown.
unfoldable pub unless_thrown : Run → Run → Run
unless_thrown round rest = elim round.thrown [
  | nothing ↦ rest
  | a_trap t ↦ round
  | a_serialize ↦ round
]

module _ (opcodes : OpcodeMap Func) where
  -- `build_opcode_map` ends its entries with one for every word, so the search does not run past them;
  -- for a map that it has not built, the default stands for what is read there.
  unfoldable pub execute_insn : IcacheEntry → ℕ → M ℕ
  unfolding decode_insn
  execute_insn fetch pc =
      Option.get_or (decode_insn fetch.rv64 opcodes fetch.insn) illegal_instruction fetch.insn pc

  -- The cases of the switch from an index on, `left` of them: ICACHE_ACCESS runs the entry, and the
  -- next case follows while the next entry is the next instruction's.
  unfoldable pub run_entries : (left : ℕ) (idx : ℕ) (pc : ℕ) (instret : ℕ) (m : Machine) → Run
  unfolding execute_insn after_insn
  run_entries zero idx pc instret m = run_with nothing pc instret m
  run_entries (suc left) idx pc instret m =
      after_insn idx pc instret (λ npc after. run_entries left (idx + 1) npc (instret + 1) after)
        (execute_insn (m.mmu.icache idx) pc m)

  -- `while (instret < n)`.
  unfoldable pub run_loop : (fuel : ℕ) (n : ℕ) (pc : ℕ) (instret : ℕ) (m : Machine) → Run
  unfolding run_entries access_icache after_fetch unless_thrown
  run_loop zero n pc instret m = run_with nothing pc instret m
  run_loop (suc fuel) n pc instret m =
      let round =
        after_fetch pc instret
          (λ idx after. run_entries (icache_entries - idx) idx pc instret after)
          (access_icache pc m) in
      let rest = run_loop fuel n round.pc round.instret round.machine in
      if ltb instret n then unless_thrown round rest else run_with nothing pc instret m

  -- `while (instret++ < n)`, where debug is set.
  unfoldable pub run_debug : (fuel : ℕ) (n : ℕ) (pc : ℕ) (instret : ℕ) (m : Machine) → Run
  unfolding execute_insn access_icache after_fetch unless_thrown
  run_debug zero n pc instret m = run_with nothing pc instret m
  run_debug (suc fuel) n pc instret m =
      let round =
        after_fetch pc (instret + 1)
          (λ idx after.
            after_fetch pc (instret + 1) (λ npc last. run_with nothing npc (instret + 1) last)
              (execute_insn (after.mmu.icache idx) pc after))
          (access_icache pc m) in
      let rest = run_debug fuel n round.pc round.instret round.machine in
      if ltb instret n then unless_thrown round rest else run_with nothing pc (instret + 1) m

  -- The `try` block.
  unfoldable pub run_insns : (debug : Bool) (n : ℕ) (m : Machine) → Run
  unfolding take_interrupt run_loop run_debug
  run_insns debug n m = elim (take_interrupt m.state) [
    | some t ↦ run_with (a_trap t) m.state.pc 0 m
    | none ↦ if debug then run_debug (suc n) n m.state.pc 0 m else run_loop n n m.state.pc 0 m
  ]

  module _ (b : Build) where
    unfoldable pub finish_step : ℕ → ℕ → Machine → Machine
    unfolding update_timer
    finish_step pc instret m = record m {
      state = update_timer instret (record m.state { pc = pc });
    }

    -- What follows the `try` block.
    unfoldable pub end_step : Run → Machine
    unfolding take_trap finish_step
    end_step r = elim r.thrown [
      | nothing ↦ finish_step r.pc r.instret r.machine
      | a_serialize ↦ finish_step r.pc r.instret r.machine
      | a_trap t ↦
          finish_step (take_trap b t r.pc r.machine).0 r.instret (take_trap b t r.pc r.machine).1
    ]

    unfoldable pub step : (debug : Bool) (n : ℕ) (m : Machine) → Machine
    unfolding run_insns end_step next_timer
    step debug n m =
        if not m.run || n == 0
        then m
        else end_step (run_insns debug (min n (bit_or (next_timer m.state) 1)) m)
