-- ===== src/Exec/Frame.antt =====
-- No instruction, no trap and no step changes the constant register 0, or the number of registers.
use riscv_isa_sim.Base.{ℕ, Bool, true, false, List, map}
use riscv_isa_sim.Build.{Build}
use riscv_isa_sim.Hart.Machine.{Machine}
use riscv_isa_sim.Hart.Decode.{InsnDesc, OpcodeMap}
use riscv_isa_sim.Hart.Trap.{take_trap}
use riscv_isa_sim.Isa.Opcodes.{InsnName, registered}
use riscv_isa_sim.Insns.Float.{Softfloat}
use riscv_isa_sim.Exec.Step.{Func, illegal_instruction}
use riscv_isa_sim.Hart.Keeps.{threw, Keeps}
use riscv_isa_sim.Insns.Keeps.{V}
use riscv_isa_sim.Base.{add64, bit_or}
use mathlib.Core.List.{Memᴰ}
use riscv_isa_sim.Base.{if◌then◌else◌, Option, none, some, [], ◌∷◌, bit_or}
use riscv_isa_sim.Hart.State.{State}
use riscv_isa_sim.Hart.Machine.{Trap, IcacheEntry}
use riscv_isa_sim.Hart.Status.{set_status}
use riscv_isa_sim.Hart.Trap.{side_effects, yield_load_reservation}
use riscv_isa_sim.Hart.Timer.{update_timer}
use riscv_isa_sim.Insns.Keeps.{IsValidXpr}
use riscv_isa_sim.Exec.Step.{execute_insn, finish_step, step}
use riscv_isa_sim.Exec.Keeps.{step-keep}
use riscv_isa_sim.Exec.Decoded.{AllGood, decode_insn-good, build_opcode_map-good}
use riscv_isa_sim.Exec.Dispatch.{with_funcs}
use riscv_isa_sim.Base.{◌+◌, ◌^◌}
use riscv_isa_sim.Isa.Encoding.{irq_timer, sr_ip_shift}
use riscv_isa_sim.Exec.Dispatch.{base_opcodes}
use riscv_isa_sim.Exec.Executed.{execute-Keeps}

module _ (b : Build) (garbage : ℕ) (tick : Machine → Machine)
    (tick-V : (m : Machine) → V m → V (tick m)) (sf : Softfloat) where
  abbrev KeepsRegisters : Func → Type 0
  KeepsRegisters f = (insn pc : ℕ) → Keeps V (f insn pc)

  illegal-V : KeepsRegisters illegal_instruction
  unfolding illegal_instruction
  illegal-V insn pc m v = threw _ m v

  registered-good :
      (xs : List (InsnDesc InsnName))
      → AllGood KeepsRegisters (map (with_funcs b garbage tick sf) xs)
  unfolding with_funcs
  registered-good [] = tt
  registered-good (d ∷ rest) = (
    (
      execute-Keeps b garbage tick tick-V sf d.rv32 false,
      execute-Keeps b garbage tick tick-V sf d.rv64 true,
    ),
    registered-good rest,
  )

  State-if :
      (test : Bool) (s s' : State)
      → IsValidXpr s
      → IsValidXpr s'
      → IsValidXpr (if test then s else s')
  State-if true s s' v v' = v
  State-if false s s' v v' = v'

  side_effects-V :
      (badvaddr : Option ℕ) (cause : ℕ) (s : State)
      → IsValidXpr s
      → IsValidXpr (side_effects (record { cause = cause; badvaddr = badvaddr }) s)
  unfolding side_effects
  side_effects-V none cause s v = v
  side_effects-V (some a) cause s v = v

  take_trap-V : (t : Trap) (epc : ℕ) (m : Machine) → V m → V (take_trap b t epc m).1
  unfolding take_trap set_status yield_load_reservation
  take_trap-V t epc m v = side_effects-V t.badvaddr t.cause _ v

  module _
      (sort : (InsnDesc Func → InsnDesc Func → Bool)
        → List (InsnDesc Func)
        → List (InsnDesc Func)) where
    abbrev opcodes : OpcodeMap Func
    opcodes = base_opcodes b garbage tick sf sort

    finish_step-V : (pc instret : ℕ) (m : Machine) → V m → V (finish_step opcodes b pc instret m)
    unfolding finish_step update_timer
    finish_step-V pc instret m v =
        let s = record m.state { pc = pc } in
        let s1 = record s { count = add64 s.count instret } in
        State-if _ (record s1 { sr = bit_or s.sr (2 ^ (irq_timer + sr_ip_shift)) }) s1 v v

    execute_insn-V :
        ((less : InsnDesc Func → InsnDesc Func → Bool) (xs : List (InsnDesc Func))
            (d : InsnDesc Func)
          → Memᴰ d (sort less xs)
          → Memᴰ d xs)
        → (fetch : IcacheEntry) (pc : ℕ) → Keeps V (execute_insn opcodes fetch pc)
    unfolding execute_insn base_opcodes
    execute_insn-V no_other fetch =
        decode_insn-good KeepsRegisters illegal_instruction illegal-V opcodes
          (build_opcode_map-good KeepsRegisters illegal_instruction illegal-V sort no_other
            (map (with_funcs b garbage tick sf) registered) (registered-good registered))
          fetch.rv64 fetch.insn fetch.insn

    -- A step of a hart with the instructions that its constructor registers keeps the integer
    -- registers well formed: there are 32 with as many tags, and register 0 holds 0 with tag 0. So it
    -- is for every instruction, every trap, and every number of instructions, with and without
    -- debugging, where `std::sort` adds nothing, and the host interface keeps it too.
    pub step-IsValidXpr :
        ((less : InsnDesc Func → InsnDesc Func → Bool) (xs : List (InsnDesc Func))
            (d : InsnDesc Func)
          → Memᴰ d (sort less xs)
          → Memᴰ d xs)
        → (debug : Bool) (n : ℕ) (m : Machine) → V m
        → V (step opcodes b debug n m)
    step-IsValidXpr no_other =
        step-keep IsValidXpr opcodes (execute_insn-V no_other) b take_trap-V finish_step-V
