-- ===== src/Hart/Trap.antt =====
-- `take_trap` of riscv/processor.cc, and `sret` (riscv/insns/sret.h), which returns from a trap.
pub mod Laws
use riscv_isa_sim.Base.{
  ℕ, ◌+◌, ◌-◌, ◌*◌, Bool, true, false, if◌then◌else◌, bit_and, bit_or, not32, has, minus_one,
  Option, none, some, sext32,
}
use riscv_isa_sim.Build.{Build}
use riscv_isa_sim.Isa.Encoding.{sr_s, sr_ei, sr_ps, sr_pei}
use riscv_isa_sim.Hart.State.{State}
use riscv_isa_sim.Hart.Machine.{Machine, Trap, M, Outcome, done, trapped}
use riscv_isa_sim.Hart.Status.{set_status}
use riscv_isa_sim.Hart.Csr.{trap_privileged_instruction}

-- The status that `take_trap` asks for: supervisor, interrupts off, and what they were in the bits
-- for the previous state.
unfoldable pub trap_status : ℕ → ℕ
trap_status sr =
    bit_or
      (bit_or
        (bit_and (bit_and (bit_or (bit_and sr (not32 sr_ei)) sr_s) (not32 sr_ps)) (not32 sr_pei))
        (if has sr sr_s then sr_ps else 0))
      (if has sr sr_ei then sr_pei else 0)

-- `mem_trap_t::side_effects`
unfoldable pub side_effects : Trap → State → State
side_effects t s = elim t.badvaddr [ none ↦ s | some a ↦ record s { badvaddr = a } ]

unfoldable pub yield_load_reservation : State → State
yield_load_reservation s = record s { load_reservation = minus_one }

unfoldable pub sret_status : ℕ → ℕ
sret_status sr =
    bit_or (bit_or (bit_and sr (not32 (bit_or sr_s sr_ei))) (if has sr sr_ps then sr_s else 0))
      (if has sr sr_pei then sr_ei else 0)

module _ (b : Build) where
  -- The address at which the handler starts, and the machine after the trap.
  unfoldable pub take_trap : Trap → ℕ → Machine → ℕ × Machine
  unfolding trap_status set_status yield_load_reservation side_effects
  take_trap t epc m =
      let m1 = set_status b (trap_status m.state.sr) m in
      let s2 = yield_load_reservation m1.state in
      let s3 = side_effects t (record s2 { cause = t.cause; epc = epc }) in
      (s3.evec, record m1 { state = s3 })

  -- `xprlen` is 32 or 64; `set_pc` sign-extends from it.
  unfoldable pub sret : Bool → M ℕ
  unfolding sret_status set_status sext32
  sret xpr64 m =
      if has m.state.sr sr_s
      then (let m1 = set_status b (sret_status m.state.sr) m in
          done (if xpr64 then m1.state.epc else sext32 m1.state.epc) m1)
      else trapped trap_privileged_instruction m
