-- ===== src/Hart/Interrupt.antt =====
-- `set_interrupt`, `set_fromhost`, `deliver_ipi` and `take_interrupt` of riscv/processor.cc.
pub mod Laws
use riscv_isa_sim.Base.{
  ℕ, zero, suc, ◌+◌, ◌-◌, ◌*◌, ◌/◌, ◌^◌, Bool, true, false, ◌==◌, ◌||◌, if◌then◌else◌, bit_and,
  bit_or, not32, u32, has, not, Option, none, some, arith,
}
use riscv_isa_sim.Isa.Encoding.{sr_ip, sr_ip_shift, sr_im_shift, sr_ei, sr_s64, irq_host, irq_ipi}
use riscv_isa_sim.Hart.State.{State}
use riscv_isa_sim.Hart.Machine.{Machine, Trap}

-- `1 << (which + SR_IP_SHIFT)` as a uint32_t.
unfoldable pub set_interrupt : ℕ → Bool → State → State
set_interrupt which on s =
    let mask = bit_and (u32 (2 ^ (which + sr_ip_shift))) sr_ip in
    if on then record s { sr = bit_or s.sr mask } else record s { sr = bit_and s.sr (not32 mask) }

unfoldable pub set_fromhost : ℕ → State → State
unfolding set_interrupt
set_fromhost val s =
    let s' = set_interrupt irq_host (not (val == 0)) s in record s' { fromhost = val }

-- The lowest set bit at or above i. The loop of the code has no bound: it is left since the
-- number is not zero; eight rounds are enough for the eight interrupts.
unfoldable pub lowest_irq : ℕ → ℕ → ℕ → ℕ
lowest_irq zero i irqs = i
lowest_irq (suc fuel) i irqs =
    let rest = lowest_irq fuel (i + 1) irqs in if bit_and (irqs / 2 ^ i) 1 == 0 then rest else i

-- `((state.sr & SR_IP) >> SR_IP_SHIFT) & (state.sr >> SR_IM_SHIFT)`
unfoldable pub pending_irqs : ℕ → ℕ
pending_irqs sr = bit_and (bit_and sr sr_ip / 2 ^ sr_ip_shift) (sr / 2 ^ sr_im_shift)

-- The trap that `take_interrupt` throws, if any.
unfoldable pub take_interrupt : State → Option Trap
take_interrupt s =
    let irqs = pending_irqs s.sr in
    let thrown : Option Trap = some (record {
      cause = 2 ^ (if has s.sr sr_s64 then 63 else 31) + lowest_irq 8 0 irqs;
      badvaddr = none;
    }) in
    if irqs == 0 || not (has s.sr sr_ei) then none else thrown
