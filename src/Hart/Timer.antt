-- ===== src/Hart/Timer.antt =====
-- `update_timer` and `next_timer` of riscv/processor.cc.
pub mod Laws
use riscv_isa_sim.Base.{
  ℕ, ◌+◌, ◌^◌, Bool, if◌then◌else◌, bit_or, bit_xor, u32, u64, add64, sub64, is_neg, ◌-◌,
}
use riscv_isa_sim.Isa.Encoding.{irq_timer, sr_ip_shift}
use riscv_isa_sim.Hart.State.{State}

-- The interrupt is raised when the sign of `count - compare` changes.
unfoldable pub update_timer : ℕ → State → State
update_timer instret s =
    let count0 = u32 s.count in
    let s1 = record s { count = add64 s.count instret } in
    let before = sub64 count0 s.compare in
    if is_neg (bit_xor before (add64 before instret))
    then record s1 { sr = bit_or s.sr (2 ^ (irq_timer + sr_ip_shift)) }
    else s1

-- The difference of two uint32_t.
unfoldable pub next_timer : State → ℕ
next_timer s = u32 (s.compare + 2 ^ 32 - u32 s.count)
