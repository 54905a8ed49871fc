-- ===== src/Hart/Timer/Laws.antt =====
-- When the timer interrupt is raised.
use riscv_isa_sim.Base.{
  ℕ, ◌+◌, ◌^◌, ◌<◌, ◌≡◌, arith, ltb, leb, ◌&&◌, u32, u64, sub64, add64, bit, bit_xor, if◌then◌else◌,
  is_neg, bit-lt, bit_xor-neg, ◌==◌, bit-bit_or, two_pow-bit, ◌∙◌,
}
use riscv_isa_sim.Hart.State.{State}
use riscv_isa_sim.Hart.Timer.{update_timer}

crossed :
    (c k n : ℕ)
    → c < 2 ^ 32
    → k < 2 ^ 32
    → n < 2 ^ 62
    → is_neg (bit_xor (sub64 c k) (add64 (sub64 c k) n)) ≡ (ltb c k && leb k (c + n))
crossed c k n hc hk hn =
    bit_xor-neg (sub64 c k) (add64 (sub64 c k) n) (omega arith) (omega arith) ∙ ground arith

-- A step raises the timer interrupt exactly when the lower half of the counter goes from below
-- `compare` to it or past it, counted without wrap; every other bit of the status register stays,
-- and the counter advances by the instructions retired.
pub update_timer_lem :
    (instret : ℕ) (s : State)
    → s.compare < 2 ^ 32
    → s.sr < 2 ^ 32
    → instret < 2 ^ 62
    → ((i : ℕ)
        → bit (update_timer instret s).sr i ≡ (
            if i == 31
            then (if ltb (u32 s.count) s.compare && leb s.compare (u32 s.count + instret)
                then 1
                else bit s.sr 31)
            else bit s.sr i))
      × ((update_timer instret s).count ≡ u64 (s.count + instret))
update_timer_lem instret s p q r = (λ i. sr_bit i, unfold update_timer in ground arith)
  where
    sr_bit :
        (i : ℕ)
        → bit (update_timer instret s).sr i ≡ (
            if i == 31
            then (if ltb (u32 s.count) s.compare && leb s.compare (u32 s.count + instret)
                then 1
                else bit s.sr 31)
            else bit s.sr i)
    sr_bit i =
        unfold update_timer in
        ground (
          arith,
          crossed (u32 s.count) s.compare instret (omega arith) p r,
          bit-bit_or s.sr (2 ^ 31) i,
          two_pow-bit 31 i,
          bit-lt s.sr i,
        )
