-- ===== src/Hart/Interrupt/Laws.antt =====
-- Which interrupt is taken.
use riscv_isa_sim.Base.{
  bit_and-lt, ℕ, zero, suc, ◌+◌, ◌/◌, ◌^◌, ◌<◌, ◌≤◌, ◌≡◌, ◌≢◌, ◌∙◌, sym, ap, arith, ◌==◌,
  if◌then◌else◌, bit, bit-lt, bit-high, bit-bit_and, bit_and, min, has-two_pow, none, some,
  bit-div_two_pow, bit_ext, zero-bit, bit-div, bit_and_low, ◌⊎◌, inl, inr,
}
use riscv_isa_sim.Isa.Encoding.{sr_ip, sr_ip_shift, sr_im_shift}
use riscv_isa_sim.Hart.State.{State}
use riscv_isa_sim.Hart.Status.Laws.{ip_bits}
use riscv_isa_sim.Hart.Interrupt.{lowest_irq, pending_irqs, take_interrupt}

bit-eq-test : (x i : ℕ) → bit_and (x / 2 ^ i) 1 ≡ bit x i
bit-eq-test x i = bit_and_low 1 (x / 2 ^ i) ∙ sym (bit-div i x)

lowest_irq_lem :
    (fuel i j irqs : ℕ)
    → i ≤ j
    → j < i + fuel
    → bit irqs j ≡ 1
    → ((k : ℕ) → i ≤ k → k < j → bit irqs k ≡ 0)
    → lowest_irq fuel i irqs ≡ j
unfolding lowest_irq
lowest_irq_lem zero i j irqs p q r h = absurd (omega arith)
lowest_irq_lem (suc fuel) i j irqs p q r h =
    ground (arith, bit-eq-test irqs i, h i, lowest_irq_lem fuel (i + 1) j irqs)

pending_irqs-bits :
    (sr i : ℕ) → sr < 2 ^ 32 → bit (pending_irqs sr) i ≡ min (bit sr (i + 24)) (bit sr (i + 16))
unfolding pending_irqs
pending_irqs-bits sr i h =
    bit-bit_and (bit_and sr sr_ip / 2 ^ sr_ip_shift) (sr / 2 ^ sr_im_shift) i
    ∙ ground (
      arith,
      bit-div_two_pow 24 (bit_and sr sr_ip) i,
      bit-div_two_pow 16 sr i,
      bit-bit_and sr sr_ip (i + 24),
      ip_ones (i + 24) (omega arith),
      bit-lt sr (i + 24),
      bit-lt sr (i + 16),
      bit-high 32 sr (i + 24),
    )
  where
    ip_ones : (j : ℕ) → 24 ≤ j → (bit sr_ip j ≡ 1) ⊎ (32 ≤ j)
    ip_ones j k = ground (arith, ip_bits j)

-- Interrupt i is pending and not masked.
abbrev pub Pending : ℕ → ℕ → Type 0
Pending sr i = (bit sr (i + 24) ≡ 1) × (bit sr (i + 16) ≡ 1)

-- With interrupts enabled, the pending interrupt of the lowest number is taken; the top bit of
-- the cause, of 64 or of 32 bits as SR_S64 says, marks it as an interrupt.
pub take_interrupt_lowest :
    (s : State) (i : ℕ)
    → s.sr < 2 ^ 32
    → i < 8
    → bit s.sr 2 ≡ 1
    → Pending s.sr i
    → ((j : ℕ) → j < i → ¬ Pending s.sr j)
    → take_interrupt s
      ≡ some (record { cause = (if bit s.sr 6 == 1 then 2 ^ 63 else 2 ^ 31) + i; badvaddr = none })
unfolding take_interrupt
take_interrupt_lowest s i h lt ei p first =
    ground (arith, has-two_pow 2 s.sr, has-two_pow 6 s.sr, lowest, some_irq)
  where
    pending : bit (pending_irqs s.sr) i ≡ 1
    pending = omega (arith, pending_irqs-bits s.sr i h)

    lower : (k : ℕ) → 0 ≤ k → k < i → bit (pending_irqs s.sr) k ≡ 0
    lower k _ q =
        ground
          (arith, pending_irqs-bits s.sr k h, first k, bit-lt s.sr (k + 24), bit-lt s.sr (k + 16))

    lowest : lowest_irq 8 0 (pending_irqs s.sr) ≡ i
    lowest = lowest_irq_lem 8 0 i (pending_irqs s.sr) (omega arith) (omega arith) pending lower

    some_irq : pending_irqs s.sr ≢ 0
    some_irq e = omega (arith, pending, zero-bit i, ap (λ t. bit t i) e)

-- With interrupts disabled, or with none pending that is not masked, no trap is thrown.
pub take_interrupt-none :
    (s : State)
    → s.sr < 2 ^ 32
    → (bit s.sr 2 ≡ 0) ⊎ ((j : ℕ) → j < 8 → ¬ Pending s.sr j)
    → take_interrupt s ≡ none
unfolding take_interrupt pending_irqs
take_interrupt-none s h (inl off) = ground (arith, has-two_pow 2 s.sr)
take_interrupt-none s h (inr clear) = ground (arith, no_irq)
  where
    small : pending_irqs s.sr < 2 ^ 16
    small =
        bit_and-lt 16 (bit_and s.sr sr_ip / 2 ^ sr_ip_shift) (s.sr / 2 ^ sr_im_shift) (omega arith)

    no_irq : pending_irqs s.sr ≡ 0
    no_irq = bit_ext 16 (pending_irqs s.sr) 0 small (omega arith) (λ i q. ground (
      arith,
      pending_irqs-bits s.sr i h,
      clear i,
      bit-high 32 s.sr (i + 24),
      zero-bit i,
      bit-lt s.sr (i + 24),
      bit-lt s.sr (i + 16),
    ))
