-- ===== src/Hart/Trap/Laws.antt =====
-- What a trap saves, and that `sret` restores it.
use riscv_isa_sim.Base.{
  sext32, ℕ, ◌^◌, ◌<◌, ◌≡◌, ◌∙◌, ap, refl, arith, Bool, true, false, ◌==◌, ◌&&◌, ◌||◌, not,
  if◌then◌else◌, bit, bit-lt, bit-bit_and, bit-bit_or, bit_or, not32, minus_one, has, has-two_pow,
  bit-not, two_pow-bit, zero-bit, all_below,
}
use mathlib.Core.Option
use riscv_isa_sim.Build.{Build}
use riscv_isa_sim.Isa.Encoding.{sr_s, sr_ei, sr_ps, sr_pei}
use riscv_isa_sim.Hart.Machine.{Machine, Trap, done}
use riscv_isa_sim.Hart.Status.{next_sr, set_status}
use riscv_isa_sim.Hart.Status.Laws.{
  is_ip, is_cleared, mask_bits, next_sr-bits, IsValidSr, next_sr-IsValidSr,
}
use riscv_isa_sim.Hart.Trap.{trap_status, sret_status, take_trap, sret}

-- The complement of one bit.
not_two_pow-bit :
    (k i : ℕ) → 2 ^ k < 2 ^ 32 → i < 32 → bit (not32 (2 ^ k)) i ≡ (if i == k then 0 else 1)
not_two_pow-bit k i h lt = bit-not 32 (2 ^ k) i h lt ∙ ground (arith, two_pow-bit k i)

bit-if : (c : Bool) (k i : ℕ) → bit (if c then 2 ^ k else 0) i ≡ (if c && i == k then 1 else 0)
bit-if c k i = ground (arith, two_pow-bit k i, zero-bit i)

-- Interrupts off, supervisor mode, and both old values one place up.
abbrev pub trap_bit : (ℕ → ℕ) → ℕ → ℕ
trap_bit old i =
    if i == 0
    then 1
    else if i == 1
    then old 0
    else if i == 2
    then 0
    else if i == 3
    then old 2
    else old i

trap_status-bits : (sr i : ℕ) → i < 32 → bit (trap_status sr) i ≡ trap_bit (bit sr) i
unfolding trap_status
trap_status-bits sr i h =
    simp (bit-bit_or, bit-bit_and)
      (ground (
        arith,
        not_two_pow-bit 2 i (omega arith) h,
        not_two_pow-bit 1 i (omega arith) h,
        not_two_pow-bit 3 i (omega arith) h,
        two_pow-bit 0 i,
        bit-if (has sr sr_s) 1 i,
        bit-if (has sr sr_ei) 3 i,
        has-two_pow 0 sr,
        has-two_pow 2 sr,
        bit-lt sr i,
        bit-lt sr 0,
        bit-lt sr 2,
      ))

abbrev pub sret_bit : (ℕ → ℕ) → ℕ → ℕ
sret_bit old i = if i == 0 then old 1 else if i == 2 then old 3 else old i

sret_status-bits : (sr i : ℕ) → i < 32 → bit (sret_status sr) i ≡ sret_bit (bit sr) i
unfolding sret_status
sret_status-bits sr i h =
    simp (bit-bit_or, bit-bit_and)
      (ground (
        arith,
        mask_bits (not32 (bit_or sr_s sr_ei)) (λ j. not (j == 0 || j == 2)) i
            (unfold all_below bit in refl) h,
        bit-if (has sr sr_ps) 0 i,
        bit-if (has sr sr_pei) 2 i,
        has-two_pow 1 sr,
        has-two_pow 3 sr,
        bit-lt sr i,
        bit-lt sr 1,
        bit-lt sr 3,
      ))

sr-take_trap :
    (b : Build) (t : Trap) (epc : ℕ) (m : Machine)
    → (take_trap b t epc m).1.state.sr ≡ next_sr b m.has_ext (trap_status m.state.sr) m.state.sr
unfolding take_trap
sr-take_trap b t epc m = ground arith

has_ext-take_trap :
    (b : Build) (t : Trap) (epc : ℕ) (m : Machine) → (take_trap b t epc m).1.has_ext ≡ m.has_ext
unfolding take_trap
has_ext-take_trap b t epc m = refl

-- On a valid register the write of the status changes nothing but what was asked for.
written_bits :
    (b : Build) (has_ext : Bool) (val sr i : ℕ)
    → IsValidSr b has_ext sr
    → i < 32
    → (is_ip i ≡ true → bit val i ≡ bit sr i)
    → (is_ip i ≡ false → is_cleared b has_ext i ≡ true → bit val i ≡ bit sr i)
    → bit (next_sr b has_ext val sr) i ≡ bit val i
written_bits b has_ext val sr i v h ip cleared =
    ground (arith, next_sr-bits b has_ext val sr i h, v.clear i h, ip, cleared)

trapped_sr-bits :
    (b : Build) (has_ext : Bool) (sr : ℕ)
    → IsValidSr b has_ext sr
    → (i : ℕ) → i < 32
    → bit (next_sr b has_ext (trap_status sr) sr) i ≡ trap_bit (bit sr) i
trapped_sr-bits b has_ext sr v i h =
    written_bits b has_ext (trap_status sr) sr i v h (λ e. ground (arith, trap_status-bits sr i h))
      (λ e c. ground (arith, trap_status-bits sr i h))
    ∙ trap_status-bits sr i h

-- A trap saves the address and the cause, gives up the load reservation, goes to the handler at
-- `evec`, and of the status register changes only the four bits of mode and interrupt enable:
-- supervisor mode with interrupts off, and the old mode and enable in the bits for the previous
-- ones. A memory trap sets `badvaddr`, any other leaves it.
pub take_trap_lem :
    (b : Build) (t : Trap) (epc : ℕ) (m : Machine)
    → IsValidSr b m.has_ext m.state.sr
    → let (pc, m') = take_trap b t epc m in
      (pc ≡ m.state.evec)
      × (m'.state.epc ≡ epc)
      × (m'.state.cause ≡ t.cause)
      × (m'.state.badvaddr ≡ Option.get_or t.badvaddr m.state.badvaddr)
      × (m'.state.load_reservation ≡ minus_one)
      × ((i : ℕ) → i < 32 → bit m'.state.sr i ≡ trap_bit (bit m.state.sr) i)
take_trap_lem b t epc m v = (
  unfold take_trap in ground arith,
  unfold take_trap in ground arith,
  unfold take_trap in ground arith,
  unfold take_trap in ground arith,
  unfold take_trap in ground arith,
  λ i h. ap (λ n. bit n i) (sr-take_trap b t epc m) ∙ trapped_sr-bits b m.has_ext m.state.sr v i h,
)

take_trap-IsValidSr :
    (b : Build) (t : Trap) (epc : ℕ) (m : Machine)
    → let m' = (take_trap b t epc m).1 in IsValidSr b m'.has_ext m'.state.sr
take_trap-IsValidSr b t epc m =
    rw (sr-take_trap b t epc m, has_ext-take_trap b t epc m)
      (next_sr-IsValidSr b m.has_ext (trap_status m.state.sr) m.state.sr)

sret_of_supervisor :
    (b : Build) (xpr64 : Bool) (m : Machine)
    → bit m.state.sr 0 ≡ 1
    → sret b xpr64 m
      ≡ done
          (if xpr64 then m.state.epc else sext32 m.state.epc)
          (set_status b (sret_status m.state.sr) m)
unfolding sret
sret_of_supervisor b xpr64 m h = ground (arith, has-two_pow 0 m.state.sr)

sr-set_status :
    (b : Build) (val : ℕ) (m : Machine)
    → (set_status b val m).state.sr ≡ next_sr b m.has_ext val m.state.sr
unfolding set_status
sr-set_status b val m = refl

-- Returning from a trap takes the hart back: `sret` goes to the address that was saved, of which
-- the 32-bit `sret` sign-extends the lower half, and the status register is what it was but for the
-- two bits of the previous state, which keep their copies of mode and interrupt enable. (A handler
-- that leaves the status and `epc` as they are.)
pub sret-take_trap :
    (b : Build) (xpr64 : Bool) (t : Trap) (epc : ℕ) (m : Machine)
    → IsValidSr b m.has_ext m.state.sr
    → (m'' : Machine) × (sret b xpr64 (take_trap b t epc m).1
        ≡ done (if xpr64 then epc else sext32 epc) m'')
      × ((i : ℕ)
          → i < 32
          → bit m''.state.sr i ≡ (
              if i == 1
              then bit m.state.sr 0
              else if i == 3
              then bit m.state.sr 2
              else bit m.state.sr i))
sret-take_trap b xpr64 t epc m v = (
  returned,
  sret_of_supervisor b xpr64 m' supervisor
      ∙ ap (λ (a : ℕ). done (if xpr64 then a else sext32 a) returned) (saved.1),
  λ i h.
      ap (λ n. bit n i) (sr-set_status b (sret_status m'.state.sr) m')
      ∙ written_bits b m'.has_ext (sret_status m'.state.sr) m'.state.sr i valid h
          (λ e. ground (arith, sret_status-bits m'.state.sr i h))
          (λ e c. ground (arith, sret_status-bits m'.state.sr i h))
      ∙ sret_status-bits m'.state.sr i h
      ∙ ground (arith, saved.5 i h, saved.5 1 (omega arith), saved.5 3 (omega arith)),
)
  where
    m' : Machine
    m' = (take_trap b t epc m).1

    saved :
        ((take_trap b t epc m).0 ≡ m.state.evec)
        × (m'.state.epc ≡ epc)
        × (m'.state.cause ≡ t.cause)
        × (m'.state.badvaddr ≡ Option.get_or t.badvaddr m.state.badvaddr)
        × (m'.state.load_reservation ≡ minus_one)
        × ((i : ℕ) → i < 32 → bit m'.state.sr i ≡ trap_bit (bit m.state.sr) i)
    saved = take_trap_lem b t epc m v

    supervisor : bit m'.state.sr 0 ≡ 1
    supervisor = saved.5 0 (omega arith)

    valid : IsValidSr b m'.has_ext m'.state.sr
    valid = take_trap-IsValidSr b t epc m

    returned : Machine
    returned = set_status b (sret_status (take_trap b t epc m).1.state.sr) (take_trap b t epc m).1
