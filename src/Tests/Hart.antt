-- ===== src/Tests/Hart.antt =====
-- Interrupts, traps, status, timer, control and general registers at concrete machines.
use riscv_isa_sim.Base.{
  all_below, all_below_sound, not, ℕ, ◌+◌, ◌-◌, ◌/◌, ◌%◌, ◌^◌, ◌<◌, ◌≡◌, refl, arith, true, false,
  bit, ltb, leb, ◌==◌, ◌&&◌, if◌then◌else◌, u32, u64, u8, minus_one, has, none, some,
}
use riscv_isa_sim.Tests.Machines.{default_build, interrupted, machine}
use riscv_isa_sim.Hart.Machine.{Machine, Trap, done}
use riscv_isa_sim.Hart.RegFile
use riscv_isa_sim.Hart.RegFile.{RegFile, write_both, read, read_tag}
use riscv_isa_sim.Hart.RegFile.Laws.{IsValid, reset-IsValid, read-write_both}
use riscv_isa_sim.Hart.Interrupt.{take_interrupt}
use riscv_isa_sim.Hart.Interrupt.Laws.{Pending, take_interrupt_lowest}
use riscv_isa_sim.Hart.Status.{next_sr}
use riscv_isa_sim.Hart.Status.Laws.{is_ip, is_cleared, IsValidSr, next_sr-bits, next_sr-IsValidSr}
use riscv_isa_sim.Hart.Timer.{update_timer}
use riscv_isa_sim.Hart.Timer.Laws.{update_timer_lem}
use riscv_isa_sim.Hart.Trap.{take_trap, sret}
use riscv_isa_sim.Hart.Trap.Laws.{trap_bit, take_trap_lem, sret-take_trap}
use riscv_isa_sim.Hart.Csr.{set_pcr, get_pcr}
use riscv_isa_sim.Hart.Csr.Laws.{get_pcr-set_pcr_fcsr}
use riscv_isa_sim.Isa.Encoding.{csr_fcsr, csr_fflags, csr_frm}

below_7 : (j : ℕ) → j < 7 → ¬ Pending interrupted.sr j
below_7 j h p = ground (
  arith,
  all_below_sound 7 (λ k. not (bit interrupted.sr (k + 16) == 1)) j (unfold all_below bit in refl)
      h,
  p.1,
)

take_interrupt_lowest_example :
    take_interrupt interrupted ≡ some (record { cause = 2 ^ 63 + 7; badvaddr = none })
unfolding bit
take_interrupt_lowest_example =
    take_interrupt_lowest interrupted 7 (omega arith) (omega arith) refl (refl, refl) below_7

valid_sr : IsValidSr default_build false (next_sr default_build false interrupted.sr interrupted.sr)
valid_sr = next_sr-IsValidSr default_build false interrupted.sr interrupted.sr

-- The status register is what a write of it leaves.
abbrev supervised : Machine
supervised = record machine {
  state = record interrupted { sr = next_sr default_build false interrupted.sr interrupted.sr };
}

abbrev fault : Trap
fault = record { cause = 5; badvaddr = some 0x1238 }

take_trap_lem_example :
    let (pc, m') = take_trap default_build fault 0x2004 supervised in
    (pc ≡ 0x4000)
    × (m'.state.epc ≡ 0x2004)
    × (m'.state.cause ≡ 5)
    × (m'.state.badvaddr ≡ 0x1238)
    × (m'.state.load_reservation ≡ minus_one)
    × ((i : ℕ) → i < 32 → bit m'.state.sr i ≡ trap_bit (bit supervised.state.sr) i)
take_trap_lem_example = take_trap_lem default_build fault 0x2004 supervised valid_sr

sret-take_trap_example :
    (m'' : Machine) × (sret default_build true (take_trap default_build fault 0x2004 supervised).1
      ≡ done 0x2004 m'')
    × ((i : ℕ)
        → i < 32
        → bit m''.state.sr i ≡ (
            if i == 1
            then bit supervised.state.sr 0
            else if i == 3
            then bit supervised.state.sr 2
            else bit supervised.state.sr i))
sret-take_trap_example = sret-take_trap default_build true fault 0x2004 supervised valid_sr

next_sr-bits_example : bit (next_sr default_build false (2 ^ 32 - 1) 0) 8 ≡ (
    if is_ip 8 then bit 0 8 else if is_cleared default_build false 8 then 0 else bit (2 ^ 32 - 1) 8)
next_sr-bits_example = next_sr-bits default_build false (2 ^ 32 - 1) 0 8 (omega arith)

update_timer_lem_example :
    ((i : ℕ)
      → bit (update_timer 3 interrupted).sr i ≡ (
          if i == 31
          then (if ltb (u32 98) 100 && leb 100 (u32 98 + 3) then 1 else bit interrupted.sr 31)
          else bit interrupted.sr i))
    × ((update_timer 3 interrupted).count ≡ u64 (98 + 3))
update_timer_lem_example = update_timer_lem 3 interrupted (omega arith) (omega arith) (omega arith)

fp_on : has machine.state.sr 16 ≡ true
fp_on = refl

get_pcr-set_pcr_fcsr_example :
    (m' : Machine) × (set_pcr default_build csr_fcsr 0x1ff machine ≡ done tt m')
    × (get_pcr default_build (λ m. m) csr_fcsr m' ≡ done (0x1ff % 2 ^ 8) m')
    × (get_pcr default_build (λ m. m) csr_fflags m' ≡ done (0x1ff % 2 ^ 5) m')
    × (get_pcr default_build (λ m. m) csr_frm m' ≡ done (0x1ff / 2 ^ 5 % 2 ^ 3) m')
get_pcr-set_pcr_fcsr_example = get_pcr-set_pcr_fcsr default_build (λ m. m) 0x1ff machine refl fp_on

xpr-IsValid : IsValid 32 true (RegFile.reset 32)
xpr-IsValid = reset-IsValid 32 true

read-write_both_example :
    (read (write_both true 5 77 0x104 (RegFile.reset 32)) 5 ≡ 77)
    × (read_tag (write_both true 5 77 0x104 (RegFile.reset 32)) 5 ≡ u8 0x104)
read-write_both_example =
    read-write_both 32 true 5 5 77 0x104 (RegFile.reset 32) xpr-IsValid (omega arith)
