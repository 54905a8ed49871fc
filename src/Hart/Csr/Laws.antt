-- ===== src/Hart/Csr/Laws.antt =====
-- Reads of control registers after writes.
use riscv_isa_sim.Base.{
  bit_or_comm, u32, ap₂, not32, bit-bit_and, bit-not, two_pow-bit, bit-lt, ◌⊎◌, ℕ, ◌*◌, ◌/◌, ◌%◌,
  ◌^◌, ◌<◌, ◌≡◌, ◌∙◌, ap, refl, arith, Bool, true, false, ◌==◌, if◌then◌else◌, bit, bit_and, bit_or,
  bit_and_low, bit_and_field, has, bit_or_sum,
}
use riscv_isa_sim.Build.{Build}
use riscv_isa_sim.Isa.Encoding.{csr_count, csr_compare, csr_fflags, csr_frm, csr_fcsr}
use riscv_isa_sim.Hart.Machine.{Machine, done, trapped, serialize_thrown, ◌>>=◌}
use riscv_isa_sim.Hart.Csr.{
  trap_privileged_instruction, set_pcr, get_pcr, require_fp, fsr_aexc, fsr_rd, fsr_rd_shift,
  validate_csr,
}

require_fp_enabled :
    (b : Build) (m : Machine)
    → b.enable_fpu ≡ true
    → has m.state.sr 16 ≡ true
    → require_fp b m ≡ done tt m
unfolding require_fp
require_fp_enabled b m fpu ef = ground arith

-- Writing FCSR and reading it back, with floating point enabled, gives the eight lowest bits; the
-- same write is seen through FFLAGS and FRM.
pub get_pcr-set_pcr_fcsr :
    (b : Build) (tick : Machine → Machine) (val : ℕ) (m : Machine)
    → b.enable_fpu ≡ true
    → has m.state.sr 16 ≡ true
    → (m' : Machine) × (set_pcr b csr_fcsr val m ≡ done tt m')
      × (get_pcr b tick csr_fcsr m' ≡ done (val % 2 ^ 8) m')
      × (get_pcr b tick csr_fflags m' ≡ done (val % 2 ^ 5) m')
      × (get_pcr b tick csr_frm m' ≡ done (val / 2 ^ 5 % 2 ^ 3) m')
unfolding set_pcr get_pcr
get_pcr-set_pcr_fcsr b tick val m fpu ef = (
  written,
  ground arith,
  rw (fp_enabled, ◌>>=◌) (ap (λ (v : ℕ). done v written) both),
  rw (fp_enabled, ◌>>=◌) (ap (λ (v : ℕ). done v written) (bit_and_low 5 val)),
  rw (fp_enabled, ◌>>=◌) (ap (λ (v : ℕ). done v written) upper),
)
  where
    written : Machine
    written = record m {
      state = record m.state {
        fflags = bit_and val fsr_aexc;
        frm = bit_and val fsr_rd / 2 ^ fsr_rd_shift;
      };
    }

    fp_enabled : require_fp b written ≡ done tt written
    fp_enabled = require_fp_enabled b written fpu ef

    upper : bit_and val fsr_rd / 2 ^ fsr_rd_shift ≡ val / 2 ^ 5 % 2 ^ 3
    upper = omega (arith, bit_and_field 3 5 val)

    both :
        bit_or (bit_and val fsr_aexc) (u32 (bit_and val fsr_rd / 2 ^ fsr_rd_shift * 2 ^ 5))
        ≡ val % 2 ^ 8
    both =
        bit_or_comm (bit_and val fsr_aexc) (u32 (bit_and val fsr_rd / 2 ^ fsr_rd_shift * 2 ^ 5))
        ∙ ap₂ bit_or (omega (arith, upper)) (bit_and_low 5 val)
        ∙ bit_or_sum 5 (val / 2 ^ 5 % 2 ^ 3) (val % 2 ^ 5) (omega arith)
        ∙ omega arith

-- What the code does at every access of the counter: the first stops the step and changes nothing
-- but a flag, and the access that is made again returns the counter and clears the flag.
pub get_pcr_count_twice :
    (b : Build) (tick : Machine → Machine) (m : Machine)
    → m.serialized ≡ false
    → (m' : Machine) × (get_pcr b tick csr_count m ≡ serialize_thrown m')
      × (m'.state ≡ m.state)
      × (get_pcr b tick csr_count m' ≡ done m.state.count (record m { serialized = false }))
unfolding get_pcr
get_pcr_count_twice b tick m h = (record m { serialized = true }, rw h, refl, refl)

-- A write to `compare` goes through at the second attempt: it acknowledges the timer interrupt
-- and keeps every other bit of the status register.
pub set_pcr_compare_lem :
    (b : Build) (val : ℕ) (m : Machine)
    → m.serialized ≡ false
    → m.state.sr < 2 ^ 32
    → (m' : Machine) × (m'' : Machine) × (set_pcr b csr_compare val m ≡ serialize_thrown m')
      × (m'.state ≡ m.state)
      × (set_pcr b csr_compare val m' ≡ done tt m'')
      × (m''.state.compare ≡ u32 val)
      × ((i : ℕ) → i < 32 → bit m''.state.sr i ≡ (if i == 31 then 0 else bit m.state.sr i))
unfolding set_pcr
set_pcr_compare_lem b val m h small = (
  record m { serialized = true },
  record m { serialized = false; state = record m.state { sr = acknowledged; compare = u32 val } },
  rw h,
  refl,
  refl,
  refl,
  λ i lt.
      bit-bit_and m.state.sr (not32 (2 ^ 31)) i
      ∙ ground (arith, bit-not 32 (2 ^ 31) i, two_pow-bit 31 i, bit-lt m.state.sr i),
)
  where
    acknowledged : ℕ
    acknowledged = bit_and m.state.sr (not32 (2 ^ 31))

-- No mode may write a register whose number marks it read-only, and the user mode may not touch
-- one that asks for the supervisor; neither changes the machine.
pub validate_csr_refuses :
    (which : ℕ) (write : Bool) (m : Machine)
    → ((write ≡ true) × (which / 2 ^ 10 % 4 ≡ 3))
      ⊎ ((has m.state.sr 1 ≡ false) × (which / 2 ^ 8 % 16 ≡ 5))
    → validate_csr which write m ≡ trapped trap_privileged_instruction m
unfolding validate_csr
validate_csr_refuses which write m h =
    ground (arith, bit_and_low 2 (which / 2 ^ 10), bit_and_low 2 (which / 2 ^ 8))
