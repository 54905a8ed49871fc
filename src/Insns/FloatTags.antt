-- ===== src/Insns/FloatTags.antt =====
-- The move from a floating-point register to an integer register, riscv/insns/fmv_x_d.h, and the
-- tag of its destination, which `TAG_TRAP` of riscv/decode.h looks at in a jump.
use riscv_isa_sim.Base.{ℕ, ◌≡◌, ◌<◌, arith, Bool, true, ◌&&◌, has, get_or-set_self}
use riscv_isa_sim.Build.{Build}
use riscv_isa_sim.Isa.Encoding.{sr_ef}
use riscv_isa_sim.Isa.Insn.{rd, rs1}
use riscv_isa_sim.Hart.RegFile.{RegFile, read, read_tag, write}
use riscv_isa_sim.Hart.RegFile.Laws.{IsValid}
use riscv_isa_sim.Hart.Machine.{Machine, done, ◌>>=◌}
use riscv_isa_sim.Hart.Csr.{require_fp}
use riscv_isa_sim.Insns.Macros.{next_pc, require_xpr64, is_supervisor, tag_s1}
use riscv_isa_sim.Insns.Float.{Softfloat, float_move, write_rd, frs1}
use riscv_isa_sim.Insns.FloatMove.{rv_fmv_x_d}
use riscv_isa_sim.Insns.Jumps.{is_bad_return}

-- A write of a value keeps every tag.
read_tag-write :
    (zero_reg : Bool) (i v j : ℕ) (r : RegFile) → read_tag (write zero_reg i v r) j ≡ read_tag r j
unfolding read_tag write
read_tag-write zero_reg i v j r = ground arith

pub read-write_self :
    (i v : ℕ) (r : RegFile) → IsValid 32 true r → i < 32 → 0 < i → read (write true i v r) i ≡ v
unfolding read write
read-write_self i v r valid low nonzero =
    ground (arith, valid.values_length, get_or-set_self r.values i v 0)

module _ (b : Build) (m : Machine) (on : (b.enable_fpu && has m.state.sr sr_ef) ≡ true) where
  require_fp-on : require_fp b m ≡ done tt m
  unfolding require_fp
  require_fp-on = ground arith

  -- Where floating point is on, a 64-bit move into an integer register other than 0 goes on to the
  -- next instruction, the register holds the value of the floating-point register, and each jump by a
  -- register is judged as it was before the move: a register that could be returned by still can be,
  -- with the value moved into it.
  pub rv_fmv_x_d-is_bad_return :
      (sf : Softfloat) (insn pc : ℕ)
      → IsValid 32 true m.state.xpr
      → rd insn < 32
      → 0 < rd insn
      → (after : Machine) × (rv_fmv_x_d b sf true insn pc m ≡ done (next_pc true pc) after)
        × (read after.state.xpr (rd insn) ≡ frs1 insn m)
        × ((jump : ℕ) → is_bad_return b jump after ≡ is_bad_return b jump m)
  unfolding rv_fmv_x_d require_xpr64 float_move write_rd is_bad_return tag_s1 is_supervisor
  rv_fmv_x_d-is_bad_return sf insn pc valid low nonzero = (after, moves, held, judged)
    where
      after : Machine
      after = record m {
        state = record m.state { xpr = write true (rd insn) (frs1 insn m) m.state.xpr };
      }

      moves : rv_fmv_x_d b sf true insn pc m ≡ done (next_pc true pc) after
      moves = rw (require_fp-on, ◌>>=◌)

      held : read after.state.xpr (rd insn) ≡ frs1 insn m
      held = read-write_self (rd insn) (frs1 insn m) m.state.xpr valid low nonzero

      judged : (jump : ℕ) → is_bad_return b jump after ≡ is_bad_return b jump m
      judged jump = rw (read_tag-write true (rd insn) (frs1 insn m) (rs1 jump) m.state.xpr)
