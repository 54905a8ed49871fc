-- ===== src/Insns/Float.antt =====
-- What the floating-point instructions of riscv/insns are written with: the macros of riscv/decode.h,
-- and the functions of the library of software floating point, which are a parameter. A function that
-- rounds takes the rounding mode, and one that can raise exceptions returns their flags with its
-- value. A flag is collected by the instruction that raises it, so none is left over between two.
use riscv_isa_sim.Base.{ℕ, ◌^◌, Bool, true, false, ◌==◌, ltb, if◌then◌else◌, bit_or}
use riscv_isa_sim.Build.{Build}
use riscv_isa_sim.Isa.Insn.{rd, rs1, rs2, rs3, rm}
use riscv_isa_sim.Hart.RegFile.{write, read}
use riscv_isa_sim.Hart.Machine.{Machine, M, done, ◌>>=◌, ◌>>◌, gets, throw, modify_state}
use riscv_isa_sim.Hart.Csr.{require_fp, trap_illegal_instruction}
use riscv_isa_sim.Insns.Macros.{InsnFunc, next_pc}

-- A value and the flags raised.
pub data Flagged : Type 0 where
  flagged : (value flags : ℕ) → Flagged

-- Integers, and values of 32 and 64 bits, are their patterns. `exact` is always true.
pub record Softfloat : Type 0 where
  pub f32_mul_add : (rm a b c : ℕ) → Flagged
  pub f64_mul_add : (rm a b c : ℕ) → Flagged
  pub f32_div : (rm a b : ℕ) → Flagged
  pub f64_div : (rm a b : ℕ) → Flagged
  pub f32_sqrt : (rm a : ℕ) → Flagged
  pub f64_sqrt : (rm a : ℕ) → Flagged
  pub f32_eq : (a b : ℕ) → Flagged
  pub f64_eq : (a b : ℕ) → Flagged
  pub f32_le : (a b : ℕ) → Flagged
  pub f64_le : (a b : ℕ) → Flagged
  pub f32_lt : (a b : ℕ) → Flagged
  pub f64_lt : (a b : ℕ) → Flagged
  pub f32_le_quiet : (a b : ℕ) → Flagged
  pub f64_le_quiet : (a b : ℕ) → Flagged
  pub f32_lt_quiet : (a b : ℕ) → Flagged
  pub f64_lt_quiet : (a b : ℕ) → Flagged
  pub is_nan_f32 : ℕ → Bool
  pub is_nan_f64 : ℕ → Bool
  pub f32_classify : ℕ → ℕ
  pub f64_classify : ℕ → ℕ
  pub f32_to_f64 : (rm a : ℕ) → Flagged
  pub f64_to_f32 : (rm a : ℕ) → Flagged
  pub i32_to_f32 : (rm a : ℕ) → Flagged
  pub ui32_to_f32 : (rm a : ℕ) → Flagged
  pub i64_to_f32 : (rm a : ℕ) → Flagged
  pub ui64_to_f32 : (rm a : ℕ) → Flagged
  pub i32_to_f64 : (rm a : ℕ) → Flagged
  pub ui32_to_f64 : (rm a : ℕ) → Flagged
  pub i64_to_f64 : (rm a : ℕ) → Flagged
  pub ui64_to_f64 : (rm a : ℕ) → Flagged
  pub f32_to_i32 : (rm a : ℕ) → Flagged
  pub f32_to_ui32 : (rm a : ℕ) → Flagged
  pub f32_to_i64 : (rm a : ℕ) → Flagged
  pub f32_to_ui64 : (rm a : ℕ) → Flagged
  pub f64_to_i32 : (rm a : ℕ) → Flagged
  pub f64_to_ui32 : (rm a : ℕ) → Flagged
  pub f64_to_i64 : (rm a : ℕ) → Flagged
  pub f64_to_ui64 : (rm a : ℕ) → Flagged

-- INT32_MIN as a uint32_t and INT64_MIN as a uint64_t.
abbrev pub sign_32 : ℕ
sign_32 = 2 ^ 31

abbrev pub sign_64 : ℕ
sign_64 = 2 ^ 63

unfoldable pub frs1 : ℕ → Machine → ℕ
frs1 insn m = read m.state.fpr (rs1 insn)

unfoldable pub frs2 : ℕ → Machine → ℕ
frs2 insn m = read m.state.fpr (rs2 insn)

unfoldable pub frs3 : ℕ → Machine → ℕ
frs3 insn m = read m.state.fpr (rs3 insn)

-- WRITE_RD and WRITE_FRD, which leave the tag of the register as it is.
unfoldable pub write_rd : ℕ → ℕ → M (Unit {0})
write_rd insn value = modify_state (λ s. record s { xpr = write true (rd insn) value s.xpr })

unfoldable pub write_frd : ℕ → ℕ → M (Unit {0})
write_frd insn value = modify_state (λ s. record s { fpr = write false (rd insn) value s.fpr })

-- `set_fp_exceptions`, where the flags are those raised.
unfoldable pub set_fp_exceptions : ℕ → M (Unit {0})
set_fp_exceptions flags = modify_state (λ s. record s { fflags = bit_or s.fflags flags })

-- RM: the rounding mode of the word, or that of the state.
unfoldable pub rounding_mode : ℕ → M ℕ
rounding_mode insn m =
    let mode = if rm insn == 7 then m.state.frm else rm insn in
    if ltb 4 mode then throw trap_illegal_instruction m else done mode m

-- The end of an instruction, once its value is known.
unfoldable pub finish_float :
    (write_value : ℕ → M (Unit {0})) → Flagged → (xpr64 : Bool) (pc : ℕ) → M ℕ
unfolding set_fp_exceptions next_pc
finish_float write_value (flagged value flags) xpr64 pc = do
  write_value value
  set_fp_exceptions flags
  done (next_pc xpr64 pc)

module _ (b : Build) where
  -- `require_fp; softfloat_roundingMode = RM; WRITE(value); set_fp_exceptions;`.
  unfoldable pub float_rounded :
      (write_value : ℕ → ℕ → M (Unit {0})) (value : (mode insn : ℕ) → Machine → Flagged) → InsnFunc
  unfolding require_fp rounding_mode finish_float
  float_rounded write_value value xpr64 insn pc = do
    require_fp b
    mode ← rounding_mode insn
    result ← gets (value mode insn)
    finish_float (write_value insn) result xpr64 pc

  -- `require_fp; WRITE(value); set_fp_exceptions;`.
  unfoldable pub float_flagged :
      (write_value : ℕ → ℕ → M (Unit {0})) (value : (insn : ℕ) → Machine → Flagged) → InsnFunc
  unfolding require_fp finish_float
  float_flagged write_value value xpr64 insn pc = do
    require_fp b
    result ← gets (value insn)
    finish_float (write_value insn) result xpr64 pc

  -- `require_fp; WRITE(value);`.
  unfoldable pub float_move :
      (write_value : ℕ → ℕ → M (Unit {0})) (value : (insn : ℕ) → Machine → ℕ) → InsnFunc
  unfolding require_fp next_pc
  float_move write_value value xpr64 insn pc = do
    require_fp b
    result ← gets (value insn)
    write_value insn result
    done (next_pc xpr64 pc)
