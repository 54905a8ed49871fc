-- ===== src/Insns/FloatKeeps.antt =====
-- The floating-point instructions leave the integer registers well formed.
use riscv_isa_sim.Base.{ℕ, Bool, true, arith, length-set, get_or-set_ne, add64}
use riscv_isa_sim.Build.{Build}
use riscv_isa_sim.Tags.{tag_float}
use riscv_isa_sim.Hart.RegFile.{RegFile, write, read, read_tag}
use riscv_isa_sim.Hart.RegFile.Laws.{IsValid}
use riscv_isa_sim.Isa.Insn.{rd, i_imm, s_imm}
use riscv_isa_sim.Hart.Machine.{Machine, M, done, gets, ◌>>=◌, ◌>>◌}
use riscv_isa_sim.Hart.Keeps.{returned, threw, Keeps, After-bind, After-if}
use riscv_isa_sim.Hart.Csr.{require_fp}
use riscv_isa_sim.Mmu.Memory.{load_tagged, store_tagged}
use riscv_isa_sim.Mmu.Keeps.{load_tagged-Keeps, store_tagged-Keeps}
use riscv_isa_sim.Insns.Macros.{next_pc, rs1_val}
use riscv_isa_sim.Insns.Keeps.{IsValidXpr, V}
use riscv_isa_sim.Insns.CsrKeeps.{require_fp-Keeps}
use riscv_isa_sim.Insns.Float.{
  Flagged, flagged, frs2, write_rd, write_frd, set_fp_exceptions, rounding_mode, finish_float,
  float_rounded, float_flagged, float_move,
}

write-IsValid :
    (n : ℕ) (zero_reg : Bool) (i value : ℕ) (r : RegFile)
    → IsValid n zero_reg r
    → IsValid n zero_reg (write zero_reg i value r)
unfolding write read read_tag
write-IsValid n zero_reg i value r h =
    ground (arith, length-set r.values i value, get_or-set_ne r.values i 0 value 0)

pub write_rd-Keeps : (insn value : ℕ) → Keeps V (write_rd insn value)
unfolding write_rd
write_rd-Keeps insn value m v =
    returned tt
      (record m { state = record m.state { xpr = write true (rd insn) value m.state.xpr } })
      (write-IsValid 32 true (rd insn) value m.state.xpr v)

pub write_frd-Keeps : (insn value : ℕ) → Keeps V (write_frd insn value)
unfolding write_frd
write_frd-Keeps insn value m v = returned tt _ v

bind-Keeps :
    {A : Type 0} {B : Type 0} (call : M A) (rest : A → M B)
    → Keeps V call
    → ((a : A) → Keeps V (rest a))
    → Keeps V (call >>= rest)
bind-Keeps call rest first then_on m v = After-bind call rest m (first m v) then_on

gets-Keeps : {A : Type 0} (f : Machine → A) → Keeps V (gets f)
gets-Keeps f m v = returned _ m v

rounding_mode-Keeps : (insn : ℕ) → Keeps V (rounding_mode insn)
unfolding rounding_mode
rounding_mode-Keeps insn m v = After-if _ _ _ (threw _ m v) (returned _ m v)

end-Keeps : (xpr64 : Bool) (pc : ℕ) → Keeps V (done (next_pc xpr64 pc))
end-Keeps xpr64 pc m v = returned _ m v

set_fp_exceptions-Keeps : (flags : ℕ) → Keeps V (set_fp_exceptions flags)
unfolding set_fp_exceptions
set_fp_exceptions-Keeps flags m v = returned tt _ v

module _ (b : Build) (write_value : ℕ → ℕ → M (Unit {0}))
    (write_value-Keeps : (insn value : ℕ) → Keeps V (write_value insn value)) where
  finish_float-Keeps :
      (insn : ℕ) (result : Flagged) (xpr64 : Bool) (pc : ℕ)
      → Keeps V (finish_float (write_value insn) result xpr64 pc)
  unfolding finish_float
  finish_float-Keeps insn (flagged value flags) xpr64 pc =
      bind-Keeps _ _ (write_value-Keeps insn value)
        (λ _. bind-Keeps _ _ (set_fp_exceptions-Keeps flags) (λ _. end-Keeps xpr64 pc))

  pub float_rounded-Keeps :
      (value : (mode insn : ℕ) → Machine → Flagged) (xpr64 : Bool) (insn pc : ℕ)
      → Keeps V (float_rounded b write_value value xpr64 insn pc)
  unfolding float_rounded
  float_rounded-Keeps value xpr64 insn pc = bind-Keeps _ _ (require_fp-Keeps b) (λ _.
      bind-Keeps _ _ (rounding_mode-Keeps insn) (λ mode.
        bind-Keeps _ _ (gets-Keeps (value mode insn)) (λ r. finish_float-Keeps insn r xpr64 pc)))

  pub float_flagged-Keeps :
      (value : (insn : ℕ) → Machine → Flagged) (xpr64 : Bool) (insn pc : ℕ)
      → Keeps V (float_flagged b write_value value xpr64 insn pc)
  unfolding float_flagged
  float_flagged-Keeps value xpr64 insn pc =
      bind-Keeps _ _ (require_fp-Keeps b)
        (λ _. bind-Keeps _ _ (gets-Keeps (value insn)) (λ r. finish_float-Keeps insn r xpr64 pc))

  pub float_move-Keeps :
      (value : (insn : ℕ) → Machine → ℕ) (xpr64 : Bool) (insn pc : ℕ)
      → Keeps V (float_move b write_value value xpr64 insn pc)
  unfolding float_move
  float_move-Keeps value xpr64 insn pc = bind-Keeps _ _ (require_fp-Keeps b) (λ _.
      bind-Keeps _ _ (gets-Keeps (value insn))
        (λ r. bind-Keeps _ _ (write_value-Keeps insn r) (λ _. end-Keeps xpr64 pc)))

module _ (b : Build) (garbage : ℕ) where
  pub float_load-Keeps :
      (bytes : ℕ) (xpr64 : Bool) (insn pc : ℕ)
      → Keeps V (do
        require_fp b
        addr ← gets (λ m. add64 (rs1_val insn m) (i_imm insn))
        loaded ← load_tagged garbage bytes true addr
        write_frd insn loaded.val
        done (next_pc xpr64 pc))
  float_load-Keeps bytes xpr64 insn pc = bind-Keeps _ _ (require_fp-Keeps b) (λ _.
      bind-Keeps _ _ (gets-Keeps _) (λ addr.
        bind-Keeps _ _ (load_tagged-Keeps IsValidXpr garbage bytes true addr)
          (λ loaded. bind-Keeps _ _ (write_frd-Keeps insn loaded.val) (λ _. end-Keeps xpr64 pc))))

  pub float_store-Keeps :
      (bytes : ℕ) (xpr64 : Bool) (insn pc : ℕ)
      → Keeps V (do
        require_fp b
        addr ← gets (λ m. add64 (rs1_val insn m) (s_imm insn))
        value ← gets (λ m. frs2 insn m)
        store_tagged bytes addr value tag_float
        done (next_pc xpr64 pc))
  float_store-Keeps bytes xpr64 insn pc = bind-Keeps _ _ (require_fp-Keeps b) (λ _.
      bind-Keeps _ _ (gets-Keeps _) (λ addr.
        bind-Keeps _ _ (gets-Keeps (λ m. frs2 insn m)) (λ value.
          bind-Keeps _ _ (store_tagged-Keeps IsValidXpr bytes addr value tag_float)
            (λ _. end-Keeps xpr64 pc))))
