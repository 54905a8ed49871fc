-- ===== src/Insns/FloatMemory.antt =====
-- Loads and stores of floating point: riscv/insns/flw.h, fld.h, fsw.h and fsd.h.
use riscv_isa_sim.Base.{ℕ, true, add64}
use riscv_isa_sim.Build.{Build}
use riscv_isa_sim.Isa.Insn.{i_imm, s_imm}
use riscv_isa_sim.Tags.{tag_float}
use riscv_isa_sim.Hart.Machine.{done, ◌>>=◌, ◌>>◌, gets}
use riscv_isa_sim.Hart.Csr.{require_fp}
use riscv_isa_sim.Mmu.Memory.{load_tagged, store_tagged}
use riscv_isa_sim.Insns.Macros.{InsnFunc, next_pc, rs1_val}
use riscv_isa_sim.Insns.Float.{frs2, write_frd}

module _ (b : Build) (garbage : ℕ) where
  unfoldable pub rv_fld : InsnFunc
  unfolding require_fp next_pc write_frd
  rv_fld xpr64 insn pc = do
    require_fp b
    addr ← gets (λ m. add64 (rs1_val insn m) (i_imm insn))
    loaded ← load_tagged garbage 8 true addr
    write_frd insn loaded.val
    done (next_pc xpr64 pc)

  unfoldable pub rv_flw : InsnFunc
  unfolding require_fp next_pc write_frd
  rv_flw xpr64 insn pc = do
    require_fp b
    addr ← gets (λ m. add64 (rs1_val insn m) (i_imm insn))
    loaded ← load_tagged garbage 4 true addr
    write_frd insn loaded.val
    done (next_pc xpr64 pc)

  unfoldable pub rv_fsd : InsnFunc
  unfolding require_fp next_pc
  rv_fsd xpr64 insn pc = do
    require_fp b
    addr ← gets (λ m. add64 (rs1_val insn m) (s_imm insn))
    value ← gets (λ m. frs2 insn m)
    store_tagged 8 addr value tag_float
    done (next_pc xpr64 pc)

  unfoldable pub rv_fsw : InsnFunc
  unfolding require_fp next_pc
  rv_fsw xpr64 insn pc = do
    require_fp b
    addr ← gets (λ m. add64 (rs1_val insn m) (s_imm insn))
    value ← gets (λ m. frs2 insn m)
    store_tagged 4 addr value tag_float
    done (next_pc xpr64 pc)
