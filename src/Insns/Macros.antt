-- ===== src/Insns/Macros.antt =====
-- The macros of riscv/decode.h that the instructions are written with. An instruction is a function
-- of the width, its word, its address and the machine, and returns the next address.
use riscv_isa_sim.Base.{ℕ, ◌-◌, Bool, true, if◌then◌else◌, bit_and, has, add64, shl64, shr64, sar64}
use riscv_isa_sim.Isa.Encoding.{sr_s}
use riscv_isa_sim.Isa.Insn.{i_imm, sb_imm, uj_imm, rd, rs1, rs2}
use riscv_isa_sim.Hart.RegFile.{write_both, write_tag, read, read_tag}
use riscv_isa_sim.Hart.Machine.{Machine, M, done, trapped, ◌>>◌}
use riscv_isa_sim.Hart.Csr.{trap_illegal_instruction}

-- `insn_func_t`, with the width that the two functions of each instruction differ in.
abbrev pub InsnFunc : Type 0
InsnFunc = (xpr64 : Bool) → (insn : ℕ) → (pc : ℕ) → M ℕ

abbrev pub xprlen : Bool → ℕ
xprlen xpr64 = if xpr64 then 64 else 32

unfoldable pub sext_xprlen : Bool → ℕ → ℕ
unfolding sar64
sext_xprlen xpr64 x = sar64 (shl64 x (64 - xprlen xpr64)) (64 - xprlen xpr64)

unfoldable pub zext_xprlen : Bool → ℕ → ℕ
zext_xprlen xpr64 x = shr64 (shl64 x (64 - xprlen xpr64)) (64 - xprlen xpr64)

unfoldable pub cmp_trunc : Bool → ℕ → ℕ
cmp_trunc xpr64 x = shl64 x (64 - xprlen xpr64)

-- RS1, RS2, TAG_S1 and TAG_S2.
unfoldable pub rs1_val : ℕ → Machine → ℕ
rs1_val insn m = read m.state.xpr (rs1 insn)

unfoldable pub rs2_val : ℕ → Machine → ℕ
rs2_val insn m = read m.state.xpr (rs2 insn)

unfoldable pub tag_s1 : ℕ → Machine → ℕ
tag_s1 insn m = read_tag m.state.xpr (rs1 insn)

unfoldable pub tag_s2 : ℕ → Machine → ℕ
tag_s2 insn m = read_tag m.state.xpr (rs2 insn)

unfoldable pub write_rd_and_tag : ℕ → ℕ → ℕ → M (Unit {0})
write_rd_and_tag insn value tag m =
    done tt (record m {
      state = record m.state { xpr = write_both true (rd insn) value tag m.state.xpr };
    })

unfoldable pub write_reg_tag : ℕ → ℕ → M (Unit {0})
write_reg_tag reg tag m =
    done tt (record m { state = record m.state { xpr = write_tag true reg tag m.state.xpr } })

unfoldable pub shamt : ℕ → ℕ
shamt insn = bit_and (i_imm insn) 0x3f

unfoldable pub branch_target : ℕ → ℕ → ℕ
branch_target insn pc = add64 pc (sb_imm insn)

unfoldable pub jump_target : ℕ → ℕ → ℕ
jump_target insn pc = add64 pc (uj_imm insn)

unfoldable pub is_supervisor : Machine → Bool
is_supervisor m = has m.state.sr sr_s

-- `insn_length(OPCODE)` is 4 for every instruction.
unfoldable pub next_pc : Bool → ℕ → ℕ
unfolding sext_xprlen
next_pc xpr64 pc = sext_xprlen xpr64 (add64 pc 4)

-- `set_pc`, at the end of an instruction.
unfoldable pub set_pc : Bool → ℕ → M ℕ
unfolding sext_xprlen
set_pc xpr64 x m = done (sext_xprlen xpr64 x) m

-- An instruction that ends with `WRITE_RD_AND_TAG(value, tag)`.
unfoldable pub result : Bool → ℕ → ℕ → ℕ → ℕ → M ℕ
unfolding write_rd_and_tag next_pc
result xpr64 insn pc value tag m = (do write_rd_and_tag insn value tag; done (next_pc xpr64 pc)) m

unfoldable pub require_xpr64 : Bool → M ℕ → M ℕ
require_xpr64 xpr64 body m = if xpr64 then body m else trapped trap_illegal_instruction m
