-- ===== src/Exec/PcTag.antt =====
-- What TAG_POLICY_NO_RETURN_COPY of riscv/tagpolicy.h does in the instructions of riscv/insns that
-- compute from two registers.
use riscv_isa_sim.Base.{ℕ, ◌≡◌, Bool, true, false, has}
use riscv_isa_sim.Build.{Build}
use riscv_isa_sim.Tags.{tag_pc}
use riscv_isa_sim.Isa.Insn.{rd}
use riscv_isa_sim.Isa.Opcodes.{
  InsnName, insn_add, insn_addw, insn_sub, insn_subw, insn_and, insn_or, insn_xor, insn_sll,
  insn_sllw, insn_srl, insn_srlw, insn_sra, insn_sraw, insn_slt, insn_sltu, insn_mul, insn_mulw,
  insn_mulh, insn_mulhu, insn_mulhsu, insn_div, insn_divw, insn_divu, insn_divuw,
}
use riscv_isa_sim.Hart.RegFile.{read_tag}
use riscv_isa_sim.Hart.Machine.{Machine, Outcome, done, trapped, serialize_thrown}

-- The instructions with two source registers, less the atomics and the remainders, which pass on the
-- tag of one operand in some cases.
unfoldable pub is_two_operand : InsnName → Bool
is_two_operand insn_add = true
is_two_operand insn_addw = true
is_two_operand insn_sub = true
is_two_operand insn_subw = true
is_two_operand insn_and = true
is_two_operand insn_or = true
is_two_operand insn_xor = true
is_two_operand insn_sll = true
is_two_operand insn_sllw = true
is_two_operand insn_srl = true
is_two_operand insn_srlw = true
is_two_operand insn_sra = true
is_two_operand insn_sraw = true
is_two_operand insn_slt = true
is_two_operand insn_sltu = true
is_two_operand insn_mul = true
is_two_operand insn_mulw = true
is_two_operand insn_mulh = true
is_two_operand insn_mulhu = true
is_two_operand insn_mulhsu = true
is_two_operand insn_div = true
is_two_operand insn_divw = true
is_two_operand insn_divu = true
is_two_operand insn_divuw = true
is_two_operand other = false

-- Of what an instruction comes to: it goes on with its destination free of the tag of a code address.
-- Only a hart of 32 bits traps.
unfoldable pub DropsPc : Bool → ℕ → Outcome ℕ → Type 0
DropsPc xpr64 insn (done npc after) = has (read_tag after.state.xpr (rd insn)) tag_pc ≡ false
DropsPc xpr64 insn (trapped t after) = xpr64 ≡ false
DropsPc xpr64 insn (serialize_thrown after) = true ≡ false
