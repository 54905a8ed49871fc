-- ===== src/Insns/Alu.antt =====
-- The integer instructions on registers and immediates.
use riscv_isa_sim.Base.{
  ℕ, ◌-◌, Bool, ltb, if◌then◌else◌, bit_and, bit_or, bit_xor, has, u32, add64, sub64, shl64, shr64,
  sar64, slt64, sext32,
}
use riscv_isa_sim.Build.{Build}
use riscv_isa_sim.Tags.{
  tag_add, tag_sub, tag_logic, tag_add_immediate, tag_logic_immediate, tag_immediate, tag_pc,
}
use riscv_isa_sim.Isa.Insn.{i_imm, u_imm}
use riscv_isa_sim.Hart.Machine.{trapped}
use riscv_isa_sim.Hart.Csr.{trap_illegal_instruction}
use riscv_isa_sim.Insns.Macros.{
  InsnFunc, xprlen, sext_xprlen, cmp_trunc, rs1_val, rs2_val, tag_s1, tag_s2, shamt, result,
  require_xpr64,
}

-- A comparison as a number.
abbrev pub of_bool : Bool → ℕ
of_bool t = if t then 1 else 0

unfoldable pub rv_addi : InsnFunc
unfolding result
rv_addi xpr64 insn pc m =
    result xpr64 insn pc (sext_xprlen xpr64 (add64 (rs1_val insn m) (i_imm insn)))
      (tag_add_immediate (tag_s1 insn m)) m

unfoldable pub rv_addiw : InsnFunc
unfolding result require_xpr64
rv_addiw xpr64 insn pc = require_xpr64 xpr64 (λ m.
    result xpr64 insn pc (sext32 (add64 (i_imm insn) (rs1_val insn m)))
      (tag_add_immediate (tag_s1 insn m)) m)

unfoldable pub rv_andi : InsnFunc
unfolding result
rv_andi xpr64 insn pc m =
    result xpr64 insn pc (bit_and (i_imm insn) (rs1_val insn m))
      (tag_logic_immediate (tag_s1 insn m)) m

unfoldable pub rv_ori : InsnFunc
unfolding result
rv_ori xpr64 insn pc m =
    result xpr64 insn pc (bit_or (i_imm insn) (rs1_val insn m))
      (tag_logic_immediate (tag_s1 insn m)) m

unfoldable pub rv_xori : InsnFunc
unfolding result
rv_xori xpr64 insn pc m =
    result xpr64 insn pc (bit_xor (i_imm insn) (rs1_val insn m))
      (tag_logic_immediate (tag_s1 insn m)) m

unfoldable pub rv_lui : InsnFunc
unfolding result
rv_lui xpr64 insn pc m = result xpr64 insn pc (u_imm insn) (tag_immediate) m

unfoldable pub rv_auipc : InsnFunc
unfolding result
rv_auipc xpr64 insn pc m =
    result xpr64 insn pc (sext_xprlen xpr64 (add64 (u_imm insn) pc)) (tag_add_immediate tag_pc) m

unfoldable pub rv_slti : InsnFunc
unfolding result
rv_slti xpr64 insn pc m =
    result xpr64 insn pc
      (of_bool (slt64 (cmp_trunc xpr64 (rs1_val insn m)) (cmp_trunc xpr64 (i_imm insn))))
      (tag_logic_immediate (tag_s1 insn m)) m

unfoldable pub rv_sltiu : InsnFunc
unfolding result
rv_sltiu xpr64 insn pc m =
    result xpr64 insn pc
      (of_bool (ltb (cmp_trunc xpr64 (rs1_val insn m)) (cmp_trunc xpr64 (i_imm insn))))
      (tag_logic_immediate (tag_s1 insn m)) m

unfoldable pub rv_slliw : InsnFunc
unfolding result require_xpr64
rv_slliw xpr64 insn pc = require_xpr64 xpr64 (λ m.
    result xpr64 insn pc (sext32 (shl64 (rs1_val insn m) (shamt insn)))
      (tag_logic_immediate (tag_s1 insn m)) m)

unfoldable pub rv_sraiw : InsnFunc
unfolding result require_xpr64
rv_sraiw xpr64 insn pc = require_xpr64 xpr64 (λ m.
    result xpr64 insn pc (sext32 (sar64 (sext32 (rs1_val insn m)) (shamt insn)))
      (tag_logic_immediate (tag_s1 insn m)) m)

unfoldable pub rv_srliw : InsnFunc
unfolding result require_xpr64
rv_srliw xpr64 insn pc = require_xpr64 xpr64 (λ m.
    result xpr64 insn pc (sext32 (shr64 (u32 (rs1_val insn m)) (shamt insn)))
      (tag_logic_immediate (tag_s1 insn m)) m)

unfoldable pub rv_slli : InsnFunc
unfolding result
rv_slli xpr64 insn pc m =
    if xpr64
    then result xpr64 insn pc (shl64 (rs1_val insn m) (shamt insn))
        (tag_logic_immediate (tag_s1 insn m)) m
    else if has (shamt insn) 0x20
    then trapped trap_illegal_instruction m
    else result xpr64 insn pc (sext32 (shl64 (rs1_val insn m) (shamt insn)))
        (tag_logic_immediate (tag_s1 insn m)) m

unfoldable pub rv_srli : InsnFunc
unfolding result
rv_srli xpr64 insn pc m =
    if xpr64
    then result xpr64 insn pc (shr64 (rs1_val insn m) (shamt insn))
        (tag_logic_immediate (tag_s1 insn m)) m
    else if has (shamt insn) 0x20
    then trapped trap_illegal_instruction m
    else result xpr64 insn pc (sext32 (shr64 (u32 (rs1_val insn m)) (shamt insn)))
        (tag_logic_immediate (tag_s1 insn m)) m

unfoldable pub rv_srai : InsnFunc
unfolding result
rv_srai xpr64 insn pc m =
    if xpr64
    then result xpr64 insn pc (sar64 (rs1_val insn m) (shamt insn))
        (tag_logic_immediate (tag_s1 insn m)) m
    else if has (shamt insn) 0x20
    then trapped trap_illegal_instruction m
    else result xpr64 insn pc (sext32 (sar64 (sext32 (rs1_val insn m)) (shamt insn)))
        (tag_logic_immediate (tag_s1 insn m)) m

module _ (b : Build) where
  unfoldable pub rv_add : InsnFunc
  unfolding result
  rv_add xpr64 insn pc m =
      result xpr64 insn pc (sext_xprlen xpr64 (add64 (rs1_val insn m) (rs2_val insn m)))
        (tag_add b (tag_s1 insn m) (tag_s2 insn m)) m

  unfoldable pub rv_addw : InsnFunc
  unfolding result require_xpr64
  rv_addw xpr64 insn pc = require_xpr64 xpr64 (λ m.
      result xpr64 insn pc (sext32 (add64 (rs1_val insn m) (rs2_val insn m)))
        (tag_add b (tag_s1 insn m) (tag_s2 insn m)) m)

  unfoldable pub rv_sub : InsnFunc
  unfolding result
  rv_sub xpr64 insn pc m =
      result xpr64 insn pc (sext_xprlen xpr64 (sub64 (rs1_val insn m) (rs2_val insn m)))
        (tag_sub b (tag_s1 insn m) (tag_s2 insn m)) m

  unfoldable pub rv_subw : InsnFunc
  unfolding result require_xpr64
  rv_subw xpr64 insn pc = require_xpr64 xpr64 (λ m.
      result xpr64 insn pc (sext32 (sub64 (rs1_val insn m) (rs2_val insn m)))
        (tag_sub b (tag_s1 insn m) (tag_s2 insn m)) m)

  unfoldable pub rv_and : InsnFunc
  unfolding result
  rv_and xpr64 insn pc m =
      result xpr64 insn pc (bit_and (rs1_val insn m) (rs2_val insn m))
        (tag_logic b (tag_s1 insn m) (tag_s2 insn m)) m

  unfoldable pub rv_or : InsnFunc
  unfolding result
  rv_or xpr64 insn pc m =
      result xpr64 insn pc (bit_or (rs1_val insn m) (rs2_val insn m))
        (tag_logic b (tag_s1 insn m) (tag_s2 insn m)) m

  unfoldable pub rv_xor : InsnFunc
  unfolding result
  rv_xor xpr64 insn pc m =
      result xpr64 insn pc (bit_xor (rs1_val insn m) (rs2_val insn m))
        (tag_logic b (tag_s1 insn m) (tag_s2 insn m)) m

  unfoldable pub rv_slt : InsnFunc
  unfolding result
  rv_slt xpr64 insn pc m =
      result xpr64 insn pc
        (of_bool (slt64 (cmp_trunc xpr64 (rs1_val insn m)) (cmp_trunc xpr64 (rs2_val insn m))))
        (tag_logic b (tag_s1 insn m) (tag_s2 insn m)) m

  unfoldable pub rv_sltu : InsnFunc
  unfolding result
  rv_sltu xpr64 insn pc m =
      result xpr64 insn pc
        (of_bool (ltb (cmp_trunc xpr64 (rs1_val insn m)) (cmp_trunc xpr64 (rs2_val insn m))))
        (tag_logic b (tag_s1 insn m) (tag_s2 insn m)) m

  unfoldable pub rv_sll : InsnFunc
  unfolding result
  rv_sll xpr64 insn pc m =
      result xpr64 insn pc
        (sext_xprlen xpr64 (shl64 (rs1_val insn m) (bit_and (rs2_val insn m) (xprlen xpr64 - 1))))
        (tag_logic b (tag_s1 insn m) (tag_s2 insn m)) m

  unfoldable pub rv_sllw : InsnFunc
  unfolding result require_xpr64
  rv_sllw xpr64 insn pc = require_xpr64 xpr64 (λ m.
      result xpr64 insn pc (sext32 (shl64 (rs1_val insn m) (bit_and (rs2_val insn m) 0x1f)))
        (tag_logic b (tag_s1 insn m) (tag_s2 insn m)) m)

  unfoldable pub rv_sra : InsnFunc
  unfolding result
  rv_sra xpr64 insn pc m =
      result xpr64 insn pc
        (sext_xprlen xpr64 (
          sar64 (sext_xprlen xpr64 (rs1_val insn m)) (bit_and (rs2_val insn m) (xprlen xpr64 - 1))))
        (tag_logic b (tag_s1 insn m) (tag_s2 insn m)) m

  unfoldable pub rv_sraw : InsnFunc
  unfolding result require_xpr64
  rv_sraw xpr64 insn pc = require_xpr64 xpr64 (λ m.
      result xpr64 insn pc
        (sext32 (sar64 (sext32 (rs1_val insn m)) (bit_and (rs2_val insn m) 0x1f)))
        (tag_logic b (tag_s1 insn m) (tag_s2 insn m)) m)

  unfoldable pub rv_srlw : InsnFunc
  unfolding result require_xpr64
  rv_srlw xpr64 insn pc = require_xpr64 xpr64 (λ m.
      result xpr64 insn pc (sext32 (shr64 (u32 (rs1_val insn m)) (bit_and (rs2_val insn m) 0x1f)))
        (tag_logic b (tag_s1 insn m) (tag_s2 insn m)) m)

  unfoldable pub rv_srl : InsnFunc
  unfolding result
  rv_srl xpr64 insn pc m =
      if xpr64
      then result xpr64 insn pc (shr64 (rs1_val insn m) (bit_and (rs2_val insn m) 0x3f))
          (tag_logic b (tag_s1 insn m) (tag_s2 insn m)) m
      else result xpr64 insn pc
          (sext32 (shr64 (u32 (rs1_val insn m)) (bit_and (rs2_val insn m) 0x1f)))
          (tag_logic b (tag_s1 insn m) (tag_s2 insn m)) m
