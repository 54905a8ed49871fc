-- ===== src/Insns/Keeps.antt =====
-- Every instruction of riscv/insns but those of floating point leaves the integer registers well
-- formed, register 0 above all.
use riscv_isa_sim.Base.{
  minus_one, ℕ, ◌==◌, ◌&&◌, Bool, true, false, add64, arith, length-set, get_or-set_ne, u8, has,
  bit_and, not64,
}
use riscv_isa_sim.Build.{Build}
use riscv_isa_sim.Tags.{tag_pc, tag_data, tag_null}
use riscv_isa_sim.Hart.RegFile.{RegFile, write_both, write_tag, read, read_tag}
use riscv_isa_sim.Hart.RegFile.Laws.{IsValid, write_both-IsValid}
use riscv_isa_sim.Isa.Insn.{rd, i_imm, s_imm}
use riscv_isa_sim.Hart.State.{State}
use riscv_isa_sim.Hart.Machine.{Machine, M, done, modify_state, ◌>>=◌, ◌>>◌}
use riscv_isa_sim.Hart.Keeps.{returned, threw, Keeps, After-bind, After-if}
use riscv_isa_sim.Hart.Status.{set_status}
use riscv_isa_sim.Hart.Trap.{sret, sret_status}
use riscv_isa_sim.Mmu.Memory.{load_tagged, store_tagged, TaggedReg}
use riscv_isa_sim.Mmu.Keeps.{OfState, load_tagged-Keeps, store_tagged-Keeps, store_tag_value-Keeps}
use riscv_isa_sim.Insns.Macros.{
  sext_xprlen, write_rd_and_tag, write_reg_tag, next_pc, set_pc, result, require_xpr64, rs1_val,
  rs2_val, tag_s1, tag_s2, jump_target,
}
use riscv_isa_sim.Insns.Jumps.{branch_if, rv_jal, rv_jalr, tag_trap_if, is_bad_return}
use riscv_isa_sim.Insns.Memory.{
  load_insn, store_insn, clear_loaded_tag, clear_stored_tag, is_data_access,
}
use riscv_isa_sim.Insns.Muldiv.{rv_div, rv_rem, int64_min}
use riscv_isa_sim.Insns.Amo.{amo, store_conditional}

abbrev pub IsValidXpr : State → Type 0
IsValidXpr s = IsValid 32 true s.xpr

abbrev pub V : Machine → Type 0
V = OfState IsValidXpr

write_tag-IsValid :
    (n : ℕ) (zero_reg : Bool) (i t : ℕ) (r : RegFile)
    → IsValid n zero_reg r
    → IsValid n zero_reg (write_tag zero_reg i t r)
unfolding write_tag read read_tag
write_tag-IsValid n zero_reg i t r h =
    ground (arith, length-set r.tags i (u8 t), get_or-set_ne r.tags i 0 (u8 t) 0)

pub write_reg_tag-Keeps : (reg tag : ℕ) → Keeps V (write_reg_tag reg tag)
unfolding write_reg_tag
write_reg_tag-Keeps reg tag m v =
    returned tt (record m { state = record m.state { xpr = write_tag true reg tag m.state.xpr } })
      (write_tag-IsValid 32 true reg tag m.state.xpr v)

pub write_rd_and_tag-Keeps : (insn value tag : ℕ) → Keeps V (write_rd_and_tag insn value tag)
unfolding write_rd_and_tag
write_rd_and_tag-Keeps insn value tag m v =
    returned tt
      (record m {
        state = record m.state { xpr = write_both true (rd insn) value tag m.state.xpr };
      })
      (write_both-IsValid 32 true (rd insn) value tag m.state.xpr v)

pub done-Keeps : (a : ℕ) → Keeps V (done a)
done-Keeps a m v = returned a m v

pub result-Keeps : (xpr64 : Bool) (insn pc value tag : ℕ) → Keeps V (result xpr64 insn pc value tag)
unfolding result
result-Keeps xpr64 insn pc value tag m v =
    After-bind (write_rd_and_tag insn value tag) (λ _. done (next_pc xpr64 pc)) m
      (write_rd_and_tag-Keeps insn value tag m v) (λ _. done-Keeps (next_pc xpr64 pc))

pub require_xpr64-Keeps :
    (xpr64 : Bool) (body : M ℕ) → Keeps V body → Keeps V (require_xpr64 xpr64 body)
unfolding require_xpr64
require_xpr64-Keeps xpr64 body keep m v = After-if _ _ _ (keep m v) (threw _ m v)

set_pc-Keeps : (xpr64 : Bool) (x : ℕ) → Keeps V (set_pc xpr64 x)
unfolding set_pc
set_pc-Keeps xpr64 x m v = returned _ m v

pub branch_if-Keeps : (test xpr64 : Bool) (insn pc : ℕ) → Keeps V (branch_if test xpr64 insn pc)
unfolding branch_if
branch_if-Keeps test xpr64 insn pc m v = After-if _ _ _ (set_pc-Keeps xpr64 _ m v) (returned _ m v)

tag_trap_if-V : (test : Bool) (m : Machine) → V m → V (tag_trap_if test m)
unfolding tag_trap_if
tag_trap_if-V true m v = v
tag_trap_if-V false m v = v

pub rv_jal-Keeps : (xpr64 : Bool) (insn pc : ℕ) → Keeps V (rv_jal xpr64 insn pc)
unfolding rv_jal
rv_jal-Keeps xpr64 insn pc m v =
    After-bind (write_rd_and_tag insn (next_pc xpr64 pc) tag_pc)
      (λ _. set_pc xpr64 (jump_target insn pc)) m (write_rd_and_tag-Keeps insn _ _ m v)
      (λ _. set_pc-Keeps xpr64 _)

pub rv_jalr-Keeps : (b : Build) (xpr64 : Bool) (insn pc : ℕ) → Keeps V (rv_jalr b xpr64 insn pc)
unfolding rv_jalr
rv_jalr-Keeps b xpr64 insn pc m v =
    let m1 = tag_trap_if (is_bad_return b insn m) m in
    let m2 = tag_trap_if (b.no_partial_copy && has (tag_s1 insn m) tag_data) m1 in
    let target = bit_and (add64 (rs1_val insn m) (i_imm insn)) (not64 1) in
    After-bind (write_rd_and_tag insn (next_pc xpr64 pc) tag_pc) (λ _. set_pc xpr64 target) m2
      (write_rd_and_tag-Keeps insn _ _ m2 (tag_trap_if-V _ m1 (tag_trap_if-V _ m v)))
      (λ _. set_pc-Keeps xpr64 target)

clear_loaded_tag-Keeps : (b : Build) (addr tag : ℕ) → Keeps V (clear_loaded_tag b addr tag)
unfolding clear_loaded_tag
clear_loaded_tag-Keeps b addr tag m v =
    After-if _ _ _ (store_tag_value-Keeps IsValidXpr _ addr m v) (returned _ m v)

pub load_insn-Keeps :
    (b : Build) (garbage bytes : ℕ) (signed xpr64 : Bool) (insn pc : ℕ)
    → Keeps V (load_insn b garbage bytes signed xpr64 insn pc)
unfolding load_insn
load_insn-Keeps b garbage bytes signed xpr64 insn pc m v =
    let addr = add64 (rs1_val insn m) (i_imm insn) in
    let m' = tag_trap_if (is_data_access b insn addr m) m in
    After-bind (load_tagged garbage bytes signed addr)
      (λ r. clear_loaded_tag b addr r.tag >> result xpr64 insn pc r.val r.tag) m'
      (load_tagged-Keeps IsValidXpr garbage bytes signed addr m' (tag_trap_if-V _ m v))
      (λ r m1 v1.
        After-bind (clear_loaded_tag b addr r.tag) (λ _. result xpr64 insn pc r.val r.tag) m1
          (clear_loaded_tag-Keeps b addr r.tag m1 v1) (λ _. result-Keeps xpr64 insn pc r.val r.tag))

clear_stored_tag-Keeps : (b : Build) (insn : ℕ) → Keeps V (clear_stored_tag b insn)
unfolding clear_stored_tag
clear_stored_tag-Keeps b insn m v = After-if _ _ _ (write_reg_tag-Keeps _ _ m v) (returned _ m v)

pub store_insn-Keeps :
    (b : Build) (bytes : ℕ) (tag : ℕ → Machine → ℕ) (xpr64 : Bool) (insn pc : ℕ)
    → Keeps V (store_insn b bytes tag xpr64 insn pc)
unfolding store_insn
store_insn-Keeps b bytes tag xpr64 insn pc m v =
    let addr = add64 (rs1_val insn m) (s_imm insn) in
    let m' = tag_trap_if (is_data_access b insn addr m) m in
    After-bind (store_tagged bytes addr (rs2_val insn m) (tag insn m))
      (λ _. clear_stored_tag b insn >> done (next_pc xpr64 pc)) m'
      (store_tagged-Keeps IsValidXpr bytes addr _ _ m' (tag_trap_if-V _ m v))
      (λ _ m1 v1.
        After-bind (clear_stored_tag b insn) (λ _. done (next_pc xpr64 pc)) m1
          (clear_stored_tag-Keeps b insn m1 v1) (λ _. done-Keeps (next_pc xpr64 pc)))

store_then-Keeps :
    (bytes addr val tag : ℕ) (xpr64 : Bool) (insn pc value tag_rd : ℕ)
    → Keeps V (store_tagged bytes addr val tag >> result xpr64 insn pc value tag_rd)
store_then-Keeps bytes addr val tag xpr64 insn pc value tag_rd m v =
    After-bind (store_tagged bytes addr val tag) (λ _. result xpr64 insn pc value tag_rd) m
      (store_tagged-Keeps IsValidXpr bytes addr val tag m v)
      (λ _. result-Keeps xpr64 insn pc value tag_rd)

pub amo-Keeps :
    (garbage bytes : ℕ) (signed : Bool) (op : ℕ → ℕ → ℕ) (tag tag_rd : TaggedReg → ℕ → ℕ)
    (xpr64 : Bool) (insn pc : ℕ)
    → Keeps V (amo garbage bytes signed op tag tag_rd xpr64 insn pc)
unfolding amo
amo-Keeps garbage bytes signed op tag tag_rd xpr64 insn pc m v =
    let addr = rs1_val insn m in
    After-bind (load_tagged garbage bytes signed addr)
      (λ r.
        store_tagged bytes addr (op (rs2_val insn m) r.val) (tag r (tag_s2 insn m))
        >> result xpr64 insn pc r.val (tag_rd r (tag_s2 insn m)))
      m (load_tagged-Keeps IsValidXpr garbage bytes signed addr m v)
      (λ r m' v'.
        store_then-Keeps bytes addr _ _ xpr64 insn pc r.val (tag_rd r (tag_s2 insn m)) m' v')

pub load_reserved-Keeps :
    (garbage bytes : ℕ) (xpr64 : Bool) (insn pc : ℕ)
    → Keeps V (λ m.
      (do
        modify_state (λ s. record s { load_reservation = rs1_val insn m })
        v ← load_tagged garbage bytes true (rs1_val insn m)
        result xpr64 insn pc v.val v.tag)
        m)
load_reserved-Keeps garbage bytes xpr64 insn pc m v =
    let m' = record m { state = record m.state { load_reservation = rs1_val insn m } } in
    After-bind (load_tagged garbage bytes true (rs1_val insn m))
      (λ r. result xpr64 insn pc r.val r.tag) m'
      (load_tagged-Keeps IsValidXpr garbage bytes true (rs1_val insn m) m' v)
      (λ r. result-Keeps xpr64 insn pc r.val r.tag)

pub store_conditional-Keeps :
    (bytes : ℕ) (xpr64 : Bool) (insn pc : ℕ) → Keeps V (store_conditional bytes xpr64 insn pc)
unfolding store_conditional
store_conditional-Keeps bytes xpr64 insn pc m v =
    After-if _ _ _
      (store_then-Keeps bytes (rs1_val insn m) (rs2_val insn m) (tag_s2 insn m) xpr64 insn pc 0
        tag_null m v)
      (result-Keeps xpr64 insn pc 1 tag_null m v)

pub sret-Keeps : (b : Build) (xpr64 : Bool) → Keeps V (sret b xpr64)
unfolding sret set_status
sret-Keeps b xpr64 m v =
    After-if _ _ _ (returned _ (set_status b (sret_status m.state.sr) m) v) (threw _ m v)

pub rv_div-Keeps : (b : Build) (xpr64 : Bool) (insn pc : ℕ) → Keeps V (rv_div b xpr64 insn pc)
unfolding rv_div
rv_div-Keeps b xpr64 insn pc m v =
    let lhs = sext_xprlen xpr64 (rs1_val insn m) in
    let rhs = sext_xprlen xpr64 (rs2_val insn m) in
    After-if (rhs == 0) _ _ (result-Keeps xpr64 insn pc _ _ m v) (
      After-if (lhs == int64_min && rhs == minus_one) _ _ (result-Keeps xpr64 insn pc _ _ m v)
        (result-Keeps xpr64 insn pc _ _ m v))

pub rv_rem-Keeps : (b : Build) (xpr64 : Bool) (insn pc : ℕ) → Keeps V (rv_rem b xpr64 insn pc)
unfolding rv_rem
rv_rem-Keeps b xpr64 insn pc m v =
    let lhs = sext_xprlen xpr64 (rs1_val insn m) in
    let rhs = sext_xprlen xpr64 (rs2_val insn m) in
    After-if (rhs == 0) _ _ (result-Keeps xpr64 insn pc _ _ m v) (
      After-if (lhs == int64_min && rhs == minus_one) _ _ (result-Keeps xpr64 insn pc _ _ m v)
        (result-Keeps xpr64 insn pc _ _ m v))
