-- ===== src/Tests/Exec.antt =====
-- Steps and instructions on concrete machines.
use riscv_isa_sim.Base.{
  ℕ, ◌+◌, ◌-◌, ◌*◌, ◌^◌, ◌≤◌, ◌<◌, ◌≡◌, ◌⊎◌, refl, arith, true, false, ◌==◌, if◌then◌else◌, [], ◌∷◌,
  add64, mul64, sar64, has, ◌&&◌,
}
use riscv_isa_sim.Mmu.Tables.{flush_tlb}
use riscv_isa_sim.Mmu.Translate.Tlb.Main.{flush_tlb-IsCoherent}
use riscv_isa_sim.Insns.Memory.{rv_sd}
use riscv_isa_sim.Tests.Floats.{no_floats}
use riscv_isa_sim.Isa.Opcodes.Floats.{is_float}
use riscv_isa_sim.Exec.FloatOff.{Traps, execute-float_off}
use riscv_isa_sim.Isa.Opcodes.{insn_fadd_d}
use riscv_isa_sim.Isa.Encoding.{sr_ef, sr_s}
use riscv_isa_sim.Insns.FloatTags.{rv_fmv_x_d-is_bad_return}
use riscv_isa_sim.Insns.FloatMove.{rv_fmv_x_d}
use riscv_isa_sim.Insns.Float.{frs1}
use riscv_isa_sim.Insns.Jumps.{is_bad_return}
use riscv_isa_sim.Tests.Machines.{default_build, no_return, machine, interrupted}
use riscv_isa_sim.Isa.Mulhi.{magnitude}
use riscv_isa_sim.Isa.Insn.{rd, rs1, rs2, s_imm}
use riscv_isa_sim.Hart.RegFile
use riscv_isa_sim.Hart.RegFile.{RegFile, read, read_tag, write_both}
use riscv_isa_sim.Hart.RegFile.Laws.{IsValid, reset-IsValid, write_both-IsValid}
use riscv_isa_sim.Hart.State.{State}
use riscv_isa_sim.Hart.State
use riscv_isa_sim.Hart.Machine.{Machine, done, IcacheEntry}
use riscv_isa_sim.Hart.Decode.{OpcodeMap}
use riscv_isa_sim.Insns.Macros.{rs1_val, rs2_val, next_pc}
use riscv_isa_sim.Insns.Muldiv.{rv_div, rv_rem}
use riscv_isa_sim.Insns.Memory.{return_register}
use riscv_isa_sim.Insns.Keeps.{V}
use riscv_isa_sim.Insns.Division.{rv_div-rv_rem}
use riscv_isa_sim.Insns.ReturnCopy.{IsUser, IsReady, Moved, rv_sd-return_register}
use riscv_isa_sim.Exec.Step.{Func, run_loop, run_debug, nothing, step}
use riscv_isa_sim.Exec.Progress.{run_loop_counts, run_debug_counts}
use riscv_isa_sim.Exec.Dispatch.{base_opcodes, execute}
use riscv_isa_sim.Exec.Frame.{step-IsValidXpr}

-- One instruction that does nothing.
abbrev nop : Func
nop insn pc m = done (pc + 4) m

abbrev nops : OpcodeMap Func
nops = record {
  opcode_map = 0 ∷ [];
  opcode_store = record { match_bits = 0; mask = 0; rv32 = nop; rv64 = nop } ∷ [];
}

-- Two instructions in the cache, at 0x2000 and 0x2004.
abbrev two_cached : ℕ → IcacheEntry
two_cached i = record {
  tag = if i == 0 then 0x2000 else if i == 1 then 0x2004 else 1;
  insn = 0x13;
  rv64 = true;
}

abbrev warm : Machine
warm = record machine { mmu = record machine.mmu { icache = two_cached } }

run_loop_quiet : (run_loop nops 2 2 0x2000 0 warm).thrown ≡ nothing
unfolding run_loop
run_loop_quiet = refl

run_loop_counts_example :
    (2 ≤ (run_loop nops 2 2 0x2000 0 warm).instret)
    × ((run_loop nops 2 2 0x2000 0 warm).instret < 2 + 1024)
run_loop_counts_example = run_loop_counts nops 2 0x2000 warm run_loop_quiet

run_debug_quiet : (run_debug nops 3 2 0x2000 0 warm).thrown ≡ nothing
unfolding run_debug
run_debug_quiet = refl

run_debug_counts_example : (run_debug nops 3 2 0x2000 0 warm).instret ≡ 2 + 1
run_debug_counts_example = run_debug_counts nops 2 0x2000 warm run_debug_quiet

step-IsValidXpr_example : V (
    step
      (base_opcodes default_build 0 (λ m. m) no_floats (λ _ xs. xs))
      default_build
      false
      2
      machine)
unfolding State.reset RegFile.reset
step-IsValidXpr_example =
    step-IsValidXpr default_build 0 (λ m. m) (λ m v. v) no_floats (λ _ xs. xs)
      (λ less xs d mem. mem) false 2 machine (reset-IsValid 32 true)

-- Floating point off.
abbrev without_ef : Machine
without_ef = record machine { state = record machine.state { sr = sr_s } }

is_off : (default_build.enable_fpu && has without_ef.state.sr sr_ef) ≡ false
is_off = refl

execute-float_off_example :
    Traps without_ef (execute default_build 0 (λ m. m) no_floats insn_fadd_d true 0x53 0x2000)
unfolding is_float
execute-float_off_example =
    execute-float_off default_build without_ef is_off 0 (λ m. m) no_floats insn_fadd_d true 0x53
      0x2000 refl

-- -17 in register 1 and 5 in register 2; the destination is register 3.
abbrev operands : RegFile
operands = write_both true 2 5 0 (write_both true 1 (2 ^ 64 - 17) 0 (RegFile.reset 32))

abbrev dividing : Machine
dividing = record machine { state = record interrupted { xpr = operands } }

abbrev div_insn : ℕ
div_insn = 3 * 2 ^ 7 + 1 * 2 ^ 15 + 2 * 2 ^ 20

operands-IsValid : IsValid 32 true operands
operands-IsValid =
    write_both-IsValid 32 true 2 5 0 (write_both true 1 (2 ^ 64 - 17) 0 (RegFile.reset 32))
      (write_both-IsValid 32 true 1 (2 ^ 64 - 17) 0 (RegFile.reset 32) (reset-IsValid 32 true))

lhs_small : rs1_val div_insn dividing < 2 ^ 64
unfolding rs1_val rs1 read write_both RegFile.reset
lhs_small = omega arith

rhs_small : rs2_val div_insn dividing < 2 ^ 64
unfolding rs2_val rs2 read write_both RegFile.reset
rhs_small = omega arith

rd_bound : rd div_insn < 32
unfolding rd
rd_bound = omega arith

rv_div-rv_rem_example :
    (mq : Machine) × (mr : Machine) × (rv_div default_build true div_insn 0x2000 dividing
      ≡ done (next_pc true 0x2000) mq)
    × (rv_rem default_build true div_insn 0x2000 dividing ≡ done (next_pc true 0x2000) mr)
    × (add64
          (mul64 (read mq.state.xpr (rd div_insn)) (rs2_val div_insn dividing))
          (read mr.state.xpr (rd div_insn))
        ≡ rs1_val div_insn dividing)
    × ((rs2_val div_insn dividing ≡ 0)
        ⊎ (magnitude (read mr.state.xpr (rd div_insn)) < magnitude (rs2_val div_insn dividing)))
unfolding rd
rv_div-rv_rem_example =
    rv_div-rv_rem default_build div_insn 0x2000 dividing lhs_small rhs_small operands-IsValid
      rd_bound refl

-- A return address in register 1, in user mode; the instruction stores it at 64.
abbrev returning : Machine
returning = record machine {
  mmu = flush_tlb machine.mmu;
  state = record interrupted {
    sr = 0;
    tag_mode = 1;
    xpr = write_both true 1 0x2008 1 (write_both true 2 64 0 (RegFile.reset 32));
  };
}

abbrev sd_insn : ℕ
sd_insn = 2 * 2 ^ 15 + 1 * 2 ^ 20 + 0x3023

returning-IsUser : IsUser returning.state
returning-IsUser = record {
  mode = refl;
  user = refl;
  valid =
      write_both-IsValid 32 true 1 0x2008 1 (write_both true 2 64 0 (RegFile.reset 32))
        (write_both-IsValid 32 true 2 64 0 (RegFile.reset 32) (reset-IsValid 32 true));
}

stores_x1 : rs2 sd_insn ≡ return_register
unfolding rs2
stores_x1 = refl

returning-IsReady : IsReady returning
unfolding flush_tlb
returning-IsReady = record {
  flat = record { no_tables = refl; aligned = refl; small = omega arith };
  coherent = flush_tlb-IsCoherent (record returning { mmu = machine.mmu });
  unwatched = refl;
  tagged = refl;
}

sd_address : add64 (rs1_val sd_insn returning) (s_imm sd_insn) ≡ 64
unfolding rs1_val rs1 read s_imm write_both RegFile.reset sar64
sd_address = refl

rv_sd-return_register_example :
    (after : Machine) × (rv_sd no_return true sd_insn 0x2000 returning
      ≡ done (next_pc true 0x2000) after)
    × Moved no_return sd_insn refl stores_x1
        (read returning.state.xpr return_register)
        (read_tag returning.state.xpr return_register)
        (add64 (rs1_val sd_insn returning) (s_imm sd_insn))
        after
rv_sd-return_register_example =
    rv_sd-return_register no_return sd_insn refl stores_x1 0x2000 returning returning-IsUser
      returning-IsReady (omega (arith, sd_address)) (rw sd_address refl)

-- Floating point on, and the return address in register 1 as above; the instruction moves register 0
-- of floating point to register 1.
abbrev floating : Machine
floating = record returning { state = record returning.state { sr = sr_ef } }

is_on : (default_build.enable_fpu && has floating.state.sr sr_ef) ≡ true
is_on = refl

floating-IsValid : IsValid 32 true floating.state.xpr
floating-IsValid = returning-IsUser.valid

fmv_destination : rd 0xe20000d3 ≡ 1
unfolding rd
fmv_destination = refl

rv_fmv_x_d-is_bad_return_example :
    (after : Machine) × (rv_fmv_x_d default_build no_floats true 0xe20000d3 0x2000 floating
      ≡ done (next_pc true 0x2000) after)
    × (read after.state.xpr (rd 0xe20000d3) ≡ frs1 0xe20000d3 floating)
    × ((jump : ℕ)
        → is_bad_return default_build jump after ≡ is_bad_return default_build jump floating)
unfolding rd
rv_fmv_x_d-is_bad_return_example =
    rv_fmv_x_d-is_bad_return default_build floating is_on no_floats 0xe20000d3 0x2000
      floating-IsValid (omega arith) (omega arith)
