-- ===== src/Tests/Opcodes.antt =====
-- A word of the opcode table.
use riscv_isa_sim.Base.{◌≡◌, refl, List, some}
use mathlib.Core.List.{Memᴰ}
use mathlib.Core.List.Memᴰ.{head}
use riscv_isa_sim.Hart.Decode.{InsnDesc}
use riscv_isa_sim.Isa.Opcodes.{InsnName, desc, insn_fmv_s_x, registered, opcodes_1}
use riscv_isa_sim.Disasm.{Source, lookup_args}
use riscv_isa_sim.Disasm.Table.{disassembler}
use riscv_isa_sim.Disasm.Found.{lookup_args-registered}
use riscv_isa_sim.Isa.Opcodes.Unique.{registered_unique}

abbrev fmv_s_x : InsnDesc InsnName
fmv_s_x = desc insn_fmv_s_x 0xf000_0053 0xfff0_707f

is_registered : Memᴰ fmv_s_x registered
unfolding registered opcodes_1
is_registered = head refl

registered_unique_example : fmv_s_x ≡ fmv_s_x
registered_unique_example =
    registered_unique 0xf005_8553 fmv_s_x fmv_s_x is_registered is_registered refl refl

lookup_args-registered_example :
    (sources : List Source) × (lookup_args disassembler 0xf0000053 ≡ some sources)
lookup_args-registered_example = lookup_args-registered fmv_s_x 0xf0000053 is_registered refl
