-- ===== src/Isa.antt =====
-- The parts of the instruction set that every component reads: the constants of
-- riscv/encoding.h, the fields of an instruction word (riscv/decode.h) and 64-bit high products
-- (riscv/mulhi.h).
pub mod Encoding
pub mod Insn
pub mod Opcodes
pub mod Mulhi
