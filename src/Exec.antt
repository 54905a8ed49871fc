-- ===== src/Exec.antt =====
-- Running instructions: the instruction cache of riscv/mmu.h and `step` of riscv/processor.cc.
pub mod Icache
pub mod Step
pub mod Progress
pub mod Keeps
pub mod Decoded
pub mod Executed
pub mod Frame
pub mod Dispatch
pub mod FloatOff
pub mod PcTag
