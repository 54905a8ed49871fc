-- ===== src/Mmu.antt =====
-- `mmu_t` of riscv/mmu.h and riscv/mmu.cc: address translation, TLB, instruction cache and tags.
pub mod Tables
pub mod Walk
pub mod Translate
pub mod Memory
pub mod Keeps
