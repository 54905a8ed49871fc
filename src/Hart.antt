-- ===== src/Hart.antt =====
-- One hart of the simulator: `state_t` and `processor_t` of riscv/processor.h and the functions of
-- riscv/processor.cc.
pub mod RegFile
pub mod State
pub mod Machine
pub mod Keeps
pub mod Interrupt
pub mod Status
pub mod Csr
pub mod Trap
pub mod Timer
pub mod Decode
