-- ===== src/Insns.antt =====
-- The instructions: one function for each file of riscv/insns, over the macros of riscv/decode.h.
pub mod Macros
pub mod Alu
pub mod Muldiv
pub mod Jumps
pub mod Memory
pub mod Amo
pub mod System
pub mod Keeps
pub mod CsrKeeps
pub mod Division
pub mod ReturnCopy
pub mod Float
pub mod FloatArith
pub mod FloatMove
pub mod FloatConvert
pub mod FloatMemory
pub mod FloatKeeps
pub mod FloatTags
