-- ===== src/Tests.antt =====
-- Runs of the definitions on concrete inputs, and the theorems applied at them.
pub mod Machines
pub mod Floats
pub mod Isa
pub mod Hart
pub mod Port
pub mod Opcodes
pub mod Turns
pub mod Decode
pub mod Cache
pub mod Exec
pub mod Stats
pub mod Tracker
pub mod Rocc
pub mod System
