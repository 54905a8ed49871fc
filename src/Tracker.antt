-- ===== src/Tracker.antt =====
-- The tracker of riscv/tracker.h and riscv/tracker.cc: where the values in registers and memory come
-- from, as a graph of nodes with counts of their references.
pub mod Store
pub mod Graph
pub mod Balance
pub mod Cleanup
pub mod Link
pub mod Slots
pub mod Kept
pub mod Runs
pub mod Legal
