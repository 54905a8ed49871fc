-- ===== src/Cache.antt =====
-- The cache simulator of riscv/cachesim.h and riscv/cachesim.cc.
pub mod Sim
pub mod Access
pub mod TagWords
pub mod Lines
pub mod Wired
pub mod Geometry
pub mod Again
pub mod Traversal
pub mod Buffer
pub mod Reached
pub mod AllCaches
