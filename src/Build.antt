-- ===== src/Build.antt =====
-- The switches of the build (config.h) and of the tag policy (the TAG_POLICY macros).
use riscv_isa_sim.Base.{Bool}

pub record Build : Type 0 where
  pub enable_64bit : Bool
  pub enable_fpu : Bool
  pub no_return_copy : Bool
  pub no_partial_copy : Bool
