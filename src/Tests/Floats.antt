-- ===== src/Tests/Floats.antt =====
-- Floating point at concrete inputs: a library of software floating point that does not compute.
use riscv_isa_sim.Base.{false}
use riscv_isa_sim.Insns.Float.{Softfloat, flagged}

abbrev pub no_floats : Softfloat
no_floats = record {
  f32_mul_add = λ _ _ _ _. flagged 0 0;
  f64_mul_add = λ _ _ _ _. flagged 0 0;
  f32_div = λ _ _ _. flagged 0 0;
  f64_div = λ _ _ _. flagged 0 0;
  f32_sqrt = λ _ _. flagged 0 0;
  f64_sqrt = λ _ _. flagged 0 0;
  f32_eq = λ _ _. flagged 0 0;
  f64_eq = λ _ _. flagged 0 0;
  f32_le = λ _ _. flagged 0 0;
  f64_le = λ _ _. flagged 0 0;
  f32_lt = λ _ _. flagged 0 0;
  f64_lt = λ _ _. flagged 0 0;
  f32_le_quiet = λ _ _. flagged 0 0;
  f64_le_quiet = λ _ _. flagged 0 0;
  f32_lt_quiet = λ _ _. flagged 0 0;
  f64_lt_quiet = λ _ _. flagged 0 0;
  is_nan_f32 = λ _. false;
  is_nan_f64 = λ _. false;
  f32_classify = λ _. 0;
  f64_classify = λ _. 0;
  f32_to_f64 = λ _ _. flagged 0 0;
  f64_to_f32 = λ _ _. flagged 0 0;
  i32_to_f32 = λ _ _. flagged 0 0;
  ui32_to_f32 = λ _ _. flagged 0 0;
  i64_to_f32 = λ _ _. flagged 0 0;
  ui64_to_f32 = λ _ _. flagged 0 0;
  i32_to_f64 = λ _ _. flagged 0 0;
  ui32_to_f64 = λ _ _. flagged 0 0;
  i64_to_f64 = λ _ _. flagged 0 0;
  ui64_to_f64 = λ _ _. flagged 0 0;
  f32_to_i32 = λ _ _. flagged 0 0;
  f32_to_ui32 = λ _ _. flagged 0 0;
  f32_to_i64 = λ _ _. flagged 0 0;
  f32_to_ui64 = λ _ _. flagged 0 0;
  f64_to_i32 = λ _ _. flagged 0 0;
  f64_to_ui32 = λ _ _. flagged 0 0;
  f64_to_i64 = λ _ _. flagged 0 0;
  f64_to_ui64 = λ _ _. flagged 0 0;
}
