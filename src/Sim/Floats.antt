-- ===== src/Sim/Floats.antt =====
-- The operations on f64 and f32 that the simulated boards use; a float is its bit pattern.
use riscv_exam_computer.Base.{ℕ, Bool, Option, Str}
use riscv_exam_computer.Base.Words.{F32}

abbrev pub F64 : Type 0
F64 = ℕ

-- `lit` gives the float of a literal of the source, `of_nat` and `to_u64` are casts, `narrow` is the cast
-- to f32, and `duration` is `Duration::from_secs_f64`, in nanoseconds.
pub record Floats : Type 0 where
  pub lit : Str → F64
  pub add : F64 → F64 → F64
  pub sub : F64 → F64 → F64
  pub mul : F64 → F64 → F64
  pub div : F64 → F64 → F64
  pub lt : F64 → F64 → Bool
  pub round : F64 → F64
  pub clamp : F64 → F64 → F64 → F64
  pub of_nat : ℕ → F64
  pub to_u64 : F64 → ℕ
  pub narrow : F64 → F32
  pub div_f32 : F32 → F32 → F32
  pub lit_f32 : Str → F32
  pub duration : F64 → ℕ
  pub parse : Str → Option F64
