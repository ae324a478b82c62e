-- ===== src/Base/Words.antt =====
-- Machine integers, and the bit patterns of floats.
use Prim.Native.Nat.{ℕ, ◌+◌, ◌/◌, ◌%◌, ◌^◌}
use mathlib.Core.Bool.{Bool, not}
use riscv_exam_computer.Base.Tests.{◌==◌}

abbrev pub u64_mod : ℕ
u64_mod = 2 ^ 64

-- `n += 1` on a u64 in a release build.
abbrev pub next_u64 : ℕ → ℕ
next_u64 n = (n + 1) % u64_mod

-- A signed integer: `negsuc n` is -(n + 1).
pub data ℤ : Type 0 where
  pos : ℕ → ℤ
  negsuc : ℕ → ℤ

-- An f32 by its bit pattern; infinities and NaNs have all exponent bits set.
abbrev pub F32 : Type 0
F32 = ℕ

unfoldable pub is_finite : F32 → Bool
is_finite b = not (b / 2 ^ 23 % 256 == 255)
