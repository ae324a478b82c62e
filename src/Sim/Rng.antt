-- ===== src/Sim/Rng.antt =====
-- `Rng`: xorshift64*.
pub mod Seeds
use Prim.Native.Nat.{bit_or, bit_xor}
use riscv_exam_computer.Base.{ℕ, ◌+◌, ◌*◌, ◌/◌, ◌%◌, ◌^◌, ◌≡◌, refl, Bool, txt}
use riscv_exam_computer.Base.Words.{u64_mod}
use riscv_exam_computer.Sim.Floats.{F64, Floats}

unfoldable pub new : ℕ → ℕ
new seed = bit_or (seed * 0x9E3779B97F4A7C15 % u64_mod) 1

-- The three shifts of `next`.
unfoldable pub right12 : ℕ → ℕ
right12 s = bit_xor s (s / 2 ^ 12)

unfoldable pub left25 : ℕ → ℕ
left25 s = bit_xor s (s * 2 ^ 25 % u64_mod)

unfoldable pub right27 : ℕ → ℕ
right27 s = bit_xor s (s / 2 ^ 27)

-- The state after a draw.
unfoldable pub advance : ℕ → ℕ
unfolding right12 left25 right27
advance s = right27 (left25 (right12 s))

-- The draw and the state after it.
unfoldable pub next : ℕ → ℕ × ℕ
unfolding advance
next s = (advance s * 0x2545F4914F6CDD1D % u64_mod, advance s)

next_runs : next (new 1) ≡ (973819730272012410, 285734347287933762)
unfolding next new
next_runs = refl

module _ (f : Floats) where
  open f use {lt, add, sub, mul, div, of_nat}

  unfoldable pub unit : ℕ → F64 × ℕ
  unfolding next
  unit s = let (n, t) = next s in (div (of_nat (n / 2 ^ 11)) (of_nat (2 ^ 53)), t)

  unfoldable pub range : F64 → F64 → ℕ → F64 × ℕ
  unfolding unit
  range lo hi s = let (u, t) = unit s in (add lo (mul (sub hi lo) u), t)

  unfoldable pub chance : F64 → ℕ → Bool × ℕ
  unfolding unit
  chance p s = let (u, t) = unit s in (lt u p, t)
