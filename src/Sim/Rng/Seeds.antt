-- ===== src/Sim/Rng/Seeds.antt =====
-- The values that the generator's state can have.
use Prim.Native.Nat.{digits, bit_or, bit_xor, bit_or-bitwise, bit_xor-bitwise, differ}
use riscv_exam_computer.Base.{ℕ, zero, suc, ◌*◌, ◌/◌, ◌%◌, ◌^◌, ◌<◌, ◌≢◌, sym, subst, max, arith}
use riscv_exam_computer.Base.Words.{u64_mod}
use riscv_exam_computer.SebFile.Keys.Bits.{bit_or-zero, bit_xor-zero}
use riscv_exam_computer.Sim.Rng.{new, right12, left25, right27, advance}

differ-lt : (x y : ℕ) → x < 2 → y < 2 → differ x y < 2
differ-lt zero y p q = q
differ-lt (suc x) zero p q = p
differ-lt (suc zero) (suc y) p q = omega arith
differ-lt (suc (suc x)) (suc y) p q = absurd (omega arith)

-- An operation on binary digits keeps numbers below a power of two.
digits-lt :
    (op : ℕ → ℕ → ℕ) (n k a b : ℕ)
    → ((x y : ℕ) → x < 2 → y < 2 → op x y < 2)
    → a < 2 ^ k
    → b < 2 ^ k
    → digits (λ b. b) op n a b < 2 ^ k
digits-lt op zero k a b h p q = q
digits-lt op (suc n) k zero b h p q = q
digits-lt op (suc n) zero (suc a) b h p q = absurd (omega arith)
digits-lt op (suc n) (suc k) (suc a) b h p q = omega (
  arith,
  digits-lt op n k (suc a / 2) (b / 2) h (omega arith) (omega arith),
  h (suc a % 2) (b % 2) (omega arith) (omega arith),
)

bit_xor-lt : (a b : ℕ) → a < u64_mod → b < u64_mod → bit_xor a b < u64_mod
bit_xor-lt a b p q =
    subst (λ n. n < u64_mod) (sym (bit_xor-bitwise a b)) (digits-lt differ a 64 a b differ-lt p q)

bit_or-lt : (a b : ℕ) → a < u64_mod → b < u64_mod → bit_or a b < u64_mod
bit_or-lt a b p q =
    subst (λ n. n < u64_mod) (sym (bit_or-bitwise a b))
      (digits-lt max a 64 a b (λ x y p q. omega arith) p q)

abbrev pub IsSeeded : ℕ → Type 0
IsSeeded s = (s ≢ 0) × (s < u64_mod)

new-IsSeeded : (seed : ℕ) → IsSeeded (new seed)
unfolding new
new-IsSeeded seed =
    let start = seed * 0x9E3779B97F4A7C15 % u64_mod in
    (
      λ h. absurd (omega (arith, (bit_or-zero start 1 h).1)),
      bit_or-lt start 1 (omega arith) (omega arith),
    )

right12-IsSeeded : (s : ℕ) → IsSeeded s → IsSeeded (right12 s)
unfolding right12
right12-IsSeeded s (p, q) = (
  λ h. p (omega (arith, bit_xor-zero s (s / 2 ^ 12) h)),
  bit_xor-lt s (s / 2 ^ 12) q (omega arith),
)

right27-IsSeeded : (s : ℕ) → IsSeeded s → IsSeeded (right27 s)
unfolding right27
right27-IsSeeded s (p, q) = (
  λ h. p (omega (arith, bit_xor-zero s (s / 2 ^ 27) h)),
  bit_xor-lt s (s / 2 ^ 27) q (omega arith),
)

left25-IsSeeded : (s : ℕ) → IsSeeded s → IsSeeded (left25 s)
unfolding left25
left25-IsSeeded s (p, q) = (
  λ h. p (omega (arith, bit_xor-zero s (s * 2 ^ 25 % u64_mod) h)),
  bit_xor-lt s (s * 2 ^ 25 % u64_mod) q (omega arith),
)

advance-IsSeeded : (s : ℕ) → IsSeeded s → IsSeeded (advance s)
unfolding advance
advance-IsSeeded s h =
    right27-IsSeeded (left25 (right12 s)) (left25-IsSeeded (right12 s) (right12-IsSeeded s h))

-- The state after a number of draws.
abbrev pub drawn : ℕ → ℕ → ℕ
drawn zero s = s
drawn (suc n) s = drawn n (advance s)

drawn_from-IsSeeded : (n s : ℕ) → IsSeeded s → IsSeeded (drawn n s)
drawn_from-IsSeeded zero s h = h
drawn_from-IsSeeded (suc n) s h = drawn_from-IsSeeded n (advance s) (advance-IsSeeded s h)

-- From any seed and after any number of draws, the state of the generator is a 64-bit number and
-- not zero, the one value at which it would be stuck.
pub drawn-IsSeeded : (seed n : ℕ) → IsSeeded (drawn n (new seed))
drawn-IsSeeded seed n = drawn_from-IsSeeded n (new seed) (new-IsSeeded seed)
