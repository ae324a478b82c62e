-- ===== src/Base/Pieces.antt =====
-- What splitting and trimming do to a text without separators.
use Prim.Native.Nat.{ℕ}
use mathlib.Core.Path.{◌≡◌, refl, ap}
use mathlib.Core.Bool.{Bool, true, false}
use mathlib.Core.Logic.{inl, inr}
use mathlib.Core.List.{[], ◌∷◌, ◌++◌}
use riscv_exam_computer.Base.Lists.{All, any}
use riscv_exam_computer.Base.Tests.{Bool-cases}
use riscv_exam_computer.Base.Text.{
  Str, split, trim, trim_start, trim_end, trim_end_matches, is_whitespace,
}

abbrev pub Lacks : (ℕ → Bool) → Str → Type 0
Lacks p s = All (λ c. p c ≡ false) s

pub any-Lacks : (p : ℕ → Bool) (s : Str) → any p s ≡ false → Lacks p s
any-Lacks p [] h = tt
any-Lacks p (c ∷ s) h = elim (Bool-cases (p c)) [
  | inl e ↦ absurd (let q = rw e at h in cc)
  | inr e ↦ (e, any-Lacks p s (rw e at h))
]

pub split-Lacks : (p : ℕ → Bool) (s : Str) → Lacks p s → split p s ≡ s ∷ []
unfolding split
split-Lacks p [] h = refl
split-Lacks p (c ∷ s) (e, h) = rw (e, split-Lacks p s h) refl

-- The first piece, and the separator behind it.
pub split-first :
    (p : ℕ → Bool) (s : Str) (c : ℕ) (t : Str)
    → Lacks p s
    → p c ≡ true
    → split p (s ++ c ∷ t) ≡ s ∷ split p t
unfolding split
split-first p [] c t h sep = rw sep refl
split-first p (d ∷ s) c t (e, h) sep = rw (e, split-first p s c t h sep) refl

trim_start-Lacks : (s : Str) → Lacks is_whitespace s → trim_start is_whitespace s ≡ s
unfolding trim_start
trim_start-Lacks [] h = refl
trim_start-Lacks (c ∷ s) (e, h) = rw e refl

trim_end-Lacks : (s : Str) → Lacks is_whitespace s → trim_end_matches is_whitespace s ≡ s
unfolding trim_end_matches
trim_end-Lacks [] h = refl
trim_end-Lacks (c ∷ s) (e, h) = rw e (ap (λ r. c ∷ r) (trim_end-Lacks s h))

pub trim-Lacks : (s : Str) → Lacks is_whitespace s → trim s ≡ s
unfolding trim trim_end
trim-Lacks s h = rw (trim_start-Lacks s h) (trim_end-Lacks s h)
