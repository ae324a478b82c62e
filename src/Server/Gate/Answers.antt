-- ===== src/Server/Gate/Answers.antt =====
-- Statuses that tests decide.
use riscv_exam_computer.Base.{
  ℕ, ◌≡◌, ◌↔◌, refl, subst, Bool, true, false, ◌&&◌, some, arith, if◌then◌else◌, Str,
}

-- A status that two tests decide, each of them of a property.
pub answers_iff :
    {P Q : Type 0} {status : ℕ} (no_code p q : Bool)
    → (p ≡ true) ↔ P
    → (q ≡ true) ↔ Q
    → status ≡ (if p && q then (if no_code then 303 else 200) else 403)
    → ((status ≡ (if no_code then 303 else 200)) ↔ (P × Q)) × ((status ≡ 403) ↔ ¬ (P × Q))
answers_iff no_code true true tp tq h = (
  (λ e. (tp.0 refl, tq.0 refl), λ e. h),
  (λ e. absurd (ground arith), λ e. absurd (e (tp.0 refl, tq.0 refl))),
)
answers_iff no_code false q tp tq h = (
  (λ e. absurd (ground arith), λ e. let bad = tp.1 e.0 in absurd (cc)),
  (λ e b. let bad = tp.1 b.0 in absurd (cc), λ e. h),
)
answers_iff no_code true false tp tq h = (
  (λ e. absurd (ground arith), λ e. let bad = tq.1 e.1 in absurd (cc)),
  (λ e b. let bad = tq.1 b.1 in absurd (cc), λ e. h),
)

-- The same for one test on a text that may be missing.
pub answer_iff :
    {P : Str → Type 0} {status : ℕ} (no_code q : Bool) (text : Str)
    → (q ≡ true) ↔ P text
    → status ≡ (if q then (if no_code then 303 else 200) else 403)
    → let has = (t : Str) × (some text ≡ some t) × P t in
      ((status ≡ 303) ↔ ((no_code ≡ true) × has)) × ((status ≡ 403) ↔ ((true ≡ true) × ¬ has))
answer_iff true true text tq h = (
  (λ e. (refl, (text, refl, tq.0 refl)), λ e. h),
  (λ e. absurd (ground arith), λ e. absurd (e.1 (text, refl, tq.0 refl))),
)
answer_iff false true text tq h = (
  (λ e. absurd (ground arith), λ e. absurd (cc (e.0))),
  (λ e. absurd (ground arith), λ e. absurd (e.1 (text, refl, tq.0 refl))),
)
answer_iff {P} no_code false text tq h = (
  (λ e. absurd (ground arith), λ (c, (t, same, p)). let bad = tq.1 (subst P (cc) p) in absurd (cc)),
  (λ e. (refl, λ (t, same, p). let bad = tq.1 (subst P (cc) p) in absurd (cc)), λ e. h),
)
