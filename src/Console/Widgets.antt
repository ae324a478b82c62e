-- ===== src/Console/Widgets.antt =====
-- app/ui.rs: the button that wants a second click, and polling.
pub mod Confirming
pub mod Polling
use riscv_exam_computer.Base.{
  ℕ, zero, suc, ◌+◌, ◌*◌, ◌≤◌, ◌≡◌, refl, Bool, true, false, not, Option, none, some, List, [], ◌∷◌,
  ◌++◌, arith, if◌then◌else◌, Result, ok, err, is_ok, Str, txt,
}

-- What happens to a `ConfirmButton`; each first click sets a timer of four seconds.
pub data Press : Type 0 where
  click timeout blur : Press

-- Whether it is armed, and whether it confirms.
unfoldable pub press : Press → Bool → Bool × Bool
press Press.click true = (false, true)
press Press.click false = (true, false)
press Press.timeout armed = (false, false)
press Press.blur armed = (false, false)

-- The presses of a row, each with whether it confirms.
unfoldable pub trace : Bool → List Press → List (Press × Bool)
unfolding press
trace armed [] = []
trace armed (p ∷ ps) = (p, (press p armed).1) ∷ trace (press p armed).0 ps

unfoldable pub button_class : Str → Bool → Str
unfolding txt
button_class class armed = if armed then class ++ txt " armed" else class

-- The variables of a poll: a fetch is under way, how many are, what was fetched last, and whether the
-- connection is lost.
pub record Poll {ℓ} (T : Type ℓ) : Type ℓ where
  pub busy : Bool
  pub fetches : ℕ
  pub sink : Option T
  pub lost : Bool

-- A tick of the interval, or the answer to the fetch that is under way.
pub data Event {ℓ} (T : Type ℓ) : Type ℓ where
  tick : Event T
  answer : Result Str T → Event T

module _ {ℓ} {T : Type ℓ} where
  unfoldable pub poll : Event T → Poll T → Poll T
  poll tick s = if s.busy then s else record s { busy = true; fetches = s.fetches + 1 }
  poll (answer (ok v)) s = elim s.fetches [
    | zero ↦ s
    | suc n ↦ record s { busy = false; fetches = n; sink = some v; lost = false }
  ]
  poll (answer (err e)) s = elim s.fetches [
    | zero ↦ s
    | suc n ↦ record s { busy = false; fetches = n; lost = true }
  ]

  unfoldable pub polls : List (Event T) → Poll T → Poll T
  unfolding poll
  polls [] s = s
  polls (e ∷ es) s = polls es (poll e s)
