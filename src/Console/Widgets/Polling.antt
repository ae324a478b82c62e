-- ===== src/Console/Widgets/Polling.antt =====
-- The fetches of a poll, and what it knows of the last answer.
use riscv_exam_computer.Base.{◌≤◌, ◌≡◌, not, List, [], ◌∷◌, arith, ◌==◌, ok, err}
use riscv_exam_computer.Console.Widgets.{Poll, Event, poll, polls}

module _ {ℓ} {T : Type ℓ} where
  -- At most one fetch is under way, and `busy` tells whether one is.
  pub record IsPolling (s : Poll T) : Type ℓ where
    pub one : s.fetches ≤ 1
    pub told : s.busy ≡ not (s.fetches == 0)

  pub poll-IsPolling : (e : Event T) (s : Poll T) → IsPolling s → IsPolling (poll e s)
  unfolding poll
  poll-IsPolling Event.tick s v = ground arith
  poll-IsPolling (Event.answer (ok x)) s v = ground arith
  poll-IsPolling (Event.answer (err e)) s v = ground arith

  polls-IsPolling : (es : List (Event T)) (s : Poll T) → IsPolling s → IsPolling (polls es s)
  unfolding polls
  polls-IsPolling [] s v = v
  polls-IsPolling (e ∷ es) s v = polls-IsPolling es (poll e s) (poll-IsPolling e s v)
