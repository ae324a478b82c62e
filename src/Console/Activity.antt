-- ===== src/Console/Activity.antt =====
-- app/activity.rs: the page of the log, with the requests that are under way.
pub mod Choosing
use riscv_exam_computer.Base.{
  ℕ, zero, suc, Bool, true, false, Option, none, some, List, [], ◌∷◌, ◌++◌, if◌then◌else◌, opt_map,
  Result, ok, err, Str, txt,
}
use riscv_exam_computer.Fleet.Model.{EventView}

-- The filters and their labels.
unfoldable pub filters : List (Str × Str)
unfolding txt
filters =
    (txt "all", txt "All")
    ∷ (txt "instructor", txt "Instructor")
    ∷ (txt "board", txt "Boards")
    ∷ (txt "system", txt "System")
    ∷ []

-- A request that is under way: whether the poll made it, and the filter that it asks for.
abbrev pub Asked : Type 0
Asked = Bool × Str

-- The signals of `ActivityBody`, `busy` of `poll_every`, and the requests under way, oldest first.
pub record Page : Type 0 where
  pub filter_by : Str
  pub events : Option (List EventView)
  pub lost : Bool
  pub busy : Bool
  pub asked : List Asked

unfoldable pub open_page : List EventView → Page
unfolding txt
open_page initial = record {
  filter_by = txt "all";
  events = some initial;
  lost = false;
  busy = false;
  asked = [];
}

-- The interval of the poll.
unfoldable pub tick : Page → Page
tick p = if p.busy then p else record p { busy = true; asked = p.asked ++ (true, p.filter_by) ∷ [] }

unfoldable pub choose : Str → Page → Page
choose f p = record p { filter_by = f; asked = p.asked ++ (false, f) ∷ [] }

-- The element at an index, and the others.
unfoldable pub take_at {ℓ} : {A : Type ℓ} → ℕ → List A → Option (A × List A)
take_at i [] = none
take_at zero (x ∷ xs) = some (x, xs)
take_at (suc i) (x ∷ xs) = opt_map (λ p. (p.0, x ∷ p.1)) (take_at i xs)

-- What becomes of the page when a request is answered; the other requests are still under way.
abbrev pub settle : Asked → Result Str (List EventView) → Page → Page
settle (true, f) (ok v) p = record p { events = some v; lost = false; busy = false }
settle (true, f) (err e) p = record p { lost = true; busy = false }
settle (false, f) (ok v) p = record p { events = some v }
settle (false, f) (err e) p = p

unfoldable pub answer : ℕ → Result Str (List EventView) → Page → Page
unfolding take_at
answer i r p = elim (take_at i p.asked) [
  | none ↦ p
  | some (a, rest) ↦ settle a r (record p { asked = rest })
]
