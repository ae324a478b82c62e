-- ===== src/Fleet/Views/Bounds.antt =====
-- What the views show of one board, and how much.
use riscv_exam_computer.Base.{
  ℕ, zero, suc, ◌-◌, ◌≤◌, ◌<◌, ◌≡◌, ◌↔◌, refl, Option, none, some, List, [], ◌∷◌, map, reverse,
  arith, All, take, filter, length, length-map, length-take, Option-cases, Bool-cases, inl, inr,
  Str, opt_str_eq, opt_str_eq_iff,
}
use riscv_exam_computer.Fleet.Model.{Board, Live, Event, EventView, Instant, Status, offline_after}
use riscv_exam_computer.Fleet.Views.{
  job_status, idle_status, live_status, status_of, events, event_view, host_matches, actor_matches,
}

-- Not heard of since the start of the server, or for more than fifteen seconds.
abbrev pub IsSilent : Option Live → Instant → Type 0
IsSilent none now = Unit
IsSilent (some live) now = offline_after < now - live.last_seen

live_status-offline_iff :
    (live : Live) (now : Instant)
    → ((live_status live now).0 ≡ Status.offline) ↔ (offline_after < now - live.last_seen)
unfolding live_status job_status idle_status
live_status-offline_iff live now = (λ h. ground arith, λ h. ground arith)

-- A board is shown as offline exactly when it has not been heard of since the start, or for more
-- than fifteen seconds.
status_of-offline_iff :
    (b : Board) (now : Instant) → ((status_of b now).0 ≡ Status.offline) ↔ IsSilent b.live now
unfolding status_of
status_of-offline_iff b now = elim (Option-cases b.live) [
  | inl e ↦ rw (e, status_of) (λ _. tt, λ _. refl)
  | inr (live, e) ↦ rw (e, status_of) (live_status-offline_iff live now)
]

abbrev pub IsOf : Str → EventView → Type 0
IsOf host e = e.host ≡ some host

filter-IsOf :
    (host : Str) (n : ℕ) (es : List Event)
    → All (IsOf host) (
        map event_view
          (take n (filter (actor_matches none) (filter (host_matches (some host)) es))))
unfolding host_matches actor_matches
filter-IsOf host zero [] = tt
filter-IsOf host (suc n) [] = tt
filter-IsOf host zero (e ∷ es) = tt
filter-IsOf host (suc n) (e ∷ es) = elim (Bool-cases (opt_str_eq e.host (some host))) [
  | inl t ↦ rw t ((opt_str_eq_iff e.host (some host)).0 t, filter-IsOf host n es)
  | inr t ↦ rw t (filter-IsOf host (suc n) es)
]

-- The events that are shown for one board are events of that board, and no more than the limit.
events-IsOf :
    (log : List Event) (host : Str) (limit : ℕ)
    → All (IsOf host) (events log (some host) none limit)
      × (length (events log (some host) none limit) ≤ limit)
unfolding events
events-IsOf log host limit =
    let shown = filter (actor_matches none) (filter (host_matches (some host)) (reverse log)) in
    (
      filter-IsOf host limit (reverse log),
      omega (arith, length-map event_view (take limit shown), length-take limit shown),
    )
