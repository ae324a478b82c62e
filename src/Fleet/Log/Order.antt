-- ===== src/Fleet/Log/Order.antt =====
-- The order of the log's ids.
use riscv_exam_computer.Base.{
  ℕ, zero, suc, ◌+◌, ◌-◌, ◌<◌, ◌≡◌, refl, subst, Option, some, List, [], ◌∷◌, ◌++◌, arith, length,
  drop, Str, All, All-append,
}
use riscv_exam_computer.Base.Words.{u64_mod, next_u64}
use riscv_exam_computer.Fleet.Model.{Fleet, Event, Actor, Level, max_events}
use riscv_exam_computer.Fleet.Log.{trim_front, new_event, log, log_all}

-- Each id is below the later ones and below `n`.
abbrev pub Ascending : ℕ → List Event → Type 0
Ascending n [] = Unit
Ascending n (e ∷ es) = (e.id < n) × All (λ (x : Event). e.id < x.id) es × Ascending n es

abbrev pub IsOrdered : Fleet → Type 0
IsOrdered f = Ascending f.next_event_id f.log

Ascending-drop : (n k : ℕ) (es : List Event) → Ascending n es → Ascending n (drop k es)
Ascending-drop n zero es h = h
Ascending-drop n (suc k) [] h = tt
Ascending-drop n (suc k) (e ∷ es) h = Ascending-drop n k es h.2

Ascending-concat :
    (n : ℕ) (es : List Event) (x : Event)
    → Ascending n es
    → x.id ≡ n
    → Ascending (n + 1) (es ++ x ∷ [])
Ascending-concat n [] x h e = (omega arith, tt, tt)
Ascending-concat n (y ∷ es) x (p, q, h) e =
    (omega arith, All-append _ es (x ∷ []) q (omega arith, tt), Ascending-concat n es x h e)

pub log-IsOrdered :
    (f : Fleet) (wall_ms : ℕ) (actor : Actor) (level : Level) (host : Option Str) (text : Str)
    → f.next_event_id + 1 < u64_mod
    → IsOrdered f
    → IsOrdered (log f wall_ms actor level host text)
unfolding log trim_front
log-IsOrdered f wall_ms actor level host text fits h =
    let grown = f.log ++ new_event f wall_ms actor level host text ∷ [] in
    let next : f.next_event_id + 1 ≡ next_u64 f.next_event_id = omega arith in
    subst (λ n. Ascending n (trim_front max_events grown)) next
      (Ascending-drop _ (length grown - max_events) grown
        (Ascending-concat f.next_event_id f.log _ h refl))

log-next :
    (f : Fleet) (wall_ms : ℕ) (actor : Actor) (level : Level) (host : Option Str) (text : Str)
    → (log f wall_ms actor level host text).next_event_id ≡ next_u64 f.next_event_id
unfolding log
log-next f wall_ms actor level host text = refl

-- Logging any events keeps the ids of the log ascending and below the next id, as long as the
-- counter does not wrap.
log_all-IsOrdered :
    (f : Fleet) (wall_ms : ℕ) (actor : Actor) (host : Str) (evs : List (Level × Str))
    → f.next_event_id + length evs < u64_mod
    → IsOrdered f
    → IsOrdered (log_all f wall_ms actor host evs)
unfolding log_all
log_all-IsOrdered f wall_ms actor host [] fits h = h
log_all-IsOrdered f wall_ms actor host ((level, text) ∷ evs) fits h =
    log_all-IsOrdered (log f wall_ms actor level (some host) text) wall_ms actor host evs
      (rw log-next (omega arith))
      (log-IsOrdered f wall_ms actor level (some host) text (omega arith) h)
