-- ===== src/Fleet/Log.antt =====
-- `Fleet::log`: the bounded activity log.
pub mod Frame
pub mod Order
use riscv_exam_computer.Base.{
  ℕ, ◌-◌, true, Option, some, none, List, [], ◌∷◌, ◌++◌, length, drop, Str,
}
use riscv_exam_computer.Base.Words.{next_u64}
use riscv_exam_computer.Fleet.Model.{Fleet, Event, Actor, Level, max_events}

-- `while q.len() > cap { q.pop_front(); }`.
unfoldable pub trim_front {ℓ} : {A : Type ℓ} → ℕ → List A → List A
trim_front cap q = drop (length q - cap) q

abbrev pub new_event : Fleet → ℕ → Actor → Level → Option Str → Str → Event
new_event f wall_ms actor level host text = record {
  id = f.next_event_id;
  at_ms = wall_ms;
  actor = actor;
  level = level;
  host = host;
  text = text;
}

unfoldable pub log : Fleet → ℕ → Actor → Level → Option Str → Str → Fleet
unfolding trim_front
log f wall_ms actor level host text = record f {
  log = trim_front max_events (f.log ++ new_event f wall_ms actor level host text ∷ []);
  next_event_id = next_u64 f.next_event_id;
  dirty = true;
}

-- The loops at the end of the handlers: all events of one host by one actor.
unfoldable pub log_all : Fleet → ℕ → Actor → Str → List (Level × Str) → Fleet
unfolding log
log_all f wall_ms actor host [] = f
log_all f wall_ms actor host ((level, text) ∷ evs) =
    log_all (log f wall_ms actor level (some host) text) wall_ms actor host evs
