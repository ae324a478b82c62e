-- ===== src/Fleet/Invariant/Reports.antt =====
-- Well-formedness of a fleet under logging, heartbeats and ticks.
use riscv_exam_computer.Base.{
  ℕ, ◌≤◌, ◌≡◌, refl, sym, subst, true, Option, some, List, [], ◌∷◌, All, length, leb, Bool-cases,
  inl, inr, Str,
}
use riscv_exam_computer.Base.OrderedMap.{get, contains_key, insert, update}
use riscv_exam_computer.Base.OrderedMap.Sorted.{Sorted, insert-Sorted, update-Sorted}
use riscv_exam_computer.Proto.{Heartbeat}
use riscv_exam_computer.Fleet.Model.{Fleet, Level, Actor, max_events, max_exams, valid_host}
use riscv_exam_computer.Fleet.Log.{log}
use riscv_exam_computer.Fleet.Log.Frame.{
  SameBut, log-SameBut, log_all-SameBut, log-length, log_all-length,
}
use riscv_exam_computer.Fleet.Beat.{beat}
use riscv_exam_computer.Fleet.Heartbeat.{
  admit, warn_cap, add_board, new_board, live_of, seen_board, report, heartbeat,
}
use riscv_exam_computer.Fleet.Tick.{tick_boards, tick_actor, log_ticks, tick}
use riscv_exam_computer.Fleet.Tick.Expiry.{tick-SameBut}
use riscv_exam_computer.Fleet.Invariant.Boards.{
  IsFiled, HasSalt, IsWellFormed, insert-IsFiled, seen-IsFiled, tick_boards-IsFiled,
  tick_boards-Sorted,
}

-- Logging on a fleet whose other fields are well formed.
logged :
    {g h : Fleet}
    → SameBut g h
    → Sorted g.boards
    → All IsFiled g.boards
    → length h.log ≤ max_events
    → length g.exams ≤ max_exams
    → All HasSalt g.exams
    → IsWellFormed h
logged same s b l n e = record {
  sorted = subst Sorted (sym same.boards) s;
  filed = subst (All IsFiled) (sym same.boards) b;
  log_capped = l;
  exams_capped = subst (λ es. length es ≤ max_exams) (sym same.exams) n;
  salted = subst (All HasSalt) (sym same.exams) e;
}

pub log-IsWellFormed :
    (f : Fleet) (wall_ms : ℕ) (actor : Actor) (level : Level) (host : Option Str) (text : Str)
    → Sorted f.boards
    → All IsFiled f.boards
    → length f.exams ≤ max_exams
    → All HasSalt f.exams
    → IsWellFormed (log f wall_ms actor level host text)
log-IsWellFormed f wall_ms actor level host text s b n e =
    logged (log-SameBut f wall_ms actor level host text) s b
      (log-length f wall_ms actor level host text) n e

warn_cap-IsWellFormed :
    (f : Fleet) (host : Str) (wall_ms : ℕ) → IsWellFormed f → IsWellFormed (warn_cap f host wall_ms)
unfolding warn_cap
warn_cap-IsWellFormed f host wall_ms w = elim (Bool-cases f.cap_warned) [
  | inl c ↦ subst IsWellFormed (rw (c, warn_cap) refl) w
  | inr c ↦
      rw (c, warn_cap) (log-IsWellFormed _ wall_ms _ _ _ _ w.sorted w.filed w.exams_capped w.salted)
]

add_board-IsWellFormed :
    (f : Fleet) (host : Str) (wall_ms : ℕ)
    → valid_host host ≡ true
    → IsWellFormed f
    → IsWellFormed (add_board f host wall_ms)
unfolding add_board
add_board-IsWellFormed f host wall_ms v w =
    log-IsWellFormed (record f { boards = insert host (new_board host wall_ms) f.boards }) wall_ms _
      _ _ _ (insert-Sorted host (new_board host wall_ms) f.boards w.sorted)
      (insert-IsFiled host wall_ms f.boards v w.filed) w.exams_capped w.salted

admit-IsWellFormed :
    (f : Fleet) (host : Str) (wall_ms : ℕ)
    → valid_host host ≡ true
    → IsWellFormed f
    → IsWellFormed (admit f host wall_ms).0
unfolding admit
admit-IsWellFormed f host wall_ms v w = elim (Bool-cases (contains_key host f.boards)) [
  | inl k ↦ rw (k, admit) w
  | inr k ↦ elim (Bool-cases (leb f.max_boards (length f.boards))) [
    | inl full ↦ rw (k, full, admit) (warn_cap-IsWellFormed f host wall_ms w)
    | inr room ↦ rw (k, room, admit) (add_board-IsWellFormed f host wall_ms v w)
  ]
]

report-IsWellFormed :
    (f : Fleet) (hb : Heartbeat) (now wall_ms : ℕ)
    → IsWellFormed f
    → IsWellFormed (report f hb now wall_ms).0
unfolding report
report-IsWellFormed f hb now wall_ms w =
    let (live, reply, events) = beat f.exams (live_of (get hb.host f.boards)) hb now in
    let g = record f { boards = update hb.host (seen_board wall_ms live) f.boards } in
    logged (log_all-SameBut g wall_ms Actor.board hb.host events)
      (update-Sorted hb.host (seen_board wall_ms live) f.boards w.sorted)
      (seen-IsFiled hb.host f.exams hb now wall_ms f.boards w.filed)
      (log_all-length g wall_ms Actor.board hb.host events w.log_capped) w.exams_capped w.salted

pub heartbeat-IsWellFormed :
    (f : Fleet) (hb : Heartbeat) (now wall_ms : ℕ)
    → IsWellFormed f
    → IsWellFormed (heartbeat f hb now wall_ms).0
unfolding heartbeat
heartbeat-IsWellFormed f hb now wall_ms w = elim (Bool-cases (valid_host hb.host)) [
  | inr bad ↦ rw (bad, heartbeat) w
  | inl v ↦
      let a = admit-IsWellFormed f hb.host wall_ms v w in
      elim (Bool-cases (admit f hb.host wall_ms).1) [
        | inl y ↦
            rw (v, y, heartbeat) (report-IsWellFormed (admit f hb.host wall_ms).0 hb now wall_ms a)
        | inr n ↦ rw (v, n, heartbeat) a
      ]
]

log_ticks-length :
    (f : Fleet) (wall_ms : ℕ) (evs : List (Str × Level × Str))
    → length f.log ≤ max_events
    → length (log_ticks f wall_ms evs).log ≤ max_events
unfolding log_ticks
log_ticks-length f wall_ms [] h = h
log_ticks-length f wall_ms ((host, level, text) ∷ evs) h =
    log_ticks-length (log f wall_ms (tick_actor level text) level (some host) text) wall_ms evs
      (log-length f wall_ms (tick_actor level text) level (some host) text)

pub tick-IsWellFormed :
    (f : Fleet) (now wall_ms : ℕ) → IsWellFormed f → IsWellFormed (tick f now wall_ms)
unfolding tick
tick-IsWellFormed f now wall_ms w =
    logged (tick-SameBut f now wall_ms) (tick_boards-Sorted now f.boards w.sorted)
      (tick_boards-IsFiled now f.boards w.filed)
      (log_ticks-length (record f { boards = (tick_boards now f.boards).0 }) wall_ms
        (tick_boards now f.boards).1 w.log_capped)
      w.exams_capped w.salted
