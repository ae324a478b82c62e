-- ===== src/Fleet/Invariant/Boards.antt =====
-- The well-formedness of a fleet, and the changes of its boards.
use riscv_exam_computer.Base.{
  ℕ, ◌≤◌, ◌≡◌, refl, sym, ap, ◌∙◌, subst, true, false, Option, none, some, List, [], ◌∷◌, arith,
  All, length, null, Option-cases, Bool-cases, inl, inr, Str, is_some, mem_str, ltb, ◌-◌,
}
use riscv_exam_computer.Base.OrderedMap.{get, insert, update}
use riscv_exam_computer.Base.OrderedMap.Laws.{All-insert, All-update, All-get}
use riscv_exam_computer.Base.OrderedMap.Sorted.{Before, Sorted, update-Sorted}
use riscv_exam_computer.Proto.{Heartbeat, JobKind, ExamPayload}
use riscv_exam_computer.Fleet.Model.{
  Fleet, Board, Live, Job, Exam, Instant, offline_after, max_events, max_exams, temp_samples,
  valid_host,
}
use riscv_exam_computer.Fleet.Beat.{beat, is_running}
use riscv_exam_computer.Fleet.Beat.Temperatures.{temps_of, beat-temps_length}
use riscv_exam_computer.Fleet.Heartbeat.{new_board, live_of, seen_board}
use riscv_exam_computer.Fleet.Enqueue.{
  Placement, skip, cancel, queue, Sweep, skip_reason, current_of, cancels, place_live, place,
  apply_placement, sweep_host, sweep, set_live,
}
use riscv_exam_computer.Fleet.Enqueue.Effect.{sweep_host_again, sweep_host_new}
use riscv_exam_computer.Fleet.Tick.{
  note_offline, expire_job, expire_picked, tick_live, tick_board, tick_boards,
}

-- An entry of the map of boards: filed under its own valid host name, with few samples.
abbrev pub IsFiled : Str × Board → Type 0
IsFiled (host, b) =
    (valid_host host ≡ true) × (b.rec.host ≡ host) × (length (temps_of b.live) ≤ temp_samples)

abbrev pub HasSalt : Exam → Type 0
HasSalt e = null e.seb_salt ≡ false

pub record IsWellFormed (f : Fleet) : Type 0 where
  pub sorted : Sorted f.boards
  pub filed : All IsFiled f.boards
  pub log_capped : length f.log ≤ max_events
  pub exams_capped : length f.exams ≤ max_exams
  pub salted : All HasSalt f.exams

pub insert-IsFiled :
    (host : Str) (wall_ms : ℕ) (m : List (Str × Board))
    → valid_host host ≡ true
    → All IsFiled m
    → All IsFiled (insert host (new_board host wall_ms) m)
insert-IsFiled host wall_ms m v h =
    All-insert IsFiled host (new_board host wall_ms) m (v, refl, omega arith) h

live-IsFiled :
    (host : Str) (m : List (Str × Board))
    → All IsFiled m
    → length (temps_of (live_of (get host m))) ≤ temp_samples
live-IsFiled host m h = elim (Option-cases (get host m)) [
  | inl e ↦ rw e (omega arith)
  | inr (b, e) ↦ rw e (All-get IsFiled host m b h e).2
]

-- A write of a live part with few samples.
pub seen-IsFiled :
    (host : Str) (exams : List Exam) (hb : Heartbeat) (now : Instant) (wall_ms : ℕ)
    (m : List (Str × Board))
    → All IsFiled m
    → All IsFiled (update host (seen_board wall_ms (beat exams (live_of (get host m)) hb now).0) m)
seen-IsFiled host exams hb now wall_ms m h =
    let fits = beat-temps_length exams (live_of (get host m)) hb now (live-IsFiled host m h) in
    All-update IsFiled host (seen_board wall_ms (beat exams (live_of (get host m)) hb now).0) m
      (λ j b q. (q.0, q.1, fits)) h

note_offline-temps : (now : Instant) (live : Live) → (note_offline now live).0.temps ≡ live.temps
unfolding note_offline
note_offline-temps now live = ground arith

expire_job-temps :
    (job : Option Job) (now : Instant) (live : Live)
    → (expire_job job now live).0.temps ≡ live.temps
unfolding expire_job expire_picked
expire_job-temps none now live = refl
expire_job-temps (some job) now live = ground arith

tick_live-temps : (now : Instant) (live : Live) → (tick_live now live).0.temps ≡ live.temps
unfolding tick_live
tick_live-temps now live =
    let noted = (note_offline now live).0 in
    expire_job-temps noted.job now noted ∙ note_offline-temps now live

tick_board-IsFiled :
    (now : Instant) (host : Str) (b : Board)
    → IsFiled (host, b)
    → IsFiled (host, (tick_board now b).0)
unfolding tick_board
tick_board-IsFiled now host b h = elim (Option-cases b.live) [
  | inl e ↦ rw (e, tick_board) h
  | inr (live, e) ↦
      let fits : length live.temps ≤ temp_samples = rw e at h.2 in
      rw (e, tick_board) (h.0, h.1, omega (arith, ap length (tick_live-temps now live)))
]

pub tick_boards-IsFiled :
    (now : Instant) (m : List (Str × Board)) → All IsFiled m → All IsFiled (tick_boards now m).0
unfolding tick_boards
tick_boards-IsFiled now [] h = tt
tick_boards-IsFiled now ((host, b) ∷ m) (p, h) =
    (tick_board-IsFiled now host b p, tick_boards-IsFiled now m h)

tick_boards-Before :
    (now : Instant) (k : Str) (m : List (Str × Board)) → Before k m → Before k (tick_boards now m).0
unfolding tick_boards
tick_boards-Before now k [] h = tt
tick_boards-Before now k ((host, b) ∷ m) (p, h) = (p, tick_boards-Before now k m h)

pub tick_boards-Sorted :
    (now : Instant) (m : List (Str × Board)) → Sorted m → Sorted (tick_boards now m).0
unfolding tick_boards
tick_boards-Sorted now [] h = tt
tick_boards-Sorted now ((host, b) ∷ m) (p, h) =
    (tick_boards-Before now host m p, tick_boards-Sorted now m h)

-- What `enqueue` writes back has few samples too.
abbrev FitsPlacement : Placement → Type 0
FitsPlacement (skip reason) = Unit
FitsPlacement (cancel live) = length live.temps ≤ temp_samples
FitsPlacement (queue live) = length live.temps ≤ temp_samples

place_live-temps :
    (kind : JobKind) (payload : Option ExamPayload) (now : Instant) (id : ℕ) (live : Live)
    → length live.temps ≤ temp_samples
    → FitsPlacement (place_live kind payload now id live)
unfolding place_live
place_live-temps kind payload now id live h =
    elim (Bool-cases (ltb offline_after (now - live.last_seen))) [
      | inl off ↦ rw (off, place_live) tt
      | inr on ↦
          elim (Option-cases
            (skip_reason kind (current_of live.job) (is_running live.hb) (is_some live.error))) [
              | inr (reason, e) ↦ rw (on, e, place_live) tt
              | inl e ↦ elim (Bool-cases (cancels kind (current_of live.job))) [
                | inl c ↦ rw (on, e, c, place_live) h
                | inr c ↦ rw (on, e, c, place_live) h
              ]
            ]
    ]

place-temps :
    (kind : JobKind) (payload : Option ExamPayload) (now : Instant) (id : ℕ) (host : Str)
    (m : List (Str × Board))
    → All IsFiled m
    → FitsPlacement (place kind payload now id (get host m))
unfolding place
place-temps kind payload now id host m h = elim (Option-cases (get host m)) [
  | inl e ↦ rw (e, place) tt
  | inr (b, e) ↦ elim (Option-cases b.live) [
    | inl n ↦ rw (e, place) (rw (n, place) tt)
    | inr (live, n) ↦
        let filed = All-get IsFiled host m b h e in
        let fits : length live.temps ≤ temp_samples = rw n at filed.2 in
        rw (e, place) (rw (n, place) (place_live-temps kind payload now id live fits))
  ]
]

write-IsFiled :
    (host : Str) (live : Live) (m : List (Str × Board))
    → length live.temps ≤ temp_samples
    → All IsFiled m
    → All IsFiled (update host (set_live live) m)
write-IsFiled host live m fits h =
    All-update IsFiled host (set_live live) m (λ j b q. (q.0, q.1, fits)) h

apply-IsFiled :
    (payload : Option ExamPayload) (kind : JobKind) (s : Sweep) (host : Str) (p : Placement)
    → FitsPlacement p
    → Sorted s.boards × All IsFiled s.boards
    → Sorted (apply_placement payload kind s host p).boards
      × All IsFiled (apply_placement payload kind s host p).boards
unfolding apply_placement
apply-IsFiled payload kind s host (skip reason) fits h = h
apply-IsFiled payload kind s host (cancel live) fits h =
    (update-Sorted host (set_live live) s.boards h.0, write-IsFiled host live s.boards fits h.1)
apply-IsFiled payload kind s host (queue live) fits h =
    (update-Sorted host (set_live live) s.boards h.0, write-IsFiled host live s.boards fits h.1)

abbrev AreFiled : Sweep → Type 0
AreFiled s = Sorted s.boards × All IsFiled s.boards

sweep_host-IsFiled :
    (kind : JobKind) (payload : Option ExamPayload) (now : Instant) (s : Sweep) (x : Str)
    → AreFiled s
    → AreFiled (sweep_host kind payload now s x)
sweep_host-IsFiled kind payload now s x h = elim (Bool-cases (mem_str x s.seen)) [
  | inl m ↦ subst AreFiled (sym (sweep_host_again kind payload now s x m)) h
  | inr m ↦ subst AreFiled (sym (sweep_host_new kind payload now s x m)) (
      apply-IsFiled payload kind (record s { seen = x ∷ s.seen }) x
        (place kind payload now s.next_job_id (get x s.boards))
        (place-temps kind payload now s.next_job_id x s.boards h.1) h)
]

pub sweep-IsFiled :
    (kind : JobKind) (payload : Option ExamPayload) (now : Instant) (s : Sweep) (hs : List Str)
    → Sorted s.boards × All IsFiled s.boards
    → Sorted (sweep kind payload now s hs).boards × All IsFiled (sweep kind payload now s hs).boards
unfolding sweep
sweep-IsFiled kind payload now s [] h = h
sweep-IsFiled kind payload now s (x ∷ hs) h =
    sweep-IsFiled kind payload now (sweep_host kind payload now s x) hs
      (sweep_host-IsFiled kind payload now s x h)
