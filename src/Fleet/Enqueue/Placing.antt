-- ===== src/Fleet/Enqueue/Placing.antt =====
-- When a start or a stop is queued for a board, and when a start is cancelled instead.
use riscv_exam_computer.Base.{
  ℕ, ◌-◌, ◌≤◌, ◌≡◌, ◌↔◌, ◌⊎◌, true, false, Option, none, some, arith, is_some, Option-cases, inl,
  inr,
}
use riscv_exam_computer.Proto.{JobKind, start, stop, ExamPayload}
use riscv_exam_computer.Fleet.Model.{Live, Job, Instant, offline_after}
use riscv_exam_computer.Fleet.Beat.{is_running}
use riscv_exam_computer.Fleet.Enqueue.{cancel, queue, new_job, place_live}

abbrev pub IsOnline : Instant → Live → Type 0
IsOnline now live = now - live.last_seen ≤ offline_after

-- A board that may be started: no job, and SEB is not running.
abbrev pub MayStart : Live → Type 0
MayStart live = (live.job ≡ none) × (is_running live.hb ≡ false)

-- A start that its board has picked up.
abbrev pub Launching : Option Job → Type 0
Launching none = ⊥
Launching (some job) = (job.kind ≡ start) × (is_some job.picked_up_at ≡ true)

-- A start that its board has not picked up.
abbrev pub Unseen : Option Job → Type 0
Unseen none = ⊥
Unseen (some job) = (job.kind ≡ start) × (is_some job.picked_up_at ≡ false)

-- A board that may be stopped: SEB is running or being launched, or there is an error to clear.
abbrev pub MayStop : Live → Type 0
MayStop live =
    ((live.job ≡ none) × ((is_running live.hb ≡ true) ⊎ (is_some live.error ≡ true)))
    ⊎ Launching live.job

abbrev pub with_job : Live → ℕ → JobKind → Option ExamPayload → Instant → Live
with_job live id kind payload now = record live {
  error = none;
  job = some (new_job id kind payload now);
}

module _ (payload : Option ExamPayload) (now : Instant) (id : ℕ) (live live' : Live) where
  -- A start is queued exactly for a board that is online and may be started.
  start_queued_iff :
      (place_live start payload now id live ≡ queue live')
      ↔ (IsOnline now live × MayStart live × (live' ≡ with_job live id start payload now))
  unfolding place_live
  start_queued_iff = elim (Option-cases live.job) [
    | inl e ↦ rw (e, place_live) (ground arith)
    | inr (job, e) ↦ rw (e, place_live) (ground arith)
  ]

  -- A stop is queued exactly for a board that is online and may be stopped.
  stop_queued_iff :
      (place_live stop payload now id live ≡ queue live')
      ↔ (IsOnline now live × MayStop live × (live' ≡ with_job live id stop payload now))
  unfolding place_live
  stop_queued_iff = elim (Option-cases live.job) [
    | inl e ↦ rw (e, place_live) (ground arith)
    | inr (job, e) ↦ rw (e, place_live) (ground arith)
  ]

  -- A stop cancels a start exactly if the board is online and has not picked the start up; nothing
  -- is sent to it then.
  stop_cancels_iff :
      (place_live stop payload now id live ≡ cancel live')
      ↔ (IsOnline now live × Unseen live.job × (live' ≡ record live { job = none }))
  unfolding place_live
  stop_cancels_iff = elim (Option-cases live.job) [
    | inl e ↦ rw (e, place_live) (ground arith)
    | inr (job, e) ↦ rw (e, place_live) (ground arith)
  ]
