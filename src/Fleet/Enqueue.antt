-- ===== src/Fleet/Enqueue.antt =====
-- `Fleet::enqueue`: starts and stops for a list of boards.
pub mod Placing
pub mod Partition
pub mod Effect
use riscv_exam_computer.Base.{
  ℕ, ◌-◌, Bool, true, false, not, ◌&&◌, ◌||◌, Option, none, some, List, [], ◌∷◌, ◌++◌, ltb, ◌==◌,
  if◌then◌else◌, length, take, null, is_none, is_some, unwrap_or, opt_map, opt_filter, Result, ok,
  err, ◌>>=◌, ok_or, Str, txt, str_eq, mem_str,
}
use riscv_exam_computer.Base.Words.{next_u64}
use riscv_exam_computer.Base.Decimal.{decimal}
use riscv_exam_computer.Base.OrderedMap.{get, update}
use riscv_exam_computer.Proto.{JobKind, start, stop, ExamPayload, running}
use riscv_exam_computer.Seb.{seb_config}
use riscv_exam_computer.SebFile.Values.{Ext}
use riscv_exam_computer.SebFile.Container.{Draw, encode}
use riscv_exam_computer.Fleet.Model.{
  Fleet, Exam, Board, Live, Job, Instant, Actor, Level, ActionReport, offline_after, fmt_ago,
}
use riscv_exam_computer.Fleet.Log.{log}
use riscv_exam_computer.Fleet.Exams.{exam, seb_build}
use riscv_exam_computer.Fleet.Beat.{is_running}

-- What becomes of one board.
pub data Placement : Type 0 where
  skip : Str → Placement
  cancel : Live → Placement
  queue : Live → Placement

-- The `match (kind, current)` of the loop: `current` is the job's kind and whether it was picked up.
unfoldable pub skip_reason : JobKind → Option (JobKind × Bool) → Bool → Bool → Option Str
skip_reason start (some (start, picked)) up failed = some (txt "Already starting")
skip_reason start (some (stop, picked)) up failed =
    some (txt "Still stopping; try again in a moment")
skip_reason start none up failed = if up then some (txt "SEB is already running") else none
skip_reason stop (some (stop, picked)) up failed = some (txt "Already stopping")
skip_reason stop (some (start, picked)) up failed = none
skip_reason stop none up failed =
    if not up && not failed then some (txt "SEB is not running") else none

abbrev pub current_of : Option Job → Option (JobKind × Bool)
current_of job = opt_map (λ j. (j.kind, is_some j.picked_up_at)) job

-- `kind == Stop && current == Some((Start, false))`.
unfoldable pub cancels : JobKind → Option (JobKind × Bool) → Bool
cancels stop (some (start, picked)) = not picked
cancels stop (some (stop, picked)) = false
cancels stop none = false
cancels start current = false

abbrev pub new_job : ℕ → JobKind → Option ExamPayload → Instant → Job
new_job id kind payload now = record {
  id = id;
  kind = kind;
  exam = payload;
  queued_at = now;
  picked_up_at = none;
}

unfoldable pub place_live : JobKind → Option ExamPayload → Instant → ℕ → Live → Placement
unfolding skip_reason cancels is_running
place_live kind payload now id live =
    let since = now - live.last_seen in
    let current = current_of live.job in
    if ltb offline_after since
    then skip (txt "Offline: last seen " ++ fmt_ago since)
    else elim (skip_reason kind current (is_running live.hb) (is_some live.error)) [
      | some reason ↦ skip reason
      | none ↦
          if cancels kind current
          then cancel (record live { job = none })
          else queue (record live { error = none; job = some (new_job id kind payload now) })
    ]

unfoldable pub place : JobKind → Option ExamPayload → Instant → ℕ → Option Board → Placement
unfolding place_live
place kind payload now id none = skip (txt "Unknown board")
place kind payload now id (some b) = elim b.live [
  | none ↦ skip (txt "Offline: not seen since the server restarted")
  | some live ↦ place_live kind payload now id live
]

-- The variables of the loop.
pub record Sweep : Type 0 where
  pub boards : List (Str × Board)
  pub next_job_id : ℕ
  pub queued : List Str
  pub skipped : List (Str × Str)
  pub notes : List (Str × Str)
  pub seen : List Str
  pub events : List (Str × Str)

abbrev pub set_live : Live → Board → Board
set_live live b = record b { live = some live }

abbrev queued_text : Option ExamPayload → Str
queued_text (some e) = txt "Start queued: " ++ e.name
queued_text none = txt "Stop queued"

unfoldable pub is_legacy_start : JobKind → Live → Bool
is_legacy_start start live = ltb (unwrap_or live.hb.protocol 1) 2
is_legacy_start stop live = false

unfoldable pub apply_placement : Option ExamPayload → JobKind → Sweep → Str → Placement → Sweep
unfolding is_legacy_start
apply_placement payload kind s host (skip reason) = record s {
  skipped = s.skipped ++ (host, reason) ∷ [];
}
apply_placement payload kind s host (cancel live) = record s {
  boards = update host (set_live live) s.boards;
  queued = s.queued ++ host ∷ [];
  notes = s.notes ++ (host, txt "Start cancelled before the board picked it up") ∷ [];
  events = s.events ++ (host, txt "Start cancelled") ∷ [];
}
apply_placement payload kind s host (queue live) = record s {
  boards = update host (set_live live) s.boards;
  next_job_id = next_u64 s.next_job_id;
  queued = s.queued ++ host ∷ [];
  notes =
      if is_legacy_start kind live
      then s.notes ++ (host, txt "Old agent: it will run its local config, not this exam") ∷ []
      else s.notes;
  events = s.events ++ (host, queued_text payload) ∷ [];
}

unfoldable pub sweep_host : JobKind → Option ExamPayload → Instant → Sweep → Str → Sweep
unfolding place apply_placement mem_str
sweep_host kind payload now s host =
    if mem_str host s.seen
    then s
    else apply_placement payload kind (record s { seen = host ∷ s.seen }) host
        (place kind payload now s.next_job_id (get host s.boards))

unfoldable pub sweep : JobKind → Option ExamPayload → Instant → Sweep → List Str → Sweep
unfolding sweep_host
sweep kind payload now s [] = s
sweep kind payload now s (h ∷ hs) = sweep kind payload now (sweep_host kind payload now s h) hs

abbrev pub first_sweep : Fleet → Sweep
first_sweep f = record {
  boards = f.boards;
  next_job_id = f.next_job_id;
  queued = [];
  skipped = [];
  notes = [];
  seen = [];
  events = [];
}

unfoldable pub log_hosts : Fleet → ℕ → List (Str × Str) → Fleet
log_hosts f wall_ms [] = f
log_hosts f wall_ms ((host, text) ∷ evs) =
    log_hosts (log f wall_ms Actor.instructor Level.info (some host) text) wall_ms evs

unfoldable pub summary : Option ExamPayload → ℕ → ℕ → Str
summary payload n skipped =
    elim payload [ some e ↦ txt "Start “" ++ e.name ++ txt "”" | none ↦ txt "Stop" ]
    ++ txt " on "
    ++ decimal n
    ++ txt " board"
    ++ (if n == 1 then txt "" else txt "s")
    ++ (if skipped == 0 then txt "" else txt ", " ++ decimal skipped ++ txt " skipped")

unfoldable pub log_summary : Fleet → ℕ → Option ExamPayload → Sweep → Fleet
unfolding summary
log_summary f wall_ms payload s =
    if not (null s.queued) || not (null s.skipped)
    then log f wall_ms Actor.instructor Level.info none
        (summary payload (length s.queued) (length s.skipped))
    else f

abbrev pub verb_of : JobKind → Str
verb_of start = txt "Start"
verb_of stop = txt "Stop"

abbrev pub report_of : JobKind → Sweep → ActionReport
report_of kind s = record {
  verb = verb_of kind;
  queued = s.queued;
  skipped = s.skipped;
  notes = s.notes;
}

-- A file with no password draws nothing.
abbrev pub no_draw : Draw
no_draw = record { enc_salt = []; mac_salt = []; iv = [] }

module _ (ext : Ext) where
  unfoldable pub payload_of :
      Option Str → List Exam → JobKind → Option Str → Result Str (Option ExamPayload)
  unfolding exam seb_config seb_build
  payload_of public_url exams stop exam_id = ok none
  payload_of public_url exams start exam_id = do
    id ← ok_or (opt_filter (λ s. not (null s)) exam_id) (txt "Choose an exam to start")
    e ← ok_or (exam exams id) (txt "That exam no longer exists")
    config ← seb_config e.spec
    build ← seb_build ext public_url e
    ok (
        some (record {
          id = e.id;
          name = e.name;
          config = config;
          seb = some (ext.base64 (encode ext no_draw build.xml none));
          config_key = some build.config_key;
        }))

  unfoldable pub enqueue :
      Fleet → List Str → JobKind → Option Str → Instant → ℕ → Fleet × Result Str ActionReport
  unfolding payload_of sweep log_hosts log_summary
  enqueue f hosts kind exam_id now wall_ms = elim (payload_of f.public_url f.exams kind exam_id) [
    | err e ↦ (f, err e)
    | ok payload ↦
        let s = sweep kind payload now (first_sweep f) (take f.max_boards hosts) in
        let g = record f { boards = s.boards; next_job_id = s.next_job_id } in
        (log_summary (log_hosts g wall_ms s.events) wall_ms payload s, ok (report_of kind s))
  ]
