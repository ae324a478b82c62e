-- ===== src/Fleet/Beat.antt =====
-- What a heartbeat does to the live part of one board.
pub mod Delivery
pub mod Temperatures
use riscv_exam_computer.Base.{
  ℕ, ◌-◌, ◌≡◌, refl, Bool, true, false, not, ◌&&◌, ◌||◌, Option, none, some, List, [], ◌∷◌, ◌++◌,
  ltb, ◌==◌, if◌then◌else◌, length, filter, find, take, is_none, is_some, unwrap_or, opt_map,
  opt_bind, opt_filter, Str, txt, str_eq, is_control, to_ascii_upper,
}
use riscv_exam_computer.Base.Words.{ℤ, pos, negsuc, is_finite}
use riscv_exam_computer.Base.Decimal.{decimal_int}
use riscv_exam_computer.Proto.{
  Heartbeat, HeartbeatReply, JobKind, JobResult, start, stop, as_str, heartbeat_of, reply_of,
  running,
}
use riscv_exam_computer.Fleet.Model.{Instant, Exam, Job, Live, Level, offline_after, temp_samples}
use riscv_exam_computer.Fleet.Log.{trim_front}

-- A kind's name, the only argument of `cap`, is ASCII.
unfoldable pub cap : Str → Str
unfolding to_ascii_upper
cap [] = []
cap (c ∷ s) = to_ascii_upper c ∷ s

unfoldable pub truncate : Str → ℕ → Str
unfolding is_control
truncate s max =
    let clean = filter (λ c. not (is_control c)) s in
    if ltb max (length clean) then take max clean ++ txt "…" else clean

unfoldable pub fresh_live : Instant → Live
unfolding txt
fresh_live now = record {
  last_seen = now;
  hb = heartbeat_of (txt "") (txt "");
  job = none;
  error = none;
  temps = [];
  offline_noted = false;
  exam_name = none;
}

-- The live part as it is before the report is read, and the note that the board is back.
unfoldable pub revive : Option Live → Instant → Live × List (Level × Str)
unfolding fresh_live
revive none now = (fresh_live now, [])
revive (some live) now = (
  record live { offline_noted = false; last_seen = now },
  if live.offline_noted || ltb offline_after (now - live.last_seen)
      then (Level.info, txt "Back online") ∷ []
      else [],
)

abbrev pub push_temp : Option ℕ → List ℕ → List ℕ
push_temp none temps = temps
push_temp (some t) temps = trim_front temp_samples (temps ++ t ∷ [])

unfoldable pub note_temp : Heartbeat → Live → Live
unfolding is_finite trim_front
note_temp hb live = record live {
  temps = push_temp (opt_filter is_finite hb.cpu_temp_c) live.temps;
}

abbrev pub job_failed : JobResult → Job → Bool
job_failed res job = res.id == job.id && not res.ok

abbrev failure_text : JobResult → Str
failure_text res = truncate (unwrap_or res.message (txt "agent reported failure")) 200

-- An explicit failure from a new agent ends the job.
unfoldable pub read_result : Option JobResult → Option Job → Live → Live × List (Level × Str)
unfolding truncate cap
read_result none job live = (live, [])
read_result (some res) none live = (live, [])
read_result (some res) (some job) live =
    let msg = failure_text res in
    if job_failed res job
    then (
      record live { error = some msg; job = none },
      (Level.error, cap (as_str job.kind) ++ txt " failed: " ++ msg) ∷ [],
    )
    else (live, [])

-- Whether the reported state completes the job.
unfoldable pub completes : Bool → Job → Bool
completes is_running job = elim job.kind [
  | start ↦ is_running
  | stop ↦ not is_running && is_some job.picked_up_at
]

unfoldable pub finished : Bool → Option Job → Option Job
unfolding completes
finished is_running none = none
finished is_running (some job) = if completes is_running job then some job else none

unfoldable pub finish : Job → Live → Live × List (Level × Str)
finish job live = elim job.kind [
  | start ↦
      let name = opt_map (λ e. e.name) job.exam in
      (
        record live { job = none; error = none; exam_name = name },
        (Level.info, elim name [ some n ↦ txt "Exam running: " ++ n | none ↦ txt "Exam running" ])
            ∷ [],
      )
  | stop ↦ (
    record live { job = none; error = none; exam_name = none },
    (Level.info, txt "Exam stopped") ∷ [],
  )
]

abbrev pub is_zero : ℤ → Bool
is_zero (pos n) = n == 0
is_zero (negsuc n) = false

-- SEB ended without a stop job.
unfoldable pub ended : Option ℤ → Live → Live × List (Level × Str)
ended none live = (
  record live { exam_name = none },
  (Level.warn, txt "SEB session ended without a stop command") ∷ [],
)
ended (some code) live =
    let msg = txt "SEB exited unexpectedly with code " ++ decimal_int code in
    if is_zero code
    then (
      record live { exam_name = none },
      (Level.info, txt "SEB session ended (exit code 0)") ∷ [],
    )
    else (record live { exam_name = none; error = some msg }, (Level.error, msg) ∷ [])

-- Job completion, judged from the reported state.
unfoldable pub judge : Bool → Bool → Option ℤ → Live → Live × List (Level × Str)
unfolding finished finish ended
judge was_running is_running code live = elim (finished is_running live.job) [
  | some job ↦ finish job live
  | none ↦ if was_running && not is_running && is_none live.job then ended code live else (live, [])
]

unfoldable pub name_exam : List Exam → Bool → Option Str → Live → Live
unfolding str_eq
name_exam exams is_running exam_id live =
    let known = opt_bind exam_id (λ id. opt_map (λ e. e.name) (find (λ e. str_eq e.id id) exams)) in
    if is_running && is_none live.exam_name then record live { exam_name = known } else live

-- Hands a waiting job out.
unfoldable pub deliver : Option Job → Instant → Live → Live × HeartbeatReply
deliver none now live = (live, reply_of true)
deliver (some job) now live =
    if is_none job.picked_up_at
    then (
      record live { job = some (record job { picked_up_at = some now }) },
      record (reply_of true) { job = some job.kind; job_id = some job.id; exam = job.exam },
    )
    else (live, reply_of true)

unfoldable pub is_running : Heartbeat → Bool
unfolding str_eq
is_running hb = str_eq hb.state running

-- The update up to `live.hb = hb`, with the events to log.
unfoldable pub receive : List Exam → Option Live → Heartbeat → Instant → Live × List (Level × Str)
unfolding revive note_temp read_result judge name_exam is_running
receive exams old hb now =
    let (revived, back) = revive old now in
    let noted = note_temp hb revived in
    let (reported, failed) = read_result hb.job_result noted.job noted in
    let (judged, done) = judge (is_running revived.hb) (is_running hb) hb.last_exit_code reported in
    let named = name_exam exams (is_running hb) hb.exam_id judged in
    (record named { hb = hb }, back ++ failed ++ done)

-- The whole update, with the reply.
unfoldable pub beat :
    List Exam → Option Live → Heartbeat → Instant → Live × HeartbeatReply × List (Level × Str)
unfolding receive deliver
beat exams old hb now =
    let (kept, events) = receive exams old hb now in
    let (live, reply) = deliver kept.job now kept in (live, reply, events)
