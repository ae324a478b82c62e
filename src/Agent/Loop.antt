-- ===== src/Agent/Loop.antt =====
-- The agent's state, its three operations on the SEB session, and one turn of its loop. What the
-- system answers is an argument.
use riscv_exam_computer.Base.{
  ℕ, Bool, true, false, Option, none, some, List, ◌++◌, if◌then◌else◌, opt_map, Result, ok, err,
  is_ok, ◌>>=◌, map_err, Str, txt,
}
use riscv_exam_computer.Base.Words.{ℤ, F32}
use riscv_exam_computer.Proto.{
  Heartbeat, HeartbeatReply, JobResult, ExamPayload, MemStats, start, stop, idle, running,
  protocol_version,
}
use riscv_exam_computer.SebFile.Values.{Ext}
use riscv_exam_computer.SebFile.Container.{decode}

-- `c.try_wait()`: still running, ended with an exit code if it has one, or an error.
pub data Wait : Type 0 where
  alive : Wait
  exited : Option ℤ → Wait
  unknown : Wait

-- The stop script: it succeeds, exits with a status, or cannot be run.
pub data Stopped : Type 0 where
  success : Stopped
  failed : Str → Stopped
  no_script : Str → Stopped

pub record Stats : Type 0 where
  pub ip : Option Str
  pub cpu_temp_c : Option F32
  pub load : Option (F32 × F32 × F32)
  pub mem : Option MemStats
  pub uptime_s : Option ℕ

-- What the system does during one turn; `home` is the directory of the user.
pub record Turn : Type 0 where
  pub home : Str
  pub at_top : Wait
  pub at_start : Wait
  pub base64 : Str → Result Str (List ℕ)
  pub write : Result Str (Unit {0})
  pub spawn : Result Str (Unit {0})
  pub stop_script : Stopped
  pub reaped : Option (Option ℤ)
  pub stats : Stats
  pub reply : Result Str HeartbeatReply

-- The variables of `main`, and the file `exam.seb`. `child` tells whether there is a process.
pub record Agent : Type 0 where
  pub child : Bool
  pub exam_id : Option Str
  pub job_result : Option JobResult
  pub last_exit : Option ℤ
  pub exam_file : List ℕ

abbrev pub initial : List ℕ → Agent
initial file = record {
  child = false;
  exam_id = none;
  job_result = none;
  last_exit = none;
  exam_file = file;
}

-- Whether SEB runs; a session that has ended leaves its exit code.
unfoldable pub check_running : Agent → Wait → Agent × Bool
check_running a wait = elim a.child [
  | false ↦ (a, false)
  | true ↦ elim wait [
    | alive ↦ (a, true)
    | exited code ↦ (record a { child = false; last_exit = code }, false)
    | unknown ↦ (record a { child = false }, false)
  ]
]

unfoldable pub start_seb : Agent → Turn → Agent × Result Str (Unit {0})
unfolding check_running
start_seb a t =
    let (b, up) = check_running a t.at_start in
    if up then (b, ok tt) else elim t.spawn [
      | ok u ↦ (record b { child = true }, ok tt)
      | err e ↦ (b, err (txt "start seb: " ++ e))
    ]

unfoldable pub stop_result : Stopped → Result Str (Unit {0})
stop_result success = ok tt
stop_result (failed status) = err (txt "stop script exited with " ++ status)
stop_result (no_script e) = err (txt "stop seb: " ++ e)

abbrev reap : Option (Option ℤ) → Agent → Agent
reap none a = record a { child = false }
reap (some code) a = record a { child = false; last_exit = code }

unfoldable pub stop_seb : Agent → Turn → Agent × Result Str (Unit {0})
unfolding stop_result
stop_seb a t = (if a.child then reap t.reaped a else a, stop_result t.stop_script)

module _ (ext : Ext) where
  unfoldable pub seb_on_disk : List ℕ → Result Str (List ℕ)
  unfolding decode
  seb_on_disk bytes = decode ext bytes none

  -- The bytes to write, if the payload has any.
  unfoldable pub payload_bytes : Turn → Str → Result Str (List ℕ)
  unfolding seb_on_disk
  payload_bytes t b64 = map_err (λ e. txt "bad .seb payload: " ++ e) (t.base64 b64) >>= seb_on_disk

  abbrev write_file : Turn → List ℕ → Agent → Agent × Result Str (Unit {0})
  write_file t bytes a = elim t.write [
    | ok u ↦ (record a { exam_file = bytes }, ok tt)
    | err e ↦ (a, err (txt "writing " ++ t.home ++ txt "/exam.seb: " ++ e))
  ]

  unfoldable pub install_bytes : Turn → Result Str (List ℕ) → Agent → Agent × Result Str (Unit {0})
  install_bytes t (ok bytes) a = write_file t bytes a
  install_bytes t (err e) a = (a, err e)

  unfoldable pub install_exam : Agent → Turn → ExamPayload → Agent × Result Str (Unit {0})
  unfolding payload_bytes install_bytes
  install_exam a t exam = elim exam.seb [
    | none ↦ (a, ok tt)
    | some b64 ↦ install_bytes t (payload_bytes t b64) a
  ]

  unfoldable pub install : Agent → Turn → Option ExamPayload → Agent × Result Str (Unit {0})
  unfolding install_exam
  install a t none = (a, ok tt)
  install a t (some exam) = install_exam a t exam

  abbrev pub note_exam :
      Option ExamPayload → Agent × Result Str (Unit {0}) → Agent × Result Str (Unit {0})
  note_exam exam (a, ok u) = (record a { exam_id = opt_map (λ e. e.id) exam }, ok tt)
  note_exam exam (a, err e) = (a, err e)

  unfoldable pub after_install :
      Turn → Option ExamPayload → Agent × Result Str (Unit {0}) → Agent × Result Str (Unit {0})
  unfolding start_seb
  after_install t exam (a, ok u) = note_exam exam (start_seb a t)
  after_install t exam (a, err e) = (a, err e)

  unfoldable pub execute : Agent → Turn → HeartbeatReply → Agent × Result Str (Unit {0})
  unfolding install after_install stop_seb
  execute a t r = elim r.job [
    | none ↦ (a, ok tt)
    | some start ↦ after_install t r.exam (install a t r.exam)
    | some stop ↦ stop_seb a t
  ]

  abbrev message_of : Result Str (Unit {0}) → Option Str
  message_of (ok u) = none
  message_of (err e) = some e

  abbrev pub result_of : ℕ → Result Str (Unit {0}) → JobResult
  result_of id outcome = record { id = id; ok = is_ok outcome; message = message_of outcome }

  -- The result of a job that has an id.
  abbrev pub report_of :
      HeartbeatReply → Result Str (Unit {0}) → Option JobResult → Option JobResult
  report_of r outcome old = elim r.job_id [
    | none ↦ old
    | some id ↦ elim r.job [ none ↦ old | some kind ↦ some (result_of id outcome) ]
  ]

  unfoldable pub handle : Agent → Turn → HeartbeatReply → Agent
  unfolding execute
  handle a t r =
      let (b, outcome) = execute a t r in record b { job_result = report_of r outcome b.job_result }

  -- `version` is the package's.
  unfoldable pub heartbeat : Str → Str → Agent → Bool → Stats → Heartbeat
  heartbeat host version a up stats = record {
    host = host;
    state = if up then running else idle;
    protocol = some protocol_version;
    agent_version = some version;
    seb_version = none;
    image_hash = none;
    ip = stats.ip;
    cpu_temp_c = stats.cpu_temp_c;
    load = stats.load;
    mem = stats.mem;
    uptime_s = stats.uptime_s;
    last_exit_code = a.last_exit;
    job_result = a.job_result;
    exam_id = a.exam_id;
  }

  abbrev after_reply : Turn → Result Str HeartbeatReply → Agent → Agent
  after_reply t (ok r) a = handle a t r
  after_reply t (err e) a = a

  -- The state that the heartbeat is made of.
  unfoldable pub observe : Agent → Turn → Agent × Bool
  unfolding check_running
  observe a t =
      let (b, up) = check_running a t.at_top in
      ((if up then b else record b { exam_id = none }), up)

  unfoldable pub turn : Str → Str → Agent → Turn → Agent × Heartbeat
  unfolding observe heartbeat handle
  turn host version a t =
      let (b, up) = observe a t in
      (after_reply t t.reply (record b { job_result = none }), heartbeat host version b up t.stats)
