-- ===== src/Fleet/Model.antt =====
-- The records of fleet.rs and the view types of exam-env/server/src/model.rs.
-- An instant is a number of nanoseconds; `duration_since` stops at zero, as `-` does here.
use riscv_exam_computer.Base.{
  ℕ, ◌*◌, ◌/◌, ◌^◌, Bool, false, not, ◌&&◌, ◌||◌, Option, none, List, [], ◌∷◌, ◌++◌, all, leb, ◌==◌,
  if◌then◌else◌, Str, txt, is_ascii_alphanumeric, utf8_len,
}
use riscv_exam_computer.Base.Words.{F32, ℤ}
use riscv_exam_computer.Base.Decimal.{decimal}
use riscv_exam_computer.Proto.{Heartbeat, JobKind, ExamPayload}
use riscv_exam_computer.Seb.{ExamSpec, first_is}

abbrev pub Instant : Type 0
Instant = ℕ

-- `Duration::from_secs` and `as_secs`.
abbrev pub from_secs : ℕ → ℕ
from_secs s = s * 10 ^ 9

abbrev pub as_secs : ℕ → ℕ
as_secs d = d / 10 ^ 9

abbrev pub offline_after : ℕ
offline_after = from_secs 15

abbrev pub pickup_ttl : ℕ
pickup_ttl = from_secs 60

abbrev pub start_timeout : ℕ
start_timeout = from_secs 90

abbrev pub stop_timeout : ℕ
stop_timeout = from_secs 45

abbrev pub max_events : ℕ
max_events = 5000

abbrev pub max_exams : ℕ
max_exams = 200

abbrev pub max_label : ℕ
max_label = 48

abbrev pub max_exam_name : ℕ
max_exam_name = 80

abbrev pub max_access_code : ℕ
max_access_code = 64

abbrev pub temp_samples : ℕ
temp_samples = 120

pub data Actor : Type 0 where
  instructor board system : Actor

pub data Level : Type 0 where
  info warn error : Level

pub record Exam : Type 0 where
  pub id : Str
  pub name : Str
  pub spec : ExamSpec
  pub created_ms : ℕ
  pub seb_salt : Str

pub record SebBuild : Type 0 where
  pub xml : Str
  pub config_key : Str
  pub start_url : Str

pub record Event : Type 0 where
  pub id : ℕ
  pub at_ms : ℕ
  pub actor : Actor
  pub level : Level
  pub host : Option Str
  pub text : Str

pub record BoardRecord : Type 0 where
  pub host : Str
  pub label : Option Str
  pub first_seen_ms : ℕ
  pub last_seen_ms : ℕ

pub record Snapshot : Type 0 where
  pub version : ℕ
  pub boards : List BoardRecord
  pub exams : List Exam
  pub activity : List Event
  pub next_event_id : ℕ
  pub next_job_id : ℕ

pub record Job : Type 0 where
  pub id : ℕ
  pub kind : JobKind
  pub exam : Option ExamPayload
  pub queued_at : Instant
  pub picked_up_at : Option Instant

pub record Live : Type 0 where
  pub last_seen : Instant
  pub hb : Heartbeat
  pub job : Option Job
  pub error : Option Str
  pub temps : List F32
  pub offline_noted : Bool
  pub exam_name : Option Str

pub record Board : Type 0 where
  pub rec : BoardRecord
  pub live : Option Live

pub data HeartbeatError : Type 0 where
  invalid_host too_many_boards : HeartbeatError

pub record Fleet : Type 0 where
  pub boards : List (Str × Board)
  pub exams : List Exam
  pub log : List Event
  pub next_event_id : ℕ
  pub next_job_id : ℕ
  pub max_boards : ℕ
  pub dirty : Bool
  pub cap_warned : Bool
  pub public_url : Option Str

unfoldable pub new : ℕ → Fleet
new max_boards = record {
  boards = [];
  exams = [];
  log = [];
  next_event_id = 1;
  next_job_id = 1;
  max_boards = max_boards;
  dirty = false;
  cap_warned = false;
  public_url = none;
}

-- The bytes of a host name are all ASCII, or the test fails.
unfoldable pub valid_host : Str → Bool
valid_host host =
    leb 1 (utf8_len host)
    && leb (utf8_len host) 64
    && all (λ b. is_ascii_alphanumeric b || b == b'-' || b == b'.' || b == b'_') host
    && not (first_is b'-' host || first_is b'.' host)

unfoldable pub fmt_ago : ℕ → Str
fmt_ago d =
    let s = as_secs d in
    if leb s 59
    then decimal s ++ txt " s ago"
    else if leb s 3599
    then decimal (s / 60) ++ txt " min ago"
    else decimal (s / 3600) ++ txt " h ago"

pub data Status : Type 0 where
  offline idle starting running stopping error : Status

abbrev pub all_statuses : List Status
all_statuses =
    Status.running ∷ Status.starting ∷ Status.stopping ∷ Status.idle ∷ Status.error ∷ Status.offline
    ∷ []

unfoldable pub word : Status → Str
word Status.offline = txt "Offline"
word Status.idle = txt "Ready"
word Status.starting = txt "Starting…"
word Status.running = txt "Running"
word Status.stopping = txt "Stopping…"
word Status.error = txt "Error"

unfoldable pub slug : Status → Str
slug Status.offline = txt "offline"
slug Status.idle = txt "idle"
slug Status.starting = txt "starting"
slug Status.running = txt "running"
slug Status.stopping = txt "stopping"
slug Status.error = txt "error"

pub record BoardView : Type 0 where
  pub host : Str
  pub label : Option Str
  pub status : Status
  pub detail : Option Str
  pub seen_secs : Option ℕ
  pub cpu_temp_c : Option F32
  pub load1 : Option F32
  pub mem_used_pct : Option ℕ
  pub uptime_s : Option ℕ
  pub ip : Option Str
  pub agent_version : Option Str
  pub seb_version : Option Str
  pub image_hash : Option Str
  pub last_exit_code : Option ℤ
  pub exam_name : Option Str
  pub legacy_agent : Bool

pub record ExamChoice : Type 0 where
  pub id : Str
  pub name : Str

pub record FleetView : Type 0 where
  pub boards : List BoardView
  pub exams : List ExamChoice
  pub max_boards : ℕ

pub record ActionReport : Type 0 where
  pub verb : Str
  pub queued : List Str
  pub skipped : List (Str × Str)
  pub notes : List (Str × Str)

pub record EventView : Type 0 where
  pub id : ℕ
  pub at_ms : ℕ
  pub actor : Actor
  pub level : Level
  pub host : Option Str
  pub text : Str

pub record BoardDetail : Type 0 where
  pub board : BoardView
  pub first_seen_ms : ℕ
  pub mem_total_kb : Option ℕ
  pub mem_available_kb : Option ℕ
  pub load : Option (F32 × F32 × F32)
  pub temp_history : List F32
  pub history : List EventView
  pub exams : List ExamChoice

pub record ExamView : Type 0 where
  pub id : Str
  pub name : Str
  pub start_url : Str
  pub allowed_domains : List Str
  pub allow_quit : Bool
  pub created_ms : ℕ
  pub config_json : Str
  pub has_access_code : Bool
  pub gate_url : Option Str
  pub config_key : Str
