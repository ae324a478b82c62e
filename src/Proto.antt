-- ===== src/Proto.antt =====
-- The wire types of exam-env/proto/src/lib.rs.
use riscv_exam_computer.Base.{ℕ, Bool, Option, none, Str, txt}
use riscv_exam_computer.Base.Words.{ℤ, F32}

abbrev pub protocol_version : ℕ
protocol_version = 3

-- The module `state`.
unfoldable pub idle : Str
unfolding txt
idle = txt "idle"

unfoldable pub running : Str
unfolding txt
running = txt "running"

pub record MemStats : Type 0 where
  pub total_kb : ℕ
  pub available_kb : ℕ

pub record JobResult : Type 0 where
  pub id : ℕ
  pub ok : Bool
  pub message : Option Str

pub record Heartbeat : Type 0 where
  pub host : Str
  pub state : Str
  pub protocol : Option ℕ
  pub agent_version : Option Str
  pub seb_version : Option Str
  pub image_hash : Option Str
  pub ip : Option Str
  pub cpu_temp_c : Option F32
  pub load : Option (F32 × F32 × F32)
  pub mem : Option MemStats
  pub uptime_s : Option ℕ
  pub last_exit_code : Option ℤ
  pub job_result : Option JobResult
  pub exam_id : Option Str

-- `Heartbeat::default()` with the two fields that every agent sends.
abbrev pub heartbeat_of : Str → Str → Heartbeat
heartbeat_of host state = record {
  host = host;
  state = state;
  protocol = none;
  agent_version = none;
  seb_version = none;
  image_hash = none;
  ip = none;
  cpu_temp_c = none;
  load = none;
  mem = none;
  uptime_s = none;
  last_exit_code = none;
  job_result = none;
  exam_id = none;
}

pub data JobKind : Type 0 where
  start stop : JobKind

unfoldable pub as_str : JobKind → Str
unfolding txt
as_str start = txt "start"
as_str stop = txt "stop"

-- `serde_json::Value`, as far as the program builds it; an object is its list of members.
mutual
  pub data Json : Type 0 where
    bool : Bool → Json
    str : Str → Json
    arr : Items → Json
    obj : Members → Json

  pub data Items : Type 0 where
    nil : Items
    cons : Json → Items → Items

  pub data Members : Type 0 where
    end : Members
    member : Str → Json → Members → Members

pub record ExamPayload : Type 0 where
  pub id : Str
  pub name : Str
  pub config : Json
  pub seb : Option Str
  pub config_key : Option Str

pub record HeartbeatReply : Type 0 where
  pub ok : Bool
  pub job : Option JobKind
  pub job_id : Option ℕ
  pub exam : Option ExamPayload
  pub error : Option Str

-- `HeartbeatReply { ok, ..Default::default() }`.
abbrev pub reply_of : Bool → HeartbeatReply
reply_of ok = record { ok = ok; job = none; job_id = none; exam = none; error = none }
