-- ===== src/Fleet/Views.antt =====
-- The views of the fleet that the console and the API show.
pub mod Bounds
use Prim.Native.String.{String}
use riscv_exam_computer.Base.{
  ℕ, ◌+◌, ◌-◌, ◌*◌, ◌/◌, ◌%◌, Bool, true, false, not, ◌&&◌, ◌||◌, Option, none, some, List, [], ◌∷◌,
  ◌++◌, map, min, reverse, ltb, ◌==◌, if◌then◌else◌, length, filter, take, null, is_none, unwrap_or,
  opt_map, opt_bind, opt_filter, Result, ok, err, Str, txt, str_eq, opt_str_eq,
}
use riscv_exam_computer.Base.Words.{u64_mod}
use riscv_exam_computer.Base.OrderedMap.{get, values}
use riscv_exam_computer.Proto.{Heartbeat, MemStats, JobKind, start, stop}
use riscv_exam_computer.Seb.{seb_config}
use riscv_exam_computer.SebFile.Values.{Ext}
use riscv_exam_computer.Fleet.Model.{
  Fleet, Board, Live, Job, Exam, Event, Instant, Actor, Status, BoardView, BoardDetail, ExamChoice,
  ExamView, EventView, FleetView, offline_after, as_secs,
}
use riscv_exam_computer.Fleet.Exams.{gate_url, seb_build}
use riscv_exam_computer.Fleet.Beat.{is_running}

abbrev waiting_text : Option Instant → String → Str
waiting_text none text = txt "Waiting for the board to pick up"
waiting_text (some t) text = txt text

unfoldable pub job_status : Job → Status × Option Str
job_status job = elim job.kind [
  | start ↦ (Status.starting, some (waiting_text job.picked_up_at "Launching SEB"))
  | stop ↦ (Status.stopping, some (waiting_text job.picked_up_at "Closing SEB"))
]

-- Without a job: the last error, or the reported state.
unfoldable pub idle_status : Option Str → Heartbeat → Status × Option Str
unfolding is_running
idle_status (some e) hb = (Status.error, some e)
idle_status none hb = (if is_running hb then Status.running else Status.idle, none)

unfoldable pub live_status : Live → Instant → Status × Option Str
unfolding job_status idle_status
live_status live now =
    if ltb offline_after (now - live.last_seen)
    then (Status.offline, none)
    else elim live.job [ some job ↦ job_status job | none ↦ idle_status live.error live.hb ]

unfoldable pub status_of : Board → Instant → Status × Option Str
unfolding live_status
status_of b now = elim b.live [ none ↦ (Status.offline, none) | some live ↦ live_status live now ]

-- `100 - available.min(total) * 100 / total`, with the product of a u64.
unfoldable pub used_pct : MemStats → ℕ
used_pct m = 100 - min m.available_kb m.total_kb * 100 % u64_mod / m.total_kb

unfoldable pub board_view : Board → Instant → BoardView
unfolding status_of used_pct
board_view b now =
    let hb = opt_map (λ l. l.hb) b.live in
    record {
      host = b.rec.host;
      label = b.rec.label;
      status = (status_of b now).0;
      detail = (status_of b now).1;
      seen_secs = opt_map (λ l. as_secs (now - l.last_seen)) b.live;
      cpu_temp_c = opt_bind hb (λ h. h.cpu_temp_c);
      load1 = opt_bind hb (λ h. opt_map (λ l. l.0) h.load);
      mem_used_pct =
          opt_map used_pct (opt_filter (λ m. ltb 0 m.total_kb) (opt_bind hb (λ h. h.mem)));
      uptime_s = opt_bind hb (λ h. h.uptime_s);
      ip = opt_bind hb (λ h. h.ip);
      agent_version = opt_bind hb (λ h. h.agent_version);
      seb_version = opt_bind hb (λ h. h.seb_version);
      image_hash = opt_bind hb (λ h. h.image_hash);
      last_exit_code = opt_bind hb (λ h. h.last_exit_code);
      exam_name = opt_bind b.live (λ l. l.exam_name);
      legacy_agent = elim hb [ none ↦ false | some h ↦ ltb (unwrap_or h.protocol 1) 2 ];
    }

-- `BoardView::title`.
abbrev pub title : BoardView → Str
title v = unwrap_or v.label v.host

unfoldable pub exam_choices : List Exam → List ExamChoice
exam_choices exams = map (λ (e : Exam). record { id = e.id; name = e.name }) (reverse exams)

unfoldable pub view : Fleet → Instant → FleetView
unfolding board_view exam_choices
view f now = record {
  boards = map (λ b. board_view b now) (values f.boards);
  exams = exam_choices f.exams;
  max_boards = f.max_boards;
}

abbrev actor_eq : Actor → Actor → Bool
actor_eq Actor.instructor Actor.instructor = true
actor_eq Actor.board Actor.board = true
actor_eq Actor.system Actor.system = true
actor_eq _ _ = false

abbrev pub event_view : Event → EventView
event_view e = record {
  id = e.id;
  at_ms = e.at_ms;
  actor = e.actor;
  level = e.level;
  host = e.host;
  text = e.text;
}

unfoldable pub host_matches : Option Str → Event → Bool
unfolding opt_str_eq
host_matches none e = true
host_matches (some h) e = opt_str_eq e.host (some h)

unfoldable pub actor_matches : Option Actor → Event → Bool
actor_matches none e = true
actor_matches (some a) e = actor_eq e.actor a

-- Newest first.
unfoldable pub events : List Event → Option Str → Option Actor → ℕ → List EventView
unfolding host_matches actor_matches
events log host actor limit =
    map event_view
      (take limit (filter (actor_matches actor) (filter (host_matches host) (reverse log))))

unfoldable pub board_count : Fleet → ℕ
board_count f = length f.boards

unfoldable pub board_detail : Fleet → Str → Instant → Board → BoardDetail
unfolding board_view events exam_choices
board_detail f host now b =
    let hb = opt_map (λ l. l.hb) b.live in
    record {
      board = board_view b now;
      first_seen_ms = b.rec.first_seen_ms;
      mem_total_kb = opt_bind hb (λ h. opt_map (λ m. m.total_kb) h.mem);
      mem_available_kb = opt_bind hb (λ h. opt_map (λ m. m.available_kb) h.mem);
      load = opt_bind hb (λ h. h.load);
      temp_history = unwrap_or (opt_map (λ l. l.temps) b.live) [];
      history = events f.log (some host) none 100;
      exams = exam_choices f.exams;
    }

unfoldable pub detail : Fleet → Str → Instant → Option BoardDetail
unfolding board_detail
detail f host now = opt_map (board_detail f host now) (get host f.boards)

module _ (ext : Ext) where
  unfoldable pub config_text : Exam → Str
  unfolding seb_config
  config_text e = elim (seb_config e.spec) [
    | ok v ↦ ext.pretty_json v
    | err reason ↦ txt "// invalid: " ++ reason
  ]

  unfoldable pub key_text : Option Str → Exam → Str
  unfolding seb_build
  key_text public_url e = elim (seb_build ext public_url e) [
    | ok b ↦ b.config_key
    | err reason ↦ []
  ]

  unfoldable pub exam_view : Option Str → Exam → ExamView
  unfolding config_text key_text gate_url
  exam_view public_url e = record {
    id = e.id;
    name = e.name;
    start_url = e.spec.start_url;
    allowed_domains = e.spec.allowed_domains;
    allow_quit = e.spec.allow_quit;
    created_ms = e.created_ms;
    config_json = config_text e;
    has_access_code = not (null e.spec.access_code);
    gate_url = gate_url public_url e.id;
    config_key = key_text public_url e;
  }

  unfoldable pub exam_views : Fleet → List ExamView
  unfolding exam_view
  exam_views f = map (exam_view f.public_url) (reverse f.exams)
