-- ===== src/Tests/Data.antt =====
-- The fleet, the exam and the outside functions that the tests use.
use riscv_exam_computer.Base.{
  ℕ, ◌≡◌, ap, true, false, none, some, List, [], ◌∷◌, ◌++◌, drop, ok, Str, txt, to_ascii_lowercase,
}
use riscv_exam_computer.Proto.{Heartbeat, heartbeat_of, start}
use riscv_exam_computer.Seb.{ExamSpec}
use riscv_exam_computer.SebFile.Values.{Ext}
use riscv_exam_computer.Fleet.Model.{Fleet, Board, Live, Job, from_secs}

pub pair-eq {ℓ κ} : {A : Type ℓ} {B : Type κ} (p : A × B) {b : B} → p.1 ≡ b → p ≡ (p.0, b)
pair-eq p h = ap (λ z. (p.0, z)) h

abbrev zeros : List ℕ
zeros = 0 ∷ 0 ∷ 0 ∷ 0 ∷ 0 ∷ 0 ∷ 0 ∷ 0 ∷ []

-- Compression that adds the magic number, and a cipher that does nothing.
abbrev pub plain_ext : Ext
plain_ext = record {
  sha256 = λ bs. bs;
  base64 = λ bs. bs;
  write_xml = λ d. [];
  pretty_json = λ j. [];
  date_xml = λ d. [];
  format_f64 = λ r. [];
  to_lowercase = to_ascii_lowercase;
  gzip = λ bs. 0x1f ∷ 0x8b ∷ bs;
  gunzip = λ bs. ok (drop 2 bs);
  pbkdf2 = λ password salt. password;
  cbc_encrypt = λ key iv plain. plain;
  cbc_decrypt = λ key iv cipher. some cipher;
  hmac_sha256 = λ key bs. zeros ++ (zeros ++ (zeros ++ zeros));
}

abbrev pub host1 : Str
host1 = txt "board-1"

abbrev pub idle_beat : Heartbeat
idle_beat = heartbeat_of host1 (txt "idle")

abbrev pub waiting_job : Job
waiting_job = record {
  id = 7;
  kind = start;
  exam = none;
  queued_at = from_secs 1;
  picked_up_at = none;
}

abbrev pub waiting_live : Live
waiting_live = record {
  last_seen = from_secs 1;
  hb = idle_beat;
  job = some waiting_job;
  error = none;
  temps = [];
  offline_noted = false;
  exam_name = none;
}

abbrev pub idle_live : Live
idle_live = record waiting_live { job = none }

abbrev pub board_with : Live → Board
board_with live = record {
  rec = record { host = host1; label = none; first_seen_ms = 0; last_seen_ms = 0 };
  live = some live;
}

abbrev pub fleet_with : Live → Fleet
fleet_with live = record {
  boards = (host1, board_with live) ∷ [];
  exams = [];
  log = [];
  next_event_id = 1;
  next_job_id = 8;
  max_boards = 3;
  dirty = false;
  cap_warned = false;
  public_url = none;
}

-- A board that waits for a start.
abbrev pub waiting_fleet : Fleet
waiting_fleet = fleet_with waiting_live

abbrev pub exam_spec : ExamSpec
exam_spec = record {
  start_url = txt "https://a.edu/x";
  allowed_domains = txt "b.a.edu" ∷ [];
  allow_quit = true;
  access_code = [];
}
