-- ===== src/Tests/Board.antt =====
-- The agent on a board.
use riscv_exam_computer.Base.{◌≡◌, refl, true, none, some, [], Result, ok, err, Str, txt}
use riscv_exam_computer.Proto.{
  JobResult, Heartbeat, HeartbeatReply, JobKind, JobResult, ExamPayload, Json, start, reply_of,
}
use riscv_exam_computer.Fleet.Model.{Live, from_secs}
use riscv_exam_computer.Fleet.Beat.{beat}
use riscv_exam_computer.Agent.Loop.{Agent, Turn, alive, success, initial, execute, observe, turn}
use riscv_exam_computer.Agent.Reports.{IsReportOf, turn-reports}
use riscv_exam_computer.Agent.Delivery.{failed_turn-ends_job}
use riscv_exam_computer.Agent.Running.{started_turn-ends_job}
use riscv_exam_computer.Tests.Data.{plain_ext, host1, idle_beat, waiting_job, waiting_live}

-- A turn on a board that cannot start processes.
abbrev turn_with : Result Str HeartbeatReply → Turn
turn_with reply = record {
  home = txt "/home/orangepi";
  at_top = alive;
  at_start = alive;
  base64 = λ s. ok s;
  write = ok tt;
  spawn = err (txt "no sudo");
  stop_script = success;
  reaped = none;
  stats = record { ip = none; cpu_temp_c = none; load = none; mem = none; uptime_s = none };
  reply = reply;
}

abbrev agent : Agent
agent = initial []

abbrev start_reply : HeartbeatReply
start_reply = record (reply_of true) { job = some start; job_id = some 7 }

abbrev quiet : Turn
quiet = turn_with (ok (reply_of true))

turn-reports_example :
    (res : JobResult) × ((turn plain_ext host1
        (txt "1")
        (turn plain_ext host1 (txt "1") agent (turn_with (ok start_reply))).0
        quiet).1.job_result
      ≡ some res)
    × IsReportOf plain_ext 7
        (execute plain_ext
          (record (observe plain_ext agent (turn_with (ok start_reply))).0 { job_result = none })
          (turn_with (ok start_reply))
          start_reply).1
        res
turn-reports_example =
    turn-reports plain_ext host1 (txt "1") agent (turn_with (ok start_reply)) quiet start_reply
      start 7 refl refl refl

abbrev broken_payload : ExamPayload
broken_payload = record {
  id = txt "e1";
  name = txt "E";
  config = Json.bool true;
  seb = some (txt "junk");
  config_key = none;
}

abbrev broken_reply : HeartbeatReply
broken_reply = record start_reply { exam = some broken_payload }

abbrev handed : Live
handed = (beat [] (some waiting_live) idle_beat (from_secs 2)).0

abbrev offered : Turn
offered = turn_with (ok (beat [] (some waiting_live) idle_beat (from_secs 2)).1)

failed_turn-ends_job_example :
    (beat []
      (some handed)
      (turn plain_ext host1 (txt "1") (turn plain_ext host1 (txt "1") agent offered).0 quiet).1
      (from_secs 7)).0.job
    ≡ none
unfolding beat execute observe txt riscv_exam_computer.Fleet.Beat.Delivery.remaining
    riscv_exam_computer.Proto.running
failed_turn-ends_job_example =
    failed_turn-ends_job plain_ext host1 (txt "1") [] (some waiting_live) (some handed) idle_beat
      (from_secs 2) (from_secs 7) waiting_job agent offered quiet (txt "start seb: no sudo") refl
      refl refl refl refl

-- A turn on a board that starts SEB.
abbrev working : Turn
working = record offered { spawn = ok tt }

started_turn-ends_job_example :
    (beat []
      (some handed)
      (turn plain_ext host1 (txt "1") (turn plain_ext host1 (txt "1") agent working).0 quiet).1
      (from_secs 7)).0.job
    ≡ none
unfolding beat execute observe txt riscv_exam_computer.Fleet.Beat.Delivery.remaining
    riscv_exam_computer.Proto.running
started_turn-ends_job_example =
    started_turn-ends_job plain_ext host1 (txt "1") [] (some waiting_live) (some handed) idle_beat
      (from_secs 2) (from_secs 7) waiting_job agent working quiet refl refl refl refl refl refl refl
