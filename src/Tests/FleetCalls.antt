-- ===== src/Tests/FleetCalls.antt =====
-- Heartbeats, ticks and histories of calls.
use riscv_exam_computer.Base.{
  ℕ, ◌+◌, ◌≤◌, ◌<◌, max, ◌≡◌, ◌≢◌, ◌↔◌, ◌⊎◌, refl, sym, ap, Bool, true, false, Option, none, some,
  List, [], ◌∷◌, ◌++◌, arith, All, length, Result, ok, err, Str, txt, is_ok, is_some, opt_map,
  opt_filter, str_eq, if◌then◌else◌,
}
use riscv_exam_computer.Base.OrderedMap.{get}
use riscv_exam_computer.Proto.{Heartbeat, HeartbeatReply, heartbeat_of, reply_of, start, stop}
use riscv_exam_computer.Fleet.Model.{
  Fleet, Board, Live, from_secs, new, valid_host, Level, Actor, Event,
}
use riscv_exam_computer.Fleet.Log.{log_all}
use riscv_exam_computer.Fleet.Beat.{beat}
use riscv_exam_computer.Fleet.Beat.Delivery.{remaining, offer, pick_up, beat-job}
use riscv_exam_computer.Fleet.Heartbeat.{heartbeat}
use riscv_exam_computer.Fleet.Once.{heartbeat-hands_out_once}
use riscv_exam_computer.Fleet.Heartbeat.Admission.{heartbeat_answered_iff}
use riscv_exam_computer.Fleet.Tick.{tick, tick_board, tick_live}
use riscv_exam_computer.Fleet.Tick.Expiry.{IsCurrent, tick-IsCurrent}
use riscv_exam_computer.Fleet.Invariant.Boards.{IsWellFormed}
use riscv_exam_computer.Fleet.Invariant.Calls.{
  Call, beats, ticks, enqueues, renames, creates, forgets, run, run-new-IsWellFormed,
}
use riscv_exam_computer.Tests.Data.{
  pair-eq, plain_ext, host1, idle_beat, waiting_job, waiting_live, waiting_fleet, board_with,
  exam_spec,
}

abbrev picked_fleet : Fleet
picked_fleet = (heartbeat waiting_fleet idle_beat (from_secs 2) 0).0

abbrev start_reply : HeartbeatReply
start_reply = record (reply_of true) { job = some start; job_id = some 7 }

-- What happens between two heartbeats of the board: a tick, a request that replaces the job, a new name.
abbrev between : List Call
between =
    ticks (from_secs 3) 1
    ∷ enqueues (host1 ∷ []) stop none (from_secs 4) 2
    ∷ renames host1 (txt "Seat 4") 3
    ∷ []

abbrev replaced_fleet : Fleet
replaced_fleet = run plain_ext picked_fleet between

abbrev later_reply : HeartbeatReply
later_reply = record (reply_of true) { job = some stop; job_id = some 8 }

heartbeat-hands_out_once_example : later_reply.job_id ≢ some 7
unfolding heartbeat txt valid_host riscv_exam_computer.Base.utf8_len
    riscv_exam_computer.Base.is_ascii_alphanumeric riscv_exam_computer.Base.OrderedMap.contains_key
    beat riscv_exam_computer.Proto.running log_all riscv_exam_computer.Base.OrderedMap.update run
    riscv_exam_computer.Fleet.Admin.rename riscv_exam_computer.Fleet.Enqueue.enqueue tick
heartbeat-hands_out_once_example =
    heartbeat-hands_out_once plain_ext waiting_fleet picked_fleet
      (heartbeat replaced_fleet idle_beat (from_secs 5) 4).0 between idle_beat idle_beat
      (from_secs 2) (from_secs 5) 0 4 7 start_reply later_reply
      (pair-eq (heartbeat waiting_fleet idle_beat (from_secs 2) 0) refl) refl (omega arith)
      (tt, (omega arith, (tt, tt))) refl
      (pair-eq (heartbeat replaced_fleet idle_beat (from_secs 5) 4) refl)

abbrev history : List Call
history =
    beats idle_beat (from_secs 1) 1
    ∷ creates (txt "e1") (txt "Exam") exam_spec (1 ∷ []) 2
    ∷ ticks (from_secs 90) 3
    ∷ forgets host1 4
    ∷ []

run-new-IsWellFormed_example : IsWellFormed (run plain_ext (new 3) history)
run-new-IsWellFormed_example = run-new-IsWellFormed plain_ext 3 history (tt, (refl, (tt, (tt, tt))))

beat-job_example :
    ((beat [] (some waiting_live) idle_beat (from_secs 2)).0.job
      ≡ opt_map (pick_up (from_secs 2)) (remaining idle_beat (some waiting_job)))
    × ((beat [] (some waiting_live) idle_beat (from_secs 2)).1
        ≡ offer (remaining idle_beat (some waiting_job)))
beat-job_example = beat-job [] (some waiting_live) idle_beat (from_secs 2)

heartbeat_answered_iff_example : (is_ok (heartbeat waiting_fleet idle_beat 5 0).1 ≡ true) ↔ (
    (valid_host host1 ≡ true)
    × ((is_some (get host1 waiting_fleet.boards) ≡ true)
        ⊎ (length waiting_fleet.boards < waiting_fleet.max_boards)))
heartbeat_answered_iff_example = heartbeat_answered_iff waiting_fleet idle_beat 5 0

other-ne : txt "board-2" ≢ host1
unfolding str_eq txt
other-ne h = let q : false ≡ true = ap (str_eq (txt "board-2")) (sym h) in cc

abbrev ticked_board : Board
ticked_board = (tick_board (from_secs 100) (board_with waiting_live)).0

abbrev ticked_live : Live
ticked_live = (tick_live (from_secs 100) waiting_live).0

tick-IsCurrent_example : IsCurrent (from_secs 100) ticked_live
unfolding tick get txt
tick-IsCurrent_example =
    tick-IsCurrent waiting_fleet (from_secs 100) 0 host1 ticked_board ticked_live refl refl

-- Events of two boards.
abbrev mixed_log : List Event
mixed_log =
    (log_all waiting_fleet 0 Actor.board host1
      ((Level.info, txt "a") ∷ (Level.warn, txt "b") ∷ [])).log
    ++ (log_all waiting_fleet 0 Actor.board (txt "board-2") ((Level.info, txt "c") ∷ [])).log
