-- ===== src/Sim/Round.antt =====
-- One turn of the loop of `run`: what a simulated board sends, and what becomes of it.
pub mod Pending
use riscv_exam_computer.Base.{
  ℕ, zero, suc, ◌+◌, ◌%◌, ◌^◌, Bool, true, false, Option, none, some, List, [], ◌∷◌, ltb,
  if◌then◌else◌, Result, ok, err, Str, txt,
}
use riscv_exam_computer.Proto.{Heartbeat, HeartbeatReply}
use riscv_exam_computer.Fleet.Model.{Instant}
use riscv_exam_computer.Sim.Floats.{F64, Floats}
use riscv_exam_computer.Sim.Rng.{range}
use riscv_exam_computer.Sim.Board.{Board, step, heartbeat, handle}

-- The instants at which the clock is read, and the answer: an error of the transport, a text that
-- is no reply, or a reply.
pub record Round : Type 0 where
  pub at_step : Instant
  pub at_check : Instant
  pub at_beat : Instant
  pub at_handle : Instant
  pub answer : Result Str (Result Str HeartbeatReply)

-- The variables of `run`; `failures` counts the heartbeats without an answer.
pub record Runner : Type 0 where
  pub board : Board
  pub failures : ℕ

-- The board is still off the network.
abbrev pub is_silent : Option Instant → Instant → Bool
is_silent none now = false
is_silent (some until) now = ltb now until

module _ (f : Floats) where
  unfoldable pub take_answer :
      F64 → Instant → Result Str (Result Str HeartbeatReply) → Runner → Runner
  unfolding handle
  take_answer chaos now (err e) s = record s { failures = (s.failures + 1) % 2 ^ 32 }
  take_answer chaos now (ok (err e)) s = record s {
    board = record s.board { job_result = none };
    failures = 0;
  }
  take_answer chaos now (ok (ok reply)) s = record s {
    board = handle f reply chaos now (record s.board { job_result = none });
    failures = 0;
  }

  -- The jitter of the sleep is drawn from the generator.
  unfoldable pub sleep : Runner → Runner
  unfolding range
  sleep s = record s {
    board = record s.board {
      rng = (range f (f.lit (txt "0.9")) (f.lit (txt "1.1")) s.board.rng).1;
    };
  }

  unfoldable pub send : Str → F64 → Round → Runner → Runner × Option Heartbeat
  unfolding take_answer sleep heartbeat
  send version chaos r s = (
    sleep (take_answer chaos r.at_handle r.answer s),
    some (heartbeat f version r.at_beat s.board),
  )

  unfoldable pub round : Str → F64 → Round → Runner → Runner × Option Heartbeat
  unfolding step send
  round version chaos r s =
      let b = step f chaos r.at_step s.board in
      if is_silent b.silent_until r.at_check
      then (record s { board = b }, none)
      else send version chaos r (record s { board = record b { silent_until = none } })

  unfoldable pub rounds : Str → F64 → List Round → Runner → Runner
  unfolding round
  rounds version chaos [] s = s
  rounds version chaos (r ∷ rs) s = rounds version chaos rs (round version chaos r s).0
