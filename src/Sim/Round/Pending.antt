-- ===== src/Sim/Round/Pending.antt =====
-- The result of a job between the turn that has it and the answer to its heartbeat.
use riscv_exam_computer.Base.{
  ◌≡◌, refl, Bool, not, ◌&&◌, none, some, arith, if◌then◌else◌, opt_map, Result, ok, err, is_ok,
  Str, Bool-cases, inl, inr,
}
use riscv_exam_computer.Proto.{HeartbeatReply}
use riscv_exam_computer.Fleet.Model.{Instant}
use riscv_exam_computer.Sim.Floats.{F64, Floats}
use riscv_exam_computer.Sim.Board.{Board, step, heartbeat, handle}
use riscv_exam_computer.Sim.Round.{Round, Runner, is_silent, take_answer, sleep, send, round}

module _ (f : Floats) where
  handle-job_result :
      (reply : HeartbeatReply) (chaos : F64) (now : Instant) (b : Board)
      → (handle f reply chaos now b).job_result ≡ b.job_result
  unfolding handle
  handle-job_result reply chaos now b = ground arith

  take_answer-job_result :
      (chaos : F64) (now : Instant) (answer : Result Str (Result Str HeartbeatReply)) (s : Runner)
      → (take_answer f chaos now answer s).board.job_result
        ≡ (if is_ok answer then none else s.board.job_result)
  unfolding take_answer
  take_answer-job_result chaos now (err e) s = refl
  take_answer-job_result chaos now (ok (err e)) s = refl
  take_answer-job_result chaos now (ok (ok reply)) s =
      handle-job_result reply chaos now (record s.board { job_result = none })

  heartbeat-job_result :
      (version : Str) (now : Instant) (b : Board)
      → (heartbeat f version now b).job_result ≡ (if b.legacy then none else b.job_result)
  unfolding heartbeat
  heartbeat-job_result version now b = ground arith

  abbrev pub silent_in : F64 → Round → Board → Bool
  silent_in chaos r b = is_silent (step f chaos r.at_step b).silent_until r.at_check

  -- In each turn, the result that the board has after its step is in the heartbeat, if one is sent and the
  -- board speaks the new protocol, and is forgotten exactly if that heartbeat is answered.
  pub round-job_result :
      (version : Str) (chaos : F64) (r : Round) (s : Runner)
      → ((round f version chaos r s).0.board.job_result ≡ (
          if not (silent_in chaos r s.board) && is_ok r.answer
          then none
          else (step f chaos r.at_step s.board).job_result))
        × (opt_map (λ hb. hb.job_result) (round f version chaos r s).1 ≡ (
            if silent_in chaos r s.board
            then none
            else some (
                if (step f chaos r.at_step s.board).legacy
                then none
                else (step f chaos r.at_step s.board).job_result)))
  unfolding round send sleep
  round-job_result version chaos r s =
      let b = record (step f chaos r.at_step s.board) { silent_until = none } in
      let t = take_answer-job_result chaos r.at_handle r.answer (record s { board = b }) in
      let h = heartbeat-job_result version r.at_beat b in
      elim (Bool-cases (silent_in chaos r s.board)) [
        | inl e ↦ rw e (refl, refl)
        | inr e ↦ rw e (t, rw h refl)
      ]
