-- ===== src/Sim/Turns.antt =====
-- The turns of a simulated board: what they send, and how a start waits until it is due.
use riscv_exam_computer.Base.{
  ℕ, ◌<◌, ◌≡◌, refl, sym, ap, ◌∙◌, Bool, Option, none, some, List, [], ◌∷◌, All, Result, ok, err,
  Str, Bool-cases, inl, inr,
}
use riscv_exam_computer.Proto.{Heartbeat, HeartbeatReply}
use riscv_exam_computer.Fleet.Model.{Instant}
use riscv_exam_computer.Sim.Floats.{F64, Floats}
use riscv_exam_computer.Sim.Board.{Board, Seb, step, heartbeat, handle}
use riscv_exam_computer.Sim.Stepping.{step-waits}
use riscv_exam_computer.Sim.Round.{
  Round, Runner, is_silent, take_answer, sleep, send, round, rounds,
}

module _ (f : Floats) where
  some-inj : (a b : Heartbeat) → some a ≡ some b → a ≡ b
  some-inj a b h = cc

  pub some-ne-none : (a : Heartbeat) → ¬ (none ≡ some a)
  some-ne-none a h = cc

  -- The heartbeat that a turn sends is made of the board after its step.
  pub round-sends :
      (version : Str) (chaos : F64) (r : Round) (s : Runner) (hb : Heartbeat)
      → (round f version chaos r s).1 ≡ some hb
      → hb
        ≡ heartbeat f version r.at_beat
            (record (step f chaos r.at_step s.board) { silent_until = none })
  unfolding round send
  round-sends version chaos r s hb h =
      elim (Bool-cases (is_silent (step f chaos r.at_step s.board).silent_until r.at_check)) [
        | inl e ↦
            let quiet : (round f version chaos r s).1 ≡ none = rw (round, e) refl in
            absurd (some-ne-none hb (sym quiet ∙ h))
        | inr e ↦
            let sent : (round f version chaos r s).1
                ≡ some (
                    heartbeat f version r.at_beat
                      (record (step f chaos r.at_step s.board) { silent_until = none })) =
              rw (round, e) refl in
            some-inj hb
              (heartbeat f version r.at_beat
                (record (step f chaos r.at_step s.board) { silent_until = none }))
              (sym h ∙ sent)
      ]

  -- The answer hands out no job.
  abbrev pub IsJobless : Result Str (Result Str HeartbeatReply) → Type 0
  IsJobless (err e) = Unit
  IsJobless (ok (err e)) = Unit
  IsJobless (ok (ok reply)) = reply.job ≡ none

  handle-jobless :
      (reply : HeartbeatReply) (chaos : F64) (now : Instant) (b : Board)
      → reply.job ≡ none
      → handle f reply chaos now b ≡ b
  unfolding handle
  handle-jobless reply chaos now b h = rw (handle, h) refl

  answer-keeps :
      (chaos : F64) (now : Instant) (answer : Result Str (Result Str HeartbeatReply)) (s : Runner)
      → IsJobless answer
      → ((take_answer f chaos now answer s).board.seb ≡ s.board.seb)
        × ((take_answer f chaos now answer s).board.legacy ≡ s.board.legacy)
  unfolding take_answer
  answer-keeps chaos now (err e) s h = (refl, refl)
  answer-keeps chaos now (ok (err e)) s h = (refl, refl)
  answer-keeps chaos now (ok (ok reply)) s h =
      let e = handle-jobless reply chaos now (record s.board { job_result = none }) h in
      (ap (λ b. b.seb) e, ap (λ b. b.legacy) e)

  round-keeps :
      (version : Str) (chaos : F64) (r : Round) (s : Runner)
      → IsJobless r.answer
      → ((round f version chaos r s).0.board.seb ≡ (step f chaos r.at_step s.board).seb)
        × ((round f version chaos r s).0.board.legacy ≡ (step f chaos r.at_step s.board).legacy)
  unfolding round send sleep
  round-keeps version chaos r s h =
      let b = record (step f chaos r.at_step s.board) { silent_until = none } in
      let k = answer-keeps chaos r.at_handle r.answer (record s { board = b }) h in
      elim (Bool-cases (is_silent (step f chaos r.at_step s.board).silent_until r.at_check)) [
        | inl e ↦ rw e (refl, refl)
        | inr e ↦ rw e k
      ]

  -- Turns before the start is due, whose answers hand out no other job.
  abbrev pub IsWaiting : Instant → Round → Type 0
  IsWaiting done r = (r.at_step < done) × IsJobless r.answer

  pub rounds-wait :
      (version : Str) (chaos : F64) (done : Instant) (id : ℕ) (exam : Option Str)
      (fail legacy : Bool) (rs : List Round) (s : Runner)
      → All (IsWaiting done) rs
      → s.board.seb ≡ Seb.starting done id exam fail
      → s.board.legacy ≡ legacy
      → ((rounds f version chaos rs s).board.seb ≡ Seb.starting done id exam fail)
        × ((rounds f version chaos rs s).board.legacy ≡ legacy)
  unfolding rounds
  rounds-wait version chaos done id exam fail legacy [] s w h l = (h, l)
  rounds-wait version chaos done id exam fail legacy (r ∷ rs) s ((early, jobless), w) h l =
      let (seb, old) = step-waits f chaos r.at_step done id exam fail s.board h early in
      let (seb', old') = round-keeps version chaos r s jobless in
      rounds-wait version chaos done id exam fail legacy rs (round f version chaos r s).0 w
        (seb' ∙ seb) (old' ∙ old ∙ l)
