-- ===== src/Agent/Delivery.antt =====
-- A job on its way: from the fleet to the board's agent, and its report back.
use riscv_exam_computer.Base.{
  ◌≡◌, refl, ap, ◌∙◌, true, ◌||◌, Option, none, some, List, arith, if◌then◌else◌, Result, ok, err,
  Str, opt_map,
}
use riscv_exam_computer.Proto.{Heartbeat}
use riscv_exam_computer.SebFile.Values.{Ext}
use riscv_exam_computer.Fleet.Model.{Instant, Exam, Job, Live}
use riscv_exam_computer.Fleet.Beat.{beat, completes, is_running}
use riscv_exam_computer.Fleet.Beat.Delivery.{
  fails, ends, remaining, offer, pick_up, job_of, beat-job,
}
use riscv_exam_computer.Agent.Loop.{Agent, Turn, execute, observe, turn, result_of}
use riscv_exam_computer.Agent.Reports.{turn-sends_result}

-- A job that was handed out and whose failure the report tells is gone after it.
failed_job-gone :
    (exams : List Exam) (old : Option Live) (hb : Heartbeat) (now : Instant) (job : Job)
    → job_of old ≡ some job
    → fails hb.job_result job ≡ true
    → (beat exams old hb now).0.job ≡ none
unfolding remaining ends
failed_job-gone exams old hb now job waits failed =
    (beat-job exams old hb now).0
    ∙ ap (λ o. opt_map (pick_up now) (remaining hb o)) waits
    ∙ ap
        (λ b. opt_map (pick_up now) (if b || completes (is_running hb) job then none else some job))
        failed

pub offer-fresh :
    (job : Job)
    → job.picked_up_at ≡ none
    → ((offer (some job)).job ≡ some job.kind) × ((offer (some job)).job_id ≡ some job.id)
unfolding offer
offer-fresh job h = rw h (refl, refl)

-- A failed result under the job's id.
result-fails :
    (ext : Ext) (now : Instant) (job : Job) (outcome : Result Str (Unit {0})) (why : Str)
    → outcome ≡ err why
    → fails (some (result_of ext job.id outcome)) (pick_up now job) ≡ true
unfolding fails pick_up
result-fails ext now job outcome why e = rw e (ground arith)

module _ (ext : Ext) where
  -- If a heartbeat hands out a waiting job, the agent fails to execute it, and the board still has
  -- that job when the agent's next heartbeat arrives, then this heartbeat takes it off the board.
  pub failed_turn-ends_job :
      (host version : Str) (exams : List Exam) (old later : Option Live) (hb : Heartbeat)
      (now back : Instant) (job : Job) (a : Agent) (t next : Turn) (why : Str)
      → remaining hb (job_of old) ≡ some job
      → job.picked_up_at ≡ none
      → t.reply ≡ ok (beat exams old hb now).1
      → (execute ext
          (record (observe ext a t).0 { job_result = none })
          t
          (beat exams old hb now).1).1
        ≡ err why
      → job_of later ≡ (beat exams old hb now).0.job
      → (beat exams later (turn ext host version (turn ext host version a t).0 next).1 back).0.job
        ≡ none
  failed_turn-ends_job host version exams old later hb now back job a t next why left fresh answered
        failed kept =
      let r = (beat exams old hb now).1 in
      let handed : r ≡ offer (some job) = (beat-job exams old hb now).1 ∙ ap offer left in
      let (kind, id) = offer-fresh job fresh in
      let sent =
        turn-sends_result ext host version a t next r job.kind job.id answered
          (ap (λ x. x.job) handed ∙ kind) (ap (λ x. x.job_id) handed ∙ id) in
      let outcome = (execute ext (record (observe ext a t).0 { job_result = none }) t r).1 in
      let waits : job_of later ≡ some (pick_up now job) =
        kept ∙ (beat-job exams old hb now).0 ∙ ap (opt_map (pick_up now)) left in
      failed_job-gone exams later (turn ext host version (turn ext host version a t).0 next).1 back
        (pick_up now job) waits
        (ap (λ x. fails x (pick_up now job)) sent ∙ result-fails ext now job outcome why failed)
