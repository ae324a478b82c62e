-- ===== src/Agent/Reports.antt =====
-- What the agent reports of a job, and its SEB sessions.
use riscv_exam_computer.Base.{
  ℕ, ◌≡◌, ◌↔◌, refl, ap, ◌∙◌, true, Option, none, some, arith, Bool-cases, inl, inr, Result, ok,
  err, Str,
}
use riscv_exam_computer.Proto.{HeartbeatReply, JobKind, JobResult, ExamPayload, start}
use riscv_exam_computer.SebFile.Values.{Ext}
use riscv_exam_computer.Agent.Loop.{
  Agent, Turn, Wait, check_running, install, install_exam, install_bytes, after_install, execute,
  handle, observe, turn, result_of, heartbeat,
}

check_running-job_result : (a : Agent) (w : Wait) → (check_running a w).0.job_result ≡ a.job_result
unfolding check_running
check_running-job_result a w = ground arith

observe-job_result :
    (ext : Ext) (a : Agent) (t : Turn) → (observe ext a t).0.job_result ≡ a.job_result
unfolding observe
observe-job_result ext a t = elim (Bool-cases (check_running a t.at_top).1) [
  | inl e ↦ rw (observe, e) (check_running-job_result a t.at_top)
  | inr e ↦ rw (observe, e) (check_running-job_result a t.at_top)
]

module _ (ext : Ext) where
  -- A heartbeat carries the result that is waiting.
  turn-sends :
      (host version : Str) (a : Agent) (t : Turn)
      → (turn ext host version a t).1.job_result ≡ a.job_result
  unfolding turn heartbeat
  turn-sends host version a t = observe-job_result ext a t

  handle-job_result :
      (a : Agent) (t : Turn) (r : HeartbeatReply) (kind : JobKind) (id : ℕ)
      → r.job ≡ some kind
      → r.job_id ≡ some id
      → (handle ext a t r).job_result ≡ some (result_of ext id (execute ext a t r).1)
  unfolding handle
  handle-job_result a t r kind id job numbered = rw (handle, job, numbered) refl

  pub turn-keeps :
      (host version : Str) (a : Agent) (t : Turn) (r : HeartbeatReply)
      → t.reply ≡ ok r
      → (turn ext host version a t).0
        ≡ handle ext (record (observe ext a t).0 { job_result = none }) t r
  unfolding turn
  turn-keeps host version a t r answered = rw (turn, answered) refl

  -- The report of a job: its id, success exactly for an outcome without an error, and the error.
  pub record IsReportOf (id : ℕ) (outcome : Result Str (Unit {0})) (res : JobResult) : Type 0 where
    pub id_sent : res.id ≡ id
    pub success : (res.ok ≡ true) ↔ (outcome ≡ ok tt)
    pub failure : (why : Str) → (res.message ≡ some why) ↔ (outcome ≡ err why)

  result_of-IsReportOf :
      (id : ℕ) (outcome : Result Str (Unit {0})) → IsReportOf id outcome (result_of ext id outcome)
  result_of-IsReportOf id (ok u) = record {
    id_sent = refl;
    success = (λ h. refl, λ h. refl);
    failure = λ why. (λ h. absurd (cc), λ h. absurd (cc));
  }
  result_of-IsReportOf id (err e) = record {
    id_sent = refl;
    success = (λ h. absurd (cc), λ h. absurd (cc));
    failure = λ why. (λ h. cc, λ h. cc);
  }

  pub turn-sends_result :
      (host version : Str) (a : Agent) (t next : Turn) (r : HeartbeatReply) (kind : JobKind)
      (id : ℕ)
      → t.reply ≡ ok r
      → r.job ≡ some kind
      → r.job_id ≡ some id
      → (turn ext host version (turn ext host version a t).0 next).1.job_result
        ≡ some (
            result_of ext id (execute ext (record (observe ext a t).0 { job_result = none }) t r).1)
  turn-sends_result host version a t next r kind id answered job numbered =
      turn-sends host version (turn ext host version a t).0 next
      ∙ ap (λ b. b.job_result) (turn-keeps host version a t r answered)
      ∙ handle-job_result (record (observe ext a t).0 { job_result = none }) t r kind id job
          numbered

  -- A job that comes with an id is reported by the next heartbeat, whatever happens on the board in
  -- between: under its id, as a success exactly if it was executed without an error, and otherwise
  -- with this error as the message.
  pub turn-reports :
      (host version : Str) (a : Agent) (t next : Turn) (r : HeartbeatReply) (kind : JobKind)
      (id : ℕ)
      → t.reply ≡ ok r
      → r.job ≡ some kind
      → r.job_id ≡ some id
      → (res : JobResult) × ((turn ext host version (turn ext host version a t).0 next).1.job_result
          ≡ some res)
        × IsReportOf id (execute ext (record (observe ext a t).0 { job_result = none }) t r).1 res
  turn-reports host version a t next r kind id answered job numbered =
      let outcome = (execute ext (record (observe ext a t).0 { job_result = none }) t r).1 in
      (
        result_of ext id outcome,
        turn-sends_result host version a t next r kind id answered job numbered,
        result_of-IsReportOf id outcome,
      )

  install-child :
      (a : Agent) (t : Turn) (exam : Option ExamPayload) → (install ext a t exam).0.child ≡ a.child
  unfolding install install_exam install_bytes
  install-child a t none = refl
  install-child a t (some exam) = ground arith

  -- A start whose file cannot be installed fails with that reason and leaves the session, running
  -- or not, as it was.
  execute-start_failed :
      (a : Agent) (t : Turn) (r : HeartbeatReply) (why : Str)
      → r.job ≡ some start
      → (install ext a t r.exam).1 ≡ err why
      → ((execute ext a t r).0.child ≡ a.child) × ((execute ext a t r).1 ≡ err why)
  unfolding execute after_install
  execute-start_failed a t r why job failed =
      rw (execute, job) (of_pair (install ext a t r.exam) failed (install-child a t r.exam))
    where
      of_pair :
          (p : Agent × Result Str (Unit {0}))
          → p.1 ≡ err why
          → p.0.child ≡ a.child
          → ((after_install ext t r.exam p).0.child ≡ a.child)
            × ((after_install ext t r.exam p).1 ≡ err why)
      of_pair (b, ok u) q c = absurd (cc)
      of_pair (b, err e) q c = (c, cc)
