-- ===== src/Agent/Running.antt =====
-- A start that the agent executes, until the server hears of it.
use riscv_exam_computer.Base.{
  ||-true, ◌≡◌, refl, sym, ap, ◌∙◌, true, Option, none, some, List, arith, Result, ok, err, Str,
  opt_map, str_eq_refl,
}
use riscv_exam_computer.Proto.{Heartbeat, HeartbeatReply, start, running}
use riscv_exam_computer.SebFile.Values.{Ext}
use riscv_exam_computer.Fleet.Model.{Instant, Exam, Job, Live}
use riscv_exam_computer.Fleet.Beat.{beat, completes, is_running}
use riscv_exam_computer.Fleet.Beat.Delivery.{
  fails, ends, remaining, offer, pick_up, job_of, beat-job,
}
use riscv_exam_computer.Agent.Loop.{
  Agent, Turn, alive, check_running, start_seb, install, after_install, execute, handle, observe,
  turn, heartbeat, note_exam,
}
use riscv_exam_computer.Agent.Reports.{turn-keeps}
use riscv_exam_computer.Agent.Delivery.{offer-fresh}

-- A session is there after every start that succeeds.
start_seb-child :
    (a : Agent) (t : Turn) → (start_seb a t).1 ≡ ok tt → (start_seb a t).0.child ≡ true
unfolding start_seb check_running
start_seb-child a t h = ground arith

-- Nothing is running before a check that finds nothing, and what runs goes on.
check_running-alive : (a : Agent) → a.child ≡ true → check_running a alive ≡ (a, true)
unfolding check_running
check_running-alive a h = rw h refl

pick_up-kind : (now : Instant) (job : Job) → (pick_up now job).kind ≡ job.kind
unfolding pick_up
pick_up-kind now job = ground arith

completes-start : (job : Job) → job.kind ≡ start → completes true job ≡ true
unfolding completes
completes-start job h = rw (completes, h) refl

-- A report that SEB runs ends a start.
remaining-start :
    (hb : Heartbeat) (job : Job)
    → job.kind ≡ start
    → is_running hb ≡ true
    → remaining hb (some job) ≡ none
unfolding remaining ends
remaining-start hb job kind up =
    let done : completes (is_running hb) job ≡ true =
      ap (λ b. completes b job) up ∙ completes-start job kind in
    rw (done, ||-true (fails hb.job_result job)) refl

module _ (ext : Ext) where
  note_exam-child :
      (r : HeartbeatReply) (p : Agent × Result Str (Unit {0}))
      → (p.1 ≡ ok tt → p.0.child ≡ true)
      → (note_exam ext r.exam p).1 ≡ ok tt
      → (note_exam ext r.exam p).0.child ≡ true
  note_exam-child r (a, ok u) k h = k refl
  note_exam-child r (a, err e) k h = absurd (cc)

  after_install-child :
      (t : Turn) (r : HeartbeatReply) (p : Agent × Result Str (Unit {0}))
      → (after_install ext t r.exam p).1 ≡ ok tt
      → (after_install ext t r.exam p).0.child ≡ true
  unfolding after_install
  after_install-child t r (a, err e) h = absurd (cc)
  after_install-child t r (a, ok u) h = note_exam-child r (start_seb a t) (start_seb-child a t) h

  execute-child :
      (a : Agent) (t : Turn) (r : HeartbeatReply)
      → r.job ≡ some start
      → (execute ext a t r).1 ≡ ok tt
      → (execute ext a t r).0.child ≡ true
  unfolding execute
  execute-child a t r job h =
      let same : execute ext a t r ≡ after_install ext t r.exam (install ext a t r.exam) =
        rw (execute, job) refl in
      ap (λ p. p.0.child) same
      ∙ after_install-child t r (install ext a t r.exam) (ap (λ p. p.1) (sym same) ∙ h)

  handle-child :
      (a : Agent) (t : Turn) (r : HeartbeatReply)
      → (handle ext a t r).child ≡ (execute ext a t r).0.child
  unfolding handle
  handle-child a t r = refl

  -- A board whose session is alive reports that it runs.
  turn-running :
      (host version : Str) (a : Agent) (t : Turn)
      → a.child ≡ true
      → t.at_top ≡ alive
      → is_running (turn ext host version a t).1 ≡ true
  unfolding turn observe heartbeat is_running
  turn-running host version a t child up =
      let seen : check_running a t.at_top ≡ (a, true) =
        ap (check_running a) up ∙ check_running-alive a child in
      rw (turn, observe, heartbeat, is_running, seen) (str_eq_refl running)

  -- If a heartbeat hands out a waiting start, the agent executes it without an error, the session is
  -- alive when the agent's next turn begins, and the board still has the job when the heartbeat of
  -- that turn arrives, then this heartbeat completes the job.
  pub started_turn-ends_job :
      (host version : Str) (exams : List Exam) (old later : Option Live) (hb : Heartbeat)
      (now back : Instant) (job : Job) (a : Agent) (t next : Turn)
      → remaining hb (job_of old) ≡ some job
      → job.picked_up_at ≡ none
      → job.kind ≡ start
      → t.reply ≡ ok (beat exams old hb now).1
      → (execute ext
          (record (observe ext a t).0 { job_result = none })
          t
          (beat exams old hb now).1).1
        ≡ ok tt
      → next.at_top ≡ alive
      → job_of later ≡ (beat exams old hb now).0.job
      → (beat exams later (turn ext host version (turn ext host version a t).0 next).1 back).0.job
        ≡ none
  started_turn-ends_job host version exams old later hb now back job a t next left fresh kind
        answered done up kept =
      let r = (beat exams old hb now).1 in
      let handed : r ≡ offer (some job) = (beat-job exams old hb now).1 ∙ ap offer left in
      let b = record (observe ext a t).0 { job_result = none } in
      let asked : r.job ≡ some start =
        ap (λ x. x.job) handed ∙ (offer-fresh job fresh).0 ∙ ap some kind in
      let child : (turn ext host version a t).0.child ≡ true =
        ap (λ x. x.child) (turn-keeps ext host version a t r answered)
        ∙ handle-child b t r
        ∙ execute-child b t r asked done in
      let report = (turn ext host version (turn ext host version a t).0 next).1 in
      let running_now = turn-running host version (turn ext host version a t).0 next child up in
      let waits : job_of later ≡ some (pick_up now job) =
        kept ∙ (beat-job exams old hb now).0 ∙ ap (opt_map (pick_up now)) left in
      (beat-job exams later report back).0
      ∙ ap (λ o. opt_map (pick_up back) (remaining report o)) waits
      ∙ ap (opt_map (pick_up back))
          (remaining-start report (pick_up now job) (pick_up-kind now job ∙ kind) running_now)
