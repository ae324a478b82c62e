-- ===== src/Fleet/Beat/Delivery.antt =====
-- How a job is handed to a board, and how a report ends it.
use riscv_exam_computer.Base.{
  ◌≡◌, refl, sym, ap, subst, ◌∙◌, Bool, true, false, ◌||◌, Option, none, some, List, arith, is_some,
  is_none, if◌then◌else◌, opt_bind, opt_map, Str,
}
use riscv_exam_computer.Base.Words.{ℤ}
use riscv_exam_computer.Proto.{Heartbeat, HeartbeatReply, JobResult, reply_of}
use riscv_exam_computer.Fleet.Model.{Instant, Exam, Job, Live}
use riscv_exam_computer.Fleet.Beat.{
  revive, note_temp, read_result, judge, name_exam, deliver, is_running, receive, beat, job_failed,
  completes,
}

-- The report says that the job failed.
unfoldable pub fails : Option JobResult → Job → Bool
fails none job = false
fails (some res) job = job_failed res job

-- The report ends the job, by a failure or by the state that it was to reach.
unfoldable pub ends : Heartbeat → Job → Bool
unfolding fails completes is_running
ends hb job = fails hb.job_result job || completes (is_running hb) job

-- The job that is left after the report, before it is handed out.
unfoldable pub remaining : Heartbeat → Option Job → Option Job
unfolding ends
remaining hb none = none
remaining hb (some job) = if ends hb job then none else some job

-- The reply that hands a job out, if it waits to be picked up.
unfoldable pub offer : Option Job → HeartbeatReply
offer none = reply_of true
offer (some job) =
    if is_none job.picked_up_at
    then record (reply_of true) { job = some job.kind; job_id = some job.id; exam = job.exam }
    else reply_of true

unfoldable pub pick_up : Instant → Job → Job
pick_up now job = if is_none job.picked_up_at then record job { picked_up_at = some now } else job

abbrev pub job_of : Option Live → Option Job
job_of live = opt_bind live (λ l. l.job)

read_result-job :
    (res : Option JobResult) (job : Option Job) (live : Live)
    → live.job ≡ job
    → (read_result res job live).0.job ≡ opt_bind job (λ j. if fails res j then none else some j)
unfolding read_result fails
read_result-job none none live e = e
read_result-job none (some job) live e = e
read_result-job (some res) none live e = e
read_result-job (some res) (some job) live e = ground arith

judge-job :
    (was now : Bool) (code : Option ℤ) (live : Live)
    → (judge was now code live).0.job
      ≡ opt_bind live.job (λ j. if completes now j then none else some j)
unfolding judge
judge-job was now code live = ground arith

name_exam-job :
    (exams : List Exam) (up : Bool) (id : Option Str) (live : Live)
    → (name_exam exams up id live).job ≡ live.job
unfolding name_exam
name_exam-job exams up id live = ground arith

revive-job : (old : Option Live) (now : Instant) → (revive old now).0.job ≡ job_of old
unfolding revive
revive-job none now = refl
revive-job (some live) now = refl

note_temp-job : (hb : Heartbeat) (live : Live) → (note_temp hb live).job ≡ live.job
unfolding note_temp
note_temp-job hb live = refl

deliver_lem :
    (job : Option Job) (now : Instant) (live : Live)
    → live.job ≡ job
    → ((deliver job now live).0.job ≡ opt_map (pick_up now) job)
      × ((deliver job now live).1 ≡ offer job)
unfolding deliver pick_up offer
deliver_lem none now live e = ground arith
deliver_lem (some job) now live e = ground arith

-- Before a job is handed out, only the report decides what is left of it.
remaining_lem :
    (res : Option JobResult) (hb : Heartbeat) (up : Bool) (job : Option Job)
    → res ≡ hb.job_result
    → up ≡ is_running hb
    → opt_bind
        (opt_bind job (λ j. if fails res j then none else some j))
        (λ j. if completes up j then none else some j)
      ≡ remaining hb job
unfolding remaining
remaining_lem res hb up none e k = refl
remaining_lem res hb up (some job) e k = ground arith

pub receive-job :
    (exams : List Exam) (old : Option Live) (hb : Heartbeat) (now : Instant)
    → (receive exams old hb now).0.job ≡ remaining hb (job_of old)
unfolding receive
receive-job exams old hb now =
    let noted = note_temp hb (revive old now).0 in
    let same : noted.job ≡ job_of old = note_temp-job hb (revive old now).0 ∙ revive-job old now in
    let reported = (read_result hb.job_result noted.job noted).0 in
    let judged =
      (judge (is_running (revive old now).0.hb) (is_running hb) hb.last_exit_code reported).0 in
    name_exam-job exams (is_running hb) hb.exam_id judged
    ∙ (judge-job (is_running (revive old now).0.hb) (is_running hb) hb.last_exit_code reported
        ∙ (ap (λ o. opt_bind o (λ j. if completes (is_running hb) j then none else some j))
              (read_result-job hb.job_result noted.job noted refl)
            ∙ (remaining_lem hb.job_result hb (is_running hb) noted.job refl refl
                ∙ ap (remaining hb) same)))

-- What a heartbeat does to the job of its board: the job goes if the report ends it; otherwise it
-- stays, with its pickup noted, and the reply hands it out exactly if it was waiting.
pub beat-job :
    (exams : List Exam) (old : Option Live) (hb : Heartbeat) (now : Instant)
    → ((beat exams old hb now).0.job ≡ opt_map (pick_up now) (remaining hb (job_of old)))
      × ((beat exams old hb now).1 ≡ offer (remaining hb (job_of old)))
unfolding beat
beat-job exams old hb now =
    let kept = (receive exams old hb now).0 in
    let handed = deliver_lem kept.job now kept refl in
    let e = receive-job exams old hb now in
    (handed.0 ∙ ap (opt_map (pick_up now)) e, handed.1 ∙ ap offer e)

-- No job of the board waits to be picked up.
abbrev pub IsHandedOut : Option Job → Type 0
IsHandedOut none = Unit
IsHandedOut (some job) = is_some job.picked_up_at ≡ true

picked_up-IsHandedOut : (now : Instant) (job : Option Job) → IsHandedOut (opt_map (pick_up now) job)
unfolding pick_up
picked_up-IsHandedOut now none = tt
picked_up-IsHandedOut now (some job) = ground arith

pub beat-IsHandedOut :
    (exams : List Exam) (old : Option Live) (hb : Heartbeat) (now : Instant)
    → IsHandedOut (beat exams old hb now).0.job
beat-IsHandedOut exams old hb now =
    subst IsHandedOut (sym (beat-job exams old hb now).0)
      (picked_up-IsHandedOut now (remaining hb (job_of old)))

offer-none_of_IsHandedOut :
    (hb : Heartbeat) (job : Option Job) → IsHandedOut job → (offer (remaining hb job)).job ≡ none
unfolding offer remaining
offer-none_of_IsHandedOut hb none h = refl
offer-none_of_IsHandedOut hb (some job) h = ground arith

-- Then the next report is answered without a job.
pub beat-no_job :
    (exams : List Exam) (old : Option Live) (hb : Heartbeat) (now : Instant)
    → IsHandedOut (job_of old)
    → (beat exams old hb now).1.job ≡ none
beat-no_job exams old hb now h =
    ap (λ r. r.job) (beat-job exams old hb now).1 ∙ offer-none_of_IsHandedOut hb (job_of old) h
