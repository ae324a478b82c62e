-- ===== src/Fleet/Beat/Temperatures.antt =====
-- The temperature samples of a board.
use riscv_exam_computer.Base.{
  ◌≤◌, ◌≡◌, refl, ap, ◌∙◌, Bool, Option, none, some, List, [], ◌∷◌, ◌++◌, arith, length, opt_filter,
  Str,
}
use riscv_exam_computer.Base.Words.{ℤ, F32, is_finite}
use riscv_exam_computer.Proto.{Heartbeat, JobResult}
use riscv_exam_computer.Fleet.Model.{Instant, Exam, Job, Live, temp_samples}
use riscv_exam_computer.Fleet.Log.Frame.{length-trim_front}
use riscv_exam_computer.Fleet.Beat.{
  revive, push_temp, note_temp, read_result, judge, finish, ended, name_exam, deliver, is_running,
  receive, beat,
}

abbrev pub temps_of : Option Live → List F32
temps_of none = []
temps_of (some live) = live.temps

revive-temps : (old : Option Live) (now : Instant) → (revive old now).0.temps ≡ temps_of old
unfolding revive
revive-temps none now = refl
revive-temps (some live) now = refl

note_temp-temps :
    (hb : Heartbeat) (live : Live)
    → (note_temp hb live).temps ≡ push_temp (opt_filter is_finite hb.cpu_temp_c) live.temps
unfolding note_temp
note_temp-temps hb live = refl

read_result-temps :
    (res : Option JobResult) (job : Option Job) (live : Live)
    → (read_result res job live).0.temps ≡ live.temps
unfolding read_result
read_result-temps none job live = ground arith
read_result-temps (some res) none live = refl
read_result-temps (some res) (some job) live = ground arith

finish-temps : (job : Job) (live : Live) → (finish job live).0.temps ≡ live.temps
unfolding finish
finish-temps job live = ground arith

ended-temps : (code : Option ℤ) (live : Live) → (ended code live).0.temps ≡ live.temps
unfolding ended
ended-temps none live = refl
ended-temps (some code) live = ground arith

judge-temps :
    (was now : Bool) (code : Option ℤ) (live : Live)
    → (judge was now code live).0.temps ≡ live.temps
unfolding judge
judge-temps was now code live = ground arith

name_exam-temps :
    (exams : List Exam) (up : Bool) (id : Option Str) (live : Live)
    → (name_exam exams up id live).temps ≡ live.temps
unfolding name_exam
name_exam-temps exams up id live = ground arith

deliver-temps :
    (job : Option Job) (now : Instant) (live : Live) → (deliver job now live).0.temps ≡ live.temps
unfolding deliver
deliver-temps none now live = refl
deliver-temps (some job) now live = ground arith

receive-temps :
    (exams : List Exam) (old : Option Live) (hb : Heartbeat) (now : Instant)
    → (receive exams old hb now).0.temps
      ≡ push_temp (opt_filter is_finite hb.cpu_temp_c) (temps_of old)
unfolding receive
receive-temps exams old hb now =
    let revived = (revive old now).0 in
    let noted = note_temp hb revived in
    let reported = (read_result hb.job_result noted.job noted).0 in
    let judged = (judge (is_running revived.hb) (is_running hb) hb.last_exit_code reported).0 in
    name_exam-temps exams (is_running hb) hb.exam_id judged
    ∙ (judge-temps (is_running revived.hb) (is_running hb) hb.last_exit_code reported
        ∙ (read_result-temps hb.job_result noted.job noted
            ∙ (note_temp-temps hb revived
                ∙ ap (push_temp (opt_filter is_finite hb.cpu_temp_c)) (revive-temps old now))))

-- A heartbeat, whatever else it reports, appends its temperature, if it has a finite one, to the
-- board's samples and drops the oldest beyond the newest 120.
beat-temps :
    (exams : List Exam) (old : Option Live) (hb : Heartbeat) (now : Instant)
    → (beat exams old hb now).0.temps
      ≡ push_temp (opt_filter is_finite hb.cpu_temp_c) (temps_of old)
unfolding beat
beat-temps exams old hb now =
    let kept = (receive exams old hb now).0 in
    deliver-temps kept.job now kept ∙ receive-temps exams old hb now

push_temp-length :
    (t : Option F32) (temps : List F32)
    → length temps ≤ temp_samples
    → length (push_temp t temps) ≤ temp_samples
push_temp-length none temps h = h
push_temp-length (some t) temps h = length-trim_front temp_samples (temps ++ t ∷ [])

pub beat-temps_length :
    (exams : List Exam) (old : Option Live) (hb : Heartbeat) (now : Instant)
    → length (temps_of old) ≤ temp_samples
    → length (beat exams old hb now).0.temps ≤ temp_samples
beat-temps_length exams old hb now h =
    rw (beat-temps exams old hb now)
      (push_temp-length (opt_filter is_finite hb.cpu_temp_c) (temps_of old) h)
