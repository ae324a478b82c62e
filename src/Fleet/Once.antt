-- ===== src/Fleet/Once.antt =====
-- A job over its life: from the heartbeat that hands it out, through any calls, to later heartbeats.
pub mod Past
pub mod Beats
pub mod Requests
pub mod Kept
use riscv_exam_computer.Base.{
  ℕ, ◌+◌, ◌<◌, ◌≡◌, ◌≢◌, refl, sym, ap, ◌∙◌, subst, Bool, false, ◌&&◌, Option, some, List, [], ◌∷◌,
  arith, length, take, ok, Str, ◌==◌,
}
use riscv_exam_computer.Base.Words.{u64_mod}
use riscv_exam_computer.Base.OrderedMap.{get}
use riscv_exam_computer.Proto.{Heartbeat, HeartbeatReply}
use riscv_exam_computer.SebFile.Values.{Ext}
use riscv_exam_computer.Fleet.Model.{Fleet}
use riscv_exam_computer.Fleet.Beat.Delivery.{job_of, beat-IsHandedOut, beat-job}
use riscv_exam_computer.Fleet.Heartbeat.{live_of, heartbeat}
use riscv_exam_computer.Fleet.Heartbeat.Delivery.{heartbeat-IsAnswered}
use riscv_exam_computer.Fleet.Invariant.Calls.{Call, enqueues, step, run}
use riscv_exam_computer.Fleet.Once.Past.{IsSpent, IsPast, board_job, handed-IsSpent, offer-IsSpent}
use riscv_exam_computer.Fleet.Once.Beats.{heartbeat_lem}
use riscv_exam_computer.Fleet.Once.Kept.{HasIds, step-IsPast}

-- The counter of jobs does not wrap in any of the calls.
abbrev pub HaveIds : Ext → Fleet → List Call → Type 0
HaveIds ext f [] = Unit
HaveIds ext f (c ∷ cs) = HasIds f c × HaveIds ext (step ext f c) cs

run-IsPast :
    (j : ℕ) (host : Str) (ext : Ext) (f : Fleet) (cs : List Call)
    → HaveIds ext f cs
    → IsPast j host f
    → IsPast j host (run ext f cs)
unfolding run
run-IsPast j host ext f [] room p = p
run-IsPast j host ext f (c ∷ cs) (now, room) p =
    run-IsPast j host ext (step ext f c) cs room (step-IsPast j host ext f c now p)

-- A job that a heartbeat hands out is handed out once. Whatever calls follow, of this board or of others,
-- with ticks and requests that replace the job included, no later heartbeat of the board is answered
-- with the job's id: as long as the counter of jobs, which has passed the id, does not wrap.
pub heartbeat-hands_out_once :
    (ext : Ext) (f g h : Fleet) (cs : List Call) (hb hb' : Heartbeat)
    (now later wall_ms wall_ms' j : ℕ) (r r' : HeartbeatReply)
    → heartbeat f hb now wall_ms ≡ (g, ok r)
    → r.job_id ≡ some j
    → j < f.next_job_id
    → HaveIds ext g cs
    → hb'.host ≡ hb.host
    → heartbeat (run ext g cs) hb' later wall_ms' ≡ (h, ok r')
    → r'.job_id ≢ some j
heartbeat-hands_out_once ext f g h cs hb hb' now later wall_ms wall_ms' j r r' e given passed room
      same e' =
    let first = heartbeat-IsAnswered f g hb now wall_ms r e in
    let second = heartbeat-IsAnswered (run ext g cs) h hb' later wall_ms' r' e' in
    let counter : g.next_job_id ≡ f.next_job_id =
      sym (ap (λ t. t.0.next_job_id) e) ∙ (heartbeat_lem f hb now wall_ms).0 in
    let start : IsPast j hb'.host g = record {
      spent =
          rw (same, first.live)
            (handed-IsSpent j _ (beat-IsHandedOut f.exams (live_of (get hb.host f.boards)) hb now));
      below = rw counter passed;
    } in
    let past = run-IsPast j hb'.host ext g cs room start in
    let old = live_of (get hb'.host (run ext g cs).boards) in
    λ again. offer-IsSpent j hb' (job_of old) past.spent (
      ap (λ t. t.job_id) (sym (second.reply ∙ (beat-job (run ext g cs).exams old hb' later).1))
      ∙ again)
