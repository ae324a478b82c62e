-- ===== src/Sim/Delivery.antt =====
-- A job that the fleet hands to a simulated board, until the board's report ends it.
use riscv_exam_computer.Base.{
  ℕ, ◌≤◌, ◌≡◌, refl, sym, ap, ◌∙◌, Bool, true, false, not, ◌&&◌, Option, none, some, List, [], ◌∷◌,
  arith, All, if◌then◌else◌, opt_map, Str, Bool-cases, inl, inr, ◌||◌, ◌⊎◌, null,
}
use riscv_exam_computer.Proto.{Heartbeat, start}
use riscv_exam_computer.Fleet.Model.{Instant, Exam, Job, Live}
use riscv_exam_computer.Fleet.Beat.{beat, completes}
use riscv_exam_computer.Fleet.Beat
use riscv_exam_computer.Fleet.Beat.Delivery.{fails, ends, remaining, pick_up, job_of, beat-job}
use riscv_exam_computer.Sim.Floats.{F64, Floats}
use riscv_exam_computer.Sim.Board.{Board, Seb, is_running, passed, failed, step, heartbeat}
use riscv_exam_computer.Sim.Stepping.{
  is_over, step-over, step-settles, heartbeat-state, heartbeat-is_running,
}
use riscv_exam_computer.Sim.Round.{Round, Runner, is_silent, send, round, rounds}
use riscv_exam_computer.Sim.Turns.{some-ne-none, round-sends, IsWaiting, rounds-wait}

module _ (f : Floats) where
  -- When the heartbeat of a settled start ends the job: it tells of a failure, or that SEB is up.
  settled-ends :
      (hb : Heartbeat) (job : Job) (legacy fail : Bool)
      → job.kind ≡ start
      → hb.job_result
        ≡ (if legacy then none else some (if fail then failed job.id else passed job.id))
      → ends hb job ≡ (fail && not legacy || Beat.is_running hb)
  unfolding ends fails completes failed
  settled-ends hb job true true kind res = rw (ends, res) (ground arith)
  settled-ends hb job true false kind res = rw (ends, res) (ground arith)
  settled-ends hb job false true kind res = rw (ends, res) (ground arith)
  settled-ends hb job false false kind res = rw (ends, res) (ground arith)

  ended-job :
      (exams : List Exam) (later : Option Live) (hb : Heartbeat) (back : Instant) (job : Job)
      (gone : Bool)
      → job_of later ≡ some job
      → ends hb job ≡ gone
      → (beat exams later hb back).0.job ≡ (if gone then none else some (pick_up back job))
  unfolding remaining
  ended-job exams later hb back job gone waits e =
      (beat-job exams later hb back).0
      ∙ ap (λ o. opt_map (pick_up back) (remaining hb o)) waits
      ∙ (rw (remaining, e) (ground arith))

  settled-state :
      (fail : Bool) (exam : Option Str)
      → is_running (if fail then Seb.idle else Seb.running exam) ≡ not fail
  settled-state true exam = refl
  settled-state false exam = refl

  -- A start that is under way still, or settled with its result pending.
  record IsPending (done : Instant) (id : ℕ) (exam : Option Str) (fail legacy : Bool) (b : Board)
      : Type 0 where
    under_way :
        (b.seb ≡ Seb.starting done id exam fail)
        ⊎ ((is_over b.seb ≡ true) × (b.job_result ≡ some (if fail then failed id else passed id)))
    old : b.legacy ≡ legacy

  record IsSettled (id : ℕ) (fail legacy : Bool) (b : Board) : Type 0 where
    over : is_over b.seb ≡ true
    result : b.job_result ≡ some (if fail then failed id else passed id)
    old : b.legacy ≡ legacy

  settled_over :
      (fail : Bool) (exam : Option Str)
      → is_over (if fail then Seb.idle else Seb.running exam) ≡ true
  settled_over true exam = refl
  settled_over false exam = refl

  -- A step at a time when the start is due.
  due_step :
      (chaos : F64) (now done : Instant) (id : ℕ) (exam : Option Str) (fail legacy : Bool)
      (b : Board)
      → done ≤ now
      → IsPending done id exam fail legacy b
      → IsSettled id fail legacy (step f chaos now b)
  due_step chaos now done id exam fail legacy b due p = elim p.under_way [
    | inl seb ↦
        let (settled, result, old) = step-settles f chaos now done id exam fail b seb due in
        record {
          over = ap is_over settled ∙ settled_over fail exam;
          result = result;
          old = old ∙ p.old;
        }
    | inr (over, pending) ↦
        let (up, result, old) = step-over f chaos now b over in
        record { over = up; result = result ∙ pending; old = old ∙ p.old }
  ]

  -- A turn that sends nothing leaves the board as its step made it.
  round_silent :
      (version : Str) (chaos : F64) (r : Round) (s : Runner)
      → (round f version chaos r s).1 ≡ none
      → (round f version chaos r s).0.board ≡ step f chaos r.at_step s.board
  unfolding round send
  round_silent version chaos r s h =
      elim (Bool-cases (is_silent (step f chaos r.at_step s.board).silent_until r.at_check)) [
        | inl e ↦ rw (round, e) refl
        | inr e ↦
            let sent : (round f version chaos r s).1
                ≡ some (
                    heartbeat f version r.at_beat
                      (record (step f chaos r.at_step s.board) { silent_until = none })) =
              rw (round, e) refl in
            absurd (some-ne-none f _ (sym h ∙ sent))
      ]

  -- Turns at which the start is due but the board is off the network.
  abbrev pub AreSilent : Str → F64 → Instant → List Round → Runner → Type 0
  AreSilent version chaos done [] s = Unit
  AreSilent version chaos done (r ∷ rs) s =
      (done ≤ r.at_step)
      × ((round f version chaos r s).1 ≡ none)
      × AreSilent version chaos done rs (round f version chaos r s).0

  rounds-IsPending :
      (version : Str) (chaos : F64) (done : Instant) (id : ℕ) (exam : Option Str)
      (fail legacy : Bool) (rs : List Round) (s : Runner)
      → AreSilent version chaos done rs s
      → IsPending done id exam fail legacy s.board
      → IsPending done id exam fail legacy (rounds f version chaos rs s).board
  unfolding rounds
  rounds-IsPending version chaos done id exam fail legacy [] s w p = p
  rounds-IsPending version chaos done id exam fail legacy (r ∷ rs) s (due, quiet, w) p =
      let k = due_step chaos r.at_step done id exam fail legacy s.board due p in
      let same = round_silent version chaos r s quiet in
      rounds-IsPending version chaos done id exam fail legacy rs (round f version chaos r s).0 w
        (record {
          under_way =
              inr (ap (λ b. is_over b.seb) same ∙ k.over, ap (λ b. b.job_result) same ∙ k.result);
          old = ap (λ b. b.legacy) same ∙ k.old;
        })

  -- Where no turn was missed, SEB is up exactly if the start did not fail.
  up_at_once :
      (version : Str) (chaos : F64) (done : Instant) (id : ℕ) (exam : Option Str) (fail : Bool)
      (t : Runner) (qs : List Round) (r : Round) (hb : Heartbeat)
      → t.board.seb ≡ Seb.starting done id exam fail
      → done ≤ r.at_step
      → (round f version chaos r (rounds f version chaos qs t)).1 ≡ some hb
      → (null qs ≡ false) ⊎ (Beat.is_running hb ≡ not fail)
  unfolding rounds
  up_at_once version chaos done id exam fail t (q ∷ qs) r hb seb due sent = inl refl
  up_at_once version chaos done id exam fail t [] r hb seb due sent =
      let (settled, result, old) =
        step-settles f chaos r.at_step done id exam fail t.board seb due in
      let b = record (step f chaos r.at_step t.board) { silent_until = none } in
      inr (
        ap Beat.is_running (round-sends f version chaos r t hb sent)
        ∙ heartbeat-is_running f version r.at_beat b
        ∙ ap is_running settled
        ∙ settled-state fail exam)

  -- A board with a start under way, which the fleet still has, sends turn after turn until the start is
  -- due; then it may be off the network for some turns. The first heartbeat that it sends from then on ends
  -- the job on the fleet exactly if it tells of a failure, under the new protocol, or that SEB is up. SEB is
  -- up exactly if the start did not fail, where no turn was missed; else it may have crashed unseen.
  pub due_start-ends_job :
      (version : Str) (chaos : F64) (exams : List Exam) (later : Option Live) (job : Job)
      (back done : Instant) (exam : Option Str) (fail : Bool) (s : Runner) (rs qs : List Round)
      (r : Round) (hb : Heartbeat)
      → job.kind ≡ start
      → job_of later ≡ some job
      → s.board.seb ≡ Seb.starting done job.id exam fail
      → All (IsWaiting f done) rs
      → AreSilent version chaos done qs (rounds f version chaos rs s)
      → done ≤ r.at_step
      → (round f version chaos r (rounds f version chaos qs (rounds f version chaos rs s))).1
        ≡ some hb
      → ((beat exams later hb back).0.job ≡ (
          if fail && not s.board.legacy || Beat.is_running hb
          then none
          else some (pick_up back job)))
        × ((null qs ≡ false) ⊎ (Beat.is_running hb ≡ not fail))
  unfolding rounds
  due_start-ends_job version chaos exams later job back done exam fail s rs qs r hb kind has
        under_way waits silent due sent =
      let t = rounds f version chaos rs s in
      let u = rounds f version chaos qs t in
      let (seb, old) =
        rounds-wait f version chaos done job.id exam fail s.board.legacy rs s waits under_way
          refl in
      let p =
        rounds-IsPending version chaos done job.id exam fail s.board.legacy qs t silent
          (record { under_way = inl seb; old = old }) in
      let k = due_step chaos r.at_step done job.id exam fail s.board.legacy u.board due p in
      let b = record (step f chaos r.at_step u.board) { silent_until = none } in
      let made = round-sends f version chaos r u hb sent in
      let reported : hb.job_result ≡ (
          if s.board.legacy then none else some (if fail then failed job.id else passed job.id)) =
        ap (λ x. x.job_result) made
        ∙ (heartbeat-state f version r.at_beat b).1
        ∙ (rw (k.old, k.result) refl) in
      (
        ended-job exams later hb back job (fail && not s.board.legacy || Beat.is_running hb) has
            (settled-ends hb job s.board.legacy fail kind reported),
        up_at_once version chaos done job.id exam fail t qs r hb seb due sent,
      )
