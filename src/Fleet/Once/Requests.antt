-- ===== src/Fleet/Once/Requests.antt =====
-- Requests for jobs, and a job id that no job waits with.
use riscv_exam_computer.Base.{
  ℕ, ◌+◌, ◌-◌, ◌<◌, ◌≤◌, ◌≡◌, refl, false, Option, none, some, List, [], ◌∷◌, arith, length, take,
  ok, Str, ltb, is_some, Bool-cases, Option-cases, Result-cases, inl, inr, str_eq, mem_str,
}
use riscv_exam_computer.Base.Words.{u64_mod}
use riscv_exam_computer.Base.OrderedMap.{get}
use riscv_exam_computer.Proto.{JobKind, ExamPayload}
use riscv_exam_computer.SebFile.Values.{Ext}
use riscv_exam_computer.Fleet.Model.{offline_after, Fleet, Board, Live, Instant}
use riscv_exam_computer.Fleet.Beat.{is_running}
use riscv_exam_computer.Fleet.Beat.Delivery.{job_of}
use riscv_exam_computer.Fleet.Heartbeat.{live_of}
use riscv_exam_computer.Fleet.Enqueue.{
  Placement, skip, cancel, queue, Sweep, skip_reason, current_of, cancels, place_live, place,
  apply_placement, sweep_host, sweep, enqueue, payload_of, first_sweep, new_job, report_of,
}
use riscv_exam_computer.Fleet.Enqueue.Effect.{after, apply-get, sweep_host_again, sweep_host_new}
use riscv_exam_computer.Fleet.Enqueue.Partition.{swept, enqueue-IsDone}
use riscv_exam_computer.Fleet.Once.Past.{waits, IsSpent, board_job, IsPast}

-- What a placement with another id writes back is spent too.
abbrev SpentPlacement : ℕ → Placement → Type 0
SpentPlacement j (skip reason) = Unit
SpentPlacement j (cancel live) = IsSpent j live.job
SpentPlacement j (queue live) = IsSpent j live.job

place_live-spent :
    (j : ℕ) (kind : JobKind) (payload : Option ExamPayload) (now : Instant) (id : ℕ) (live : Live)
    → j < id
    → SpentPlacement j (place_live kind payload now id live)
unfolding place_live
place_live-spent j kind payload now id live h =
    let fresh : waits j (new_job id kind payload now) ≡ false = ground arith in
    elim (Bool-cases (ltb offline_after (now - live.last_seen))) [
      | inl off ↦ rw (off, place_live) tt
      | inr on ↦
          elim (Option-cases
            (skip_reason kind (current_of live.job) (is_running live.hb) (is_some live.error))) [
              | inr (reason, e) ↦ rw (on, e, place_live) tt
              | inl e ↦ elim (Bool-cases (cancels kind (current_of live.job))) [
                | inl c ↦ rw (on, e, c, place_live) tt
                | inr c ↦ rw (on, e, c, place_live) fresh
              ]
            ]
    ]

place-spent :
    (j : ℕ) (kind : JobKind) (payload : Option ExamPayload) (now : Instant) (id : ℕ)
    (b : Option Board)
    → j < id
    → SpentPlacement j (place kind payload now id b)
unfolding place
place-spent j kind payload now id none h = tt
place-spent j kind payload now id (some b) h = elim (Option-cases b.live) [
  | inl n ↦ rw (n, place) tt
  | inr (live, n) ↦ rw (n, place) (place_live-spent j kind payload now id live h)
]

after-IsSpent :
    (j : ℕ) (p : Placement) (b : Option Board)
    → SpentPlacement j p
    → IsSpent j (job_of (live_of b))
    → IsSpent j (job_of (live_of (after p b)))
after-IsSpent j (skip reason) b q h = h
after-IsSpent j (cancel live) none q h = tt
after-IsSpent j (cancel live) (some b) q h = q
after-IsSpent j (queue live) none q h = tt
after-IsSpent j (queue live) (some b) q h = q

abbrev PastSweep : ℕ → Str → Sweep → Type 0
PastSweep j host s = IsSpent j (board_job host s.boards) × (j < s.next_job_id)

module _ (j : ℕ) (host : Str) (kind : JobKind) (payload : Option ExamPayload) (now : Instant) where
  apply-next :
      (s : Sweep) (x : Str) (p : Placement)
      → s.next_job_id + 1 < u64_mod
      → (s.next_job_id ≤ (apply_placement payload kind s x p).next_job_id)
        × ((apply_placement payload kind s x p).next_job_id ≤ s.next_job_id + 1)
  unfolding apply_placement
  apply-next s x (skip reason) h = omega arith
  apply-next s x (cancel live) h = omega arith
  apply-next s x (queue live) h = omega arith

  apply-PastSweep :
      (s : Sweep) (x : Str) (p : Placement)
      → s.next_job_id + 1 < u64_mod
      → SpentPlacement j p
      → PastSweep j host s
      → PastSweep j host (apply_placement payload kind s x p)
  apply-PastSweep s x p room q (spent, below) =
      let (up, most) = apply-next s x p room in
      let e = apply-get payload kind s x p host in
      (
        elim (Bool-cases (str_eq x host)) [
          | inl t ↦ rw (e, t) (after-IsSpent j p (get host s.boards) q spent)
          | inr t ↦ rw (e, t) spent
        ],
        omega (arith, up, below),
      )

  sweep_host-PastSweep :
      (s : Sweep) (x : Str)
      → s.next_job_id + 1 < u64_mod
      → PastSweep j host s
      → PastSweep j host (sweep_host kind payload now s x)
        × ((sweep_host kind payload now s x).next_job_id ≤ s.next_job_id + 1)
  sweep_host-PastSweep s x room past = elim (Bool-cases (mem_str x s.seen)) [
    | inl m ↦ rw (sweep_host_again kind payload now s x m) (past, omega arith)
    | inr m ↦
        let p = place kind payload now s.next_job_id (get x s.boards) in
        let t = record s { seen = x ∷ s.seen } in
        rw (sweep_host_new kind payload now s x m) (
          apply-PastSweep t x p room
              (place-spent j kind payload now s.next_job_id (get x s.boards) past.1) past,
          (apply-next t x p room).1,
        )
  ]

  sweep-PastSweep :
      (s : Sweep) (hs : List Str)
      → s.next_job_id + length hs < u64_mod
      → PastSweep j host s
      → PastSweep j host (sweep kind payload now s hs)
  unfolding sweep
  sweep-PastSweep s [] room past = past
  sweep-PastSweep s (x ∷ hs) room past =
      let (next, most) = sweep_host-PastSweep s x (omega (arith, room)) past in
      sweep-PastSweep (sweep_host kind payload now s x) hs (omega (arith, room, most)) next

pub enqueue-IsPast :
    (j : ℕ) (host : Str) (ext : Ext) (f : Fleet) (hosts : List Str) (kind : JobKind)
    (exam_id : Option Str) (now wall_ms : ℕ)
    → f.next_job_id + length (take f.max_boards hosts) < u64_mod
    → IsPast j host f
    → IsPast j host (enqueue ext f hosts kind exam_id now wall_ms).0
unfolding enqueue
enqueue-IsPast j host ext f hosts kind exam_id now wall_ms room p =
    elim (Result-cases (payload_of ext f.public_url f.exams kind exam_id)) [
      | inr (why, e) ↦ rw (e, enqueue) p
      | inl (payload, e) ↦
          let g = (enqueue ext f hosts kind exam_id now wall_ms).0 in
          let made_report = report_of kind (swept f hosts kind payload now) in
          let made : enqueue ext f hosts kind exam_id now wall_ms ≡ (g, ok made_report) =
            rw (e, enqueue) refl in
          let d = enqueue-IsDone ext f g hosts kind exam_id now wall_ms made_report made in
          let (spent, below) =
            sweep-PastSweep j host kind d.payload now (first_sweep f) (take f.max_boards hosts) room
              (p.spent, p.below) in
          record { spent = rw d.boards spent; below = rw d.next_job_id below }
    ]
