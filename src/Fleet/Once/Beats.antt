-- ===== src/Fleet/Once/Beats.antt =====
-- Heartbeats and ticks, and a job id that no job waits with.
use riscv_exam_computer.Base.{
  ℕ, ◌≡◌, ◌⊎◌, refl, ap, ◌∙◌, true, Option, none, some, arith, ok, Str, opt_map, Bool-cases,
  Option-cases, inl, inr, str_eq, str_eq_iff,
}
use riscv_exam_computer.Base.OrderedMap.{get}
use riscv_exam_computer.Proto.{Heartbeat, HeartbeatReply}
use riscv_exam_computer.Fleet.Model.{valid_host, Fleet, Board, Job, Instant}
use riscv_exam_computer.Fleet.Log.{log}
use riscv_exam_computer.Fleet.Log.Frame.{log_all-SameBut}
use riscv_exam_computer.Fleet.Beat.Delivery.{job_of, beat-IsHandedOut}
use riscv_exam_computer.Fleet.Heartbeat.{admit, warn_cap, add_board, report, live_of, heartbeat}
use riscv_exam_computer.Fleet.Heartbeat.Delivery.{heartbeat-IsAnswered}
use riscv_exam_computer.Fleet.Heartbeat.Admission.{heartbeat_others}
use riscv_exam_computer.Fleet.Tick.{tick, tick_board}
use riscv_exam_computer.Fleet.Tick.Expiry.{
  is_stale, drop_stale, get-tick, tick_board-live, tick_live-job, tick-SameBut,
}
use riscv_exam_computer.Fleet.Once.Past.{IsSpent, board_job, IsPast, handed-IsSpent, same-IsPast}

admit_lem :
    (f : Fleet) (host : Str) (wall_ms : ℕ)
    → ((admit f host wall_ms).0.next_job_id ≡ f.next_job_id)
      × (((admit f host wall_ms).1 ≡ true) ⊎ ((admit f host wall_ms).0.boards ≡ f.boards))
unfolding admit warn_cap add_board log
admit_lem f host wall_ms = ground arith

report-next_job_id :
    (f : Fleet) (hb : Heartbeat) (now wall_ms : ℕ)
    → (report f hb now wall_ms).0.next_job_id ≡ f.next_job_id
unfolding report
report-next_job_id f hb now wall_ms = (log_all-SameBut _ wall_ms _ hb.host _).next_job_id

-- A heartbeat that is not answered changes no board, and none moves the counter.
pub heartbeat_lem :
    (f : Fleet) (hb : Heartbeat) (now wall_ms : ℕ)
    → ((heartbeat f hb now wall_ms).0.next_job_id ≡ f.next_job_id)
      × (((heartbeat f hb now wall_ms).0.boards ≡ f.boards)
          ⊎ ((r : HeartbeatReply) × (heartbeat f hb now wall_ms
                ≡ ((heartbeat f hb now wall_ms).0, ok r))))
unfolding heartbeat
heartbeat_lem f hb now wall_ms =
    let (next, kept) = admit_lem f hb.host wall_ms in
    let reported = report-next_job_id (admit f hb.host wall_ms).0 hb now wall_ms in
    elim (Bool-cases (valid_host hb.host)) [
      | inr bad ↦ rw (bad, heartbeat) (refl, inl refl)
      | inl fine ↦ elim (Bool-cases (admit f hb.host wall_ms).1) [
        | inl known ↦
            rw (fine, known, heartbeat)
              (reported ∙ next, inr ((report (admit f hb.host wall_ms).0 hb now wall_ms).1, refl))
        | inr full ↦
            rw (fine, full, heartbeat)
              (next, elim kept [ inl k ↦ absurd (ground arith) | inr k ↦ inl k ])
      ]
    ]

pub heartbeat-IsPast :
    (j : ℕ) (host : Str) (f : Fleet) (hb : Heartbeat) (now wall_ms : ℕ)
    → IsPast j host f
    → IsPast j host (heartbeat f hb now wall_ms).0
heartbeat-IsPast j host f hb now wall_ms p =
    let (next, kept) = heartbeat_lem f hb now wall_ms in
    elim (Bool-cases (str_eq host hb.host)) [
      | inr other ↦
          same-IsPast
            (heartbeat_others f hb now wall_ms host
              (λ e. absurd (ground (arith, str_eq_iff host hb.host))))
            next p
      | inl own ↦ elim kept [
        | inl k ↦ same-IsPast (ap (get host) k) next p
        | inr (r, e) ↦
            let a = heartbeat-IsAnswered f (heartbeat f hb now wall_ms).0 hb now wall_ms r (e) in
            let handed =
              handed-IsSpent j _
                (beat-IsHandedOut f.exams (live_of (get hb.host f.boards)) hb now) in
            let same : host ≡ hb.host = (str_eq_iff host hb.host).0 own in
            record { spent = rw (same, a.live) handed; below = rw next p.below }
      ]
    ]

drop_stale-IsSpent :
    (j : ℕ) (now : Instant) (job : Option Job) → IsSpent j job → IsSpent j (drop_stale now job)
drop_stale-IsSpent j now none h = tt
drop_stale-IsSpent j now (some job) h = elim (Bool-cases (is_stale now job)) [
  | inl e ↦ rw e tt
  | inr e ↦ rw e h
]

tick_board-job :
    (now : Instant) (b : Option Board)
    → job_of (live_of (opt_map (λ b. (tick_board now b).0) b)) ≡ drop_stale now (job_of (live_of b))
tick_board-job now none = refl
tick_board-job now (some b) = elim (Option-cases b.live) [
  | inl e ↦ rw (tick_board-live, e) refl
  | inr (l, e) ↦ rw (tick_board-live, e) (tick_live-job now l)
]

pub tick-IsPast :
    (j : ℕ) (host : Str) (f : Fleet) (now wall_ms : ℕ)
    → IsPast j host f
    → IsPast j host (tick f now wall_ms)
tick-IsPast j host f now wall_ms p =
    let e : board_job host (tick f now wall_ms).boards ≡ drop_stale now (board_job host f.boards) =
      ap (λ b. job_of (live_of b)) (get-tick f now wall_ms host)
      ∙ tick_board-job now (get host f.boards) in
    record {
      spent = rw e (drop_stale-IsSpent j now (board_job host f.boards) p.spent);
      below = rw (tick-SameBut f now wall_ms).next_job_id p.below;
    }
