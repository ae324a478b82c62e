-- ===== src/Fleet/Tick/Expiry.antt =====
-- Jobs and silent boards after a tick.
use riscv_exam_computer.Base.{
  ℕ, ◌-◌, ◌≤◌, ◌⊎◌, ◌≡◌, refl, sym, ap, ◌∙◌, Bool, true, false, Option, none, some, List, [], ◌∷◌,
  arith, ltb, if◌then◌else◌, opt_map, opt_bind, Str, Option-cases, Bool-cases, subst, inl, inr,
}
use riscv_exam_computer.Base.OrderedMap.{get}
use riscv_exam_computer.Proto.{JobKind, start, stop}
use riscv_exam_computer.Fleet.Model.{
  Fleet, Board, Live, Job, Instant, Level, offline_after, pickup_ttl, start_timeout, stop_timeout,
}
use riscv_exam_computer.Fleet.Log.{log}
use riscv_exam_computer.Fleet.Log.Frame.{SameBut, SameBut-refl, SameBut-trans, log-SameBut}
use riscv_exam_computer.Fleet.Tick.{
  note_offline, expire_job, expire_picked, tick_live, tick_board, tick_boards, tick_actor,
  log_ticks, tick,
}

-- How long a job of this kind may take once it was picked up.
abbrev pub timeout : JobKind → ℕ
timeout start = start_timeout
timeout stop = stop_timeout

abbrev pub InTime : Instant → Job → Option Instant → Type 0
InTime now job none = now - job.queued_at ≤ pickup_ttl
InTime now job (some t) = now - t ≤ timeout job.kind

abbrev pub JobInTime : Instant → Option Job → Type 0
JobInTime now none = Unit
JobInTime now (some job) = InTime now job job.picked_up_at

pub record IsCurrent (now : Instant) (live : Live) : Type 0 where
  pub job : JobInTime now live.job
  pub noted : (now - live.last_seen ≤ offline_after) ⊎ (live.offline_noted ≡ true)

note_offline_lem :
    (now : Instant) (live : Live)
    → ((now - live.last_seen ≤ offline_after) ⊎ ((note_offline now live).0.offline_noted ≡ true))
      × ((note_offline now live).0.job ≡ live.job)
      × ((note_offline now live).0.last_seen ≡ live.last_seen)
unfolding note_offline
note_offline_lem now live = ground arith

-- The tests that a tick makes of a job.
abbrev is_stale_at : Instant → Job → Option Instant → Bool
is_stale_at now job none = ltb pickup_ttl (now - job.queued_at)
is_stale_at now job (some t) = ltb (timeout job.kind) (now - t)

unfoldable pub is_stale : Instant → Job → Bool
is_stale now job = is_stale_at now job job.picked_up_at

is_stale_iff :
    (now : Instant) (job : Job) → is_stale now job ≡ false → InTime now job job.picked_up_at
unfolding is_stale
is_stale_iff now job h = elim (Option-cases job.picked_up_at) [
  | inl p ↦ rw p (ground arith)
  | inr (t, p) ↦ rw p (ground arith)
]

InTime-is_stale :
    (now : Instant) (job : Job) → InTime now job job.picked_up_at → is_stale now job ≡ false
unfolding is_stale
InTime-is_stale now job h = elim (Option-cases job.picked_up_at) [
  | inl p ↦ let k = rw p at h in rw p (ground arith)
  | inr (t, p) ↦ let k = rw p at h in rw p (ground arith)
]

abbrev pub drop_stale : Instant → Option Job → Option Job
drop_stale now job = opt_bind job (λ j. if is_stale now j then none else some j)

expire_picked-job :
    (kind : JobKind) (t now : Instant) (live : Live)
    → (expire_picked kind t now live).0.job
      ≡ (if ltb (timeout kind) (now - t) then none else live.job)
unfolding expire_picked
expire_picked-job start t now live = ground arith
expire_picked-job stop t now live = ground arith

expire_job-job :
    (job : Option Job) (now : Instant) (live : Live)
    → live.job ≡ job
    → (expire_job job now live).0.job ≡ drop_stale now job
unfolding expire_job is_stale
expire_job-job none now live e = e
expire_job-job (some job) now live e = elim (Option-cases job.picked_up_at) [
  | inl p ↦ rw (p, expire_job, is_stale) (ground arith)
  | inr (t, p) ↦
      rw (p, expire_job, is_stale) (ground (arith, expire_picked-job job.kind t now live))
]

expire_job-others :
    (job : Option Job) (now : Instant) (live : Live)
    → ((expire_job job now live).0.last_seen ≡ live.last_seen)
      × ((expire_job job now live).0.offline_noted ≡ live.offline_noted)
unfolding expire_job expire_picked
expire_job-others none now live = (refl, refl)
expire_job-others (some job) now live = ground arith

-- A tick takes the job exactly if its time is over.
pub tick_live-job :
    (now : Instant) (live : Live) → (tick_live now live).0.job ≡ drop_stale now live.job
unfolding tick_live
tick_live-job now live =
    let noted = (note_offline now live).0 in
    expire_job-job noted.job now noted refl ∙ ap (drop_stale now) (note_offline_lem now live).1

drop_stale-InTime : (now : Instant) (job : Option Job) → JobInTime now (drop_stale now job)
drop_stale-InTime now none = tt
drop_stale-InTime now (some job) = elim (Bool-cases (is_stale now job)) [
  | inl h ↦ rw h tt
  | inr h ↦ rw h (is_stale_iff now job h)
]

pub tick_live-IsCurrent : (now : Instant) (live : Live) → IsCurrent now (tick_live now live).0
unfolding tick_live
tick_live-IsCurrent now live =
    let noted = (note_offline now live).0 in
    let n = note_offline_lem now live in
    let o = expire_job-others noted.job now noted in
    record {
      job = subst (JobInTime now) (sym (tick_live-job now live)) (drop_stale-InTime now live.job);
      noted = ground (arith, o, n);
    }

expire_job-none :
    (job : Option Job) (now : Instant) (live : Live)
    → JobInTime now job
    → expire_job job now live ≡ (live, [])
unfolding expire_job expire_picked
expire_job-none none now live h = refl
expire_job-none (some job) now live h = elim (Option-cases job.picked_up_at) [
  | inl p ↦ let k = rw p at h in rw (p, expire_job) (ground arith)
  | inr (t, p) ↦ let k = rw p at h in rw (p, expire_job) (ground arith)
]

note_offline-none :
    (now : Instant) (live : Live)
    → ((now - live.last_seen ≤ offline_after) ⊎ (live.offline_noted ≡ true))
    → note_offline now live ≡ (live, [])
unfolding note_offline
note_offline-none now live h = ground arith

tick_live-none :
    (now : Instant) (live : Live) → IsCurrent now live → tick_live now live ≡ (live, [])
unfolding tick_live
tick_live-none now live c =
    rw (note_offline-none now live c.noted, expire_job-none live.job now live c.job)

log_ticks-SameBut :
    (f : Fleet) (wall_ms : ℕ) (evs : List (Str × Level × Str)) → SameBut f (log_ticks f wall_ms evs)
unfolding log_ticks
log_ticks-SameBut f wall_ms [] = SameBut-refl f
log_ticks-SameBut f wall_ms ((host, level, text) ∷ evs) =
    SameBut-trans (log-SameBut f wall_ms (tick_actor level text) level (some host) text)
      (log_ticks-SameBut (log f wall_ms (tick_actor level text) level (some host) text) wall_ms evs)

pub tick-SameBut :
    (f : Fleet) (now : Instant) (wall_ms : ℕ)
    → SameBut (record f { boards = (tick_boards now f.boards).0 }) (tick f now wall_ms)
unfolding tick
tick-SameBut f now wall_ms = log_ticks-SameBut _ wall_ms (tick_boards now f.boards).1

get-tick_boards :
    (now : Instant) (host : Str) (m : List (Str × Board))
    → get host (tick_boards now m).0 ≡ opt_map (λ b. (tick_board now b).0) (get host m)
unfolding tick_boards get
get-tick_boards now host [] = refl
get-tick_boards now host ((j, b) ∷ m) = ground (arith, get-tick_boards now host m)

-- A tick changes each board by itself.
pub get-tick :
    (f : Fleet) (now : Instant) (wall_ms : ℕ) (host : Str)
    → get host (tick f now wall_ms).boards ≡ opt_map (λ b. (tick_board now b).0) (get host f.boards)
get-tick f now wall_ms host =
    ap (get host) (tick-SameBut f now wall_ms).boards ∙ get-tick_boards now host f.boards

pub tick_board-live :
    (now : Instant) (b : Board)
    → (tick_board now b).0.live ≡ opt_map (λ l. (tick_live now l).0) b.live
unfolding tick_board
tick_board-live now b = ground arith

-- After a tick no board has a job that waits longer than it may, and every board that is silent for
-- too long is noted as offline.
pub tick-IsCurrent :
    (f : Fleet) (now : Instant) (wall_ms : ℕ) (host : Str) (b : Board) (live : Live)
    → get host (tick f now wall_ms).boards ≡ some b
    → b.live ≡ some live
    → IsCurrent now live
tick-IsCurrent f now wall_ms host b live e l = elim (Option-cases (get host f.boards)) [
  | inl p ↦ absurd (let q = get-tick f now wall_ms host in cc)
  | inr (b', p) ↦
      let q = get-tick f now wall_ms host in
      let same : (tick_board now b').0 ≡ b = ground arith in
      elim (Option-cases b'.live) [
        | inl n ↦ absurd (let r = tick_board-live now b' in ground arith)
        | inr (live', n) ↦
            let r = tick_board-live now b' in
            let same' : (tick_live now live').0 ≡ live = ground arith in
            subst (IsCurrent now) same' (tick_live-IsCurrent now live')
      ]
]

tick_board_idempotent :
    (now : Instant) (b : Board) → tick_board now (tick_board now b).0 ≡ ((tick_board now b).0, [])
unfolding tick_board
tick_board_idempotent now b = elim (Option-cases b.live) [
  | inl n ↦ rw (n, tick_board) (ground arith)
  | inr (live, n) ↦
      rw (n, tick_board)
        (ground (arith, tick_live-none now (tick_live now live).0 (tick_live-IsCurrent now live)))
]

tick_boards_idempotent :
    (now : Instant) (m : List (Str × Board))
    → tick_boards now (tick_boards now m).0 ≡ ((tick_boards now m).0, [])
unfolding tick_boards
tick_boards_idempotent now [] = refl
tick_boards_idempotent now ((host, b) ∷ m) =
    rw (tick_board_idempotent now b, tick_boards_idempotent now m)

tick-none :
    (g : Fleet) (now wall_ms : ℕ)
    → tick_boards now g.boards ≡ (g.boards, [])
    → tick g now wall_ms ≡ g
unfolding tick log_ticks
tick-none g now wall_ms e = ap (λ t. log_ticks (record g { boards = t.0 }) wall_ms t.1) e

-- A second tick at the same instant changes nothing and logs nothing.
tick_idempotent :
    (f : Fleet) (now wall_ms wall_ms' : ℕ)
    → tick (tick f now wall_ms) now wall_ms' ≡ tick f now wall_ms
tick_idempotent f now wall_ms wall_ms' = tick-none (tick f now wall_ms) now wall_ms' (
    subst (λ m. tick_boards now m ≡ (m, [])) (sym (tick-SameBut f now wall_ms).boards)
      (tick_boards_idempotent now f.boards))
