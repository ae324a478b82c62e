-- ===== src/Fleet/Enqueue/Partition.antt =====
-- Which of the hosts that are asked for are queued, and which skipped.
use riscv_exam_computer.Base.{
  ℕ, suc, ◌+◌, ◌≡◌, refl, ap, Bool, ◌||◌, Option, none, some, List, [], ◌∷◌, ◌++◌, arith,
  if◌then◌else◌, take, ok, Str, str_eq, str_eq_iff, mem_str, sym, not, null, Bool-cases,
  Result-cases, inl, inr,
}
use riscv_exam_computer.Base.OrderedMap.{get}
use riscv_exam_computer.Proto.{JobKind, ExamPayload}
use riscv_exam_computer.SebFile.Values.{Ext}
use riscv_exam_computer.Fleet.Model.{Fleet, Instant, ActionReport, Actor, Level}
use riscv_exam_computer.Fleet.Log.{log}
use riscv_exam_computer.Fleet.Log.Frame.{SameBut, SameBut-refl, SameBut-trans, log-SameBut}
use riscv_exam_computer.Fleet.Enqueue.{
  Placement, skip, cancel, queue, Sweep, place, apply_placement, sweep_host, sweep, first_sweep,
  payload_of, enqueue, log_hosts, log_summary, report_of,
}

-- How often a host stands in a list, and among the first parts of pairs.
abbrev pub count : Str → List Str → ℕ
count h [] = 0
count h (x ∷ xs) = if str_eq x h then suc (count h xs) else count h xs

abbrev pub hosts_of : List (Str × Str) → List Str
hosts_of [] = []
hosts_of ((h, t) ∷ xs) = h ∷ hosts_of xs

pub count-append : (h : Str) (xs ys : List Str) → count h (xs ++ ys) ≡ count h xs + count h ys
count-append h [] ys = omega arith
count-append h (x ∷ xs) ys = ground (arith, count-append h xs ys)

hosts_of-append : (xs ys : List (Str × Str)) → hosts_of (xs ++ ys) ≡ hosts_of xs ++ hosts_of ys
hosts_of-append [] ys = refl
hosts_of-append ((h, t) ∷ xs) ys = ap (◌∷◌ h) (hosts_of-append xs ys)

abbrev placed : Str → Sweep → ℕ
placed h s = count h s.queued + count h (hosts_of s.skipped)

apply-placed :
    (payload : Option ExamPayload) (kind : JobKind) (s : Sweep) (host : Str) (p : Placement)
    (h : Str)
    → placed h (apply_placement payload kind s host p)
      ≡ placed h s + (if str_eq host h then 1 else 0)
unfolding apply_placement
apply-placed payload kind s host (skip reason) h = ground (
  arith,
  hosts_of-append s.skipped ((host, reason) ∷ []),
  count-append h (hosts_of s.skipped) (host ∷ []),
)
apply-placed payload kind s host (cancel live) h =
    ground (arith, count-append h s.queued (host ∷ []))
apply-placed payload kind s host (queue live) h =
    ground (arith, count-append h s.queued (host ∷ []))

apply-seen :
    (payload : Option ExamPayload) (kind : JobKind) (s : Sweep) (host : Str) (p : Placement)
    → (apply_placement payload kind s host p).seen ≡ s.seen
unfolding apply_placement
apply-seen payload kind s host (skip reason) = refl
apply-seen payload kind s host (cancel live) = refl
apply-seen payload kind s host (queue live) = refl

-- The invariant of the loop: a host is placed once if it was seen.
abbrev Balanced : Sweep → Type 0
Balanced s = (h : Str) → placed h s ≡ (if mem_str h s.seen then 1 else 0)

abbrev once : Bool → ℕ
once b = if b then 1 else 0

sweep_host-Balanced :
    (kind : JobKind) (payload : Option ExamPayload) (now : Instant) (s : Sweep) (host : Str)
    → Balanced s
    → Balanced (sweep_host kind payload now s host)
unfolding sweep_host mem_str
sweep_host-Balanced kind payload now s host b h =
    let s' = record s { seen = host ∷ s.seen } in
    let p = place kind payload now s.next_job_id (get host s.boards) in
    ground (
      arith,
      b h,
      b host,
      apply-placed payload kind s' host p h,
      apply-seen payload kind s' host p,
      str_eq_iff host h,
    )

pub sweep_host-seen :
    (kind : JobKind) (payload : Option ExamPayload) (now : Instant) (s : Sweep) (host h : Str)
    → mem_str h (sweep_host kind payload now s host).seen ≡ (str_eq host h || mem_str h s.seen)
unfolding sweep_host mem_str
sweep_host-seen kind payload now s host h =
    let s' = record s { seen = host ∷ s.seen } in
    let p = place kind payload now s.next_job_id (get host s.boards) in
    ground (arith, apply-seen payload kind s' host p, str_eq_iff host h)

sweep-Balanced :
    (kind : JobKind) (payload : Option ExamPayload) (now : Instant) (s : Sweep) (hs : List Str)
    → Balanced s
    → Balanced (sweep kind payload now s hs)
unfolding sweep
sweep-Balanced kind payload now s [] b = b
sweep-Balanced kind payload now s (x ∷ hs) b =
    sweep-Balanced kind payload now (sweep_host kind payload now s x) hs
      (sweep_host-Balanced kind payload now s x b)

pub sweep-seen :
    (kind : JobKind) (payload : Option ExamPayload) (now : Instant) (s : Sweep) (hs : List Str)
    (h : Str)
    → mem_str h (sweep kind payload now s hs).seen ≡ (mem_str h hs || mem_str h s.seen)
unfolding sweep mem_str
sweep-seen kind payload now s [] h = refl
sweep-seen kind payload now s (x ∷ hs) h = ground (
  arith,
  sweep-seen kind payload now (sweep_host kind payload now s x) hs h,
  sweep_host-seen kind payload now s x h,
)

-- The variables of the loop after the last host.
abbrev pub swept : Fleet → List Str → JobKind → Option ExamPayload → Instant → Sweep
swept f hosts kind payload now = sweep kind payload now (first_sweep f) (take f.max_boards hosts)

log_hosts-SameBut :
    (f : Fleet) (wall_ms : ℕ) (evs : List (Str × Str)) → SameBut f (log_hosts f wall_ms evs)
unfolding log_hosts
log_hosts-SameBut f wall_ms [] = SameBut-refl f
log_hosts-SameBut f wall_ms ((host, text) ∷ evs) =
    SameBut-trans (log-SameBut f wall_ms Actor.instructor Level.info (some host) text)
      (log_hosts-SameBut (log f wall_ms Actor.instructor Level.info (some host) text) wall_ms evs)

log_summary-SameBut :
    (f : Fleet) (wall_ms : ℕ) (payload : Option ExamPayload) (s : Sweep)
    → SameBut f (log_summary f wall_ms payload s)
unfolding log_summary
log_summary-SameBut f wall_ms payload s =
    elim (Bool-cases (not (null s.queued) || not (null s.skipped))) [
      | inl e ↦ rw (e, log_summary) (log-SameBut f wall_ms Actor.instructor Level.info none _)
      | inr e ↦ rw (e, log_summary) (SameBut-refl f)
    ]

pub record IsDone (ext : Ext) (f g : Fleet) (hosts : List Str) (kind : JobKind)
    (exam_id : Option Str) (now : Instant) (r : ActionReport) : Type 0 where
  pub payload : Option ExamPayload
  pub chosen : payload_of ext f.public_url f.exams kind exam_id ≡ ok payload
  pub report : r ≡ report_of kind (swept f hosts kind payload now)
  pub boards : g.boards ≡ (swept f hosts kind payload now).boards
  pub exams : g.exams ≡ f.exams
  pub max_boards : g.max_boards ≡ f.max_boards
  pub next_job_id : g.next_job_id ≡ (swept f hosts kind payload now).next_job_id

pub enqueue-IsDone :
    (ext : Ext) (f g : Fleet) (hosts : List Str) (kind : JobKind) (exam_id : Option Str)
    (now : Instant) (wall_ms : ℕ) (r : ActionReport)
    → enqueue ext f hosts kind exam_id now wall_ms ≡ (g, ok r)
    → IsDone ext f g hosts kind exam_id now r
unfolding enqueue
enqueue-IsDone ext f g hosts kind exam_id now wall_ms r e =
    elim (Result-cases (payload_of ext f.public_url f.exams kind exam_id)) [
      | inr (why, p) ↦ absurd (let q = rw (p, enqueue) at e in cc)
      | inl (payload, p) ↦
          let q = rw (p, enqueue) at e in
          let s = swept f hosts kind payload now in
          let h = record f { boards = s.boards; next_job_id = s.next_job_id } in
          let first = log_hosts-SameBut h wall_ms s.events in
          let all =
            SameBut-trans first
              (log_summary-SameBut (log_hosts h wall_ms s.events) wall_ms payload s) in
          let same : log_summary (log_hosts h wall_ms s.events) wall_ms payload s ≡ g = cc in
          let made : report_of kind s ≡ r = cc in
          record {
            payload = payload;
            chosen = p;
            report = sym made;
            boards = rw same at all.boards;
            exams = rw same at all.exams;
            max_boards = rw same at all.max_boards;
            next_job_id = rw same at all.next_job_id;
          }
    ]

-- A request that is carried out answers for each host among those that the board limit lets
-- through: it is queued or skipped, once, however often it was asked for; no other host is named.
pub enqueue-partition :
    (ext : Ext) (f g : Fleet) (hosts : List Str) (kind : JobKind) (exam_id : Option Str)
    (now : Instant) (wall_ms : ℕ) (r : ActionReport) (h : Str)
    → enqueue ext f hosts kind exam_id now wall_ms ≡ (g, ok r)
    → count h r.queued + count h (hosts_of r.skipped)
      ≡ (if mem_str h (take f.max_boards hosts) then 1 else 0)
unfolding mem_str
enqueue-partition ext f g hosts kind exam_id now wall_ms r h e =
    let d = enqueue-IsDone ext f g hosts kind exam_id now wall_ms r e in
    let hs = take f.max_boards hosts in
    let balanced = sweep-Balanced kind d.payload now (first_sweep f) hs (λ k. refl) h in
    let seen = sweep-seen kind d.payload now (first_sweep f) hs h in
    rw d.report (ground (arith, balanced, seen))
