-- ===== src/Fleet/Admin/Restart.antt =====
-- What a restart keeps: `from_snapshot` after `snapshot`.
use riscv_exam_computer.Base.{
  ℕ, suc, ◌+◌, ◌≤◌, ◌<◌, ◌≡◌, refl, sym, ap, ◌∙◌, subst, true, false, List, [], ◌∷◌, ◌++◌, map, max,
  arith, All, null, any, Str,
}
use riscv_exam_computer.Base.Words.{u64_mod, next_u64}
use riscv_exam_computer.Base.OrderedMap.{insert, values}
use riscv_exam_computer.Base.OrderedMap.Sorted.{Before, Sorted, After, insert_last, After-append}
use riscv_exam_computer.Fleet.Model.{Fleet, Board, BoardRecord, Exam, Event, valid_host}
use riscv_exam_computer.Fleet.Log.Order.{Ascending, IsOrdered}
use riscv_exam_computer.Fleet.Admin.{
  snapshot, restored, restore_boards, salt_exams, last_id, from_snapshot,
}
use riscv_exam_computer.Fleet.Invariant.Boards.{IsFiled, HasSalt, IsWellFormed}

-- The boards as they come back: none has been heard of.
abbrev pub asleep : List (Str × Board) → List (Str × Board)
asleep [] = []
asleep ((k, b) ∷ m) = (k, restored b.rec) ∷ asleep m

records : List (Str × Board) → List BoardRecord
records m = map (λ (b : Board). b.rec) (values m)

asleep-Sorted : (m : List (Str × Board)) → Sorted m → Sorted (asleep m)
asleep-Sorted [] s = tt
asleep-Sorted ((k, b) ∷ m) (before, s) = (Before-asleep k m before, asleep-Sorted m s)
  where
    Before-asleep : (k : Str) (m : List (Str × Board)) → Before k m → Before k (asleep m)
    Before-asleep k [] h = tt
    Before-asleep k ((j, b) ∷ m) (p, h) = (p, Before-asleep k m h)

++-step : {A : Type 0} (m r : List A) (x : A) → (m ++ x ∷ []) ++ r ≡ m ++ x ∷ r
++-step [] r x = refl
++-step (y ∷ m) r x = ap (λ z. y ∷ z) (++-step m r x)

restore_one :
    (m : List (Str × Board)) (k : Str) (b : Board) (rs : List BoardRecord)
    → valid_host k ≡ true
    → b.rec.host ≡ k
    → After k m
    → restore_boards m (b.rec ∷ rs) ≡ restore_boards (m ++ (k, restored b.rec) ∷ []) rs
unfolding restore_boards
restore_one m k b rs valid own behind =
    let v = ap valid_host own ∙ valid in
    let last =
      ap (λ z. insert z (restored b.rec) m) own ∙ insert_last k (restored b.rec) m behind in
    rw (v, last) refl

restore_boards-asleep :
    (m r : List (Str × Board))
    → Sorted (m ++ asleep r)
    → All IsFiled r
    → restore_boards m (records r) ≡ m ++ asleep r
unfolding restore_boards records
restore_boards-asleep m [] s h = ++-nil m
  where
    ++-nil : (m : List (Str × Board)) → m ≡ m ++ []
    ++-nil [] = refl
    ++-nil (x ∷ m) = ap (λ z. x ∷ z) (++-nil m)
restore_boards-asleep m ((k, b) ∷ r) s ((valid, own, fits), h) =
    let x : Str × Board = (k, restored b.rec) in
    let behind = After-append k (restored b.rec) m (asleep r) s in
    let step = ++-step m (asleep r) x in
    restore_one m k b (records r) valid own behind
    ∙ restore_boards-asleep (m ++ x ∷ []) r (subst Sorted (sym step) s) h
    ∙ step

salt_exams-salted :
    (draw : ℕ → List ℕ) (i : ℕ) (es : List Exam) → All HasSalt es → salt_exams draw i es ≡ es
unfolding salt_exams
salt_exams-salted draw i [] h = refl
salt_exams-salted draw i (e ∷ es) (p, h) =
    rw p (ap (λ z. e ∷ z) (salt_exams-salted draw (suc i) es h))

any-salted : (es : List Exam) → All HasSalt es → any (λ (e : Exam). null e.seb_salt) es ≡ false
any-salted [] h = refl
any-salted (e ∷ es) (p, h) = rw p (any-salted es h)

last_id-below : (n : ℕ) (es : List Event) → Ascending n es → 1 ≤ n → last_id es + 1 ≤ n
last_id-below n [] h p = p
last_id-below n (e ∷ []) h p = omega (arith, h.0)
last_id-below n (e ∷ x ∷ es) h p = last_id-below n (x ∷ es) h.2 p

next_id-kept :
    (n : ℕ) (es : List Event)
    → Ascending n es
    → 1 ≤ n
    → n < u64_mod
    → max n (next_u64 (last_id es)) ≡ n
next_id-kept n es h p fits = let below = last_id-below n es h p in omega (arith, below, fits)

-- What makes a saved fleet come back as it was: the counters are below their limit.
pub record IsCounting (f : Fleet) : Type 0 where
  pub ordered : IsOrdered f
  pub events : (1 ≤ f.next_event_id) × (f.next_event_id < u64_mod)
  pub jobs : 1 ≤ f.next_job_id

-- A restart from the snapshot of a well-formed fleet whose counters have not wrapped gives the same
-- boards, none of them heard of yet, the same exams, log and counters, and nothing to save.
pub snapshot-restart :
    (f : Fleet) (max_boards : ℕ) (draw : ℕ → List ℕ)
    → IsWellFormed f
    → IsCounting f
    → let g = from_snapshot (snapshot f) max_boards draw in
      (g.boards ≡ asleep f.boards)
      × (g.exams ≡ f.exams)
      × (g.log ≡ f.log)
      × (g.next_event_id ≡ f.next_event_id)
      × (g.next_job_id ≡ f.next_job_id)
      × (g.dirty ≡ false)
unfolding from_snapshot snapshot records
snapshot-restart f max_boards draw w c = (
  restore_boards-asleep [] f.boards (asleep-Sorted f.boards w.sorted) w.filed,
  salt_exams-salted draw 0 f.exams w.salted,
  refl,
  next_id-kept f.next_event_id f.log c.ordered c.events.0 c.events.1,
  omega (arith, c.jobs),
  any-salted f.exams w.salted,
)
