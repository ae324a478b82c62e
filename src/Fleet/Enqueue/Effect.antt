-- ===== src/Fleet/Enqueue/Effect.antt =====
-- What a request does to each board.
use riscv_exam_computer.Base.{
  ℕ, ◌≡◌, true, false, Option, List, ◌∷◌, arith, if◌then◌else◌, opt_map, Str, str_eq, mem_str,
}
use riscv_exam_computer.Base.OrderedMap.{get}
use riscv_exam_computer.Base.OrderedMap.Laws.{get-update}
use riscv_exam_computer.Proto.{JobKind, ExamPayload}
use riscv_exam_computer.Fleet.Model.{Fleet, Board, Instant}
use riscv_exam_computer.Fleet.Enqueue.{
  Placement, skip, cancel, queue, Sweep, place, apply_placement, sweep_host, set_live,
}
use riscv_exam_computer.Fleet.Enqueue.Partition.{count}

-- The board after a placement, and how often the report lists it as queued.
abbrev pub after : Placement → Option Board → Option Board
after (skip reason) b = b
after (cancel live) b = opt_map (set_live live) b
after (queue live) b = opt_map (set_live live) b

abbrev pub times_queued : Placement → ℕ
times_queued (skip reason) = 0
times_queued (cancel live) = 1
times_queued (queue live) = 1

pub apply-get :
    (payload : Option ExamPayload) (kind : JobKind) (s : Sweep) (host : Str) (p : Placement)
    (h : Str)
    → get h (apply_placement payload kind s host p).boards
      ≡ (if str_eq host h then after p (get h s.boards) else get h s.boards)
unfolding apply_placement
apply-get payload kind s host (skip reason) h = ground arith
apply-get payload kind s host (cancel live) h = get-update host h (set_live live) s.boards
apply-get payload kind s host (queue live) h = get-update host h (set_live live) s.boards

module _ (kind : JobKind) (payload : Option ExamPayload) (now : Instant) where
  -- The board was placed by what it was before, with some job id.
  pub record IsPlaced (old new : List (Str × Board)) (queued : List Str) (h : Str) : Type 0 where
    pub id : ℕ
    pub board : get h new ≡ after (place kind payload now id (get h old)) (get h old)
    pub times : count h queued ≡ times_queued (place kind payload now id (get h old))

  pub record IsUntouched (old new : List (Str × Board)) (queued : List Str) (h : Str) : Type 0 where
    pub board : get h new ≡ get h old
    pub times : count h queued ≡ 0

  abbrev Traced : List (Str × Board) → Sweep → Str → Type 0
  Traced old s h =
      (mem_str h s.seen ≡ false → IsUntouched old s.boards s.queued h)
      × (mem_str h s.seen ≡ true → IsPlaced old s.boards s.queued h)

  pub sweep_host_again :
      (s : Sweep) (host : Str) → mem_str host s.seen ≡ true → sweep_host kind payload now s host ≡ s
  unfolding sweep_host
  sweep_host_again s host m = rw (m, sweep_host)

  pub sweep_host_new :
      (s : Sweep) (host : Str)
      → mem_str host s.seen ≡ false
      → sweep_host kind payload now s host
        ≡ apply_placement payload kind
            (record s { seen = host ∷ s.seen })
            host
            (place kind payload now s.next_job_id (get host s.boards))
  unfolding sweep_host
  sweep_host_new s host m = rw (m, sweep_host)
