-- ===== src/Fleet/Once/Past.antt =====
-- A job id that no job of a board waits with.
use riscv_exam_computer.Base.{
  ℕ, ◌<◌, ◌≡◌, ◌≢◌, Bool, false, ◌&&◌, Option, none, some, List, arith, Str, ◌==◌, is_none,
}
use riscv_exam_computer.Base.OrderedMap.{get}
use riscv_exam_computer.Proto.{Heartbeat}
use riscv_exam_computer.Fleet.Model.{Fleet, Board, Job}
use riscv_exam_computer.Fleet.Beat.Delivery.{IsHandedOut, remaining, offer, job_of}
use riscv_exam_computer.Fleet.Heartbeat.{live_of}

-- The job has this id and still waits to be picked up.
abbrev pub waits : ℕ → Job → Bool
waits j job = job.id == j && is_none job.picked_up_at

abbrev pub IsSpent : ℕ → Option Job → Type 0
IsSpent j none = Unit
IsSpent j (some job) = waits j job ≡ false

abbrev pub board_job : Str → List (Str × Board) → Option Job
board_job host m = job_of (live_of (get host m))

-- The counter has passed the id, and no job of the board waits with it.
pub record IsPast (j : ℕ) (host : Str) (f : Fleet) : Type 0 where
  pub spent : IsSpent j (board_job host f.boards)
  pub below : j < f.next_job_id

pub handed-IsSpent : (j : ℕ) (job : Option Job) → IsHandedOut job → IsSpent j job
handed-IsSpent j none h = tt
handed-IsSpent j (some job) h = ground arith

-- What a report leaves of such a job is not handed out.
pub offer-IsSpent :
    (j : ℕ) (hb : Heartbeat) (job : Option Job)
    → IsSpent j job
    → (offer (remaining hb job)).job_id ≢ some j
unfolding offer remaining
offer-IsSpent j hb none h e = absurd (cc)
offer-IsSpent j hb (some job) h e = ground arith

pub same-IsPast :
    {j : ℕ} {host : Str} {f g : Fleet}
    → get host g.boards ≡ get host f.boards
    → g.next_job_id ≡ f.next_job_id
    → IsPast j host f
    → IsPast j host g
same-IsPast {j} {host} b n p = record { spent = rw b p.spent; below = rw n p.below }
