-- ===== src/Fleet/Invariant/Calls.antt =====
-- The calls that change a fleet, and the invariant after any history of them.
use riscv_exam_computer.Base.{ℕ, ◌≡◌, false, Option, List, [], ◌∷◌, arith, All, null, Str}
use riscv_exam_computer.Proto.{Heartbeat, JobKind}
use riscv_exam_computer.Seb.{ExamSpec}
use riscv_exam_computer.SebFile.Values.{Ext}
use riscv_exam_computer.Fleet.Model.{Fleet, Instant, new}
use riscv_exam_computer.Fleet.Heartbeat.{heartbeat}
use riscv_exam_computer.Fleet.Tick.{tick}
use riscv_exam_computer.Fleet.Enqueue.{enqueue}
use riscv_exam_computer.Fleet.Exams.{create_exam, delete_exam}
use riscv_exam_computer.Fleet.Admin.{rename, forget}
use riscv_exam_computer.Fleet.Invariant.Boards.{IsWellFormed}
use riscv_exam_computer.Fleet.Invariant.Reports.{heartbeat-IsWellFormed, tick-IsWellFormed}
use riscv_exam_computer.Fleet.Invariant.Requests.{
  enqueue-IsWellFormed, rename-IsWellFormed, forget-IsWellFormed, create_exam-IsWellFormed,
  delete_exam-IsWellFormed,
}

-- Time and randomness are arguments of a call.
pub data Call : Type 0 where
  beats : Heartbeat → Instant → ℕ → Call
  ticks : Instant → ℕ → Call
  enqueues : List Str → JobKind → Option Str → Instant → ℕ → Call
  renames : Str → Str → ℕ → Call
  forgets : Str → ℕ → Call
  creates : Str → Str → ExamSpec → List ℕ → ℕ → Call
  deletes : Str → ℕ → Call

unfoldable pub step : Ext → Fleet → Call → Fleet
step ext f (beats hb now wall_ms) = (heartbeat f hb now wall_ms).0
step ext f (ticks now wall_ms) = tick f now wall_ms
step ext f (enqueues hosts kind exam_id now wall_ms) =
    (enqueue ext f hosts kind exam_id now wall_ms).0
step ext f (renames host label wall_ms) = (rename f host label wall_ms).0
step ext f (forgets host wall_ms) = (forget f host wall_ms).0
step ext f (creates id name spec salt wall_ms) = (create_exam ext f id name spec salt wall_ms).0
step ext f (deletes id wall_ms) = (delete_exam f id wall_ms).0

unfoldable pub run : Ext → Fleet → List Call → Fleet
unfolding step
run ext f [] = f
run ext f (c ∷ cs) = run ext (step ext f c) cs

-- A salt that is drawn is not empty.
abbrev pub Drawn : Call → Type 0
Drawn (creates id name spec salt wall_ms) = null salt ≡ false
Drawn _ = Unit

-- Every call keeps the fleet well formed, whether it succeeds or not.
pub step-IsWellFormed :
    (ext : Ext) (f : Fleet) (c : Call) → Drawn c → IsWellFormed f → IsWellFormed (step ext f c)
unfolding step
step-IsWellFormed ext f (beats hb now wall_ms) d w = heartbeat-IsWellFormed f hb now wall_ms w
step-IsWellFormed ext f (ticks now wall_ms) d w = tick-IsWellFormed f now wall_ms w
step-IsWellFormed ext f (enqueues hosts kind exam_id now wall_ms) d w =
    enqueue-IsWellFormed ext f hosts kind exam_id now wall_ms w
step-IsWellFormed ext f (renames host label wall_ms) d w =
    rename-IsWellFormed f host label wall_ms w
step-IsWellFormed ext f (forgets host wall_ms) d w = forget-IsWellFormed f host wall_ms w
step-IsWellFormed ext f (creates id name spec salt wall_ms) d w =
    create_exam-IsWellFormed ext f id name spec salt wall_ms d w
step-IsWellFormed ext f (deletes id wall_ms) d w = delete_exam-IsWellFormed f id wall_ms w

run-IsWellFormed :
    (ext : Ext) (f : Fleet) (cs : List Call)
    → All Drawn cs
    → IsWellFormed f
    → IsWellFormed (run ext f cs)
unfolding run
run-IsWellFormed ext f [] d w = w
run-IsWellFormed ext f (c ∷ cs) (p, d) w =
    run-IsWellFormed ext (step ext f c) cs d (step-IsWellFormed ext f c p w)

new-IsWellFormed : (max_boards : ℕ) → IsWellFormed (new max_boards)
unfolding new
new-IsWellFormed max_boards = record {
  sorted = tt;
  filed = tt;
  log_capped = omega arith;
  exams_capped = omega arith;
  salted = tt;
}

-- After any history of calls on a new fleet, failed ones included, the boards stand in key order
-- under their own valid host names with at most 120 temperature samples each, and the log and the
-- exams are within their limits, every exam with a salt; drawn salts are taken not to be empty.
pub run-new-IsWellFormed :
    (ext : Ext) (max_boards : ℕ) (cs : List Call)
    → All Drawn cs
    → IsWellFormed (run ext (new max_boards) cs)
run-new-IsWellFormed ext max_boards cs d =
    run-IsWellFormed ext (new max_boards) cs d (new-IsWellFormed max_boards)
