-- ===== src/Tests/Boards.antt =====
-- Restarts, labels and forgetting.
use riscv_exam_computer.Base.{
  ℕ, ◌≡◌, refl, Bool, true, false, Option, none, some, List, [], ◌∷◌, arith, Result, ok, err, Str,
  txt, trim, opt_map, str_eq, if◌then◌else◌,
}
use riscv_exam_computer.Fleet.Model.{Fleet}
use riscv_exam_computer.Fleet.Admin.{snapshot, from_snapshot}
use riscv_exam_computer.Fleet.Admin.Restart.{IsCounting, asleep, snapshot-restart}
use riscv_exam_computer.Fleet.Invariant.Boards.{IsWellFormed}
use riscv_exam_computer.Tests.Data.{waiting_fleet}

pub waiting_fleet-IsWellFormed : IsWellFormed waiting_fleet
unfolding riscv_exam_computer.Fleet.Model.valid_host riscv_exam_computer.Base.utf8_len txt
    riscv_exam_computer.Base.is_ascii_alphanumeric
waiting_fleet-IsWellFormed = record {
  sorted = (tt, tt);
  filed = ((refl, refl, omega arith), tt);
  log_capped = omega arith;
  exams_capped = omega arith;
  salted = tt;
}

pub waiting_fleet-IsCounting : IsCounting waiting_fleet
waiting_fleet-IsCounting = record {
  ordered = tt;
  events = (omega arith, omega arith);
  jobs = omega arith;
}

abbrev restarted : Fleet
restarted = from_snapshot (snapshot waiting_fleet) 3 (λ i. 1 ∷ [])

snapshot-restart_example :
    (restarted.boards ≡ asleep waiting_fleet.boards)
    × (restarted.exams ≡ waiting_fleet.exams)
    × (restarted.log ≡ waiting_fleet.log)
    × (restarted.next_event_id ≡ 1)
    × (restarted.next_job_id ≡ 8)
    × (restarted.dirty ≡ false)
snapshot-restart_example =
    snapshot-restart waiting_fleet 3 (λ i. 1 ∷ []) waiting_fleet-IsWellFormed
      waiting_fleet-IsCounting
