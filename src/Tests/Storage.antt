-- ===== src/Tests/Storage.antt =====
-- The file of the server's state.
use riscv_exam_computer.Base.{
  ℕ, ◌≡◌, ◌⊎◌, inl, refl, true, false, none, some, List, [], ◌∷◌, Result, ok, err, is_ok,
  if◌then◌else◌, Str, txt,
}
use riscv_exam_computer.Fleet.Model.{Snapshot}
use riscv_exam_computer.Fleet.Admin.{snapshot}
use riscv_exam_computer.Fleet.Admin.Restart.{asleep}
use riscv_exam_computer.Server.State.{App, Config, CookieSecure}
use riscv_exam_computer.Server.Store.{
  Serde, Writing, Reading, state_path, aside_path, file_bytes, save, load, persist,
}
use riscv_exam_computer.Server.Store.Files.{Disk}
use riscv_exam_computer.Server.Store.Durable.{
  IsDurable, save-state_path, load-keeps, persist-IsDurable,
}
use riscv_exam_computer.Server.Store.Start.{start, shut_down}
use riscv_exam_computer.Server.Store.Restart.{start-shut_down}
use riscv_exam_computer.Tests.Data.{plain_ext, waiting_fleet}
use riscv_exam_computer.Tests.Boards.{waiting_fleet-IsWellFormed, waiting_fleet-IsCounting}
use riscv_exam_computer.Tests.Access.{app}

abbrev changed : App
changed = record app { fleet = record waiting_fleet { dirty = true } }

-- Reads the next job id, and takes the rest from the fleet of the tests.
abbrev read_id : List ℕ → Result Str Snapshot
read_id [] = err (txt "EOF")
read_id (n ∷ bytes) = ok (record (snapshot waiting_fleet) { next_job_id = n })

abbrev serde : Serde
serde = record { to_bytes = λ s. s.next_job_id ∷ []; from_slice = read_id }

abbrev dir : Str
dir = txt "/var/lib/exam"

abbrev smooth : Writing
smooth = record { create = ok tt; body = none; newline = none; sync = ok tt; rename = ok tt }

-- The disk is full after a part of the text.
abbrev full : Writing
full = record smooth { body = some (0, txt "no space left") }

abbrev empty_disk : Disk
empty_disk path = none

abbrev kept : Disk
kept path = some (b'{' ∷ [])

persist-IsDurable_example :
    IsDurable serde dir 77
      (persist serde dir smooth false changed empty_disk).0
      (persist serde dir smooth false changed empty_disk).1
unfolding snapshot
persist-IsDurable_example =
    persist-IsDurable serde dir 77 smooth false changed empty_disk refl (inl refl)

save-state_path_example :
    (save serde (state_path dir) full (snapshot waiting_fleet) kept).0 (state_path dir) ≡ (
      if is_ok (save serde (state_path dir) full (snapshot waiting_fleet) kept).1
      then some (file_bytes serde (snapshot waiting_fleet))
      else kept (state_path dir))
save-state_path_example = save-state_path serde dir full (snapshot waiting_fleet) kept

load-keeps_example :
    ((load serde (state_path dir) 77 Reading.readable (ok tt) kept).0 (state_path dir)
      ≡ some (b'{' ∷ []))
    ⊎ ((load serde (state_path dir) 77 Reading.readable (ok tt) kept).0
          (aside_path (state_path dir) 77)
        ≡ some (b'{' ∷ []))
load-keeps_example = load-keeps serde dir 77 Reading.readable (ok tt) kept (b'{' ∷ []) refl

abbrev config : Config
config = record {
  admin_password = txt "pw";
  agent_token = none;
  data_dir = some dir;
  max_boards = 3;
  allowed_origins = [];
  cookie_secure = CookieSecure.auto;
  public_url = none;
}

abbrev left : App × Disk
left = shut_down serde dir smooth app empty_disk

start-shut_down_example :
    (b : App) × (start serde plain_ext config
        (ok tt)
        78
        Reading.readable
        (ok tt)
        (λ i. 1 ∷ [])
        0
        left.1
      ≡ ok (b, left.1))
    × (b.fleet.boards ≡ asleep waiting_fleet.boards)
    × (b.fleet.exams ≡ waiting_fleet.exams)
    × (b.fleet.next_job_id ≡ waiting_fleet.next_job_id)
    × (b.auth.sessions ≡ [])
    × (b.exam_file ≡ none)
unfolding shut_down
start-shut_down_example =
    start-shut_down serde plain_ext config dir 78 smooth (ok tt) (λ i. 1 ∷ []) 0 app empty_disk refl
      refl waiting_fleet-IsWellFormed waiting_fleet-IsCounting refl refl
