-- ===== src/Server/Store.antt =====
-- backend/store.rs: the file that keeps a snapshot, written beside and renamed over the old one.
pub mod Files
pub mod Durable
pub mod Start
pub mod Restart
use riscv_exam_computer.Base.{
  ℕ, zero, suc, Bool, Option, none, some, List, [], ◌∷◌, ◌++◌, take, Result, ok, err, is_ok, Str,
  txt, rsplit_once,
}
use riscv_exam_computer.Base.Decimal.{decimal}
use riscv_exam_computer.Fleet.Model.{Snapshot}
use riscv_exam_computer.Server.State.{App, take_snapshot, finish_save}
use riscv_exam_computer.Server.Store.Files.{Disk, write_file, rename_file}

-- `dir.join("state.json")`.
unfoldable pub state_path : Str → Str
unfolding txt
state_path dir = dir ++ txt "/state.json"

-- `Path::with_extension` of a path whose file name has an extension.
unfoldable pub with_extension : Str → Str → Str
unfolding rsplit_once
with_extension path ext = elim (rsplit_once b'.' path) [
  | none ↦ path ++ b'.' ∷ ext
  | some (stem, old) ↦ stem ++ b'.' ∷ ext
]

unfoldable pub tmp_path : Str → Str
unfolding with_extension txt
tmp_path path = with_extension path (txt "json.tmp")

unfoldable pub aside_path : Str → ℕ → Str
unfolding with_extension txt decimal
aside_path path pid = with_extension path (txt "corrupt-" ++ decimal pid ++ txt ".json")

-- `Snapshot::default()`.
abbrev pub default_snapshot : Snapshot
default_snapshot = record {
  version = 0;
  boards = [];
  exams = [];
  activity = [];
  next_event_id = 0;
  next_job_id = 0;
}

-- serde_json: the text of a snapshot, and what a text is read as.
pub record Serde : Type 0 where
  pub to_bytes : Snapshot → List ℕ
  pub from_slice : List ℕ → Result Str Snapshot

-- How reading the file ends, but for its contents: it is read if it is there, or cannot be opened.
pub data Reading : Type 0 where
  readable : Reading
  unreadable : Str → Reading

-- What the system does during a save; a write that fails may have written a part.
pub record Writing : Type 0 where
  pub create : Result Str (Unit {0})
  pub body : Option (ℕ × Str)
  pub newline : Option Str
  pub sync : Result Str (Unit {0})
  pub rename : Result Str (Unit {0})

module _ (serde : Serde) where
  open serde use {to_bytes, from_slice}

  -- An unreadable text is moved aside, if the move succeeds.
  unfoldable pub load_bytes :
      Str → ℕ → Result Str (Unit {0}) → Disk → List ℕ → Disk × Snapshot × Option Str
  unfolding rename_file aside_path
  load_bytes path pid moved disk bytes = elim (from_slice bytes) [
    | ok s ↦ (disk, s, none)
    | err e ↦ (
      elim moved [ ok u ↦ rename_file path (aside_path path pid) disk | err why ↦ disk ],
      default_snapshot,
      some (path ++ txt " was unreadable (" ++ e ++ txt "); moved to " ++ aside_path path pid),
    )
  ]

  unfoldable pub load :
      Str → ℕ → Reading → Result Str (Unit {0}) → Disk → Disk × Snapshot × Option Str
  unfolding load_bytes
  load path pid readable moved disk = elim (disk path) [
    | none ↦ (disk, default_snapshot, none)
    | some bytes ↦ load_bytes path pid moved disk bytes
  ]
  load path pid (unreadable e) moved disk =
      (disk, default_snapshot, some (txt "could not read " ++ path ++ txt ": " ++ e))

  -- The bytes that are to stand in the file.
  abbrev pub file_bytes : Snapshot → List ℕ
  file_bytes snap = to_bytes snap ++ 10 ∷ []

  unfoldable pub finish_file : Str → Writing → List ℕ → Disk → Disk × Result Str (Unit {0})
  unfolding rename_file tmp_path write_file
  finish_file path w body disk = elim w.newline [
    | some e ↦ (disk, err e)
    | none ↦
        let full = write_file (tmp_path path) (body ++ 10 ∷ []) disk in
        elim w.sync [
          | err e ↦ (full, err e)
          | ok u ↦ elim w.rename [
            | err e ↦ (full, err e)
            | ok u ↦ (rename_file (tmp_path path) path full, ok tt)
          ]
        ]
  ]

  unfoldable pub save : Str → Writing → Snapshot → Disk → Disk × Result Str (Unit {0})
  unfolding finish_file tmp_path write_file
  save path w snap disk = elim w.create [
    | err e ↦ (disk, err e)
    | ok u ↦ elim w.body [
      | some (n, e) ↦ (write_file (tmp_path path) (take n (to_bytes snap)) disk, err e)
      | none ↦ finish_file path w (to_bytes snap) (write_file (tmp_path path) (to_bytes snap) disk)
    ]
  ]

  unfoldable pub store_taken : Str → Writing → Disk → App × Option Snapshot → App × Disk
  unfolding finish_save save
  store_taken dir w disk (a, none) = (a, disk)
  store_taken dir w disk (a, some snap) =
      let (kept, outcome) = save (state_path dir) w snap disk in
      (finish_save (is_ok outcome) a, kept)

  -- `App::save` with its store. The source gives the lock back between the snapshot and the write; here
  -- no call comes in between, and `finish_save` is the second lock.
  unfoldable pub persist : Str → Writing → Bool → App → Disk → App × Disk
  unfolding take_snapshot store_taken
  persist dir w force a disk = store_taken dir w disk (take_snapshot force a)
