-- ===== src/Server/Store/Start.antt =====
-- backend/mod.rs: `App::new` with its store, and the last save of main.rs.
use riscv_exam_computer.Base.{ℕ, true, none, some, List, Result, ok, err, Str}
use riscv_exam_computer.SebFile.Values.{Ext}
use riscv_exam_computer.Server.State.{App, Config, new_app}
use riscv_exam_computer.Server.Store.{Serde, Reading, Writing, state_path, load, persist}
use riscv_exam_computer.Server.Store.Files.{Disk}

module _ (serde : Serde) (ext : Ext) where
  -- The state that is loaded from a directory.
  unfoldable pub start_from :
      Config → Str → ℕ → Reading → Result Str (Unit {0}) → (ℕ → List ℕ) → ℕ → Disk → App × Disk
  unfolding load new_app
  start_from cfg dir pid reading moved draw wall_ms disk =
      let (left, snap, warning) = load serde (state_path dir) pid reading moved disk in
      (new_app ext cfg (some (snap, warning)) draw wall_ms, left)

  -- `made` is how the creation of the directory ends; without one there is no server.
  unfoldable pub start :
      Config
      → Result Str (Unit {0})
      → ℕ
      → Reading
      → Result Str (Unit {0})
      → (ℕ → List ℕ)
      → ℕ
      → Disk
      → Result Str (App × Disk)
  unfolding start_from new_app
  start cfg made pid reading moved draw wall_ms disk = elim cfg.data_dir [
    | none ↦ ok (new_app ext cfg none draw wall_ms, disk)
    | some dir ↦ elim made [
      | err e ↦ err e
      | ok u ↦ ok (start_from cfg dir pid reading moved draw wall_ms disk)
    ]
  ]

-- The save after the server has been told to stop.
unfoldable pub shut_down : Serde → Str → Writing → App → Disk → App × Disk
unfolding persist
shut_down serde dir w a disk = persist serde dir w true a disk
