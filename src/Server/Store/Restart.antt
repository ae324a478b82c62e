-- ===== src/Server/Store/Restart.antt =====
-- A server that is stopped and started again from the same directory.
use riscv_exam_computer.Base.{
  ℕ, ◌≡◌, refl, sym, ap, ◌∙◌, true, false, Option, none, some, List, [], arith, if◌then◌else◌,
  Bool-cases, inl, inr, is_none, Result, ok, is_ok, Str,
}
use riscv_exam_computer.SebFile.Values.{Ext}
use riscv_exam_computer.Fleet.Model.{Fleet, Snapshot}
use riscv_exam_computer.Seb.{url_host}
use riscv_exam_computer.Fleet.Admin.{snapshot, from_snapshot}
use riscv_exam_computer.Fleet.Admin.Restart.{IsCounting, asleep, snapshot-restart}
use riscv_exam_computer.Fleet.Invariant.Boards.{IsWellFormed}
use riscv_exam_computer.Server.State.{
  App, Config, loaded_fleet, with_public_url, note_gate, new_app,
}
use riscv_exam_computer.Fleet.Exams.{set_public_url}
use riscv_exam_computer.Fleet.Log.{log}
use riscv_exam_computer.Auth.Digests.{new}
use riscv_exam_computer.Server.State.Saving.{finish_save-snapshot}
use riscv_exam_computer.Server.Store.{
  Serde, Reading, Writing, state_path, file_bytes, load, save, persist,
}
use riscv_exam_computer.Server.Store.Files.{Disk}
use riscv_exam_computer.Server.Store.Durable.{persist-acts, save-state_path, load-file_bytes}
use riscv_exam_computer.Server.Store.Start.{start, start_from, shut_down}

-- The boards, the exams and the counter of jobs.
record IsKept (f g : Fleet) : Type 0 where
  boards : g.boards ≡ f.boards
  exams : g.exams ≡ f.exams
  next_job_id : g.next_job_id ≡ f.next_job_id

same-IsKept : (f : Fleet) → IsKept f f
same-IsKept f = record { boards = refl; exams = refl; next_job_id = refl }

with_public_url-IsKept : (u : Option Str) (f : Fleet) → IsKept f (with_public_url u f)
unfolding with_public_url set_public_url
with_public_url-IsKept none f = same-IsKept f
with_public_url-IsKept (some u) f = elim (Bool-cases (is_ok (url_host u))) [
  | inl e ↦ rw e (record { boards = refl; exams = refl; next_job_id = refl })
  | inr e ↦ rw e (same-IsKept f)
]

note_gate-IsKept : (wall_ms : ℕ) (f : Fleet) → IsKept f (note_gate wall_ms f)
unfolding note_gate log
note_gate-IsKept wall_ms f = elim (Bool-cases (is_none f.public_url)) [
  | inl e ↦ rw e (record { boards = refl; exams = refl; next_job_id = refl })
  | inr e ↦ rw e (same-IsKept f)
]

new_app-IsKept :
    (ext : Ext) (cfg : Config) (snap : Snapshot) (draw : ℕ → List ℕ) (wall_ms : ℕ)
    → IsKept
        (from_snapshot snap cfg.max_boards draw)
        (new_app ext cfg (some (snap, none)) draw wall_ms).fleet
unfolding new_app loaded_fleet log
new_app-IsKept ext cfg snap draw wall_ms =
    let f = from_snapshot snap cfg.max_boards draw in
    let p = with_public_url-IsKept cfg.public_url f in
    let q = note_gate-IsKept wall_ms (with_public_url cfg.public_url f) in
    record {
      boards = q.boards ∙ p.boards;
      exams = q.exams ∙ p.exams;
      next_job_id = q.next_job_id ∙ p.next_job_id;
    }

-- A new server has no session and no uploaded file.
new_app-blank :
    (ext : Ext) (cfg : Config) (snap : Snapshot) (draw : ℕ → List ℕ) (wall_ms : ℕ)
    → let b = new_app ext cfg (some (snap, none)) draw wall_ms in
      (b.auth.sessions ≡ []) × (b.exam_file ≡ none)
unfolding new_app new
new_app-blank ext cfg snap draw wall_ms = (refl, refl)

module _ (serde : Serde) where
  -- After a forced save that worked, the file is loaded as the snapshot.
  saved-loads :
      (dir : Str) (pid : ℕ) (w : Writing) (moved : Result Str (Unit {0})) (a : App) (disk : Disk)
      → a.has_store ≡ true
      → serde.from_slice (file_bytes serde (snapshot a.fleet)) ≡ ok (snapshot a.fleet)
      → (persist serde dir w true a disk).0.fleet.dirty ≡ false
      → load serde (state_path dir) pid Reading.readable moved (persist serde dir w true a disk).1
        ≡ ((persist serde dir w true a disk).1, snapshot a.fleet, none)
  saved-loads dir pid w moved a disk stored law clean =
      let acts = persist-acts serde dir w true a disk (rw stored (ground arith)) in
      let r = save serde (state_path dir) w (snapshot a.fleet) disk in
      let (kept, dirty) = finish_save-snapshot (is_ok r.1) a in
      let done : is_ok r.1 ≡ true =
        ground (arith, sym dirty ∙ sym (ap (λ p. p.0.fleet.dirty) acts) ∙ clean) in
      let held : r.0 (state_path dir) ≡ some (file_bytes serde (snapshot a.fleet)) =
        save-state_path serde dir w (snapshot a.fleet) disk
        ∙ ap (λ b. if b then some (file_bytes serde (snapshot a.fleet)) else disk (state_path dir))
            done in
      rw (ap (λ p. p.1) acts)
        (load-file_bytes serde (state_path dir) pid moved (snapshot a.fleet) r.0 law held)

  -- A server with a well-formed fleet whose counters have not wrapped, that saves without an error when it
  -- is stopped, can be started again from its directory, if serde reads the text that it writes of the
  -- snapshot: the new server has the same boards, none of them heard of yet, the same exams and the same
  -- next job id, no session and no uploaded file, and the disk is as it was left.
  pub start-shut_down :
      (ext : Ext) (cfg : Config) (dir : Str) (pid : ℕ) (w : Writing) (moved : Result Str (Unit {0}))
      (draw : ℕ → List ℕ) (wall_ms : ℕ) (a : App) (disk : Disk)
      → cfg.data_dir ≡ some dir
      → a.has_store ≡ true
      → IsWellFormed a.fleet
      → IsCounting a.fleet
      → serde.from_slice (file_bytes serde (snapshot a.fleet)) ≡ ok (snapshot a.fleet)
      → (shut_down serde dir w a disk).0.fleet.dirty ≡ false
      → (b : App) × (start serde ext cfg
            (ok tt)
            pid
            Reading.readable
            moved
            draw
            wall_ms
            (shut_down serde dir w a disk).1
          ≡ ok (b, (shut_down serde dir w a disk).1))
        × (b.fleet.boards ≡ asleep a.fleet.boards)
        × (b.fleet.exams ≡ a.fleet.exams)
        × (b.fleet.next_job_id ≡ a.fleet.next_job_id)
        × (b.auth.sessions ≡ [])
        × (b.exam_file ≡ none)
  unfolding start start_from shut_down
  start-shut_down ext cfg dir pid w moved draw wall_ms a disk at stored well counting law clean =
      let back = saved-loads dir pid w moved a disk stored law clean in
      let (boards, exams, log, event, job, rest) =
        snapshot-restart a.fleet cfg.max_boards draw well counting in
      let k = new_app-IsKept ext cfg (snapshot a.fleet) draw wall_ms in
      let (sessions, file) = new_app-blank ext cfg (snapshot a.fleet) draw wall_ms in
      (
        new_app ext cfg (some (snapshot a.fleet, none)) draw wall_ms,
        rw (at, back) refl,
        k.boards ∙ boards,
        k.exams ∙ exams,
        k.next_job_id ∙ job,
        sessions,
        file,
      )
