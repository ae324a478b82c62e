-- ===== src/Server/Store/Durable.antt =====
-- What the disk holds after a save, a failed save and a load.
use mathlib.Core.List.{append_assoc}
use riscv_exam_computer.Base.{
  ℕ, ◌≡◌, refl, ap, ◌∙◌, ◌⊎◌, inl, inr, Bool, true, false, not, none, some, List, [], ◌∷◌, ◌++◌,
  arith, if◌then◌else◌, Bool-cases, Result, ok, is_ok, Str, txt, str_eq, str_eq_refl, rsplit_once,
}
use riscv_exam_computer.Base.Decimal.{decimal}
use riscv_exam_computer.Fleet.Model.{Snapshot}
use riscv_exam_computer.Fleet.Admin.{snapshot}
use riscv_exam_computer.Server.State.{App, set_dirty, take_snapshot, finish_save}
use riscv_exam_computer.Server.State.Saving.{rests, finish_save-snapshot}
use riscv_exam_computer.Server.Store.{
  Serde, Writing, Reading, state_path, with_extension, tmp_path, aside_path, load, load_bytes,
  file_bytes, finish_file, save, store_taken, persist,
}
use riscv_exam_computer.Server.Store.Files.{Disk, write_file, rename_file}

str_eq-append : (p s t : Str) → str_eq (p ++ s) (p ++ t) ≡ str_eq s t
unfolding str_eq
str_eq-append [] s t = refl
str_eq-append (c ∷ p) s t = ground (arith, str_eq-append p s t)

rsplit_once-append :
    (c : ℕ) (p s a b : Str)
    → rsplit_once c s ≡ some (a, b)
    → rsplit_once c (p ++ s) ≡ some (p ++ a, b)
unfolding rsplit_once
rsplit_once-append c [] s a b h = h
rsplit_once-append c (x ∷ p) s a b h = rw (rsplit_once-append c p s a b h) refl

with_extension-state_path :
    (dir ext : Str) → with_extension (state_path dir) ext ≡ dir ++ (txt "/state" ++ b'.' ∷ ext)
unfolding with_extension state_path txt rsplit_once
with_extension-state_path dir ext =
    rw
      (
        with_extension,
        rsplit_once-append b'.' dir (txt "/state.json") (txt "/state") (txt "json") refl,
      )
      (append_assoc dir (txt "/state") (b'.' ∷ ext))

pub tmp_path-ne : (dir : Str) → str_eq (state_path dir) (tmp_path (state_path dir)) ≡ false
unfolding state_path tmp_path txt str_eq
tmp_path-ne dir =
    rw (with_extension-state_path dir (txt "json.tmp"))
      (str_eq-append dir (txt "/state.json") (txt "/state.json.tmp"))

aside_path-ne :
    (dir : Str) (pid : ℕ) → str_eq (state_path dir) (aside_path (state_path dir) pid) ≡ false
unfolding state_path aside_path txt str_eq
aside_path-ne dir pid =
    let ext = txt "corrupt-" ++ decimal pid ++ txt ".json" in
    rw (with_extension-state_path dir ext)
      (str_eq-append dir (txt "/state.json") (txt "/state" ++ b'.' ∷ ext))

module _ (serde : Serde) where
  open serde use {to_bytes, from_slice}

  finish_file-path :
      (path : Str) (w : Writing) (body : List ℕ) (disk : Disk)
      → str_eq path (tmp_path path) ≡ false
      → (finish_file serde path w body disk).0 path ≡ (
          if is_ok (finish_file serde path w body disk).1
          then some (body ++ 10 ∷ [])
          else disk path)
  unfolding finish_file write_file rename_file
  finish_file-path path w body disk h =
      let a = str_eq_refl path in let b = str_eq_refl (tmp_path path) in ground arith

  save-path :
      (path : Str) (w : Writing) (snap : Snapshot) (disk : Disk)
      → str_eq path (tmp_path path) ≡ false
      → (save serde path w snap disk).0 path ≡ (
          if is_ok (save serde path w snap disk).1 then some (file_bytes serde snap) else disk path)
  unfolding save write_file
  save-path path w snap disk h =
      let body = to_bytes snap in
      let f = finish_file-path path w body (write_file (tmp_path path) body disk) h in ground arith

  -- Whatever the system answers, a save either succeeds and leaves the whole new text in the file,
  -- or fails and leaves the file as it was, so that what is cut off at any point can be read.
  pub save-state_path :
      (dir : Str) (w : Writing) (snap : Snapshot) (disk : Disk)
      → (save serde (state_path dir) w snap disk).0 (state_path dir) ≡ (
          if is_ok (save serde (state_path dir) w snap disk).1
          then some (file_bytes serde snap)
          else disk (state_path dir))
  save-state_path dir w snap disk = save-path (state_path dir) w snap disk (tmp_path-ne dir)

  -- A load loses no bytes: what stood in the file stands there afterwards or at the path aside.
  pub load-keeps :
      (dir : Str) (pid : ℕ) (r : Reading) (moved : Result Str (Unit {0})) (disk : Disk)
      (bytes : List ℕ)
      → disk (state_path dir) ≡ some bytes
      → ((load serde (state_path dir) pid r moved disk).0 (state_path dir) ≡ some bytes)
        ⊎ ((load serde (state_path dir) pid r moved disk).0 (aside_path (state_path dir) pid)
            ≡ some bytes)
  unfolding load load_bytes rename_file
  load-keeps dir pid Reading.readable moved disk bytes h =
      let a = str_eq_refl (aside_path (state_path dir) pid) in ground arith
  load-keeps dir pid (Reading.unreadable e) moved disk bytes h = inl h

  -- A file that holds the text of a snapshot is loaded as this snapshot, without a warning.
  pub load-file_bytes :
      (path : Str) (pid : ℕ) (moved : Result Str (Unit {0})) (snap : Snapshot) (disk : Disk)
      → from_slice (file_bytes serde snap) ≡ ok snap
      → disk path ≡ some (file_bytes serde snap)
      → load serde path pid Reading.readable moved disk ≡ (disk, snap, none)
  unfolding load load_bytes
  load-file_bytes path pid moved snap disk law h = rw (load, h, load_bytes, law) refl

  -- What the fleet has to save is in the file, unless it is marked as changed.
  abbrev pub IsDurable : Str → ℕ → App → Disk → Type 0
  IsDurable dir pid a disk =
      (a.fleet.dirty ≡ true)
      ⊎ (load serde (state_path dir) pid Reading.readable (ok tt) disk
          ≡ (disk, snapshot a.fleet, none))

  persist-rests :
      (dir : Str) (w : Writing) (force : Bool) (a : App) (disk : Disk)
      → rests force a ≡ true
      → persist serde dir w force a disk ≡ (a, disk)
  unfolding persist take_snapshot store_taken
  persist-rests dir w force a disk h =
      let taken : take_snapshot force a ≡ (a, none) = rw (take_snapshot, h) refl in
      ap (store_taken serde dir w disk) taken

  pub persist-acts :
      (dir : Str) (w : Writing) (force : Bool) (a : App) (disk : Disk)
      → rests force a ≡ false
      → persist serde dir w force a disk ≡ (
        finish_save
            (is_ok (save serde (state_path dir) w (snapshot a.fleet) disk).1)
            (set_dirty false a),
        (save serde (state_path dir) w (snapshot a.fleet) disk).0,
      )
  unfolding persist take_snapshot store_taken
  persist-acts dir w force a disk h =
      let taken : take_snapshot force a ≡ (set_dirty false a, some (snapshot a.fleet)) =
        rw (take_snapshot, h) refl in
      ap (store_taken serde dir w disk) taken

  saved-IsDurable :
      (dir : Str) (pid : ℕ) (w : Writing) (a : App) (disk : Disk)
      → from_slice (file_bytes serde (snapshot a.fleet)) ≡ ok (snapshot a.fleet)
      → IsDurable dir pid
          (finish_save
            (is_ok (save serde (state_path dir) w (snapshot a.fleet) disk).1)
            (set_dirty false a))
          (save serde (state_path dir) w (snapshot a.fleet) disk).0
  saved-IsDurable dir pid w a disk law =
      let r = save serde (state_path dir) w (snapshot a.fleet) disk in
      let (kept, dirty) = finish_save-snapshot (is_ok r.1) a in
      elim (Bool-cases (is_ok r.1)) [
        | inl done ↦
            let held : r.0 (state_path dir) ≡ some (file_bytes serde (snapshot a.fleet)) =
              save-state_path dir w (snapshot a.fleet) disk
              ∙ ap
                  (λ b.
                    if b then some (file_bytes serde (snapshot a.fleet)) else disk (state_path dir))
                  done in
            inr (
              rw kept
                (load-file_bytes (state_path dir) pid (ok tt) (snapshot a.fleet) r.0 law held))
        | inr failed ↦ inl (dirty ∙ ap not failed)
      ]

  -- If serde reads the text that it writes of the fleet's snapshot, a save keeps this, whatever the
  -- system answers: the fleet is marked as changed, or the file loads as the fleet's snapshot,
  -- without a warning.
  pub persist-IsDurable :
      (dir : Str) (pid : ℕ) (w : Writing) (force : Bool) (a : App) (disk : Disk)
      → from_slice (file_bytes serde (snapshot a.fleet)) ≡ ok (snapshot a.fleet)
      → IsDurable dir pid a disk
      → IsDurable dir pid (persist serde dir w force a disk).0 (persist serde dir w force a disk).1
  persist-IsDurable dir pid w force a disk law before = elim (Bool-cases (rests force a)) [
    | inl e ↦ rw (persist-rests dir w force a disk e) before
    | inr e ↦ rw (persist-acts dir w force a disk e) (saved-IsDurable dir pid w a disk law)
  ]
