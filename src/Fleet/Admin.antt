-- ===== src/Fleet/Admin.antt =====
-- Labels, forgetting a board, and the snapshot that survives a restart.
pub mod Restart
pub mod Labels
use riscv_exam_computer.Base.{
  ℕ, suc, ◌+◌, Bool, true, false, not, ◌&&◌, ◌||◌, Option, none, some, List, [], ◌∷◌, ◌++◌, map,
  max, ltb, if◌then◌else◌, length, any, null, filter, get_last?, Result, ok, err, Str, txt, str_eq,
  opt_str_eq, trim, is_control,
}
use riscv_exam_computer.Base.Words.{next_u64}
use riscv_exam_computer.Base.Decimal.{decimal}
use riscv_exam_computer.Base.OrderedMap.{get, contains_key, insert, remove, update, values}
use riscv_exam_computer.SebFile.Hex.{hex}
use riscv_exam_computer.Fleet.Model.{
  Fleet, Board, BoardRecord, Exam, Event, Snapshot, Actor, Level, max_label, new, valid_host,
}
use riscv_exam_computer.Fleet.Log.{log}

-- The label that a board gets; its own host name and the empty text clear it.
unfoldable pub label_of : Str → Str → Option Str
unfolding str_eq
label_of host label = if not (null label) && not (str_eq label host) then some label else none

abbrev pub set_label : Option Str → Board → Board
set_label new b = record b { rec = record b.rec { label = new } }

abbrev rename_text : Option Str → Str
rename_text (some n) = txt "Renamed to “" ++ n ++ txt "”"
rename_text none = txt "Name cleared"

unfoldable pub rename_board : Fleet → Str → Option Str → ℕ → Board → Fleet
unfolding opt_str_eq
rename_board f host new wall_ms b =
    if opt_str_eq b.rec.label new
    then f
    else log (record f { boards = update host (set_label new) f.boards }) wall_ms Actor.instructor
        Level.info (some host) (rename_text new)

unfoldable pub rename : Fleet → Str → Str → ℕ → Fleet × Result Str (Unit {0})
unfolding rename_board label_of trim is_control
rename f host label wall_ms =
    let label' = trim label in
    if ltb max_label (length label')
    then (f, err (txt "Names can be at most " ++ decimal max_label ++ txt " characters"))
    else if any is_control label'
    then (f, err (txt "Names cannot contain control characters"))
    else elim (get host f.boards) [
      | none ↦ (f, err (txt "Unknown board"))
      | some b ↦ (rename_board f host (label_of host label') wall_ms b, ok tt)
    ]

unfoldable pub forget : Fleet → Str → ℕ → Fleet × Result Str (Unit {0})
forget f host wall_ms =
    if contains_key host f.boards
    then (
      log (record f { boards = remove host f.boards; cap_warned = false }) wall_ms Actor.instructor
          Level.info (some host) (txt "Board forgotten"),
      ok tt,
    )
    else (f, err (txt "Unknown board"))

unfoldable pub snapshot : Fleet → Snapshot
snapshot f = record {
  version = 1;
  boards = map (λ (b : Board). b.rec) (values f.boards);
  exams = f.exams;
  activity = f.log;
  next_event_id = f.next_event_id;
  next_job_id = f.next_job_id;
}

abbrev pub restored : BoardRecord → Board
restored r = record { rec = r; live = none }

unfoldable pub restore_boards : List (Str × Board) → List BoardRecord → List (Str × Board)
unfolding valid_host
restore_boards m [] = m
restore_boards m (r ∷ rs) =
    restore_boards (if valid_host r.host then insert r.host (restored r) m else m) rs

-- Exams saved without a salt get one; `draw i` is the salt that is drawn for the i-th exam.
unfoldable pub salt_exams : (ℕ → List ℕ) → ℕ → List Exam → List Exam
unfolding hex
salt_exams draw i [] = []
salt_exams draw i (e ∷ es) =
    (if null e.seb_salt then record e { seb_salt = hex (draw i) } else e)
    ∷ salt_exams draw (suc i) es

abbrev pub last_id : List Event → ℕ
last_id log = elim (get_last? log) [ none ↦ 0 | some e ↦ e.id ]

unfoldable pub from_snapshot : Snapshot → ℕ → (ℕ → List ℕ) → Fleet
unfolding restore_boards salt_exams new
from_snapshot s max_boards draw = record (new max_boards) {
  boards = restore_boards [] s.boards;
  exams = salt_exams draw 0 s.exams;
  dirty = any (λ (e : Exam). null e.seb_salt) s.exams;
  log = s.activity;
  next_event_id = max s.next_event_id (next_u64 (last_id s.activity));
  next_job_id = max s.next_job_id 1;
}
