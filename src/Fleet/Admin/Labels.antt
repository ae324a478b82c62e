-- ===== src/Fleet/Admin/Labels.antt =====
-- What `rename` and `forget` do to every board.
use riscv_exam_computer.Base.{
  ℕ, ◌≡◌, refl, sym, ap, ◌∙◌, false, Option, none, some, arith, length, any, ltb, if◌then◌else◌,
  Bool-cases, Option-cases, inl, inr, ok, Str, trim, is_control, str_eq, str_eq_iff, opt_str_eq,
  opt_str_eq_iff, opt_map,
}
use riscv_exam_computer.Base.OrderedMap.{get, contains_key, update, remove}
use riscv_exam_computer.Base.OrderedMap.Laws.{get-update, get-remove}
use riscv_exam_computer.Fleet.Model.{Fleet, Board, max_label}
use riscv_exam_computer.Fleet.Log.Frame.{log-SameBut}
use riscv_exam_computer.Fleet.Admin.{set_label, label_of, rename_board, rename, forget}

set_label-same : (new : Option Str) (b : Board) → b.rec.label ≡ new → b ≡ set_label new b
set_label-same new b h = rw (sym h) refl

pub get-rename_board :
    (f : Fleet) (host other : Str) (new : Option Str) (wall_ms : ℕ) (b : Board)
    → get host f.boards ≡ some b
    → get other (rename_board f host new wall_ms b).boards
      ≡ (if str_eq host other then some (set_label new b) else get other f.boards)
unfolding rename_board
get-rename_board f host other new wall_ms b h = elim (Bool-cases (opt_str_eq b.rec.label new)) [
  | inl e ↦
      rw (e, rename_board)
        (ground (
          arith,
          str_eq_iff host other,
          h,
          set_label-same new b ((opt_str_eq_iff b.rec.label new).0 e),
        ))
  | inr e ↦
      let same =
        (log-SameBut (record f { boards = update host (set_label new) f.boards }) wall_ms _ _
          (some host) _).boards in
      rw (e, rename_board)
        (ap (get other) same
          ∙ ground
              (arith, get-update host other (set_label new) f.boards, str_eq_iff host other, h))
]

-- A rename that succeeds gives the board the trimmed label, none for the empty text and for the
-- host name itself, and leaves every other board alone.
pub get-rename :
    (f : Fleet) (host other label : Str) (wall_ms : ℕ)
    → (rename f host label wall_ms).1 ≡ ok tt
    → get other (rename f host label wall_ms).0.boards ≡ (
        if str_eq host other
        then opt_map (set_label (label_of host (trim label))) (get host f.boards)
        else get other f.boards)
unfolding rename
get-rename f host other label wall_ms h = elim (Bool-cases (ltb max_label (length (trim label)))) [
  | inl e ↦ absurd (let q = rw (e, rename) at h in cc)
  | inr short ↦ elim (Bool-cases (any is_control (trim label))) [
    | inl e ↦ absurd (let q = rw (short, e, rename) at h in cc)
    | inr plain ↦ elim (Option-cases (get host f.boards)) [
      | inl e ↦ absurd (let q = rw (short, plain, e, rename) at h in cc)
      | inr (b, e) ↦
          rw (short, plain, e, rename)
            (get-rename_board f host other (label_of host (trim label)) wall_ms b e)
    ]
  ]
]

-- Forgetting a board removes it and no other.
pub get-forget :
    (f : Fleet) (host other : Str) (wall_ms : ℕ)
    → get other (forget f host wall_ms).0.boards
      ≡ (if str_eq host other then none else get other f.boards)
unfolding forget contains_key
get-forget f host other wall_ms = elim (Option-cases (get host f.boards)) [
  | inl e ↦ rw (forget, e) (ground (arith, str_eq_iff host other, e))
  | inr (b, e) ↦
      let same =
        (log-SameBut (record f { boards = remove host f.boards; cap_warned = false }) wall_ms _ _
          (some host) _).boards in
      rw (forget, e) (ap (get other) same ∙ get-remove host other f.boards)
]
