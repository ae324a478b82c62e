-- ===== src/Console/Board/Naming.antt =====
-- The name that is typed on the page of a board, and the title after it.
use riscv_exam_computer.Base.{
  ℕ, ◌≡◌, some, arith, null, Option-cases, inl, inr, if◌then◌else◌, ok, Str, trim, str_eq_refl,
  str_eq_iff,
}
use riscv_exam_computer.Base.OrderedMap.{get}
use riscv_exam_computer.Base.OrderedMap.Laws.{All-get}
use riscv_exam_computer.Fleet.Model.{Fleet, Board, Instant}
use riscv_exam_computer.Fleet.Admin.{label_of, set_label, rename}
use riscv_exam_computer.Fleet.Admin.Labels.{get-rename}
use riscv_exam_computer.Fleet.Invariant.Boards.{IsFiled, IsWellFormed}
use riscv_exam_computer.Fleet.Views.{title, detail, board_detail, board_view}
use riscv_exam_computer.Server.State.{App}
use riscv_exam_computer.Server.Api.{get_board, rename_board}
use riscv_exam_computer.Console.Board.{Page, fetched, shown_detail, shown_board, shown_title}

abbrev pub name_or_host : Str → Str → Str
name_or_host label host = if null label then host else label

title-label_of :
    (host label : Str) (b : Board) (now : Instant)
    → b.rec.host ≡ host
    → title (board_view (set_label (label_of host label) b) now) ≡ name_or_host label host
unfolding label_of board_view
title-label_of host label b now h = ground (arith, h, str_eq_iff label host)

rename-known :
    (f : Fleet) (host label : Str) (wall_ms : ℕ)
    → (rename f host label wall_ms).1 ≡ ok tt
    → (b : Board) × (get host f.boards ≡ some b)
unfolding rename
rename-known f host label wall_ms done = elim (Option-cases (get host f.boards)) [
  | inl e ↦ absurd (ground (arith, done, e))
  | inr known ↦ known
]

-- If the server accepts the name that was typed on the page of a board, for a well-formed fleet, then the
-- next fetch gives a page whose title is this name, trimmed, or the host name if nothing is left of it.
pub shown_title-rename_board :
    (p : Page) (a : App) (wall_ms : ℕ) (now : Instant)
    → IsWellFormed a.fleet
    → (rename_board a p.host p.label wall_ms).1 ≡ ok tt
    → shown_title (fetched (get_board (rename_board a p.host p.label wall_ms).0 p.host now) p)
      ≡ name_or_host (trim p.label) p.host
unfolding rename_board get_board detail board_detail fetched shown_title shown_board shown_detail
shown_title-rename_board p a wall_ms now well done =
    let (b, known) = rename-known a.fleet p.host p.label wall_ms done in
    let named = get-rename a.fleet p.host p.host p.label wall_ms done in
    let (valid, filed, few) = All-get IsFiled p.host a.fleet.boards b well.filed known in
    rw (named, str_eq_refl p.host, known) (title-label_of p.host (trim p.label) b now filed)
