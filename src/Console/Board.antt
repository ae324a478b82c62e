-- ===== src/Console/Board.antt =====
-- app/board.rs: the page of one board.
pub mod Naming
use riscv_exam_computer.Base.{
  Option, none, some, List, [], ◌∷◌, ◌++◌, opt_bind, opt_map, unwrap_or, Result, ok, err, Str, txt,
}
use riscv_exam_computer.Fleet.Model.{ActionReport, BoardDetail, BoardView, ExamChoice, Status}
use riscv_exam_computer.Fleet.Views.{title}
use riscv_exam_computer.Console.Texts.{status_line}

-- The signals of `BoardBody`; `loaded`, the signal `data`, is what was fetched last, if anything, and whether the server
-- knows the board.
pub record Page : Type 0 where
  pub host : Str
  pub loaded : Option (Option BoardDetail)
  pub report : Option (Result Str ActionReport)
  pub exam : Str
  pub label : Str
  pub rename_msg : Option (Result Str (Unit {0}))
  pub forget_err : Option Str

abbrev first_id : List ExamChoice → Str
first_id [] = []
first_id (e ∷ es) = e.id

-- The page as it is opened.
unfoldable pub open_page : BoardDetail → Page
open_page d = record {
  host = d.board.host;
  loaded = some (some d);
  report = none;
  exam = first_id d.exams;
  label = unwrap_or d.board.label [];
  rename_msg = none;
  forget_err = none;
}

-- A fetch that succeeds, of the poll or after an action.
unfoldable pub fetched : Option BoardDetail → Page → Page
fetched d p = record p { loaded = some d }

-- The answers to the actions.
unfoldable pub acted : Result Str ActionReport → Page → Page
acted r p = record p { report = some r }

unfoldable pub renamed : Result Str (Unit {0}) → Page → Page
renamed r p = record p { rename_msg = some r }

-- A board that was forgotten leaves for the page of the fleet.
unfoldable pub forgot : Result Str (Unit {0}) → Page → Page × Option Str
unfolding txt
forgot (ok u) p = (p, some (txt "/"))
forgot (err e) p = (record p { forget_err = some e }, none)

-- What is typed and picked.
unfoldable pub type_label : Str → Page → Page
type_label s p = record p { label = s; rename_msg = none }

unfoldable pub pick_exam : Str → Page → Page
pick_exam id p = record p { exam = id }

-- What the buttons send: the hosts, the verb and the exam.
unfoldable pub start_request : Page → Str × Str × Str
unfolding txt
start_request p = (p.host, txt "start", p.exam)

unfoldable pub stop_request : Page → Str × Str × Str
unfolding txt
stop_request p = (p.host, txt "stop", [])

-- What is shown.
unfoldable pub shown_detail : Page → Option BoardDetail
shown_detail p = opt_bind p.loaded (λ d. d)

unfoldable pub shown_board : Page → Option BoardView
unfolding shown_detail
shown_board p = opt_map (λ d. d.board) (shown_detail p)

unfoldable pub shown_status : Page → Status
unfolding shown_board
shown_status p = unwrap_or (opt_map (λ b. b.status) (shown_board p)) Status.offline

unfoldable pub shown_title : Page → Str
unfolding shown_board
shown_title p = unwrap_or (opt_map title (shown_board p)) []

unfoldable pub page_title : Page → Str
unfolding shown_title txt
page_title p = shown_title p ++ txt " · Exam Console"

unfoldable pub shown_exams : Page → List ExamChoice
unfolding shown_detail
shown_exams p = unwrap_or (opt_map (λ d. d.exams) (shown_detail p)) []

unfoldable pub stat : (BoardView → Option Str) → Page → Str
unfolding shown_board txt
stat f p = unwrap_or (opt_bind (shown_board p) f) (txt "—")
