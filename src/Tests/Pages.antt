-- ===== src/Tests/Pages.antt =====
-- The pages of the console.
use riscv_exam_computer.Base.{
  ℕ, ◌+◌, ◌<◌, ◌≡◌, ◌⊎◌, refl, arith, trim, true, false, Option, none, some, List, [], ◌∷◌, ◌++◌,
  Result, ok, err, Str, txt, utf8,
}
use riscv_exam_computer.Base.OrderedMap.{keys}
use riscv_exam_computer.Seb.{effective_domains}
use riscv_exam_computer.Fleet.Model.{
  Exam, SebBuild, BoardView, FleetView, EventView, Status, from_secs,
}
use riscv_exam_computer.Server.Api.{parse_hosts, create_exam, get_board, rename_board, get_activity}
use riscv_exam_computer.Console.Time.{civil}
use riscv_exam_computer.Console.Time.Months.{next_date}
use riscv_exam_computer.Console.Time.Calendar.{civil-next_date}
use riscv_exam_computer.Console.Texts.{data_url}
use riscv_exam_computer.Console.Texts.DataUrl.{percent_decode, data_url-decodes}
use riscv_exam_computer.Console.Fleet.{Page, show, toggle, action_hosts}
use riscv_exam_computer.Console.Fleet.Hosts.{parse_hosts-action_hosts}
use riscv_exam_computer.Console.Fleet.Selection.{IsShown, Reach, Step, Reach-IsShown}
use riscv_exam_computer.Console.Form.{Form, empty_form, preview}
use riscv_exam_computer.Console.Form.Preview.{created-preview}
use riscv_exam_computer.SebFile.Values.{Entries, Value}
use riscv_exam_computer.SebFile.Settings.{rule_values}
use riscv_exam_computer.SebFile.Settings.Rules.{value_of, Allows}
use riscv_exam_computer.Fleet.Exams.{gate_url, seb_build}
use riscv_exam_computer.Fleet.Views.{board_detail}
use riscv_exam_computer.Console.Board
use riscv_exam_computer.Console.Board.{shown_title}
use riscv_exam_computer.Console.Board.Naming.{name_or_host, shown_title-rename_board}
use riscv_exam_computer.Console.Activity
use riscv_exam_computer.Console.Activity.Choosing
use riscv_exam_computer.Console.Activity.Choosing.{IsListing, choose-IsListing}
use riscv_exam_computer.Tests.Boards.{waiting_fleet-IsWellFormed}
use riscv_exam_computer.Tests.Data.{plain_ext, host1, board_with, waiting_live}
use riscv_exam_computer.Tests.Access.{app}

civil-next_date_example : (civil 0 ≡ (1970, 1, 1)) × (civil (11015 + 1) ≡ next_date (civil 11015))
civil-next_date_example = civil-next_date 11015

data_url-decodes_example :
    (rest : Str) × (data_url (txt "{é}") ≡ txt "data:application/json;charset=utf-8," ++ rest)
    × (percent_decode rest ≡ some (utf8 (txt "{é}")))
unfolding txt
data_url-decodes_example =
    data_url-decodes (txt "{é}") (omega arith, (omega arith, (omega arith, tt)))

abbrev board : BoardView
board = record {
  host = host1;
  label = none;
  status = Status.idle;
  detail = none;
  seen_secs = some 1;
  cpu_temp_c = none;
  load1 = none;
  mem_used_pct = none;
  uptime_s = none;
  ip = none;
  agent_version = none;
  seb_version = none;
  image_hash = none;
  last_exit_code = none;
  exam_name = none;
  legacy_agent = false;
}

abbrev view : FleetView
view = record { boards = board ∷ []; exams = []; max_boards = 3 }

abbrev blank : Page
blank = record { boards = []; exams = []; selected = []; filter_by = none; exam = [] }

blank-IsShown : IsShown blank
blank-IsShown = record { known = tt; sorted = tt; chosen = refl }

-- The board is fetched and its box is pressed.
abbrev chosen : Page
chosen = toggle host1 (show view blank)

chosen-Reach : Reach blank chosen
unfolding show toggle txt
chosen-Reach = Reach.next (Reach.next Reach.here (Step.fetched view)) (Step.toggled host1 refl)

Reach-IsShown_example : IsShown chosen
Reach-IsShown_example = Reach-IsShown chosen-Reach blank-IsShown

parse_hosts-action_hosts_example : parse_hosts (action_hosts chosen) ≡ keys chosen.selected
unfolding show toggle riscv_exam_computer.Fleet.Model.valid_host riscv_exam_computer.Base.utf8_len
    txt riscv_exam_computer.Base.is_ascii_alphanumeric
parse_hosts-action_hosts_example = parse_hosts-action_hosts chosen (refl, tt)

abbrev form : Form
form = record empty_form {
  name = txt "E";
  url = txt "https://a.edu/x";
  domains = txt "b.a.edu, c.org";
}

created-preview_example :
    (e : Exam) × ((create_exam plain_ext app form.name form.url form.domains form.quit
        form.access_code
        (txt "e1")
        (1 ∷ [])
        0).0.fleet.exams
      ≡ app.fleet.exams ++ e ∷ [])
    × (e.id ≡ txt "e1")
    × (effective_domains e.spec ≡ ok (txt "a.edu" ∷ txt "c.org" ∷ []))
    × (build : SebBuild) × (seb_build plain_ext app.fleet.public_url e ≡ ok build)
    × (settings : Entries) × (build.xml ≡ plain_ext.write_xml settings)
    × (domains : List Str) × (value_of (txt "URLFilterRules") settings
        ≡ some (Value.array (rule_values domains)))
    × Allows (txt "a.edu" ∷ txt "c.org" ∷ []) (gate_url app.fleet.public_url e.id) domains
unfolding preview create_exam riscv_exam_computer.Base.split txt
    riscv_exam_computer.Seb.normalize_domain riscv_exam_computer.Base.contains_str
    riscv_exam_computer.Base.to_ascii_lowercase riscv_exam_computer.Base.utf8_len
    riscv_exam_computer.Base.is_ascii_alphanumeric riscv_exam_computer.Base.mem_str
    riscv_exam_computer.Seb.url_host riscv_exam_computer.Base.strip_prefix
    riscv_exam_computer.Base.rsplit_once riscv_exam_computer.Base.ends_with
    riscv_exam_computer.Fleet.Exams.create_exam empty_form riscv_exam_computer.SebFile.Hex.from_hex
    utf8
created-preview_example =
    created-preview plain_ext form (txt "a.edu" ∷ txt "c.org" ∷ []) [] app (txt "e1") (txt "e1")
      (1 ∷ []) 0 refl refl

abbrev named : Board.Page
named =
    Board.type_label (txt " Seat 4 ")
      (Board.open_page (board_detail app.fleet host1 0 (board_with waiting_live)))

shown_title-rename_board_example :
    shown_title (
      Board.fetched
        (get_board (rename_board app host1 (txt " Seat 4 ") 0).0 host1 (from_secs 9))
        named)
    ≡ name_or_host (trim (txt " Seat 4 ")) host1
unfolding Board.type_label Board.open_page rename_board riscv_exam_computer.Fleet.Admin.rename txt
    riscv_exam_computer.Base.OrderedMap.get board_detail
shown_title-rename_board_example =
    shown_title-rename_board named app 0 (from_secs 9) waiting_fleet-IsWellFormed refl

abbrev log_page : Activity.Page
log_page = Activity.open_page []

-- The choice is answered before a poll is made.
abbrev chosen_page : Activity.Page
chosen_page = Activity.tick (
    Activity.answer 0 (ok (get_activity app (txt "board")))
      (Activity.choose (txt "board") log_page))

chosen_page-Reach : Choosing.Reach (Activity.choose (txt "board") log_page) chosen_page
unfolding Activity.open_page Activity.choose Activity.take_at
chosen_page-Reach =
    Choosing.Reach.next
      (Choosing.Reach.next Choosing.Reach.here
        (Choosing.Step.answered 0 (false, txt "board") [] app refl))
      Choosing.Step.ticked

choose-IsListing_example :
    (chosen_page.filter_by ≡ txt "board")
    × ((chosen_page.events ≡ log_page.events) ⊎ IsListing (txt "board") chosen_page.events)
unfolding Activity.open_page
choose-IsListing_example = choose-IsListing (txt "board") log_page tt chosen_page-Reach

-- A poll that is under way when a filter is chosen may be answered last: its list stays, for the filter
-- from before.
abbrev stale_page : (List EventView) → (List EventView) → Activity.Page
stale_page all_events board_events =
    Activity.answer 0 (ok all_events)
      (Activity.answer 1 (ok board_events) (Activity.choose (txt "board") (Activity.tick log_page)))

stale_runs :
    (all_events board_events : List EventView)
    → ((stale_page all_events board_events).filter_by ≡ txt "board")
      × ((stale_page all_events board_events).events ≡ some all_events)
unfolding Activity.answer Activity.choose Activity.tick Activity.open_page Activity.take_at
stale_runs all_events board_events = (refl, refl)
