-- ===== src/Console/Fleet.antt =====
-- app/fleet.rs: what the fleet page keeps and shows. `BTreeSet<String>` is an ordered map to `Unit`.
pub mod Selection
pub mod Hosts
use riscv_exam_computer.Base.{
  ℕ, ◌+◌, ◌-◌, Bool, true, false, not, Option, none, some, List, [], ◌∷◌, ◌++◌, any, filter, length,
  map, find, if◌then◌else◌, unwrap_or, opt_map, Str, txt, str_eq, join, cmp,
}
use Prim.Native.Nat.{Ordering}
use riscv_exam_computer.Base.Decimal.{decimal}
use riscv_exam_computer.Base.OrderedMap.{get, insert, remove, keys, contains_key}
use riscv_exam_computer.Fleet.Model.{BoardView, ExamChoice, FleetView, Status}
use riscv_exam_computer.Fleet.Views.{title}
use riscv_exam_computer.SebFile.Json.{is_gt}
use riscv_exam_computer.Console.Texts.{plural}

abbrev pub Hosts : Type 0
Hosts = List (Str × Unit {0})

unfoldable pub host_set : List BoardView → Hosts
unfolding insert
host_set [] = []
host_set (b ∷ bs) = insert b.host tt (host_set bs)

pub record Page : Type 0 where
  pub boards : List BoardView
  pub exams : List ExamChoice
  pub selected : Hosts
  pub filter_by : Option Status
  pub exam : Str

abbrev first_id : List ExamChoice → Str
first_id [] = []
first_id (e ∷ es) = e.id

-- The picker stays at an exam that exists.
unfoldable pub keep_exam : List ExamChoice → Str → Str
unfolding str_eq
keep_exam exams cur = if any (λ e. str_eq e.id cur) exams then cur else first_id exams

-- `BTreeSet::retain` of the hosts that are in a set.
unfoldable pub retain : Hosts → Hosts → Hosts
unfolding contains_key
retain hosts [] = []
retain hosts ((h, u) ∷ s) = if contains_key h hosts then (h, u) ∷ retain hosts s else retain hosts s

-- A view that was fetched, with the two effects that run on it.
unfoldable pub show : FleetView → Page → Page
unfolding keep_exam retain host_set
show v p = record p {
  boards = v.boards;
  exams = v.exams;
  exam = keep_exam v.exams p.exam;
  selected = retain (host_set v.boards) p.selected;
}

-- The check box of a card.
unfoldable pub toggle : Str → Page → Page
unfolding contains_key remove insert
toggle h p = record p {
  selected = if contains_key h p.selected then remove h p.selected else insert h tt p.selected;
}

abbrev pub status_eq : Status → Status → Bool
status_eq Status.offline Status.offline = true
status_eq Status.idle Status.idle = true
status_eq Status.starting Status.starting = true
status_eq Status.running Status.running = true
status_eq Status.stopping Status.stopping = true
status_eq Status.error Status.error = true
status_eq _ _ = false

abbrev pub is_online : BoardView → Bool
is_online b = not (status_eq b.status Status.offline)

unfoldable pub select_online : Page → Page
unfolding host_set
select_online p = record p { selected = host_set (filter is_online p.boards) }

unfoldable pub clear_selection : Page → Page
clear_selection p = record p { selected = [] }

abbrev same_filter : Status → Option Status → Bool
same_filter st none = false
same_filter st (some s) = status_eq s st

-- A tile: its filter is set, or taken away if it is set.
unfoldable pub press_tile : Status → Page → Page
press_tile st p = record p { filter_by = if same_filter st p.filter_by then none else some st }

unfoldable pub count : Status → List BoardView → ℕ
count st boards = length (filter (λ b. status_eq b.status st) boards)

abbrev passes : Option Status → BoardView → Bool
passes none b = true
passes (some st) b = status_eq b.status st

-- `sort_by_key` with the titles in lower case; it is stable.
unfoldable pub insert_board : (Str → Str) → BoardView → List BoardView → List BoardView
unfolding cmp
insert_board lower b [] = b ∷ []
insert_board lower b (c ∷ cs) =
    if is_gt (cmp (lower (title c)) (lower (title b)))
    then b ∷ c ∷ cs
    else c ∷ insert_board lower b cs

unfoldable pub sort_boards : (Str → Str) → List BoardView → List BoardView → List BoardView
unfolding insert_board
sort_boards lower done [] = done
sort_boards lower done (b ∷ bs) = sort_boards lower (insert_board lower b done) bs

unfoldable pub visible : (Str → Str) → Page → List BoardView
unfolding sort_boards
visible lower p = sort_boards lower [] (filter (passes p.filter_by) p.boards)

unfoldable pub online_text : List BoardView → Str
unfolding count decimal plural txt
online_text boards =
    decimal (length boards - count Status.offline boards)
    ++ txt " of "
    ++ decimal (length boards)
    ++ txt " board"
    ++ plural (length boards)
    ++ txt " online"

-- What the action sends to the server.
unfoldable pub action_hosts : Page → Str
unfolding join
action_hosts p = join (b',' ∷ []) (keys p.selected)
