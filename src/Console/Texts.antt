-- ===== src/Console/Texts.antt =====
-- Small texts of the console: app/ui.rs, exams.rs, fleet.rs, board.rs, login.rs and mod.rs. The
-- text of a float with some digits after the point is an argument.
pub mod DataUrl
use riscv_exam_computer.Base.{
  ℕ, ◌+◌, ◌-◌, ◌/◌, ◌%◌, ◌≡◌, refl, Bool, true, false, not, ◌&&◌, ◌||◌, Option, none, some, List,
  [], ◌∷◌, ◌++◌, any, ltb, leb, ◌==◌, filter, length, map, min, null, if◌then◌else◌, unwrap_or,
  opt_map, opt_bind, Str, txt, str_eq, starts_with, split, trim, join, utf8, is_ascii_alphanumeric,
  to_ascii_lower,
}
use riscv_exam_computer.Base.Words.{F32}
use riscv_exam_computer.Base.Decimal.{decimal}
use riscv_exam_computer.Auth.Origin.{split_once}
use riscv_exam_computer.Fleet.Model.{ActionReport, Actor, BoardView, Level, Status}

-- `format!("{c:.1} °C")`.
unfoldable pub fmt_temp : (F32 → Str) → F32 → Str
unfolding txt
fmt_temp fixed c = fixed c ++ txt " °C"

-- Dividing by 2^20 is exact, so the quotient is at least 1.0 just if the number is at least 2^20;
-- `fixed` gives the quotient with one digit after the point.
unfoldable pub fmt_kb : (ℕ → Str) → ℕ → Str
unfolding txt decimal
fmt_kb fixed kb = if leb 1048576 kb then fixed kb ++ txt " GB" else decimal (kb / 1024) ++ txt " MB"

unfoldable pub plural : ℕ → Str
unfolding txt
plural n = if n == 1 then txt "" else txt "s"

-- `Meter`: the class and the width of the bar.
unfoldable pub meter_level : ℕ → Str
unfolding txt
meter_level pct = if leb pct 69 then txt "ok" else if leb pct 89 then txt "high" else txt "full"

unfoldable pub meter_width : ℕ → Str
unfolding txt decimal
meter_width pct = txt "width:" ++ decimal (min pct 100) ++ txt "%"

-- `Timeline`: the names of an actor and of a level.
unfoldable pub actor_name : Actor → Str
unfolding txt
actor_name Actor.instructor = txt "Instructor"
actor_name Actor.board = txt "Board"
actor_name Actor.system = txt "System"

unfoldable pub level_word : Level → Option Str
unfolding txt
level_word Level.info = none
level_word Level.warn = some (txt "Warning: ")
level_word Level.error = some (txt "Error: ")

-- `NavLink`: whether the link is the current page.
unfoldable pub is_current : Str → Str → Bool
unfolding str_eq starts_with txt
is_current href p =
    if str_eq href (txt "/")
    then str_eq p (txt "/") || starts_with p (txt "/boards/")
    else starts_with p href

-- `LoginPage`: the error that the query names.
unfoldable pub login_error : Option Str → Option Str
unfolding str_eq txt
login_error none = none
login_error (some e) =
    if str_eq e (txt "bad")
    then some (txt "That password is not correct.")
    else if str_eq e (txt "locked")
    then some (txt "Too many attempts. Wait five minutes, then try again.")
    else none

abbrev theme_pair : Str → Option Str
theme_pair kv = opt_bind (split_once b'=' (trim kv)) (λ p.
    if str_eq p.0 (txt "theme") && (str_eq p.1 (txt "light") || str_eq p.1 (txt "dark"))
    then some p.1
    else none)

unfoldable pub find_theme : List Str → Option Str
unfolding str_eq txt split_once
find_theme [] = none
find_theme (kv ∷ kvs) = elim (theme_pair kv) [ some v ↦ some v | none ↦ find_theme kvs ]

-- The theme that the cookies ask for; `none` follows the system.
unfoldable pub theme_cookie : Option Str → Option Str
unfolding find_theme split
theme_cookie raw = opt_bind raw (λ r. find_theme (split (λ c. c == b';') r))

-- `file_name` of exams.rs.
unfoldable pub slug_char : ℕ → ℕ
unfolding is_ascii_alphanumeric to_ascii_lower
slug_char c = if is_ascii_alphanumeric c then to_ascii_lower c else b'-'

unfoldable pub slug_of : Str → Str
unfolding slug_char split join
slug_of name =
    join (b'-' ∷ []) (filter (λ s. not (null s)) (split (λ c. c == b'-') (map slug_char name)))

unfoldable pub file_name : Str → Str
unfolding slug_of txt
file_name name = let slug = slug_of name in (if null slug then txt "exam" else slug) ++ txt ".json"

file_name_runs : file_name (txt "COP 3502: Quiz 4") ≡ txt "cop-3502-quiz-4.json"
unfolding file_name txt
file_name_runs = refl

-- `data_url` of exams.rs: one byte.
unfoldable pub hex_upper : ℕ → ℕ
hex_upper n = if ltb n 10 then 48 + n else 55 + n

abbrev pub is_plain : ℕ → Bool
is_plain b = is_ascii_alphanumeric b || any (λ c. c == b) (txt "-_.~:,{}[]\"")

unfoldable pub escape_byte : ℕ → Str
unfolding hex_upper is_ascii_alphanumeric txt
escape_byte b = if is_plain b then b ∷ [] else b'%' ∷ hex_upper (b / 16) ∷ hex_upper (b % 16) ∷ []

unfoldable pub escape_bytes : List ℕ → Str
unfolding escape_byte
escape_bytes [] = []
escape_bytes (b ∷ bs) = escape_byte b ++ escape_bytes bs

unfoldable pub data_url : Str → Str
unfolding escape_bytes txt utf8
data_url json = txt "data:application/json;charset=utf-8," ++ escape_bytes (utf8 json)

-- `ResultPanel`: the headline of a report.
unfoldable pub result_head : ActionReport → Str
unfolding txt str_eq decimal plural
result_head r =
    let n = length r.queued in
    let s = length r.skipped in
    let verb = if str_eq r.verb (txt "Start") then txt "Start" else txt "Stop" in
    if n == 0
    then verb ++ txt " was not sent to any board (" ++ decimal s ++ txt " skipped)"
    else if s == 0
    then verb ++ txt " sent to " ++ decimal n ++ txt " board" ++ plural n
    else verb
      ++ txt " sent to "
      ++ decimal n
      ++ txt " board"
      ++ plural n
      ++ txt ", "
      ++ decimal s
      ++ txt " skipped"

-- `BoardCard`: the line under the title.
unfoldable pub card_detail : BoardView → Option Str
unfolding txt
card_detail b = elim b.detail [
  | some d ↦ some d
  | none ↦ elim b.status [
    | Status.running ↦ some (unwrap_or b.exam_name (txt "Exam in progress"))
    | Status.idle ↦ some (txt "Ready for an exam")
    | Status.offline ↦ none
    | Status.starting ↦ none
    | Status.stopping ↦ none
    | Status.error ↦ none
  ]
]

-- `BoardBody`: the line under the head of a board's page.
unfoldable pub status_line : BoardView → Option Str
unfolding txt
status_line b = elim b.detail [
  | some d ↦ some d
  | none ↦ opt_map (λ e. txt "Running " ++ e) b.exam_name
]

-- `BoardBody`: how much of the memory is in use.
unfoldable pub memory_text : (ℕ → Str) → ℕ → ℕ → Str
unfolding fmt_kb txt
memory_text fixed total avail = fmt_kb fixed (total - avail) ++ txt " of " ++ fmt_kb fixed total
