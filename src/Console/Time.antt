-- ===== src/Console/Time.antt =====
-- app/ui.rs: how ages, durations and instants are written. An instant is counted in milliseconds
-- from 1970 and not negative, so that the Euclidean divisions of the source are those of ℕ.
pub mod Eras
pub mod Months
pub mod Calendar
use riscv_exam_computer.Base.{
  ℕ, ◌+◌, ◌-◌, ◌*◌, ◌/◌, ◌%◌, ◌≡◌, refl, Bool, true, false, List, [], ◌∷◌, ◌++◌, ltb, leb,
  if◌then◌else◌, Str, txt,
}
use riscv_exam_computer.Base.Decimal.{decimal, decimal_pad}

unfoldable pub fmt_ago : ℕ → Str
fmt_ago secs =
    if leb secs 4
    then txt "just now"
    else if leb secs 59
    then decimal secs ++ txt " s ago"
    else if leb secs 3599
    then decimal (secs / 60) ++ txt " min ago"
    else if leb secs 86399
    then decimal (secs / 3600) ++ txt " h ago"
    else decimal (secs / 86400) ++ txt " d ago"

unfoldable pub fmt_uptime : ℕ → Str
fmt_uptime secs =
    let d = secs / 86400 in
    let h = secs % 86400 / 3600 in
    let m = secs % 3600 / 60 in
    if ltb 0 d
    then decimal d ++ txt " d " ++ decimal h ++ txt " h"
    else if ltb 0 h
    then decimal h ++ txt " h " ++ decimal m ++ txt " min"
    else decimal m ++ txt " min"

pub record Parts : Type 0 where
  pub year : ℕ
  pub month : ℕ
  pub day : ℕ
  pub hour : ℕ
  pub minute : ℕ
  pub second : ℕ

-- The year of an era of 400 years, counted from March, in which a day of the era lies.
unfoldable pub year_of_era : ℕ → ℕ
year_of_era doe = (doe - doe / 1460 + doe / 36524 - doe / 146096) / 365

unfoldable pub day_of_year : ℕ → ℕ → ℕ
day_of_year doe yoe = doe - (365 * yoe + yoe / 4 - yoe / 100)

-- The month and the day of a day of the year that begins with March.
unfoldable pub month_of : ℕ → ℕ
month_of doy = let mp = (5 * doy + 2) / 153 in if ltb mp 10 then mp + 3 else mp - 9

unfoldable pub day_of : ℕ → ℕ
day_of doy = let mp = (5 * doy + 2) / 153 in doy - (153 * mp + 2) / 5 + 1

-- The date of a number of days from 1970-01-01: `civil_from_days`.
unfoldable pub civil : ℕ → ℕ × ℕ × ℕ
unfolding year_of_era day_of_year month_of day_of
civil days =
    let z = days + 719468 in
    let era = z / 146097 in
    let doe = z - era * 146097 in
    let yoe = year_of_era doe in
    let doy = day_of_year doe yoe in
    let m = month_of doy in (yoe + era * 400 + (if leb m 2 then 1 else 0), m, day_of doy)

unfoldable pub utc_parts : ℕ → Parts
unfolding civil
utc_parts ms =
    let secs = ms / 1000 in
    let rem = secs % 86400 in
    let (y, m, d) = civil (secs / 86400) in
    record {
      year = y;
      month = m;
      day = d;
      hour = rem / 3600;
      minute = rem % 3600 / 60;
      second = rem % 60;
    }

-- `MONTHS[mo - 1]`; the source panics out of range.
unfoldable pub month_name : ℕ → Str
unfolding txt
month_name m =
    if leb m 1
    then txt "Jan"
    else if leb m 2
    then txt "Feb"
    else if leb m 3
    then txt "Mar"
    else if leb m 4
    then txt "Apr"
    else if leb m 5
    then txt "May"
    else if leb m 6
    then txt "Jun"
    else if leb m 7
    then txt "Jul"
    else if leb m 8
    then txt "Aug"
    else if leb m 9
    then txt "Sep"
    else if leb m 10
    then txt "Oct"
    else if leb m 11
    then txt "Nov"
    else txt "Dec"

abbrev two : ℕ → Str
two n = decimal_pad 2 n

unfoldable pub fmt_parts : Parts → Bool → Str → Str
unfolding month_name decimal_pad
fmt_parts p date zone =
    let time = two p.hour ++ b':' ∷ two p.minute ++ b':' ∷ two p.second ++ zone in
    if date then month_name p.month ++ b' ' ∷ decimal p.day ++ txt ", " ++ time else time

unfoldable pub fmt_utc : ℕ → Bool → Str
unfolding utc_parts fmt_parts
fmt_utc ms date = fmt_parts (utc_parts ms) date (txt " UTC")

unfoldable pub iso_utc : ℕ → Str
unfolding utc_parts decimal_pad
iso_utc ms =
    let p = utc_parts ms in
    decimal_pad 4 p.year
    ++ b'-' ∷ two p.month
    ++ b'-' ∷ two p.day
    ++ b'T' ∷ two p.hour
    ++ b':' ∷ two p.minute
    ++ b':' ∷ two p.second
    ++ b'Z' ∷ []

iso_utc_runs : iso_utc 1792418531000 ≡ txt "2026-10-19T14:02:11Z"
unfolding iso_utc txt decimal
iso_utc_runs = refl

leap_runs : iso_utc 951782400000 ≡ txt "2000-02-29T00:00:00Z"
unfolding iso_utc txt decimal
leap_runs = refl

fmt_utc_runs : fmt_utc 1792418531000 true ≡ txt "Oct 19, 14:02:11 UTC"
unfolding fmt_utc txt decimal
fmt_utc_runs = refl

fmt_uptime_runs : fmt_uptime 93784 ≡ txt "1 d 2 h"
unfolding fmt_uptime txt decimal
fmt_uptime_runs = refl
