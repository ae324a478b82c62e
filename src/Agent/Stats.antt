-- ===== src/Agent/Stats.antt =====
-- The texts of procfs and sysfs that stats.rs reads; the operations on floats are arguments.
use riscv_exam_computer.Base.{
  Bool, ◌&&◌, ◌++◌, map, if◌then◌else◌, unwrap_or, trim, str_eq, starts_with, ends_with, ℕ, ◌≡◌,
  refl, not, Option, none, some, List, [], ◌∷◌, filter, null, ◌==◌, opt_bind, opt_map, Str, txt,
  split, strip_prefix, is_whitespace, is_ascii_digit,
}
use riscv_exam_computer.Base.Words.{F32}
use riscv_exam_computer.Proto.{MemStats}
use riscv_exam_computer.Server.State.{parse_usize}

-- `split_whitespace`.
unfoldable pub words : Str → List Str
unfolding split is_whitespace
words s = filter (λ w. not (null w)) (split is_whitespace s)

abbrev first_word : List Str → Option Str
first_word [] = none
first_word (w ∷ ws) = some w

-- The first three floats of the text.
unfoldable pub parse_loadavg : (Str → Option F32) → Str → Option (F32 × F32 × F32)
unfolding words
parse_loadavg parse_f32 text = elim (words text) [
  | a ∷ b ∷ c ∷ rest ↦
      opt_bind (parse_f32 a)
        (λ x. opt_bind (parse_f32 b) (λ y. opt_map (λ z. (x, y, z)) (parse_f32 c)))
  | _ ↦ none
]

-- The rest of the line that begins with the name and a colon; a carriage return is white space.
unfoldable pub line_of : Str → Str → Option Str
unfolding strip_prefix
line_of name line = opt_bind (strip_prefix line name) (λ r. strip_prefix r (txt ":"))

unfoldable pub find_line : Str → List Str → Option Str
unfolding line_of
find_line name [] = none
find_line name (l ∷ ls) = elim (line_of name l) [ some v ↦ some v | none ↦ find_line name ls ]

unfoldable pub field : Str → Str → Option ℕ
unfolding find_line split words
field text name =
    opt_bind (find_line name (split (λ c. c == 10) text))
      (λ v. opt_bind (first_word (words v)) parse_usize)

unfoldable pub parse_meminfo : Str → Option MemStats
unfolding field
parse_meminfo text = opt_bind (field text (txt "MemTotal")) (λ total.
    opt_map (λ available. record { total_kb = total; available_kb = available })
      (field text (txt "MemAvailable")))

meminfo_runs :
    parse_meminfo (txt "MemTotal:        2009100 kB\nMemFree: 1 kB\nMemAvailable:    1468000 kB\n")
    ≡ some (record { total_kb = 2009100; available_kb = 1468000 })
unfolding parse_meminfo txt parse_usize is_ascii_digit
meminfo_runs = refl

unfoldable pub load : (Str → Option F32) → Option Str → Option (F32 × F32 × F32)
unfolding parse_loadavg
load parse_f32 loadavg = opt_bind loadavg (parse_loadavg parse_f32)

unfoldable pub mem : Option Str → Option MemStats
unfolding parse_meminfo
mem meminfo = opt_bind meminfo parse_meminfo

-- The first word of /proc/uptime, a float that is cut to whole seconds.
unfoldable pub uptime_s : (Str → Option ℕ) → (ℕ → ℕ) → Option Str → Option ℕ
unfolding words
uptime_s parse_f64 to_u64 text =
    opt_map to_u64 (opt_bind (opt_bind text (λ t. first_word (words t))) parse_f64)

-- The operations on f32 that a sensor's text goes through.
pub record Floats32 : Type 0 where
  pub parse : Str → Option F32
  pub lit : Str → F32
  pub div : F32 → F32 → F32
  pub mul : F32 → F32 → F32
  pub round : F32 → F32
  pub lt : F32 → F32 → Bool
  pub max : F32 → F32 → F32

-- A directory of devices by name: each with its files and what they hold, where they can be read.
abbrev pub Devices : Type 0
Devices = List (Str × Option (List (Str × Option Str)))

-- The matching files of the matching devices, in the order of the directories.
unfoldable pub sensor_files : Str → (Str → Bool) → Devices → List (Option Str)
unfolding starts_with
sensor_files prefix file [] = []
sensor_files prefix file ((name, entries) ∷ devices) =
    let rest = sensor_files prefix file devices in
    if starts_with name prefix
    then map (λ e. e.1) (filter (λ e. file e.0) (unwrap_or entries [])) ++ rest
    else rest

module _ (f : Floats32) where
  open f use {parse, lit, div, mul, round, lt, max}

  -- Readings that are not between 0 and 150 °C are dropped.
  unfoldable pub parse_millidegrees : Str → Option F32
  unfolding trim txt
  parse_millidegrees text = opt_bind (parse (trim text)) (λ m.
      let c = div m (lit (txt "1000.0")) in
      if lt (lit (txt "0.0")) c && lt c (lit (txt "150.0"))
      then some (div (round (mul c (lit (txt "10.0")))) (lit (txt "10.0")))
      else none)

  abbrev hotter : Option F32 → Option F32 → Option F32
  hotter none b = b
  hotter (some a) none = some a
  hotter (some a) (some b) = some (max a b)

  -- `reduce(f32::max)` over the readings.
  unfoldable pub hottest : Option F32 → List (Option Str) → Option F32
  unfolding parse_millidegrees
  hottest best [] = best
  hottest best (t ∷ ts) = hottest (hotter best (opt_bind t parse_millidegrees)) ts

  unfoldable pub cpu_temp_c : Devices → Devices → Option F32
  unfolding sensor_files hottest str_eq starts_with ends_with
  cpu_temp_c thermal hwmon = hottest none (
      sensor_files (txt "thermal_zone") (λ n. str_eq n (txt "temp")) thermal
      ++ sensor_files (txt "hwmon") (λ n. starts_with n (txt "temp") && ends_with n (txt "_input"))
          hwmon)
