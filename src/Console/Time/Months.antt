-- ===== src/Console/Time/Months.antt =====
-- The calendar, and the turn of a day, a month, a year and an era.
use riscv_exam_computer.Base.{
  ℕ, ◌+◌, ◌-◌, ◌*◌, ◌/◌, ◌%◌, ◌<◌, ◌≤◌, ◌≡◌, refl, sym, ap, ◌∙◌, Bool, true, false, not, ◌&&◌, ◌||◌,
  arith, ltb, leb, ◌==◌, if◌then◌else◌, Bool-cases, inl, inr,
}
use riscv_exam_computer.Console.Time.{month_of, day_of}
use riscv_exam_computer.Console.Time.Eras.{start_of, end_of, date_at}

abbrev pub is_leap : ℕ → Bool
is_leap y = y % 4 == 0 && (not (y % 100 == 0) || y % 400 == 0)

abbrev pub days_in_month : ℕ → ℕ → ℕ
days_in_month y m =
    if m == 2
    then (if is_leap y then 29 else 28)
    else if m == 4 || m == 6 || m == 9 || m == 11
    then 30
    else 31

abbrev next_in : ℕ → ℕ × ℕ × ℕ → ℕ × ℕ × ℕ
next_in n (y, m, d) =
    if ltb d n then (y, m, d + 1) else if ltb m 12 then (y, m + 1, 1) else (y + 1, 1, 1)

-- The day after a date.
abbrev pub next_date : ℕ × ℕ × ℕ → ℕ × ℕ × ℕ
next_date (y, m, d) = next_in (days_in_month y m) (y, m, d)

-- The months from March, counted from 0: where they begin in the year, and what they are called.
abbrev month_start : ℕ → ℕ
month_start p = (153 * p + 2) / 5

abbrev month_at : ℕ → ℕ
month_at p = if ltb p 10 then p + 3 else p - 9

abbrev index_of : ℕ → ℕ
index_of doy = (5 * doy + 2) / 153

index_of_range :
    (doy : ℕ) → (month_start (index_of doy) ≤ doy) × (doy < month_start (index_of doy + 1))
index_of_range doy = omega arith

index_of_unique : (p doy : ℕ) → month_start p ≤ doy → doy < month_start (p + 1) → index_of doy ≡ p
index_of_unique p doy h k = omega arith

days_in_month_lem :
    (y p : ℕ) → p < 11 → days_in_month y (month_at p) + month_start p ≡ month_start (p + 1)
days_in_month_lem y p h = ground arith

-- A date by its month from March and its day.
abbrev in_month : ℕ → ℕ → ℕ → ℕ × ℕ × ℕ
in_month y p d = (y + (if leb (month_at p) 2 then 1 else 0), month_at p, d)

date_at-in_month :
    (era yoe doy : ℕ)
    → date_at era yoe doy
      ≡ in_month (yoe + era * 400) (index_of doy) (doy - month_start (index_of doy) + 1)
unfolding month_of day_of
date_at-in_month era yoe doy = refl

next_in-month :
    (n y p d : ℕ)
    → p < 11
    → 1 ≤ d
    → n + month_start p ≡ month_start (p + 1)
    → month_start p + d ≤ month_start (p + 1)
    → next_in n (in_month y p d) ≡ (
        if ltb (month_start p + d) (month_start (p + 1))
        then in_month y p (d + 1)
        else in_month y (p + 1) 1)
next_in-month n y p d h k e l = ground arith

next_date-month :
    (y p d : ℕ)
    → p < 11
    → 1 ≤ d
    → month_start p + d ≤ month_start (p + 1)
    → next_date (in_month y p d) ≡ (
        if ltb (month_start p + d) (month_start (p + 1))
        then in_month y p (d + 1)
        else in_month y (p + 1) 1)
next_date-month y p d h k l =
    let year = y + (if leb (month_at p) 2 then 1 else 0) in
    next_in-month (days_in_month year (month_at p)) y p d h k (days_in_month_lem year p h) l

in_month-eq : (y p q d e : ℕ) → q ≡ p → e ≡ d → in_month y p d ≡ in_month y q e
in_month-eq y p q d e h k = rw (h, k) refl

-- The turn of a month, seen from the day of the year.
index_of-next :
    (y p doy : ℕ)
    → month_start p ≤ doy
    → doy < month_start (p + 1)
    → (if ltb (month_start p + (doy - month_start p + 1)) (month_start (p + 1))
        then in_month y p (doy - month_start p + 1 + 1)
        else in_month y (p + 1) 1)
      ≡ in_month y (index_of (doy + 1)) (doy + 1 - month_start (index_of (doy + 1)) + 1)
index_of-next y p doy a b = elim (Bool-cases (ltb (doy + 1) (month_start (p + 1)))) [
  | inl lt ↦
      let same = index_of_unique p (doy + 1) (omega arith) (ground arith) in
      let test : ltb (month_start p + (doy - month_start p + 1)) (month_start (p + 1)) ≡ true =
        ground arith in
      rw test (
        in_month-eq y p (index_of (doy + 1)) (doy - month_start p + 1 + 1)
          (doy + 1 - month_start (index_of (doy + 1)) + 1) same (omega arith))
  | inr ge ↦
      let turn = index_of_unique (p + 1) (doy + 1) (ground arith) (omega arith) in
      let test : ltb (month_start p + (doy - month_start p + 1)) (month_start (p + 1)) ≡ false =
        ground arith in
      rw test (
        in_month-eq y (p + 1) (index_of (doy + 1)) 1
          (doy + 1 - month_start (index_of (doy + 1)) + 1) turn (ground arith))
]

-- The days of a year before its last month, February.
next_date-early :
    (era yoe doy : ℕ) → doy < 337 → next_date (date_at era yoe doy) ≡ date_at era yoe (doy + 1)
next_date-early era yoe doy h =
    let p = index_of doy in
    let y = yoe + era * 400 in
    let (a, b) = index_of_range doy in
    ap next_date (date_at-in_month era yoe doy)
    ∙ next_date-month y p (doy - month_start p + 1) (omega arith) (omega arith) (omega arith)
    ∙ index_of-next y p doy a b
    ∙ sym (date_at-in_month era yoe (doy + 1))

leap_of_length :
    (era yoe : ℕ)
    → yoe < 400
    → start_of yoe + 366 ≤ end_of yoe
    → is_leap (yoe + era * 400 + 1) ≡ true
leap_of_length era yoe h k = ground arith

february :
    (y d : ℕ)
    → d < 29
    → (d ≡ 28 → is_leap (y + 1) ≡ true)
    → next_date (in_month y 11 d) ≡ in_month y 11 (d + 1)
february y d h leap = ground (arith, leap)

next_date-late :
    (era yoe doy : ℕ)
    → yoe < 400
    → 337 ≤ doy
    → start_of yoe + doy + 1 < end_of yoe
    → next_date (date_at era yoe doy) ≡ date_at era yoe (doy + 1)
next_date-late era yoe doy h late k =
    let y = yoe + era * 400 in
    let short : doy + 1 < 366 = ground arith in
    let p : index_of doy ≡ 11 = omega arith in
    let q : index_of (doy + 1) ≡ 11 = omega arith in
    ap next_date (
      date_at-in_month era yoe doy
      ∙ in_month-eq y (index_of doy) 11 (doy - month_start (index_of doy) + 1) (doy - 336) (sym p)
          (omega arith))
    ∙ february y (doy - 336) (omega arith) (λ e. leap_of_length era yoe h (omega arith))
    ∙ in_month-eq y 11 (index_of (doy + 1)) (doy - 336 + 1)
        (doy + 1 - month_start (index_of (doy + 1)) + 1) q (omega arith)
    ∙ sym (date_at-in_month era yoe (doy + 1))

pub next_date-within :
    (era yoe doy : ℕ)
    → yoe < 400
    → start_of yoe + doy + 1 < end_of yoe
    → next_date (date_at era yoe doy) ≡ date_at era yoe (doy + 1)
next_date-within era yoe doy h k = elim (Bool-cases (ltb doy 337)) [
  | inl early ↦ next_date-early era yoe doy (ground arith)
  | inr late ↦ next_date-late era yoe doy h (ground arith) k
]

pub next_date-year :
    (era yoe doy : ℕ)
    → yoe < 399
    → start_of yoe + doy + 1 ≡ end_of yoe
    → next_date (date_at era yoe doy) ≡ date_at era (yoe + 1) 0
unfolding month_of day_of
next_date-year era yoe doy h k = ground arith

pub next_date-era :
    (era doy : ℕ)
    → start_of 399 + doy + 1 ≡ end_of 399
    → next_date (date_at era 399 doy) ≡ date_at (era + 1) 0 0
unfolding month_of day_of
next_date-era era doy k = ground arith
