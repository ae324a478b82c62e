-- ===== src/Console/Time/Eras.antt =====
-- The eras of 400 years, and the place of a day in its era.
use riscv_exam_computer.Base.{
  ℕ, ◌+◌, ◌-◌, ◌*◌, ◌/◌, ◌%◌, ◌<◌, ◌≤◌, ◌≡◌, refl, sym, ap, ◌∙◌, arith, leb, ◌==◌, if◌then◌else◌,
  Bool-cases, inl, inr,
}
use riscv_exam_computer.Console.Time.{civil, year_of_era, day_of_year, month_of, day_of}

-- The days of an era before its year `k`.
abbrev pub start_of : ℕ → ℕ
start_of k = 365 * k + k / 4 - k / 100

year_of_era_range :
    (doe : ℕ) → doe < 146097 → (start_of (year_of_era doe) ≤ doe) × (year_of_era doe < 400)
unfolding year_of_era
year_of_era_range doe h = omega arith

year_of_era_upper : (doe : ℕ) → doe < 146096 → doe < start_of (year_of_era doe + 1)
unfolding year_of_era
year_of_era_upper doe h = omega arith

-- The days of an era up to the end of its year `k`; the last year of an era ends with it.
abbrev pub end_of : ℕ → ℕ
end_of k = if k == 399 then 146097 else start_of (k + 1)

last_day : year_of_era 146096 ≡ 399
unfolding year_of_era
last_day = refl

year_of_era-start_of :
    (yoe doy : ℕ)
    → yoe < 400
    → start_of yoe + doy < end_of yoe
    → year_of_era (start_of yoe + doy) ≡ yoe
year_of_era-start_of yoe doy h k =
    let doe = start_of yoe + doy in
    elim (Bool-cases (leb 146096 doe)) [
      | inl last ↦
          let e : doe ≡ 146096 = ground arith in
          let y : yoe ≡ 399 = ground arith in ap year_of_era e ∙ last_day ∙ sym y
      | inr more ↦ let a = year_of_era_range doe in let b = year_of_era_upper doe in ground arith
    ]

-- A date by its era, its year of the era and its day of the year, both counted from March.
abbrev pub date_at : ℕ → ℕ → ℕ → ℕ × ℕ × ℕ
date_at era yoe doy =
    (yoe + era * 400 + (if leb (month_of doy) 2 then 1 else 0), month_of doy, day_of doy)

civil_lem :
    (days : ℕ)
    → civil days ≡ (
        let z = days + 719468 in
        let doe = z - z / 146097 * 146097 in
        date_at (z / 146097) (year_of_era doe) (day_of_year doe (year_of_era doe)))
unfolding civil
civil_lem days = refl

pub civil-date_at :
    (days era yoe doy : ℕ)
    → yoe < 400
    → start_of yoe + doy < end_of yoe
    → days + 719468 ≡ era * 146097 + (start_of yoe + doy)
    → civil days ≡ date_at era yoe doy
unfolding day_of_year
civil-date_at days era yoe doy h k e =
    let z = days + 719468 in
    let below : start_of yoe + doy < 146097 = ground arith in
    let era_is : z / 146097 ≡ era = omega arith in
    let doe_is : z - z / 146097 * 146097 ≡ start_of yoe + doy = omega arith in
    let year_is = year_of_era-start_of yoe doy h k in
    let day_is : day_of_year (start_of yoe + doy) yoe ≡ doy = omega arith in
    civil_lem days ∙ rw (doe_is, era_is, year_is, day_is) refl

year_of_era_end : (doe : ℕ) → doe < 146097 → doe < end_of (year_of_era doe)
year_of_era_end doe h = elim (Bool-cases (leb 146096 doe)) [
  | inl last ↦
      let e : doe ≡ 146096 = ground arith in
      let y : year_of_era doe ≡ 399 = ap year_of_era e ∙ last_day in rw y h
  | inr more ↦ let a = year_of_era_range doe in let b = year_of_era_upper doe in ground arith
]

-- Every day lies in a year of an era.
pub position :
    (days : ℕ)
    → (era : ℕ) × (yoe : ℕ) × (doy : ℕ) × (yoe < 400)
      × (start_of yoe + doy < end_of yoe)
      × (days + 719468 ≡ era * 146097 + (start_of yoe + doy))
position days =
    let z = days + 719468 in
    let doe = z % 146097 in
    let (lo, small) = year_of_era_range doe (omega arith) in
    let up = year_of_era_end doe (omega arith) in
    (z / 146097, year_of_era doe, doe - start_of (year_of_era doe), small, omega arith, omega arith)

pub first_day : civil 0 ≡ (1970, 1, 1)
unfolding civil
first_day = refl
