-- ===== src/Console/Time/Calendar.antt =====
-- The dates that the console writes, and those of the Gregorian calendar.
use riscv_exam_computer.Base.{
  ℕ, ◌+◌, ◌*◌, ◌<◌, ◌≡◌, sym, ap, subst, ◌∙◌, arith, ltb, Bool-cases, inl, inr,
}
use riscv_exam_computer.Console.Time.{civil}
use riscv_exam_computer.Console.Time.Eras.{
  start_of, end_of, date_at, civil-date_at, position, first_day,
}
use riscv_exam_computer.Console.Time.Months.{
  next_date, next_date-within, next_date-year, next_date-era,
}

-- The day after, in the same year, in the next year or in the next era.
next_day :
    (days era yoe doy : ℕ)
    → yoe < 400
    → start_of yoe + doy < end_of yoe
    → days + 719468 ≡ era * 146097 + (start_of yoe + doy)
    → civil (days + 1) ≡ next_date (date_at era yoe doy)
next_day days era yoe doy h k e = elim (Bool-cases (ltb (start_of yoe + doy + 1) (end_of yoe))) [
  | inl more ↦
      let within : start_of yoe + doy + 1 < end_of yoe = ground arith in
      civil-date_at (days + 1) era yoe (doy + 1) h (omega arith) (omega arith)
      ∙ sym (next_date-within era yoe doy h within)
  | inr over ↦
      let ends : start_of yoe + doy + 1 ≡ end_of yoe = ground arith in
      elim (Bool-cases (ltb yoe 399)) [
        | inl young ↦
            let y : yoe < 399 = ground arith in
            civil-date_at (days + 1) era (yoe + 1) 0 (omega arith) (ground arith) (ground arith)
            ∙ sym (next_date-year era yoe doy y ends)
        | inr old ↦
            let y : yoe ≡ 399 = ground arith in
            civil-date_at (days + 1) (era + 1) 0 0 (omega arith) (omega arith) (ground arith)
            ∙ sym (next_date-era era doy (subst (λ k. start_of k + doy + 1 ≡ end_of k) y ends))
            ∙ ap (λ k. next_date (date_at era k doy)) (sym y)
      ]
]

-- The dates follow one another as those of the Gregorian calendar do, leap years included, from
-- 1 January 1970 on: each day has the date that comes after the date of the day before.
pub civil-next_date :
    (days : ℕ) → (civil 0 ≡ (1970, 1, 1)) × (civil (days + 1) ≡ next_date (civil days))
civil-next_date days =
    let (era, yoe, doy, h, k, e) = position days in
    (
      first_day,
      next_day days era yoe doy h k e ∙ ap next_date (sym (civil-date_at days era yoe doy h k e)),
    )
