-- ===== src/Calendar/Reports/Range.antt =====
-- The span of packages/core/src/reports/period.ts beside the one that it is compared with.
use workloom.Base.{
  ◌≡◌, refl, ap, ◌∙◌, inl, inr, ℕ, zero, suc, ◌+◌, ◌-◌, ◌≤◌, ltb, arith, Bool-cases, ltb→ge,
}
use workloom.Calendar.{Date, IsDate, last_day, next_day, add_days}
use workloom.Calendar.Recurrence.Steps.{add_days-IsDate}
use workloom.Calendar.Reports.{
  month, year, days_before_month, days_before_year, day_number, days_between,
}

month_before :
    (y m : ℕ) → 1 ≤ m → days_before_month y m ≡ days_before_month y (m - 1) + last_day y m
unfolding days_before_month
month_before y zero h = absurd (omega (arith, h))
month_before y (suc m) h = let e : suc m - 1 ≡ m = omega arith in rw e refl

year_step : (y : ℕ) → days_before_year (y + 1) ≡ days_before_year y + days_before_month y 12
unfolding days_before_year
year_step y = let e : y + 1 ≡ suc y = omega arith in rw e refl

day_number-next_day : (d : Date) → IsDate d → day_number (next_day d) ≡ suc (day_number d)
unfolding days_before_year days_before_month
day_number-next_day d h = elim (Bool-cases (ltb d.day (last_day d.year d.month))) [
  | inl within ↦ rw within (omega arith)
  | inr at_end ↦ elim (Bool-cases (ltb d.month 12)) [
    | inl month_left ↦
        let e : d.month + 1 - 1 ≡ d.month = omega arith in
        rw (at_end, month_left, e)
          (omega (arith, h.day_high, ltb→ge _ _ at_end, month_before d.year d.month h.month_low))
    | inr last ↦
        let m : d.month ≡ 12 = omega (arith, h.month_high, ltb→ge _ _ last) in
        let before = ap (λ n. days_before_month d.year (n - 1)) m in
        let days = ap (last_day d.year) m in
        rw (at_end, last)
          (omega (
            arith,
            h.day_high,
            ltb→ge _ _ at_end,
            year_step d.year,
            month_before d.year 12 (omega arith),
            before,
            days,
          ))
  ]
]

day_number-add_days : (d : Date) (n : ℕ) → IsDate d → day_number (add_days d n) ≡ day_number d + n
unfolding add_days
day_number-add_days d zero h = omega arith
day_number-add_days d (suc n) h =
    day_number-next_day (add_days d n) (add_days-IsDate d n h)
    ∙ ap suc (day_number-add_days d n h)
    ∙ omega arith

-- From a date that exists, counting both ends, to the date some days later there is one day more
-- than were added.
pub days_between-add_days : (d : Date) (n : ℕ) → IsDate d → days_between d (add_days d n) ≡ n + 1
unfolding days_between
days_between-add_days d n h = omega (arith, day_number-add_days d n h)
