-- ===== src/Tests/Calendar.antt =====
-- Calendar dates at concrete inputs: a schedule that starts on 31 January 2024, a leap year.
use workloom.Base.{
  ◌≡◌, refl, ◌⊎◌, ℕ, suc, ◌+◌, ◌≤◌, Bool, true, some, List, [], ok, arith, ltb, ltb→lt, zero,
}
use workloom.Calendar.{Date, IsDate, spelled, last_day, next_day, add_days}
use workloom.Calendar.Recurrence.{
  week, month, add_months, period_start, period_end, longest, period_index_of, next_unbilled_index,
  unbilled_periods, index_from, unbilled_from, period_at, contiguous, whole_months,
}
use workloom.Calendar.Recurrence.Loops.{
  next_day-period_end, period_index_of-contains, AreNext, unbilled_periods-AreNext,
}
use workloom.Calendar.Recurrence.Steps.{period_start-next}
use workloom.Calendar.Fiscal.{
  FiscalYear, fiscal_year_of, fiscal_year_starting, fiscal_years_between, years_from,
}
use workloom.Money.Decimal.{to_text}
use workloom.Calendar.Fiscal.Between.{in_some, fiscal_years_between-in_some}
use workloom.Calendar.Reports as Reports
use workloom.Calendar.Reports.Range.{days_between-add_days}

engine : Unit {0}
unfolding last_day add_days add_months period_start period_end index_from period_index_of
    unbilled_from next_unbilled_index unbilled_periods period_at contiguous whole_months
    fiscal_year_of fiscal_year_starting fiscal_years_between years_from to_text
engine = tt

abbrev on : ℕ → ℕ → ℕ → Date
on y m d = record { year = y; month = m; day = d }

abbrev january_end : Date
january_end = on 2024 1 31

january_end-IsDate : IsDate january_end
unfolding last_day
january_end-IsDate = record {
  year_range = omega arith;
  month_low = omega arith;
  month_high = omega arith;
  day_low = omega arith;
  day_high = omega arith;
}

-- The end of each month, and not the 29th after February.
runs :
    (period_start january_end month 1 1 ≡ on 2024 2 29)
    × (period_start january_end month 1 2 ≡ on 2024 3 31)
    × (period_end january_end month 1 0 ≡ on 2024 2 28)
    × (period_start january_end week 2 1 ≡ on 2024 2 14)
    × (period_index_of january_end month 1 (on 2024 4 29) ≡ 2)
    × (whole_months (on 2023 11 1) (on 2024 1 31) ≡ some 3)
unfolding engine
runs = (refl, refl, refl, refl, refl, refl)

next_day-period_end_example :
    (spelled (period_start january_end month 1 1) ≤ spelled (period_end january_end month 1 1))
    × (next_day (period_end january_end month 1 1) ≡ period_start january_end month 1 2)
next_day-period_end_example =
    next_day-period_end january_end month 1 1 january_end-IsDate (omega arith)

abbrev april_29 : Date
april_29 = on 2024 4 29

april_29-IsDate : IsDate april_29
unfolding last_day
april_29-IsDate = record {
  year_range = omega arith;
  month_low = omega arith;
  month_high = omega arith;
  day_low = omega arith;
  day_high = omega arith;
}

period_index_of-contains_example :
    (spelled (period_start january_end month 1 (period_index_of january_end month 1 april_29))
      ≤ spelled april_29)
    × ((period_index_of january_end month 1 april_29 ≡ longest)
        ⊎ (spelled april_29
            ≤ spelled
                (period_end january_end month 1 (period_index_of january_end month 1 april_29))))
period_index_of-contains_example =
    period_index_of-contains january_end month 1 april_29 january_end-IsDate april_29-IsDate
      (omega arith)

-- January is billed, nothing else.
abbrev only_january : Date → Bool
only_january d = ltb (spelled d) 20240201

later_at_first : 20240131 + 0 ≤ spelled (period_start january_end month 1 0)
unfolding period_start
later_at_first = omega arith

later : (i : ℕ) → 20240131 + i ≤ spelled (period_start january_end month 1 i)
later zero = later_at_first
later (suc i) =
    let e : i + 1 ≡ suc i = omega arith in
    rw (← e) (
      omega
        (arith, later i, period_start-next january_end month 1 i january_end-IsDate (omega arith)))

not_below : (a b : ℕ) → b ≤ a → ¬ (ltb a b ≡ true)
not_below a b h k = absurd (omega (arith, h, ltb→lt a b k))

unbilled_after :
    (i : ℕ)
    → ¬ (
        (j : ℕ)
        → i ≤ j
        → suc j ≤ i + longest
        → only_january (period_start january_end month 1 j) ≡ true)
unbilled_after i h =
    not_below _ 20240201 (omega (arith, later (i + 200))) (h (i + 200) (omega arith) (omega arith))

unbilled_periods-AreNext_example :
    AreNext january_end month 1 only_january
      (some (on 2024 3 15))
      0
      (unbilled_periods january_end month 1 0 3 only_january (some (on 2024 3 15)))
unbilled_periods-AreNext_example =
    unbilled_periods-AreNext january_end month 1 0 3 only_january (some (on 2024 3 15))
      unbilled_after

-- Before the year 1000 the texts do not compare as dates: no year is found.
no_year : fiscal_years_between (on 500 1 1) (on 500 12 31) 1 ≡ ok (some [])
unfolding engine
no_year = refl

fiscal_years_between-in_some_example :
    (years : List FiscalYear) × (fiscal_years_between january_end april_29 4 ≡ ok (some years))
    × (in_some april_29 years ≡ true)
fiscal_years_between-in_some_example =
    fiscal_years_between-in_some january_end april_29 april_29 4 (omega arith) (omega arith)
      (omega arith) (omega arith) january_end-IsDate april_29-IsDate (omega arith) (omega arith)
      april_29-IsDate

days_between-add_days_example : Reports.days_between january_end (add_days january_end 30) ≡ 31
days_between-add_days_example = days_between-add_days january_end 30 january_end-IsDate
