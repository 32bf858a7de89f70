-- ===== src/Calendar/Reports.antt =====
-- packages/core/src/reports/period.ts: the span that a figure covers and the one before it; and the
-- ratios of packages/core/src/reports/margin.ts.
pub mod Range
use workloom.Base.{
  ◌≡◌, refl, sym, ap, ◌∙◌, ◌⊎◌, inl, inr, ℕ, zero, suc, ◌+◌, ◌-◌, ◌*◌, ◌%◌, ◌≤◌, Bool, true, false,
  if◌then◌else◌, ltb, leb, arith, Bool-cases, ltb→lt, ltb→ge, leb→le, ge→ltb, lt→ltb, Option, none,
  some, Result, ok, err, ◌>>=◌,
}
use workloom.Base.Int.{ℤ, pos, ◌*ℤ◌, ◌-ℤ◌, abs_ℤ, leb_ℤ, is_zero}
use workloom.Money.{round_div}
use workloom.Money.Decimal.{Text, format_decimal}
use workloom.Calendar.{
  Date, IsDate, spelled, utc_year, last_day, last_day_range, next_day, previous_day, add_days,
  next_day-previous_day, previous_day-last, next_day-IsDate,
}

pub data ReportPeriod : Type 0 where
  month quarter year : ReportPeriod

abbrev pub first_month : ReportPeriod → ℕ → ℕ
first_month year m = 1
first_month quarter m = m - (m - 1) % 3
first_month month m = m

abbrev pub last_month : ReportPeriod → ℕ → ℕ
last_month year m = 12
last_month quarter m = m + 2 - (m - 1) % 3
last_month month m = m

unfoldable pub period_start : ReportPeriod → Date → Date
period_start period date = record {
  year = date.year;
  month = first_month period date.month;
  day = 1;
}

-- A year ends in its own December; the rest goes through `Date.UTC`.
abbrev pub end_year : ReportPeriod → ℕ → ℕ
end_year year y = y
end_year quarter y = utc_year y
end_year month y = utc_year y

unfoldable pub period_end : ReportPeriod → Date → Date
period_end period date =
    let y = end_year period date.year in
    let m = last_month period date.month in record { year = y; month = m; day = last_day y m }

unfoldable pub previous_period_start : ReportPeriod → Date → Date
previous_period_start period date = period_start period (previous_day (period_start period date))

-- The days of a year before a month, and the days before a year.
unfoldable pub days_before_month : ℕ → ℕ → ℕ
days_before_month y zero = 0
days_before_month y (suc m) = days_before_month y m + last_day y (suc m)

unfoldable pub days_before_year : ℕ → ℕ
days_before_year zero = 0
days_before_year (suc y) = days_before_year y + days_before_month y 12

-- The number of a day, which `Date.parse` gives in milliseconds.
abbrev pub day_number : Date → ℕ
day_number d = days_before_year d.year + days_before_month d.year (d.month - 1) + d.day

-- `daysBetween` of a day and one that is not before it.
unfoldable pub days_between : Date → Date → ℕ
days_between from to = day_number to - day_number from + 1

pub record PeriodRange : Type 0 where
  pub from : Date
  pub to : Date
  pub previous_from : Date
  pub previous_to : Date

abbrev pub earlier : Date → Date → Date
earlier a b = if ltb (spelled b) (spelled a) then b else a

unfoldable pub period_range : ReportPeriod → Date → PeriodRange
period_range period today =
    let from = period_start period today in
    let previous_from = previous_period_start period today in
    let previous_end = period_end period previous_from in
    let previous_to = add_days previous_from (days_between from today - 1) in
    record {
      from = from;
      to = today;
      previous_from = previous_from;
      previous_to = earlier previous_to previous_end;
    }

-- `ratioPercent`, to two decimal places; `none` is null.
unfoldable pub ratio_percent : ℤ → ℤ → Result (Option Text)
ratio_percent numerator denominator =
    if leb_ℤ denominator (pos 0)
    then ok none
    else (round_div (numerator *ℤ pos 10000) denominator >>= λ share.
        ok (some (format_decimal share 2)))

unfoldable pub change_percent : ℤ → ℤ → Result (Option Text)
change_percent current previous =
    if is_zero previous then ok none else ratio_percent (current -ℤ previous) (pos (abs_ℤ previous))

unfoldable pub margin_percent : ℤ → ℤ → Result (Option Text)
margin_percent margin billed = ratio_percent margin billed

unfoldable pub utilisation_percent : ℤ → ℤ → Result (Option Text)
utilisation_percent billable total = ratio_percent billable total

unfoldable pub effective_hourly : ℤ → ℤ → Result (Option ℤ)
effective_hourly billed seconds =
    if leb_ℤ seconds (pos 0)
    then ok none
    else (round_div (billed *ℤ pos 3600) seconds >>= λ rate. ok (some rate))

unfoldable pub budget_used_percent : ℤ → Option ℤ → Result (Option Text)
budget_used_percent cost none = ok none
budget_used_percent cost (some budget) = ratio_percent cost budget
