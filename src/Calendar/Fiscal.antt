-- ===== src/Calendar/Fiscal.antt =====
-- packages/core/src/reports/fiscal.ts: financial years, which start on the first of a month. The
-- days of a financial year are texts, as in the source, which writes their years without padding.
pub mod Texts
pub mod Days
pub mod Within
pub mod Between
use workloom.Base.{
  ◌≡◌, refl, sym, ap, ◌∙◌, ◌⊎◌, inl, inr, ℕ, zero, suc, ◌+◌, ◌-◌, ◌*◌, ◌≤◌, Bool, true, false, not,
  ◌&&◌, ◌||◌, if◌then◌else◌, ◌==◌, ltb, leb, arith, Bool-cases, same_ℕ, other_ℕ, leb→le, le→leb,
  ltb→lt, ltb→ge, ge→ltb, lt→ltb, List, [], ◌∷◌, ◌++◌, Result, ok, err, range_error, ◌>>=◌, ◌>>◌,
  throw_if, Option, none, some, ◌/◌, ◌%◌,
}
use workloom.Invoices.Settlement.{text_lt}
use workloom.Money.Decimal.{Text, to_text}
use workloom.Calendar.{Date, IsDate, spelled, last_day, last_day_range, is_month, next_day}

-- `pad`, of a number below 100.
abbrev pub two_digits : ℕ → Text
two_digits n = (b'0' + n / 10) ∷ (b'0' + n % 10) ∷ []

abbrev pub date_text : Text → ℕ → ℕ → Text
date_text year month day = year ++ (b'-' ∷ (two_digits month ++ (b'-' ∷ two_digits day)))

-- The text `YYYY-MM-DD` of a date that is given, of a year below 10000.
abbrev pub iso : Date → Text
iso d = date_text (two_digits (d.year / 100) ++ two_digits (d.year % 100)) d.month d.day

pub record FiscalYear : Type 0 where
  pub start_year : ℕ
  pub from : Text
  pub to : Text
  pub label : Text
  pub slug : Text

-- `slice(-2)`.
abbrev pub last_two : Text → Text
last_two [] = []
last_two (a ∷ []) = a ∷ []
last_two (a ∷ b ∷ []) = a ∷ b ∷ []
last_two (a ∷ b ∷ c ∷ text) = last_two (b ∷ c ∷ text)

abbrev pub end_month : ℕ → ℕ
end_month start_month = if start_month == 1 then 12 else start_month - 1

abbrev pub end_year : ℕ → ℕ → ℕ
end_year start_year start_month = if start_month == 1 then start_year else start_year + 1

-- A year's name, with a sign between its two years where it has two.
abbrev pub year_name : Text → ℕ → ℕ → Text
year_name sign start_year start_month =
    if start_month == 1
    then to_text start_year
    else to_text start_year ++ sign ++ last_two (to_text (start_year + 1))

abbrev pub year_of : ℕ → ℕ → FiscalYear
year_of start_year start_month =
    let y = end_year start_year start_month in
    let m = end_month start_month in
    record {
      start_year = start_year;
      from = date_text (to_text start_year) start_month 1;
      to = date_text (to_text y) m (last_day y m);
      label = year_name (b'/' ∷ []) start_year start_month;
      slug = year_name (b'-' ∷ []) start_year start_month;
    }

unfoldable pub fiscal_year_starting : ℕ → ℕ → Result FiscalYear
fiscal_year_starting start_year start_month = do
  throw_if (not (is_month start_month)) range_error
  ok (year_of start_year start_month)

abbrev pub year_in : Date → ℕ → ℕ
year_in date start_month = if leb start_month date.month then date.year else date.year - 1

unfoldable pub fiscal_year_of : Date → ℕ → Result FiscalYear
fiscal_year_of date start_month = do
  throw_if (not (is_month start_month)) range_error
  fiscal_year_starting (year_in date start_month) start_month

abbrev pub pushed : FiscalYear → Option (List FiscalYear) → Option (List FiscalYear)
pushed year none = none
pushed year (some years) = some (year ∷ years)

-- The loop of `fiscalYearsBetween`, with the rounds that are left to it; none where they run out.
unfoldable pub years_from : ℕ → ℕ → ℕ → Text → Result (Option (List FiscalYear))
years_from zero start_year start_month to = ok none
years_from (suc rounds) start_year start_month to = do
  year ← fiscal_year_starting start_year start_month
  rest ← years_from rounds (start_year + 1) start_month to
  ok (if text_lt to year.from then some [] else pushed year rest)

-- A round for each year up to that of `to`, and the one that ends the loop.
unfoldable pub fiscal_years_between : Date → Date → ℕ → Result (Option (List FiscalYear))
fiscal_years_between from to start_month = do
  first ← fiscal_year_of from start_month
  years_from (to.year + 2 - first.start_year) first.start_year start_month (iso to)
