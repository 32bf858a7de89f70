-- ===== src/Calendar/Fiscal/Between.antt =====
-- The financial years between two dates, packages/core/src/reports/fiscal.ts.
use workloom.Base.{
  ◌≡◌, refl, ap, ◌∙◌, inl, inr, ℕ, zero, suc, ◌+◌, ◌-◌, ◌≤◌, Bool, true, false, ◌&&◌, ◌||◌,
  if◌then◌else◌, ◌==◌, leb, arith, Bool-cases, same_ℕ, other_ℕ, leb→le, ge→ltb, ltb, ltb→ge, Option,
  none, some, List, [], ◌∷◌, ok,
}
use workloom.Invoices.Settlement.{text_lt}
use workloom.Money.Decimal.{Text}
use workloom.Calendar.{Date, IsDate, spelled, last_day_range}
use workloom.Calendar.Fiscal.{
  FiscalYear, iso, pushed, year_of, year_in, fiscal_year_of, years_from, fiscal_years_between,
}
use workloom.Calendar.Fiscal.Days.{days_of, leb→gt, year_in-is_among}
use workloom.Calendar.Fiscal.Within.{
  valid_month, starting_lem, is_within, year_in_range, year_in-is_within, text_lt-from,
}

abbrev pub in_some : Date → List FiscalYear → Bool
in_some date [] = false
in_some date (fy ∷ years) = is_within date fy || in_some date years

and_left : (a b : Bool) → (a && b) ≡ true → (a ≡ true) × (b ≡ true)
and_left true b h = (refl, h)
and_left false b h = absurd (cc)

years_from_ok :
    (rounds y m : ℕ) (to : Text)
    → 1 ≤ m
    → m ≤ 12
    → (years : Option (List FiscalYear)) × (years_from rounds y m to ≡ ok years)
unfolding years_from
years_from_ok zero y m to h k = (none, refl)
years_from_ok (suc rounds) y m to h k =
    let (rest, e) = years_from_ok rounds (y + 1) m to h k in
    (
      if text_lt to (year_of y m).from then some [] else pushed (year_of y m) rest,
      rw (starting_lem y m h k, e) refl,
    )

-- A year that starts on a date is not after the year of the date.
started_year :
    (y m : ℕ) (to : Date) → IsDate to → spelled (days_of y m).from ≤ spelled to → y ≤ to.year
started_year y m to d h =
    omega (arith, h, d.month_high, d.day_high, (last_day_range to.year to.month).1)

-- The loop ends in its rounds.
years_from-some :
    (rounds y m : ℕ) (to : Date)
    → 1 ≤ m
    → m ≤ 12
    → IsDate to
    → 1000 ≤ y
    → to.year ≤ 9998
    → y ≤ to.year + 1
    → to.year + 2 ≤ y + rounds
    → (years : List FiscalYear) × (years_from rounds y m (iso to) ≡ ok (some years))
unfolding years_from
years_from-some zero y m to h k d low high next enough = absurd (omega (arith, next, enough))
years_from-some (suc rounds) y m to h k d low high next enough =
    let compared = text_lt-from to y m k low (omega (arith, next, high)) d in
    elim (Bool-cases (ltb (spelled to) (spelled (days_of y m).from))) [
      | inl past ↦
          let (rest, e) = years_from_ok rounds (y + 1) m (iso to) h k in
          ([], rw (starting_lem y m h k, e, compared ∙ past) refl)
      | inr due ↦
          let started = started_year y m to d (ltb→ge _ _ due) in
          let (rest, e) =
            years_from-some rounds (y + 1) m to h k d (omega (arith, low)) high
              (omega (arith, started)) (omega (arith, enough)) in
          (year_of y m ∷ rest, rw (starting_lem y m h k, e, compared ∙ due) refl)
    ]

or_true : (a b : Bool) → b ≡ true → (a || b) ≡ true
or_true true b h = refl
or_true false b h = h

or_first : (a b : Bool) → a ≡ true → (a || b) ≡ true
or_first true b h = refl
or_first false b h = absurd (cc)

-- The years of the loop, from one up to the year of a date, have the date among them.
years_from-in_some :
    (rounds y m : ℕ) (to date : Date)
    → 1 ≤ m
    → m ≤ 12
    → IsDate to
    → IsDate date
    → 1000 ≤ y
    → 1001 ≤ date.year
    → to.year ≤ 9998
    → date.year ≤ to.year
    → spelled date ≤ spelled to
    → y ≤ year_in date m
    → to.year + 2 ≤ y + rounds
    → (years : List FiscalYear) × (years_from rounds y m (iso to) ≡ ok (some years))
      × (in_some date years ≡ true)
unfolding years_from
years_from-in_some zero y m to date h k d_to d low date_low high year last first enough =
    absurd (omega (arith, first, enough, (year_in_range date m).1, year))
years_from-in_some (suc rounds) y m to date h k d_to d low date_low high year last first enough =
    let yd = year_in date m in
    let yd_high = (year_in_range date m).1 in
    let among = year_in-is_among date m h k d in
    let started =
      leb→le _ _ (and_left (leb (spelled (days_of yd m).from) (spelled date)) _ among).0 in
    let due : ltb (spelled to) (spelled (days_of y m).from) ≡ false =
      ge→ltb _ _ (omega (arith, first, last, started)) in
    let compared =
      text_lt-from to y m k low (omega (arith, first, yd_high, year, high)) d_to ∙ due in
    elim (Bool-cases (y == yd)) [
      | inl same ↦
          let (rest, e) =
            years_from-some rounds (y + 1) m to h k d_to (omega (arith, low)) high
              (omega (arith, first, yd_high, year)) (omega (arith, enough)) in
          let here : is_within date (year_of y m) ≡ true =
            ap (λ n. is_within date (year_of n m)) (same_ℕ y yd same)
            ∙ year_in-is_within date m h k date_low (omega (arith, year, high)) d in
          (
            year_of y m ∷ rest,
            rw (starting_lem y m h k, e, compared) refl,
            or_first (is_within date (year_of y m)) (in_some date rest) here,
          )
      | inr other ↦
          let (rest, e, found) =
            years_from-in_some rounds (y + 1) m to date h k d_to d (omega (arith, low)) date_low
              high year last (omega (arith, first, other_ℕ y yd other)) (omega (arith, enough)) in
          (
            year_of y m ∷ rest,
            rw (starting_lem y m h k, e, compared) refl,
            or_true (is_within date (year_of y m)) (in_some date rest) found,
          )
    ]

year_in_mono :
    (a b : Date) (m : ℕ) → IsDate a → IsDate b → spelled a ≤ spelled b → year_in a m ≤ year_in b m
year_in_mono a b m ha hb le =
    let a_days = (last_day_range a.year a.month).1 in
    let b_days = (last_day_range b.year b.month).1 in
    elim (Bool-cases (leb m a.month)) [
      | inl a_late ↦ elim (Bool-cases (leb m b.month)) [
        | inl b_late ↦ rw (a_late, b_late) (omega (arith, a_days, b_days))
        | inr b_early ↦
            rw (a_late, b_early)
              (omega (arith, a_days, b_days, leb→le _ _ a_late, leb→gt _ _ b_early))
      ]
      | inr a_early ↦ elim (Bool-cases (leb m b.month)) [
        | inl b_late ↦ rw (a_early, b_late) (omega (arith, a_days, b_days))
        | inr b_early ↦ rw (a_early, b_early) (omega (arith, a_days, b_days))
      ]
    ]

year_order : (a b : Date) → IsDate a → IsDate b → spelled a ≤ spelled b → a.year ≤ b.year
year_order a b d e h = omega (
  arith,
  h,
  e.month_high,
  e.day_high,
  (last_day_range a.year a.month).1,
  (last_day_range b.year b.month).1,
)

-- With a start month from 1 to 12, the financial years between two dates that exist, in the years
-- from 1001 to 9998, are found: the loop ends, and every day from the first date to the last is in
-- one of them, as texts compare.
pub fiscal_years_between-in_some :
    (from to date : Date) (start_month : ℕ)
    → 1 ≤ start_month
    → start_month ≤ 12
    → 1001 ≤ from.year
    → to.year ≤ 9998
    → IsDate from
    → IsDate date
    → spelled from ≤ spelled date
    → spelled date ≤ spelled to
    → IsDate to
    → (years : List FiscalYear) × (fiscal_years_between from to start_month ≡ ok (some years))
      × (in_some date years ≡ true)
unfolding fiscal_years_between fiscal_year_of
fiscal_years_between-in_some from to date m h k low high d_from d first last d_to =
    let y = year_in from m in
    let (y_low, y_high) = year_in_range from m in
    let from_year = year_order from date d_from d first in
    let to_year = year_order date to d d_to last in
    rw (valid_month m h k, starting_lem y m h k)
      (years_from-in_some (to.year + 2 - y) y m to date h k d_to d (omega (arith, low, y_low))
        (omega (arith, low, from_year)) high to_year last (year_in_mono from date m d_from d first)
        (omega arith))
