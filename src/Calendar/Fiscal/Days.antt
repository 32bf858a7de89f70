-- ===== src/Calendar/Fiscal/Days.antt =====
-- The dates of the financial years of packages/core/src/reports/fiscal.ts.
use workloom.Base.{
  ◌≡◌, refl, ap, inl, inr, ℕ, suc, ◌+◌, ◌-◌, ◌≤◌, Bool, true, false, ◌&&◌, ◌==◌, leb, arith,
  Bool-cases, same_ℕ, other_ℕ, leb→le, le→leb, ge→ltb, lt→ltb,
}
use workloom.Calendar.{Date, IsDate, spelled, last_day, last_day_range, next_day}
use workloom.Calendar.Fiscal.{end_year, end_month, year_in}

-- The next day of the last of a month that is not December.
next_first :
    (y m : ℕ)
    → suc m ≤ 12
    → next_day (record { year = y; month = m; day = last_day y m })
      ≡ record { year = y; month = m + 1; day = 1 }
next_first y m h = rw (ge→ltb (last_day y m) (last_day y m) (omega arith), lt→ltb m 12 h) refl

same_last : {y y' m m' : ℕ} → y ≡ y' → m ≡ m' → last_day y m ≡ last_day y' m'
same_last a b = rw (a, b) refl

-- The dates of a financial year.
pub record YearDays : Type 0 where
  pub from : Date
  pub to : Date

abbrev pub days_of : ℕ → ℕ → YearDays
days_of start_year start_month =
    let y = end_year start_year start_month in
    let m = end_month start_month in
    record {
      from = record { year = start_year; month = start_month; day = 1 };
      to = record { year = y; month = m; day = last_day y m };
    }

-- Whether a date is among them.
abbrev pub is_among : Date → YearDays → Bool
is_among date days = leb (spelled days.from) (spelled date) && leb (spelled date) (spelled days.to)

within_bounds :
    (date : Date) (fy : YearDays)
    → spelled fy.from ≤ spelled date
    → spelled date ≤ spelled fy.to
    → is_among date fy ≡ true
within_bounds date fy h k = rw (le→leb _ _ h, le→leb _ _ k) refl

january_within : (date : Date) → IsDate date → is_among date (days_of date.year 1) ≡ true
unfolding last_day
january_within date d =
    within_bounds date (days_of date.year 1) (omega (arith, d.month_low, d.day_low))
      (omega (arith, d.month_high, d.day_high, (last_day_range date.year date.month).1))

later_within :
    (date : Date) (m : ℕ)
    → (m == 1) ≡ false
    → m ≤ date.month
    → IsDate date
    → is_among date (days_of date.year m) ≡ true
later_within date m other late d = rw other (
    within_bounds date
      (record (days_of date.year m) {
        to = record { year = date.year + 1; month = m - 1; day = last_day (date.year + 1) (m - 1) };
      })
      (omega (arith, late, d.day_low))
      (omega (arith, d.month_high, d.day_high, (last_day_range date.year date.month).1)))

earlier_within :
    (date : Date) (m : ℕ)
    → 1 ≤ m
    → m ≤ 12
    → suc date.month ≤ m
    → (m == 1) ≡ false
    → IsDate date
    → is_among date (days_of (date.year - 1) m) ≡ true
earlier_within date m h m_high early other d =
    let fy = record (days_of (date.year - 1) m) {
      to = record {
        year = date.year - 1 + 1;
        month = m - 1;
        day = last_day (date.year - 1 + 1) (m - 1);
      };
    } in
    let same_year : date.year ≡ date.year - 1 + 1 = omega (arith, d.year_range) in
    rw other (
      within_bounds date fy (omega (arith, d.year_range, d.month_low, d.day_low, early, m_high))
        (elim (Bool-cases (date.month == m - 1)) [
          | inl same ↦
              let same_month = same_ℕ date.month (m - 1) same in
              let in_range : date.day ≤ last_day (date.year - 1 + 1) (m - 1) =
                rw (← same_last same_year same_month) d.day_high in
              omega (arith, same_year, same_month, in_range)
          | inr before ↦ omega (
            arith,
            same_year,
            other_ℕ date.month (m - 1) before,
            early,
            d.day_high,
            (last_day_range date.year date.month).1,
          )
        ]))

pub leb→gt : (a b : ℕ) → leb a b ≡ false → suc b ≤ a
leb→gt a b h = ground arith

-- A date is in the year that is found for it.
pub year_in-is_among :
    (date : Date) (m : ℕ)
    → 1 ≤ m
    → m ≤ 12
    → IsDate date
    → is_among date (days_of (year_in date m) m) ≡ true
year_in-is_among date m h k d = elim (Bool-cases (m == 1)) [
  | inl january ↦ rw (same_ℕ m 1 january, le→leb 1 date.month d.month_low) (january_within date d)
  | inr other ↦ elim (Bool-cases (leb m date.month)) [
    | inl late ↦ rw late (later_within date m other (leb→le _ _ late) d)
    | inr early ↦ rw early (earlier_within date m h k (leb→gt _ _ early) other d)
  ]
]

-- The year ends on the day before the next one starts.
pub next_day-to : (y m : ℕ) → 1 ≤ m → m ≤ 12 → next_day (days_of y m).to ≡ (days_of (y + 1) m).from
next_day-to y m h k = elim (Bool-cases (m == 1)) [
  | inl january ↦
      rw (january, same_ℕ m 1 january, ge→ltb (last_day y 12) (last_day y 12) (omega arith)) refl
  | inr other ↦
      let apart = other_ℕ m 1 other in
      rw
        (
          other,
          ge→ltb (last_day (y + 1) (m - 1)) (last_day (y + 1) (m - 1)) (omega arith),
          lt→ltb (m - 1) 12 (omega (arith, k, h)),
        )
        (ap (λ n. record { year = y + 1; month = n; day = 1 }) (omega (arith, apart, h)))
]
