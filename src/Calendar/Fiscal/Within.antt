-- ===== src/Calendar/Fiscal/Within.antt =====
-- The financial year of a date, packages/core/src/reports/fiscal.ts.
use workloom.Base.{
  ◌≡◌, refl, ap, ◌∙◌, ltb, ℕ, suc, ◌≤◌, Bool, true, false, not, ◌&&◌, leb, arith, ok,
}
use workloom.Calendar.{Date, IsDate, spelled, last_day, last_day_range, is_month}
use workloom.Invoices.Settlement.{text_lt}
use workloom.Calendar.Fiscal.Days.{days_of, is_among, year_in-is_among}
use workloom.Calendar.Fiscal.Texts.{IsShort, text_lt-iso, date_text-iso}
use workloom.Calendar.Fiscal.{
  iso, end_year, end_month, FiscalYear, year_of, year_in, fiscal_year_starting,
}

pub valid_month : (m : ℕ) → 1 ≤ m → m ≤ 12 → not (is_month m) ≡ false
valid_month m h k = ground arith

pub starting_lem : (y m : ℕ) → 1 ≤ m → m ≤ 12 → fiscal_year_starting y m ≡ ok (year_of y m)
unfolding fiscal_year_starting
starting_lem y m h k = rw (valid_month m h k) refl

-- Whether a date is in a year, as texts compare.
abbrev pub is_within : Date → FiscalYear → Bool
is_within date fy = not (text_lt (iso date) fy.from) && not (text_lt fy.to (iso date))

two_equal : {a a' b b' : Bool} → a ≡ a' → b ≡ b' → (not a && not b) ≡ (not a' && not b')
two_equal p q = rw (p, q) refl

neither_before : (x f t : ℕ) → (not (ltb x f) && not (ltb t x)) ≡ (leb f x && leb x t)
neither_before x f t = ground arith

pub IsDate-IsShort : (d : Date) → IsDate d → IsShort d
IsDate-IsShort d h =
    (omega (arith, h.month_high), omega (arith, h.day_high, (last_day_range d.year d.month).1))

last_day-IsShort : (y m : ℕ) → m ≤ 12 → IsShort (record { year = y; month = m; day = last_day y m })
last_day-IsShort y m h = (omega (arith, h), omega (arith, (last_day_range y m).1))

end_year_range : (y m : ℕ) → (y ≤ end_year y m) × (end_year y m ≤ suc y)
end_year_range y m = (ground arith, ground arith)

end_month_range : (m : ℕ) → 1 ≤ m → m ≤ 12 → end_month m ≤ 12
end_month_range m h k = ground arith

-- The texts of a year compare as its dates, where its years have four digits.
pub text_lt-from :
    (date : Date) (y m : ℕ)
    → m ≤ 12
    → 1000 ≤ y
    → y ≤ 9999
    → IsDate date
    → text_lt (iso date) (year_of y m).from ≡ ltb (spelled date) (spelled (days_of y m).from)
text_lt-from date y m k low high d =
    ap (text_lt (iso date)) (date_text-iso y m 1 low high)
    ∙ text_lt-iso date (days_of y m).from (IsDate-IsShort date d) (omega (arith, k), omega arith)

text_to : (y m : ℕ) → 1000 ≤ y → y ≤ 9998 → (year_of y m).to ≡ iso (days_of y m).to
text_to y m low high =
    let (from_low, to_high) = end_year_range y m in
    date_text-iso (end_year y m) (end_month m) (last_day (end_year y m) (end_month m))
      (omega (arith, low, from_low)) (omega (arith, high, to_high))

is_within-is_among :
    (date : Date) (y m : ℕ)
    → 1 ≤ m
    → m ≤ 12
    → 1000 ≤ y
    → y ≤ 9998
    → IsDate date
    → is_within date (year_of y m) ≡ is_among date (days_of y m)
is_within-is_among date y m h k low high d =
    two_equal (text_lt-from date y m k low (omega (arith, high)) d) (
      ap (λ t. text_lt t (iso date)) (text_to y m low high)
      ∙ text_lt-iso (days_of y m).to date
          (last_day-IsShort (end_year y m) (end_month m) (end_month_range m h k))
          (IsDate-IsShort date d))
    ∙ neither_before (spelled date) (spelled (days_of y m).from) (spelled (days_of y m).to)

pub year_in_range :
    (date : Date) (m : ℕ) → (date.year ≤ suc (year_in date m)) × (year_in date m ≤ date.year)
year_in_range date m = (ground arith, ground arith)

pub year_in-is_within :
    (date : Date) (m : ℕ)
    → 1 ≤ m
    → m ≤ 12
    → 1001 ≤ date.year
    → date.year ≤ 9998
    → IsDate date
    → is_within date (year_of (year_in date m) m) ≡ true
year_in-is_within date m h k low high d =
    let (range_low, range_high) = year_in_range date m in
    is_within-is_among date (year_in date m) m h k (omega (arith, low, range_low))
      (omega (arith, high, range_high)) d
    ∙ year_in-is_among date m h k d
