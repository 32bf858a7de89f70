-- ===== src/Calendar.antt =====
-- Calendar dates, of packages/core/src/time/index.ts and packages/core/src/modules/finance/
-- recurrence.ts. A text `YYYY-MM-DD` is read as its year, month and day, and two of them compare as
-- the numbers that their digits spell. What the source asks of `Date` is the Gregorian calendar,
-- in which `Date.UTC` has the years from 0 to 99 in the 1900s.
pub mod Recurrence
pub mod Fiscal
pub mod Reports
use workloom.Base.{
  ◌≡◌, refl, ℕ, zero, suc, ◌+◌, ◌-◌, ◌*◌, ◌/◌, ◌%◌, ◌≤◌, Bool, true, false, not, ◌&&◌, ◌||◌,
  if◌then◌else◌, ◌==◌, ltb, leb, arith, ltb→lt, ltb→ge, lt→ltb, ge→ltb, Bool-cases, same_ℕ, other_ℕ,
  inl, inr, ◌⊎◌, ap, sym,
}

pub record Date : Type 0 where
  pub year : ℕ
  pub month : ℕ
  pub day : ℕ

-- The number that the digits of `YYYY-MM-DD` spell.
abbrev pub spelled : Date → ℕ
spelled d = (d.year * 100 + d.month) * 100 + d.day

-- The year that `Date.UTC` takes: from 0 to 99 it is one of the 1900s.
abbrev pub utc_year : ℕ → ℕ
utc_year year = if ltb year 100 then 1900 + year else year

abbrev pub is_leap : ℕ → Bool
is_leap year = (year % 4 == 0) && (not (year % 100 == 0) || (year % 400 == 0))

-- The day of `Date.UTC(year, month, 0)`: the last of the month.
unfoldable pub last_day : ℕ → ℕ → ℕ
last_day year month =
    if month == 2
    then (if is_leap year then 29 else 28)
    else if (month == 4) || (month == 6) || (month == 9) || (month == 11)
    then 30
    else 31

abbrev pub is_month : ℕ → Bool
is_month month = leb 1 month && leb month 12

-- A date of the calendar.
pub record IsDate (d : Date) : Type 0 where
  pub year_range : 1 ≤ d.year
  pub month_low : 1 ≤ d.month
  pub month_high : d.month ≤ 12
  pub day_low : 1 ≤ d.day
  pub day_high : d.day ≤ last_day d.year d.month

abbrev pub next_day : Date → Date
next_day d =
    if ltb d.day (last_day d.year d.month)
    then record d { day = d.day + 1 }
    else if ltb d.month 12
    then record { year = d.year; month = d.month + 1; day = 1 }
    else record { year = d.year + 1; month = 1; day = 1 }

abbrev pub previous_day : Date → Date
previous_day d =
    if ltb 1 d.day
    then record d { day = d.day - 1 }
    else if ltb 1 d.month
    then record { year = d.year; month = d.month - 1; day = last_day d.year (d.month - 1) }
    else record { year = d.year - 1; month = 12; day = 31 }

-- `addDays` with a number of days that is not negative; `addDays(date, -1)` is `previous_day`.
unfoldable pub add_days : Date → ℕ → Date
add_days d zero = d
add_days d (suc n) = next_day (add_days d n)

pub last_day_range : (year month : ℕ) → (28 ≤ last_day year month) × (last_day year month ≤ 31)
unfolding last_day
last_day_range year month = ground arith

december : (year : ℕ) → last_day year 12 ≡ 31
unfolding last_day
december year = refl

pub next_day-IsDate : (d : Date) → IsDate d → IsDate (next_day d)
next_day-IsDate d h = elim (Bool-cases (ltb d.day (last_day d.year d.month))) [
  | inl within ↦ rw within (record {
    year_range = h.year_range;
    month_low = h.month_low;
    month_high = h.month_high;
    day_low = omega arith;
    day_high = omega (arith, ltb→lt _ _ within);
  })
  | inr at_end ↦ elim (Bool-cases (ltb d.month 12)) [
    | inl month_left ↦
        rw (at_end, month_left)
          (record {
            year_range = h.year_range;
            month_low = omega arith;
            month_high = omega (arith, ltb→lt _ _ month_left);
            day_low = omega arith;
            day_high = omega (arith, (last_day_range d.year (d.month + 1)).0);
          })
    | inr last ↦
        rw (at_end, last)
          (record {
            year_range = omega arith;
            month_low = omega arith;
            month_high = omega arith;
            day_low = omega arith;
            day_high = omega (arith, (last_day_range (d.year + 1) 1).0);
          })
  ]
]

pub date_eq :
    {y y' m m' n n' : ℕ}
    → y ≡ y'
    → m ≡ m'
    → n ≡ n'
    → ◌≡◌ {A = Date}
        (record { year = y; month = m; day = n })
        (record { year = y'; month = m'; day = n' })
date_eq a b c = rw (a, b, c) refl

pub next_day-previous_day : (d : Date) → IsDate d → next_day (previous_day d) ≡ d
next_day-previous_day d h = elim (Bool-cases (ltb 1 d.day)) [
  | inl later ↦
      rw
        (
          later,
          lt→ltb (d.day - 1) (last_day d.year d.month)
              (omega (arith, h.day_high, ltb→lt _ _ later)),
        )
        (date_eq refl refl (omega (arith, ltb→lt _ _ later)))
  | inr first ↦
      let one : d.day ≡ 1 = omega (arith, h.day_low, ltb→ge _ _ first) in
      elim (Bool-cases (ltb 1 d.month)) [
        | inl month_left ↦
            let end = last_day d.year (d.month - 1) in
            rw
              (
                first,
                month_left,
                ge→ltb end end (omega arith),
                lt→ltb (d.month - 1) 12 (omega (arith, h.month_high, ltb→lt _ _ month_left)),
              )
              (date_eq refl (omega (arith, ltb→lt _ _ month_left)) (sym one))
        | inr january ↦
            rw (first, january, december (d.year - 1))
              (date_eq (omega (arith, h.year_range))
                (omega (arith, h.month_low, ltb→ge _ _ january)) (sym one))
      ]
]

pub spelled-next_day : (d : Date) → IsDate d → suc (spelled d) ≤ spelled (next_day d)
spelled-next_day d h = elim (Bool-cases (ltb d.day (last_day d.year d.month))) [
  | inl within ↦ rw within (omega arith)
  | inr at_end ↦ elim (Bool-cases (ltb d.month 12)) [
    | inl month_left ↦
        rw (at_end, month_left) (omega (arith, h.day_high, (last_day_range d.year d.month).1))
    | inr last ↦
        rw (at_end, last)
          (omega (arith, h.month_high, h.day_high, (last_day_range d.year d.month).1))
  ]
]

same_last : {y y' m m' : ℕ} → y ≡ y' → m ≡ m' → last_day y m ≡ last_day y' m'
same_last a b = rw (a, b) refl

-- No date is between a date and the day before it.
pub previous_day-last :
    (x d : Date)
    → IsDate x
    → IsDate d
    → suc (spelled x) ≤ spelled d
    → spelled x ≤ spelled (previous_day d)
previous_day-last x d hx hd less = elim (Bool-cases (ltb 1 d.day)) [
  | inl later ↦ rw later (omega (arith, less, ltb→lt _ _ later))
  | inr first ↦ elim (Bool-cases (ltb 1 d.month)) [
    | inl month_left ↦
        rw (first, month_left)
          (elim (Bool-cases (x.year * 100 + x.month == d.year * 100 + (d.month - 1))) [
            | inl same ↦
                let e = same_ℕ _ _ same in
                let y : x.year ≡ d.year =
                  omega
                    (arith, e, hx.month_low, hx.month_high, hd.month_high, ltb→lt _ _ month_left) in
                let m : x.month ≡ d.month - 1 =
                  omega
                    (arith, e, hx.month_low, hx.month_high, hd.month_high, ltb→lt _ _ month_left) in
                let days : x.day ≤ last_day d.year (d.month - 1) =
                  rw (← same_last y m) hx.day_high in
                omega (arith, e, days)
            | inr other ↦ omega (
              arith,
              less,
              other_ℕ _ _ other,
              hx.day_low,
              hx.day_high,
              hx.month_low,
              hx.month_high,
              hd.month_high,
              ltb→ge _ _ first,
              ltb→lt _ _ month_left,
              (last_day_range x.year x.month).1,
            )
          ])
    | inr january ↦
        rw (first, january)
          (omega (
            arith,
            less,
            hx.day_low,
            hx.day_high,
            hx.month_high,
            (last_day_range x.year x.month).1,
            ltb→ge _ _ first,
            ltb→ge _ _ january,
            hd.day_low,
            hd.month_low,
          ))
  ]
]
