-- ===== src/Calendar/Recurrence/Steps.antt =====
-- One period of packages/core/src/modules/finance/recurrence.ts after the other.
use workloom.Base.{
  ◌≡◌, refl, ap, ◌∙◌, ℕ, zero, suc, ◌+◌, ◌-◌, ◌*◌, ◌/◌, ◌%◌, ◌≤◌, min, true, false, ◌==◌, ltb,
  arith, Bool-cases, same_ℕ, inl, inr,
}
use native.Mathlib.Nat.{mul-suc}
use workloom.Calendar.{
  Date, IsDate, spelled, utc_year, last_day, last_day_range, next_day, add_days, next_day-IsDate,
  spelled-next_day,
}
use workloom.Calendar.Recurrence.{
  Interval, week, month, quarter, year, months_per, in_month, add_months, is_week, period_start,
}

pub add_days-IsDate : (d : Date) (n : ℕ) → IsDate d → IsDate (add_days d n)
unfolding add_days
add_days-IsDate d zero h = h
add_days-IsDate d (suc n) h = next_day-IsDate (add_days d n) (add_days-IsDate d n h)

pub spelled-add_days : (d : Date) (n : ℕ) → IsDate d → spelled d + n ≤ spelled (add_days d n)
unfolding add_days
spelled-add_days d zero h = omega arith
spelled-add_days d (suc n) h =
    omega (arith, spelled-add_days d n h, spelled-next_day (add_days d n) (add_days-IsDate d n h))

next_sum : (a b : ℕ) → a + suc b ≡ suc (a + b)
next_sum a b = omega arith

add_days-+ : (d : Date) (a b : ℕ) → add_days d (a + b) ≡ add_days (add_days d a) b
unfolding add_days
add_days-+ d a zero = ap (add_days d) (omega arith)
add_days-+ d a (suc b) = ap (add_days d) (next_sum a b) ∙ ap next_day (add_days-+ d a b)

min_positive : (a b : ℕ) → 1 ≤ a → 28 ≤ b → 1 ≤ min a b
min_positive a b h k = ground arith

min_right : (a b : ℕ) → min a b ≤ b
min_right a b = ground arith

in_month-IsDate : (months day : ℕ) → 12 ≤ months → 1 ≤ day → IsDate (in_month months day)
in_month-IsDate months day h1 h2 =
    let y = months / 12 in
    let m = months % 12 + 1 in
    record {
      year_range = omega (arith, h1);
      month_low = omega arith;
      month_high = omega arith;
      day_low = min_positive day (last_day y m) h2 (last_day_range y m).0;
      day_high = min_right day (last_day y m);
    }

spelled-in_month :
    (a b day : ℕ) → suc a ≤ b → 1 ≤ day → suc (spelled (in_month a day)) ≤ spelled (in_month b day)
spelled-in_month a b day h k =
    let last_a = last_day (a / 12) (a % 12 + 1) in
    let last_b = last_day (b / 12) (b % 12 + 1) in
    omega (
      arith,
      h,
      min_right day last_a,
      (last_day_range (a / 12) (a % 12 + 1)).1,
      min_positive day last_b k (last_day_range (b / 12) (b % 12 + 1)).0,
    )

utc_year-le : (y : ℕ) → y ≤ utc_year y
utc_year-le y = elim (Bool-cases (ltb y 100)) [
  | inl early ↦ rw early (omega arith)
  | inr late ↦ rw late (omega arith)
]

-- A date comes before what is some months after it.
spelled-add_months :
    (d : Date) (months : ℕ)
    → IsDate d
    → 1 ≤ months
    → suc (spelled d) ≤ spelled (add_months d months)
unfolding add_months
spelled-add_months d months h k =
    let total = utc_year d.year * 12 + (d.month - 1) + months in
    let last = last_day (total / 12) (total % 12 + 1) in
    omega (
      arith,
      k,
      utc_year-le d.year,
      h.month_low,
      h.month_high,
      h.day_high,
      (last_day_range d.year d.month).1,
      min_positive d.day last h.day_low (last_day_range (total / 12) (total % 12 + 1)).0,
    )

plus_one : (i : ℕ) → i + 1 ≡ suc i
plus_one i = omega arith

times_zero : (k i : ℕ) → (i == 0) ≡ true → k * i ≡ 0
times_zero k i h = ap (◌*◌ k) (same_ℕ i 0 h) ∙ omega arith

product_step : (k i : ℕ) → k * (i + 1) ≡ k * i + k
product_step k i = ap (◌*◌ k) (plus_one i) ∙ mul-suc k i

no_zero : (i : ℕ) → (i + 1 == 0) ≡ false
no_zero i = ground arith

weeks_after :
    (start : Date) (count i : ℕ) → period_start start week count i ≡ add_days start (7 * count * i)
unfolding period_start add_days
weeks_after start count i = elim (Bool-cases (i == 0)) [
  | inl first ↦ rw (first, times_zero (7 * count) i first) refl
  | inr later ↦ rw later refl
]

months_after :
    (start : Date) (unit : Interval) (count i : ℕ)
    → is_week unit ≡ false
    → (i == 0) ≡ false
    → period_start start unit count i
      ≡ in_month
          (utc_year start.year * 12 + (start.month - 1) + months_per unit * count * i)
          start.day
unfolding period_start add_months
months_after start unit count i u later = rw (later, u) refl

months_positive :
    (unit : Interval) (count : ℕ) → is_week unit ≡ false → 1 ≤ count → 1 ≤ months_per unit * count
months_positive week count u h = absurd (cc)
months_positive month count u h = omega (arith, h)
months_positive quarter count u h = omega (arith, h)
months_positive year count u h = omega (arith, h)

week_unit : (unit : Interval) → is_week unit ≡ true → unit ≡ week
week_unit week u = refl
week_unit month u = absurd (cc)
week_unit quarter u = absurd (cc)
week_unit year u = absurd (cc)

pub period_start-IsDate :
    (start : Date) (unit : Interval) (count i : ℕ)
    → IsDate start
    → IsDate (period_start start unit count i)
unfolding period_start
period_start-IsDate start unit count i h = elim (Bool-cases (is_week unit)) [
  | inl u ↦
      rw (week_unit unit u, weeks_after start count i) (add_days-IsDate start (7 * count * i) h)
  | inr u ↦ elim (Bool-cases (i == 0)) [
    | inl first ↦ rw first h
    | inr later ↦ rw (months_after start unit count i u later) (
        in_month-IsDate (utc_year start.year * 12 + (start.month - 1) + months_per unit * count * i)
          start.day (omega (arith, utc_year-le start.year, h.year_range)) h.day_low)
  ]
]

-- Each period starts after the one before.
pub period_start-next :
    (start : Date) (unit : Interval) (count i : ℕ)
    → IsDate start
    → 1 ≤ count
    → suc (spelled (period_start start unit count i))
      ≤ spelled (period_start start unit count (i + 1))
unfolding period_start
period_start-next start unit count i h k = elim (Bool-cases (is_week unit)) [
  | inl u ↦
      let before = add_days start (7 * count * i) in
      rw
        (
          week_unit unit u,
          weeks_after start count i,
          weeks_after start count (i + 1),
          product_step (7 * count) i,
          add_days-+ start (7 * count * i) (7 * count),
        )
        (omega
          (arith, k, spelled-add_days before (7 * count) (add_days-IsDate start (7 * count * i) h)))
  | inr u ↦
      let base = utc_year start.year * 12 + (start.month - 1) in
      let step = months_per unit * count in
      elim (Bool-cases (i == 0)) [
        | inl first ↦
            rw (same_ℕ i 0 first, u)
              (spelled-add_months start (step * 1) h
                (omega (arith, months_positive unit count u k)))
        | inr later ↦
            rw
              (
                months_after start unit count i u later,
                months_after start unit count (i + 1) u (no_zero i),
              )
              (spelled-in_month (base + step * i) (base + step * (i + 1)) start.day
                (omega (arith, product_step step i, months_positive unit count u k)) h.day_low)
      ]
]
