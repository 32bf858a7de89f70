-- ===== src/Calendar/Recurrence.antt =====
-- packages/core/src/modules/finance/recurrence.ts: when a recurring schedule bills.
pub mod Steps
pub mod Loops
use workloom.Base.{
  ◌≡◌, ℕ, zero, suc, ◌+◌, ◌-◌, ◌*◌, ◌/◌, ◌%◌, ◌≤◌, min, Bool, true, false, not, ◌&&◌, ◌||◌,
  if◌then◌else◌, ◌==◌, ltb, leb, Option, none, some, List, [], ◌∷◌,
}
use workloom.Calendar.{Date, spelled, utc_year, last_day, previous_day, add_days}

pub data Interval : Type 0 where
  week month quarter year : Interval

-- `MONTHS_PER`, which is never asked for a week.
abbrev pub months_per : Interval → ℕ
months_per week = 0
months_per month = 1
months_per quarter = 3
months_per year = 12

-- The month of `Date.UTC(year, month - 1 + months, 1)`, with the day clamped to it.
abbrev pub in_month : ℕ → ℕ → Date
in_month months day =
    let y = months / 12 in
    let m = months % 12 + 1 in record { year = y; month = m; day = min day (last_day y m) }

-- `addMonths` with a number of months that is not negative.
unfoldable pub add_months : Date → ℕ → Date
add_months d months = in_month (utc_year d.year * 12 + (d.month - 1) + months) d.day

abbrev pub is_week : Interval → Bool
is_week week = true
is_week month = false
is_week quarter = false
is_week year = false

unfoldable pub period_start : Date → Interval → ℕ → ℕ → Date
period_start start unit count index =
    if index == 0
    then start
    else if is_week unit
    then add_days start (7 * count * index)
    else add_months start (months_per unit * count * index)

unfoldable pub period_end : Date → Interval → ℕ → ℕ → Date
period_end start unit count index = previous_day (period_start start unit count (index + 1))

-- The loop of `periodIndexOf`, with the rounds that are left of its 1200.
unfoldable pub index_from : ℕ → (ℕ → Date) → Date → ℕ → ℕ
index_from zero starts date index = index
index_from (suc rounds) starts date index =
    let rest = index_from rounds starts date (index + 1) in
    if leb (spelled (starts (index + 1))) (spelled date) then rest else index

abbrev pub longest : ℕ
longest = 1200

unfoldable pub period_index_of : Date → Interval → ℕ → Date → ℕ
period_index_of start unit count date =
    index_from longest (λ i. period_start start unit count i) date 0

pub record Period : Type 0 where
  pub index : ℕ
  pub start : Date
  pub end : Date

unfoldable pub period_at : Date → Interval → ℕ → ℕ → Period
period_at start unit count index = record {
  index = index;
  start = period_start start unit count index;
  end = period_end start unit count index;
}

-- The loop of `nextUnbilledIndex`. `billed` is `billedStarts.has`.
unfoldable pub unbilled_from : ℕ → (ℕ → Date) → (Date → Bool) → ℕ → ℕ
unbilled_from zero starts billed index = index
unbilled_from (suc rounds) starts billed index =
    let rest = unbilled_from rounds starts billed (index + 1) in
    if billed (starts index) then rest else index

unfoldable pub next_unbilled_index : Date → Interval → ℕ → ℕ → (Date → Bool) → ℕ
next_unbilled_index start unit count from billed =
    unbilled_from longest (λ i. period_start start unit count i) billed from

abbrev pub is_after : Date → Option Date → Bool
is_after date none = false
is_after date (some end_on) = ltb (spelled end_on) (spelled date)

-- Each round of the loop adds a period or breaks, so it has `n` rounds at most.
unfoldable pub unbilled_periods :
    Date → Interval → ℕ → ℕ → ℕ → (Date → Bool) → Option Date → List Period
unbilled_periods start unit count from zero billed end_on = []
unbilled_periods start unit count from (suc n) billed end_on =
    let index = next_unbilled_index start unit count from billed in
    let period = period_at start unit count index in
    let rest = unbilled_periods start unit count (index + 1) n billed end_on in
    if is_after period.start end_on then [] else period ∷ rest

abbrev pub remaining_occurrences : Option ℕ → ℕ → Option ℕ
remaining_occurrences none generated = none
remaining_occurrences (some most) generated = some (most - generated)

-- The loop of `contiguous`, with the period before.
abbrev pub follows : ℕ → List Period → Bool
follows index [] = true
follows index (p ∷ ps) = (p.index == index + 1) && follows p.index ps

unfoldable pub contiguous : List Period → Bool
contiguous [] = true
contiguous (p ∷ ps) = follows p.index ps

-- `months > 0 ? months : null`, of a difference that may be negative.
abbrev pub month_count : ℕ → ℕ → Option ℕ
month_count first last = if ltb last first then none else some (last - first + 1)

unfoldable pub whole_months : Date → Date → Option ℕ
whole_months start end =
    if not (start.day == 1) || not (end.day == last_day end.year end.month)
    then none
    else month_count (start.year * 12 + start.month) (end.year * 12 + end.month)
