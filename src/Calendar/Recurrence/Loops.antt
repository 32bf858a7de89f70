-- ===== src/Calendar/Recurrence/Loops.antt =====
-- The periods of packages/core/src/modules/finance/recurrence.ts, and the loops that look for one.
use workloom.Base.{
  ◌≡◌, refl, sym, ap, ◌∙◌, ◌⊎◌, inl, inr, ℕ, zero, suc, ◌+◌, ◌≤◌, Bool, true, false, ◌==◌, leb,
  arith, Bool-cases, same_ℕ, other_ℕ, leb→le, Option, List, [], ◌∷◌,
}
use workloom.Calendar.{Date, IsDate, spelled, next_day, next_day-previous_day, previous_day-last}
use workloom.Calendar.Recurrence.{
  Interval, Period, period_start, period_end, period_at, longest, index_from, period_index_of,
  unbilled_from, next_unbilled_index, is_after, unbilled_periods,
}
use workloom.Calendar.Recurrence.Steps.{period_start-IsDate, period_start-next}

-- The periods of a schedule follow one another: from a date that exists, a period ends no sooner
-- than it starts, and the day after its last is the first of the next, so that no day is billed
-- twice and none is left out.
pub next_day-period_end :
    (start : Date) (unit : Interval) (count index : ℕ)
    → IsDate start
    → 1 ≤ count
    → (spelled (period_start start unit count index) ≤ spelled (period_end start unit count index))
      × (next_day (period_end start unit count index) ≡ period_start start unit count (index + 1))
unfolding period_end
next_day-period_end start unit count index h k =
    let this = period_start-IsDate start unit count index h in
    let next = period_start-IsDate start unit count (index + 1) h in
    (
      previous_day-last (period_start start unit count index)
          (period_start start unit count (index + 1)) this next
          (period_start-next start unit count index h k),
      next_day-previous_day (period_start start unit count (index + 1)) next,
    )

leb→gt : (a b : ℕ) → leb a b ≡ false → suc b ≤ a
leb→gt a b h = ground arith

-- The loop stops at the last start that is not past the date, or when its rounds are used up.
index_from-last :
    (rounds : ℕ) (starts : ℕ → Date) (date : Date) (index : ℕ)
    → spelled (starts index) ≤ spelled date
    → (spelled (starts (index_from rounds starts date index)) ≤ spelled date)
      × ((index_from rounds starts date index ≡ index + rounds)
          ⊎ (suc (spelled date) ≤ spelled (starts (index_from rounds starts date index + 1))))
unfolding index_from
index_from-last zero starts date index h = (h, inl (omega arith))
index_from-last (suc rounds) starts date index h =
    elim (Bool-cases (leb (spelled (starts (index + 1))) (spelled date))) [
      | inl further ↦
          let (low, high) = index_from-last rounds starts date (index + 1) (leb→le _ _ further) in
          rw further (low, elim high [ inl e ↦ inl (omega (arith, e)) | inr past ↦ inr past ])
      | inr here ↦ rw here (h, inr (leb→gt _ _ here))
    ]

from_start :
    (start : Date) (unit : Interval) (count : ℕ) (date : Date)
    → spelled start ≤ spelled date
    → spelled (period_start start unit count 0) ≤ spelled date
unfolding period_start
from_start start unit count date h = h

-- The period of a date that is not before the schedule's start: it starts no later than the date,
-- and ends no sooner, unless the 1200 rounds of the loop are used up.
pub period_index_of-contains :
    (start : Date) (unit : Interval) (count : ℕ) (date : Date)
    → IsDate start
    → IsDate date
    → spelled start ≤ spelled date
    → (spelled (period_start start unit count (period_index_of start unit count date))
        ≤ spelled date)
      × ((period_index_of start unit count date ≡ longest)
          ⊎ (spelled date
              ≤ spelled (period_end start unit count (period_index_of start unit count date))))
unfolding period_index_of period_end
period_index_of-contains start unit count date h d late =
    let starts = λ (i : ℕ). period_start start unit count i in
    let found = index_from longest starts date 0 in
    let (low, high) =
      index_from-last longest starts date 0 (from_start start unit count date late) in
    (
      low,
      elim high [
        | inl used ↦ inl used
        | inr before ↦ inr (
            previous_day-last date (starts (found + 1)) d
              (period_start-IsDate start unit count (found + 1) h) before)
      ],
    )

unbilled_from-first :
    (rounds : ℕ) (starts : ℕ → Date) (billed : Date → Bool) (index : ℕ)
    → (index ≤ unbilled_from rounds starts billed index)
      × ((unbilled_from rounds starts billed index ≡ index + rounds)
          ⊎ (billed (starts (unbilled_from rounds starts billed index)) ≡ false))
      × ((j : ℕ)
          → index ≤ j
          → suc j ≤ unbilled_from rounds starts billed index
          → billed (starts j) ≡ true)
unfolding unbilled_from
unbilled_from-first zero starts billed index =
    (omega arith, inl (omega arith), λ j low high. absurd (omega (arith, low, high)))
unbilled_from-first (suc rounds) starts billed index = elim (Bool-cases (billed (starts index))) [
  | inl done ↦
      let (low, stop, before) = unbilled_from-first rounds starts billed (index + 1) in
      rw done (
        omega (arith, low),
        elim stop [ inl e ↦ inl (omega (arith, e)) | inr free ↦ inr free ],
        λ j from to. elim (Bool-cases (index == j)) [
          | inl same ↦ ap (λ i. billed (starts i)) (sym (same_ℕ index j same)) ∙ done
          | inr other ↦ before j (omega (arith, from, other_ℕ index j other)) to
        ],
      )
  | inr free ↦ rw free (omega arith, inr free, λ j low high. absurd (omega (arith, low, high)))
]

-- The periods that are billed next, from an index: each is the period of its index, has not been
-- billed, and starts no later than the schedule's end; all that are passed over have been billed.
abbrev pub AreNext : Date → Interval → ℕ → (Date → Bool) → Option Date → ℕ → List Period → Type 0
AreNext start unit count billed end_on from [] = Unit
AreNext start unit count billed end_on from (p ∷ ps) =
    (from ≤ p.index)
    × (p ≡ period_at start unit count p.index)
    × (billed (period_start start unit count p.index) ≡ false)
    × (is_after (period_start start unit count p.index) end_on ≡ false)
    × ((j : ℕ) → from ≤ j → suc j ≤ p.index → billed (period_start start unit count j) ≡ true)
    × AreNext start unit count billed end_on (p.index + 1) ps

-- Where no 1200 periods in a row have been billed, what a schedule bills next are periods in their
-- order from the given index, none of them billed before, none starting after the agreement ends,
-- and none left out but those that have been billed.
pub unbilled_periods-AreNext :
    (start : Date) (unit : Interval) (count from n : ℕ) (billed : Date → Bool)
    (end_on : Option Date)
    → ((i : ℕ)
        → ¬ (
            (j : ℕ)
            → i ≤ j
            → suc j ≤ i + longest
            → billed (period_start start unit count j) ≡ true))
    → AreNext start unit count billed end_on from
        (unbilled_periods start unit count from n billed end_on)
unfolding unbilled_periods next_unbilled_index period_at
unbilled_periods-AreNext start unit count from zero billed end_on gap = tt
unbilled_periods-AreNext start unit count from (suc n) billed end_on gap =
    let starts = λ (i : ℕ). period_start start unit count i in
    let index = unbilled_from longest starts billed from in
    let (low, stop, before) = unbilled_from-first longest starts billed from in
    let rest = unbilled_periods-AreNext start unit count (index + 1) n billed end_on gap in
    elim (Bool-cases (is_after (starts index) end_on)) [
      | inl past ↦ rw past tt
      | inr due ↦ rw due (
        low,
        refl,
        elim stop [
          | inr free ↦ free
          | inl used ↦
              absurd (gap from λ j from_low to. before j from_low (omega (arith, used, to)))
        ],
        due,
        before,
        rest,
      )
    ]
