-- ===== src/Tests/Plans.antt =====
-- Billing plans at concrete inputs: two halves of an odd price, and a deposit with a balance.
use workloom.Base.{
  ◌≡◌, refl, Bool, false, true, ◌&&◌, if◌then◌else◌, suc, ℕ, ◌≤◌, none, some, List, [], ◌∷◌, ok,
  String, str_eq, str_eq_iff, Bool-cases, inl, inr, arith,
}
use workloom.Base.Dict.{upsert}
use workloom.Base.Int.{pos, ◌+ℤ◌, ◌-ℤ◌, ◌*ℤ◌, neg_ℤ, ◌≤ℤ◌}
use workloom.Money.{
  percentage, parse_percent, multiply_by_rational, round_div, round_pos, round_magnitude, quot, rem,
  to_safe_number,
}
use workloom.Money.Decimal.{parse_decimal}
use workloom.Projects.BillingPlan.{
  StageForTotals, PlanTotals, live_stages, insert_by_position, sort_by_position, ordered_stages,
  get_amount, share_of, first_amounts, last_pending, all_shares, percent_sum, is_hundred, plan_sum,
  others_sum, find_balance, released_sum, plan_totals,
}
use workloom.Projects.PlanExact.{AllDistinct, plan_totals-whole, plan_totals-balance}

engine : Unit {0}
unfolding upsert ◌+ℤ◌ ◌-ℤ◌ ◌*ℤ◌ neg_ℤ percentage parse_percent multiply_by_rational round_div
    round_pos round_magnitude quot rem to_safe_number parse_decimal live_stages insert_by_position
    sort_by_position get_amount share_of first_amounts last_pending all_shares percent_sum plan_sum
    others_sum find_balance released_sum plan_totals
engine = tt

abbrev half : String → ℕ → StageForTotals
half id position = record {
  id = id;
  position = position;
  basis = "percent";
  percent = some (b'5' ∷ b'0' ∷ []);
  amount = none;
  status = "pending";
  released_amount = none;
  invoice_status = none;
}

abbrev halves : List StageForTotals
halves = half "b" 2 ∷ half "a" 1 ∷ []

-- Half of 101 is rounded up once: the later stage is a unit short.
abbrev in_halves : PlanTotals
in_halves = record {
  planned = pos 101;
  released = pos 0;
  remaining = some (pos 101);
  over_committed = pos 0;
  stage_amounts = ("a", pos 51) ∷ ("b", pos 50) ∷ [];
}

plan_totals-halves : plan_totals false (some (pos 101)) halves ≡ ok in_halves
unfolding engine
plan_totals-halves = refl

one_at_most :
    (a b : Bool)
    → (a && b) ≡ false
    → (if a then suc (if b then 1 else 0) else (if b then 1 else 0)) ≤ 1
one_at_most a b h = ground arith

distinct : (s t : StageForTotals) → str_eq t.id s.id ≡ false → AllDistinct (s ∷ t ∷ [])
distinct s t k id =
    one_at_most (str_eq s.id id) (str_eq t.id id) (elim (Bool-cases (str_eq s.id id)) [
      | inl first ↦ rw first (rw ((str_eq_iff s.id id).0 first) at k)
      | inr other ↦ rw other refl
    ])

halves-last : last_pending (ordered_stages halves) ≡ some (half "b" 2)
unfolding engine
halves-last = refl

halves-shares :
    (all_shares (ordered_stages halves) ≡ true)
    × (is_hundred false (percent_sum (ordered_stages halves)) ≡ true)
unfolding engine
halves-shares = (refl, refl)

plan_totals-whole_example : (in_halves.planned ≡ pos 101) × (in_halves.over_committed ≡ pos 0)
plan_totals-whole_example =
    plan_totals-whole false (pos 101) halves {t = in_halves}
      (distinct (half "b" 2) (half "a" 1) refl) halves-last halves-shares.0 halves-shares.1
      plan_totals-halves

abbrev deposit : StageForTotals
deposit = record (half "a" 1) { basis = "amount"; percent = none; amount = some (pos 60) }

abbrev balance : StageForTotals
balance = record (half "b" 2) { basis = "balance"; percent = none }

abbrev with_balance : PlanTotals
with_balance = record {
  planned = pos 100;
  released = pos 0;
  remaining = some (pos 100);
  over_committed = pos 0;
  stage_amounts = ("a", pos 60) ∷ ("b", pos 40) ∷ [];
}

plan_totals-with_balance :
    plan_totals false (some (pos 100)) (deposit ∷ balance ∷ []) ≡ ok with_balance
unfolding engine
plan_totals-with_balance = refl

found : find_balance (ordered_stages (deposit ∷ balance ∷ [])) ≡ some balance
unfolding engine
found = refl

plan_totals-balance_example :
    (others_sum "b" with_balance.stage_amounts (ordered_stages (deposit ∷ balance ∷ [])) ≤ℤ pos 100
      → (with_balance.planned ≡ pos 100) × (with_balance.over_committed ≡ pos 0))
    × (pos 100
          ≤ℤ others_sum "b" with_balance.stage_amounts (ordered_stages (deposit ∷ balance ∷ []))
        → with_balance.planned
          ≡ others_sum "b" with_balance.stage_amounts (ordered_stages (deposit ∷ balance ∷ [])))
plan_totals-balance_example =
    plan_totals-balance false (pos 100) (deposit ∷ balance ∷ []) {t = with_balance}
      (distinct deposit balance refl) found plan_totals-with_balance
