-- ===== src/Projects/PlanExact.antt =====
-- When a billing plan comes to exactly the contract
-- (packages/core/src/modules/projects/billing-plan.ts).
use workloom.Base.{
  ◌≡◌, refl, sym, ◌∙◌, true≢false, ◌≤◌, Bool, true, false, not, ◌&&◌, ◌||◌, none, some, List, [],
  ◌∷◌, String, str_eq, str_eq_iff, ok, on_ok, ok_inj, Bool-cases, inl, inr, arith,
}
use workloom.Base.Dict.{Dict}
use workloom.Base.Int.{ℤ, pos, ◌+ℤ◌, ◌-ℤ◌, ◌≤ℤ◌, int_laws}
use workloom.Projects.BillingPlan.{
  StageForTotals, PlanTotals, ordered_stages, set_amount, get_amount, or_zero, first_amounts,
  last_pending, all_shares, is_none, is_nonempty_plan, is_hundred, percent_sum, plan_sum,
  others_sum, absorb_remainder, is_balance, find_balance, max_zero, set_balance_of, set_balance,
  plan_totals,
}
use workloom.Projects.PlanSums.{
  occurrences, occurrences-ordered_stages, last_pending-occurs, find_balance-occurs, plan_sum-split,
  plan_sum-set_amount, others_sum-set_amount, none-some,
}

-- No two stages have one id.
abbrev pub AllDistinct : List StageForTotals → Type 0
AllDistinct stages = (id : String) → occurrences id stages ≤ 1

once :
    (stages : List StageForTotals) (id : String)
    → AllDistinct stages
    → 1 ≤ occurrences id (ordered_stages stages)
    → occurrences id (ordered_stages stages) ≡ 1
once stages id h k = omega (arith, h id, occurrences-ordered_stages id stages)

not_both : (a b : Bool) → not b ≡ true → (a && b) ≡ false
not_both a b h = ground arith

and_true : (a b : Bool) → (a && b) ≡ true → (a ≡ true) × (b ≡ true)
and_true true b h = (refl, h)
and_true false b h = absurd (true≢false (sym h))

is_balance-share :
    (s : StageForTotals)
    → (str_eq s.basis "percent" || not (is_none s.released_amount)) ≡ true
    → is_balance s ≡ false
is_balance-share s h = elim (Bool-cases (str_eq s.basis "percent")) [
  | inl percent ↦ rw ((str_eq_iff s.basis "percent").0 percent) refl
  | inr other ↦ not_both (str_eq s.basis "balance") (is_none s.released_amount) (rw other at h)
]

find_balance-all_shares : (ss : List StageForTotals) → all_shares ss ≡ true → find_balance ss ≡ none
unfolding find_balance all_shares
find_balance-all_shares [] h = refl
find_balance-all_shares (s ∷ ss) h =
    let parts =
      and_true (str_eq s.basis "percent" || not (is_none s.released_amount)) (all_shares ss) h in
    rw (is_balance-share s parts.0) (find_balance-all_shares ss parts.1)

is_nonempty_plan-last_pending :
    (ss : List StageForTotals) {s : StageForTotals}
    → last_pending ss ≡ some s
    → is_nonempty_plan ss ≡ true
unfolding last_pending
is_nonempty_plan-last_pending [] h = absurd (none-some h)
is_nonempty_plan-last_pending (s ∷ ss) h = refl

-- The stage that takes the remainder makes the sum what was contracted.
plan_sum-absorbed :
    (c : ℤ) (ordered : List StageForTotals) (m : Dict ℤ) (last : StageForTotals)
    → occurrences last.id ordered ≡ 1
    → plan_sum
        (set_amount last.id (or_zero (get_amount last.id m) +ℤ (c -ℤ plan_sum m ordered)) m)
        ordered
      ≡ c
plan_sum-absorbed c ordered m last h =
    plan_sum-set_amount last.id _ m ordered h
    ∙ rw (plan_sum-split last.id m ordered h) (omega int_laws)

absorb_remainder-eq :
    (near : Bool) (c : ℤ) (ordered : List StageForTotals) (m : Dict ℤ) (last : StageForTotals)
    → last_pending ordered ≡ some last
    → all_shares ordered ≡ true
    → is_hundred near (percent_sum ordered) ≡ true
    → absorb_remainder near (some c) ordered m
      ≡ set_amount last.id (or_zero (get_amount last.id m) +ℤ (c -ℤ plan_sum m ordered)) m
absorb_remainder-eq near c ordered m last l a s =
    rw (l, is_nonempty_plan-last_pending ordered l, a, s) refl

sub_self : (a : ℤ) → a -ℤ a ≡ pos 0
sub_self a = omega int_laws

max_zero_self : (a : ℤ) → max_zero (a -ℤ a) ≡ pos 0
max_zero_self a = rw (sub_self a) refl

-- A plan that is all in percentages, or already released, whose percentages pass for a
-- hundred and which has a stage still to be billed, comes to exactly the contract, whatever the roundings:
-- nothing is planned beyond it and nothing is short. The stages' ids are distinct.
pub plan_totals-whole :
    (near : Bool) (c : ℤ) (stages : List StageForTotals) {t : PlanTotals} {last : StageForTotals}
    → AllDistinct stages
    → last_pending (ordered_stages stages) ≡ some last
    → all_shares (ordered_stages stages) ≡ true
    → is_hundred near (percent_sum (ordered_stages stages)) ≡ true
    → plan_totals near (some c) stages ≡ ok t
    → (t.planned ≡ c) × (t.over_committed ≡ pos 0)
unfolding plan_totals
plan_totals-whole near c stages {t} {last} d l a s h =
    let ordered = ordered_stages stages in
    on_ok (first_amounts (some c) ordered []) _ h λ first e h1.
      let whole : plan_sum
            (set_balance (some c) ordered (absorb_remainder near (some c) ordered first)) ordered
          ≡ c =
        rw (find_balance-all_shares ordered a, absorb_remainder-eq near c ordered first last l a s)
          (plan_sum-absorbed c ordered first last
            (once stages last.id d (last_pending-occurs ordered last l))) in
      rw (← ok_inj h1) (whole, rw whole (max_zero_self c))

-- The sum of a plan whose balance has been set.
plan_sum-balanced :
    (c : ℤ) (ordered : List StageForTotals) (m : Dict ℤ) (balance : StageForTotals)
    → occurrences balance.id ordered ≡ 1
    → plan_sum (set_balance_of (some c) ordered m (some balance)) ordered
      ≡ max_zero (c -ℤ others_sum balance.id m ordered) +ℤ others_sum balance.id m ordered
plan_sum-balanced c ordered m balance h = plan_sum-set_amount balance.id _ m ordered h

max_zero-nonneg : (a : ℤ) → pos 0 ≤ℤ a → max_zero a ≡ a
max_zero-nonneg a h = ground arith

max_zero-nonpos : (a : ℤ) → a ≤ℤ pos 0 → max_zero a ≡ pos 0
max_zero-nonpos a h = ground arith

-- What the balance and the others come to.
balance_covers :
    (c others planned : ℤ)
    → planned ≡ max_zero (c -ℤ others) +ℤ others
    → (others ≤ℤ c → (planned ≡ c) × (max_zero (planned -ℤ c) ≡ pos 0))
      × (c ≤ℤ others → planned ≡ others)
balance_covers c others planned h = (
  λ few.
      let all : planned ≡ c =
        h ∙ rw (max_zero-nonneg (c -ℤ others) (omega int_laws)) (omega int_laws) in
      (all, rw all (max_zero_self c)),
  λ many. h ∙ rw (max_zero-nonpos (c -ℤ others) (omega int_laws)) (omega int_laws),
)

-- A plan with a balance stage comes to the contract, or to what its other stages come to where
-- that is more: in the first case nothing is planned beyond the contract. The stages' ids are
-- distinct.
pub plan_totals-balance :
    (near : Bool) (c : ℤ) (stages : List StageForTotals) {t : PlanTotals} {balance : StageForTotals}
    → AllDistinct stages
    → find_balance (ordered_stages stages) ≡ some balance
    → plan_totals near (some c) stages ≡ ok t
    → (others_sum balance.id t.stage_amounts (ordered_stages stages) ≤ℤ c
        → (t.planned ≡ c) × (t.over_committed ≡ pos 0))
      × (c ≤ℤ others_sum balance.id t.stage_amounts (ordered_stages stages)
          → t.planned ≡ others_sum balance.id t.stage_amounts (ordered_stages stages))
unfolding plan_totals
plan_totals-balance near c stages {t} {balance} d b h =
    let ordered = ordered_stages stages in
    on_ok (first_amounts (some c) ordered []) _ h λ first e h1.
      let m = absorb_remainder near (some c) ordered first in
      rw (← ok_inj h1, b, others_sum-set_amount balance.id _ m ordered)
        (balance_covers c (others_sum balance.id m ordered) _ (
          plan_sum-balanced c ordered m balance
            (once stages balance.id d (find_balance-occurs ordered balance b))))
