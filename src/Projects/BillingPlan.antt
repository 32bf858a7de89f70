-- ===== src/Projects/BillingPlan.antt =====
-- packages/core/src/modules/projects/billing-plan.ts: what a project's billing plan adds up to.
use workloom.Base.{
  ℕ, leb, ◌==◌, Bool, true, false, not, ◌&&◌, ◌||◌, if◌then◌else◌, Option, none, some, List, [],
  ◌∷◌, String, str_eq, Result, ok, err, ◌>>=◌,
}
use workloom.Base.Dict.{Dict, upsert}
use workloom.Base.Int.{ℤ, pos, ◌+ℤ◌, ◌-ℤ◌, abs_ℤ, is_negative}
use workloom.Money.{percentage, to_safe_number, decimal_scale, hundred_percent}
use workloom.Money.Decimal.{Text, parse_decimal}

pub record StageForTotals : Type 0 where
  pub id : String
  pub position : ℕ
  pub basis : String
  pub percent : Option Text
  pub amount : Option ℤ
  pub status : String
  pub released_amount : Option ℤ
  pub invoice_status : Option String

pub record PlanTotals : Type 0 where
  pub planned : ℤ
  pub released : ℤ
  pub remaining : Option ℤ
  pub over_committed : ℤ
  pub stage_amounts : Dict ℤ

unfoldable pub share_of : ℤ → Text → Result ℤ
share_of contracted percent = percentage contracted percent >>= to_safe_number

abbrev is_text : Option String → String → Bool
is_text none s = false
is_text (some t) s = str_eq t s

abbrev pub counts : StageForTotals → Bool
counts stage = str_eq stage.status "invoiced" && not (is_text stage.invoice_status "cancelled")

-- `input.stages.filter((s) => s.status !== 'cancelled')`.
unfoldable pub live_stages : List StageForTotals → List StageForTotals
live_stages [] = []
live_stages (s ∷ ss) =
    let rest = live_stages ss in if str_eq s.status "cancelled" then rest else s ∷ rest

-- `sort((a, b) => a.position - b.position)`, which is stable.
unfoldable pub insert_by_position : StageForTotals → List StageForTotals → List StageForTotals
insert_by_position s [] = s ∷ []
insert_by_position s (t ∷ ts) =
    let rest = insert_by_position s ts in if leb s.position t.position then s ∷ t ∷ ts else t ∷ rest

unfoldable pub sort_by_position : List StageForTotals → List StageForTotals
sort_by_position [] = []
sort_by_position (s ∷ ss) = insert_by_position s (sort_by_position ss)

abbrev pub ordered_stages : List StageForTotals → List StageForTotals
ordered_stages stages = sort_by_position (live_stages stages)

-- `stageAmounts.set(id, v)`.
abbrev pub set_amount : String → ℤ → Dict ℤ → Dict ℤ
set_amount id v amounts = upsert id (λ _. v) amounts

-- `stageAmounts.get(id)`.
unfoldable pub get_amount : String → Dict ℤ → Option ℤ
get_amount id [] = none
get_amount id ((k, v) ∷ m) = let rest = get_amount id m in if str_eq k id then some v else rest

-- `?? 0`.
abbrev pub or_zero : Option ℤ → ℤ
or_zero none = pos 0
or_zero (some v) = v

abbrev pub share_or_zero : Option ℤ → Option Text → Result ℤ
share_or_zero (some contracted) (some percent) = share_of contracted percent
share_or_zero none percent = ok (pos 0)
share_or_zero (some contracted) none = ok (pos 0)

-- The amount of a stage that is not the balance, and none for a stage that is.
abbrev pub stage_amount : Option ℤ → StageForTotals → Option ℤ → Result (Option ℤ)
stage_amount contracted stage (some released) = ok (some released)
stage_amount contracted stage none =
    if str_eq stage.basis "amount"
    then ok (some (or_zero stage.amount))
    else (if str_eq stage.basis "balance"
        then ok none
        else (share_or_zero contracted stage.percent >>= λ share. ok (some share)))

abbrev pub set_stage : String → Option ℤ → Dict ℤ → Dict ℤ
set_stage id none amounts = amounts
set_stage id (some v) amounts = set_amount id v amounts

-- The first loop.
unfoldable pub first_amounts : Option ℤ → List StageForTotals → Dict ℤ → Result (Dict ℤ)
first_amounts contracted [] amounts = ok amounts
first_amounts contracted (stage ∷ stages) amounts = do
  v ← stage_amount contracted stage stage.released_amount
  first_amounts contracted stages (set_stage stage.id v amounts)

abbrev pub is_none : Option ℤ → Bool
is_none none = true
is_none (some v) = false

-- `ordered.filter((s) => s.releasedAmountMinor === null).at(-1)`.
unfoldable pub last_pending : List StageForTotals → Option StageForTotals
last_pending [] = none
last_pending (s ∷ ss) = elim (last_pending ss) [
  | some last ↦ some last
  | none ↦ if is_none s.released_amount then some s else none
]

unfoldable pub all_shares : List StageForTotals → Bool
all_shares [] = true
all_shares (s ∷ ss) = (str_eq s.basis "percent" || not (is_none s.released_amount)) && all_shares ss

abbrev pub is_nonempty_plan : List StageForTotals → Bool
is_nonempty_plan [] = false
is_nonempty_plan (s ∷ ss) = true

-- `Number(s.percent)`, in units of 0.0001: the column has 4 decimals. None is NaN.
abbrev pub percent_number : Option Text → Option ℤ
percent_number none = some (pos 0)
percent_number (some percent) = elim (parse_decimal percent decimal_scale none) [
  | ok n ↦ some n
  | err e ↦ none
]

abbrev pub add_number : Option ℤ → Option ℤ → Option ℤ
add_number (some a) (some b) = some (a +ℤ b)
add_number none b = none
add_number (some a) none = none

unfoldable pub percent_sum : List StageForTotals → Option ℤ
percent_sum [] = some (pos 0)
percent_sum (s ∷ ss) = add_number (percent_number s.percent) (percent_sum ss)

-- `Math.abs(shares - 100) < 0.0001`, in units of 0.0001. The source sums floating-point numbers:
-- of a sum that is one unit off, rounding decides, and `near` is what it decides.
abbrev pub is_hundred : Bool → Option ℤ → Bool
is_hundred near none = false
is_hundred near (some n) =
    let off = abs_ℤ (n -ℤ pos hundred_percent) in (off == 0) || ((off == 1) && near)

-- The sum of what the stages are worth.
unfoldable pub plan_sum : Dict ℤ → List StageForTotals → ℤ
plan_sum amounts [] = pos 0
plan_sum amounts (s ∷ ss) = or_zero (get_amount s.id amounts) +ℤ plan_sum amounts ss

-- The same without the stages of an id.
unfoldable pub others_sum : String → Dict ℤ → List StageForTotals → ℤ
others_sum id amounts [] = pos 0
others_sum id amounts (s ∷ ss) =
    let rest = others_sum id amounts ss in
    if str_eq s.id id then rest else or_zero (get_amount s.id amounts) +ℤ rest

-- The last stage to be billed takes what remains of a contract that is all in shares.
abbrev pub absorb_in :
    Bool → Option ℤ → List StageForTotals → Dict ℤ → Option StageForTotals → Dict ℤ
absorb_in near (some contracted) ordered amounts (some last) =
    if is_nonempty_plan ordered && all_shares ordered && is_hundred near (percent_sum ordered)
    then set_amount last.id
        (or_zero (get_amount last.id amounts) +ℤ (contracted -ℤ plan_sum amounts ordered)) amounts
    else amounts
absorb_in near none ordered amounts last = amounts
absorb_in near (some contracted) ordered amounts none = amounts

abbrev pub absorb_remainder : Bool → Option ℤ → List StageForTotals → Dict ℤ → Dict ℤ
absorb_remainder near contracted ordered amounts =
    absorb_in near contracted ordered amounts (last_pending ordered)

abbrev pub is_balance : StageForTotals → Bool
is_balance s = str_eq s.basis "balance" && is_none s.released_amount

unfoldable pub find_balance : List StageForTotals → Option StageForTotals
find_balance [] = none
find_balance (s ∷ ss) = let rest = find_balance ss in if is_balance s then some s else rest

-- `Math.max(0, n)`.
abbrev pub max_zero : ℤ → ℤ
max_zero n = if is_negative n then pos 0 else n

abbrev pub left_over : Option ℤ → ℤ → ℤ
left_over none others = pos 0
left_over (some contracted) others = max_zero (contracted -ℤ others)

abbrev pub set_balance_of : Option ℤ → List StageForTotals → Dict ℤ → Option StageForTotals → Dict ℤ
set_balance_of contracted ordered amounts none = amounts
set_balance_of contracted ordered amounts (some balance) =
    set_amount balance.id (left_over contracted (others_sum balance.id amounts ordered)) amounts

abbrev pub set_balance : Option ℤ → List StageForTotals → Dict ℤ → Dict ℤ
set_balance contracted ordered amounts =
    set_balance_of contracted ordered amounts (find_balance ordered)

unfoldable pub released_sum : List StageForTotals → ℤ
released_sum [] = pos 0
released_sum (s ∷ ss) =
    let rest = released_sum ss in if counts s then or_zero s.released_amount +ℤ rest else rest

abbrev pub minus : Option ℤ → ℤ → Option ℤ
minus none n = none
minus (some contracted) n = some (contracted -ℤ n)

abbrev pub beyond : Option ℤ → ℤ → ℤ
beyond none planned = pos 0
beyond (some contracted) planned = max_zero (planned -ℤ contracted)

unfoldable pub plan_totals : Bool → Option ℤ → List StageForTotals → Result PlanTotals
plan_totals near contracted stages = do
  let ordered = ordered_stages stages
  first ← first_amounts contracted ordered []
  let amounts = set_balance contracted ordered (absorb_remainder near contracted ordered first)
  ok (record {
    planned = plan_sum amounts ordered;
    released = released_sum stages;
    remaining = minus contracted (released_sum stages);
    over_committed = beyond contracted (plan_sum amounts ordered);
    stage_amounts = amounts;
  })
