-- ===== src/Projects/PlanSums.antt =====
-- What a billing plan comes to (packages/core/src/modules/projects/billing-plan.ts).
use workloom.Base.{
  ◌≡◌, refl, sym, ap, ◌∙◌, true≢false, ℕ, suc, ◌≤◌, leb, Bool, true, false, if◌then◌else◌, Option,
  none, some, List, [], ◌∷◌, String, str_eq, str_eq_iff, Option-cases, Bool-cases, inl, inr, arith,
}
use workloom.Base.Dict.{Dict, upsert}
use workloom.Base.Int.{ℤ, ◌+ℤ◌, int_laws}
use workloom.Projects.BillingPlan.{
  StageForTotals, live_stages, insert_by_position, sort_by_position, ordered_stages, set_amount,
  get_amount, or_zero, last_pending, is_none, plan_sum, others_sum, is_balance, find_balance,
}

-- How many stages have an id.
abbrev pub occurrences : String → List StageForTotals → ℕ
occurrences id [] = 0
occurrences id (s ∷ ss) = let rest = occurrences id ss in if str_eq s.id id then suc rest else rest

str_eq_refl : (id : String) → str_eq id id ≡ true
str_eq_refl id = (str_eq_iff id id).1 refl

get_amount-set_same :
    (id : String) (v : ℤ) (m : Dict ℤ) → get_amount id (set_amount id v m) ≡ some v
unfolding get_amount upsert
get_amount-set_same id v [] = rw (str_eq_refl id) refl
get_amount-set_same id v ((k, u) ∷ m) = elim (Bool-cases (str_eq k id)) [
  | inl same ↦ rw (same, same) refl
  | inr other ↦ rw (other, other, get_amount-set_same id v m) refl
]

differs : (a b c : String) → str_eq a b ≡ true → str_eq c b ≡ false → str_eq a c ≡ false
differs a b c h k = elim (Bool-cases (str_eq a c)) [
  | inl same ↦ absurd (
      true≢false
        (sym ((str_eq_iff c b).1 (sym ((str_eq_iff a c).0 same) ∙ (str_eq_iff a b).0 h)) ∙ k))
  | inr other ↦ other
]

get_amount-set_other :
    (id key : String) (v : ℤ) (m : Dict ℤ)
    → str_eq key id ≡ false
    → get_amount key (set_amount id v m) ≡ get_amount key m
unfolding get_amount upsert
get_amount-set_other id key v [] h = rw (differs id id key (str_eq_refl id) h) refl
get_amount-set_other id key v ((k, u) ∷ m) h = elim (Bool-cases (str_eq k id)) [
  | inl same ↦ rw (same, differs k id key same h) refl
  | inr other ↦ rw (other, get_amount-set_other id key v m h) refl
]

pub others_sum-set_amount :
    (id : String) (v : ℤ) (m : Dict ℤ) (ss : List StageForTotals)
    → others_sum id (set_amount id v m) ss ≡ others_sum id m ss
unfolding others_sum
others_sum-set_amount id v m [] = refl
others_sum-set_amount id v m (s ∷ ss) = elim (Bool-cases (str_eq s.id id)) [
  | inl same ↦ rw (same, others_sum-set_amount id v m ss) refl
  | inr other ↦
      rw (other, get_amount-set_other id s.id v m other, others_sum-set_amount id v m ss) refl
]

one_more_absurd : (n : ℕ) → ¬ (suc n ≡ 0)
one_more_absurd n h = omega arith

suc_zero : (n : ℕ) → suc n ≡ 1 → n ≡ 0
suc_zero n h = omega arith

plan_sum-absent :
    (id : String) (m : Dict ℤ) (ss : List StageForTotals)
    → occurrences id ss ≡ 0
    → plan_sum m ss ≡ others_sum id m ss
unfolding plan_sum others_sum
plan_sum-absent id m [] h = refl
plan_sum-absent id m (s ∷ ss) h = elim (Bool-cases (str_eq s.id id)) [
  | inl same ↦ absurd (one_more_absurd (occurrences id ss) (rw same at h))
  | inr other ↦ rw (other, plan_sum-absent id m ss (rw other at h)) refl
]

-- The stages of a plan come to one of them and the others.
pub plan_sum-split :
    (id : String) (m : Dict ℤ) (ss : List StageForTotals)
    → occurrences id ss ≡ 1
    → plan_sum m ss ≡ or_zero (get_amount id m) +ℤ others_sum id m ss
unfolding plan_sum others_sum
plan_sum-split id m [] h = absurd (omega (arith, h))
plan_sum-split id m (s ∷ ss) h = elim (Bool-cases (str_eq s.id id)) [
  | inl same ↦
      rw (same, (str_eq_iff s.id id).0 same, plan_sum-absent id m ss (suc_zero _ (rw same at h)))
        refl
  | inr other ↦ rw (other, plan_sum-split id m ss (rw other at h)) (omega int_laws)
]

-- Setting the amount of one stage.
pub plan_sum-set_amount :
    (id : String) (v : ℤ) (m : Dict ℤ) (ss : List StageForTotals)
    → occurrences id ss ≡ 1
    → plan_sum (set_amount id v m) ss ≡ v +ℤ others_sum id m ss
plan_sum-set_amount id v m ss h =
    plan_sum-split id (set_amount id v m) ss h
    ∙ rw (get_amount-set_same id v m, others_sum-set_amount id v m ss) refl

swap_steps :
    (a b : Bool) (n : ℕ)
    → (if a then suc (if b then suc n else n) else (if b then suc n else n))
      ≡ (if b then suc (if a then suc n else n) else (if a then suc n else n))
swap_steps a b n = ground arith

at_most_one_more : (b : Bool) (m n : ℕ) → m ≤ n → m ≤ (if b then suc n else n)
at_most_one_more b m n h = ground arith

one_more_each : (b : Bool) (m n : ℕ) → m ≤ n → (if b then suc m else m) ≤ (if b then suc n else n)
one_more_each b m n h = ground arith

one_or_more : (b : Bool) (n : ℕ) → 1 ≤ n → 1 ≤ (if b then suc n else n)
one_or_more b n h = ground arith

abbrev stage_or : StageForTotals → Option StageForTotals → StageForTotals
stage_or d none = d
stage_or d (some s) = s

found_here :
    (t s : StageForTotals) (ts : List StageForTotals)
    → some t ≡ some s
    → 1 ≤ occurrences s.id (t ∷ ts)
found_here t s ts h = rw (ap (λ o. (stage_or t o).id) h, str_eq_refl s.id) (omega arith)

pub none-some : {s : StageForTotals} → ¬ (none ≡ some s)
none-some h = absurd (cc)

-- Sorting keeps the stages of an id, and the cancelled ones only go.
occurrences-insert :
    (id : String) (s : StageForTotals) (ss : List StageForTotals)
    → occurrences id (insert_by_position s ss) ≡ occurrences id (s ∷ ss)
unfolding insert_by_position
occurrences-insert id s [] = refl
occurrences-insert id s (t ∷ ts) = elim (Bool-cases (leb s.position t.position)) [
  | inl before ↦ rw before refl
  | inr after ↦
      rw (after, occurrences-insert id s ts) (swap_steps (str_eq t.id id) (str_eq s.id id) _)
]

occurrences-sort :
    (id : String) (ss : List StageForTotals)
    → occurrences id (sort_by_position ss) ≡ occurrences id ss
unfolding sort_by_position
occurrences-sort id [] = refl
occurrences-sort id (s ∷ ss) =
    occurrences-insert id s (sort_by_position ss) ∙ rw (occurrences-sort id ss) refl

occurrences-live_stages :
    (id : String) (ss : List StageForTotals) → occurrences id (live_stages ss) ≤ occurrences id ss
unfolding live_stages
occurrences-live_stages id [] = omega arith
occurrences-live_stages id (s ∷ ss) =
    let ih = occurrences-live_stages id ss in
    elim (Bool-cases (str_eq s.status "cancelled")) [
      | inl gone ↦ rw gone (at_most_one_more (str_eq s.id id) _ _ ih)
      | inr live ↦ rw live (one_more_each (str_eq s.id id) _ _ ih)
    ]

pub occurrences-ordered_stages :
    (id : String) (ss : List StageForTotals)
    → occurrences id (ordered_stages ss) ≤ occurrences id ss
occurrences-ordered_stages id ss =
    rw (occurrences-sort id (live_stages ss)) (occurrences-live_stages id ss)

-- A stage that was found is one of the plan's.
pub last_pending-occurs :
    (ss : List StageForTotals) (s : StageForTotals)
    → last_pending ss ≡ some s
    → 1 ≤ occurrences s.id ss
unfolding last_pending
last_pending-occurs [] s h = absurd (cc)
last_pending-occurs (t ∷ ts) s h = elim (Option-cases (last_pending ts)) [
  | inl nobody ↦ elim (Bool-cases (is_none t.released_amount)) [
    | inl pending ↦ found_here t s ts (rw (nobody, pending) at h)
    | inr released ↦ absurd (none-some (rw (nobody, released) at h))
  ]
  | inr (l, e) ↦ one_or_more (str_eq t.id s.id) _ (last_pending-occurs ts s (e ∙ rw e at h))
]

pub find_balance-occurs :
    (ss : List StageForTotals) (s : StageForTotals)
    → find_balance ss ≡ some s
    → 1 ≤ occurrences s.id ss
unfolding find_balance
find_balance-occurs [] s h = absurd (cc)
find_balance-occurs (t ∷ ts) s h = elim (Bool-cases (is_balance t)) [
  | inl this ↦ found_here t s ts (rw this at h)
  | inr other ↦ one_or_more (str_eq t.id s.id) _ (find_balance-occurs ts s (rw other at h))
]
