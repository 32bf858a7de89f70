-- ===== src/Invoices/Settlement.antt =====
-- packages/core/src/modules/finance/settlement.ts: what state an issued invoice is in. Dates are
-- the texts `YYYY-MM-DD`, compared as JavaScript compares strings; an instant is a number.
use workloom.Base.{
  ℕ, ◌≡◌, ◌⊎◌, inl, inr, refl, Bool, true, false, ◌&&◌, if◌then◌else◌, ltb, ◌==◌, Option, none,
  some, [], ◌∷◌, arith, leb→le, le→leb,
}
use workloom.Base.Int.{ℤ, pos, ◌+ℤ◌, ◌-ℤ◌, ltb_ℤ, leb_ℤ, int_laws}
use workloom.Money.Decimal.{Text}

-- `<` on strings: by the first code unit that differs, a proper prefix first.
abbrev pub text_lt : Text → Text → Bool
text_lt [] [] = false
text_lt [] (b ∷ bs) = true
text_lt (a ∷ as') [] = false
text_lt (a ∷ as') (b ∷ bs) = if a == b then text_lt as' bs else ltb a b

pub data SettlementStatus : Type 0 where
  sent viewed partially_paid paid overdue refunded : SettlementStatus

pub record Settlement : Type 0 where
  pub total : ℤ
  pub amount_paid : ℤ
  pub refunded_amount : ℤ
  pub due_date : Option Text
  pub was_viewed : Bool
  pub today : Text

-- `s.dueDate !== null && s.dueDate < s.today`.
abbrev pub past_due : Option Text → Text → Bool
past_due none today = false
past_due (some due) today = text_lt due today

-- The four rules in their order, then what the client has seen.
abbrev pub by_rules : Bool → Bool → Bool → Bool → Bool → SettlementStatus
by_rules given_back covered late part seen =
    if given_back
    then refunded
    else if covered
    then paid
    else if late
    then overdue
    else if part
    then partially_paid
    else if seen
    then viewed
    else sent

abbrev pub is_given_back : Settlement → Bool
is_given_back s = ltb_ℤ (pos 0) s.refunded_amount && leb_ℤ s.amount_paid (pos 0)

abbrev pub is_covered : Settlement → Bool
is_covered s = leb_ℤ (s.total -ℤ s.amount_paid) (pos 0)

unfoldable pub settlement_status : Settlement → SettlementStatus
settlement_status s =
    by_rules (is_given_back s) (is_covered s) (past_due s.due_date s.today)
      (ltb_ℤ (pos 0) s.amount_paid) s.was_viewed

-- The keys of `ANNOUNCES`; `none` is no event.
pub data SettlementEvent : Type 0 where
  invoice_partially_paid invoice_paid invoice_overdue invoice_refunded : SettlementEvent

unfoldable pub announces : SettlementStatus → Option SettlementEvent
announces partially_paid = some invoice_partially_paid
announces paid = some invoice_paid
announces overdue = some invoice_overdue
announces refunded = some invoice_refunded
announces sent = none
announces viewed = none

unfoldable pub status_eq : SettlementStatus → SettlementStatus → Bool
status_eq sent sent = true
status_eq viewed viewed = true
status_eq partially_paid partially_paid = true
status_eq paid paid = true
status_eq overdue overdue = true
status_eq refunded refunded = true
status_eq a b = false

unfoldable pub settlement_event : SettlementStatus → SettlementStatus → Option SettlementEvent
unfolding announces status_eq
settlement_event from to = if status_eq from to then none else announces to

unfoldable pub paid_at : SettlementStatus → Option ℕ → ℕ → Option ℕ
paid_at paid none now = some now
paid_at paid (some t) now = some t
paid_at refunded existing now = existing
paid_at sent existing now = none
paid_at viewed existing now = none
paid_at partially_paid existing now = none
paid_at overdue existing now = none

-- Nothing to chase: what the invoice asks for is covered, or all of it has been given back.
abbrev pub IsClosed : SettlementStatus → Type 0
IsClosed s = (s ≡ paid) ⊎ (s ≡ refunded)

-- Time alone closes no invoice and reopens none.
abbrev pub on_day : Settlement → Text → Settlement
on_day s day = record s { today = day }

text_lt_trans : (a b c : Text) → text_lt a b ≡ true → text_lt b c ≡ true → text_lt a c ≡ true
text_lt_trans [] [] c p q = cc
text_lt_trans [] (b ∷ bs) [] p q = cc
text_lt_trans [] (b ∷ bs) (c ∷ cs) p q = refl
text_lt_trans (a ∷ as') [] c p q = cc
text_lt_trans (a ∷ as') (b ∷ bs) [] p q = cc
text_lt_trans (a ∷ as') (b ∷ bs) (c ∷ cs) p q = ground (arith, text_lt_trans as' bs cs)

-- `day` is not after `later`.
abbrev pub NotAfter : Text → Text → Type 0
NotAfter day later = (day ≡ later) ⊎ (text_lt day later ≡ true)

past_due_mono :
    (due : Option Text) (day later : Text)
    → NotAfter day later
    → past_due due day ≡ true
    → past_due due later ≡ true
past_due_mono none day later h e = cc
past_due_mono (some d) day later (inl same) e = rw (← same) e
past_due_mono (some d) day later (inr before) e = text_lt_trans d day later e before

open_rules : (part seen : Bool) → ¬ (IsClosed (by_rules false false false part seen))
open_rules true seen = λ c. ground arith
open_rules false true = λ c. ground arith
open_rules false false = λ c. ground arith

-- What a change of the third rule can do.
later_rules :
    (r c o o' q v : Bool)
    → (o ≡ true → o' ≡ true)
    → (by_rules r c o' q v ≡ by_rules r c o q v)
      ⊎ ((by_rules r c o' q v ≡ overdue) × ¬ (IsClosed (by_rules r c o q v)))
later_rules true c o o' q v h = inl refl
later_rules false true o o' q v h = inl refl
later_rules false false true true q v h = inl refl
later_rules false false true false q v h = absurd (cc (h refl))
later_rules false false false false q v h = inl refl
later_rules false false false true q v h = inr (refl, open_rules q v)

-- As the days pass and nothing else changes, an invoice keeps its status, or one that is neither
-- paid nor refunded becomes overdue.
pub settlement_status_later :
    (s : Settlement) (later : Text)
    → NotAfter s.today later
    → (settlement_status (on_day s later) ≡ settlement_status s)
      ⊎ ((settlement_status (on_day s later) ≡ overdue) × ¬ (IsClosed (settlement_status s)))
unfolding settlement_status
settlement_status_later s later h =
    later_rules (is_given_back s) (is_covered s) (past_due s.due_date s.today)
      (past_due s.due_date later) (ltb_ℤ (pos 0) s.amount_paid) s.was_viewed
      (past_due_mono s.due_date s.today later h)

-- `amount` more has been paid.
abbrev pub pay : Settlement → ℕ → Settlement
pay s amount = record s { amount_paid = s.amount_paid +ℤ pos amount }

pub and_true : (a b : Bool) → (a && b) ≡ true → (a ≡ true) × (b ≡ true)
and_true true b h = (refl, h)
and_true false b h = absurd (cc)

covered-pay : (s : Settlement) (amount : ℕ) → is_covered s ≡ true → is_covered (pay s amount) ≡ true
covered-pay s amount h = le→leb _ _ (omega (int_laws, leb→le _ _ h))

given_back-pay :
    (s : Settlement) (amount : ℕ) → is_given_back (pay s amount) ≡ true → is_given_back s ≡ true
given_back-pay s amount h =
    let (refunds, unpaid) = and_true (ltb_ℤ (pos 0) s.refunded_amount) _ h in
    rw refunds (le→leb _ _ (omega (int_laws, leb→le _ _ unpaid)))

-- What a payment does to the rules.
module _ (r r' c c' o q q' v : Bool) (given_back_before : r' ≡ true → r ≡ true)
    (covered_after : c ≡ true → c' ≡ true) where
  stays_paid : by_rules r c o q v ≡ paid → by_rules r' c' o q' v ≡ paid
  stays_paid e = ground arith

  was_late :
      by_rules r' c' o q' v ≡ overdue
      → (by_rules r c o q v ≡ overdue) ⊎ (by_rules r c o q v ≡ refunded)
  was_late e = ground arith

-- A payment leaves a paid invoice paid, and makes no invoice overdue that was not, unless all
-- that had been paid on it was given back.
pub settlement_status-pay :
    (s : Settlement) (amount : ℕ)
    → (settlement_status s ≡ paid → settlement_status (pay s amount) ≡ paid)
      × (settlement_status (pay s amount) ≡ overdue
          → (settlement_status s ≡ overdue) ⊎ (settlement_status s ≡ refunded))
unfolding settlement_status
settlement_status-pay s amount = (
  stays_paid _ _ _ _ _ _ _ _ (given_back-pay s amount) (covered-pay s amount),
  was_late (is_given_back s) _ (is_covered s) _ (past_due s.due_date s.today)
      (ltb_ℤ (pos 0) s.amount_paid) _ s.was_viewed (given_back-pay s amount) (covered-pay s amount),
)
