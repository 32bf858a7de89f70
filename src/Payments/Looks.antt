-- ===== src/Payments/Looks.antt =====
-- One look of packages/core/src/modules/finance/payments.ts at an invoice that may be late.
use workloom.Base.{
  ◌≡◌, refl, sym, ap, ◌∙◌, true≢false, ℕ, Bool, true, false, ◌&&◌, Option, none, some, String,
  str_eq, str_eq_iff, ok, Bool-cases, inl, inr, ◌⊎◌,
}
use workloom.Base.Int.{ℤ, pos, ltb_ℤ}
use workloom.Money.Decimal.{Text}
use workloom.Invoices.Settlement.{
  SettlementStatus, sent, viewed, partially_paid, paid, overdue, refunded, settlement_status,
  by_rules, is_given_back, is_covered, past_due, status_eq, paid_at, and_true,
}
use workloom.Payments.Store.{InvoiceRow, InvoiceStatus, draft, cancelled, issued, Store}
use workloom.Payments.Sums.{put_cases, str_ne_comm}
use workloom.Payments.Ledger.{IsLedger, invoice_id}
use workloom.Payments.Settle.{
  Context, largest_int, refunded_sum, refunded_against, settlement_of, same_time, move_to,
  move_settled, settle_invoice,
}
use workloom.Payments.Handlers.{may_be_overdue, is_due_row}
use workloom.Payments.Inputs.{is_given}

-- What the rules make of an invoice is never waiting past its date.
rules_not_due :
    (given covered late some_paid was_viewed : Bool)
    → (may_be_overdue (issued (by_rules given covered late some_paid was_viewed)) && late) ≡ false
rules_not_due true covered late some_paid was_viewed = refl
rules_not_due false true late some_paid was_viewed = refl
rules_not_due false false true some_paid was_viewed = refl
rules_not_due false false false true was_viewed = refl
rules_not_due false false false false true = refl
rules_not_due false false false false false = refl

settlement_not_due :
    (on : Text) (inv : InvoiceRow) (back : ℤ)
    → (may_be_overdue (issued (settlement_status (settlement_of on inv back)))
        && past_due inv.due_date on)
      ≡ false
unfolding settlement_status
settlement_not_due on inv back =
    let given = settlement_of on inv back in
    rules_not_due (is_given_back given) (is_covered given) (past_due inv.due_date on)
      (ltb_ℤ (pos 0) inv.amount_paid) inv.was_viewed

status_eq_sound : (a b : SettlementStatus) → status_eq a b ≡ true → a ≡ b
unfolding status_eq
status_eq_sound sent sent h = refl
status_eq_sound viewed viewed h = refl
status_eq_sound partially_paid partially_paid h = refl
status_eq_sound paid paid h = refl
status_eq_sound overdue overdue h = refl
status_eq_sound refunded refunded h = refl
status_eq_sound a b h = absurd (cc)

-- A row that has been looked at, or that was not late.
abbrev IsLookedAt : String → String → Text → Store → Type 0
IsLookedAt id key on s = (str_eq id key ≡ true) ⊎ (is_due_row on (s.invoices key) ≡ false)

at_id :
    (on : Text) (id key : String) (s : Store)
    → IsLookedAt id key on s
    → is_due_row on (s.invoices id) ≡ false
    → is_due_row on (s.invoices key) ≡ false
at_id on id key s (inl same) h = rw (← (str_eq_iff id key).0 same) h
at_id on id key s (inr late) h = late

off_id :
    (on : Text) (id key : String) (s : Store)
    → IsLookedAt id key on s
    → str_eq key id ≡ false
    → is_due_row on (s.invoices key) ≡ false
off_id on id key s (inl same) h = absurd (true≢false (sym same ∙ str_ne_comm key id h))
off_id on id key s (inr late) h = late

move_settled-IsLookedAt :
    (now : ℕ) (on : Text) (inv : InvoiceRow) (from : SettlementStatus) (back : ℤ) (s : Store)
    (key : String)
    → s.invoices inv.id ≡ some inv
    → inv.status ≡ issued from
    → IsLookedAt inv.id key on s
    → is_due_row on ((move_settled now on inv from back s).invoices key) ≡ false
move_settled-IsLookedAt now on inv from back s key row is_from look =
    let status = settlement_status (settlement_of on inv back) in
    let settled_at = paid_at status inv.paid_at now in
    elim (Bool-cases (status_eq status from && same_time settled_at inv.paid_at)) [
      | inl same ↦
          let unmoved = status_eq_sound status from (and_true (status_eq status from) _ same).0 in
          rw same (
            at_id on inv.id key s look
              (rw (row, is_from, ← unmoved) (settlement_not_due on inv back)))
      | inr moved ↦
          let written : Option InvoiceRow =
            some (record inv { status = issued status; paid_at = settled_at }) in
          rw moved (
            put_cases (λ _ o. is_due_row on o ≡ false) inv.id written s.invoices key
              (settlement_not_due on inv back) (off_id on inv.id key s look))
    ]

-- A row stays.
move_to_given :
    (status from : SettlementStatus) (settled_at : Option ℕ) (inv : InvoiceRow) (s : Store)
    (key : String)
    → is_given (s.invoices key) ≡ true
    → is_given ((move_to status settled_at from inv s).invoices key) ≡ true
move_to_given status from settled_at inv s key h =
    elim (Bool-cases (status_eq status from && same_time settled_at inv.paid_at)) [
      | inl same ↦ rw same h
      | inr moved ↦ rw moved (
          put_cases (λ _ o. is_given o ≡ true) inv.id
            (some (record inv { status = issued status; paid_at = settled_at })) s.invoices key refl
            (λ _. h))
    ]

-- What one look at a row comes to: it returns, the row is not late, and no other row is made late.
pub record IsSettled (ctx : Context) (id : String) (s t : Store) : Type 0 where
  pub returned : settle_invoice ctx.now ctx.today id s ≡ ok t
  pub looked_at :
      (key : String) → IsLookedAt id key ctx.today s → is_due_row ctx.today (t.invoices key) ≡ false
  pub given : (key : String) → is_given (s.invoices key) ≡ true → is_given (t.invoices key) ≡ true

-- What has been given back on an invoice is an `int`.
abbrev pub RefundsFit : String → Store → Type 0
RefundsFit id s = ltb_ℤ largest_int (refunded_sum id s.payments s.allocations) ≡ false

refunded_against_fits :
    (id : String) (s : Store)
    → RefundsFit id s
    → refunded_against id s.payments s.allocations ≡ ok (refunded_sum id s.payments s.allocations)
unfolding refunded_against
refunded_against_fits id s h = rw h refl

settle_status-IsSettled :
    (ctx : Context) (id : String) (s : Store) (inv : InvoiceRow) (status : InvoiceStatus)
    → s.invoices id ≡ some inv
    → s.invoices inv.id ≡ some inv
    → inv.id ≡ id
    → inv.status ≡ status
    → RefundsFit id s
    → (t : Store) × IsSettled ctx id s t
unfolding settle_invoice
settle_status-IsSettled ctx id s inv draft row own same_id e fits = (
  s,
  record {
    returned = rw (row, e) refl;
    looked_at = λ key look. at_id ctx.today id key s look (rw (row, e) refl);
    given = λ key k. k;
  },
)
settle_status-IsSettled ctx id s inv cancelled row own same_id e fits = (
  s,
  record {
    returned = rw (row, e) refl;
    looked_at = λ key look. at_id ctx.today id key s look (rw (row, e) refl);
    given = λ key k. k;
  },
)
settle_status-IsSettled ctx id s inv (issued from) row own same_id e fits =
    let back = refunded_sum id s.payments s.allocations in
    let status = settlement_status (settlement_of ctx.today inv back) in
    (
      move_settled ctx.now ctx.today inv from back s,
      record {
        returned = rw (row, e, same_id, refunded_against_fits id s fits) refl;
        looked_at = λ key look.
            move_settled-IsLookedAt ctx.now ctx.today inv from back s key own e (rw (same_id) look);
        given = λ key k. move_to_given status from (paid_at status inv.paid_at ctx.now) inv s key k;
      },
    )

pub settle_invoice-IsSettled :
    (ctx : Context) (id : String) (s : Store) (o : Option InvoiceRow)
    → s.invoices id ≡ o
    → is_given o ≡ true
    → RefundsFit id s
    → IsLedger s
    → (t : Store) × IsSettled ctx id s t
settle_invoice-IsSettled ctx id s none row h fits l = absurd (cc)
settle_invoice-IsSettled ctx id s (some inv) row h fits l =
    let same_id = invoice_id id s inv l.invoice_ids row in
    settle_status-IsSettled ctx id s inv inv.status row (ap s.invoices same_id ∙ row) same_id refl
      fits
