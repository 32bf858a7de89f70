-- ===== src/Payments/Settled.antt =====
-- The status changes of `settleInvoice` in packages/core/src/modules/finance/payments.ts leave a
-- ledger.
use workloom.Base.{
  ◌≡◌, refl, ap, ◌∙◌, ℕ, ◌&&◌, Option, none, some, List, [], ◌∷◌, String, ok, on_ok, ok_inj,
  Bool-cases, inl, inr,
}
use workloom.Money.Decimal.{Text}
use workloom.Payments.Ledger.{IsLedger, HasInvoiceId, IsPaid, invoice_id}
use workloom.Payments.Store.{
  InvoiceRow, InvoiceStatus, draft, cancelled, issued, Store, found, paid_sum,
}
use workloom.Payments.Sums.{put_cases}
use workloom.Invoices.Settlement.{SettlementStatus, settlement_status, status_eq, paid_at}
use workloom.Payments.Settle.{
  sorted_set, same_time, refunded_against, settlement_of, settle_status, move_to, settle_invoice,
  settle_in_order, settle_all, Context,
}

-- A change of an invoice's status changes no amount.
move_to-IsLedger :
    (status from : SettlementStatus) (settled_at : Option ℕ) (inv : InvoiceRow) (s : Store)
    → s.invoices inv.id ≡ some inv
    → IsLedger s
    → IsLedger (move_to status settled_at from inv s)
move_to-IsLedger status from settled_at inv s row l =
    elim (Bool-cases (status_eq status from && same_time settled_at inv.paid_at)) [
      | inl same ↦ rw same l
      | inr moved ↦
          let written : Option InvoiceRow =
            some (record inv { status = issued status; paid_at = settled_at }) in
          rw moved (record {
            invoice_ids = λ key.
                put_cases HasInvoiceId inv.id written s.invoices key refl (λ _. l.invoice_ids key);
            payment_ids = l.payment_ids;
            invoices_paid = λ key.
                put_cases (λ key. IsPaid (paid_sum key s.payments s.allocations)) inv.id written
                  s.invoices key (rw row at (l.invoices_paid inv.id)) (λ _. l.invoices_paid key);
            payments_cover = l.payments_cover;
          })
    ]

settle_status-IsLedger :
    (now : ℕ) (on : Text) (inv : InvoiceRow) (status : InvoiceStatus) (s t : Store)
    → settle_status now on inv status s ≡ ok t
    → s.invoices inv.id ≡ some inv
    → IsLedger s
    → IsLedger t
settle_status-IsLedger now on inv draft s t h row l = rw (← ok_inj h) l
settle_status-IsLedger now on inv cancelled s t h row l = rw (← ok_inj h) l
settle_status-IsLedger now on inv (issued from) s t h row l =
    on_ok (refunded_against inv.id s.payments s.allocations) _ h λ back _ h1.
      let status = settlement_status (settlement_of on inv back) in
      rw (← ok_inj h1) (move_to-IsLedger status from (paid_at status inv.paid_at now) inv s row l)

-- What was found is in the table.
pub found-some {ℓ} :
    {A : Type ℓ} (entity : String) (o : Option A) {a : A} → found entity o ≡ ok a → o ≡ some a
found-some entity none h = absurd (cc)
found-some entity (some b) h = ap some (ok_inj h)

pub settle_invoice-IsLedger :
    (now : ℕ) (on : Text) (id : String) (s t : Store)
    → settle_invoice now on id s ≡ ok t
    → IsLedger s
    → IsLedger t
unfolding settle_invoice
settle_invoice-IsLedger now on id s t h l = on_ok (found "Invoice" (s.invoices id)) _ h λ inv e h1.
    let row = found-some "Invoice" (s.invoices id) e in
    settle_status-IsLedger now on inv inv.status s t h1
      (ap s.invoices (invoice_id id s inv l.invoice_ids row) ∙ row) l

pub settle_in_order-IsLedger :
    (now : ℕ) (on : Text) (ids : List String) (s t : Store)
    → settle_in_order now on ids s ≡ ok t
    → IsLedger s
    → IsLedger t
unfolding settle_in_order
settle_in_order-IsLedger now on [] s t h l = rw (← ok_inj h) l
settle_in_order-IsLedger now on (id ∷ ids) s t h l =
    on_ok (settle_invoice now on id s) _ h λ u e h1.
      settle_in_order-IsLedger now on ids u t h1 (settle_invoice-IsLedger now on id s u e l)

pub settle_all-IsLedger :
    (ctx : Context) (ids : List String) (s t : Store)
    → settle_all ctx ids s ≡ ok t
    → IsLedger s
    → IsLedger t
unfolding settle_all
settle_all-IsLedger ctx ids s t h l =
    settle_in_order-IsLedger ctx.now ctx.today (sorted_set ids) s t h l
