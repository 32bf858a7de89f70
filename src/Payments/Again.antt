-- ===== src/Payments/Again.antt =====
-- `settleInvoice` of packages/core/src/modules/finance/payments.ts, called again.
use workloom.Base.{
  ◌≡◌, refl, sym, ap, ◌∙◌, ℕ, true, ◌&&◌, ◌==◌, Option, none, some, String, ok, on_ok, ok_inj,
  Bool-cases, same_ℕ, inl, inr, arith,
}
use workloom.Money.Decimal.{Text}
use workloom.Invoices.Settlement.{
  SettlementStatus, sent, viewed, partially_paid, paid, overdue, refunded, settlement_status,
  status_eq, paid_at, and_true,
}
use workloom.Payments.Store.{InvoiceRow, InvoiceStatus, draft, cancelled, issued, Store, found}
use workloom.Payments.Sums.{put-same}
use workloom.Payments.Ledger.{IsLedger, invoice_id}
use workloom.Payments.Settled.{found-some}
use workloom.Payments.Settle.{
  refunded_against, settlement_of, same_time, settle_status, settle_invoice,
}

same_ℕ_refl : (a : ℕ) → (a == a) ≡ true
same_ℕ_refl a = ground arith

same_time_refl : (a : Option ℕ) → same_time a a ≡ true
same_time_refl none = refl
same_time_refl (some a) = same_ℕ_refl a

same_time_sound : (a b : Option ℕ) → same_time a b ≡ true → a ≡ b
same_time_sound none none h = refl
same_time_sound none (some b) h = absurd (cc)
same_time_sound (some a) none h = absurd (cc)
same_time_sound (some a) (some b) h = ap some (same_ℕ a b h)

status_eq_refl : (a : SettlementStatus) → status_eq a a ≡ true
unfolding status_eq
status_eq_refl sent = refl
status_eq_refl viewed = refl
status_eq_refl partially_paid = refl
status_eq_refl paid = refl
status_eq_refl overdue = refl
status_eq_refl refunded = refl

-- The moment an invoice was settled is kept.
paid_at-paid_at :
    (status : SettlementStatus) (before : Option ℕ) (now later : ℕ)
    → paid_at status (paid_at status before now) later ≡ paid_at status before now
unfolding paid_at
paid_at-paid_at paid none now later = refl
paid_at-paid_at paid (some t) now later = refl
paid_at-paid_at refunded before now later = refl
paid_at-paid_at sent before now later = refl
paid_at-paid_at viewed before now later = refl
paid_at-paid_at partially_paid before now later = refl
paid_at-paid_at overdue before now later = refl

paid_at_kept :
    (status : SettlementStatus) (before : Option ℕ) (now later : ℕ)
    → paid_at status before now ≡ before
    → paid_at status before later ≡ before
paid_at_kept status before now later h =
    ap (λ x. paid_at status x later) (sym h) ∙ paid_at-paid_at status before now later ∙ h

-- A second look at an invoice at the place where the first put it.
settle_status_again :
    (now later : ℕ) (on : Text) (inv : InvoiceRow) (status : InvoiceStatus) (s t : Store)
    → settle_status now on inv status s ≡ ok t
    → s.invoices inv.id ≡ some inv
    → inv.status ≡ status
    → settle_invoice later on inv.id t ≡ ok t
unfolding settle_invoice
settle_status_again now later on inv draft s t h row e = rw (← ok_inj h, row, e) refl
settle_status_again now later on inv cancelled s t h row e = rw (← ok_inj h, row, e) refl
settle_status_again now later on inv (issued from) s t h row e =
    on_ok (refunded_against inv.id s.payments s.allocations) _ h λ back same_back h1.
      let status = settlement_status (settlement_of on inv back) in
      let settled_at = paid_at status inv.paid_at now in
      elim (Bool-cases (status_eq status from && same_time settled_at inv.paid_at)) [
        | inl same ↦
            let (same_status, same_paid) = and_true (status_eq status from) _ same in
            let stays =
              paid_at_kept status inv.paid_at now later
                (same_time_sound settled_at inv.paid_at same_paid) in
            rw
              (← ok_inj h1, same, row, e, same_back, stays, same_status, same_time_refl inv.paid_at)
              refl
        | inr moved ↦
            let written = record inv { status = issued status; paid_at = settled_at } in
            rw
              (
                ← ok_inj h1,
                moved,
                put-same inv.id (some written) s.invoices,
                same_back,
                paid_at-paid_at status inv.paid_at now later,
                status_eq_refl status,
                same_time_refl settled_at,
              )
              refl
      ]

-- In a ledger, settling an invoice a second time on the same day changes nothing and announces
-- nothing, however much later the moment: the status is a function of what has been paid, and the
-- instant of settlement is kept.
pub settle_invoice-settle_invoice :
    (now later : ℕ) (on : Text) (id : String) (s t : Store)
    → settle_invoice now on id s ≡ ok t
    → IsLedger s
    → settle_invoice later on id t ≡ ok t
unfolding settle_invoice
settle_invoice-settle_invoice now later on id s t h l =
    on_ok (found "Invoice" (s.invoices id)) _ h λ inv e h1.
      let row = found-some "Invoice" (s.invoices id) e in
      let same_id = invoice_id id s inv l.invoice_ids row in
      ap (λ key. settle_invoice later on key t) (sym same_id)
      ∙ settle_status_again now later on inv inv.status s t h1 (ap s.invoices same_id ∙ row) refl
