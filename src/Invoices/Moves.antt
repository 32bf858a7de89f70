-- ===== src/Invoices/Moves.antt =====
-- The moves of packages/core/src/modules/finance/invoices.ts in a ledger.
use workloom.Base.{
  ◌≡◌, refl, sym, ap, ◌∙◌, ℕ, true, false, not, ◌&&◌, ◌||◌, some, String, ok, err, domain_error,
  on_ok, on_guard, ok_inj, Bool-cases, inl, inr, arith,
}
use workloom.Base.Int.{ℤ, pos, ◌≤ℤ◌, ltb_ℤ, int_laws}
use workloom.Money.Decimal.{Text}
use workloom.Payments.Store.{
  InvoiceRow, cancelled, issued, Announcement, invoice_viewed, invoice_cancelled, invoice_updated,
  Store, put, is_closed_day, found, paid_sum,
}
use workloom.Invoices.Settlement.{viewed}
use workloom.Payments.Sums.{put-same, put_cases}
use workloom.Payments.Ledger.{IsLedger, HasInvoiceId, IsPaid, invoice_id}
use workloom.Payments.Settled.{found-some}
use workloom.Payments.Settle.{settle_invoice}
use workloom.Invoices.Lifecycle.{
  is_draft_invoice, is_cancelled, is_sent, no_text, has_date, before_date, write_invoice,
  is_deducted, invoice_set_due_date, invoice_cancel, record_invoice_view,
}

-- A row that asks for as much and has been paid as much.
write_invoice-IsLedger :
    (inv written : InvoiceRow) (event : Announcement) (s : Store)
    → s.invoices written.id ≡ some inv
    → written.amount_paid ≡ inv.amount_paid
    → written.total ≡ inv.total
    → IsLedger s
    → IsLedger (write_invoice written event s)
write_invoice-IsLedger inv written event s row paid total l =
    let (sum, low, high) = rw row at (l.invoices_paid written.id) in
    record {
      invoice_ids = λ key.
          put_cases HasInvoiceId written.id (some written) s.invoices key refl
            (λ _. l.invoice_ids key);
      payment_ids = l.payment_ids;
      invoices_paid = λ key.
          put_cases (λ key. IsPaid (paid_sum key s.payments s.allocations)) written.id
            (some written) s.invoices key (paid ∙ sum, low, rw total high)
            (λ _. l.invoices_paid key);
      payments_cover = l.payments_cover;
    }

-- The row of the invoice that a call found.
own_row :
    (id : String) (s : Store) {inv : InvoiceRow}
    → found "Invoice" (s.invoices id) ≡ ok inv
    → IsLedger s
    → s.invoices inv.id ≡ some inv
own_row id s {inv} e l =
    let row = found-some "Invoice" (s.invoices id) e in
    ap s.invoices (invoice_id id s inv l.invoice_ids row) ∙ row

pub invoice_set_due_date-IsLedger :
    (id : String) (due : Text) (s t : Store)
    → invoice_set_due_date id due s ≡ ok t
    → IsLedger s
    → IsLedger t
unfolding invoice_set_due_date
invoice_set_due_date-IsLedger id due s t h l =
    on_ok (found "Invoice" (s.invoices id)) _ h λ inv e h1.
      on_guard (is_draft_invoice inv.status) _ _ h1 λ _ h2.
        on_guard (is_cancelled inv.status) _ _ h2 λ _ h3.
          on_guard (no_text inv.due_label || has_date inv.due_date) _ _ h3 λ _ h4.
            on_guard (before_date due inv.issue_date) _ _ h4 λ _ h5. rw (← ok_inj h5) (
              write_invoice-IsLedger inv (record inv { due_date = some due }) (invoice_updated id) s
                (own_row id s e l) refl refl l)

pub invoice_cancel-IsLedger :
    (id : String) (s t : Store) → invoice_cancel id s ≡ ok t → IsLedger s → IsLedger t
unfolding invoice_cancel
invoice_cancel-IsLedger id s t h l = on_ok (found "Invoice" (s.invoices id)) _ h λ inv e h1.
    on_guard (is_draft_invoice inv.status) _ _ h1 λ _ h2.
      on_guard (is_cancelled inv.status) _ _ h2 λ _ h3.
        on_guard (ltb_ℤ (pos 0) inv.amount_paid) _ _ h3 λ _ h4.
          on_guard (is_deducted id s.invoices s.deductions) _ _ h4 λ _ h6.
            on_guard (is_closed_day s.locked_through inv.issue_date) _ _ h6 λ _ h5.
              rw (← ok_inj h5) (
                write_invoice-IsLedger inv (record inv { status = cancelled })
                  (invoice_cancelled id) s (own_row id s e l) refl refl l)

pub record_invoice_view-IsLedger :
    (id : String) (s t : Store) → record_invoice_view id s ≡ ok t → IsLedger s → IsLedger t
unfolding record_invoice_view
record_invoice_view-IsLedger id s t h l = on_ok (found "Invoice" (s.invoices id)) _ h λ inv e h1.
    on_guard (is_draft_invoice inv.status) _ _ h1 λ _ h2.
      elim (Bool-cases (is_sent inv.status && not inv.was_viewed)) [
        | inl first ↦ rw (← ok_inj (rw first at h2)) (
            write_invoice-IsLedger inv (record inv { status = issued viewed; was_viewed = true })
              (invoice_viewed id) s (own_row id s e l) refl refl l)
        | inr again ↦ rw (← ok_inj (rw again at h2)) l
      ]

not_above_zero : (a : ℤ) → ltb_ℤ (pos 0) a ≡ false → a ≤ℤ pos 0
not_above_zero a h = ground arith

no_more : (a sum : ℤ) → a ≡ sum → pos 0 ≤ℤ sum → ltb_ℤ (pos 0) a ≡ false → a ≡ pos 0
no_more a sum e low h =
    let positive : pos 0 ≤ℤ a = rw e low in omega (int_laws, positive, not_above_zero a h)

-- What an invoice is once it has been cancelled.
pub record IsClosed (id : String) (t : Store) : Type 0 where
  pub inv : InvoiceRow
  pub row : t.invoices id ≡ some inv
  pub status : inv.status ≡ cancelled
  pub nothing_paid : inv.amount_paid ≡ pos 0
  pub not_again : invoice_cancel id t ≡ err (domain_error "invoice_cancelled")
  pub not_settled : (now : ℕ) (on : Text) → settle_invoice now on id t ≡ ok t

-- In a ledger, an invoice that could be cancelled is then cancelled and has been paid nothing, was
-- taken off no issued invoice, cannot be cancelled again, and is left as it is when it is settled.
pub invoice_cancel-IsClosed :
    (id : String) (s t : Store)
    → invoice_cancel id s ≡ ok t
    → IsLedger s
    → IsClosed id t × (is_deducted id s.invoices s.deductions ≡ false)
unfolding invoice_cancel settle_invoice
invoice_cancel-IsClosed id s t h l = on_ok (found "Invoice" (s.invoices id)) _ h λ inv e h1.
    on_guard (is_draft_invoice inv.status) _ _ h1 λ _ h2.
      on_guard (is_cancelled inv.status) _ _ h2 λ _ h3.
        on_guard (ltb_ℤ (pos 0) inv.amount_paid) _ _ h3 λ unpaid h4.
          on_guard (is_deducted id s.invoices s.deductions) _ _ h4 λ free h6.
            on_guard (is_closed_day s.locked_through inv.issue_date) _ _ h6 λ _ h5.
              let closed = record inv { status = cancelled } in
              let found_row = found-some "Invoice" (s.invoices id) e in
              let same_id = invoice_id id s inv l.invoice_ids found_row in
              let (sum, low, _) = rw found_row at (l.invoices_paid id) in
              let row : t.invoices id ≡ some closed =
                ap (λ (x : Store). x.invoices id) (sym (ok_inj h5))
                ∙ ap (λ key. put key (some closed) s.invoices id) same_id
                ∙ put-same id (some closed) s.invoices in
              (
                record {
                  inv = closed;
                  row = row;
                  status = refl;
                  nothing_paid = no_more inv.amount_paid _ sum low unpaid;
                  not_again = rw row refl;
                  not_settled = λ now on. rw row refl;
                },
                free,
              )
