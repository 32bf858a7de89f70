-- ===== src/Invoices/Lifecycle.antt =====
-- The moves of an issued invoice that packages/core/src/modules/finance/invoices.ts makes:
-- `invoiceSetDueDate`, `invoiceCancel` and `recordInvoiceView`.
use workloom.Base.{
  Bool, true, false, not, ◌&&◌, ◌||◌, if◌then◌else◌, Option, none, some, List, [], ◌∷◌, ◌++◌,
  String, str_eq, Result, ok, ◌>>=◌, ◌>>◌, throw_if, domain_error, not_found_error, books_locked,
}
use workloom.Base.Int.{pos, ltb_ℤ}
use workloom.Money.Decimal.{Text}
use workloom.Invoices.Settlement.{sent, viewed, status_eq, text_lt}
use workloom.Payments.Store.{
  InvoiceRow, InvoiceStatus, draft, cancelled, issued, Deduction, Announcement, invoice_viewed,
  invoice_cancelled, invoice_updated, Store, put, is_closed_day, found,
}

abbrev pub is_draft_invoice : InvoiceStatus → Bool
is_draft_invoice draft = true
is_draft_invoice cancelled = false
is_draft_invoice (issued s) = false

abbrev pub is_cancelled : InvoiceStatus → Bool
is_cancelled draft = false
is_cancelled cancelled = true
is_cancelled (issued s) = false

abbrev pub is_sent : InvoiceStatus → Bool
is_sent draft = false
is_sent cancelled = false
is_sent (issued s) = status_eq s sent

-- `!text`: none, or empty.
abbrev pub no_text : Option String → Bool
no_text none = true
no_text (some s) = str_eq s ""

abbrev pub has_date : Option Text → Bool
has_date none = false
has_date (some d) = true

-- `a < b`, of a date that an issued invoice has.
abbrev pub before_date : Text → Option Text → Bool
before_date a none = false
before_date a (some b) = text_lt a b

-- A row of an invoice, written, and what is announced of it.
abbrev pub write_invoice : InvoiceRow → Announcement → Store → Store
write_invoice inv event s = record s {
  invoices = put inv.id (some inv) s.invoices;
  outbox = s.outbox ++ event ∷ [];
}

unfoldable pub invoice_set_due_date : String → Text → Store → Result Store
invoice_set_due_date id due s = do
  inv ← found "Invoice" (s.invoices id)
  throw_if (is_draft_invoice inv.status) (domain_error "invoice_not_sent")
  throw_if (is_cancelled inv.status) (domain_error "invoice_cancelled")
  throw_if (no_text inv.due_label || has_date inv.due_date) (domain_error "due_date_fixed")
  throw_if (before_date due inv.issue_date) (domain_error "due_before_issue")
  ok (write_invoice (record inv { due_date = some due }) (invoice_updated id) s)

-- `status not in ('draft', 'cancelled')`, of the row that the join finds.
abbrev pub is_issued : Option InvoiceRow → Bool
is_issued none = false
is_issued (some inv) = not (is_draft_invoice inv.status) && not (is_cancelled inv.status)

-- Whether an issued invoice takes this one off.
unfoldable pub is_deducted : String → (String → Option InvoiceRow) → List Deduction → Bool
is_deducted id invoices [] = false
is_deducted id invoices (d ∷ ds) =
    (str_eq d.deducts id && is_issued (invoices d.on_invoice)) || is_deducted id invoices ds

-- The write of an issued invoice is refused in closed books, by `workloom_invoice_lock`.
unfoldable pub invoice_cancel : String → Store → Result Store
invoice_cancel id s = do
  inv ← found "Invoice" (s.invoices id)
  throw_if (is_draft_invoice inv.status) (domain_error "invoice_not_sent")
  throw_if (is_cancelled inv.status) (domain_error "invoice_cancelled")
  throw_if (ltb_ℤ (pos 0) inv.amount_paid) (domain_error "invoice_has_payments")
  throw_if (is_deducted id s.invoices s.deductions) (domain_error "invoice_deducted")
  throw_if (is_closed_day s.locked_through inv.issue_date) books_locked
  ok (write_invoice (record inv { status = cancelled }) (invoice_cancelled id) s)

unfoldable pub record_invoice_view : String → Store → Result Store
record_invoice_view id s = do
  inv ← found "Invoice" (s.invoices id)
  throw_if (is_draft_invoice inv.status) (not_found_error "Invoice")
  ok (
      if is_sent inv.status && not inv.was_viewed
      then write_invoice (record inv { status = issued viewed; was_viewed = true })
          (invoice_viewed id) s
      else s)
