-- ===== src/Tests/Payments.antt =====
-- Payments at concrete inputs: an invoice of 100.00 of which 40.00 is paid, past its due date.
use workloom.Base.{
  ◌≡◌, refl, false, none, some, [], ◌∷◌, ok, err, books_locked, String, Option, ℕ, default_ok,
  arith,
}
use workloom.Base.Int.{ℤ, pos, ◌+ℤ◌, ◌-ℤ◌, ◌*ℤ◌, neg_ℤ}
use workloom.Payments.Store.{
  payment, InvoiceRow, issued, cancelled, PaymentRow, Store, put, insert_allocation, delete_payment,
  settle_paid, check_allocated, settle_each, paid_sum, allocated_sum, has_allocation, allocated_to,
  remove_allocations_of,
}
use workloom.Invoices.Settlement.{
  sent, settlement_status, settlement_event, announces, status_eq, paid_at,
}
use workloom.Payments.Sums.{put_cases}
use workloom.Payments.Settle.{
  Context, settle_invoice, settle_all, settle_in_order, sorted_set, insert_id, refunded_sum,
  refunded_against,
}
use workloom.Money.{round_div, round_pos, round_magnitude, to_safe_number}
use workloom.Money.Convert.{convert}
use workloom.Money.Currency.{currency_exponent}
use workloom.Money.Decimal.{parse_decimal}
use workloom.Payments.Allocate.{allocate}
use workloom.Payments.Handlers.{
  mark_overdue_invoices, due_invoices, settle_due, payment_record, payment_delete,
}
use workloom.Payments.Inputs.{
  BankRegister, Books, PaymentInput, record_in, allocate_each, in_base_currency,
}
use workloom.Payments.Ledger.{IsLedger, HasInvoiceId, HasPaymentId, IsPaid, Covers}
use workloom.Payments.Guards.{
  is_refused-allocate, allocate-eq-with_allocation, is_refused, allocation_of,
}
use workloom.Payments.Fits.{with_allocation}
use workloom.Payments.Overdue.{mark_overdue_invoices-due_invoices}
use workloom.Payments.Looks.{RefundsFit}
use workloom.Payments.Undo.{payment_delete-payment_record}
use workloom.Payments.Again.{settle_invoice-settle_invoice}
use workloom.Invoices.Lifecycle.{invoice_cancel, is_deducted}
use workloom.Invoices.Moves.{IsClosed, invoice_cancel-IsClosed}
use workloom.Payments.Run.{at_first, after, recorded, Reached-IsLedger}

-- A register that keeps nothing.
abbrev no_bank : BankRegister (Unit {0})
no_bank = record {
  resolve_account = λ _ account _. ok account;
  drop_recorded_line = λ _ r. ok r;
  check_banked = λ _ _ _. ok tt;
  sync_payment_line = λ _ _ r. ok r;
}

abbrev late_invoice : InvoiceRow
late_invoice = record {
  id = "i1";
  company_id = "c1";
  currency = "EUR";
  status = issued sent;
  total = pos 10000;
  amount_paid = pos 0;
  issue_date = some (b'0' ∷ []);
  due_date = some (b'1' ∷ []);
  due_label = none;
  was_viewed = false;
  paid_at = none;
}

abbrev on_account : PaymentRow
on_account = record {
  id = "p1";
  company_id = "c1";
  kind = payment;
  received_on = b'2' ∷ [];
  method = "cash";
  reference = none;
  currency = "EUR";
  amount = pos 4000;
  base_currency = "EUR";
  exchange_rate_to_base = b'1' ∷ [];
  amount_base = pos 4000;
  bank_account_id = none;
  notes = none;
}

abbrev with_payments : (String → Option PaymentRow) → Store
with_payments payments = record {
  companies = put "c1" (some (record { archived = false })) (λ _. none);
  invoices = put "i1" (some late_invoice) (λ _. none);
  payments = payments;
  allocations = [];
  deductions = [];
  outbox = [];
  locked_through = some [];
}

abbrev no_payments : String → Option PaymentRow
no_payments key = none

abbrev one_payment : String → Option PaymentRow
one_payment = put "p1" (some on_account) no_payments

abbrev before_any : Books (Unit {0})
before_any = record { store = with_payments no_payments; register = tt }

abbrev at_noon : Context
at_noon = record { now = 12; today = b'2' ∷ []; base_currency = "EUR" }

abbrev ids : ℕ → String
ids n = "a1"

abbrev half : PaymentInput
half = record {
  company_id = "c1";
  amount = pos 4000;
  kind = payment;
  currency = none;
  received_on = none;
  method = "cash";
  reference = none;
  bank_account_id = none;
  notes = none;
  exchange_rate = none;
  allocations = record { invoice_id = "i1"; amount = none } ∷ [];
}

engine : Unit {0}
unfolding ◌+ℤ◌ ◌-ℤ◌ ◌*ℤ◌ neg_ℤ payment_record payment_delete record_in allocate_each allocate
    insert_allocation delete_payment settle_paid check_allocated settle_each paid_sum allocated_sum
    has_allocation allocated_to remove_allocations_of settle_all settle_in_order settle_invoice
    sorted_set insert_id refunded_sum refunded_against settlement_status settlement_event announces
    status_eq paid_at in_base_currency convert currency_exponent parse_decimal round_div round_pos
    round_magnitude to_safe_number mark_overdue_invoices due_invoices settle_due invoice_cancel
    is_deducted
engine = tt

empty-IsLedger :
    (payments : String → Option PaymentRow)
    → ((key : String) → HasPaymentId key (payments key))
    → ((key : String) → Covers (pos 0) (payments key))
    → IsLedger (with_payments payments)
unfolding paid_sum allocated_sum
empty-IsLedger payments ids covers = record {
  invoice_ids =
      λ key. put_cases HasInvoiceId "i1" (some late_invoice) (λ _. none) key refl (λ _. tt);
  payment_ids = ids;
  invoices_paid = λ key.
      put_cases (λ _. IsPaid (pos 0)) "i1" (some late_invoice) (λ _. none) key
        (refl, omega arith, omega arith) (λ _. tt);
  payments_cover = covers;
}

before_any-IsLedger : IsLedger (with_payments no_payments)
before_any-IsLedger = empty-IsLedger no_payments (λ _. tt) (λ _. tt)

on_account-IsLedger : IsLedger (with_payments one_payment)
on_account-IsLedger =
    empty-IsLedger one_payment
      (λ key. put_cases HasPaymentId "p1" (some on_account) no_payments key refl (λ _. tt))
      (λ key.
        put_cases (λ _. Covers (pos 0)) "p1" (some on_account) no_payments key (omega arith)
          (λ _. tt))

abbrev half_paid : Books (Unit {0})
half_paid = default_ok before_any (payment_record no_bank at_noon "p1" ids half before_any)

abbrev undone : Books (Unit {0})
undone = default_ok before_any (payment_delete no_bank at_noon "p1" half_paid)

abbrev allocated_now : Store × ℤ
allocated_now =
    default_ok (with_payments one_payment, pos 0)
      (allocate "a1" on_account (record { invoice_id = "i1"; amount = none }) (pos 4000)
        (with_payments one_payment))

abbrev late_now : Store
late_now =
    default_ok (with_payments no_payments)
      (settle_invoice 12 (b'2' ∷ []) "i1" (with_payments no_payments))

runs : payment_record no_bank at_noon "p1" ids half before_any ≡ ok half_paid
unfolding engine
runs = refl

Reached-IsLedger_example : IsLedger half_paid.store
unfolding engine
Reached-IsLedger_example =
    Reached-IsLedger no_bank before_any half_paid
      (after before_any half_paid at_first
        (recorded at_noon "p1" ids half before_any half_paid (refl, refl) refl))
      before_any-IsLedger

is_refused-allocate_example :
    is_refused (
      allocate "a1" on_account
        (record { invoice_id = "i1"; amount = some (pos 5000) })
        (pos 4000)
        (with_payments one_payment))
    ≡ false
unfolding engine
is_refused-allocate_example =
    is_refused-allocate "a1" on_account (record { invoice_id = "i1"; amount = some (pos 5000) })
      (pos 4000) (with_payments one_payment) refl (omega arith) refl on_account-IsLedger

allocate-eq-with_allocation_example : allocated_now ≡ (
  with_allocation
      (allocation_of "a1" on_account late_invoice (pos 4000))
      payment
      late_invoice
      (with_payments one_payment),
  pos 4000,
)
unfolding engine
allocate-eq-with_allocation_example =
    allocate-eq-with_allocation "a1" on_account (record { invoice_id = "i1"; amount = none })
      (pos 4000) (with_payments one_payment) late_invoice allocated_now refl refl refl (omega arith)
      on_account-IsLedger

nothing_back : (id : String) → RefundsFit id (with_payments no_payments)
unfolding refunded_sum
nothing_back id = refl

mark_overdue_invoices-due_invoices_example :
    (t : Store) × (mark_overdue_invoices at_noon ("i1" ∷ []) (with_payments no_payments) ≡ ok t)
    × (due_invoices (b'2' ∷ []) ("i1" ∷ []) t ≡ [])
mark_overdue_invoices-due_invoices_example =
    mark_overdue_invoices-due_invoices at_noon ("i1" ∷ []) (with_payments no_payments)
      (λ id _. nothing_back id) before_any-IsLedger

payment_delete-payment_record_example :
    ((key : String) → undone.store.payments key ≡ none)
    × (undone.store.allocations ≡ [])
    × ((key : String) (inv inv' : InvoiceRow)
        → (with_payments no_payments).invoices key ≡ some inv
        → undone.store.invoices key ≡ some inv'
        → inv'.amount_paid ≡ inv.amount_paid)
unfolding engine
payment_delete-payment_record_example =
    payment_delete-payment_record no_bank at_noon at_noon "p1" ids half before_any half_paid undone
      refl refl (refl, refl) before_any-IsLedger

settle_invoice-settle_invoice_example : settle_invoice 14 (b'2' ∷ []) "i1" late_now ≡ ok late_now
unfolding engine
settle_invoice-settle_invoice_example =
    settle_invoice-settle_invoice 12 14 (b'2' ∷ []) "i1" (with_payments no_payments) late_now refl
      before_any-IsLedger

abbrev closed_now : Store
closed_now =
    default_ok (with_payments one_payment) (invoice_cancel "i1" (with_payments one_payment))

invoice_cancel-IsClosed_example :
    IsClosed "i1" closed_now × (is_deducted "i1" (with_payments one_payment).invoices [] ≡ false)
unfolding engine
invoice_cancel-IsClosed_example =
    invoice_cancel-IsClosed "i1" (with_payments one_payment) closed_now refl on_account-IsLedger

-- Money can still be put against an invoice that is cancelled, and the invoice stays cancelled.
abbrev paid_when_closed : Store
paid_when_closed =
    (default_ok (closed_now, pos 0)
      (allocate "a1" on_account (record { invoice_id = "i1"; amount = none }) (pos 4000)
        closed_now)).0

allocated_to_closed :
    paid_when_closed.invoices "i1"
    ≡ some (record late_invoice { status = cancelled; amount_paid = pos 4000 })
unfolding engine
allocated_to_closed = refl

-- Books that are closed through the payment's day: nothing of it is put against an invoice, and it
-- is not deleted.
abbrev closed_books : Store
closed_books = record (with_payments one_payment) { locked_through = some (b'2' ∷ []) }

refused_when_closed :
    (allocate "a1" on_account (record { invoice_id = "i1"; amount = none }) (pos 4000) closed_books
      ≡ err books_locked)
    × (delete_payment "p1" closed_books ≡ err books_locked)
unfolding engine
refused_when_closed = (refl, refl)
