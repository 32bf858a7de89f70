-- ===== src/Payments/Handlers.antt =====
-- The procedures of packages/core/src/modules/finance/payments.ts that write: `paymentRecord`,
-- `paymentUpdate`, `paymentDelete`, `paymentAllocate`, `paymentUnallocate`, and the nightly
-- `markOverdueInvoices`. The bank register that they keep in step is behind an interface.
use workloom.Base.{
  Bool, true, false, ◌&&◌, if◌then◌else◌, Option, none, some, List, [], ◌∷◌, String, ℕ, Result, ok,
  ◌>>=◌, ◌>>◌, throw_if, domain_error, validation_error,
}
use workloom.Base.Int.{pos, ◌-ℤ◌, leb_ℤ, eqb_ℤ}
use workloom.Money.Decimal.{Text}
use workloom.Invoices.Settlement.{sent, viewed, partially_paid, paid, overdue, refunded, past_due}
use workloom.Payments.Store.{
  PaymentRow, InvoiceRow, InvoiceStatus, draft, cancelled, issued, payment_recorded,
  payment_updated, payment_deleted, Store, found, allocated_sum, allocated_to, find_allocation,
  delete_allocation, delete_payment, update_payment,
}
use workloom.Payments.Settle.{Context, settle_invoice, settle_all}
use workloom.Payments.Allocate.{AllocationInput, allocate}
use workloom.Payments.Inputs.{
  BankRegister, Books, PaymentInput, PaymentPatch, announced, currency_for, given_or,
  in_base_currency, is_same_payment, new_payment, patched_row, record_in,
}

-- The scan of `markOverdueInvoices`: `inArray(i.status, […])` and a due date before the day.
abbrev pub may_be_overdue : InvoiceStatus → Bool
may_be_overdue (issued sent) = true
may_be_overdue (issued viewed) = true
may_be_overdue (issued partially_paid) = true
may_be_overdue (issued paid) = false
may_be_overdue (issued overdue) = false
may_be_overdue (issued refunded) = false
may_be_overdue draft = false
may_be_overdue cancelled = false

abbrev pub is_due_row : Text → Option InvoiceRow → Bool
is_due_row on none = false
is_due_row on (some inv) = may_be_overdue inv.status && past_due inv.due_date on

unfoldable pub due_invoices : Text → List String → Store → List String
due_invoices on [] s = []
due_invoices on (id ∷ ids) s =
    let rest = due_invoices on ids s in if is_due_row on (s.invoices id) then id ∷ rest else rest

unfoldable pub settle_due : Context → List String → Store → Result Store
settle_due ctx [] s = ok s
settle_due ctx (id ∷ ids) s = settle_invoice ctx.now ctx.today id s >>= λ t. settle_due ctx ids t

-- `rows` are the ids of the table's rows, in the order of the scan.
unfoldable pub mark_overdue_invoices : Context → List String → Store → Result Store
mark_overdue_invoices ctx rows s = settle_due ctx (due_invoices ctx.today rows s) s

module _ {R : Type 0} (bank : BankRegister R) where
  unfoldable pub payment_record :
      Context → String → (ℕ → String) → PaymentInput → Books R → Result (Books R)
  payment_record ctx id new_ids input b = do
    throw_if (leb_ℤ input.amount (pos 0)) (validation_error "amountMinor")
    company ← found "Company" (b.store.companies input.company_id)
    throw_if company.archived (domain_error "archived")
    currency ← currency_for ctx input.currency input.allocations b.store
    q ← in_base_currency ctx (new_payment ctx id input currency) input.amount input.exchange_rate
    account ← bank.resolve_account b.register input.bank_account_id currency
    let p = record q { bank_account_id = account }
    t ← record_in ctx new_ids p input.allocations b.store
    register ← bank.sync_payment_line t id b.register
    ok (record { store = announced (payment_recorded id) t; register = register })

  abbrev pub account_for : PaymentPatch → PaymentRow → R → Result (Option String)
  account_for patch before r = elim patch.bank_account_id [
    | none ↦ ok before.bank_account_id
    | some account ↦ bank.resolve_account r account before.currency
  ]

  -- `payments_banked_guard`.
  abbrev pub check_amount : PaymentRow → PaymentRow → R → Result (Unit {0})
  check_amount before p r =
      if eqb_ℤ p.amount before.amount then ok tt else bank.check_banked p.id p.amount r

  abbrev pub update_changed : PaymentRow → PaymentRow → Books R → Result (Books R)
  update_changed before p b = do
    dropped ← bank.drop_recorded_line p.id b.register
    t ← update_payment before p b.store
    banked ← check_amount before p dropped
    register ← bank.sync_payment_line t p.id dropped
    ok (record { store = announced (payment_updated p.id) t; register = register })

  unfoldable pub payment_update : Context → String → PaymentPatch → Books R → Result (Books R)
  payment_update ctx id patch b = do
    throw_if (leb_ℤ (given_or patch.amount (pos 1)) (pos 0)) (validation_error "amountMinor")
    before ← found "Payment" (b.store.payments id)
    account ← account_for patch before b.register
    p ← patched_row ctx patch account before
    if is_same_payment before p then ok b else update_changed before p b

  unfoldable pub payment_delete : Context → String → Books R → Result (Books R)
  payment_delete ctx id b = do
    p ← found "Payment" (b.store.payments id)
    dropped ← bank.drop_recorded_line id b.register
    t ← delete_payment id b.store
    u ← settle_all ctx (allocated_to id b.store.allocations) t
    ok (record { store = announced (payment_deleted id) u; register = dropped })

  unfoldable pub payment_allocate :
      Context → String → String → AllocationInput → Books R → Result (Books R)
  payment_allocate ctx new_id id request b = do
    p ← found "Payment" (b.store.payments id)
    (t, amount) ←
        allocate new_id p request (p.amount -ℤ allocated_sum id b.store.allocations) b.store
    u ← settle_invoice ctx.now ctx.today request.invoice_id t
    register ← bank.sync_payment_line u id b.register
    ok (record { store = announced (payment_updated id) u; register = register })

  unfoldable pub payment_unallocate : Context → String → Books R → Result (Books R)
  payment_unallocate ctx allocation_id b = do
    a ← found "Payment allocation" (find_allocation allocation_id b.store.allocations)
    p ← found "Payment" (b.store.payments a.payment_id)
    inv ← found "Invoice" (b.store.invoices a.invoice_id)
    t ← delete_allocation a b.store
    u ← settle_invoice ctx.now ctx.today a.invoice_id t
    register ← bank.sync_payment_line u a.payment_id b.register
    ok (record { store = announced (payment_updated a.payment_id) u; register = register })
