-- ===== src/Payments/Allocate.antt =====
-- `allocate` of packages/core/src/modules/finance/payments.ts: putting part of a payment against
-- an invoice.
use workloom.Base.{
  Bool, true, false, not, if◌then◌else◌, Option, none, some, String, str_eq, Result, ok, ◌>>=◌,
  ◌>>◌, throw_if, domain_error, conflict_error,
}
use workloom.Base.Int.{ℤ, pos, ◌-ℤ◌, ltb_ℤ, leb_ℤ}
use workloom.Payments.Store.{
  PaymentKind, payment, refund, PaymentRow, InvoiceRow, InvoiceStatus, draft, cancelled, issued,
  Allocation, Store, found, has_allocation, insert_allocation,
}

-- A request: `amount` none is as much as the invoice still owes.
pub record AllocationInput : Type 0 where
  pub invoice_id : String
  pub amount : Option ℤ

abbrev pub is_draft : InvoiceStatus → Bool
is_draft draft = true
is_draft cancelled = false
is_draft (issued s) = false

-- `Math.min` and `Math.max`.
abbrev pub min_ℤ : ℤ → ℤ → ℤ
min_ℤ a b = if leb_ℤ a b then a else b

abbrev pub max_ℤ : ℤ → ℤ → ℤ
max_ℤ a b = if leb_ℤ a b then b else a

abbrev pub room_of : PaymentKind → InvoiceRow → ℤ
room_of refund inv = inv.amount_paid
room_of payment inv = inv.total -ℤ inv.amount_paid

abbrev pub amount_asked : Option ℤ → ℤ → ℤ → ℤ
amount_asked (some amount) remaining room = amount
amount_asked none remaining room = min_ℤ remaining (max_ℤ room (pos 0))

-- The guards on the amount, and the row.
abbrev pub put_against : String → PaymentRow → InvoiceRow → ℤ → ℤ → ℤ → Store → Result (Store × ℤ)
put_against new_id p inv remaining room amount s = do
  throw_if (leb_ℤ amount (pos 0)) (domain_error "nothing_to_allocate")
  throw_if (ltb_ℤ remaining amount) (domain_error "payment_over_allocated")
  throw_if (ltb_ℤ room amount) (domain_error "invoice_over_allocated")
  let row : Allocation = record {
    id = new_id;
    payment_id = p.id;
    invoice_id = inv.id;
    amount = amount;
  }
  t ← insert_allocation row s
  ok (t, amount)

unfoldable pub allocate : String → PaymentRow → AllocationInput → ℤ → Store → Result (Store × ℤ)
allocate new_id p request remaining s = do
  inv ← found "Invoice" (s.invoices request.invoice_id)
  throw_if (is_draft inv.status) (domain_error "invoice_not_sent")
  throw_if (not (str_eq inv.currency p.currency)) (domain_error "currency_mismatch")
  throw_if (has_allocation p.id inv.id s.allocations) conflict_error
  put_against new_id p inv remaining (room_of p.kind inv)
      (amount_asked request.amount remaining (room_of p.kind inv)) s
