-- ===== src/Payments/Keeps.antt =====
-- Every procedure of packages/core/src/modules/finance/payments.ts that writes leaves a ledger.
use workloom.Base.{
  ◌≡◌, refl, ℕ, suc, not, if◌then◌else◌, Option, some, List, [], ◌∷◌, String, str_eq, ok, on_ok,
  on_guard, ok_inj, map,
}
use workloom.Base.Int.{ℤ, pos, ◌-ℤ◌, ◌≤ℤ◌, leb_ℤ, ltb_ℤ}
use workloom.Money.{to_safe_number}
use workloom.Money.Decimal.{Text}
use workloom.Money.Convert.{convert}
use workloom.Payments.Store.{
  PaymentRow, InvoiceRow, Allocation, Store, put, is_closed, found, has_allocation,
  insert_allocation,
}
use workloom.Payments.Ledger.{IsLedger}
use workloom.Payments.Settled.{settle_invoice-IsLedger, settle_all-IsLedger}
use workloom.Payments.Rows.{IsFresh, insert_allocation-IsLedger, insert_payment-IsLedger}
use workloom.Payments.Settle.{Context, settle_invoice}
use workloom.Payments.Allocate.{
  AllocationInput, is_draft, put_against, room_of, amount_asked, allocate,
}
use workloom.Payments.Handlers.{due_invoices, settle_due, mark_overdue_invoices}
use workloom.Payments.Inputs.{
  rate_given, in_base_currency, allocate_each, request_invoice, record_in,
}

put_against-IsLedger :
    (new_id : String) (p : PaymentRow) (inv : InvoiceRow) (remaining room amount : ℤ) (s : Store)
    {r : Store × ℤ}
    → put_against new_id p inv remaining room amount s ≡ ok r
    → IsLedger s
    → IsLedger r.0
put_against-IsLedger new_id p inv remaining room amount s h l =
    on_guard (leb_ℤ amount (pos 0)) _ _ h λ _ h1. on_guard (ltb_ℤ remaining amount) _ _ h1 λ _ h2.
      on_guard (ltb_ℤ room amount) _ _ h2 λ _ h3.
        let row : Allocation = record {
          id = new_id;
          payment_id = p.id;
          invoice_id = inv.id;
          amount = amount;
        } in
        on_ok (insert_allocation row s) _ h3
          λ t e h4. rw (← ok_inj h4) (insert_allocation-IsLedger row s t e l)

pub allocate-IsLedger :
    (new_id : String) (p : PaymentRow) (request : AllocationInput) (remaining : ℤ) (s : Store)
    {r : Store × ℤ}
    → allocate new_id p request remaining s ≡ ok r
    → IsLedger s
    → IsLedger r.0
unfolding allocate
allocate-IsLedger new_id p request remaining s h l =
    on_ok (found "Invoice" (s.invoices request.invoice_id)) _ h λ inv _ h1.
      on_guard (is_draft inv.status) _ _ h1 λ _ h2.
        on_guard (not (str_eq inv.currency p.currency)) _ _ h2 λ _ h3.
          on_guard (has_allocation p.id inv.id s.allocations) _ _ h3 λ _ h4.
            put_against-IsLedger new_id p inv remaining (room_of p.kind inv)
              (amount_asked request.amount remaining (room_of p.kind inv)) s h4 l

allocate_each-IsLedger :
    (new_ids : ℕ → String) (i : ℕ) (p : PaymentRow) (requests : List AllocationInput)
    (remaining : ℤ) (s t : Store)
    → allocate_each new_ids i p requests remaining s ≡ ok t
    → IsLedger s
    → IsLedger t
unfolding allocate_each
allocate_each-IsLedger new_ids i p [] remaining s t h l = rw (← ok_inj h) l
allocate_each-IsLedger new_ids i p (request ∷ requests) remaining s t h l =
    on_ok (allocate (new_ids i) p request remaining s) _ h λ r e h1.
      allocate_each-IsLedger new_ids (suc i) p requests (remaining -ℤ r.1) r.0 t h1
        (allocate-IsLedger (new_ids i) p request remaining s e l)

-- What a conversion leaves of the row: its id and its kind, with the amount given.
pub in_base_currency_kept :
    (ctx : Context) (p : PaymentRow) (amount : ℤ) (given : Option Text) {q : PaymentRow}
    → in_base_currency ctx p amount given ≡ ok q
    → (q.id ≡ p.id) × (q.kind ≡ p.kind) × (q.amount ≡ amount)
unfolding in_base_currency
in_base_currency_kept ctx p amount given h =
    on_ok (rate_given (if str_eq p.currency ctx.base_currency then some (b'1' ∷ []) else given)) _ h
      λ rate _ h1. on_ok (convert amount p.currency ctx.base_currency rate) _ h1 λ converted _ h2.
        on_ok (to_safe_number converted) _ h2 λ safe _ h3. rw (← ok_inj h3) (refl, refl, refl)

pub record_in-IsLedger :
    (ctx : Context) (new_ids : ℕ → String) (p : PaymentRow) (requests : List AllocationInput)
    (s t : Store)
    → record_in ctx new_ids p requests s ≡ ok t
    → IsFresh p.id s
    → pos 0 ≤ℤ p.amount
    → IsLedger s
    → IsLedger t
unfolding record_in
record_in-IsLedger ctx new_ids p requests s t h fresh positive l =
    let start = record s { payments = put p.id (some p) s.payments } in
    on_guard (is_closed s.locked_through p.received_on) _ _ h λ _ h0.
      on_ok (allocate_each new_ids 0 p requests p.amount start) _ h0 λ u e h1.
        settle_all-IsLedger ctx (map request_invoice requests) u t h1 (
          allocate_each-IsLedger new_ids 0 p requests p.amount start u e
            (insert_payment-IsLedger p s fresh positive l))

settle_due-IsLedger :
    (ctx : Context) (ids : List String) (s t : Store)
    → settle_due ctx ids s ≡ ok t
    → IsLedger s
    → IsLedger t
unfolding settle_due
settle_due-IsLedger ctx [] s t h l = rw (← ok_inj h) l
settle_due-IsLedger ctx (id ∷ ids) s t h l =
    on_ok (settle_invoice ctx.now ctx.today id s) _ h λ u e h1.
      settle_due-IsLedger ctx ids u t h1 (settle_invoice-IsLedger ctx.now ctx.today id s u e l)

pub mark_overdue_invoices-IsLedger :
    (ctx : Context) (rows : List String) (s t : Store)
    → mark_overdue_invoices ctx rows s ≡ ok t
    → IsLedger s
    → IsLedger t
unfolding mark_overdue_invoices
mark_overdue_invoices-IsLedger ctx rows s t h l =
    settle_due-IsLedger ctx (due_invoices ctx.today rows s) s t h l
