-- ===== src/Payments/Guards.antt =====
-- The guards of `allocate` in packages/core/src/modules/finance/payments.ts beside the triggers of
-- packages/db/src/migrations/0016_payments_rls.sql and 0044_books_lock_guards.sql.
use workloom.Base.{
  ◌≡◌, refl, sym, ap, ◌∙◌, Bool, true, false, not, Option, none, some, String, str_eq, Result, ok,
  err, database_error, books_locked, range_error, money_error, calculation_error, deduction_error,
  domain_error, not_found_error, validation_error, forbidden_error, conflict_error, ◌>>=◌, ◌>>◌,
  throw_if, on_ok, on_guard, ok_inj,
}
use workloom.Base.Int.{ℤ, pos, ◌-ℤ◌, ◌≤ℤ◌, leb_ℤ, ltb_ℤ}
use workloom.Payments.Store.{
  PaymentRow, InvoiceRow, Allocation, Store, is_closed, is_closed_row, found, allocated_sum,
  has_allocation, insert_allocation,
}
use workloom.Payments.Ledger.{IsLedger, invoice_id}
use workloom.Payments.Allocate.{
  AllocationInput, is_draft, put_against, room_of, amount_asked, allocate,
}
use workloom.Payments.Fits.{insert_fits, with_allocation}

-- A constraint or a trigger refused the call.
abbrev pub is_refused {ℓ} : {A : Type ℓ} → Result A → Bool
is_refused (ok a) = false
is_refused (err database_error) = true
is_refused (err books_locked) = true
is_refused (err (domain_error code)) = false
is_refused (err (not_found_error entity)) = false
is_refused (err (validation_error field)) = false
is_refused (err (forbidden_error permission)) = false
is_refused (err conflict_error) = false
is_refused (err range_error) = false
is_refused (err (money_error code)) = false
is_refused (err (calculation_error code field line)) = false
is_refused (err (deduction_error code)) = false

-- A guard with an error of its own leaves the rest of the call to what it lets through.
refused_after {ℓ} :
    {A : Type ℓ} (c : Bool) (code : String) (k : Result A)
    → (c ≡ false → is_refused k ≡ false)
    → is_refused (throw_if c (domain_error code) >> k) ≡ false
refused_after true code k h = refl
refused_after false code k h = h refl

-- A request that passes the guards puts what it asks for against the invoice.
is_refused-put_against :
    (new_id : String) (p : PaymentRow) (inv : InvoiceRow) (remaining amount : ℤ) (s : Store)
    → s.invoices inv.id ≡ some inv
    → s.payments p.id ≡ some p
    → remaining ≤ℤ p.amount -ℤ allocated_sum p.id s.allocations
    → has_allocation p.id inv.id s.allocations ≡ false
    → is_closed s.locked_through p.received_on ≡ false
    → IsLedger s
    → is_refused (put_against new_id p inv remaining (room_of p.kind inv) amount s) ≡ false
is_refused-put_against new_id p inv remaining amount s i_row p_row left fresh unlocked l =
    refused_after (leb_ℤ amount (pos 0)) _ _ λ h1. refused_after (ltb_ℤ remaining amount) _ _ λ h2.
      refused_after (ltb_ℤ (room_of p.kind inv) amount) _ _ λ h3.
        let row : Allocation = record {
          id = new_id;
          payment_id = p.id;
          invoice_id = inv.id;
          amount = amount;
        } in
        rw (insert_fits row inv p remaining s i_row p_row left h1 h2 h3 fresh unlocked l) refl

refused_after_conflict {ℓ} :
    {A : Type ℓ} (c : Bool) (k : Result A)
    → (c ≡ false → is_refused k ≡ false)
    → is_refused (throw_if c conflict_error >> k) ≡ false
refused_after_conflict true k h = refl
refused_after_conflict false k h = h refl

refused_after_found {ℓ κ} :
    {A : Type ℓ} {B : Type κ} (entity : String) (o : Option A) (k : A → Result B)
    → ((a : A) → o ≡ some a → is_refused (k a) ≡ false)
    → is_refused (found entity o >>= k) ≡ false
refused_after_found entity none k h = refl
refused_after_found entity (some a) k h = h a refl

-- In a ledger the guards of `allocate` come before the database's: whatever is asked for of a
-- payment that is there and whose day is not in closed books, with no more of it left than its
-- amount less what it is already put against, no constraint and no trigger refuses the row. What is wrong with a request is always
-- said by an error of the procedure's own.
pub is_refused-allocate :
    (new_id : String) (p : PaymentRow) (request : AllocationInput) (remaining : ℤ) (s : Store)
    → s.payments p.id ≡ some p
    → remaining ≤ℤ p.amount -ℤ allocated_sum p.id s.allocations
    → is_closed s.locked_through p.received_on ≡ false
    → IsLedger s
    → is_refused (allocate new_id p request remaining s) ≡ false
unfolding allocate
is_refused-allocate new_id p request remaining s p_row left unlocked l =
    refused_after_found "Invoice" (s.invoices request.invoice_id) _ λ inv row.
      let same_id = invoice_id request.invoice_id s inv l.invoice_ids row in
      refused_after (is_draft inv.status) _ _ λ _.
        refused_after (not (str_eq inv.currency p.currency)) _ _ λ _.
          refused_after_conflict (has_allocation p.id inv.id s.allocations) _ λ fresh.
            is_refused-put_against new_id p inv remaining
              (amount_asked request.amount remaining (room_of p.kind inv)) s
              (ap s.invoices same_id ∙ row) p_row left fresh unlocked l

abbrev pub allocation_of : String → PaymentRow → InvoiceRow → ℤ → Allocation
allocation_of new_id p inv amount = record {
  id = new_id;
  payment_id = p.id;
  invoice_id = inv.id;
  amount = amount;
}

insert_allocation-not_closed :
    (a : Allocation) (p : PaymentRow) (s : Store) {t : Store}
    → insert_allocation a s ≡ ok t
    → s.payments a.payment_id ≡ some p
    → is_closed s.locked_through p.received_on ≡ false
unfolding insert_allocation
insert_allocation-not_closed a p s h row =
    on_guard (is_closed_row s.locked_through (s.payments a.payment_id)) _ _ h
      λ unlocked _. rw row at unlocked

put_against-eq-with_allocation :
    (new_id : String) (p : PaymentRow) (inv : InvoiceRow) (remaining amount : ℤ) (s : Store)
    {r : Store × ℤ}
    → put_against new_id p inv remaining (room_of p.kind inv) amount s ≡ ok r
    → s.invoices inv.id ≡ some inv
    → s.payments p.id ≡ some p
    → remaining ≤ℤ p.amount -ℤ allocated_sum p.id s.allocations
    → has_allocation p.id inv.id s.allocations ≡ false
    → IsLedger s
    → r ≡ (with_allocation (allocation_of new_id p inv amount) p.kind inv s, amount)
put_against-eq-with_allocation new_id p inv remaining amount s h i_row p_row left fresh l =
    on_guard (leb_ℤ amount (pos 0)) _ _ h λ h1 k1. on_guard (ltb_ℤ remaining amount) _ _ k1 λ h2 k2.
      on_guard (ltb_ℤ (room_of p.kind inv) amount) _ _ k2 λ h3 k3.
        let row = allocation_of new_id p inv amount in
        on_ok (insert_allocation row s) _ k3 λ t e _.
          let unlocked = insert_allocation-not_closed row p s e p_row in
          sym (
            ok_inj (
              rw (insert_fits row inv p remaining s i_row p_row left h1 h2 h3 fresh unlocked l) at
                k3))

-- In a ledger, what `allocate` returns is the amount asked for, or as much as is left and fits, and
-- the store with one more row, of that amount, and with the invoice's `amount_paid` moved by it, down
-- for a refund. Nothing else is written.
pub allocate-eq-with_allocation :
    (new_id : String) (p : PaymentRow) (request : AllocationInput) (remaining : ℤ) (s : Store)
    (inv : InvoiceRow) (r : Store × ℤ)
    → allocate new_id p request remaining s ≡ ok r
    → s.invoices request.invoice_id ≡ some inv
    → s.payments p.id ≡ some p
    → remaining ≤ℤ p.amount -ℤ allocated_sum p.id s.allocations
    → IsLedger s
    → r ≡ (
      with_allocation
          (allocation_of new_id p inv (amount_asked request.amount remaining (room_of p.kind inv)))
          p.kind
          inv
          s,
      amount_asked request.amount remaining (room_of p.kind inv),
    )
unfolding allocate
allocate-eq-with_allocation new_id p request remaining s inv r h row p_row left l =
    let same_id = invoice_id request.invoice_id s inv l.invoice_ids row in
    on_guard (is_draft inv.status) _ _ (rw row at h) λ _ h1.
      on_guard (not (str_eq inv.currency p.currency)) _ _ h1 λ _ h2.
        on_guard (has_allocation p.id inv.id s.allocations) _ _ h2 λ fresh h3.
          put_against-eq-with_allocation new_id p inv remaining
            (amount_asked request.amount remaining (room_of p.kind inv)) s h3
            (ap s.invoices same_id ∙ row) p_row left fresh l
