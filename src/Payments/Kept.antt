-- ===== src/Payments/Kept.antt =====
-- What the writes of packages/core/src/modules/finance/payments.ts and the triggers of
-- packages/db/src/migrations/0016_payments_rls.sql leave as it was.
use workloom.Base.{
  ◌≡◌, refl, ◌∙◌, ℕ, suc, not, ◌&&◌, Option, none, some, List, [], ◌∷◌, ◌++◌, String, str_eq, ok,
  on_ok, on_guard, ok_inj, Bool-cases, inl, inr,
}
use workloom.Base.Int.{ℤ, pos, ◌-ℤ◌, is_negative, leb_ℤ, ltb_ℤ}
use workloom.Money.Decimal.{Text}
use workloom.Invoices.Settlement.{settlement_status, status_eq, paid_at}
use workloom.Payments.Store.{
  PaymentRow, InvoiceRow, InvoiceStatus, draft, cancelled, issued, Allocation, Store, found,
  is_closed_row, paid_sum, allocated_sum, settle_row, settle_paid, check_row, check_allocated,
  has_allocation, insert_allocation, remove_allocations_of, settle_each,
}
use workloom.Payments.Sums.{str_eq_refl}
use workloom.Payments.Settle.{
  Context, settlement_of, same_time, refunded_against, settle_status, settle_invoice, sorted_set,
  settle_in_order, settle_all,
}
use workloom.Payments.Allocate.{AllocationInput, is_draft, room_of, amount_asked, allocate}
use workloom.Payments.Inputs.{allocate_each}

-- The payments and the allocations are the same.
pub record IsKept (s t : Store) : Type 0 where
  pub payments : t.payments ≡ s.payments
  pub allocations : t.allocations ≡ s.allocations

IsKept-refl : (s : Store) → IsKept s s
IsKept-refl s = record { payments = refl; allocations = refl }

pub IsKept-trans : {s t u : Store} → IsKept s t → IsKept t u → IsKept s u
IsKept-trans a b = record {
  payments = b.payments ∙ a.payments;
  allocations = b.allocations ∙ a.allocations;
}

settle_row-IsKept :
    (id : String) (sum : ℤ) (o : Option InvoiceRow) (s t : Store)
    → settle_row id sum o s ≡ ok t
    → IsKept s t
settle_row-IsKept id sum none s t h = rw (← ok_inj h) (IsKept-refl s)
settle_row-IsKept id sum (some inv) s t h = on_guard (is_negative sum) _ _ h λ _ h1.
    on_guard (ltb_ℤ inv.total sum) _ _ h1
      λ _ h2. rw (← ok_inj h2) (record { payments = refl; allocations = refl })

settle_paid-IsKept : (id : String) (s t : Store) → settle_paid id s ≡ ok t → IsKept s t
unfolding settle_paid
settle_paid-IsKept id s t h =
    settle_row-IsKept id (paid_sum id s.payments s.allocations) (s.invoices id) s t h

check_row-IsKept :
    (sum : ℤ) (o : Option PaymentRow) (s t : Store) → check_row sum o s ≡ ok t → IsKept s t
check_row-IsKept sum none s t h = rw (← ok_inj h) (IsKept-refl s)
check_row-IsKept sum (some p) s t h =
    on_guard (ltb_ℤ p.amount sum) _ _ h λ _ h1. rw (← ok_inj h1) (IsKept-refl s)

pub settle_each-IsKept : (ids : List String) (s t : Store) → settle_each ids s ≡ ok t → IsKept s t
unfolding settle_each
settle_each-IsKept [] s t h = rw (← ok_inj h) (IsKept-refl s)
settle_each-IsKept (id ∷ ids) s t h =
    on_ok (settle_paid id s) _ h
      λ u e h1. IsKept-trans (settle_paid-IsKept id s u e) (settle_each-IsKept ids u t h1)

settle_status-IsKept :
    (now : ℕ) (on : Text) (inv : InvoiceRow) (status : InvoiceStatus) (s t : Store)
    → settle_status now on inv status s ≡ ok t
    → IsKept s t
settle_status-IsKept now on inv draft s t h = rw (← ok_inj h) (IsKept-refl s)
settle_status-IsKept now on inv cancelled s t h = rw (← ok_inj h) (IsKept-refl s)
settle_status-IsKept now on inv (issued from) s t h =
    on_ok (refunded_against inv.id s.payments s.allocations) _ h λ back _ h1.
      let status = settlement_status (settlement_of on inv back) in
      elim (Bool-cases
        (status_eq status from && same_time (paid_at status inv.paid_at now) inv.paid_at)) [
          | inl same ↦ rw (← ok_inj h1, same) (IsKept-refl s)
          | inr moved ↦ rw (← ok_inj h1, moved) (record { payments = refl; allocations = refl })
        ]

pub settle_invoice-IsKept :
    (now : ℕ) (on : Text) (id : String) (s t : Store)
    → settle_invoice now on id s ≡ ok t
    → IsKept s t
unfolding settle_invoice
settle_invoice-IsKept now on id s t h =
    on_ok (found "Invoice" (s.invoices id)) _ h
      λ inv _ h1. settle_status-IsKept now on inv inv.status s t h1

settle_in_order-IsKept :
    (now : ℕ) (on : Text) (ids : List String) (s t : Store)
    → settle_in_order now on ids s ≡ ok t
    → IsKept s t
unfolding settle_in_order
settle_in_order-IsKept now on [] s t h = rw (← ok_inj h) (IsKept-refl s)
settle_in_order-IsKept now on (id ∷ ids) s t h = on_ok (settle_invoice now on id s) _ h λ u e h1.
    IsKept-trans (settle_invoice-IsKept now on id s u e) (settle_in_order-IsKept now on ids u t h1)

pub settle_all-IsKept :
    (ctx : Context) (ids : List String) (s t : Store) → settle_all ctx ids s ≡ ok t → IsKept s t
unfolding settle_all
settle_all-IsKept ctx ids s t h = settle_in_order-IsKept ctx.now ctx.today (sorted_set ids) s t h

-- Without the rows of a payment, the tables are the same.
pub record IsKeptBut (id : String) (s t : Store) : Type 0 where
  pub payments : t.payments ≡ s.payments
  pub allocations : remove_allocations_of id t.allocations ≡ remove_allocations_of id s.allocations

remove_allocations_of-snoc :
    (xs : List Allocation) (a : Allocation)
    → remove_allocations_of a.payment_id (xs ++ a ∷ []) ≡ remove_allocations_of a.payment_id xs
unfolding remove_allocations_of
remove_allocations_of-snoc [] a = rw (str_eq_refl a.payment_id) refl
remove_allocations_of-snoc (x ∷ xs) a = rw (remove_allocations_of-snoc xs a) refl

insert_allocation-IsKeptBut :
    (a : Allocation) (s t : Store) → insert_allocation a s ≡ ok t → IsKeptBut a.payment_id s t
unfolding insert_allocation check_allocated
insert_allocation-IsKeptBut a s t h0 =
    on_guard (is_closed_row s.locked_through (s.payments a.payment_id)) _ _ h0 λ _ h.
      on_guard (leb_ℤ a.amount (pos 0)) _ _ h λ _ h1.
        on_guard (has_allocation a.payment_id a.invoice_id s.allocations) _ _ h1 λ _ h2.
          let written = record s { allocations = s.allocations ++ a ∷ [] } in
          on_ok (settle_paid a.invoice_id written) _ h2 λ u e h3.
            let all = IsKept-trans (settle_paid-IsKept a.invoice_id written u e) (
              check_row-IsKept (allocated_sum a.payment_id u.allocations) (u.payments a.payment_id)
                u t h3) in
            record {
              payments = all.payments;
              allocations = rw all.allocations (remove_allocations_of-snoc s.allocations a);
            }

allocate-IsKeptBut :
    (new_id : String) (p : PaymentRow) (request : AllocationInput) (remaining : ℤ) (s : Store)
    {r : Store × ℤ}
    → allocate new_id p request remaining s ≡ ok r
    → IsKeptBut p.id s r.0
unfolding allocate
allocate-IsKeptBut new_id p request remaining s h =
    on_ok (found "Invoice" (s.invoices request.invoice_id)) _ h λ inv _ h1.
      on_guard (is_draft inv.status) _ _ h1 λ _ h2.
        on_guard (not (str_eq inv.currency p.currency)) _ _ h2 λ _ h3.
          on_guard (has_allocation p.id inv.id s.allocations) _ _ h3 λ _ h4.
            let room = room_of p.kind inv in
            let amount = amount_asked request.amount remaining room in
            on_guard (leb_ℤ amount (pos 0)) _ _ h4 λ _ h5.
              on_guard (ltb_ℤ remaining amount) _ _ h5 λ _ h6.
                on_guard (ltb_ℤ room amount) _ _ h6 λ _ h7.
                  let row : Allocation = record {
                    id = new_id;
                    payment_id = p.id;
                    invoice_id = inv.id;
                    amount = amount;
                  } in
                  on_ok (insert_allocation row s) _ h7
                    λ t e h8. rw (← ok_inj h8) (insert_allocation-IsKeptBut row s t e)

pub allocate_each-IsKeptBut :
    (new_ids : ℕ → String) (i : ℕ) (p : PaymentRow) (requests : List AllocationInput)
    (remaining : ℤ) (s t : Store)
    → allocate_each new_ids i p requests remaining s ≡ ok t
    → IsKeptBut p.id s t
unfolding allocate_each
allocate_each-IsKeptBut new_ids i p [] remaining s t h =
    rw (← ok_inj h) (record { payments = refl; allocations = refl })
allocate_each-IsKeptBut new_ids i p (request ∷ requests) remaining s t h =
    on_ok (allocate (new_ids i) p request remaining s) _ h λ r e h1.
      let one = allocate-IsKeptBut (new_ids i) p request remaining s e in
      let rest = allocate_each-IsKeptBut new_ids (suc i) p requests (remaining -ℤ r.1) r.0 t h1 in
      record {
        payments = rest.payments ∙ one.payments;
        allocations = rest.allocations ∙ one.allocations;
      }
