-- ===== src/Payments/Rows.antt =====
-- Rows of allocations and payments written and deleted, with the triggers of
-- packages/db/src/migrations/0016_payments_rls.sql: each leaves a ledger.
use workloom.Base.{
  ◌≡◌, refl, true, false, none, some, List, [], ◌∷◌, ◌++◌, String, str_eq, ok, on_ok, on_guard,
  ok_inj, Bool-cases, inl, inr, arith,
}
use workloom.Base.Int.{ℤ, pos, ◌≤ℤ◌, leb_ℤ, eqb_ℤ}
use workloom.Payments.Store.{
  PaymentRow, Allocation, Store, put, is_closed_row, is_locked_update, allocated_sum,
  has_allocation, settle_paid, check_allocated, insert_allocation, find_allocation,
  remove_allocation, delete_allocation, allocated_to, remove_allocations_of, delete_payment,
  update_payment,
}
use workloom.Payments.Sums.{
  put-other, put_cases, str_ne_comm, is_in, paid_sum-snoc_other, allocated_sum-snoc_other,
  paid_sum-remove_other, allocated_sum-remove_other, or_false,
}
use workloom.Payments.Taken.{
  paid_sum-remove_allocations_of, allocated_sum-remove_allocations_of, paid_sum-put_same_kind,
  paid_sum-put_fresh, allocated_sum-fresh,
}
use workloom.Payments.Ledger.{
  HasPaymentId, Covers, IsLedger, IsLedgerBut, IsLedgerBut-none, settle_paid-IsLedgerBut,
  check_allocated-IsLedgerBut, settle_each-IsLedgerBut,
}

one_id : (x id : String) → is_in id (x ∷ []) ≡ false → str_eq x id ≡ false
one_id x id h = (or_false (str_eq x id) false h).0

pub insert_allocation-IsLedger :
    (a : Allocation) (s t : Store) → insert_allocation a s ≡ ok t → IsLedger s → IsLedger t
unfolding insert_allocation
insert_allocation-IsLedger a s t h0 l =
    on_guard (is_closed_row s.locked_through (s.payments a.payment_id)) _ _ h0 λ _ h.
      on_guard (leb_ℤ a.amount (pos 0)) _ _ h λ _ h1.
        on_guard (has_allocation a.payment_id a.invoice_id s.allocations) _ _ h1 λ _ h2.
          let written = record s { allocations = s.allocations ++ a ∷ [] } in
          let start : IsLedgerBut (a.invoice_id ∷ []) (a.payment_id ∷ []) written = record {
            invoice_ids = l.invoice_ids;
            payment_ids = l.payment_ids;
            invoices_paid = λ key k.
                rw (paid_sum-snoc_other key s.payments s.allocations a (one_id a.invoice_id key k))
                  (l.invoices_paid key);
            payments_cover = λ key k.
                rw (allocated_sum-snoc_other key s.allocations a (one_id a.payment_id key k))
                  (l.payments_cover key);
          } in
          on_ok (settle_paid a.invoice_id written) _ h2 λ u e h3. IsLedgerBut-none (
            check_allocated-IsLedgerBut a.payment_id [] [] u t h3
              (settle_paid-IsLedgerBut a.invoice_id [] (a.payment_id ∷ []) written u e start))

pub delete_allocation-IsLedger :
    (a : Allocation) (s t : Store)
    → find_allocation a.id s.allocations ≡ some a
    → delete_allocation a s ≡ ok t
    → IsLedger s
    → IsLedger t
unfolding delete_allocation
delete_allocation-IsLedger a s t row h l =
    let rest = record s { allocations = remove_allocation a.id s.allocations } in
    let start : IsLedgerBut (a.invoice_id ∷ []) (a.payment_id ∷ []) rest = record {
      invoice_ids = l.invoice_ids;
      payment_ids = l.payment_ids;
      invoices_paid = λ key k.
          rw
            (paid_sum-remove_other key a.id s.payments s.allocations a row
              (one_id a.invoice_id key k))
            (l.invoices_paid key);
      payments_cover = λ key k.
          rw (allocated_sum-remove_other key a.id s.allocations a row (one_id a.payment_id key k))
            (l.payments_cover key);
    } in
    on_guard (is_closed_row s.locked_through (s.payments a.payment_id)) _ _ h λ _ h0.
      on_ok (settle_paid a.invoice_id rest) _ h0 λ u e h1. IsLedgerBut-none (
        check_allocated-IsLedgerBut a.payment_id [] [] u t h1
          (settle_paid-IsLedgerBut a.invoice_id [] (a.payment_id ∷ []) rest u e start))

pub delete_payment-IsLedger :
    (id : String) (s t : Store) → delete_payment id s ≡ ok t → IsLedger s → IsLedger t
unfolding delete_payment
delete_payment-IsLedger id s t h0 l =
    on_guard (is_closed_row s.locked_through (s.payments id)) _ _ h0 λ _ h. IsLedgerBut-none (
      settle_each-IsLedgerBut (allocated_to id s.allocations) [] _ t h (record {
        invoice_ids = l.invoice_ids;
        payment_ids =
            λ key. put_cases HasPaymentId id none s.payments key tt (λ _. l.payment_ids key);
        invoices_paid = λ key k.
            rw (paid_sum-remove_allocations_of key id s.payments s.allocations k)
              (l.invoices_paid key);
        payments_cover = λ key _.
            put_cases (λ key. Covers (allocated_sum key (remove_allocations_of id s.allocations)))
              id none s.payments key tt
              (λ other.
                rw (allocated_sum-remove_allocations_of key id s.allocations other)
                  (l.payments_cover key));
      }))

-- No row is a payment's, and it has been put against nothing: `newId` gives a new id.
abbrev pub IsFresh : String → Store → Type 0
IsFresh id s = (s.payments id ≡ none) × (allocated_to id s.allocations ≡ [])

pub insert_payment-IsLedger :
    (p : PaymentRow) (s : Store)
    → IsFresh p.id s
    → pos 0 ≤ℤ p.amount
    → IsLedger s
    → IsLedger (record s { payments = put p.id (some p) s.payments })
insert_payment-IsLedger p s fresh h l = record {
  invoice_ids = l.invoice_ids;
  payment_ids =
      λ key. put_cases HasPaymentId p.id (some p) s.payments key refl (λ _. l.payment_ids key);
  invoices_paid = λ key.
      rw (paid_sum-put_fresh key p.id (some p) s.payments s.allocations fresh.1)
        (l.invoices_paid key);
  payments_cover = λ key.
      put_cases (λ key. Covers (allocated_sum key s.allocations)) p.id (some p) s.payments key
        (rw (allocated_sum-fresh p.id s.allocations fresh.1) h) (λ _. l.payments_cover key);
}

covered : (sum a b : ℤ) → eqb_ℤ a b ≡ true → sum ≤ℤ b → sum ≤ℤ a
covered sum a b h k = ground arith

updated-IsLedgerBut :
    (before p : PaymentRow) (s : Store)
    → s.payments p.id ≡ some before
    → p.kind ≡ before.kind
    → IsLedger s
    → IsLedgerBut [] (p.id ∷ []) (record s { payments = put p.id (some p) s.payments })
updated-IsLedgerBut before p s row kind l = record {
  invoice_ids = l.invoice_ids;
  payment_ids =
      λ key. put_cases HasPaymentId p.id (some p) s.payments key refl (λ _. l.payment_ids key);
  invoices_paid = λ key _.
      rw (paid_sum-put_same_kind key s.payments p before s.allocations row kind)
        (l.invoices_paid key);
  payments_cover = λ key k.
      rw (put-other p.id key (some p) s.payments (str_ne_comm p.id key (one_id p.id key k)))
        (l.payments_cover key);
}

-- The same amount covers what the old row covered.
same_amount :
    (before p : PaymentRow) (s : Store)
    → s.payments p.id ≡ some before
    → eqb_ℤ p.amount before.amount ≡ true
    → IsLedger s
    → IsLedgerBut [] (p.id ∷ []) (record s { payments = put p.id (some p) s.payments })
    → IsLedger (record s { payments = put p.id (some p) s.payments })
same_amount before p s row same l but = record {
  invoice_ids = but.invoice_ids;
  payment_ids = but.payment_ids;
  invoices_paid = λ key. but.invoices_paid key refl;
  payments_cover = λ key.
      put_cases (λ key. Covers (allocated_sum key s.allocations)) p.id (some p) s.payments key
        (covered (allocated_sum p.id s.allocations) p.amount before.amount same
          (rw row at (l.payments_cover p.id)))
        (λ _. l.payments_cover key);
}

some_left : (ids : List String) (s : Store) → IsLedgerBut [] [] s → IsLedgerBut ids [] s
some_left ids s but = record {
  invoice_ids = but.invoice_ids;
  payment_ids = but.payment_ids;
  invoices_paid = λ key _. but.invoices_paid key refl;
  payments_cover = but.payments_cover;
}

-- A correction that keeps the payment's kind.
pub update_payment-IsLedger :
    (before p : PaymentRow) (s t : Store)
    → s.payments p.id ≡ some before
    → p.kind ≡ before.kind
    → update_payment before p s ≡ ok t
    → IsLedger s
    → IsLedger t
unfolding update_payment
update_payment-IsLedger before p s t row kind h0 l =
    on_guard (is_locked_update s.locked_through before p) _ _ h0 λ _ h.
      let but = updated-IsLedgerBut before p s row kind l in
      elim (Bool-cases (eqb_ℤ p.amount before.amount)) [
        | inl same ↦ rw (← ok_inj (rw same at h)) (same_amount before p s row same l but)
        | inr other ↦
            on_ok (check_allocated p.id (record s { payments = put p.id (some p) s.payments })) _
              (rw other at h)
              λ u e h1. IsLedgerBut-none (
                settle_each-IsLedgerBut (allocated_to p.id u.allocations) [] u t h1
                  (some_left _ u (check_allocated-IsLedgerBut p.id [] [] _ u e but)))
      ]
