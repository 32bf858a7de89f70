-- ===== src/Payments/Ledger.antt =====
-- The ledger's invariant and the triggers of packages/db/src/migrations/0016_payments_rls.sql that
-- keep it, with the status changes of `settleInvoice` in payments.ts.
use workloom.Base.{
  ◌≡◌, refl, false, Option, none, some, List, [], ◌∷◌, String, str_eq, str_eq_iff, ok, on_ok,
  on_guard, ok_inj, Bool-cases, inl, inr, arith,
}
use workloom.Base.Int.{ℤ, pos, ◌≤ℤ◌, is_negative, ltb_ℤ}
use workloom.Payments.Store.{
  PaymentRow, InvoiceRow, Store, paid_sum, allocated_sum, settle_row, settle_paid, check_row,
  check_allocated, settle_each,
}
use workloom.Payments.Sums.{str_ne_comm, is_in, put_cases}

abbrev pub HasInvoiceId : String → Option InvoiceRow → Type 0
HasInvoiceId id none = Unit
HasInvoiceId id (some inv) = inv.id ≡ id

abbrev pub HasPaymentId : String → Option PaymentRow → Type 0
HasPaymentId id none = Unit
HasPaymentId id (some p) = p.id ≡ id

-- An invoice has been paid what its allocations come to, no less than nothing and no more than its
-- total.
abbrev pub IsPaid : ℤ → Option InvoiceRow → Type 0
IsPaid sum none = Unit
IsPaid sum (some inv) = (inv.amount_paid ≡ sum) × (pos 0 ≤ℤ sum) × (sum ≤ℤ inv.total)

-- A payment is put against invoices for no more than it is worth.
abbrev pub Covers : ℤ → Option PaymentRow → Type 0
Covers sum none = Unit
Covers sum (some p) = sum ≤ℤ p.amount

abbrev pub InvoicePaid : Store → String → Type 0
InvoicePaid s id = IsPaid (paid_sum id s.payments s.allocations) (s.invoices id)

abbrev pub PaymentCovers : Store → String → Type 0
PaymentCovers s id = Covers (allocated_sum id s.allocations) (s.payments id)

pub record IsLedger (s : Store) : Type 0 where
  pub invoice_ids : (id : String) → HasInvoiceId id (s.invoices id)
  pub payment_ids : (id : String) → HasPaymentId id (s.payments id)
  pub invoices_paid : (id : String) → InvoicePaid s id
  pub payments_cover : (id : String) → PaymentCovers s id

-- The ledger while the invoices and the payments of two lists are still to be settled.
pub record IsLedgerBut (invoices payments : List String) (s : Store) : Type 0 where
  pub invoice_ids : (id : String) → HasInvoiceId id (s.invoices id)
  pub payment_ids : (id : String) → HasPaymentId id (s.payments id)
  pub invoices_paid : (id : String) → is_in id invoices ≡ false → InvoicePaid s id
  pub payments_cover : (id : String) → is_in id payments ≡ false → PaymentCovers s id

pub IsLedgerBut-none : {s : Store} → IsLedgerBut [] [] s → IsLedger s
IsLedgerBut-none h = record {
  invoice_ids = h.invoice_ids;
  payment_ids = h.payment_ids;
  invoices_paid = λ id. h.invoices_paid id refl;
  payments_cover = λ id. h.payments_cover id refl;
}

paid_range :
    (sum total : ℤ)
    → is_negative sum ≡ false
    → ltb_ℤ total sum ≡ false
    → (pos 0 ≤ℤ sum) × (sum ≤ℤ total)
paid_range sum total h k = ground arith

pub invoice_id :
    (id : String) (s : Store) (inv : InvoiceRow)
    → ((key : String) → HasInvoiceId key (s.invoices key))
    → s.invoices id ≡ some inv
    → inv.id ≡ id
invoice_id id s inv h row = rw row at (h id)

pub payment_id :
    (id : String) (s : Store) (p : PaymentRow)
    → ((key : String) → HasPaymentId key (s.payments key))
    → s.payments id ≡ some p
    → p.id ≡ id
payment_id id s p h row = rw row at (h id)

-- What `settle_paid` leaves: the same payments and allocations, the invoice paid, and the others as
-- they were.
settle_row-IsLedgerBut :
    (id : String) (ids ps : List String) (s t : Store) (o : Option InvoiceRow)
    → s.invoices id ≡ o
    → settle_row id (paid_sum id s.payments s.allocations) o s ≡ ok t
    → IsLedgerBut (id ∷ ids) ps s
    → IsLedgerBut ids ps t
settle_row-IsLedgerBut id ids ps s t none row h l = rw (← ok_inj h) (record {
  invoice_ids = l.invoice_ids;
  payment_ids = l.payment_ids;
  invoices_paid = λ key k. elim (Bool-cases (str_eq id key)) [
    | inl same ↦ rw (← (str_eq_iff id key).0 same, row) tt
    | inr other ↦ l.invoices_paid key (rw (other, k) refl)
  ];
  payments_cover = l.payments_cover;
})
settle_row-IsLedgerBut id ids ps s t (some inv) row h l =
    let sum = paid_sum id s.payments s.allocations in
    on_guard (is_negative sum) _ _ h λ low h1. on_guard (ltb_ℤ inv.total sum) _ _ h1 λ high h2.
      let range = paid_range sum inv.total low high in
      let written : Option InvoiceRow = some (record inv { amount_paid = sum }) in
      rw (← ok_inj h2) (record {
        invoice_ids = λ key.
            put_cases HasInvoiceId id written s.invoices key (invoice_id id s inv l.invoice_ids row)
              (λ _. l.invoice_ids key);
        payment_ids = l.payment_ids;
        invoices_paid = λ key k.
            put_cases (λ key. IsPaid (paid_sum key s.payments s.allocations)) id written s.invoices
              key (refl, range.0, range.1)
              (λ other. l.invoices_paid key (rw (str_ne_comm key id other, k) refl));
        payments_cover = l.payments_cover;
      })

pub settle_paid-IsLedgerBut :
    (id : String) (ids ps : List String) (s t : Store)
    → settle_paid id s ≡ ok t
    → IsLedgerBut (id ∷ ids) ps s
    → IsLedgerBut ids ps t
unfolding settle_paid
settle_paid-IsLedgerBut id ids ps s t h l =
    settle_row-IsLedgerBut id ids ps s t (s.invoices id) refl h l

not_above : (a b : ℤ) → ltb_ℤ b a ≡ false → a ≤ℤ b
not_above a b h = ground arith

check_row-IsLedgerBut :
    (id : String) (ids ps : List String) (s t : Store) (o : Option PaymentRow)
    → s.payments id ≡ o
    → check_row (allocated_sum id s.allocations) o s ≡ ok t
    → IsLedgerBut ids (id ∷ ps) s
    → IsLedgerBut ids ps t
check_row-IsLedgerBut id ids ps s t none row h l = rw (← ok_inj h) (record {
  invoice_ids = l.invoice_ids;
  payment_ids = l.payment_ids;
  invoices_paid = l.invoices_paid;
  payments_cover = λ key k. elim (Bool-cases (str_eq id key)) [
    | inl same ↦ rw (← (str_eq_iff id key).0 same, row) tt
    | inr other ↦ l.payments_cover key (rw (other, k) refl)
  ];
})
check_row-IsLedgerBut id ids ps s t (some p) row h l =
    let sum = allocated_sum id s.allocations in
    on_guard (ltb_ℤ p.amount sum) _ _ h λ high h1. rw (← ok_inj h1) (record {
      invoice_ids = l.invoice_ids;
      payment_ids = l.payment_ids;
      invoices_paid = l.invoices_paid;
      payments_cover = λ key k. elim (Bool-cases (str_eq id key)) [
        | inl same ↦ rw (← (str_eq_iff id key).0 same, row) (not_above sum p.amount high)
        | inr other ↦ l.payments_cover key (rw (other, k) refl)
      ];
    })

pub check_allocated-IsLedgerBut :
    (id : String) (ids ps : List String) (s t : Store)
    → check_allocated id s ≡ ok t
    → IsLedgerBut ids (id ∷ ps) s
    → IsLedgerBut ids ps t
unfolding check_allocated
check_allocated-IsLedgerBut id ids ps s t h l =
    check_row-IsLedgerBut id ids ps s t (s.payments id) refl h l

pub settle_each-IsLedgerBut :
    (ids ps : List String) (s t : Store)
    → settle_each ids s ≡ ok t
    → IsLedgerBut ids ps s
    → IsLedgerBut [] ps t
unfolding settle_each
settle_each-IsLedgerBut [] ps s t h l = rw (← ok_inj h) l
settle_each-IsLedgerBut (id ∷ ids) ps s t h l =
    on_ok (settle_paid id s) _ h
      λ u e h1. settle_each-IsLedgerBut ids ps u t h1 (settle_paid-IsLedgerBut id ids ps s u e l)
