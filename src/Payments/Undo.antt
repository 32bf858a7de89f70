-- ===== src/Payments/Undo.antt =====
-- A payment recorded and deleted again, by packages/core/src/modules/finance/payments.ts.
use workloom.Base.{
  ◌≡◌, refl, sym, ap, ◌∙◌, ℕ, Option, none, some, List, [], ◌∷◌, String, str_eq, str_eq_iff, map,
  ok, on_ok, on_guard, ok_inj, Bool-cases, inl, inr,
}
use workloom.Base.Int.{pos, leb_ℤ}
use workloom.Payments.Store.{
  PaymentRow, InvoiceRow, Allocation, Store, put, is_closed, is_closed_row, found, paid_sum,
  allocated_to, remove_allocations_of, delete_payment, payment_recorded,
}
use workloom.Payments.Taken.{cons-nil}
use workloom.Payments.Ledger.{IsLedger}
use workloom.Payments.Rows.{IsFresh}
use workloom.Payments.Settle.{Context, settle_all}
use workloom.Payments.Allocate.{AllocationInput}
use workloom.Payments.Handlers.{payment_record, payment_delete}
use workloom.Payments.Inputs.{
  announced, BankRegister, Books, PaymentInput, in_base_currency, currency_for, allocate_each,
  request_invoice, new_payment, record_in,
}
use workloom.Payments.Keeps.{in_base_currency_kept}
use workloom.Payments.Procedures.{payment_record-IsLedger, payment_delete-IsLedger}
use workloom.Payments.Kept.{
  IsKept-trans, settle_each-IsKept, settle_all-IsKept, allocate_each-IsKeptBut,
}

-- A payment that is put against nothing has no rows.
remove_allocations_of-fresh :
    (id : String) (xs : List Allocation)
    → allocated_to id xs ≡ []
    → remove_allocations_of id xs ≡ xs
unfolding remove_allocations_of allocated_to
remove_allocations_of-fresh id [] h = refl
remove_allocations_of-fresh id (x ∷ xs) h = elim (Bool-cases (str_eq x.payment_id id)) [
  | inl mine ↦ absurd (cons-nil (rw mine at h))
  | inr other ↦ rw (other, remove_allocations_of-fresh id xs (rw other at h)) refl
]

put-put_fresh :
    (id key : String) (row : Option PaymentRow) (table : String → Option PaymentRow)
    → table id ≡ none
    → put id none (put id row table) key ≡ table key
put-put_fresh id key row table h = elim (Bool-cases (str_eq key id)) [
  | inl same ↦ rw (same, (str_eq_iff key id).0 same, h) refl
  | inr other ↦ rw other refl
]

-- The two tables that a payment is in are as they were.
record IsUndone (s t : Store) : Type 0 where
  payments : (key : String) → t.payments key ≡ s.payments key
  allocations : t.allocations ≡ s.allocations

-- What recording writes is what deleting takes away.
undone :
    (ctx ctx' : Context) (new_ids : ℕ → String) (p : PaymentRow) (requests : List AllocationInput)
    (id : String) (s t u v : Store)
    → p.id ≡ id
    → IsFresh id s
    → record_in ctx new_ids p requests s ≡ ok t
    → delete_payment id (announced (payment_recorded id) t) ≡ ok u
    → settle_all ctx' (allocated_to id t.allocations) u ≡ ok v
    → IsUndone s v
unfolding record_in delete_payment
undone ctx ctx' new_ids p requests id s t u v same_id fresh h1 h2 h3 =
    let start = record s { payments = put p.id (some p) s.payments } in
    on_guard (is_closed s.locked_through p.received_on) _ _ h1 λ _ h5.
      on_guard (is_closed_row t.locked_through (t.payments id)) _ _ h2 λ _ h6.
        on_ok (allocate_each new_ids 0 p requests p.amount start) _ h5 λ r e h4.
          let but = allocate_each-IsKeptBut new_ids 0 p requests p.amount start r e in
          let recorded = settle_all-IsKept ctx (map request_invoice requests) r t h4 in
          let deleted = settle_each-IsKept (allocated_to id t.allocations) _ u h6 in
          let last = settle_all-IsKept ctx' (allocated_to id t.allocations) u v h3 in
          let all = IsKept-trans deleted last in
          record {
            payments = λ key.
                ap (λ (table : String → Option PaymentRow). table key) all.payments
                ∙ ap (λ (table : String → Option PaymentRow). put id none table key)
                    (recorded.payments ∙ but.payments)
                ∙ ap (λ x. put id none (put x (some p) s.payments) key) same_id
                ∙ put-put_fresh id key (some p) s.payments fresh.0;
            allocations =
                all.allocations
                ∙ ap (remove_allocations_of id) recorded.allocations
                ∙ (rw same_id at but.allocations)
                ∙ remove_allocations_of-fresh id s.allocations fresh.1;
          }

payment_delete-IsUndone :
    {R : Type 0} (bank : BankRegister R) (ctx ctx' : Context) (id : String) (new_ids : ℕ → String)
    (input : PaymentInput) (b c d : Books R)
    → payment_record bank ctx id new_ids input b ≡ ok c
    → payment_delete bank ctx' id c ≡ ok d
    → IsFresh id b.store
    → IsUndone b.store d.store
unfolding payment_record payment_delete
payment_delete-IsUndone {R} bank ctx ctx' id new_ids input b c d h k fresh =
    on_guard (leb_ℤ input.amount (pos 0)) _ _ h λ _ h1.
      on_ok (found "Company" (b.store.companies input.company_id)) _ h1 λ company _ h2.
        on_guard company.archived _ _ h2 λ _ h3.
          on_ok (currency_for ctx input.currency input.allocations b.store) _ h3 λ currency _ h4.
            let row = new_payment ctx id input currency in
            on_ok (in_base_currency ctx row input.amount input.exchange_rate) _ h4 λ q e h5.
              on_ok (bank.resolve_account b.register input.bank_account_id currency) _ h5
                λ account _ h6.
                  let p = record q { bank_account_id = account } in
                  on_ok (record_in ctx new_ids p input.allocations b.store) _ h6 λ t e' h7.
                    on_ok (bank.sync_payment_line t id b.register) _ h7 λ register _ h8.
                      on_ok (found "Payment" (c.store.payments id)) _ k λ found_row _ k1.
                        on_ok (bank.drop_recorded_line id c.register) _ k1 λ dropped _ k2.
                          on_ok (delete_payment id c.store) _ k2 λ u e'' k3.
                            on_ok (settle_all ctx' (allocated_to id c.store.allocations) u) _ k3
                              λ v e''' k4.
                                let (same_id, _, _) =
                                  in_base_currency_kept ctx row input.amount input.exchange_rate
                                    e in
                                let after : c.store ≡ announced (payment_recorded id) t =
                                  ap (λ (x : Books R). x.store) (sym (ok_inj h8)) in
                                let same =
                                  undone ctx ctx' new_ids p input.allocations id b.store t u v
                                    same_id fresh e' (sym (ap (delete_payment id) after) ∙ e'')
                                    (sym (
                                        ap (λ x. settle_all ctx' (allocated_to id x.allocations) u)
                                          after)
                                      ∙ e''') in
                                rw (← ok_inj k4) (record {
                                  payments = same.payments;
                                  allocations = same.allocations;
                                })

paid_sum-pointwise :
    (id : String) (f g : String → Option PaymentRow) (xs : List Allocation)
    → ((key : String) → f key ≡ g key)
    → paid_sum id f xs ≡ paid_sum id g xs
unfolding paid_sum
paid_sum-pointwise id f g [] h = refl
paid_sum-pointwise id f g (x ∷ xs) h = rw (h x.payment_id, paid_sum-pointwise id f g xs h) refl

paid_sum-IsUndone :
    (id : String) (s t : Store)
    → IsUndone s t
    → paid_sum id t.payments t.allocations ≡ paid_sum id s.payments s.allocations
paid_sum-IsUndone id s t same =
    rw same.allocations (paid_sum-pointwise id t.payments s.payments s.allocations same.payments)

-- A payment recorded under a new id and then deleted leaves nothing: every payment and every
-- allocation is what it was, and so is what each invoice has been paid, whatever the payment was put
-- against and whatever the days of the two requests.
pub payment_delete-payment_record :
    {R : Type 0} (bank : BankRegister R) (ctx ctx' : Context) (id : String) (new_ids : ℕ → String)
    (input : PaymentInput) (b c d : Books R)
    → payment_record bank ctx id new_ids input b ≡ ok c
    → payment_delete bank ctx' id c ≡ ok d
    → IsFresh id b.store
    → IsLedger b.store
    → ((key : String) → d.store.payments key ≡ b.store.payments key)
      × (d.store.allocations ≡ b.store.allocations)
      × ((key : String) (inv inv' : InvoiceRow)
          → b.store.invoices key ≡ some inv
          → d.store.invoices key ≡ some inv'
          → inv'.amount_paid ≡ inv.amount_paid)
payment_delete-payment_record bank ctx ctx' id new_ids input b c d h k fresh l =
    let same = payment_delete-IsUndone bank ctx ctx' id new_ids input b c d h k fresh in
    let l_c = payment_record-IsLedger bank ctx id new_ids input b c h fresh l in
    let l_d = payment_delete-IsLedger bank ctx' id c d k l_c in
    (
      same.payments,
      same.allocations,
      λ key inv inv' row row'.
          (rw row' at (l_d.invoices_paid key)).0
          ∙ paid_sum-IsUndone key b.store d.store same
          ∙ sym ((rw row at (l.invoices_paid key)).0),
    )
