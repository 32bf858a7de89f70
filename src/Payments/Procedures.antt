-- ===== src/Payments/Procedures.antt =====
-- The procedures of packages/core/src/modules/finance/payments.ts, whatever the bank register does.
use workloom.Base.{
  ◌≡◌, refl, ap, ◌∙◌, false, not, ◌||◌, Option, some, List, [], ◌∷◌, String, str_eq, str_eq_iff, ℕ,
  ok, on_ok, on_guard, ok_inj, some-injective, Bool-cases, inl, inr, arith,
}
use workloom.Base.Int.{ℤ, pos, ◌-ℤ◌, ◌≤ℤ◌, leb_ℤ, eqb_ℤ}
use workloom.Payments.Store.{
  PaymentRow, Allocation, Announcement, Store, found, allocated_sum, find_allocation,
  delete_allocation, allocated_to, delete_payment, update_payment,
}
use workloom.Payments.Ledger.{IsLedger}
use workloom.Payments.Settled.{found-some, settle_invoice-IsLedger, settle_all-IsLedger}
use workloom.Payments.Rows.{
  IsFresh, delete_allocation-IsLedger, delete_payment-IsLedger, update_payment-IsLedger,
}
use workloom.Payments.Settle.{Context, settle_invoice, settle_all}
use workloom.Payments.Allocate.{AllocationInput, allocate}
use workloom.Payments.Handlers.{
  payment_record, account_for, check_amount, update_changed, payment_update, payment_delete,
  payment_allocate, payment_unallocate,
}
use workloom.Payments.Inputs.{
  BankRegister, Books, PaymentInput, PaymentPatch, given_or, in_base_currency, currency_for,
  new_payment, announced, record_in, is_same_payment, is_given, patched, patched_row,
}
use workloom.Payments.Keeps.{allocate-IsLedger, in_base_currency_kept, record_in-IsLedger}

-- Nothing of a ledger is in the outbox.
announced-IsLedger : (event : Announcement) (s : Store) → IsLedger s → IsLedger (announced event s)
announced-IsLedger event s l = record {
  invoice_ids = l.invoice_ids;
  payment_ids = l.payment_ids;
  invoices_paid = l.invoices_paid;
  payments_cover = l.payments_cover;
}

not_negative : (a : ℤ) → leb_ℤ a (pos 0) ≡ false → pos 0 ≤ℤ a
not_negative a h = ground arith

-- A row that is found by an id has it.
find_allocation_has_id :
    (id : String) (xs : List Allocation) {a : Allocation}
    → find_allocation id xs ≡ some a
    → a.id ≡ id
unfolding find_allocation
find_allocation_has_id id [] h = absurd (cc)
find_allocation_has_id id (x ∷ xs) h = elim (Bool-cases (str_eq x.id id)) [
  | inl this ↦ rw (← some-injective x _ (rw this at h)) ((str_eq_iff x.id id).0 this)
  | inr later ↦ find_allocation_has_id id xs (rw later at h)
]

find_allocation_id :
    (id : String) (xs : List Allocation) {a : Allocation}
    → find_allocation id xs ≡ some a
    → find_allocation a.id xs ≡ some a
find_allocation_id id xs h = ap (λ key. find_allocation key xs) (find_allocation_has_id id xs h) ∙ h

-- A correction keeps the row's id and its kind.
patched_row_kept :
    (ctx : Context) (patch : PaymentPatch) (account : Option String) (before : PaymentRow)
    {p : PaymentRow}
    → patched_row ctx patch account before ≡ ok p
    → (p.id ≡ before.id) × (p.kind ≡ before.kind)
patched_row_kept ctx patch account before h =
    let amount = given_or patch.amount before.amount in
    elim (Bool-cases (not (eqb_ℤ amount before.amount) || is_given patch.exchange_rate)) [
      | inl anew ↦
          let (id, kind, _) =
            in_base_currency_kept ctx (patched patch account before) amount
              (some (given_or patch.exchange_rate before.exchange_rate_to_base)) (rw anew at h) in
          (id, kind)
      | inr same ↦ rw (← ok_inj (rw same at h)) (refl, refl)
    ]

payment_id_of :
    (id : String) (s : Store) (p : PaymentRow) → IsLedger s → s.payments id ≡ some p → p.id ≡ id
payment_id_of id s p l row = rw row at (l.payment_ids id)

module _ {R : Type 0} (bank : BankRegister R) where
  pub payment_record-IsLedger :
      (ctx : Context) (id : String) (new_ids : ℕ → String) (input : PaymentInput) (b c : Books R)
      → payment_record bank ctx id new_ids input b ≡ ok c
      → IsFresh id b.store
      → IsLedger b.store
      → IsLedger c.store
  unfolding payment_record
  payment_record-IsLedger ctx id new_ids input b c h fresh l =
      on_guard (leb_ℤ input.amount (pos 0)) _ _ h λ positive h1.
        on_ok (found "Company" (b.store.companies input.company_id)) _ h1 λ company _ h2.
          on_guard company.archived _ _ h2 λ _ h3.
            on_ok (currency_for ctx input.currency input.allocations b.store) _ h3 λ currency _ h4.
              let row = new_payment ctx id input currency in
              on_ok (in_base_currency ctx row input.amount input.exchange_rate) _ h4 λ q e h5.
                on_ok (bank.resolve_account b.register input.bank_account_id currency) _ h5
                  λ account _ h6.
                    let p = record q { bank_account_id = account } in
                    on_ok (record_in ctx new_ids p input.allocations b.store) _ h6 λ t e' h7.
                      on_ok (bank.sync_payment_line t id b.register) _ h7 λ register _ h8.
                        let (same_id, _, amount) =
                          in_base_currency_kept ctx row input.amount input.exchange_rate e in
                        rw (← ok_inj h8) (
                          announced-IsLedger _ t (
                            record_in-IsLedger ctx new_ids p input.allocations b.store t e'
                              (rw same_id fresh) (rw amount (not_negative input.amount positive))
                              l))

  update_changed-IsLedger :
      (before p : PaymentRow) (b c : Books R)
      → update_changed bank before p b ≡ ok c
      → b.store.payments p.id ≡ some before
      → p.kind ≡ before.kind
      → IsLedger b.store
      → IsLedger c.store
  update_changed-IsLedger before p b c h row kind l =
      on_ok (bank.drop_recorded_line p.id b.register) _ h λ dropped _ h1.
        on_ok (update_payment before p b.store) _ h1 λ t e h2.
          on_ok (check_amount bank before p dropped) _ h2 λ banked _ h3.
            on_ok (bank.sync_payment_line t p.id dropped) _ h3 λ register _ h4.
              rw (← ok_inj h4)
                (announced-IsLedger _ t (update_payment-IsLedger before p b.store t row kind e l))

  pub payment_update-IsLedger :
      (ctx : Context) (id : String) (patch : PaymentPatch) (b c : Books R)
      → payment_update bank ctx id patch b ≡ ok c
      → IsLedger b.store
      → IsLedger c.store
  unfolding payment_update
  payment_update-IsLedger ctx id patch b c h l =
      on_guard (leb_ℤ (given_or patch.amount (pos 1)) (pos 0)) _ _ h λ _ h1.
        on_ok (found "Payment" (b.store.payments id)) _ h1 λ before e h2.
          on_ok (account_for bank patch before b.register) _ h2 λ account _ h3.
            on_ok (patched_row ctx patch account before) _ h3 λ p e' h4.
              let row = found-some "Payment" (b.store.payments id) e in
              let (same_id, kind) = patched_row_kept ctx patch account before e' in
              elim (Bool-cases (is_same_payment before p)) [
                | inl same ↦ rw (← ok_inj (rw same at h4)) l
                | inr other ↦
                    update_changed-IsLedger before p b c (rw other at h4)
                      (ap b.store.payments (same_id ∙ payment_id_of id b.store before l row) ∙ row)
                      kind l
              ]

  pub payment_delete-IsLedger :
      (ctx : Context) (id : String) (b c : Books R)
      → payment_delete bank ctx id b ≡ ok c
      → IsLedger b.store
      → IsLedger c.store
  unfolding payment_delete
  payment_delete-IsLedger ctx id b c h l =
      on_ok (found "Payment" (b.store.payments id)) _ h λ p _ h1.
        on_ok (bank.drop_recorded_line id b.register) _ h1 λ dropped _ h2.
          on_ok (delete_payment id b.store) _ h2 λ t e h3.
            on_ok (settle_all ctx (allocated_to id b.store.allocations) t) _ h3 λ u e' h4.
              rw (← ok_inj h4) (
                announced-IsLedger _ u (
                  settle_all-IsLedger ctx (allocated_to id b.store.allocations) t u e'
                    (delete_payment-IsLedger id b.store t e l)))

  pub payment_allocate-IsLedger :
      (ctx : Context) (new_id id : String) (request : AllocationInput) (b c : Books R)
      → payment_allocate bank ctx new_id id request b ≡ ok c
      → IsLedger b.store
      → IsLedger c.store
  unfolding payment_allocate
  payment_allocate-IsLedger ctx new_id id request b c h l =
      on_ok (found "Payment" (b.store.payments id)) _ h λ p _ h1.
        let remaining = p.amount -ℤ allocated_sum id b.store.allocations in
        on_ok (allocate new_id p request remaining b.store) _ h1 λ r e h2.
          on_ok (settle_invoice ctx.now ctx.today request.invoice_id r.0) _ h2 λ u e' h3.
            on_ok (bank.sync_payment_line u id b.register) _ h3 λ register _ h4. rw (← ok_inj h4) (
              announced-IsLedger _ u (
                settle_invoice-IsLedger ctx.now ctx.today request.invoice_id r.0 u e'
                  (allocate-IsLedger new_id p request remaining b.store e l)))

  pub payment_unallocate-IsLedger :
      (ctx : Context) (allocation_id : String) (b c : Books R)
      → payment_unallocate bank ctx allocation_id b ≡ ok c
      → IsLedger b.store
      → IsLedger c.store
  unfolding payment_unallocate
  payment_unallocate-IsLedger ctx allocation_id b c h l =
      let row = find_allocation allocation_id b.store.allocations in
      on_ok (found "Payment allocation" row) _ h λ a e h1.
        on_ok (found "Payment" (b.store.payments a.payment_id)) _ h1 λ p _ h2.
          on_ok (found "Invoice" (b.store.invoices a.invoice_id)) _ h2 λ inv _ h3.
            on_ok (delete_allocation a b.store) _ h3 λ t e' h4.
              on_ok (settle_invoice ctx.now ctx.today a.invoice_id t) _ h4 λ u e'' h5.
                on_ok (bank.sync_payment_line u a.payment_id b.register) _ h5 λ register _ h6.
                  rw (← ok_inj h6) (
                    announced-IsLedger _ u (
                      settle_invoice-IsLedger ctx.now ctx.today a.invoice_id t u e'' (
                        delete_allocation-IsLedger a b.store t
                          (find_allocation_id allocation_id b.store.allocations
                            (found-some "Payment allocation" row e))
                          e' l)))
