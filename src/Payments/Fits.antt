-- ===== src/Payments/Fits.antt =====
-- What the triggers of packages/db/src/migrations/0016_payments_rls.sql accept.
use workloom.Base.{◌≡◌, refl, ◌∙◌, false, Option, some, [], ◌∷◌, ◌++◌, String, ok, arith}
use workloom.Base.Int.{ℤ, pos, ◌+ℤ◌, ◌-ℤ◌, neg_ℤ, ◌≤ℤ◌, is_negative, leb_ℤ, ltb_ℤ, int_laws}
use workloom.Payments.Store.{
  PaymentKind, payment, refund, PaymentRow, InvoiceRow, Allocation, Store, put, is_closed, signed,
  paid_sum, allocated_sum, settle_paid, check_allocated, has_allocation, insert_allocation,
}
use workloom.Payments.Sums.{paid_sum-snoc_same, allocated_sum-snoc_same}
use workloom.Payments.Ledger.{IsLedger}
use workloom.Payments.Allocate.{room_of}

settle_paid_fits :
    (id : String) (inv : InvoiceRow) (s : Store)
    → s.invoices id ≡ some inv
    → is_negative (paid_sum id s.payments s.allocations) ≡ false
    → ltb_ℤ inv.total (paid_sum id s.payments s.allocations) ≡ false
    → settle_paid id s
      ≡ ok (record s {
        invoices =
            put id
              (some (record inv { amount_paid = paid_sum id s.payments s.allocations }))
              s.invoices;
      })
unfolding settle_paid
settle_paid_fits id inv s row low high = rw (row, low, high) refl

check_allocated_fits :
    (id : String) (p : PaymentRow) (s : Store)
    → s.payments id ≡ some p
    → ltb_ℤ p.amount (allocated_sum id s.allocations) ≡ false
    → check_allocated id s ≡ ok s
unfolding check_allocated
check_allocated_fits id p s row high = rw (row, high) refl

-- The room that is left keeps the sum of the invoice between nothing and its total.
abbrev signed_by : PaymentKind → ℤ → ℤ
signed_by payment amount = amount
signed_by refund amount = neg_ℤ amount

to_not_below : (a b : ℤ) → b ≤ℤ a → ltb_ℤ a b ≡ false
to_not_below a b h = ground arith

to_not_negative : (a : ℤ) → pos 0 ≤ℤ a → is_negative a ≡ false
to_not_negative a h = ground arith

of_not_below : (a b : ℤ) → ltb_ℤ a b ≡ false → b ≤ℤ a
of_not_below a b h = ground arith

of_positive : (a : ℤ) → leb_ℤ a (pos 0) ≡ false → pos 0 ≤ℤ a
of_positive a h = ground arith

not_low :
    (kind : PaymentKind) (inv : InvoiceRow) (amount : ℤ)
    → pos 0 ≤ℤ inv.amount_paid
    → leb_ℤ amount (pos 0) ≡ false
    → ltb_ℤ (room_of kind inv) amount ≡ false
    → is_negative (inv.amount_paid +ℤ signed_by kind amount) ≡ false
not_low payment inv amount h1 h2 h3 =
    to_not_negative (inv.amount_paid +ℤ amount) (omega (int_laws, h1, of_positive amount h2))
not_low refund inv amount h1 h2 h3 =
    to_not_negative (inv.amount_paid +ℤ neg_ℤ amount)
      (omega (int_laws, h1, of_not_below inv.amount_paid amount h3))

not_high :
    (kind : PaymentKind) (inv : InvoiceRow) (amount : ℤ)
    → inv.amount_paid ≤ℤ inv.total
    → leb_ℤ amount (pos 0) ≡ false
    → ltb_ℤ (room_of kind inv) amount ≡ false
    → ltb_ℤ inv.total (inv.amount_paid +ℤ signed_by kind amount) ≡ false
not_high payment inv amount h1 h2 h3 =
    to_not_below inv.total (inv.amount_paid +ℤ amount)
      (omega (int_laws, of_not_below (inv.total -ℤ inv.amount_paid) amount h3))
not_high refund inv amount h1 h2 h3 =
    to_not_below inv.total (inv.amount_paid +ℤ neg_ℤ amount)
      (omega (int_laws, h1, of_positive amount h2))

not_over :
    (worth sum remaining amount : ℤ)
    → remaining ≤ℤ worth -ℤ sum
    → ltb_ℤ remaining amount ≡ false
    → ltb_ℤ worth (sum +ℤ amount) ≡ false
not_over worth sum remaining amount h1 h2 =
    to_not_below worth (sum +ℤ amount) (omega (int_laws, h1, of_not_below remaining amount h2))

signed_by_kind :
    (kind : PaymentKind) (amount : ℤ)
    → (elim kind [ payment ↦ amount | refund ↦ neg_ℤ amount ]) ≡ signed_by kind amount
signed_by_kind payment amount = refl
signed_by_kind refund amount = refl

signed_of :
    (o : Option PaymentRow) (p : PaymentRow) (amount : ℤ)
    → o ≡ some p
    → signed o amount ≡ signed_by p.kind amount
signed_of o p amount h = rw h (signed_by_kind p.kind amount)

-- The store with one more row, and the invoice's `amount_paid` moved by it.
abbrev pub with_allocation : Allocation → PaymentKind → InvoiceRow → Store → Store
with_allocation a kind inv s = record s {
  invoices =
      put a.invoice_id
        (some (record inv { amount_paid = inv.amount_paid +ℤ signed_by kind a.amount })) s.invoices;
  allocations = s.allocations ++ a ∷ [];
}

-- The triggers accept a row that the guards let through.
pub insert_fits :
    (a : Allocation) (inv : InvoiceRow) (p : PaymentRow) (remaining : ℤ) (s : Store)
    → s.invoices a.invoice_id ≡ some inv
    → s.payments a.payment_id ≡ some p
    → remaining ≤ℤ p.amount -ℤ allocated_sum a.payment_id s.allocations
    → leb_ℤ a.amount (pos 0) ≡ false
    → ltb_ℤ remaining a.amount ≡ false
    → ltb_ℤ (room_of p.kind inv) a.amount ≡ false
    → has_allocation a.payment_id a.invoice_id s.allocations ≡ false
    → is_closed s.locked_through p.received_on ≡ false
    → IsLedger s
    → insert_allocation a s ≡ ok (with_allocation a p.kind inv s)
unfolding insert_allocation
insert_fits a inv p remaining s i_row p_row left h1 h2 h3 h4 unlocked l =
    let written = record s { allocations = s.allocations ++ a ∷ [] } in
    let (paid, low, high) = rw i_row at (l.invoices_paid a.invoice_id) in
    let sum : paid_sum a.invoice_id s.payments (s.allocations ++ a ∷ [])
        ≡ inv.amount_paid +ℤ signed_by p.kind a.amount =
      paid_sum-snoc_same s.payments s.allocations a
      ∙ rw (signed_of (s.payments a.payment_id) p a.amount p_row, paid) refl in
    let settled =
      settle_paid_fits a.invoice_id inv written i_row
        (rw sum (not_low p.kind inv a.amount (rw paid low) h1 h3))
        (rw sum (not_high p.kind inv a.amount (rw paid high) h1 h3)) in
    let done = with_allocation a p.kind inv s in
    let worth : ltb_ℤ p.amount (allocated_sum a.payment_id (s.allocations ++ a ∷ [])) ≡ false =
      rw (allocated_sum-snoc_same s.allocations a)
        (not_over p.amount (allocated_sum a.payment_id s.allocations) remaining a.amount left h2) in
    rw (p_row, unlocked, h1, h4, settled, sum)
      (check_allocated_fits a.payment_id p done p_row worth)
