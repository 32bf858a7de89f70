-- ===== src/Payments/Overdue.antt =====
-- `markOverdueInvoices` of packages/core/src/modules/finance/payments.ts: the nightly scan.
use workloom.Base.{
  ◌≡◌, refl, Bool, true, false, ◌||◌, Option, none, some, List, [], ◌∷◌, String, str_eq, str_eq_iff,
  ok, Bool-cases, inl, inr, ◌⊎◌,
}
use workloom.Money.Decimal.{Text}
use workloom.Payments.Store.{InvoiceRow, Store, found}
use workloom.Payments.Sums.{is_in, str_eq_refl}
use workloom.Payments.Ledger.{IsLedger}
use workloom.Payments.Settled.{settle_invoice-IsLedger}
use workloom.Payments.Settle.{Context}
use workloom.Payments.Handlers.{is_due_row, due_invoices, settle_due, mark_overdue_invoices}
use workloom.Payments.Inputs.{is_given}
use workloom.Payments.Looks.{RefundsFit, settle_invoice-IsSettled}
use workloom.Payments.Kept.{IsKept, settle_invoice-IsKept}

-- The rows of a list are looked at one after the other.
record IsSwept (ctx : Context) (ids : List String) (s t : Store) : Type 0 where
  pub returned : settle_due ctx ids s ≡ ok t
  pub looked_at :
      (key : String)
      → (is_in key ids ≡ true) ⊎ (is_due_row ctx.today (s.invoices key) ≡ false)
      → is_due_row ctx.today (t.invoices key) ≡ false

or_right : (a b : Bool) → b ≡ true → (a || b) ≡ true
or_right true b h = refl
or_right false b h = h

fits_kept : (key : String) {s u : Store} → IsKept s u → RefundsFit key s → RefundsFit key u
fits_kept key kept h = rw (kept.payments, kept.allocations) h

settle_due-IsSwept :
    (ctx : Context) (ids : List String) (s : Store)
    → ((key : String) → is_in key ids ≡ true → is_given (s.invoices key) ≡ true)
    → ((key : String) → is_in key ids ≡ true → RefundsFit key s)
    → IsLedger s
    → (t : Store) × IsSwept ctx ids s t
unfolding settle_due
settle_due-IsSwept ctx [] s h fits l = (
  s,
  record {
    returned = refl;
    looked_at = λ key k. elim k [ inl none_in ↦ absurd (cc) | inr late ↦ late ];
  },
)
settle_due-IsSwept ctx (id ∷ ids) s h fits l =
    let (u, one) =
      settle_invoice-IsSettled ctx id s (s.invoices id) refl (h id (rw (str_eq_refl id) refl))
        (fits id (rw (str_eq_refl id) refl)) l in
    let (t, rest) =
      settle_due-IsSwept ctx ids u
        (λ key k. one.given key (h key (or_right (str_eq id key) (is_in key ids) k)))
        (λ key k.
          fits_kept key (settle_invoice-IsKept ctx.now ctx.today id s u one.returned)
            (fits key (or_right (str_eq id key) (is_in key ids) k)))
        (settle_invoice-IsLedger ctx.now ctx.today id s u one.returned l) in
    (
      t,
      record {
        returned = rw one.returned rest.returned;
        looked_at = λ key k. elim k [
          | inr late ↦ rest.looked_at key (inr (one.looked_at key (inr late)))
          | inl found ↦ elim (Bool-cases (str_eq id key)) [
            | inl same ↦ rest.looked_at key (inr (one.looked_at key (inl same)))
            | inr other ↦ rest.looked_at key (inl (rw other at found))
          ]
        ];
      },
    )

-- The scan finds the rows that are late, all of them and no other.
due_invoices-is_in :
    (on : Text) (ids : List String) (s : Store) (key : String)
    → is_in key ids ≡ true
    → (is_in key (due_invoices on ids s) ≡ true) ⊎ (is_due_row on (s.invoices key) ≡ false)
unfolding due_invoices
due_invoices-is_in on [] s key h = absurd (cc)
due_invoices-is_in on (id ∷ ids) s key h = elim (Bool-cases (is_due_row on (s.invoices id))) [
  | inl late ↦ elim (Bool-cases (str_eq id key)) [
    | inl same ↦ inl (rw (late, same) refl)
    | inr other ↦ rw (late, other) (due_invoices-is_in on ids s key (rw other at h))
  ]
  | inr early ↦ elim (Bool-cases (str_eq id key)) [
    | inl same ↦ inr (rw (← (str_eq_iff id key).0 same) early)
    | inr other ↦ rw early (due_invoices-is_in on ids s key (rw other at h))
  ]
]

due_row_given : (on : Text) (o : Option InvoiceRow) → is_due_row on o ≡ true → is_given o ≡ true
due_row_given on none h = absurd (cc)
due_row_given on (some inv) h = refl

due_invoices_late :
    (on : Text) (ids : List String) (s : Store) (key : String)
    → is_in key (due_invoices on ids s) ≡ true
    → is_due_row on (s.invoices key) ≡ true
unfolding due_invoices
due_invoices_late on [] s key h = absurd (cc)
due_invoices_late on (id ∷ ids) s key h = elim (Bool-cases (is_due_row on (s.invoices id))) [
  | inl late ↦ elim (Bool-cases (str_eq id key)) [
    | inl same ↦ rw (← (str_eq_iff id key).0 same) late
    | inr other ↦ due_invoices_late on ids s key (rw (late, other) at h)
  ]
  | inr early ↦ due_invoices_late on ids s key (rw early at h)
]

due_invoices-nil :
    (on : Text) (ids : List String) (s : Store)
    → ((key : String) → is_in key ids ≡ true → is_due_row on (s.invoices key) ≡ false)
    → due_invoices on ids s ≡ []
unfolding due_invoices
due_invoices-nil on [] s h = refl
due_invoices-nil on (id ∷ ids) s h =
    rw (h id (rw (str_eq_refl id) refl))
      (due_invoices-nil on ids s (λ key k. h key (or_right (str_eq id key) (is_in key ids) k)))

-- In a ledger in which what has been given back on each late invoice is an `int` of the database,
-- at most 2147483647, the nightly scan returns, and no invoice of the rows that it went over is then
-- sent, viewed or partly paid past its due date.
pub mark_overdue_invoices-due_invoices :
    (ctx : Context) (rows : List String) (s : Store)
    → ((id : String) → is_due_row ctx.today (s.invoices id) ≡ true → RefundsFit id s)
    → IsLedger s
    → (t : Store) × (mark_overdue_invoices ctx rows s ≡ ok t) × (due_invoices ctx.today rows t ≡ [])
unfolding mark_overdue_invoices
mark_overdue_invoices-due_invoices ctx rows s fits l =
    let (t, swept) =
      settle_due-IsSwept ctx (due_invoices ctx.today rows s) s
        (λ key k.
          due_row_given ctx.today (s.invoices key) (due_invoices_late ctx.today rows s key k))
        (λ key k. fits key (due_invoices_late ctx.today rows s key k)) l in
    (
      t,
      swept.returned,
      due_invoices-nil ctx.today rows t
          λ key k. swept.looked_at key (due_invoices-is_in ctx.today rows s key k),
    )
