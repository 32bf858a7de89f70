-- ===== src/Payments/Store.antt =====
-- The tables that payments.ts reads and writes (packages/db/src/schema/finance.ts), with the
-- triggers of packages/db/src/migrations/0016_payments_rls.sql and, for closed books, of
-- 0044_books_lock_guards.sql. A table of rows by primary key is a
-- function; the allocations, which are summed, are a list. Both sides of an allocation are in its
-- currency by foreign key, so the row keeps none.
use workloom.Base.{
  Bool, true, false, not, ◌==◌, ◌&&◌, ◌||◌, if◌then◌else◌, Option, none, some, List, [], ◌∷◌, ◌++◌,
  String, str_eq, ℕ, Result, ok, err, ◌>>=◌, ◌>>◌, throw_if, database_error, books_locked,
  not_found_error,
}
use workloom.Base.Int.{ℤ, pos, ◌+ℤ◌, neg_ℤ, is_negative, ltb_ℤ, leb_ℤ, eqb_ℤ}
use workloom.Money.Decimal.{Text}
use workloom.Invoices.Settlement.{SettlementStatus, SettlementEvent, text_lt}

pub data PaymentKind : Type 0 where
  payment refund : PaymentKind

-- `draft`, `cancelled`, and the six states of an invoice that settles.
pub data InvoiceStatus : Type 0 where
  draft cancelled : InvoiceStatus
  issued : SettlementStatus → InvoiceStatus

pub record InvoiceRow : Type 0 where
  pub id : String
  pub company_id : String
  pub currency : String
  pub status : InvoiceStatus
  pub total : ℤ
  pub amount_paid : ℤ
  pub issue_date : Option Text
  pub due_date : Option Text
  pub due_label : Option String
  pub was_viewed : Bool
  pub paid_at : Option ℕ

pub record PaymentRow : Type 0 where
  pub id : String
  pub company_id : String
  pub kind : PaymentKind
  pub received_on : Text
  pub method : String
  pub reference : Option String
  pub currency : String
  pub amount : ℤ
  pub base_currency : String
  pub exchange_rate_to_base : Text
  pub amount_base : ℤ
  pub bank_account_id : Option String
  pub notes : Option String

pub record Company : Type 0 where
  pub archived : Bool

pub record Allocation : Type 0 where
  pub id : String
  pub payment_id : String
  pub invoice_id : String
  pub amount : ℤ

-- What is announced to the outbox: an invoice's move, or what happened to it or to a payment.
pub data Announcement : Type 0 where
  settled : SettlementEvent → String → Announcement
  payment_recorded payment_updated payment_deleted : String → Announcement
  invoice_viewed invoice_cancelled invoice_updated : String → Announcement

-- A line that takes an earlier invoice off a later one.
pub record Deduction : Type 0 where
  pub on_invoice : String
  pub deducts : String

pub record Store : Type 0 where
  pub companies : String → Option Company
  pub invoices : String → Option InvoiceRow
  pub payments : String → Option PaymentRow
  pub allocations : List Allocation
  pub deductions : List Deduction
  pub outbox : List Announcement
  pub locked_through : Option Text

-- `day <= locked`, where `books_locked_through` is a day.
abbrev pub is_closed : Option Text → Text → Bool
is_closed none day = false
is_closed (some locked) day = not (text_lt locked day)

-- The same of a day that may be null.
abbrev pub is_closed_day : Option Text → Option Text → Bool
is_closed_day locked none = false
is_closed_day locked (some day) = is_closed locked day

-- The same of the day of a payment, where there is one.
abbrev pub is_closed_row : Option Text → Option PaymentRow → Bool
is_closed_row locked none = false
is_closed_row locked (some p) = is_closed locked p.received_on

-- `a === b` on texts.
abbrev pub same_text : Text → Text → Bool
same_text [] [] = true
same_text [] (b ∷ bs) = false
same_text (a ∷ as') [] = false
same_text (a ∷ as') (b ∷ bs) = (a == b) && same_text as' bs

abbrev pub same_kind : PaymentKind → PaymentKind → Bool
same_kind payment payment = true
same_kind refund refund = true
same_kind payment refund = false
same_kind refund payment = false

-- The columns that move money `IS DISTINCT FROM` those of the other row. A rate is kept in its
-- shortest form.
abbrev pub moves_money : PaymentRow → PaymentRow → Bool
moves_money a b = not (
    same_text a.received_on b.received_on
    && eqb_ℤ a.amount b.amount
    && str_eq a.currency b.currency
    && eqb_ℤ a.amount_base b.amount_base
    && same_text a.exchange_rate_to_base b.exchange_rate_to_base
    && str_eq a.company_id b.company_id
    && same_kind a.kind b.kind)

-- What `workloom_payment_lock` refuses of an update.
abbrev pub is_locked_update : Option Text → PaymentRow → PaymentRow → Bool
is_locked_update locked before p =
    (is_closed locked p.received_on || is_closed locked before.received_on) && moves_money p before

-- A write of one row.
abbrev pub put {ℓ} : {A : Type ℓ} → String → Option A → (String → Option A) → String → Option A
put id row table key = if str_eq key id then row else table key

-- `load…`: the row or a NotFoundError.
abbrev pub found {ℓ} : {A : Type ℓ} → String → Option A → Result A
found entity none = err (not_found_error entity)
found entity (some row) = ok row

-- `CASE WHEN p.kind = 'refund' THEN -a.amount_minor ELSE a.amount_minor END`, and nothing where
-- the join finds no payment.
abbrev pub signed : Option PaymentRow → ℤ → ℤ
signed none amount = pos 0
signed (some p) amount = elim p.kind [ payment ↦ amount | refund ↦ neg_ℤ amount ]

-- The sum of an invoice's allocations.
unfoldable pub paid_sum : String → (String → Option PaymentRow) → List Allocation → ℤ
paid_sum id payments [] = pos 0
paid_sum id payments (a ∷ as') =
    let rest = paid_sum id payments as' in
    if str_eq a.invoice_id id then signed (payments a.payment_id) a.amount +ℤ rest else rest

-- The sum of a payment's allocations.
unfoldable pub allocated_sum : String → List Allocation → ℤ
allocated_sum id [] = pos 0
allocated_sum id (a ∷ as') =
    let rest = allocated_sum id as' in if str_eq a.payment_id id then a.amount +ℤ rest else rest

abbrev pub settle_row : String → ℤ → Option InvoiceRow → Store → Result Store
settle_row id sum none s = ok s
settle_row id sum (some inv) s = do
  throw_if (is_negative sum) database_error
  throw_if (ltb_ℤ inv.total sum) database_error
  ok (record s { invoices = put id (some (record inv { amount_paid = sum })) s.invoices })

-- `workloom_settle_invoice`.
unfoldable pub settle_paid : String → Store → Result Store
settle_paid id s = settle_row id (paid_sum id s.payments s.allocations) (s.invoices id) s

abbrev pub check_row : ℤ → Option PaymentRow → Store → Result Store
check_row allocated none s = ok s
check_row allocated (some p) s = throw_if (ltb_ℤ p.amount allocated) database_error >> ok s

-- `workloom_check_payment_allocated`.
unfoldable pub check_allocated : String → Store → Result Store
check_allocated id s = check_row (allocated_sum id s.allocations) (s.payments id) s

unfoldable pub has_allocation : String → String → List Allocation → Bool
has_allocation payment_id invoice_id [] = false
has_allocation payment_id invoice_id (a ∷ as') =
    (str_eq a.payment_id payment_id && str_eq a.invoice_id invoice_id)
    || has_allocation payment_id invoice_id as'

-- An inserted row: the trigger `workloom_allocation_lock` before it, then
-- `payment_allocations_amount_check`, the unique key of a payment and an invoice, and the trigger
-- `workloom_allocation_guard`.
unfoldable pub insert_allocation : Allocation → Store → Result Store
insert_allocation a s = do
  throw_if (is_closed_row s.locked_through (s.payments a.payment_id)) books_locked
  throw_if (leb_ℤ a.amount (pos 0)) database_error
  throw_if (has_allocation a.payment_id a.invoice_id s.allocations) database_error
  t ← settle_paid a.invoice_id (record s { allocations = s.allocations ++ a ∷ [] })
  check_allocated a.payment_id t

unfoldable pub find_allocation : String → List Allocation → Option Allocation
find_allocation id [] = none
find_allocation id (a ∷ as') =
    let rest = find_allocation id as' in if str_eq a.id id then some a else rest

-- The row of a primary key is the first that has it.
unfoldable pub remove_allocation : String → List Allocation → List Allocation
remove_allocation id [] = []
remove_allocation id (a ∷ as') =
    let rest = remove_allocation id as' in if str_eq a.id id then as' else a ∷ rest

-- A deleted row, with the triggers.
unfoldable pub delete_allocation : Allocation → Store → Result Store
delete_allocation a s = do
  throw_if (is_closed_row s.locked_through (s.payments a.payment_id)) books_locked
  t ← settle_paid a.invoice_id (record s { allocations = remove_allocation a.id s.allocations })
  check_allocated a.payment_id t

-- The invoices that a payment is put against, a row each.
unfoldable pub allocated_to : String → List Allocation → List String
allocated_to id [] = []
allocated_to id (a ∷ as') =
    let rest = allocated_to id as' in if str_eq a.payment_id id then a.invoice_id ∷ rest else rest

unfoldable pub remove_allocations_of : String → List Allocation → List Allocation
remove_allocations_of id [] = []
remove_allocations_of id (a ∷ as') =
    let rest = remove_allocations_of id as' in if str_eq a.payment_id id then rest else a ∷ rest

-- The trigger after each of the rows that a cascade deletes.
unfoldable pub settle_each : List String → Store → Result Store
settle_each [] s = ok s
settle_each (id ∷ ids) s = settle_paid id s >>= λ t. settle_each ids t

-- A deleted payment: its allocations go with it, and each invoice is settled as they go. The
-- payment's own check and the lock of the allocations find no row.
unfoldable pub delete_payment : String → Store → Result Store
delete_payment id s = do
  throw_if (is_closed_row s.locked_through (s.payments id)) books_locked
  settle_each (allocated_to id s.allocations) (record s {
    payments = put id none s.payments;
    allocations = remove_allocations_of id s.allocations;
  })

-- An updated payment, with the triggers `workloom_payment_lock` and `workloom_payment_guard`: its
-- kind does not change.
unfoldable pub update_payment : PaymentRow → PaymentRow → Store → Result Store
update_payment before p s = do
  throw_if (is_locked_update s.locked_through before p) books_locked
  let t = record s { payments = put p.id (some p) s.payments }
  (if eqb_ℤ p.amount before.amount
      then ok t
      else (check_allocated p.id t >>= λ u. settle_each (allocated_to p.id u.allocations) u))
