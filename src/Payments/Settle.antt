-- ===== src/Payments/Settle.antt =====
-- `settleInvoice` and `settleAll` of packages/core/src/modules/finance/payments.ts: the status of an
-- invoice follows what has been paid on it.
use workloom.Base.{
  Bool, true, false, ◌&&◌, if◌then◌else◌, Option, none, some, List, [], ◌∷◌, ◌++◌, String, str_eq,
  ℕ, ◌==◌, Result, ok, ◌>>=◌, ◌>>◌, throw_if, database_error,
}
use Prim.Native.Nat.{Ordering}
use Prim.Native.String.{compare}
use workloom.Base.Int.{ℤ, pos, ◌+ℤ◌, ltb_ℤ}
use workloom.Money.Decimal.{Text}
use workloom.Invoices.Settlement.{
  Settlement, SettlementStatus, SettlementEvent, settlement_status, settlement_event, status_eq,
  paid_at,
}
use workloom.Payments.Store.{
  payment, refund, PaymentRow, InvoiceRow, InvoiceStatus, draft, cancelled, issued, Allocation,
  Announcement, settled, Store, put, found,
}

-- What a request knows besides the tables: the clock, and the organization's day and currency.
pub record Context : Type 0 where
  pub now : ℕ
  pub today : Text
  pub base_currency : String

abbrev pub refund_amount : Option PaymentRow → ℤ → ℤ
refund_amount none amount = pos 0
refund_amount (some p) amount = elim p.kind [ payment ↦ pos 0 | refund ↦ amount ]

-- The sum of `refundedAgainst`.
unfoldable pub refunded_sum : String → (String → Option PaymentRow) → List Allocation → ℤ
refunded_sum id payments [] = pos 0
refunded_sum id payments (a ∷ as') =
    let rest = refunded_sum id payments as' in
    if str_eq a.invoice_id id then refund_amount (payments a.payment_id) a.amount +ℤ rest else rest

-- The largest `int` of the database.
abbrev pub largest_int : ℤ
largest_int = pos 2147483647

-- `refundedAgainst`: its sum is cast to an `int`, and the amounts of a table are above zero.
unfoldable pub refunded_against : String → (String → Option PaymentRow) → List Allocation → Result ℤ
refunded_against id payments rows = do
  throw_if (ltb_ℤ largest_int (refunded_sum id payments rows)) database_error
  ok (refunded_sum id payments rows)

abbrev pub settlement_of : Text → InvoiceRow → ℤ → Settlement
settlement_of on inv given_back = record {
  total = inv.total;
  amount_paid = inv.amount_paid;
  refunded_amount = given_back;
  due_date = inv.due_date;
  was_viewed = inv.was_viewed;
  today = on;
}

-- `a?.getTime() === b?.getTime()`.
abbrev pub same_time : Option ℕ → Option ℕ → Bool
same_time none none = true
same_time (some a) (some b) = a == b
same_time none (some b) = false
same_time (some a) none = false

abbrev pub announce : Option SettlementEvent → String → List Announcement → List Announcement
announce none id outbox = outbox
announce (some event) id outbox = outbox ++ settled event id ∷ []

-- The move of an invoice from a status to the one that it settles to.
abbrev pub move_to : SettlementStatus → Option ℕ → SettlementStatus → InvoiceRow → Store → Store
move_to status settled_at from inv s =
    if status_eq status from && same_time settled_at inv.paid_at then s else record s {
      invoices =
          put inv.id (some (record inv { status = issued status; paid_at = settled_at }))
            s.invoices;
      outbox = announce (settlement_event from status) inv.id s.outbox;
    }

abbrev pub move_settled : ℕ → Text → InvoiceRow → SettlementStatus → ℤ → Store → Store
move_settled now on inv from given_back s =
    let status = settlement_status (settlement_of on inv given_back) in
    move_to status (paid_at status inv.paid_at now) from inv s

abbrev pub settle_status : ℕ → Text → InvoiceRow → InvoiceStatus → Store → Result Store
settle_status now on inv draft s = ok s
settle_status now on inv cancelled s = ok s
settle_status now on inv (issued from) s = do
  given_back ← refunded_against inv.id s.payments s.allocations
  ok (move_settled now on inv from given_back s)

unfoldable pub settle_invoice : ℕ → Text → String → Store → Result Store
settle_invoice now on id s = do
  inv ← found "Invoice" (s.invoices id)
  settle_status now on inv inv.status s

-- `[...new Set(ids)].sort()`.
abbrev pub text_before : String → String → Bool
text_before a b = elim (compare a b) [ Ordering.lt ↦ true | _ ↦ false ]

unfoldable pub insert_id : String → List String → List String
insert_id id [] = id ∷ []
insert_id id (x ∷ xs) =
    let rest = insert_id id xs in
    if str_eq id x then x ∷ xs else if text_before id x then id ∷ x ∷ xs else x ∷ rest

unfoldable pub sorted_set : List String → List String
sorted_set [] = []
sorted_set (id ∷ ids) = insert_id id (sorted_set ids)

unfoldable pub settle_in_order : ℕ → Text → List String → Store → Result Store
settle_in_order now on [] s = ok s
settle_in_order now on (id ∷ ids) s =
    settle_invoice now on id s >>= λ t. settle_in_order now on ids t

unfoldable pub settle_all : Context → List String → Store → Result Store
settle_all ctx ids s = settle_in_order ctx.now ctx.today (sorted_set ids) s
