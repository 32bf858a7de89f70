-- ===== src/Payments/Inputs.antt =====
-- What the procedures of packages/core/src/modules/finance/payments.ts take, and the parts that they
-- are made of.
use workloom.Base.{
  Bool, true, false, not, ◌&&◌, ◌||◌, if◌then◌else◌, Option, none, some, List, [], ◌∷◌, ◌++◌,
  String, str_eq, ℕ, suc, map, Result, ok, err, ◌>>=◌, ◌>>◌, throw_if, domain_error, books_locked,
}
use workloom.Base.Int.{ℤ, pos, ◌-ℤ◌, eqb_ℤ}
use workloom.Money.{to_safe_number}
use workloom.Money.Decimal.{Text, is_empty}
use workloom.Money.Convert.{convert}
use workloom.Payments.Store.{
  PaymentKind, PaymentRow, Announcement, Store, put, found, same_text, is_closed,
}
use workloom.Payments.Settle.{Context, settle_all}
use workloom.Payments.Allocate.{AllocationInput, allocate}

-- What the register of bank lines does for a payment: `resolveAccount`, `dropRecordedLine`,
-- `syncPaymentLine`, and `workloom_check_payment_banked` for a payment's amount.
pub record BankRegister (R : Type 0) : Type 0 where
  pub resolve_account : R → Option String → String → Result (Option String)
  pub drop_recorded_line : String → R → Result R
  pub check_banked : String → ℤ → R → Result (Unit {0})
  pub sync_payment_line : Store → String → R → Result R

pub record Books (R : Type 0) : Type 0 where
  pub store : Store
  pub register : R

pub record PaymentInput : Type 0 where
  pub company_id : String
  pub amount : ℤ
  pub kind : PaymentKind
  pub currency : Option String
  pub received_on : Option Text
  pub method : String
  pub reference : Option String
  pub bank_account_id : Option String
  pub notes : Option String
  pub exchange_rate : Option Text
  pub allocations : List AllocationInput

-- A correction: an outer `none` is a field that was not given.
pub record PaymentPatch : Type 0 where
  pub amount : Option ℤ
  pub received_on : Option Text
  pub method : Option String
  pub reference : Option (Option String)
  pub bank_account_id : Option (Option String)
  pub notes : Option (Option String)
  pub exchange_rate : Option Text

-- `a ?? b`.
abbrev pub given_or {ℓ} : {A : Type ℓ} → Option A → A → A
given_or none b = b
given_or (some a) b = a

-- Not null, and for a text not empty.
abbrev pub truthy : Option String → Bool
truthy none = false
truthy (some s) = not (str_eq s "")

abbrev pub rate_given : Option Text → Result Text
rate_given none = err (domain_error "exchange_rate_required")
rate_given (some rate) =
    if is_empty rate then err (domain_error "exchange_rate_required") else ok rate

abbrev pub in_base : PaymentRow → ℤ → String → Text → Result PaymentRow
in_base p amount base rate = do
  converted ← convert amount p.currency base rate
  safe ← to_safe_number converted
  ok (record p {
    amount = amount;
    base_currency = base;
    exchange_rate_to_base = rate;
    amount_base = safe;
  })

-- `inBaseCurrency`, written into the row, with its amount.
unfoldable pub in_base_currency : Context → PaymentRow → ℤ → Option Text → Result PaymentRow
in_base_currency ctx p amount given = do
  rate ← rate_given (if str_eq p.currency ctx.base_currency then some (b'1' ∷ []) else given)
  in_base p amount ctx.base_currency rate

-- The currency given, else that of the first invoice, else the base currency.
abbrev pub currency_for : Context → Option String → List AllocationInput → Store → Result String
currency_for ctx given requests s = if truthy given then ok (given_or given "") else elim requests [
  | [] ↦ ok (given_or given ctx.base_currency)
  | request ∷ _ ↦ found "Invoice" (s.invoices request.invoice_id) >>= λ inv. ok inv.currency
]

-- The loop over the requests. `new_ids` are the ids that `newId` gives, one a request.
unfoldable pub allocate_each :
    (ℕ → String) → ℕ → PaymentRow → List AllocationInput → ℤ → Store → Result Store
allocate_each new_ids i p [] remaining s = ok s
allocate_each new_ids i p (request ∷ requests) remaining s =
    allocate (new_ids i) p request remaining s >>= λ (t, amount).
    allocate_each new_ids (suc i) p requests (remaining -ℤ amount) t

abbrev pub request_invoice : AllocationInput → String
request_invoice request = request.invoice_id

abbrev pub new_payment : Context → String → PaymentInput → String → PaymentRow
new_payment ctx id input currency = record {
  id = id;
  company_id = input.company_id;
  kind = input.kind;
  received_on = given_or input.received_on ctx.today;
  method = input.method;
  reference = input.reference;
  currency = currency;
  amount = input.amount;
  base_currency = ctx.base_currency;
  exchange_rate_to_base = [];
  amount_base = pos 0;
  bank_account_id = none;
  notes = input.notes;
}

abbrev pub announced : Announcement → Store → Store
announced event s = record s { outbox = s.outbox ++ event ∷ [] }

-- The part of `paymentRecord` that writes: the row, which `workloom_payment_lock` refuses in closed
-- books, what it is put against, and the invoices.
unfoldable pub record_in :
    Context → (ℕ → String) → PaymentRow → List AllocationInput → Store → Result Store
record_in ctx new_ids p requests s = do
  throw_if (is_closed s.locked_through p.received_on) books_locked
  t ←
      allocate_each new_ids 0 p requests p.amount
        (record s { payments = put p.id (some p) s.payments })
  settle_all ctx (map request_invoice requests) t

abbrev pub same_option : Option String → Option String → Bool
same_option none none = true
same_option (some a) (some b) = str_eq a b
same_option none (some b) = false
same_option (some a) none = false

-- `diff` finds nothing. A stored rate reads in its shortest form, as a given one does.
abbrev pub is_same_payment : PaymentRow → PaymentRow → Bool
is_same_payment a b =
    same_text a.received_on b.received_on
    && str_eq a.method b.method
    && same_option a.reference b.reference
    && eqb_ℤ a.amount b.amount
    && str_eq a.base_currency b.base_currency
    && same_text a.exchange_rate_to_base b.exchange_rate_to_base
    && eqb_ℤ a.amount_base b.amount_base
    && same_option a.bank_account_id b.bank_account_id
    && same_option a.notes b.notes

abbrev pub is_given {ℓ} : {A : Type ℓ} → Option A → Bool
is_given none = false
is_given (some a) = true

abbrev pub patched : PaymentPatch → Option String → PaymentRow → PaymentRow
patched patch account p = record p {
  received_on = given_or patch.received_on p.received_on;
  method = given_or patch.method p.method;
  reference = given_or patch.reference p.reference;
  bank_account_id = account;
  notes = given_or patch.notes p.notes;
}

-- The row that a patch makes, the amount and the rate converted again where either is given anew.
abbrev pub patched_row : Context → PaymentPatch → Option String → PaymentRow → Result PaymentRow
patched_row ctx patch account before =
    let amount = given_or patch.amount before.amount in
    if not (eqb_ℤ amount before.amount) || is_given patch.exchange_rate
    then in_base_currency ctx (patched patch account before) amount
        (some (given_or patch.exchange_rate before.exchange_rate_to_base))
    else ok (patched patch account before)
