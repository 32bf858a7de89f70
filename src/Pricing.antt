-- ===== src/Pricing.antt =====
-- packages/core/src/tax/calculate.ts: how a quote or an invoice adds up. `calculate` is split at
-- the numbered comments of the source, the steps from the document discount on in
-- Pricing/Document; a CalculationError is `err (calculation_error …)`.
pub mod Document
pub mod Calculate
pub mod Grouping
pub mod Scatter
pub mod Taxes
pub mod Discounts
pub mod Totals
pub mod Correct
pub mod NoRange
pub mod Rates
pub mod Failures
use workloom.Base.{
  ◌≡◌, ℕ, zero, suc, ◌+◌, ◌*◌, Bool, true, false, not, ◌&&◌, ◌||◌, ltb, if◌then◌else◌, str_eq,
  String, Option, none, some, List, [], ◌∷◌, ◌++◌, map, length, get_elem?, get_or, set, replicate,
  Result, ok, err, ◌>>=◌, ◌>>◌, throw_if, Error, Field, money_error, calculation_error,
  zero_quantity, invalid_currency, invalid_amount, discount_without_subtotal,
  discount_exceeds_subtotal, tax_rate_conflict, on_currency, on_unit_amount, on_quantity,
  on_discount_percent, on_tax_rate, on_discount,
}
use workloom.Base.Int.{
  ℤ, pos, negsuc, ◌+ℤ◌, ◌-ℤ◌, ◌*ℤ◌, neg_ℤ, ltb_ℤ, leb_ℤ, eqb_ℤ, is_negative, is_zero, sum_ℤ,
}
use workloom.Money.{
  decimal_scale, scale_factor, hundred_percent, max_safe, round_div, parse_percent, to_safe_number,
}
use workloom.Money.Decimal.{Text, parse_decimal, format_decimal}
use workloom.Money.Currency.{is_currency_code}
use workloom.Money.Apportion.{apportion, allocate}

pub data TaxMode : Type 0 where
  exclusive inclusive : TaxMode

-- A JavaScript number, as far as `Number.isSafeInteger` and `BigInt` tell numbers apart.
pub data Number : Type 0 where
  whole : ℤ → Number
  not_whole : Number

pub record LineTax : Type 0 where
  pub key : String
  pub rate : Text

pub record CalculationLine : Type 0 where
  pub quantity : Text
  pub unit_amount : Number
  pub discount_percent : Option Text
  pub tax : Option LineTax

pub data DocumentDiscount : Type 0 where
  by_percent : Text → DocumentDiscount
  by_amount : Number → DocumentDiscount

pub record CalculationInput : Type 0 where
  pub currency : String
  pub tax_mode : TaxMode
  pub discount : Option DocumentDiscount
  pub lines : List CalculationLine

pub record CalculatedLine : Type 0 where
  pub amount : ℤ
  pub line_discount : ℤ
  pub net : ℤ
  pub document_discount : ℤ
  pub taxable : ℤ
  pub tax : ℤ
  pub total : ℤ

pub record TaxTotal : Type 0 where
  pub key : String
  pub rate : Text
  pub amount : ℤ
  pub tax : ℤ

pub record Calculation : Type 0 where
  pub subtotal : ℤ
  pub discount : ℤ
  pub tax : ℤ
  pub total : ℤ
  pub lines : List CalculatedLine
  pub taxes : List TaxTotal

-- `Number.isSafeInteger`, and the value of a number that passes it.
unfoldable pub safe_integer : Number → Option ℤ
safe_integer not_whole = none
safe_integer (whole z) =
    if ltb_ℤ (pos max_safe) z || ltb_ℤ z (neg_ℤ (pos max_safe)) then none else some z

unfoldable pub parse_quantity : Text → Result ℤ
parse_quantity quantity = do
  scaled ← parse_decimal quantity decimal_scale (some 10)
  throw_if (is_zero scaled) (money_error zero_quantity)
  ok scaled

-- `atLine`, `parseOrThrow` and `toSafe` catch a MoneyError and throw it as a CalculationError.
abbrev pub recast {ℓ} : {A : Type ℓ} → Option Field → Option ℕ → Result A → Result A
recast field line (ok a) = ok a
recast field line (err (money_error code)) = err (calculation_error code field line)
recast field line (err e) = err e

-- What follows a recast call goes on from the call's own value.
pub recast_ok {ℓ κ} :
    {A : Type ℓ} {B : Type κ} (field : Option Field) (line : Option ℕ) (r : Result A)
    (k : A → Result B) {b : B}
    → (recast field line r >>= k) ≡ ok b
    → (r >>= k) ≡ ok b
recast_ok field line (ok a) k h = h
recast_ok field line (err (money_error code)) k h = absurd (cc)
recast_ok field line (err e) k h = absurd (cc)

abbrev pub at_line {ℓ} : {A : Type ℓ} → ℕ → Field → Result A → Result A
at_line index field r = recast (some field) (some index) r

unfoldable pub to_safe : ℤ → Result ℤ
unfolding to_safe_number
to_safe value = recast none none (to_safe_number value)

-- A line after the first step.
pub record Priced : Type 0 where
  pub amount : ℤ
  pub line_discount : ℤ
  pub net : ℤ
  pub tax_rate : Option ℤ
  pub tax : Option LineTax

abbrev number_or : Option ℤ → ℕ → Result ℤ
number_or none index = err (calculation_error invalid_amount (some on_unit_amount) (some index))
number_or (some z) index = ok z

-- An empty text is falsy, as `null` is.
unfoldable pub discount_rate : ℕ → Option Text → Result ℤ
discount_rate index none = ok (pos 0)
discount_rate index (some []) = ok (pos 0)
discount_rate index (some (c ∷ cs)) = at_line index on_discount_percent (parse_percent (c ∷ cs))

unfoldable pub tax_rate_of : ℕ → Option LineTax → Result (Option ℤ)
tax_rate_of index none = ok none
tax_rate_of index (some t) = do
  rate ← at_line index on_tax_rate (parse_percent t.rate)
  ok (some rate)

-- 1–2. One line's amount, discount and net.
unfoldable pub price_line : ℕ → CalculationLine → Result Priced
price_line index line = do
  unit ← number_or (safe_integer line.unit_amount) index
  quantity ← at_line index on_quantity (parse_quantity line.quantity)
  amount ← round_div (unit *ℤ quantity) (pos scale_factor)
  rate ← discount_rate index line.discount_percent
  line_discount ← round_div (amount *ℤ rate) (pos hundred_percent)
  tax_rate ← tax_rate_of index line.tax
  ok (record {
    amount = amount;
    line_discount = line_discount;
    net = amount -ℤ line_discount;
    tax_rate = tax_rate;
    tax = line.tax;
  })

unfoldable pub price_lines : ℕ → List CalculationLine → Result (List Priced)
price_lines index [] = ok []
price_lines index (l ∷ ls) = do p ← price_line index l; ps ← price_lines (suc index) ls; ok (p ∷ ps)
