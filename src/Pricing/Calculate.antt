-- ===== src/Pricing/Calculate.antt =====
-- packages/core/src/tax/calculate.ts: the totals, and the whole of `calculate`.
use workloom.Base.{
  Bool, not, if◌then◌else◌, none, some, List, [], ◌∷◌, map, Result, ok, ◌>>=◌, ◌>>◌, throw_if,
  calculation_error, invalid_currency, on_currency,
}
use workloom.Base.Int.{ℤ, pos, ◌+ℤ◌, ◌-ℤ◌, sum_ℤ}
use workloom.Money.Currency.{is_currency_code}
use workloom.Pricing.{CalculationInput, CalculatedLine, Calculation, to_safe, Priced, price_lines}
use workloom.Pricing.Document.{
  is_inclusive, document_discount, discount_shares, nets, minus_each, group_lines, TaxState,
  tax_groups,
}

-- 6. One line of the result.
unfoldable pub finish_line : Bool → Priced → ℤ → ℤ → ℤ → Result CalculatedLine
finish_line incl p share taxable tax = do
  amount ← to_safe p.amount
  line_discount ← to_safe p.line_discount
  net ← to_safe p.net
  document_discount ← to_safe share
  taxable' ← to_safe taxable
  tax' ← to_safe tax
  total ← to_safe (if incl then taxable else taxable +ℤ tax)
  ok (record {
    amount = amount;
    line_discount = line_discount;
    net = net;
    document_discount = document_discount;
    taxable = taxable';
    tax = tax';
    total = total;
  })

-- The four lists are of one length.
unfoldable pub finish_lines :
    Bool → List Priced → List ℤ → List ℤ → List ℤ → Result (List CalculatedLine)
finish_lines incl (p ∷ ps) (s ∷ ss) (x ∷ xs) (t ∷ ts) = do
  line ← finish_line incl p s x t
  lines ← finish_lines incl ps ss xs ts
  ok (line ∷ lines)
finish_lines incl ps ss xs ts = ok []

-- 7. The totals.
unfoldable pub finish : Bool → ℤ → ℤ → List Priced → List ℤ → List ℤ → TaxState → Result Calculation
finish incl subtotal discount priced shares taxable s = do
  lines ← finish_lines incl priced shares taxable s.line_tax
  subtotal' ← to_safe subtotal
  discount' ← to_safe discount
  tax ← to_safe s.tax_total
  total ← to_safe ((subtotal -ℤ discount) +ℤ (if incl then pos 0 else s.tax_total))
  ok (record {
    subtotal = subtotal';
    discount = discount';
    tax = tax;
    total = total;
    lines = lines;
    taxes = s.taxes;
  })

abbrev pub no_tax : List Priced → TaxState
no_tax priced = record { line_tax = map (λ _. pos 0) priced; taxes = []; tax_total = pos 0 }

unfoldable pub calculate : CalculationInput → Result Calculation
calculate input = do
  throw_if (not (is_currency_code input.currency))
      (calculation_error invalid_currency (some on_currency) none)
  let incl = is_inclusive input.tax_mode
  priced ← price_lines 0 input.lines
  let subtotal = sum_ℤ (nets priced)
  discount ← document_discount input.discount subtotal
  shares ← discount_shares discount priced
  let taxable = minus_each (nets priced) shares
  groups ← group_lines priced 0 priced []
  s ← tax_groups incl priced taxable groups (no_tax priced)
  finish incl subtotal discount priced shares taxable s
