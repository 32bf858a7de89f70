-- ===== src/Tests/Invoices.antt =====
-- Invoices at concrete inputs: a deposit of 100.00 taken off a statement, and a late invoice paid.
use workloom.Base.{◌≡◌, refl, true, false, ◌⊎◌, inr, none, some, List, [], ◌∷◌, ok, String}
use workloom.Base.Dict.{upsert}
use workloom.Base.Int.{ℤ, pos, negsuc, ◌+ℤ◌, ◌-ℤ◌, neg_ℤ}
use workloom.Invoices.Settlement.{
  Settlement, settlement_status, settlement_status_later, settlement_status-pay, on_day, pay,
  IsClosed, paid, overdue, refunded, partially_paid,
}
use workloom.Invoices.Totals.{
  TotalsLine, TotalsInput, present_totals, present_totals_adds_up, take_line, take_lines, values,
  settled_sum, deductions_total,
}
use workloom.Invoices.Deductions.{
  PriorInvoice, PriorInvoiceLine, DeductionLine, deduction_lines_for, deduction_lines_for_takes_off,
  group_taxable, group_deductions, AllNegative, unit_sum, taxable_sum, no_lines,
}

engine : Unit {0}
unfolding ◌+ℤ◌ ◌-ℤ◌ neg_ℤ upsert settlement_status present_totals take_line take_lines values
    settled_sum deduction_lines_for group_taxable group_deductions
engine = tt

abbrev half_paid : Settlement
half_paid = record {
  total = pos 100;
  amount_paid = pos 50;
  refunded_amount = pos 0;
  due_date = some (b'2' ∷ []);
  was_viewed = true;
  today = b'2' ∷ [];
}

runs :
    (settlement_status half_paid ≡ partially_paid)
    × (settlement_status (on_day half_paid (b'3' ∷ [])) ≡ overdue)
    × (settlement_status (pay half_paid 50) ≡ paid)
unfolding engine
runs = (refl, refl, refl)

settlement_status_later_example :
    (settlement_status (on_day half_paid (b'3' ∷ [])) ≡ settlement_status half_paid)
    ⊎ ((settlement_status (on_day half_paid (b'3' ∷ [])) ≡ overdue)
        × ¬ (IsClosed (settlement_status half_paid)))
settlement_status_later_example = settlement_status_later half_paid (b'3' ∷ []) (inr refl)

settlement_status-pay_example :
    (settlement_status half_paid ≡ paid → settlement_status (pay half_paid 50) ≡ paid)
    × (settlement_status (pay half_paid 50) ≡ overdue
        → (settlement_status half_paid ≡ overdue) ⊎ (settlement_status half_paid ≡ refunded))
settlement_status-pay_example = settlement_status-pay half_paid 50

abbrev site : TotalsLine
site = record {
  kind = "item";
  total = pos 500;
  deducts_invoice_id = none;
  deduction_settled = none;
}

abbrev deposit_off : TotalsLine
deposit_off = record {
  kind = "deduction";
  total = negsuc 99;
  deducts_invoice_id = some "deposit";
  deduction_settled = some true;
}

abbrev statement : TotalsInput
statement = record { total = pos 400; amount_paid = pos 150; lines = site ∷ deposit_off ∷ [] }

lines-statement : (site.total +ℤ (deposit_off.total +ℤ pos 0)) ≡ statement.total
unfolding engine
lines-statement = refl

present_totals_adds_up_example :
    (present_totals statement).items_total
      -ℤ deductions_total (present_totals statement).deductions
      -ℤ statement.amount_paid
    ≡ (present_totals statement).balance_due
present_totals_adds_up_example = present_totals_adds_up statement lines-statement

abbrev prior_line : ℤ → String → PriorInvoiceLine
prior_line taxable id = record {
  taxable = taxable;
  tax_rate_id = some id;
  tax_name = none;
  tax_rate = none;
}

abbrev deposit : PriorInvoice
deposit = record {
  id = "deposit";
  number = "INV-1";
  title = "Deposit";
  tax_mode = "exclusive";
  lines = prior_line (pos 60) "vat" ∷ prior_line (pos 30) "low" ∷ prior_line (pos 10) "vat" ∷ [];
}

abbrev off : ℤ → String → DeductionLine
off amount id = record {
  deducts_invoice_id = "deposit";
  description = "Deposit";
  detail = "INV-1";
  unit_amount = amount;
  tax_rate_id = some id;
  tax_name = none;
  tax_rate_pct_snapshot = none;
}

abbrev taken : List DeductionLine
taken = off (negsuc 69) "vat" ∷ off (negsuc 29) "low" ∷ []

deduction-deposit : deduction_lines_for deposit "exclusive" ≡ ok taken
unfolding engine
deduction-deposit = refl

deduction_lines_for_takes_off_example :
    (deposit.tax_mode ≡ "exclusive")
    × (no_lines taken ≡ false)
    × AllNegative taken
    × (unit_sum taken ≡ neg_ℤ (taxable_sum deposit.lines))
deduction_lines_for_takes_off_example =
    deduction_lines_for_takes_off deposit "exclusive" deduction-deposit
