-- ===== src/Invoices/Deductions.antt =====
-- packages/core/src/modules/finance/deductions.ts: taking an earlier invoice off a later one. The
-- `number` and the `title` of the earlier invoice, which are only copied, are one text each.
use workloom.Base.{
  ◌≡◌, refl, Bool, true, false, not, if◌then◌else◌, Option, none, some, List, [], ◌∷◌, String,
  str_eq, str_eq_iff, ap, ◌∙◌, Result, ok, throw_if, on_ok, on_guard, deduction_error,
  deduction_not_positive, deduction_tax_mode_mismatch, arith, ok_inj, Bool-cases, inl, inr,
}
use workloom.Base.{◌>>=◌, ◌>>◌}
use workloom.Base.Dict.{Dict, upsert, sum_values, measure_or_zero, sum_values-upsert}
use workloom.Base.Int.{ℤ, pos, ◌+ℤ◌, neg_ℤ, is_zero, is_negative, is_zero-eq, int_laws}

pub record PriorInvoiceLine : Type 0 where
  pub taxable : ℤ
  pub tax_rate_id : Option String
  pub tax_name : Option String
  pub tax_rate : Option String

pub record PriorInvoice : Type 0 where
  pub id : String
  pub number : String
  pub title : String
  pub tax_mode : String
  pub lines : List PriorInvoiceLine

-- The fields that are the same in every deduction (`kind`, `quantity`, `discountPercent` and
-- `serviceId`) are left out.
pub record DeductionLine : Type 0 where
  pub deducts_invoice_id : String
  pub description : String
  pub detail : String
  pub unit_amount : ℤ
  pub tax_rate_id : Option String
  pub tax_name : Option String
  pub tax_rate_pct_snapshot : Option String

pub record RateGroup : Type 0 where
  pub amount : ℤ
  pub tax_rate_id : Option String
  pub tax_name : Option String
  pub tax_rate : Option String

-- `line.taxRateId ?? ''`.
abbrev pub key_of : Option String → String
key_of none = ""
key_of (some id) = id

-- `groups.get(key) ?? { … }`, with the line's amount added.
abbrev pub add_to : PriorInvoiceLine → Option RateGroup → RateGroup
add_to line none = record {
  amount = pos 0 +ℤ line.taxable;
  tax_rate_id = line.tax_rate_id;
  tax_name = line.tax_name;
  tax_rate = line.tax_rate;
}
add_to line (some group) = record group { amount = group.amount +ℤ line.taxable }

unfoldable pub group_taxable : List PriorInvoiceLine → Dict RateGroup → Dict RateGroup
group_taxable [] groups = groups
group_taxable (line ∷ lines) groups =
    group_taxable lines (upsert (key_of line.tax_rate_id) (add_to line) groups)

abbrev pub deduction_line : PriorInvoice → RateGroup → DeductionLine
deduction_line prior group = record {
  deducts_invoice_id = prior.id;
  description = prior.title;
  detail = prior.number;
  unit_amount = neg_ℤ group.amount;
  tax_rate_id = group.tax_rate_id;
  tax_name = group.tax_name;
  tax_rate_pct_snapshot = group.tax_rate;
}

unfoldable pub group_deductions : PriorInvoice → Dict RateGroup → Result (List DeductionLine)
group_deductions prior [] = ok []
group_deductions prior ((key, group) ∷ groups) =
    let rest = group_deductions prior groups in
    if is_zero group.amount
    then rest
    else (throw_if (is_negative group.amount) (deduction_error deduction_not_positive)
        >> (rest >>= λ lines. ok (deduction_line prior group ∷ lines)))

abbrev pub no_lines : List DeductionLine → Bool
no_lines [] = true
no_lines (l ∷ ls) = false

unfoldable pub deduction_lines_for : PriorInvoice → String → Result (List DeductionLine)
deduction_lines_for prior tax_mode =
    throw_if (not (str_eq prior.tax_mode tax_mode)) (deduction_error deduction_tax_mode_mismatch)
    >> (group_deductions prior (group_taxable prior.lines []) >>= λ lines.
        throw_if (no_lines lines) (deduction_error deduction_not_positive) >> ok lines)

abbrev pub taxable_sum : List PriorInvoiceLine → ℤ
taxable_sum [] = pos 0
taxable_sum (line ∷ lines) = line.taxable +ℤ taxable_sum lines

abbrev pub unit_sum : List DeductionLine → ℤ
unit_sum [] = pos 0
unit_sum (line ∷ lines) = line.unit_amount +ℤ unit_sum lines

-- Every line takes something off.
abbrev pub AllNegative : List DeductionLine → Type 0
AllNegative [] = Unit
AllNegative (line ∷ lines) = (is_negative line.unit_amount ≡ true) × AllNegative lines

abbrev amount_of : RateGroup → ℤ
amount_of group = group.amount

add_to-amount :
    (line : PriorInvoiceLine) (o : Option RateGroup)
    → amount_of (add_to line o) ≡ measure_or_zero amount_of o +ℤ line.taxable
add_to-amount line none = omega int_laws
add_to-amount line (some group) = omega int_laws

sum-group_taxable :
    (lines : List PriorInvoiceLine) (groups : Dict RateGroup)
    → sum_values amount_of (group_taxable lines groups)
      ≡ sum_values amount_of groups +ℤ taxable_sum lines
unfolding group_taxable
sum-group_taxable [] groups = omega int_laws
sum-group_taxable (line ∷ lines) groups =
    sum-group_taxable lines (upsert (key_of line.tax_rate_id) (add_to line) groups)
    ∙ rw
        (sum_values-upsert amount_of (key_of line.tax_rate_id) (add_to line) line.taxable
          (add_to-amount line) groups)
        (omega int_laws)

not-false : {c : Bool} → not c ≡ false → c ≡ true
not-false {c = true} h = refl
not-false {c = false} h = cc

is_negative-neg_ℤ :
    (a : ℤ) → is_zero a ≡ false → is_negative a ≡ false → is_negative (neg_ℤ a) ≡ true
unfolding neg_ℤ
is_negative-neg_ℤ a z n = ground arith

group_deductions_takes_off :
    (prior : PriorInvoice) (groups : Dict RateGroup) {lines : List DeductionLine}
    → group_deductions prior groups ≡ ok lines
    → (unit_sum lines ≡ neg_ℤ (sum_values amount_of groups)) × AllNegative lines
unfolding group_deductions
group_deductions_takes_off prior [] h = rw (← ok_inj h) (omega int_laws, tt)
group_deductions_takes_off prior ((key, group) ∷ groups) h =
    elim (Bool-cases (is_zero group.amount)) [
      | inl z ↦
          let ih = group_deductions_takes_off prior groups (rw z at h) in
          (rw (is_zero-eq group.amount z, ih.0) (omega int_laws), ih.1)
      | inr nz ↦ on_guard (is_negative group.amount) _ _ (rw nz at h) λ n h1.
          on_ok (group_deductions prior groups) _ h1 λ rest e h2.
            let ih = group_deductions_takes_off prior groups e in
            rw (← ok_inj h2) (rw ih.0 (omega int_laws), (is_negative-neg_ℤ group.amount nz n, ih.1))
    ]

-- What a successful `deduction_lines_for` takes off is exactly what the earlier invoice charged:
-- the tax modes agree, there is at least one line, every line is negative, and the unit amounts
-- sum to the taxable amounts of the earlier invoice, negated.
pub deduction_lines_for_takes_off :
    (prior : PriorInvoice) (tax_mode : String) {lines : List DeductionLine}
    → deduction_lines_for prior tax_mode ≡ ok lines
    → (prior.tax_mode ≡ tax_mode)
      × (no_lines lines ≡ false)
      × AllNegative lines
      × (unit_sum lines ≡ neg_ℤ (taxable_sum prior.lines))
unfolding deduction_lines_for
deduction_lines_for_takes_off prior tax_mode h =
    on_guard (not (str_eq prior.tax_mode tax_mode)) _ _ h λ same h1.
      on_ok (group_deductions prior (group_taxable prior.lines [])) _ h1 λ out e h2.
        on_guard (no_lines out) _ _ h2 λ some_line h3.
          let t = group_deductions_takes_off prior (group_taxable prior.lines []) e in
          rw (← ok_inj h3) (
            (str_eq_iff prior.tax_mode tax_mode).0 (not-false same),
            some_line,
            t.1,
            t.0 ∙ ap neg_ℤ (rw (sum-group_taxable prior.lines []) (omega int_laws)),
          )
