-- ===== src/Invoices/Totals.antt =====
-- packages/core/src/modules/finance/document-totals.ts: how an invoice's bottom line reads.
use workloom.Base.{
  ◌≡◌, refl, Bool, true, false, ◌&&◌, not, if◌then◌else◌, Option, none, some, List, [], ◌∷◌, String,
  str_eq, map, ap, ◌∙◌,
}
use workloom.Base.Dict.{Dict, upsert, sum_values, measure_or_zero, sum_values-upsert}
use workloom.Base.Int.{ℤ, pos, ◌+ℤ◌, ◌-ℤ◌, sum_ℤ, int_laws}

pub record TotalsLine : Type 0 where
  pub kind : String
  pub total : ℤ
  pub deducts_invoice_id : Option String
  pub deduction_settled : Option Bool

pub record TotalsInput : Type 0 where
  pub total : ℤ
  pub amount_paid : ℤ
  pub lines : List TotalsLine

pub record PresentedDeduction : Type 0 where
  pub invoice_id : String
  pub amount : ℤ
  pub settled : Option Bool

pub record PresentedTotals : Type 0 where
  pub statement : Bool
  pub items_total : ℤ
  pub deductions : List PresentedDeduction
  pub balance_due : ℤ
  pub received : ℤ

-- `deductions.get(id) ?? { … }`, less the line.
abbrev pub deduct : String → TotalsLine → Option PresentedDeduction → PresentedDeduction
deduct id line none = record {
  invoice_id = id;
  amount = pos 0 -ℤ line.total;
  settled = line.deduction_settled;
}
deduct id line (some entry) = record entry { amount = entry.amount -ℤ line.total }

-- An empty text is falsy, as `null` is.
abbrev pub deducted_id : TotalsLine → Option String
deducted_id line = elim line.deducts_invoice_id [
  | none ↦ none
  | some id ↦ if (str_eq line.kind "deduction") && not (str_eq id "") then some id else none
]

-- The variables of the loop over the lines.
pub record Running : Type 0 where
  pub items_total : ℤ
  pub deductions : Dict PresentedDeduction

unfoldable pub take_line : TotalsLine → Option String → Running → Running
take_line line none r = record r { items_total = r.items_total +ℤ line.total }
take_line line (some id) r = record r { deductions = upsert id (deduct id line) r.deductions }

unfoldable pub take_lines : List TotalsLine → Running → Running
take_lines [] r = r
take_lines (line ∷ lines) r = take_lines lines (take_line line (deducted_id line) r)

-- `[...deductions.values()]`.
unfoldable pub values : Dict PresentedDeduction → List PresentedDeduction
values [] = []
values ((id, d) ∷ m) = d ∷ values m

-- The sum over `list.filter((d) => d.settled === true)`.
unfoldable pub settled_sum : List PresentedDeduction → ℤ
settled_sum [] = pos 0
settled_sum (d ∷ ds) = elim d.settled [
  | some true ↦ d.amount +ℤ settled_sum ds
  | some false ↦ settled_sum ds
  | none ↦ settled_sum ds
]

abbrev is_nonempty {ℓ} : {A : Type ℓ} → List A → Bool
is_nonempty [] = false
is_nonempty (x ∷ xs) = true

unfoldable pub present_totals : TotalsInput → PresentedTotals
present_totals invoice =
    let r = take_lines invoice.lines (record { items_total = pos 0; deductions = [] }) in
    let list = values r.deductions in
    record {
      statement = is_nonempty list;
      items_total = r.items_total;
      deductions = list;
      balance_due = invoice.total -ℤ invoice.amount_paid;
      received = settled_sum list +ℤ invoice.amount_paid;
    }

abbrev pub lines_total : List TotalsLine → ℤ
lines_total [] = pos 0
lines_total (line ∷ lines) = line.total +ℤ lines_total lines

abbrev pub deductions_total : List PresentedDeduction → ℤ
deductions_total ds = sum_ℤ (map (λ d. d.amount) ds)

sum-values :
    (m : Dict PresentedDeduction) → deductions_total (values m) ≡ sum_values (λ d. d.amount) m
unfolding values
sum-values [] = refl
sum-values ((id, d) ∷ m) = ap (λ s. d.amount +ℤ s) (sum-values m)

deduct-amount :
    (id : String) (line : TotalsLine) (o : Option PresentedDeduction)
    → (deduct id line o).amount ≡ measure_or_zero (λ d. d.amount) o +ℤ (pos 0 -ℤ line.total)
deduct-amount id line none = omega int_laws
deduct-amount id line (some d) = omega int_laws

-- What the lines came to so far: the items, less what has been taken off.
abbrev net_of : Running → ℤ
net_of r = r.items_total -ℤ sum_values (λ d. d.amount) r.deductions

net_of-take_line :
    (line : TotalsLine) (id : Option String) (r : Running)
    → net_of (take_line line id r) ≡ net_of r +ℤ line.total
unfolding take_line
net_of-take_line line none r = omega int_laws
net_of-take_line line (some id) r =
    rw
      (sum_values-upsert (λ d. d.amount) id (deduct id line) (pos 0 -ℤ line.total)
        (deduct-amount id line) r.deductions)
      (omega int_laws)

net_of-take_lines :
    (lines : List TotalsLine) (r : Running)
    → net_of (take_lines lines r) ≡ net_of r +ℤ lines_total lines
unfolding take_lines
net_of-take_lines [] r = omega int_laws
net_of-take_lines (line ∷ lines) r =
    net_of-take_lines lines (take_line line (deducted_id line) r)
    ∙ rw (net_of-take_line line (deducted_id line) r) (omega int_laws)

-- A statement reads through: for an invoice whose total is the sum of its lines, the items total
-- less the deductions shown less what has been paid on the invoice is the balance due.
pub present_totals_adds_up :
    (invoice : TotalsInput)
    → lines_total invoice.lines ≡ invoice.total
    → (present_totals invoice).items_total
        -ℤ deductions_total (present_totals invoice).deductions
        -ℤ invoice.amount_paid
      ≡ (present_totals invoice).balance_due
unfolding present_totals
present_totals_adds_up invoice h =
    let start : Running = record { items_total = pos 0; deductions = [] } in
    let r = take_lines invoice.lines start in
    ap (λ (t : ℤ). t -ℤ invoice.amount_paid)
      (ap (λ (s : ℤ). r.items_total -ℤ s) (sum-values r.deductions)
        ∙ net_of-take_lines invoice.lines start
        ∙ rw h (omega int_laws))
