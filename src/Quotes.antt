-- ===== src/Quotes.antt =====
-- packages/core/src/modules/finance/quote-split.ts: what a quote is for, a one-time price and what
-- recurs.
use workloom.Base.{
  ◌≡◌, ◌∙◌, not, ◌&&◌, if◌then◌else◌, Option, none, some, List, [], ◌∷◌, ◌++◌, String, str_eq, ℕ,
  ◌==◌, Bool-cases, inl, inr,
}
use workloom.Base.Int.{ℤ, pos, ◌+ℤ◌, ◌-ℤ◌, int_laws}

pub record SplitLine : Type 0 where
  pub billing_type : Option String
  pub interval_unit : Option String
  pub interval_count : Option ℕ
  pub net : ℤ
  pub document_discount : ℤ
  pub total : ℤ

-- `unit` and `count` stand for the key `${unit}:${count}` as well.
pub record RecurringPart : Type 0 where
  pub unit : String
  pub count : ℕ
  pub lines : List SplitLine
  pub per_period_net : ℤ

pub record QuoteSplit : Type 0 where
  pub one_time : List SplitLine
  pub one_time_net : ℤ
  pub one_time_total : ℤ
  pub recurring : List RecurringPart

-- `line.billingType === 'recurring' && line.intervalUnit && line.intervalCount`, where an empty
-- text and a zero are falsy.
abbrev pub interval_of : Option String → Option String → Option ℕ → Option (String × ℕ)
interval_of (some type) (some unit) (some count) =
    if str_eq type "recurring" && not (str_eq unit "") && not (count == 0)
    then some (unit, count)
    else none
interval_of _ _ _ = none

abbrev pub kept : SplitLine → ℤ
kept line = line.net -ℤ line.document_discount

-- `recurring.get(key) ?? { … }`, with the line pushed, written back at the key.
unfoldable pub add_recurring : String → ℕ → SplitLine → List RecurringPart → List RecurringPart
add_recurring unit count line [] =
    record { unit = unit; count = count; lines = line ∷ []; per_period_net = pos 0 +ℤ kept line }
    ∷ []
add_recurring unit count line (part ∷ parts) =
    let rest = add_recurring unit count line parts in
    if str_eq part.unit unit && part.count == count
    then record part {
      lines = part.lines ++ (line ∷ []);
      per_period_net = part.per_period_net +ℤ kept line;
    }
      ∷ parts
    else part ∷ rest

pub record Split : Type 0 where
  pub one_time : List SplitLine
  pub recurring : List RecurringPart

abbrev pub split_line : SplitLine → Option (String × ℕ) → Split → Split
split_line line (some (unit, count)) s = record s {
  recurring = add_recurring unit count line s.recurring;
}
split_line line none s = record s { one_time = s.one_time ++ (line ∷ []) }

unfoldable pub split_lines : List SplitLine → Split → Split
split_lines [] s = s
split_lines (line ∷ lines) s =
    split_lines lines
      (split_line line (interval_of line.billing_type line.interval_unit line.interval_count) s)

abbrev pub net_sum : List SplitLine → ℤ
net_sum [] = pos 0
net_sum (line ∷ lines) = kept line +ℤ net_sum lines

abbrev pub gross_sum : List SplitLine → ℤ
gross_sum [] = pos 0
gross_sum (line ∷ lines) = line.total +ℤ gross_sum lines

unfoldable pub quote_split : List SplitLine → QuoteSplit
quote_split lines =
    let s = split_lines lines (record { one_time = []; recurring = [] }) in
    record {
      one_time = s.one_time;
      one_time_net = net_sum s.one_time;
      one_time_total = gross_sum s.one_time;
      recurring = s.recurring;
    }

abbrev pub recurring_net : List RecurringPart → ℤ
recurring_net [] = pos 0
recurring_net (part ∷ parts) = part.per_period_net +ℤ recurring_net parts

net_sum-append : (xs ys : List SplitLine) → net_sum (xs ++ ys) ≡ net_sum xs +ℤ net_sum ys
net_sum-append [] ys = omega int_laws
net_sum-append (x ∷ xs) ys = rw (net_sum-append xs ys) (omega int_laws)

recurring_net-add_recurring :
    (unit : String) (count : ℕ) (line : SplitLine) (parts : List RecurringPart)
    → recurring_net (add_recurring unit count line parts) ≡ recurring_net parts +ℤ kept line
unfolding add_recurring
recurring_net-add_recurring unit count line [] = omega int_laws
recurring_net-add_recurring unit count line (part ∷ parts) =
    elim (Bool-cases (str_eq part.unit unit && part.count == count)) [
      | inl same ↦ rw same (omega int_laws)
      | inr other ↦ rw (other, recurring_net-add_recurring unit count line parts) (omega int_laws)
    ]

-- What has been split.
abbrev split_net : Split → ℤ
split_net s = net_sum s.one_time +ℤ recurring_net s.recurring

split_net-split_line :
    (line : SplitLine) (interval : Option (String × ℕ)) (s : Split)
    → split_net (split_line line interval s) ≡ split_net s +ℤ kept line
split_net-split_line line (some (unit, count)) s =
    rw (recurring_net-add_recurring unit count line s.recurring) (omega int_laws)
split_net-split_line line none s = rw (net_sum-append s.one_time (line ∷ [])) (omega int_laws)

split_net-split_lines :
    (lines : List SplitLine) (s : Split)
    → split_net (split_lines lines s) ≡ split_net s +ℤ net_sum lines
unfolding split_lines
split_net-split_lines [] s = omega int_laws
split_net-split_lines (line ∷ lines) s =
    split_net-split_lines lines _
    ∙ rw
        (split_net-split_line line
          (interval_of line.billing_type line.interval_unit line.interval_count) s)
        (omega int_laws)

-- A recurring part says what its lines come to.
abbrev pub IsPart : RecurringPart → Type 0
IsPart part = part.per_period_net ≡ net_sum part.lines

abbrev pub AllParts : List RecurringPart → Type 0
AllParts [] = Unit
AllParts (part ∷ parts) = IsPart part × AllParts parts

add_recurring-AllParts :
    (unit : String) (count : ℕ) (line : SplitLine) (parts : List RecurringPart)
    → AllParts parts
    → AllParts (add_recurring unit count line parts)
unfolding add_recurring
add_recurring-AllParts unit count line [] h = (omega int_laws, tt)
add_recurring-AllParts unit count line (part ∷ parts) h =
    elim (Bool-cases (str_eq part.unit unit && part.count == count)) [
      | inl same ↦ rw same ((rw (h.0, net_sum-append part.lines (line ∷ [])) (omega int_laws)), h.1)
      | inr other ↦ rw other (h.0, add_recurring-AllParts unit count line parts h.1)
    ]

split_line-AllParts :
    (line : SplitLine) (interval : Option (String × ℕ)) (s : Split)
    → AllParts s.recurring
    → AllParts (split_line line interval s).recurring
split_line-AllParts line (some (unit, count)) s h =
    add_recurring-AllParts unit count line s.recurring h
split_line-AllParts line none s h = h

split_lines-AllParts :
    (lines : List SplitLine) (s : Split)
    → AllParts s.recurring
    → AllParts (split_lines lines s).recurring
unfolding split_lines
split_lines-AllParts [] s h = h
split_lines-AllParts (line ∷ lines) s h =
    split_lines-AllParts lines _ (split_line-AllParts line _ s h)

-- Nothing is lost and nothing counted twice in a split: the one-time net and the per-period nets
-- of the recurring parts come to what all the lines come to after their discounts, and each
-- recurring part's net is the sum over its own lines.
pub quote_split_conserves :
    (lines : List SplitLine)
    → ((quote_split lines).one_time_net +ℤ recurring_net (quote_split lines).recurring
        ≡ net_sum lines)
      × AllParts (quote_split lines).recurring
unfolding quote_split
quote_split_conserves lines =
    let start : Split = record { one_time = []; recurring = [] } in
    (split_net-split_lines lines start ∙ omega int_laws, split_lines-AllParts lines start tt)
