-- ===== src/Pricing/Document.antt =====
-- packages/core/src/tax/calculate.ts, from the document discount to the totals, and `calculate`.
use workloom.Base.{
  ◌≡◌, ok_inj, arith, ℕ, suc, Bool, true, false, not, ◌&&◌, if◌then◌else◌, str_eq, String, Option,
  none, some, List, [], ◌∷◌, ◌++◌, map, get_elem?, get_or, set, Result, ok, err, ◌>>=◌, ◌>>◌,
  throw_if, Error, calculation_error, invalid_amount, discount_without_subtotal,
  discount_exceeds_subtotal, tax_rate_conflict, on_tax_rate, on_discount,
}
use workloom.Base.Int.{
  ◌≤ℤ◌, negsuc, ℤ, pos, negsuc, ◌+ℤ◌, ◌-ℤ◌, ◌*ℤ◌, ltb_ℤ, leb_ℤ, eqb_ℤ, is_negative, is_zero, sum_ℤ,
}
use workloom.Money.{decimal_scale, hundred_percent, round_div, parse_percent}
use workloom.Money.Decimal.{format_decimal}
use workloom.Money.Apportion.{apportion, allocate}
use workloom.Pricing.{
  TaxMode, exclusive, inclusive, LineTax, DocumentDiscount, by_percent, by_amount, TaxTotal,
  safe_integer, recast, to_safe, Priced,
}

abbrev pub is_inclusive : TaxMode → Bool
is_inclusive exclusive = false
is_inclusive inclusive = true

-- 3. What the discount comes to, before it is held against the subtotal.
abbrev pub stated_amount : Option ℤ → Result ℤ
stated_amount none = err (calculation_error invalid_amount (some on_discount) none)
stated_amount (some z) =
    if is_negative z then err (calculation_error invalid_amount (some on_discount) none) else ok z

pub stated_amount_nonneg : (n : Option ℤ) (z : ℤ) → stated_amount n ≡ ok z → pos 0 ≤ℤ z
stated_amount_nonneg none z h = absurd (cc)
stated_amount_nonneg (some (pos a)) z h = rw (← ok_inj h) (omega arith)
stated_amount_nonneg (some (negsuc a)) z h = absurd (cc)

unfoldable pub stated_discount : DocumentDiscount → ℤ → Result ℤ
stated_discount (by_percent p) subtotal = do
  rate ← recast (some on_discount) none (parse_percent p)
  round_div (subtotal *ℤ rate) (pos hundred_percent)
stated_discount (by_amount n) subtotal = stated_amount (safe_integer n)

unfoldable pub document_discount : Option DocumentDiscount → ℤ → Result ℤ
document_discount none subtotal = ok (pos 0)
document_discount (some d) subtotal = do
  discount ← stated_discount d subtotal
  throw_if (not (is_zero discount) && leb_ℤ subtotal (pos 0))
      (calculation_error discount_without_subtotal (some on_discount) none)
  throw_if (ltb_ℤ subtotal discount)
      (calculation_error discount_exceeds_subtotal (some on_discount) none)
  ok discount

abbrev pub nets : List Priced → List ℤ
nets = map (λ p. p.net)

-- `l.net > 0n ? l.net : 0n`.
abbrev pub at_least_zero : ℤ → ℤ
at_least_zero (pos n) = pos n
at_least_zero (negsuc n) = pos 0

-- The lines' shares of the document discount.
unfoldable pub discount_shares : ℤ → List Priced → Result (List ℤ)
discount_shares discount priced =
    if is_zero discount
    then ok (map (λ _. pos 0) priced)
    else allocate discount (map at_least_zero (nets priced))

-- Element by element; the lists are of one length.
abbrev pub minus_each : List ℤ → List ℤ → List ℤ
minus_each (x ∷ xs) (y ∷ ys) = (x -ℤ y) ∷ minus_each xs ys
minus_each xs ys = []

-- 4–5. A tax and the lines that it applies to, in the order of the Map.
pub record Group : Type 0 where
  pub key : String
  pub members : List ℕ

-- `priced[members[0]!]!.taxRate`. Groups are never empty, and their members carry a tax.
abbrev pub rate_at : Option Priced → Option ℤ
rate_at none = none
rate_at (some p) = p.tax_rate

unfoldable pub group_rate : List Priced → List ℕ → Option ℤ
group_rate priced [] = none
group_rate priced (i ∷ members) = rate_at (get_elem? priced i)

abbrev pub same_rate : Option ℤ → Option ℤ → Bool
same_rate none none = true
same_rate (some a) (some b) = eqb_ℤ a b
same_rate a b = false

abbrev pub conflict : ℕ → Error
conflict i = calculation_error tax_rate_conflict (some on_tax_rate) (some i)

-- Line `i`, with tax `key` at `rate`, joins the group of its key, or makes one.
unfoldable pub join : List Priced → ℕ → String → Option ℤ → List Group → Result (List Group)
join priced i key rate [] = ok (record { key = key; members = i ∷ [] } ∷ [])
join priced i key rate (g ∷ gs) =
    if str_eq g.key key
    then (do
      throw_if (not (same_rate (group_rate priced g.members) rate)) (conflict i)
      ok (record g { members = g.members ++ i ∷ [] } ∷ gs))
    else (join priced i key rate gs >>= λ rest. ok (g ∷ rest))

unfoldable pub join_line :
    List Priced → ℕ → Priced → Option LineTax → List Group → Result (List Group)
join_line priced i l none groups = ok groups
join_line priced i l (some t) groups = join priced i t.key l.tax_rate groups

unfoldable pub group_lines : List Priced → ℕ → List Priced → List Group → Result (List Group)
unfolding join_line
group_lines priced i [] groups = ok groups
group_lines priced i (l ∷ ls) groups =
    join_line priced i l l.tax groups >>= λ groups'. group_lines priced (suc i) ls groups'

-- `forEach((part, j) => (lineTax[members[j]!] = part))`.
unfoldable pub scatter : List ℕ → List ℤ → List ℤ → List ℤ
scatter (i ∷ is) (part ∷ parts) line_tax = scatter is parts (set line_tax i part)
scatter is parts line_tax = line_tax

abbrev pub rate_or_zero : Option ℤ → ℤ
rate_or_zero none = pos 0
rate_or_zero (some r) = r

-- The variables of the loop over the groups.
pub record TaxState : Type 0 where
  pub line_tax : List ℤ
  pub taxes : List TaxTotal
  pub tax_total : ℤ

abbrev pub taxable_of : List ℤ → List ℕ → List ℤ
taxable_of taxable members = map (λ i. get_or taxable i (pos 0)) members

-- One round of that loop.
unfoldable pub tax_group : Bool → List Priced → List ℤ → Group → TaxState → Result TaxState
tax_group incl priced taxable g s = do
  let rate = rate_or_zero (group_rate priced g.members)
  let denominator = if incl then pos hundred_percent +ℤ rate else pos hundred_percent
  let exact = map (λ x. x *ℤ rate) (taxable_of taxable g.members)
  let amount = sum_ℤ (taxable_of taxable g.members)
  tax ← round_div (amount *ℤ rate) denominator
  parts ← apportion tax exact denominator
  safe_amount ← to_safe amount
  safe_tax ← to_safe tax
  let entry : TaxTotal = record {
    key = g.key;
    rate = format_decimal rate decimal_scale;
    amount = safe_amount;
    tax = safe_tax;
  }
  ok (record {
    line_tax = scatter g.members parts s.line_tax;
    taxes = s.taxes ++ entry ∷ [];
    tax_total = s.tax_total +ℤ tax;
  })

unfoldable pub tax_groups : Bool → List Priced → List ℤ → List Group → TaxState → Result TaxState
tax_groups incl priced taxable [] s = ok s
tax_groups incl priced taxable (g ∷ gs) s =
    tax_group incl priced taxable g s >>= λ s'. tax_groups incl priced taxable gs s'
