-- ===== src/Pricing/Failures.antt =====
-- `calculate` as a whole fails with its own errors only: every tax and every discount is split.
use workloom.Base.{
  ℕ, suc, ◌≢◌, Bool, not, if◌then◌else◌, String, str_eq, Bool-cases, Option, none, some, List, [],
  ◌∷◌, map, arith, err, range_error, inl, inr, calculation_error, invalid_currency, on_currency,
  on_discount,
}
use workloom.Base.Int.{ℤ, pos, ◌+ℤ◌, ◌*ℤ◌, ◌-ℤ◌, sum_ℤ}
use workloom.Money.{hundred_percent, round_div, parse_percent}
use workloom.Money.Apportion.{apportion}
use workloom.Money.Currency.{is_currency_code}
use workloom.Pricing.{
  Priced, LineTax, CalculationInput, DocumentDiscount, by_percent, by_amount, recast, to_safe,
  safe_integer, price_lines,
}
use workloom.Pricing.Document.{
  is_inclusive, nets, minus_each, stated_amount, stated_discount, document_discount,
  discount_shares, rate_or_zero, group_rate, same_rate, conflict, Group, join, join_line,
  group_lines, TaxState, tax_group, tax_groups, taxable_of,
}
use workloom.Pricing.Calculate.{finish_line, finish_lines, finish, no_tax, calculate}
use workloom.Pricing.NoRange.{
  NoRange, bind-NoRange, guard-NoRange, ok-NoRange, recast-NoRange, calculation_ne,
  parse_percent-NoRange, round_div-NoRange, to_safe-NoRange, price_lines-NoRange,
}
use workloom.Pricing.Rates.{
  RatesOk, price_lines-RatesOk, group_rate_nonneg, tax_splits, denominator_pos,
}
use workloom.Pricing.Discounts.{document_discount-IsDiscount, discount_shares-IsShared}
use workloom.Pricing.Correct.{no_lines_no_discount}

stated_amount-NoRange : (n : Option ℤ) → NoRange (stated_amount n)
stated_amount-NoRange none = λ q. cc
stated_amount-NoRange (some z) = λ q. ground arith

stated_discount-NoRange :
    (d : DocumentDiscount) (subtotal : ℤ) → NoRange (stated_discount d subtotal)
unfolding stated_discount
stated_discount-NoRange (by_percent p) subtotal =
    bind-NoRange (recast (some on_discount) none (parse_percent p)) _
      (recast-NoRange _ _ (parse_percent p) (parse_percent-NoRange p))
      λ rate e. round_div-NoRange (subtotal *ℤ rate) hundred_percent (omega arith)
stated_discount-NoRange (by_amount n) subtotal = stated_amount-NoRange (safe_integer n)

document_discount-NoRange :
    (d : Option DocumentDiscount) (subtotal : ℤ) → NoRange (document_discount d subtotal)
unfolding document_discount
document_discount-NoRange none subtotal = ok-NoRange _
document_discount-NoRange (some d) subtotal =
    bind-NoRange (stated_discount d subtotal) _ (stated_discount-NoRange d subtotal)
      λ discount e. λ q. ground arith

join-NoRange :
    (ps : List Priced) (i : ℕ) (key : String) (rate : Option ℤ) (gs : List Group)
    → NoRange (join ps i key rate gs)
unfolding join
join-NoRange ps i key rate [] = ok-NoRange _
join-NoRange ps i key rate (g ∷ gs) = elim (Bool-cases (str_eq g.key key)) [
  | inl same ↦ rw same (
      guard-NoRange (not (same_rate (group_rate ps g.members) rate)) (conflict i) _
        (calculation_ne _ _ _) (λ _. ok-NoRange _))
  | inr other ↦ rw other (
      bind-NoRange (join ps i key rate gs) _ (join-NoRange ps i key rate gs)
        (λ rest e. ok-NoRange _))
]

join_line-NoRange :
    (ps : List Priced) (i : ℕ) (l : Priced) (t : Option LineTax) (gs : List Group)
    → NoRange (join_line ps i l t gs)
unfolding join_line
join_line-NoRange ps i l none gs = ok-NoRange _
join_line-NoRange ps i l (some t) gs = join-NoRange ps i t.key l.tax_rate gs

group_lines-NoRange :
    (ps : List Priced) (i : ℕ) (ls : List Priced) (gs : List Group)
    → NoRange (group_lines ps i ls gs)
unfolding group_lines
group_lines-NoRange ps i [] gs = ok-NoRange _
group_lines-NoRange ps i (l ∷ ls) gs =
    bind-NoRange (join_line ps i l l.tax gs) _ (join_line-NoRange ps i l l.tax gs)
      λ gs' e. group_lines-NoRange ps (suc i) ls gs'

tax_group-NoRange :
    (incl : Bool) (ps : List Priced) (taxable : List ℤ) (g : Group) (s : TaxState)
    → RatesOk ps
    → NoRange (tax_group incl ps taxable g s)
unfolding tax_group
tax_group-NoRange incl ps taxable g s v =
    let rate = rate_or_zero (group_rate ps g.members) in
    let amounts = taxable_of taxable g.members in
    let (d, h, e) = denominator_pos incl rate (group_rate_nonneg ps g.members v) in
    rw e (
      bind-NoRange (round_div (sum_ℤ amounts *ℤ rate) (pos d)) _ (round_div-NoRange _ d h) λ tax e₁.
        bind-NoRange (apportion tax (map (λ x. x *ℤ rate) amounts) (pos d)) _
          (tax_splits rate d amounts h tax e₁)
          λ parts e₂.
            bind-NoRange (to_safe (sum_ℤ amounts)) _ (to_safe-NoRange _)
              λ a e₃. bind-NoRange (to_safe tax) _ (to_safe-NoRange tax) λ t e₄. ok-NoRange _)

tax_groups-NoRange :
    (incl : Bool) (ps : List Priced) (taxable : List ℤ) (gs : List Group) (s : TaxState)
    → RatesOk ps
    → NoRange (tax_groups incl ps taxable gs s)
unfolding tax_groups
tax_groups-NoRange incl ps taxable [] s v = ok-NoRange _
tax_groups-NoRange incl ps taxable (g ∷ gs) s v =
    bind-NoRange (tax_group incl ps taxable g s) _ (tax_group-NoRange incl ps taxable g s v)
      λ s' e. tax_groups-NoRange incl ps taxable gs s' v

finish_line-NoRange :
    (incl : Bool) (p : Priced) (share taxable tax : ℤ)
    → NoRange (finish_line incl p share taxable tax)
unfolding finish_line
finish_line-NoRange incl p share taxable tax =
    bind-NoRange (to_safe p.amount) _ (to_safe-NoRange _) λ _ _.
      bind-NoRange (to_safe p.line_discount) _ (to_safe-NoRange _) λ _ _.
        bind-NoRange (to_safe p.net) _ (to_safe-NoRange _) λ _ _.
          bind-NoRange (to_safe share) _ (to_safe-NoRange _) λ _ _.
            bind-NoRange (to_safe taxable) _ (to_safe-NoRange _) λ _ _.
              bind-NoRange (to_safe tax) _ (to_safe-NoRange _) λ _ _.
                bind-NoRange (to_safe (if incl then taxable else taxable +ℤ tax)) _
                  (to_safe-NoRange _) λ _ _. ok-NoRange _

finish_lines-NoRange :
    (incl : Bool) (ps : List Priced) (ss xs ts : List ℤ) → NoRange (finish_lines incl ps ss xs ts)
unfolding finish_lines
finish_lines-NoRange incl (p ∷ ps) (s ∷ ss) (x ∷ xs) (t ∷ ts) =
    bind-NoRange (finish_line incl p s x t) _ (finish_line-NoRange incl p s x t) λ l e.
      bind-NoRange (finish_lines incl ps ss xs ts) _ (finish_lines-NoRange incl ps ss xs ts)
        λ ls e'. ok-NoRange _
finish_lines-NoRange incl _ _ _ _ = ok-NoRange _

finish-NoRange :
    (incl : Bool) (a b : ℤ) (ps : List Priced) (ss xs : List ℤ) (s : TaxState)
    → NoRange (finish incl a b ps ss xs s)
unfolding finish
finish-NoRange incl a b ps ss xs s =
    bind-NoRange (finish_lines incl ps ss xs s.line_tax) _
      (finish_lines-NoRange incl ps ss xs s.line_tax)
      λ _ _. bind-NoRange (to_safe a) _ (to_safe-NoRange a) λ _ _.
        bind-NoRange (to_safe b) _ (to_safe-NoRange b) λ _ _.
          bind-NoRange (to_safe s.tax_total) _ (to_safe-NoRange _) λ _ _.
            bind-NoRange (to_safe ((a -ℤ b) +ℤ (if incl then pos 0 else s.tax_total))) _
              (to_safe-NoRange _) λ _ _. ok-NoRange _

-- Whatever the input, `calculate` never fails with a RangeError: no division is by zero, every
-- document discount is split over the lines and every tax over the lines that it applies to.
pub calculate-NoRange : (input : CalculationInput) → calculate input ≢ err range_error
unfolding calculate
calculate-NoRange input =
    guard-NoRange (not (is_currency_code input.currency))
      (calculation_error invalid_currency (some on_currency) none) _ (calculation_ne _ _ _)
      λ _. bind-NoRange (price_lines 0 input.lines) _ (price_lines-NoRange 0 input.lines) λ ps e₁.
        bind-NoRange (document_discount input.discount (sum_ℤ (nets ps))) _
          (document_discount-NoRange input.discount _)
          λ discount e₂.
            let shared = discount_shares-IsShared discount ps (
              no_lines_no_discount ps discount
                (document_discount-IsDiscount input.discount _ discount e₂)) in
            bind-NoRange (discount_shares discount ps) _ (rw shared.returned (ok-NoRange _))
              λ shares e₃.
                bind-NoRange (group_lines ps 0 ps []) _ (group_lines-NoRange ps 0 ps []) λ gs e₄.
                  bind-NoRange
                    (tax_groups (is_inclusive input.tax_mode) ps (minus_each (nets ps) shares) gs
                      (no_tax ps))
                    _
                    (tax_groups-NoRange _ ps _ gs (no_tax ps)
                      (price_lines-RatesOk 0 input.lines ps e₁))
                    λ s e₅.
                      finish-NoRange (is_inclusive input.tax_mode) (sum_ℤ (nets ps)) discount ps
                        shares (minus_each (nets ps) shares) s
