-- ===== src/Pricing/Correct.antt =====
-- `calculate` as a whole: what it returns adds up.
use mathlib.Core.Path.{ap₂}
use native.Mathlib.Nat.{zero-add}
use workloom.Base.{
  ℕ, zero, suc, ◌≡◌, refl, ap, sym, ◌∙◌, Bool, true, false, not, if◌then◌else◌, List, [], ◌∷◌, map,
  length, length-map, get_or, arith, ok, ok_inj, on_ok, on_guard, inl, inr,
}
use workloom.Base.Int.{ℤ, pos, ◌+ℤ◌, ◌-ℤ◌, sum_ℤ, int_laws}
use workloom.Pricing.{CalculationInput, CalculatedLine, Calculation, Priced, to_safe, price_lines}
use workloom.Pricing.Document.{
  is_inclusive, document_discount, discount_shares, minus_each, nets, Group, group_lines, TaxState,
  tax_groups,
}
use workloom.Pricing.Calculate.{finish_lines, finish, no_tax, calculate}
use workloom.Pricing.Grouping.{IsGrouping, group_lines-IsGrouping}
use workloom.Pricing.Taxes.{IsPending, tax_groups-IsPending, to_safe-eq}
use workloom.Pricing.Discounts.{
  IsDiscount, document_discount-IsDiscount, discount_shares-IsShared, sum-zeros,
}
use workloom.Pricing.Totals.{
  with_tax, LineSums, finish_lines-LineSums, length-minus_each, sum-minus_each, AddsUp,
}
use workloom.Money.Currency.{is_currency_code}

total_regroups :
    (incl : Bool) (a b t : ℤ) → with_tax incl (a -ℤ b) t ≡ (a -ℤ b) +ℤ (if incl then pos 0 else t)
total_regroups true a b t = omega int_laws
total_regroups false a b t = refl

module _ (incl : Bool) (discount : ℤ) (priced : List Priced) (shares : List ℤ) (s : TaxState)
    (shares_match : length shares ≡ length priced) (shares_sum : sum_ℤ shares ≡ discount)
    (settled : IsPending (length priced) [] s) where
  abbrev taxable : List ℤ
  taxable = minus_each (nets priced) shares

  nets_match : length (nets priced) ≡ length shares
  nets_match = length-map priced (λ p. p.net) ∙ sym shares_match

  line_sums :
      (ls : List CalculatedLine)
      → finish_lines incl priced shares taxable s.line_tax ≡ ok ls
      → LineSums incl
          (sum_ℤ (nets priced))
          (sum_ℤ shares)
          (sum_ℤ taxable)
          (sum_ℤ s.line_tax)
          (length priced)
          ls
  line_sums ls h =
      finish_lines-LineSums incl priced shares taxable s.line_tax ls h shares_match
        (length-minus_each (nets priced) shares nets_match ∙ length-map priced (λ p. p.net))
        settled.size

  finish-AddsUp :
      (r : Calculation)
      → finish incl (sum_ℤ (nets priced)) discount priced shares taxable s ≡ ok r
      → AddsUp incl r
  unfolding finish
  finish-AddsUp r h = on_ok (finish_lines incl priced shares taxable s.line_tax) _ h λ ls e h₁.
      on_ok (to_safe (sum_ℤ (nets priced))) _ h₁ λ a e₁ h₂. on_ok (to_safe discount) _ h₂ λ b e₂ h₃.
        on_ok (to_safe s.tax_total) _ h₃ λ t e₃ h₄. on_ok (to_safe _) _ h₄ λ z e₄ h₅.
          let v = line_sums ls e in
          rw
            (
              ← ok_inj h₅,
              to_safe-eq _ a e₁,
              to_safe-eq _ b e₂,
              to_safe-eq _ t e₃,
              to_safe-eq _ z e₄,
            )
            (record {
              subtotal_is = v.nets_sum;
              discount_is = v.shares_sum ∙ shares_sum;
              tax_is = v.tax_sum ∙ settled.lines_sum;
              taxes_are = settled.taxes_sum;
              total_is =
                  v.total_sum
                  ∙ ap₂ (with_tax incl)
                      (sum-minus_each (nets priced) shares nets_match
                        ∙ ap (λ d. sum_ℤ (nets priced) -ℤ d) shares_sum)
                      settled.lines_sum
                  ∙ total_regroups incl (sum_ℤ (nets priced)) discount s.tax_total;
              total_from_parts =
                  sym (total_regroups incl (sum_ℤ (nets priced)) discount s.tax_total);
            })

no_groups : IsGrouping 0 []
no_groups = record { once = λ j. omega arith; in_range = λ j k. absurd (omega arith) }

get_or-zeros : (ps : List Priced) (j : ℕ) → get_or (map (λ _. pos 0) ps) j (pos 0) ≡ pos 0
get_or-zeros [] j = refl
get_or-zeros (p ∷ ps) zero = refl
get_or-zeros (p ∷ ps) (suc j) = get_or-zeros ps j

-- The loop over the taxes starts with no tax on any line.
start-IsPending :
    (priced : List Priced) (gs : List Group)
    → IsGrouping (length priced) gs
    → IsPending (length priced) gs (no_tax priced)
start-IsPending priced gs v = record {
  size = length-map priced (λ _. pos 0);
  once = v.once;
  in_range = v.in_range;
  unset = λ j k. get_or-zeros priced j;
  lines_sum = sum-zeros priced;
  taxes_sum = refl;
}

-- With no lines there is nothing to discount.
pub no_lines_no_discount :
    (priced : List Priced) (discount : ℤ)
    → IsDiscount (sum_ℤ (nets priced)) discount
    → priced ≡ []
    → discount ≡ pos 0
no_lines_no_discount priced discount (inl e) none_left = e
no_lines_no_discount [] discount (inr v) none_left = absurd (omega (arith, v.0))
no_lines_no_discount (p ∷ ps) discount (inr v) none_left = absurd (cc)

-- Where `calculate` returns a result, that result adds up: over its lines, the nets come to the
-- subtotal, the discount shares to the document discount, the taxes to the tax and the totals to
-- the total; the taxes listed come to the tax as well; and the total is the subtotal less the
-- discount, with the tax added in an exclusive document and not in an inclusive one.
pub calculate-AddsUp :
    (input : CalculationInput) (r : Calculation)
    → calculate input ≡ ok r
    → AddsUp (is_inclusive input.tax_mode) r
unfolding calculate
calculate-AddsUp input r h = on_guard (not (is_currency_code input.currency)) _ _ h λ known h₁.
    on_ok (price_lines 0 input.lines) _ h₁ λ priced e₁ h₂.
      on_ok (document_discount input.discount (sum_ℤ (nets priced))) _ h₂ λ discount e₂ h₃.
        on_ok (discount_shares discount priced) _ h₃ λ shares e₃ h₄.
          on_ok (group_lines priced 0 priced []) _ h₄ λ gs e₄ h₅.
            on_ok (tax_groups _ priced _ gs (no_tax priced)) _ h₅ λ s e₅ h₆.
              let v = discount_shares-IsShared discount priced (
                no_lines_no_discount priced discount
                  (document_discount-IsDiscount input.discount _ discount e₂)) in
              let same : v.shares ≡ shares = ok_inj (sym v.returned ∙ e₃) in
              finish-AddsUp (is_inclusive input.tax_mode) discount priced shares s
                (rw (← same) v.matches) (rw (← same) v.sums)
                (tax_groups-IsPending _ priced _ (length priced) gs (no_tax priced) s e₅ (
                  start-IsPending priced gs (
                    rw (← zero-add (length priced))
                      (group_lines-IsGrouping priced 0 priced [] gs e₄ no_groups))))
                r h₆
