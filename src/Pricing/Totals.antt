-- ===== src/Pricing/Totals.antt =====
-- What a successful `calculate` returns: lines that add up to the document.
use workloom.Base.{
  ℕ, suc, ◌≡◌, refl, ap, Bool, true, false, if◌then◌else◌, List, [], ◌∷◌, map, length, arith, ok,
  ok_inj, on_ok,
}
use workloom.Base.Int.{ℤ, pos, ◌+ℤ◌, ◌-ℤ◌, sum_ℤ, int_laws}
use workloom.Pricing.{CalculatedLine, Calculation, Priced, to_safe}
use workloom.Pricing.Document.{minus_each, nets}
use workloom.Pricing.Calculate.{finish_line, finish_lines}
use workloom.Pricing.Taxes.{to_safe-eq}

-- One line of the result, against the values that it was made of.
pub record IsLine (incl : Bool) (p : Priced) (share taxable tax : ℤ) (l : CalculatedLine)
    : Type 0 where
  pub amount_is : l.amount ≡ p.amount
  pub line_discount_is : l.line_discount ≡ p.line_discount
  pub net_is : l.net ≡ p.net
  pub share_is : l.document_discount ≡ share
  pub taxable_is : l.taxable ≡ taxable
  pub tax_is : l.tax ≡ tax
  pub total_is : l.total ≡ (if incl then taxable else taxable +ℤ tax)

finish_line-IsLine :
    (incl : Bool) (p : Priced) (share taxable tax : ℤ) (l : CalculatedLine)
    → finish_line incl p share taxable tax ≡ ok l
    → IsLine incl p share taxable tax l
unfolding finish_line
finish_line-IsLine incl p share taxable tax l h = on_ok (to_safe p.amount) _ h λ a₁ e₁ h₁.
    on_ok (to_safe p.line_discount) _ h₁ λ a₂ e₂ h₂. on_ok (to_safe p.net) _ h₂ λ a₃ e₃ h₃.
      on_ok (to_safe share) _ h₃ λ a₄ e₄ h₄. on_ok (to_safe taxable) _ h₄ λ a₅ e₅ h₅.
        on_ok (to_safe tax) _ h₅ λ a₆ e₆ h₆.
          on_ok (to_safe (if incl then taxable else taxable +ℤ tax)) _ h₆ λ a₇ e₇ h₇.
            rw (← ok_inj h₇) (record {
              amount_is = to_safe-eq _ a₁ e₁;
              line_discount_is = to_safe-eq _ a₂ e₂;
              net_is = to_safe-eq _ a₃ e₃;
              share_is = to_safe-eq _ a₄ e₄;
              taxable_is = to_safe-eq _ a₅ e₅;
              tax_is = to_safe-eq _ a₆ e₆;
              total_is = to_safe-eq _ a₇ e₇;
            })

abbrev pub sum_by : (CalculatedLine → ℤ) → List CalculatedLine → ℤ
sum_by field ls = sum_ℤ (map field ls)

-- A sum over the lines of a document, tax included or added.
abbrev pub with_tax : Bool → ℤ → ℤ → ℤ
with_tax incl taxable tax = if incl then taxable else taxable +ℤ tax

-- Sums over the lines of the result.
pub record LineSums (incl : Bool) (nets' shares taxable tax : ℤ) (n : ℕ) (ls : List CalculatedLine)
    : Type 0 where
  pub count_is : length ls ≡ n
  pub nets_sum : sum_by (λ l. l.net) ls ≡ nets'
  pub shares_sum : sum_by (λ l. l.document_discount) ls ≡ shares
  pub taxable_sum : sum_by (λ l. l.taxable) ls ≡ taxable
  pub tax_sum : sum_by (λ l. l.tax) ls ≡ tax
  pub total_sum : sum_by (λ l. l.total) ls ≡ with_tax incl taxable tax

with_tax-add :
    (incl : Bool) (a b c d : ℤ)
    → with_tax incl a b +ℤ with_tax incl c d ≡ with_tax incl (a +ℤ c) (b +ℤ d)
with_tax-add true a b c d = refl
with_tax-add false a b c d = omega int_laws

with_tax-zero : (incl : Bool) → pos 0 ≡ with_tax incl (pos 0) (pos 0)
with_tax-zero true = refl
with_tax-zero false = omega int_laws

LineSums-cons :
    (incl : Bool) (p : Priced) (s x t : ℤ) (l : CalculatedLine) (ls : List CalculatedLine)
    (a b c d : ℤ) (n : ℕ)
    → IsLine incl p s x t l
    → LineSums incl a b c d n ls
    → LineSums incl (p.net +ℤ a) (s +ℤ b) (x +ℤ c) (t +ℤ d) (suc n) (l ∷ ls)
LineSums-cons incl p s x t l ls a b c d n v r = record {
  count_is = ap suc r.count_is;
  nets_sum = rw (v.net_is, r.nets_sum);
  shares_sum = rw (v.share_is, r.shares_sum);
  taxable_sum = rw (v.taxable_is, r.taxable_sum);
  tax_sum = rw (v.tax_is, r.tax_sum);
  total_sum = rw (v.total_is, r.total_sum, with_tax-add incl x t c d);
}

pub finish_lines-LineSums :
    (incl : Bool) (ps : List Priced) (ss xs ts : List ℤ) (ls : List CalculatedLine)
    → finish_lines incl ps ss xs ts ≡ ok ls
    → length ss ≡ length ps
    → length xs ≡ length ps
    → length ts ≡ length ps
    → LineSums incl (sum_ℤ (nets ps)) (sum_ℤ ss) (sum_ℤ xs) (sum_ℤ ts) (length ps) ls
unfolding finish_lines
finish_lines-LineSums incl [] [] [] [] ls h e₁ e₂ e₃ = rw (← ok_inj h) (record {
  count_is = refl;
  nets_sum = refl;
  shares_sum = refl;
  taxable_sum = refl;
  tax_sum = refl;
  total_sum = with_tax-zero incl;
})
finish_lines-LineSums incl (p ∷ ps) (s ∷ ss) (x ∷ xs) (t ∷ ts) ls h e₁ e₂ e₃ =
    on_ok (finish_line incl p s x t) _ h λ l e h₁.
      on_ok (finish_lines incl ps ss xs ts) _ h₁ λ rest e' h₂. rw (← ok_inj h₂) (
        LineSums-cons incl p s x t l rest _ _ _ _ _ (finish_line-IsLine incl p s x t l e) (
          finish_lines-LineSums incl ps ss xs ts rest e' (omega arith) (omega arith) (omega arith)))
finish_lines-LineSums incl _ _ _ _ ls h e₁ e₂ e₃ = absurd (omega arith)

pub length-minus_each :
    (xs ys : List ℤ) → length xs ≡ length ys → length (minus_each xs ys) ≡ length xs
length-minus_each [] [] h = refl
length-minus_each (x ∷ xs) (y ∷ ys) h = ap suc (length-minus_each xs ys (omega arith))
length-minus_each _ _ h = absurd (omega arith)

pub sum-minus_each :
    (xs ys : List ℤ) → length xs ≡ length ys → sum_ℤ (minus_each xs ys) ≡ sum_ℤ xs -ℤ sum_ℤ ys
sum-minus_each [] [] h = omega int_laws
sum-minus_each (x ∷ xs) (y ∷ ys) h = rw (sum-minus_each xs ys (omega arith)) (omega int_laws)
sum-minus_each _ _ h = absurd (omega arith)

-- The result adds up: over its lines the nets come to the subtotal, the shares to the discount,
-- the taxes to the tax, and the totals to the total.
pub record AddsUp (incl : Bool) (r : Calculation) : Type 0 where
  pub subtotal_is : sum_by (λ l. l.net) r.lines ≡ r.subtotal
  pub discount_is : sum_by (λ l. l.document_discount) r.lines ≡ r.discount
  pub tax_is : sum_by (λ l. l.tax) r.lines ≡ r.tax
  pub taxes_are : sum_ℤ (map (λ t. t.tax) r.taxes) ≡ r.tax
  pub total_is : sum_by (λ l. l.total) r.lines ≡ r.total
  pub total_from_parts : r.total ≡ with_tax incl (r.subtotal -ℤ r.discount) r.tax
