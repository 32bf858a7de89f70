-- ===== src/Pricing/Rates.antt =====
-- The tax rates of the lines, and why every tax can be split over its lines.
use workloom.Base.{
  ℕ, zero, suc, ◌+◌, ◌<◌, ◌≡◌, refl, sym, ◌∙◌, Bool, true, false, if◌then◌else◌, Option, none, some,
  List, [], ◌∷◌, map, get_elem?, arith, ok, ok_inj, on_ok, on_quantity, on_tax_rate,
}
use workloom.Base.Int.{ℤ, pos, negsuc, ◌+ℤ◌, ◌*ℤ◌, ◌≤ℤ◌, sum_ℤ, sum_ℤ-map-*ℤ, int_laws}
use workloom.Money.{hundred_percent, scale_factor, round_div, round_pos, parse_percent}
use workloom.Money.Round.{IsRounded, round_pos-IsRounded}
use workloom.Money.Percent.{parse_percent_range}
use workloom.Money.Apportion.{apportion}
use workloom.Money.Apportion.Success.{apportion-IsRounded}
use workloom.Pricing.{
  Priced, LineTax, CalculationLine, recast_ok, at_line, parse_quantity, number_or, safe_integer,
  discount_rate, tax_rate_of, price_line, price_lines,
}
use workloom.Pricing.Document.{rate_at, rate_or_zero, group_rate}
use workloom.Pricing.NoRange.{NoRange, ok-NoRange, round_div-pos}

-- No rate among the lines is negative.
pub RatesOk : List Priced → Type 0
RatesOk ps = (i : ℕ) → pos 0 ≤ℤ rate_or_zero (rate_at (get_elem? ps i))

tax_rate_of_nonneg :
    (i : ℕ) (t : Option LineTax) (r : Option ℤ) → tax_rate_of i t ≡ ok r → pos 0 ≤ℤ rate_or_zero r
unfolding tax_rate_of
tax_rate_of_nonneg i none r h = rw (← ok_inj h) (omega arith)
tax_rate_of_nonneg i (some t) r h =
    on_ok (parse_percent t.rate) _
      (recast_ok (some on_tax_rate) (some i) (parse_percent t.rate) _ h)
      λ p e h'. rw (← ok_inj h') (parse_percent_range t.rate p e).0

price_line_rate :
    (i : ℕ) (l : CalculationLine) (p : Priced)
    → price_line i l ≡ ok p
    → pos 0 ≤ℤ rate_or_zero p.tax_rate
unfolding price_line
price_line_rate i l p h = on_ok (number_or (safe_integer l.unit_amount) i) _ h λ unit e₁ h₁.
    on_ok (at_line i on_quantity (parse_quantity l.quantity)) _ h₁ λ q e₂ h₂.
      on_ok (round_div (unit *ℤ q) (pos scale_factor)) _ h₂ λ amount e₃ h₃.
        on_ok (discount_rate i l.discount_percent) _ h₃ λ rate e₄ h₄.
          on_ok (round_div (amount *ℤ rate) (pos hundred_percent)) _ h₄ λ d e₅ h₅.
            on_ok (tax_rate_of i l.tax) _ h₅
              λ r e h₆. rw (← ok_inj h₆) (tax_rate_of_nonneg i l.tax r e)

pub price_lines-RatesOk :
    (i : ℕ) (ls : List CalculationLine) (ps : List Priced) → price_lines i ls ≡ ok ps → RatesOk ps
unfolding price_lines RatesOk
price_lines-RatesOk i [] ps h = rw (← ok_inj h) (λ j. omega arith)
price_lines-RatesOk i (l ∷ ls) ps h = on_ok (price_line i l) _ h λ p e h₁.
    on_ok (price_lines (suc i) ls) _ h₁ λ rest e' h₂.
      rw (← ok_inj h₂)
        (both p rest (price_line_rate i l p e) (price_lines-RatesOk (suc i) ls rest e'))
  where
    both :
        (p : Priced) (rest : List Priced)
        → pos 0 ≤ℤ rate_or_zero p.tax_rate
        → RatesOk rest
        → RatesOk (p ∷ rest)
    both p rest v w zero = v
    both p rest v w (suc j) = w j

pub group_rate_nonneg :
    (ps : List Priced) (ms : List ℕ) → RatesOk ps → pos 0 ≤ℤ rate_or_zero (group_rate ps ms)
unfolding group_rate RatesOk
group_rate_nonneg ps [] v = omega arith
group_rate_nonneg ps (i ∷ ms) v = v i

-- A tax at a rate that is not negative is rounded and split, whatever the amounts are.
pub tax_splits :
    (rate : ℤ) (d : ℕ) (amounts : List ℤ)
    → 0 < d
    → (tax : ℤ) → round_div (sum_ℤ amounts *ℤ rate) (pos d) ≡ ok tax
    → NoRange (apportion tax (map (λ x. x *ℤ rate) amounts) (pos d))
tax_splits rate d amounts h tax e =
    let same : round_pos (sum_ℤ amounts *ℤ rate) d ≡ tax = ok_inj (sym (round_div-pos _ d h) ∙ e) in
    let rounded : IsRounded (sum_ℤ (map (λ x. x *ℤ rate) amounts)) d tax =
      rw (sum_ℤ-map-*ℤ rate amounts, ← same) (round_pos-IsRounded (sum_ℤ amounts *ℤ rate) d h) in
    rw (apportion-IsRounded tax (map (λ x. x *ℤ rate) amounts) d h rounded).1 (ok-NoRange _)

-- The denominator of a tax is positive.
pub denominator_pos :
    (incl : Bool) (rate : ℤ)
    → pos 0 ≤ℤ rate
    → (d : ℕ) × (0 < d)
      × ((if incl then pos hundred_percent +ℤ rate else pos hundred_percent) ≡ pos d)
denominator_pos true (pos r) h = (hundred_percent + r, omega arith, omega int_laws)
denominator_pos true (negsuc r) h = absurd (omega arith)
denominator_pos false rate h = (hundred_percent, omega arith, refl)
