-- ===== src/Pricing/NoRange.antt =====
-- `calculate` fails with its own errors only: the RangeErrors of the division and of the splits
-- are never met.
use workloom.Base.{
  ℕ, zero, suc, ◌<◌, ◌≡◌, ◌≢◌, refl, Bool, true, false, Option, none, some, List, [], ◌∷◌, arith,
  Result, ok, err, ◌>>=◌, ◌>>◌, throw_if, Error, Code, Field, on_quantity, on_tax_rate, range_error,
  money_error, calculation_error, err_inj,
}
use workloom.Base.Int.{ℤ, pos, ◌*ℤ◌}
use workloom.Money.{
  hundred_percent, scale_factor, decimal_scale, round_div, round_pos, parse_percent, to_safe_number,
}
use workloom.Money.Decimal.{Text, parse_decimal, match_decimal, trim, some_digits, Groups}
use workloom.Pricing.{
  LineTax, CalculationLine, recast, at_line, to_safe, parse_quantity, number_or, safe_integer,
  discount_rate, tax_rate_of, price_line, price_lines,
}

abbrev pub NoRange {ℓ} : {A : Type ℓ} → Result A → Type ℓ
NoRange r = r ≢ err range_error

module _ {ℓ κ} {A : Type ℓ} {B : Type κ} where
  pub bind-NoRange :
      (m : Result A) (f : A → Result B)
      → NoRange m
      → ((a : A) → m ≡ ok a → NoRange (f a))
      → NoRange (m >>= f)
  bind-NoRange (ok a) f h k = k a refl
  bind-NoRange (err e) f h k = λ q. h (cc)

pub guard-NoRange {ℓ} :
    {B : Type ℓ} (c : Bool) (e : Error) (k : Result B)
    → e ≢ range_error
    → (c ≡ false → NoRange k)
    → NoRange (throw_if c e >> k)
guard-NoRange true e k h f = λ q. h (err_inj q)
guard-NoRange false e k h f = f refl

pub ok-NoRange {ℓ} : {A : Type ℓ} (a : A) → NoRange (ok a)
ok-NoRange a = λ q. cc

pub recast-NoRange {ℓ} :
    {A : Type ℓ} (field : Option Field) (line : Option ℕ) (r : Result A)
    → NoRange r
    → NoRange (recast field line r)
recast-NoRange field line (ok a) h = λ q. cc
recast-NoRange field line (err (money_error c)) h = λ q. cc
recast-NoRange field line (err e) h = h

money_ne : (c : Code) → money_error c ≢ range_error
money_ne c = λ q. cc

pub calculation_ne :
    (c : Code) (f : Option Field) (l : Option ℕ) → calculation_error c f l ≢ range_error
calculation_ne c f l = λ q. cc

some_digits-NoRange : (g : Option Groups) → NoRange (some_digits g)
some_digits-NoRange g = λ q. ground arith

parse_decimal-NoRange :
    (t : Text) (scale : ℕ) (digits : Option ℕ) → NoRange (parse_decimal t scale digits)
unfolding parse_decimal
parse_decimal-NoRange t scale digits =
    bind-NoRange (some_digits (match_decimal (trim t))) _ (some_digits-NoRange _)
      λ g e. λ q. ground arith

pub parse_percent-NoRange : (t : Text) → NoRange (parse_percent t)
unfolding parse_percent
parse_percent-NoRange t =
    bind-NoRange (parse_decimal t decimal_scale none) _ (parse_decimal-NoRange t decimal_scale none)
      λ p e. λ q. ground arith

parse_quantity-NoRange : (t : Text) → NoRange (parse_quantity t)
unfolding parse_quantity
parse_quantity-NoRange t =
    bind-NoRange (parse_decimal t decimal_scale (some 10)) _
      (parse_decimal-NoRange t decimal_scale (some 10)) λ p e. λ q. ground arith

-- A division by a positive denominator returns the rounded quotient.
pub round_div-pos : (n : ℤ) (d : ℕ) → 0 < d → round_div n (pos d) ≡ ok (round_pos n d)
unfolding round_div
round_div-pos n zero h = absurd (omega arith)
round_div-pos n (suc d) h = refl

pub round_div-NoRange : (n : ℤ) (d : ℕ) → 0 < d → NoRange (round_div n (pos d))
round_div-NoRange n d h = rw (round_div-pos n d h) (ok-NoRange _)

pub to_safe-NoRange : (v : ℤ) → NoRange (to_safe v)
unfolding to_safe to_safe_number
to_safe-NoRange v = λ q. ground arith

number_or-NoRange : (n : Option ℤ) (i : ℕ) → NoRange (number_or n i)
number_or-NoRange none i = λ q. cc
number_or-NoRange (some z) i = λ q. cc

discount_rate-NoRange : (i : ℕ) (t : Option Text) → NoRange (discount_rate i t)
unfolding discount_rate
discount_rate-NoRange i none = ok-NoRange _
discount_rate-NoRange i (some []) = ok-NoRange _
discount_rate-NoRange i (some (c ∷ cs)) =
    recast-NoRange _ _ (parse_percent (c ∷ cs)) (parse_percent-NoRange (c ∷ cs))

tax_rate_of-NoRange : (i : ℕ) (t : Option LineTax) → NoRange (tax_rate_of i t)
unfolding tax_rate_of
tax_rate_of-NoRange i none = ok-NoRange _
tax_rate_of-NoRange i (some t) =
    bind-NoRange (at_line i on_tax_rate (parse_percent t.rate)) _
      (recast-NoRange _ _ (parse_percent t.rate) (parse_percent-NoRange t.rate)) λ r e. ok-NoRange _

price_line-NoRange : (i : ℕ) (l : CalculationLine) → NoRange (price_line i l)
unfolding price_line
price_line-NoRange i l =
    bind-NoRange (number_or (safe_integer l.unit_amount) i) _ (number_or-NoRange _ i) λ unit e₁.
      bind-NoRange (at_line i on_quantity (parse_quantity l.quantity)) _
        (recast-NoRange _ _ (parse_quantity l.quantity) (parse_quantity-NoRange l.quantity))
        λ q e₂.
          bind-NoRange (round_div (unit *ℤ q) (pos scale_factor)) _
            (round_div-NoRange _ scale_factor (omega arith))
            λ amount e₃.
              bind-NoRange (discount_rate i l.discount_percent) _ (discount_rate-NoRange i _)
                λ rate e₄.
                  bind-NoRange (round_div (amount *ℤ rate) (pos hundred_percent)) _
                    (round_div-NoRange _ hundred_percent (omega arith))
                    λ d e₅.
                      bind-NoRange (tax_rate_of i l.tax) _ (tax_rate_of-NoRange i l.tax)
                        λ r e₆. ok-NoRange _

pub price_lines-NoRange : (i : ℕ) (ls : List CalculationLine) → NoRange (price_lines i ls)
unfolding price_lines
price_lines-NoRange i [] = ok-NoRange _
price_lines-NoRange i (l ∷ ls) = bind-NoRange (price_line i l) _ (price_line-NoRange i l) λ p e.
    bind-NoRange (price_lines (suc i) ls) _ (price_lines-NoRange (suc i) ls) λ ps e'. ok-NoRange _
