-- ===== src/Money/Percent.antt =====
-- Percentages: what `parsePercent` accepts, and what a percentage of an amount can be.
use workloom.Base.{
  ℕ, ◌*◌, ◌≤◌, ◌≡◌, false, ◌||◌, none, ok, throw_if-eq-ok, ok_inj, on_ok, money_error,
  percent_out_of_range, arith,
}
use workloom.Base.Int.{ℤ, pos, negsuc, ◌*ℤ◌, *ℤ-pos, ◌≤ℤ◌, ltb_ℤ, is_negative, int_laws}
use workloom.Money.{
  decimal_scale, hundred_percent, round_div, round_pos, parse_percent, percentage,
  multiply_by_rational,
}
use workloom.Money.Decimal.{Text, parse_decimal}
use workloom.Money.Round.{round_pos-IsRounded}

in_percent_range :
    (p : ℤ)
    → (is_negative p || ltb_ℤ (pos hundred_percent) p) ≡ false
    → (pos 0 ≤ℤ p) × (p ≤ℤ pos hundred_percent)
in_percent_range (pos k) h = ground arith
in_percent_range (negsuc k) h = cc

-- A parsed percentage lies from 0 to 100.
pub parse_percent_range :
    (t : Text) (p : ℤ) → parse_percent t ≡ ok p → (pos 0 ≤ℤ p) × (p ≤ℤ pos hundred_percent)
unfolding parse_percent
parse_percent_range t p h = on_ok (parse_decimal t decimal_scale none) _ h λ scaled e h'.
    let (passed, same) =
      throw_if-eq-ok (is_negative scaled || ltb_ℤ (pos hundred_percent) scaled)
        (money_error percent_out_of_range) (ok scaled) h' in
    rw (← ok_inj same) (in_percent_range scaled passed)

mul_mono : (x y d : ℕ) → x ≤ y → d * x ≤ d * y
mul_mono x y d h = grind arith

-- `p` parts of 1,000,000 of an amount that is not negative, rounded, lie between 0 and the amount.
pub round_percent_range :
    (a p : ℤ)
    → pos 0 ≤ℤ a
    → pos 0 ≤ℤ p
    → p ≤ℤ pos hundred_percent
    → (pos 0 ≤ℤ round_pos (a *ℤ p) hundred_percent) × (round_pos (a *ℤ p) hundred_percent ≤ℤ a)
round_percent_range (negsuc a) p ha hp hp' = absurd (omega arith)
round_percent_range (pos a) (negsuc p) ha hp hp' = absurd (omega arith)
round_percent_range (pos a) (pos p) ha hp hp' = rw (*ℤ-pos a p) (
    omega (
      int_laws,
      round_pos-IsRounded (pos (a * p)) hundred_percent (omega arith),
      (round_pos-IsRounded (pos (a * p)) hundred_percent (omega arith)).nonneg (omega arith),
      mul_mono p hundred_percent a (omega arith),
    ))

-- A percentage of an amount that is not negative lies between 0 and the amount.
pub percentage_range :
    (amount : ℤ) (percent : Text) (r : ℤ)
    → pos 0 ≤ℤ amount
    → percentage amount percent ≡ ok r
    → (pos 0 ≤ℤ r) × (r ≤ℤ amount)
unfolding percentage multiply_by_rational round_div
percentage_range amount percent r h e = on_ok (parse_percent percent) _ e λ p parsed e'.
    let range = parse_percent_range percent p parsed in
    rw (← ok_inj e') (round_percent_range amount p h range.0 range.1)
