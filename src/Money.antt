-- ===== src/Money.antt =====
-- packages/core/src/money/money.ts, the arithmetic on minor units. `bigint` is ℤ; a RangeError is
-- `err range_error` and a MoneyError `err (money_error code)`. Splitting is in Money/Apportion,
-- decimal strings in Money/Decimal.
pub mod Decimal
pub mod Round
pub mod Apportion
pub mod Currency
pub mod Convert
pub mod Percent
use workloom.Base.{
  ℕ, zero, suc, ◌+◌, ◌-◌, ◌*◌, ◌/◌, ◌%◌, ◌^◌, ◌≤◌, ◌<◌, ◌≡◌, Bool, true, false, not, ◌&&◌, ◌||◌,
  ltb, leb, ◌==◌, if◌then◌else◌, differ, Result, ok, err, ◌>>=◌, ◌>>◌, throw_if, range_error,
  money_error, amount_too_large, percent_out_of_range, none,
}
use workloom.Money.Decimal.{Text, parse_decimal}
use workloom.Base.Int.{ℤ, pos, negsuc, ◌-ℤ◌, ◌*ℤ◌, neg_ℤ, abs_ℤ, ltb_ℤ, is_negative, is_zero}

-- `bigint` division and remainder: towards zero, the remainder with the dividend's sign. The
-- callers below have excluded a zero divisor.
unfoldable pub quot : ℤ → ℤ → ℤ
quot (pos a) (pos b) = pos (a / b)
quot (pos a) (negsuc b) = neg_ℤ (pos (a / suc b))
quot (negsuc a) (pos b) = neg_ℤ (pos (suc a / b))
quot (negsuc a) (negsuc b) = pos (suc a / suc b)

unfoldable pub rem : ℤ → ℤ → ℤ
rem (pos a) b = pos (a % abs_ℤ b)
rem (negsuc a) b = neg_ℤ (pos (suc a % abs_ℤ b))

-- The quotient of two magnitudes to the nearest whole, halves up.
unfoldable pub round_magnitude : ℕ → ℕ → ℕ
round_magnitude a d = let q = a / d in let r = a % d in if leb d (2 * r) then q + 1 else q

-- `roundDiv` past its two guards, for a positive denominator: half away from zero.
unfoldable pub round_pos : ℤ → ℕ → ℤ
round_pos numerator denominator =
    let rounded = round_magnitude (abs_ℤ numerator) denominator in
    if is_negative numerator then neg_ℤ (pos rounded) else pos rounded

-- `roundDiv`; a negative denominator is the call with both signs changed.
unfoldable pub round_div : ℤ → ℤ → Result ℤ
round_div numerator (pos zero) = err range_error
round_div numerator (pos (suc d)) = ok (round_pos numerator (suc d))
round_div numerator (negsuc d) = ok (round_pos (neg_ℤ numerator) (suc d))

-- `floorDiv`.
unfoldable pub floor_div : ℤ → ℤ → ℤ
floor_div numerator denominator =
    let q = quot numerator denominator in
    let signs_differ = differ (is_negative numerator) (is_negative denominator) in
    if not (is_zero (rem numerator denominator)) && signs_differ then q -ℤ pos 1 else q

unfoldable pub multiply_by_rational : ℤ → ℤ → ℤ → Result ℤ
multiply_by_rational amount numerator denominator = round_div (amount *ℤ numerator) denominator

-- `DECIMAL_SCALE`, `SCALE`, and a hundred percent at that scale.
abbrev pub decimal_scale : ℕ
decimal_scale = 4

abbrev pub scale_factor : ℕ
scale_factor = 10 ^ decimal_scale

abbrev pub hundred_percent : ℕ
hundred_percent = 100 * scale_factor

unfoldable pub parse_percent : Text → Result ℤ
parse_percent value = do
  scaled ← parse_decimal value decimal_scale none
  throw_if (is_negative scaled || ltb_ℤ (pos hundred_percent) scaled)
      (money_error percent_out_of_range)
  ok scaled

unfoldable pub percentage : ℤ → Text → Result ℤ
percentage amount percent = do
  p ← parse_percent percent
  multiply_by_rational amount p (pos hundred_percent)

-- `Number.MAX_SAFE_INTEGER`.
abbrev pub max_safe : ℕ
max_safe = 2 ^ 53 - 1

unfoldable pub to_safe_number : ℤ → Result ℤ
to_safe_number value =
    if ltb_ℤ (pos max_safe) value || ltb_ℤ value (neg_ℤ (pos max_safe))
    then err (money_error amount_too_large)
    else ok value
