-- ===== src/Money/Decimal.antt =====
-- Decimal strings of packages/core/src/money/money.ts: `parseDecimal` and `formatDecimal`. A
-- string is the list of its code units.
use workloom.Base.{
  ℕ, zero, suc, ◌+◌, ◌-◌, ◌*◌, ◌/◌, ◌%◌, Bool, true, false, not, ◌&&◌, ◌||◌, ltb, leb, ◌==◌,
  if◌then◌else◌, List, [], ◌∷◌, ◌++◌, Option, none, some, length, Result, ok, err, ◌>>=◌, ◌>>◌,
  throw_if, ◌≡◌, refl, ap, ◌∙◌, ◌≤◌, arith, ge→ltb, lt→ltb, money_error, invalid_decimal,
  too_many_decimals, decimal_too_large, replicate, take, drop,
}
use workloom.Base.Int.{ℤ, pos, neg_ℤ, abs_ℤ, is_negative}
use mathlib.Core.List.{reverse}

abbrev pub Text : Type 0
Text = List ℕ

-- `\d`, and the white space that `String.prototype.trim` removes.
is_digit : ℕ → Bool
is_digit c = leb b'0' c && leb c b'9'

is_space : ℕ → Bool
is_space c =
    (leb 9 c && leb c 13)
    || (c == 0x20)
    || (c == 0xa0)
    || (c == 0x1680)
    || (leb 0x2000 c && leb c 0x200a)
    || (c == 0x2028)
    || (c == 0x2029)
    || (c == 0x202f)
    || (c == 0x205f)
    || (c == 0x3000)
    || (c == 0xfeff)

drop_while : (ℕ → Bool) → Text → Text
drop_while p [] = []
drop_while p (c ∷ cs) = if p c then drop_while p cs else c ∷ cs

pub trim : Text → Text
unfolding drop_while is_space
trim cs = reverse (drop_while is_space (reverse (drop_while is_space cs)))

-- The longest run of digits at the front, and what follows it.
span_digits : Text → Text × Text
unfolding is_digit
span_digits [] = ([], [])
span_digits (c ∷ cs) =
    let (ds, rest) = span_digits cs in if is_digit c then (c ∷ ds, rest) else ([], c ∷ cs)

-- The three groups of `/^(-)?(\d*)(?:\.(\d*))?$/`: the sign, the whole digits and the fraction;
-- the last is empty both where the group is and where it did not take part.
abbrev pub Groups : Type 0
Groups = Bool × Text × Text

-- `$` after a fraction's digits.
abbrev at_end : Bool → Text → Text × Text → Option Groups
at_end neg whole (fraction, []) = some (neg, whole, fraction)
at_end neg whole (fraction, c ∷ cs) = none

after_whole : Bool → Text × Text → Option Groups
unfolding span_digits
after_whole neg (whole, []) = some (neg, whole, [])
after_whole neg (whole, c ∷ cs) = if c == b'.' then at_end neg whole (span_digits cs) else none

pub match_decimal : Text → Option Groups
unfolding after_whole span_digits
match_decimal [] = after_whole false (span_digits [])
match_decimal (c ∷ cs) =
    if c == b'-'
    then after_whole true (span_digits cs)
    else after_whole false (span_digits (c ∷ cs))

-- `whole.replace(/^0+(?=\d)/, '')`: no leading zero before another digit.
strip_zeros : Text → Text
strip_zeros [] = []
strip_zeros (c ∷ []) = c ∷ []
strip_zeros (c ∷ d ∷ cs) = if c == b'0' then strip_zeros (d ∷ cs) else c ∷ d ∷ cs

-- `padEnd(n, '0')` and `padStart(n, '0')`.
pad_end : ℕ → Text → Text
pad_end n cs = cs ++ replicate (n - length cs) b'0'

pad_start : ℕ → Text → Text
pad_start n cs = replicate (n - length cs) b'0' ++ cs

-- `BigInt` of a text of digits.
digits_value : ℕ → Text → ℕ
digits_value acc [] = acc
digits_value acc (c ∷ cs) = digits_value (acc * 10 + (c - b'0')) cs

abbrev pub is_empty : Text → Bool
is_empty [] = true
is_empty (c ∷ cs) = false

-- The literal texts '', '-' and '.' that the guard names have neither digits nor a fraction.
abbrev pub some_digits : Option Groups → Result Groups
some_digits none = err (money_error invalid_decimal)
some_digits (some (neg, whole, fraction)) =
    if is_empty whole && is_empty fraction
    then err (money_error invalid_decimal)
    else ok (neg, whole, fraction)

abbrev within : Option ℕ → Text → Bool
within none digits = true
within (some n) digits = leb (length digits) n

unfoldable pub parse_decimal : Text → ℕ → Option ℕ → Result ℤ
unfolding trim match_decimal strip_zeros pad_end digits_value neg_ℤ
parse_decimal value scale integer_digits = do
  groups ← some_digits (match_decimal (trim value))
  let fraction = groups.2
  throw_if (ltb scale (length fraction)) (money_error too_many_decimals)
  let digits = strip_zeros groups.1
  throw_if (not (within integer_digits digits)) (money_error decimal_too_large)
  let scaled =
      digits_value 0 ((if is_empty digits then b'0' ∷ [] else digits) ++ pad_end scale fraction)
  ok (if groups.0 then neg_ℤ (pos scaled) else pos scaled)

-- `toString` of a natural number: at most `fuel` digits are written, in front of `rest`.
to_digits : ℕ → ℕ → Text → Text
to_digits zero n rest = rest
to_digits (suc fuel) n rest =
    let more = to_digits fuel (n / 10) ((b'0' + n % 10) ∷ rest) in
    if ltb n 10 then (b'0' + n) ∷ rest else more

-- `n + 1` rounds are enough for `n`.
unfoldable pub to_text : ℕ → Text
unfolding to_digits
to_text n = to_digits (suc n) n []

to_digits-more :
    (fuel n : ℕ) (rest : Text)
    → 10 ≤ n
    → to_digits (suc fuel) n rest ≡ to_digits fuel (n / 10) ((b'0' + n % 10) ∷ rest)
unfolding to_digits
to_digits-more fuel n rest h = rw (ge→ltb n 10 h) refl

to_digits-last :
    (fuel n : ℕ) (rest : Text) → suc n ≤ 10 → to_digits (suc fuel) n rest ≡ (b'0' + n) ∷ rest
unfolding to_digits
to_digits-last fuel n rest h = rw (lt→ltb n 10 h) refl

-- The four digits of a number from 1000 to 9999.
pub to_text-four :
    (n : ℕ)
    → 1000 ≤ n
    → n ≤ 9999
    → to_text n
      ≡ (b'0' + n / 10 / 10 / 10)
        ∷ (b'0' + n / 10 / 10 % 10)
        ∷ (b'0' + n / 10 % 10)
        ∷ (b'0' + n % 10)
        ∷ []
unfolding to_text
to_text-four n h k =
    let fuel : n ≡ suc (suc (suc (n - 3))) = omega (arith, h) in
    ap (λ m. to_digits (suc m) n []) fuel
    ∙ to_digits-more (suc (suc (suc (n - 3)))) n [] (omega (arith, h))
    ∙ to_digits-more (suc (suc (n - 3))) (n / 10) _ (omega (arith, h))
    ∙ to_digits-more (suc (n - 3)) (n / 10 / 10) _ (omega (arith, h))
    ∙ to_digits-last (n - 3) (n / 10 / 10 / 10) _ (omega (arith, k))

-- `fraction.replace(/0+$/, '')`: a zero goes if nothing is left behind it.
abbrev before_rest : ℕ → Text → Text
before_rest c [] = if c == b'0' then [] else c ∷ []
before_rest c (d ∷ ds) = c ∷ d ∷ ds

strip_end : Text → Text
strip_end [] = []
strip_end (c ∷ cs) = before_rest c (strip_end cs)

unfoldable pub format_decimal : ℤ → ℕ → Text
unfolding to_text pad_start strip_end
format_decimal scaled scale =
    let digits = pad_start (scale + 1) (to_text (abs_ℤ scaled)) in
    let whole = take (length digits - scale) digits in
    let fraction = strip_end (drop (length digits - scale) digits) in
    (if is_negative scaled then b'-' ∷ [] else [])
    ++ (whole ++ (if is_empty fraction then [] else b'.' ∷ fraction))
