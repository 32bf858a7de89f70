-- ===== src/Money/Convert.antt =====
-- `convert` of packages/core/src/money/money.ts: an amount at an exchange rate.
use workloom.Base.{
  ℕ, ◌-◌, ◌*◌, ◌^◌, some, String, Result, ◌>>=◌, ◌>>◌, throw_if, money_error, invalid_exchange_rate,
}
use workloom.Base.Int.{ℤ, pos, ◌*ℤ◌, leb_ℤ}
use workloom.Money.{round_div}
use workloom.Money.Decimal.{Text, parse_decimal}
use workloom.Money.Currency.{currency_exponent}

abbrev pub rate_scale : ℕ
rate_scale = 8

-- Past the rate's check: `up` and `down` are `Math.max(shift, 0)` and `Math.max(-shift, 0)`.
abbrev pub convert_by : ℤ → ℤ → ℕ → ℕ → Result ℤ
convert_by amount scaled up down =
    round_div (amount *ℤ scaled *ℤ pos (10 ^ up)) (pos (10 ^ rate_scale * 10 ^ down))

unfoldable pub convert : ℤ → String → String → Text → Result ℤ
convert amount from to rate = do
  scaled ← parse_decimal rate rate_scale (some 10)
  throw_if (leb_ℤ scaled (pos 0)) (money_error invalid_exchange_rate)
  convert_by amount scaled (currency_exponent to - currency_exponent from)
      (currency_exponent from - currency_exponent to)
