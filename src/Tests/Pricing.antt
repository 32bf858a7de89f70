-- ===== src/Tests/Pricing.antt =====
-- `calculate` on one document: three lines, two of them taxed, with a document discount.
use workloom.Base.{false, ◌≡◌, ◌≢◌, refl, none, some, [], ◌∷◌, ok, err, range_error}
use workloom.Base.Int.{pos, negsuc, neg_ℤ, ◌*ℤ◌, ◌-ℤ◌, ◌+ℤ◌}
use workloom.Money.{quot, rem, floor_div, round_div, round_pos, round_magnitude, parse_percent}
use workloom.Money.Decimal.{parse_decimal, format_decimal}
use workloom.Money.Currency.{is_currency_code}
use workloom.Money.Apportion.{allocate, apportion, sort, entries, give_out}
use workloom.Pricing.{
  CalculationInput, Calculation, LineTax, exclusive, whole, by_percent, price_lines, price_line,
  tax_rate_of, discount_rate, parse_quantity, to_safe, safe_integer,
}
use workloom.Pricing.Document.{
  document_discount, stated_discount, discount_shares, group_lines, join, group_rate, scatter,
  tax_groups, tax_group,
}
use workloom.Pricing.Calculate.{calculate, finish, finish_lines, finish_line}
use workloom.Pricing.Discounts.{IsDiscount, document_discount-IsDiscount}
use workloom.Pricing.Totals.{AddsUp}
use workloom.Pricing.Correct.{calculate-AddsUp}
use workloom.Pricing.Failures.{calculate-NoRange}

abbrev gst : LineTax
gst = record { key = "gst"; rate = b'1' ∷ b'0' ∷ [] }

abbrev quote_input : CalculationInput
quote_input = record {
  currency = "AUD";
  tax_mode = exclusive;
  discount = some (by_percent (b'1' ∷ b'0' ∷ []));
  lines =
      record {
        quantity = b'1' ∷ b'.' ∷ b'5' ∷ [];
        unit_amount = whole (pos 9999);
        discount_percent = none;
        tax = some gst;
      }
      ∷ record {
        quantity = b'1' ∷ [];
        unit_amount = whole (pos 3333);
        discount_percent = some (b'1' ∷ b'0' ∷ []);
        tax = some gst;
      }
      ∷ record {
        quantity = b'2' ∷ [];
        unit_amount = whole (negsuc 499);
        discount_percent = none;
        tax = none;
      }
      ∷ [];
}

abbrev quote_result : Calculation
quote_result = record {
  subtotal = pos 16999;
  discount = pos 1700;
  tax = pos 1630;
  total = pos 16929;
  lines =
      record {
        amount = pos 14999;
        line_discount = pos 0;
        net = pos 14999;
        document_discount = pos 1417;
        taxable = pos 13582;
        tax = pos 1358;
        total = pos 14940;
      }
      ∷ record {
        amount = pos 3333;
        line_discount = pos 333;
        net = pos 3000;
        document_discount = pos 283;
        taxable = pos 2717;
        tax = pos 272;
        total = pos 2989;
      }
      ∷ record {
        amount = negsuc 999;
        line_discount = pos 0;
        net = negsuc 999;
        document_discount = pos 0;
        taxable = negsuc 999;
        tax = pos 0;
        total = negsuc 999;
      }
      ∷ [];
  taxes = record { key = "gst"; rate = b'1' ∷ b'0' ∷ []; amount = pos 16299; tax = pos 1630 } ∷ [];
}

engine : Unit {0}
unfolding calculate price_lines price_line tax_rate_of discount_rate parse_quantity parse_decimal
    parse_percent round_div round_pos round_magnitude ◌*ℤ◌ ◌-ℤ◌ ◌+ℤ◌ document_discount
    stated_discount discount_shares allocate apportion floor_div quot rem sort entries give_out
    group_lines join group_rate scatter tax_groups tax_group to_safe format_decimal finish
    finish_lines finish_line is_currency_code neg_ℤ safe_integer
engine = tt

calculate-quote : calculate quote_input ≡ ok quote_result
unfolding engine
calculate-quote = refl

calculate-AddsUp_example : AddsUp false quote_result
calculate-AddsUp_example = calculate-AddsUp quote_input quote_result calculate-quote

calculate-NoRange_example : calculate quote_input ≢ err range_error
calculate-NoRange_example = calculate-NoRange quote_input

document_discount-IsDiscount_example : IsDiscount (pos 16999) (pos 1700)
unfolding engine
document_discount-IsDiscount_example =
    document_discount-IsDiscount quote_input.discount (pos 16999) (pos 1700) refl
