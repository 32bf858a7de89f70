-- ===== src/Money/Currency.antt =====
-- packages/core/src/money/currency.ts: the currencies and their minor units.
use workloom.Base.{ℕ, Bool, false, ◌||◌, str_eq, if◌then◌else◌, List, [], ◌∷◌, String}

-- `EXPONENTS`.
abbrev pub exponents : List (String × ℕ)
exponents =
    ("BIF", 0)
    ∷ ("CLP", 0)
    ∷ ("DJF", 0)
    ∷ ("GNF", 0)
    ∷ ("ISK", 0)
    ∷ ("JPY", 0)
    ∷ ("KMF", 0)
    ∷ ("KRW", 0)
    ∷ ("PYG", 0)
    ∷ ("RWF", 0)
    ∷ ("UGX", 0)
    ∷ ("UYI", 0)
    ∷ ("VND", 0)
    ∷ ("VUV", 0)
    ∷ ("XAF", 0)
    ∷ ("XOF", 0)
    ∷ ("XPF", 0)
    ∷ ("BHD", 3)
    ∷ ("IQD", 3)
    ∷ ("JOD", 3)
    ∷ ("KWD", 3)
    ∷ ("LYD", 3)
    ∷ ("OMR", 3)
    ∷ ("TND", 3)
    ∷ ("CLF", 4)
    ∷ ("UYW", 4)
    ∷ []

-- `CURRENCY_CODES`.
abbrev pub currency_codes : List String
currency_codes =
    "AED" ∷ "AFN" ∷ "ALL" ∷ "AMD" ∷ "AOA" ∷ "ARS" ∷ "AUD" ∷ "AWG" ∷ "AZN" ∷ "BAM" ∷ "BBD" ∷ "BDT"
    ∷ "BGN" ∷ "BHD" ∷ "BIF" ∷ "BMD" ∷ "BND" ∷ "BOB" ∷ "BRL" ∷ "BSD" ∷ "BTN" ∷ "BWP" ∷ "BYN" ∷ "BZD"
    ∷ "CAD" ∷ "CDF" ∷ "CHF" ∷ "CLP" ∷ "CNY" ∷ "COP" ∷ "CRC" ∷ "CUP" ∷ "CVE" ∷ "CZK" ∷ "DJF" ∷ "DKK"
    ∷ "DOP" ∷ "DZD" ∷ "EGP" ∷ "ERN" ∷ "ETB" ∷ "EUR" ∷ "FJD" ∷ "FKP" ∷ "GBP" ∷ "GEL" ∷ "GHS" ∷ "GIP"
    ∷ "GMD" ∷ "GNF" ∷ "GTQ" ∷ "GYD" ∷ "HKD" ∷ "HNL" ∷ "HTG" ∷ "HUF" ∷ "IDR" ∷ "ILS" ∷ "INR" ∷ "IQD"
    ∷ "IRR" ∷ "ISK" ∷ "JMD" ∷ "JOD" ∷ "JPY" ∷ "KES" ∷ "KGS" ∷ "KHR" ∷ "KMF" ∷ "KPW" ∷ "KRW" ∷ "KWD"
    ∷ "KYD" ∷ "KZT" ∷ "LAK" ∷ "LBP" ∷ "LKR" ∷ "LRD" ∷ "LSL" ∷ "LYD" ∷ "MAD" ∷ "MDL" ∷ "MGA" ∷ "MKD"
    ∷ "MMK" ∷ "MNT" ∷ "MOP" ∷ "MRU" ∷ "MUR" ∷ "MVR" ∷ "MWK" ∷ "MXN" ∷ "MYR" ∷ "MZN" ∷ "NAD" ∷ "NGN"
    ∷ "NIO" ∷ "NOK" ∷ "NPR" ∷ "NZD" ∷ "OMR" ∷ "PAB" ∷ "PEN" ∷ "PGK" ∷ "PHP" ∷ "PKR" ∷ "PLN" ∷ "PYG"
    ∷ "QAR" ∷ "RON" ∷ "RSD" ∷ "RUB" ∷ "RWF" ∷ "SAR" ∷ "SBD" ∷ "SCR" ∷ "SDG" ∷ "SEK" ∷ "SGD" ∷ "SHP"
    ∷ "SLE" ∷ "SOS" ∷ "SRD" ∷ "SSP" ∷ "STN" ∷ "SYP" ∷ "SZL" ∷ "THB" ∷ "TJS" ∷ "TMT" ∷ "TND" ∷ "TOP"
    ∷ "TRY" ∷ "TTD" ∷ "TWD" ∷ "TZS" ∷ "UAH" ∷ "UGX" ∷ "USD" ∷ "UYU" ∷ "UZS" ∷ "VES" ∷ "VND" ∷ "VUV"
    ∷ "WST" ∷ "XAF" ∷ "XCD" ∷ "XOF" ∷ "XPF" ∷ "YER" ∷ "ZAR" ∷ "ZMW" ∷ "ZWG" ∷ []

pub has_text : String → List String → Bool
has_text s [] = false
has_text s (t ∷ ts) = str_eq s t || has_text s ts

unfoldable pub is_currency_code : String → Bool
unfolding has_text
is_currency_code value = has_text value currency_codes

-- `table[key] ?? fallback`.
pub lookup_or : String → List (String × ℕ) → ℕ → ℕ
lookup_or key [] fallback = fallback
lookup_or key ((k, v) ∷ table) fallback = if str_eq key k then v else lookup_or key table fallback

unfoldable pub currency_exponent : String → ℕ
unfolding lookup_or
currency_exponent currency = lookup_or currency exponents 2
