-- ===== src/Calendar/Fiscal/Texts.antt =====
-- The dates that packages/core/src/reports/fiscal.ts writes and compares as texts.
use workloom.Base.{
  ◌≡◌, refl, ap, ◌∙◌, ℕ, ◌+◌, ◌*◌, ◌/◌, ◌%◌, ◌≤◌, Bool, false, ◌==◌, if◌then◌else◌, ltb, arith, [],
  ◌∷◌, ◌++◌,
}
use workloom.Invoices.Settlement.{text_lt}
use workloom.Money.Decimal.{Text, to_text, to_text-four}
use workloom.Calendar.{Date, spelled}
use workloom.Calendar.Fiscal.{two_digits, iso, date_text}

-- Two digits decide as the number that they write.
digits_order :
    (a b : ℕ) (r : Bool)
    → (if b'0' + a / 10 == b'0' + b / 10
        then (if b'0' + a % 10 == b'0' + b % 10 then r else ltb (b'0' + a % 10) (b'0' + b % 10))
        else ltb (b'0' + a / 10) (b'0' + b / 10))
      ≡ (if a == b then r else ltb a b)
digits_order a b r = ground arith

text_lt-two_digits :
    (a b : ℕ) (r s : Text)
    → text_lt (two_digits a ++ r) (two_digits b ++ s) ≡ (if a == b then text_lt r s else ltb a b)
text_lt-two_digits a b r s = digits_order a b (text_lt r s)

-- The parts of two dates decide as the numbers that they spell.
parts_order :
    (y y' m m' d d' : ℕ)
    → m ≤ 99
    → m' ≤ 99
    → d ≤ 99
    → d' ≤ 99
    → (if y / 100 == y' / 100
        then (if y % 100 == y' % 100
            then (if m == m' then (if d == d' then false else ltb d d') else ltb m m')
            else ltb (y % 100) (y' % 100))
        else ltb (y / 100) (y' / 100))
      ≡ ltb ((y * 100 + m) * 100 + d) ((y' * 100 + m') * 100 + d')
parts_order y y' m m' d d' h1 h2 h3 h4 = ground arith

-- A month and a day that have two digits.
abbrev pub IsShort : Date → Type 0
IsShort d = (d.month ≤ 99) × (d.day ≤ 99)

-- The text of a date after its month, and after its year.
abbrev after_month : Date → Text
after_month d = b'-' ∷ two_digits d.day

abbrev after_year : Date → Text
after_year d = b'-' ∷ (two_digits d.month ++ after_month d)

pub text_lt-iso :
    (a b : Date) → IsShort a → IsShort b → text_lt (iso a) (iso b) ≡ ltb (spelled a) (spelled b)
text_lt-iso a b (h1, h3) (h2, h4) =
    text_lt-two_digits (a.year / 100) (b.year / 100) (two_digits (a.year % 100) ++ after_year a)
      (two_digits (b.year % 100) ++ after_year b)
    ∙ ap (λ r. if a.year / 100 == b.year / 100 then r else ltb (a.year / 100) (b.year / 100))
        (text_lt-two_digits (a.year % 100) (b.year % 100) (after_year a) (after_year b)
          ∙ ap (λ r. if a.year % 100 == b.year % 100 then r else ltb (a.year % 100) (b.year % 100))
              (text_lt-two_digits a.month b.month (after_month a) (after_month b)
                ∙ ap (λ r. if a.month == b.month then r else ltb a.month b.month)
                    (text_lt-two_digits a.day b.day [] [])))
    ∙ parts_order a.year b.year a.month b.month a.day b.day h1 h2 h3 h4

four_eq :
    {a a' b b' c c' d d' : ℕ}
    → a ≡ a'
    → b ≡ b'
    → c ≡ c'
    → d ≡ d'
    → ◌≡◌ {A = Text}
        ((b'0' + a) ∷ (b'0' + b) ∷ (b'0' + c) ∷ (b'0' + d) ∷ [])
        ((b'0' + a') ∷ (b'0' + b') ∷ (b'0' + c') ∷ (b'0' + d') ∷ [])
four_eq p q r s = rw (p, q, r, s) refl

-- A year of four digits is written as two times two.
to_text-year :
    (y : ℕ) → 1000 ≤ y → y ≤ 9999 → to_text y ≡ two_digits (y / 100) ++ two_digits (y % 100)
to_text-year y h k =
    let e1 : y / 10 / 10 / 10 ≡ y / 100 / 10 = omega arith in
    let e2 : y / 10 / 10 % 10 ≡ y / 100 % 10 = omega arith in
    let e3 : y / 10 % 10 ≡ y % 100 / 10 = omega arith in
    let e4 : y % 10 ≡ y % 100 % 10 = omega arith in to_text-four y h k ∙ four_eq e1 e2 e3 e4

pub date_text-iso :
    (y m day : ℕ)
    → 1000 ≤ y
    → y ≤ 9999
    → date_text (to_text y) m day ≡ iso (record { year = y; month = m; day = day })
date_text-iso y m day h k = ap (λ year. date_text year m day) (to_text-year y h k)
