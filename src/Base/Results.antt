-- ===== src/Base/Results.antt =====
-- What the modules of packages/core/src throw, and results that carry it. One constructor for
-- each error class, with its code or, for a record that is not found, the name of its kind; what
-- the schema of an input refuses, what a constraint or a trigger of the database refuses, and what
-- it refuses because the books are closed (its SQLSTATE WL001) are one constructor each.
use mathlib.Core.Path.{◌≡◌, refl, ap}
use mathlib.Core.Bool.{Bool, true, false}
use mathlib.Core.Option.{Option}
use Prim.Native.Nat.{ℕ}
use Prim.Native.String.{String}

-- The `code` of a MoneyError, a CalculationError or a DeductionError.
pub data Code : Type 0 where
  invalid_decimal too_many_decimals decimal_too_large percent_out_of_range : Code
  invalid_exchange_rate amount_too_large zero_quantity invalid_currency invalid_amount : Code
  discount_without_subtotal discount_exceeds_subtotal tax_rate_conflict : Code
  deduction_tax_mode_mismatch deduction_not_positive : Code

-- The `field` of a CalculationError.
pub data Field : Type 0 where
  on_currency on_unit_amount on_quantity on_discount_percent on_tax_rate on_discount : Field

pub data Error : Type 0 where
  range_error : Error
  money_error : Code → Error
  calculation_error : Code → Option Field → Option ℕ → Error
  deduction_error : Code → Error
  domain_error not_found_error validation_error forbidden_error : String → Error
  conflict_error database_error books_locked : Error

pub data Result {ℓ} (A : Type ℓ) : Type ℓ where
  ok : A → Result A
  err : Error → Result A

-- The rest of a body runs on the value of a call that did not throw.
infixl 5 ◌>>=◌ ◌>>◌
abbrev pub ◌>>=◌ {ℓ κ} : {A : Type ℓ} {B : Type κ} → Result A → (A → Result B) → Result B
◌>>=◌ call rest = elim call [ ok value ↦ rest value | err thrown ↦ err thrown ]

abbrev pub ◌>>◌ {ℓ} : {B : Type ℓ} → Result (Unit {0}) → Result B → Result B
◌>>◌ check rest = elim check [ ok _ ↦ rest | err thrown ↦ err thrown ]

-- `if (c) throw e`.
abbrev pub throw_if : Bool → Error → Result (Unit {0})
throw_if true e = err e
throw_if false e = ok tt

pub throw_if-eq-ok {ℓ} :
    {B : Type ℓ} (c : Bool) (e : Error) (k : Result B) {b : B}
    → (throw_if c e >> k) ≡ ok b
    → (c ≡ false) × (k ≡ ok b)
throw_if-eq-ok true e k h = cc
throw_if-eq-ok false e k h = (refl, h)

abbrev pub default_ok {ℓ} : {A : Type ℓ} → A → Result A → A
default_ok d (ok a) = a
default_ok d (err e) = d

pub ok_inj {ℓ} : {A : Type ℓ} {a b : A} → ok a ≡ ok b → a ≡ b
ok_inj {a = a} h = ap (default_ok a) h

abbrev error_of {ℓ} : {A : Type ℓ} → Result A → Error
error_of (ok a) = range_error
error_of (err e) = e

pub err_inj {ℓ} : {A : Type ℓ} {e f : Error} → ◌≡◌ {A = Result A} (err e) (err f) → e ≡ f
err_inj h = ap error_of h

-- Inversion of a successful bind, in the form of an elimination.
pub on_ok {ℓ κ μ} :
    {A : Type ℓ} {B : Type κ} {C : Type μ} (m : Result A) (f : A → Result B) {b : B}
    → (m >>= f) ≡ ok b
    → ((a : A) → m ≡ ok a → f a ≡ ok b → C)
    → C
on_ok (ok a) f h k = k a refl h
on_ok (err e) f h k = absurd (cc)

-- Inversion of a guard that let the call go on.
pub on_guard {ℓ μ} :
    {B : Type ℓ} {C : Type μ} (c : Bool) (e : Error) (k : Result B) {b : B}
    → (throw_if c e >> k) ≡ ok b
    → (c ≡ false → k ≡ ok b → C)
    → C
on_guard true e k h f = absurd (cc)
on_guard false e k h f = f refl h
