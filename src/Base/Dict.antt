-- ===== src/Base/Dict.antt =====
-- A JavaScript `Map` keyed by strings, in insertion order, and its `get`-then-`set` update.
use mathlib.Core.Path.{◌≡◌}
use mathlib.Core.Logic.{inl, inr}
use mathlib.Core.Option.{Option, none, some}
use mathlib.Core.List.{List, [], ◌∷◌}
use Prim.Native.String.{String}
use workloom.Base.Tests.{str_eq, if◌then◌else◌, Bool-cases}
use workloom.Base.Int.{ℤ, pos, ◌+ℤ◌, int_laws}

abbrev pub Dict {ℓ} : Type ℓ → Type ℓ
Dict V = List (String × V)

module _ {ℓ} {V : Type ℓ} where
  -- `m.set(key, f(m.get(key)))`.
  unfoldable pub upsert : String → (Option V → V) → Dict V → Dict V
  upsert key f [] = (key, f none) ∷ []
  upsert key f ((k, v) ∷ m) = if str_eq k key then (k, f (some v)) ∷ m else (k, v) ∷ upsert key f m

  -- The sum of a measure over the values.
  abbrev pub sum_values : (V → ℤ) → Dict V → ℤ
  sum_values g [] = pos 0
  sum_values g ((k, v) ∷ m) = g v +ℤ sum_values g m

  abbrev pub measure_or_zero : (V → ℤ) → Option V → ℤ
  measure_or_zero g none = pos 0
  measure_or_zero g (some v) = g v

  -- An update that adds `d` to the measure of its entry adds `d` to the sum.
  pub sum_values-upsert :
      (g : V → ℤ) (key : String) (f : Option V → V) (d : ℤ)
      → ((o : Option V) → g (f o) ≡ measure_or_zero g o +ℤ d)
      → (m : Dict V) → sum_values g (upsert key f m) ≡ sum_values g m +ℤ d
  unfolding upsert
  sum_values-upsert g key f d h [] = rw (h none) (omega int_laws)
  sum_values-upsert g key f d h ((k, v) ∷ m) = elim (Bool-cases (str_eq k key)) [
    | inl same ↦ rw (same, h (some v)) (omega int_laws)
    | inr other ↦ rw (other, sum_values-upsert g key f d h m) (omega int_laws)
  ]
