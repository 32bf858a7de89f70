-- ===== src/Pricing/Grouping.antt =====
-- The groups that `calculate` makes: no line stands in two, and none is out of range.
use native.Mathlib.Nat.{add-zero, add-suc, suc-add}
use workloom.Base.{
  ok_inj, ℕ, suc, ◌+◌, ◌≤◌, ◌<◌, ◌≡◌, Bool, true, false, not, str_eq, String, Option, none, some,
  List, [], ◌∷◌, ◌++◌, length, count, ok, ◌>>◌, throw_if, on_ok, arith, Bool-cases, inl, inr,
}
use workloom.Base.Int.{ℤ}
use workloom.Pricing.{LineTax, Priced}
use workloom.Pricing.Document.{Group, join, join_line, group_lines, group_rate, same_rate, conflict}

-- How often a line stands in the groups.
abbrev pub occurs : ℕ → List Group → ℕ
occurs j [] = 0
occurs j (g ∷ gs) = count j g.members + occurs j gs

count-append : (j : ℕ) (xs ys : List ℕ) → count j (xs ++ ys) ≡ count j xs + count j ys
count-append j [] ys = omega arith
count-append j (x ∷ xs) ys = omega (arith, count-append j xs ys)

-- A line that joins stands once more, and no other line does.
occurs-join :
    (priced : List Priced) (i : ℕ) (key : String) (rate : Option ℤ) (gs gs' : List Group) (j : ℕ)
    → join priced i key rate gs ≡ ok gs'
    → occurs j gs' ≡ occurs j gs + count j (i ∷ [])
unfolding join
occurs-join priced i key rate [] gs' j h = rw (← ok_inj h) (omega arith)
occurs-join priced i key rate (g ∷ gs) gs' j h = elim (Bool-cases (str_eq g.key key)) [
  | inl same ↦ by_rate (not (same_rate (group_rate priced g.members) rate)) (rw same at h)
  | inr other ↦
      on_ok (join priced i key rate gs) (λ rest. ok (g ∷ rest)) (rw other at h)
        λ rest joined e.
          rw (← ok_inj e) (omega (arith, occurs-join priced i key rate gs rest j joined))
]
  where
    by_rate :
        (c : Bool)
        → (throw_if c (conflict i) >> ok (record g { members = g.members ++ i ∷ [] } ∷ gs)) ≡ ok gs'
        → occurs j gs' ≡ count j g.members + occurs j gs + count j (i ∷ [])
    by_rate true h = cc
    by_rate false h = rw (← ok_inj h) (omega (arith, count-append j g.members (i ∷ [])))

-- The groups of the first `n` lines: each line stands at most once, and no other line does.
pub record IsGrouping (n : ℕ) (gs : List Group) : Type 0 where
  pub once : (j : ℕ) → occurs j gs ≤ 1
  pub in_range : (j : ℕ) → 1 ≤ occurs j gs → j < n

count-other : (i j : ℕ) → (count j (i ∷ []) ≤ 1) × (1 ≤ count j (i ∷ []) → j ≡ i)
count-other i j = ground arith

join_line-IsGrouping :
    (priced : List Priced) (i : ℕ) (l : Priced) (tax : Option LineTax) (gs gs' : List Group)
    → join_line priced i l tax gs ≡ ok gs'
    → IsGrouping i gs
    → IsGrouping (suc i) gs'
unfolding join_line
join_line-IsGrouping priced i l none gs gs' h v =
    rw (← ok_inj h) (record { once = v.once; in_range = λ j k. omega (arith, v.in_range j k) })
join_line-IsGrouping priced i l (some t) gs gs' h v = record {
  once = λ j. ground (
    arith,
    occurs-join priced i t.key l.tax_rate gs gs' j h,
    count-other i j,
    v.once j,
    v.in_range j,
  );
  in_range = λ j k.
      ground
        (arith, occurs-join priced i t.key l.tax_rate gs gs' j h, count-other i j, v.in_range j);
}

-- The loop over the lines keeps this, and at its end the groups hold lines of the document only.
pub group_lines-IsGrouping :
    (priced : List Priced) (i : ℕ) (ls : List Priced) (gs gs' : List Group)
    → group_lines priced i ls gs ≡ ok gs'
    → IsGrouping i gs
    → IsGrouping (i + length ls) gs'
unfolding group_lines
group_lines-IsGrouping priced i [] gs gs' h v = rw (add-zero, ← ok_inj h) v
group_lines-IsGrouping priced i (l ∷ ls) gs gs' h v =
    on_ok (join_line priced i l l.tax gs) _ h λ gs₁ e h'.
      rw (add-suc i (length ls), ← suc-add i (length ls))
        (group_lines-IsGrouping priced (suc i) ls gs₁ gs' h'
          (join_line-IsGrouping priced i l l.tax gs gs₁ e v))
