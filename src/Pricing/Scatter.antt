-- ===== src/Pricing/Scatter.antt =====
-- Writing the parts of one tax to its lines adds exactly those parts to the sum over all lines.
use workloom.Base.{
  ℕ, zero, suc, ◌≤◌, ◌<◌, ◌≡◌, ◌≢◌, refl, ◌∙◌, List, [], ◌∷◌, length, length-set, get_or,
  get_or-set_ne, set, count, arith,
}
use workloom.Base.Int.{ℤ, pos, ◌+ℤ◌, sum_ℤ, int_laws}
use workloom.Pricing.Document.{scatter}

sum-set :
    (xs : List ℤ) (i : ℕ) (v : ℤ)
    → i < length xs
    → get_or xs i (pos 0) ≡ pos 0
    → sum_ℤ (set xs i v) ≡ sum_ℤ xs +ℤ v
sum-set [] i v h e = elim h [ ]
sum-set (x ∷ xs) zero v h e = rw e (omega int_laws)
sum-set (x ∷ xs) (suc i) v h e = rw (sum-set xs i v (omega arith) e) (omega int_laws)

pub length-scatter : (ms : List ℕ) (parts xs : List ℤ) → length (scatter ms parts xs) ≡ length xs
unfolding scatter
length-scatter [] parts xs = refl
length-scatter (m ∷ ms) [] xs = refl
length-scatter (m ∷ ms) (p ∷ parts) xs = length-scatter ms parts (set xs m p) ∙ length-set xs m p

-- A line that is not among the members keeps its value.
pub get_or-scatter_ne :
    (ms : List ℕ) (parts xs : List ℤ) (j : ℕ)
    → count j ms ≡ 0
    → get_or (scatter ms parts xs) j (pos 0) ≡ get_or xs j (pos 0)
unfolding scatter
get_or-scatter_ne [] parts xs j h = refl
get_or-scatter_ne (m ∷ ms) [] xs j h = refl
get_or-scatter_ne (m ∷ ms) (p ∷ parts) xs j h =
    get_or-scatter_ne ms parts (set xs m p) j (ground arith)
    ∙ get_or-set_ne xs m j p (pos 0) (ground arith)

-- The members are distinct lines of the document, whose value is still zero.
pub record IsFresh (ms : List ℕ) (xs : List ℤ) : Type 0 where
  pub once : (j : ℕ) → count j ms ≤ 1
  pub in_range : (j : ℕ) → 1 ≤ count j ms → j < length xs
  pub unset : (j : ℕ) → 1 ≤ count j ms → get_or xs j (pos 0) ≡ pos 0

count-head : (m : ℕ) (ms : List ℕ) → count m (m ∷ ms) ≡ suc (count m ms)
count-head m ms = ground arith

-- A member of the rest is another line than the head.
other_member : (m j : ℕ) (ms : List ℕ) → count m (m ∷ ms) ≤ 1 → 1 ≤ count j ms → m ≢ j
other_member m j ms h k e =
    let k' : 1 ≤ count m ms = rw e k in absurd (omega (arith, h, k', count-head m ms))

pub sum-scatter :
    (ms : List ℕ) (parts xs : List ℤ)
    → IsFresh ms xs
    → length parts ≡ length ms
    → sum_ℤ (scatter ms parts xs) ≡ sum_ℤ xs +ℤ sum_ℤ parts
unfolding scatter
sum-scatter [] [] xs f e = omega int_laws
sum-scatter [] (p ∷ parts) xs f e = absurd (omega arith)
sum-scatter (m ∷ ms) [] xs f e = absurd (omega arith)
sum-scatter (m ∷ ms) (p ∷ parts) xs f e =
    rw
      (
        sum-scatter ms parts (set xs m p) rest (omega arith),
        sum-set xs m p (f.in_range m head) (f.unset m head),
      )
      (omega int_laws)
  where
    head : 1 ≤ count m (m ∷ ms)
    head = omega (arith, count-head m ms)

    rest : IsFresh ms (set xs m p)
    rest = record {
      once = λ j. omega (arith, f.once j);
      in_range = λ j k. rw (length-set xs m p) (f.in_range j (omega arith));
      unset = λ j k.
          get_or-set_ne xs m j p (pos 0) (other_member m j ms (f.once m) k)
          ∙ f.unset j (omega arith);
    }
