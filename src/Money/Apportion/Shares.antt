-- ===== src/Money/Apportion/Shares.antt =====
-- The parts that `give_out` leaves: each raised by at most one unit, and their sum.
use workloom.Base.{
  ℕ, zero, suc, ◌≤◌, ◌<◌, ◌≡◌, refl, ap, ◌∙◌, List, [], ◌∷◌, length, get_or, count, arith, suc_==,
  ◌==◌, if◌then◌else◌,
}
use workloom.Base.Int.{ℤ, pos, ◌+ℤ◌, ◌≤ℤ◌, sum_ℤ, int_laws}
use workloom.Money.Apportion.{Entry, bump_at, give_out}
use workloom.Money.Apportion.Order.{indices, AllBelow}

sum-bump_at : (xs : List ℤ) (i : ℕ) → i < length xs → sum_ℤ (bump_at xs i) ≡ sum_ℤ xs +ℤ pos 1
unfolding bump_at
sum-bump_at [] i h = elim h [ ]
sum-bump_at (x ∷ xs) zero h = omega int_laws
sum-bump_at (x ∷ xs) (suc i) h = rw (sum-bump_at xs i (omega arith)) (omega int_laws)

length-bump_at : (xs : List ℤ) (i : ℕ) → length (bump_at xs i) ≡ length xs
unfolding bump_at
length-bump_at [] i = refl
length-bump_at (x ∷ xs) zero = refl
length-bump_at (x ∷ xs) (suc i) = ap suc (length-bump_at xs i)

pub length-give_out :
    (xs : List ℤ) (es : List Entry) (k : ℕ) → length (give_out xs es k) ≡ length xs
unfolding give_out
length-give_out xs [] k = refl
length-give_out xs (e ∷ es) zero = refl
length-give_out xs (e ∷ es) (suc k) =
    length-give_out (bump_at xs e.index) es k ∙ length-bump_at xs e.index

-- Where there are entries enough, every spare unit is given out.
pub sum-give_out :
    (xs : List ℤ) (es : List Entry) (k : ℕ)
    → AllBelow (length xs) es
    → k ≤ length es
    → sum_ℤ (give_out xs es k) ≡ sum_ℤ xs +ℤ pos k
unfolding give_out
sum-give_out xs [] zero hs h = omega int_laws
sum-give_out xs [] (suc k) hs h = elim h [ ]
sum-give_out xs (e ∷ es) zero hs h = omega int_laws
sum-give_out xs (e ∷ es) (suc k) hs h =
    rw
      (
        sum-give_out (bump_at xs e.index) es k (rw (length-bump_at xs e.index) hs.1) (omega arith),
        sum-bump_at xs e.index hs.0,
      )
      (omega int_laws)

bump_at_bounds :
    (xs : List ℤ) (i j : ℕ)
    → (get_or xs j (pos 0) ≤ℤ get_or (bump_at xs i) j (pos 0))
      × (get_or (bump_at xs i) j (pos 0) ≤ℤ get_or xs j (pos 0) +ℤ pos (if i == j then 1 else 0))
unfolding bump_at
bump_at_bounds [] i j = omega int_laws
bump_at_bounds (x ∷ xs) zero zero = omega int_laws
bump_at_bounds (x ∷ xs) zero (suc j) = omega int_laws
bump_at_bounds (x ∷ xs) (suc i) zero = omega int_laws
bump_at_bounds (x ∷ xs) (suc i) (suc j) = rw (suc_== i j) (bump_at_bounds xs i j)

-- A part grows by at most the number of times that its index stands in the order.
pub give_out_bounds :
    (xs : List ℤ) (es : List Entry) (k j : ℕ)
    → (get_or xs j (pos 0) ≤ℤ get_or (give_out xs es k) j (pos 0))
      × (get_or (give_out xs es k) j (pos 0) ≤ℤ get_or xs j (pos 0) +ℤ pos (count j (indices es)))
unfolding give_out
give_out_bounds xs [] k j = omega int_laws
give_out_bounds xs (e ∷ es) zero j = omega int_laws
give_out_bounds xs (e ∷ es) (suc k) j =
    omega (int_laws, give_out_bounds (bump_at xs e.index) es k j, bump_at_bounds xs e.index j)
