-- ===== src/Money/Apportion.antt =====
-- `apportion` and `allocate` of packages/core/src/money/money.ts: whole units split by largest
-- remainder. The proofs are in Apportion/Order, Apportion/Shares and Apportion/Totals.
pub mod Order
pub mod Shares
pub mod Totals
pub mod Success
pub mod Allocate
use workloom.Base.{
  ℕ, zero, suc, ◌+◌, Bool, true, false, ◌||◌, ltb, if◌then◌else◌, List, [], ◌∷◌, map, length,
  Result, ok, err, ◌>>=◌, ◌>>◌, throw_if, range_error,
}
use workloom.Base.Int.{
  ℤ, pos, negsuc, ◌+ℤ◌, ◌-ℤ◌, ◌*ℤ◌, neg_ℤ, pos_part, ltb_ℤ, leb_ℤ, eqb_ℤ, is_negative, is_zero,
  sum_ℤ,
}
use workloom.Money.{floor_div}

-- `{ index, remainder }`.
pub record Entry : Type 0 where
  pub index : ℕ
  pub remainder : ℤ

-- The comparator: the larger remainder first, and the smaller index on a tie.
goes_before : Entry → Entry → Bool
goes_before a b =
    if eqb_ℤ a.remainder b.remainder then ltb a.index b.index else ltb_ℤ b.remainder a.remainder

insert : Entry → List Entry → List Entry
insert e [] = e ∷ []
insert e (x ∷ xs) = if goes_before e x then e ∷ x ∷ xs else x ∷ insert e xs

-- `sort` with that comparator, which leaves no two entries equal.
unfoldable pub sort : List Entry → List Entry
unfolding insert goes_before
sort [] = []
sort (e ∷ es) = insert e (sort es)

-- The remainders of the numerators from index `i` on.
unfoldable pub entries : ℤ → ℕ → List ℤ → List Entry
entries d i [] = []
entries d i (n ∷ ns) =
    record { index = i; remainder = n -ℤ floor_div n d *ℤ d } ∷ entries d (suc i) ns

-- `parts[index]! += 1n`.
bump_at : List ℤ → ℕ → List ℤ
bump_at [] i = []
bump_at (x ∷ xs) zero = (x +ℤ pos 1) ∷ xs
bump_at (x ∷ xs) (suc i) = x ∷ bump_at xs i

-- The last loop of `apportion`, with `spare` units to give out.
unfoldable pub give_out : List ℤ → List Entry → ℕ → List ℤ
unfolding bump_at
give_out parts [] spare = parts
give_out parts (e ∷ es) zero = parts
give_out parts (e ∷ es) (suc spare) = give_out (bump_at parts e.index) es spare

abbrev pub floors : ℤ → List ℤ → List ℤ
floors d ns = map (λ n. floor_div n d) ns

unfoldable pub apportion : ℤ → List ℤ → ℤ → Result (List ℤ)
apportion total numerators denominator = do
  throw_if (leb_ℤ denominator (pos 0)) range_error
  let spare = total -ℤ sum_ℤ (floors denominator numerators)
  throw_if (is_negative spare || ltb_ℤ (pos (length numerators)) spare) range_error
  ok (
      give_out (floors denominator numerators) (sort (entries denominator 0 numerators))
        (pos_part spare))

-- `weights.some((w) => w < 0n)`.
unfoldable pub any_negative : List ℤ → Bool
any_negative [] = false
any_negative (w ∷ ws) = is_negative w || any_negative ws

-- `allocate` past its guards, with the weights and the denominator in effect.
unfoldable pub allocate_by : ℤ → List ℤ → ℤ → Result (List ℤ)
allocate_by total weights denominator =
    if is_negative total
    then (apportion (neg_ℤ total) (map (λ w. neg_ℤ total *ℤ w) weights) denominator >>= λ parts.
        ok (map neg_ℤ parts))
    else apportion total (map (λ w. total *ℤ w) weights) denominator

unfoldable pub allocate : ℤ → List ℤ → Result (List ℤ)
unfolding allocate_by any_negative
allocate total [] = if is_zero total then ok [] else err range_error
allocate total (w ∷ ws) = do
  throw_if (any_negative (w ∷ ws)) range_error
  let sum = sum_ℤ (w ∷ ws)
  if is_zero sum
      then allocate_by total (map (λ _. pos 1) (w ∷ ws)) (pos (length (w ∷ ws)))
      else allocate_by total (w ∷ ws) sum
