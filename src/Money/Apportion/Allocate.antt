-- ===== src/Money/Apportion/Allocate.antt =====
-- `allocate` splits any total over non-negative weights, and the parts sum to it.
use workloom.Base.{
  ℕ, zero, suc, ◌+◌, ◌*◌, ◌<◌, ◌≡◌, ◌≢◌, refl, ◌∙◌, false, if◌then◌else◌, List, [], ◌∷◌, map,
  length, length-map, Result, ok, arith,
}
use workloom.Base.Int.{
  ℤ, pos, negsuc, ◌*ℤ◌, neg_ℤ, is_zero, sum_ℤ, int_laws, *ℤ_parts, *ℤ_distrib_left, neg_ℤ-pos,
  abs_ℤ_parts, *ℤ-pos, *ℤ-negsuc,
}
use workloom.Money.Round.{IsRounded}
use workloom.Money.Apportion.{apportion, allocate, allocate_by, any_negative}
use workloom.Money.Apportion.Totals.{length-apportion, sum-apportion}
use workloom.Money.Apportion.Success.{apportion-IsRounded}

-- An exact multiple rounds to its factor.
IsRounded-exact : (t : ℤ) (d : ℕ) → 0 < d → IsRounded (t *ℤ pos d) d t
IsRounded-exact (pos zero) d h = rw (*ℤ-pos 0 d) (omega arith)
IsRounded-exact (pos (suc a)) d h = rw (*ℤ-pos (suc a) d) (omega arith)
IsRounded-exact (negsuc a) d h =
    rw (*ℤ-negsuc a d) (omega (arith, neg_ℤ-pos (suc a * d), abs_ℤ_parts (neg_ℤ (pos (suc a * d)))))

sum-scaled : (t : ℤ) (ws : List ℤ) → sum_ℤ (map (λ w. t *ℤ w) ws) ≡ t *ℤ sum_ℤ ws
sum-scaled t [] = omega (int_laws, *ℤ_parts t (pos 0))
sum-scaled t (w ∷ ws) = rw (sum-scaled t ws) (*ℤ_distrib_left t w (sum_ℤ ws))

sum-neg : (xs : List ℤ) → sum_ℤ (map neg_ℤ xs) ≡ neg_ℤ (sum_ℤ xs)
sum-neg [] = omega int_laws
sum-neg (x ∷ xs) = rw (sum-neg xs) (omega int_laws)

-- `parts` splits `total` over as many parts as there are weights.
pub record IsSplit (total : ℤ) (ws : List ℤ) (r : Result (List ℤ)) : Type 0 where
  pub parts : List ℤ
  pub returned : r ≡ ok parts
  pub sums : sum_ℤ parts ≡ total
  pub matches : length parts ≡ length ws

-- The split of a total by weights that sum to the denominator.
apportion-IsSplit :
    (t : ℤ) (ws : List ℤ) (d : ℕ)
    → 0 < d
    → sum_ℤ ws ≡ pos d
    → IsSplit t ws (apportion t (map (λ w. t *ℤ w) ws) (pos d))
apportion-IsSplit t ws d h e =
    let (parts, returned) =
      apportion-IsRounded t (map (λ w. t *ℤ w) ws) d h
        (rw (sum-scaled t ws, e) (IsRounded-exact t d h)) in
    record {
      parts = parts;
      returned = returned;
      sums = sum-apportion t (map (λ w. t *ℤ w) ws) (pos d) returned;
      matches =
          length-apportion t (map (λ w. t *ℤ w) ws) (pos d) returned ∙ length-map ws (λ w. t *ℤ w);
    }

allocate_by-IsSplit :
    (t : ℤ) (ws : List ℤ) (d : ℕ)
    → 0 < d
    → sum_ℤ ws ≡ pos d
    → IsSplit t ws (allocate_by t ws (pos d))
unfolding allocate_by
allocate_by-IsSplit (pos a) ws d h e = apportion-IsSplit (pos a) ws d h e
allocate_by-IsSplit (negsuc a) ws d h e =
    let s = apportion-IsSplit (neg_ℤ (negsuc a)) ws d h e in
    record {
      parts = map neg_ℤ s.parts;
      returned = rw s.returned;
      sums = rw (sum-neg s.parts, s.sums) (omega int_laws);
      matches = length-map s.parts neg_ℤ ∙ s.matches;
    }

sum-nonneg : (ws : List ℤ) → any_negative ws ≡ false → (n : ℕ) × (sum_ℤ ws ≡ pos n)
unfolding any_negative
sum-nonneg [] h = (0, refl)
sum-nonneg (pos a ∷ ws) h = let (n, e) = sum-nonneg ws h in (a + n, rw e (omega int_laws))
sum-nonneg (negsuc a ∷ ws) h = cc

sum-ones : (ws : List ℤ) → sum_ℤ (map (λ _. pos 1) ws) ≡ pos (length ws)
sum-ones [] = refl
sum-ones (w ∷ ws) = rw (sum-ones ws) (omega int_laws)

-- Any total is split over at least one weight, none of them negative.
pub allocate-IsSplit :
    (total : ℤ) (ws : List ℤ)
    → ws ≢ []
    → any_negative ws ≡ false
    → IsSplit total ws (allocate total ws)
unfolding allocate
allocate-IsSplit total [] some_weight h = absurd (some_weight refl)
allocate-IsSplit total (w ∷ ws) some_weight h =
    let (n, e) = sum-nonneg (w ∷ ws) h in rw (h, e) (by_sum n e)
  where
    ones : List ℤ → List ℤ
    ones = map (λ _. pos 1)

    even : IsSplit total (ones (w ∷ ws)) (allocate_by total (ones (w ∷ ws)) (pos (length (w ∷ ws))))
    even =
        allocate_by-IsSplit total (ones (w ∷ ws)) (length (w ∷ ws)) (omega arith)
          (sum-ones (w ∷ ws))

    by_sum :
        (n : ℕ)
        → sum_ℤ (w ∷ ws) ≡ pos n
        → IsSplit total (w ∷ ws) (
            if is_zero (pos n)
            then allocate_by total (ones (w ∷ ws)) (pos (length (w ∷ ws)))
            else allocate_by total (w ∷ ws) (pos n))
    by_sum zero e = record {
      parts = even.parts;
      returned = even.returned;
      sums = even.sums;
      matches = even.matches ∙ length-map (w ∷ ws) (λ _. pos 1);
    }
    by_sum (suc n) e = allocate_by-IsSplit total (w ∷ ws) (suc n) (omega arith) e
