-- ===== src/Money/Round.antt =====
-- What `roundDiv` and `floorDiv` compute.
use workloom.Base.{
  ℕ, zero, suc, ◌+◌, ◌*◌, ◌/◌, ◌%◌, ◌≤◌, ◌<◌, zero, suc, ◌≡◌, refl, Result, ok, err, range_error,
  arith, ap, leb, leb→le, Bool-cases, inl, inr, true, false, if◌then◌else◌,
}
use workloom.Base.Int.{
  ℤ, pos, negsuc, ◌-ℤ◌, is_zero, neg_ℤ, abs_ℤ, pos_part, neg_part, ◌≤ℤ◌, neg_ℤ_parts, -ℤ_parts,
}
use workloom.Money.{round_magnitude, quot, rem, round_pos, round_div, floor_div}
use mathlib.Core.Bool.{not, ◌&&◌}
use native.Mathlib.Nat.{div-add-mod, mod-lt}

-- `r` is `n / d` rounded to the nearest unit, halves away from zero.
pub record IsRounded (n : ℤ) (d : ℕ) (r : ℤ) : Type 0 where
  pub not_over : 2 * (abs_ℤ r * d) ≤ 2 * abs_ℤ n + d
  pub not_under : 2 * abs_ℤ n < 2 * (abs_ℤ r * d) + d
  pub nonneg : pos 0 ≤ℤ n → pos 0 ≤ℤ r
  pub nonpos : n ≤ℤ pos 0 → r ≤ℤ pos 0

round_magnitude_bounds :
    (a d : ℕ)
    → 0 < d
    → (2 * (round_magnitude a d * d) ≤ 2 * a + d) × (2 * a < 2 * (round_magnitude a d * d) + d)
unfolding round_magnitude
round_magnitude_bounds a d h = elim (Bool-cases (leb d (2 * (a % d)))) [
  | inl up ↦ rw up (omega (arith, div-add-mod a d, mod-lt a h, leb→le d (2 * (a % d)) up))
  | inr down ↦ rw down (omega (arith, div-add-mod a d, mod-lt a h, not_leb d (2 * (a % d)) down))
]
  where
    not_leb : (x y : ℕ) → leb x y ≡ false → y < x
    not_leb x y e = ground arith

small_quotient : (m d : ℕ) → 0 < d → 2 * (m * d) ≤ d → m ≡ 0
small_quotient zero d h le = refl
small_quotient (suc m) d h le = absurd (grind arith)

round_pos-pos : (a d : ℕ) → round_pos (pos a) d ≡ pos (round_magnitude a d)
unfolding round_pos
round_pos-pos a d = refl

round_pos-negsuc : (a d : ℕ) → round_pos (negsuc a) d ≡ neg_ℤ (pos (round_magnitude (suc a) d))
unfolding round_pos
round_pos-negsuc a d = refl

abs-neg : (m : ℕ) → abs_ℤ (neg_ℤ (pos m)) ≡ m
unfolding neg_ℤ
abs-neg m = ground arith

-- `round_pos` rounds to the nearest, halves away from zero.
pub round_pos-IsRounded : (n : ℤ) (d : ℕ) → 0 < d → IsRounded n d (round_pos n d)
round_pos-IsRounded (pos a) d h = rw (round_pos-pos a d) (record {
  not_over = (round_magnitude_bounds a d h).0;
  not_under = (round_magnitude_bounds a d h).1;
  nonneg = λ n. omega arith;
  nonpos = λ n. omega (
    arith,
    small_quotient (round_magnitude a d) d h (omega (arith, (round_magnitude_bounds a d h).0)),
  );
})
round_pos-IsRounded (negsuc a) d h = rw (round_pos-negsuc a d) (record {
  not_over = rw (abs-neg (round_magnitude (suc a) d)) (round_magnitude_bounds (suc a) d h).0;
  not_under = rw (abs-neg (round_magnitude (suc a) d)) (round_magnitude_bounds (suc a) d h).1;
  nonneg = λ n. absurd (omega arith);
  nonpos = λ n. omega (arith, neg_ℤ_parts (pos (round_magnitude (suc a) d)));
})

-- `f` is the floor of `n / d`.
pub record IsFloor (n : ℤ) (d : ℕ) (f : ℤ) : Type 0 where
  pub below : pos_part f * d + neg_part n ≤ neg_part f * d + pos_part n
  pub above : neg_part f * d + pos_part n < pos_part f * d + neg_part n + d

floor_div-pos : (a d : ℕ) → floor_div (pos a) (pos d) ≡ pos (a / d)
unfolding floor_div quot rem
floor_div-pos a d = elim (Bool-cases (is_zero (pos (a % d)))) [ inl e ↦ rw e | inr e ↦ rw e ]

is_zero-neg : (m : ℕ) → is_zero (neg_ℤ (pos (suc m))) ≡ false
unfolding neg_ℤ
is_zero-neg m = ground arith

-- The two endings of `floorDiv` at -(a + 1), with its quotient and remainder as variables.
floored :
    (a q m d : ℕ)
    → d * q + m ≡ suc a
    → m < d
    → IsFloor
        (negsuc a)
        d
        (if not (is_zero (neg_ℤ (pos m))) && true then neg_ℤ (pos q) -ℤ pos 1 else neg_ℤ (pos q))
floored a q zero d e h =
    unfold neg_ℤ in omega (arith, e, ap (λ (t : ℕ). t * d) (neg_ℤ_parts (pos q)))
floored a q (suc m) d e h = rw (is_zero-neg m) (
    omega (
      arith,
      e,
      ap (λ (t : ℕ). t * d) (neg_ℤ_parts (pos q)),
      ap (λ (t : ℕ). t * d) (-ℤ_parts (neg_ℤ (pos q)) (pos 1)),
    ))

floor_div-negsuc : (a d : ℕ) → 0 < d → IsFloor (negsuc a) d (floor_div (negsuc a) (pos d))
unfolding floor_div quot rem
floor_div-negsuc a zero h = absurd (omega arith)
floor_div-negsuc a (suc d) h =
    floored a (suc a / suc d) (suc a % suc d) (suc d) (div-add-mod (suc a) (suc d))
      (mod-lt (suc a) h)

pub floor_div-IsFloor : (n : ℤ) (d : ℕ) → 0 < d → IsFloor n d (floor_div n (pos d))
floor_div-IsFloor (pos a) d h = rw (floor_div-pos a d) (omega (arith, div-add-mod a d, mod-lt a h))
floor_div-IsFloor (negsuc a) d h = floor_div-negsuc a d h

-- What `roundDiv` must return: an error at zero, and else the rounded quotient; for a negative
-- denominator, that of the two magnitudes with the signs changed.
abbrev pub Rounds : ℤ → ℤ → Result ℤ → Type 0
Rounds n (pos zero) r = r ≡ err range_error
Rounds n (pos (suc d)) r = (v : ℤ) × (r ≡ ok v) × IsRounded n (suc d) v
Rounds n (negsuc d) r = (v : ℤ) × (r ≡ ok v) × IsRounded (neg_ℤ n) (suc d) v

-- `round_div` fails exactly at a zero denominator, and otherwise returns the quotient rounded to
-- the nearest unit, halves away from zero, with the sign of the exact quotient.
pub round_div-Rounds : (n d : ℤ) → Rounds n d (round_div n d)
unfolding round_div
round_div-Rounds n (pos zero) = refl
round_div-Rounds n (pos (suc d)) =
    (round_pos n (suc d), refl, round_pos-IsRounded n (suc d) (omega arith))
round_div-Rounds n (negsuc d) =
    (round_pos (neg_ℤ n) (suc d), refl, round_pos-IsRounded (neg_ℤ n) (suc d) (omega arith))
