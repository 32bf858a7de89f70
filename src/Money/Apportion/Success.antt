-- ===== src/Money/Apportion/Success.antt =====
-- When `apportion` returns: for a total that is the rounded sum of the exact shares.
use workloom.Base.{
  ℕ, zero, suc, ◌+◌, ◌*◌, ◌≤◌, ◌<◌, ◌≡◌, ap, false, ◌||◌, List, [], ◌∷◌, length, ok, arith,
}
use workloom.Base.Int.{
  ℤ, pos, negsuc, ◌+ℤ◌, ◌-ℤ◌, pos_part, neg_part, ◌≤ℤ◌, ltb_ℤ, leb_ℤ, is_negative, sum_ℤ, int_laws,
  +ℤ_parts,
}
use native.Mathlib.Decide.{dec_lt}
use workloom.Money.{floor_div}
use workloom.Money.Round.{IsRounded, floor_div-IsFloor}
use workloom.Money.Apportion.{entries, sort, give_out, floors, apportion}

-- `r` is within half a unit of `n / d`, with signs.
record IsNear (n : ℤ) (d : ℕ) (r : ℤ) : Type 0 where
  not_over : 2 * (pos_part r * d + neg_part n) ≤ 2 * (neg_part r * d + pos_part n) + d
  not_under : 2 * (neg_part r * d + pos_part n) ≤ 2 * (pos_part r * d + neg_part n) + d

IsRounded-IsNear : (n : ℤ) (d : ℕ) (r : ℤ) → IsRounded n d r → IsNear n d r
IsRounded-IsNear (pos a) d (pos b) h = omega (arith, h.not_over, h.not_under)
IsRounded-IsNear (pos a) d (negsuc b) h = absurd (omega (arith, h.nonneg (omega arith)))
IsRounded-IsNear (negsuc a) d (pos zero) h = omega (arith, h.not_over, h.not_under)
IsRounded-IsNear (negsuc a) d (pos (suc b)) h = absurd (omega (arith, h.nonpos (omega arith)))
IsRounded-IsNear (negsuc a) d (negsuc b) h = omega (arith, h.not_over, h.not_under)

-- The floors sum to at most the exact sum, and to more than it less one unit a share.
record FloorsSum (ns : List ℤ) (d : ℕ) (f n : ℤ) : Type 0 where
  below : pos_part f * d + neg_part n ≤ neg_part f * d + pos_part n
  above : neg_part f * d + pos_part n ≤ pos_part f * d + neg_part n + length ns * d

floors-FloorsSum :
    (d : ℕ) (ns : List ℤ) → 0 < d → FloorsSum ns d (sum_ℤ (floors (pos d) ns)) (sum_ℤ ns)
floors-FloorsSum d [] h = omega arith
floors-FloorsSum d (n ∷ ns) h = omega (
  arith,
  floors-FloorsSum d ns h,
  floor_div-IsFloor n d h,
  +ℤ_parts n (sum_ℤ ns),
  ap (λ (t : ℕ). t * d) (+ℤ_parts (floor_div n (pos d)) (sum_ℤ (floors (pos d) ns))),
)

mul_mono : (x y d : ℕ) → x ≤ y → x * d ≤ y * d
mul_mono x y d h = grind arith

guard_passes :
    (s : ℤ) (n : ℕ) → pos 0 ≤ℤ s → s ≤ℤ pos n → (is_negative s || ltb_ℤ (pos n) s) ≡ false
guard_passes (pos k) n h h' = ground arith
guard_passes (negsuc k) n h h' = absurd (omega arith)

positive_passes : (d : ℕ) → 0 < d → leb_ℤ (pos d) (pos 0) ≡ false
positive_passes d h = ground arith

module _ (total : ℤ) (ns : List ℤ) (d : ℕ) (positive : 0 < d)
    (near : IsNear (sum_ℤ ns) d total) where
  abbrev floor_sum : ℤ
  floor_sum = sum_ℤ (floors (pos d) ns)

  spare_nonneg : floor_sum ≤ℤ total
  spare_nonneg =
      elim (dec_lt (pos_part total + neg_part floor_sum) (pos_part floor_sum + neg_part total)) [
        | yes p ↦ absurd (
            omega (
              arith,
              near,
              floors-FloorsSum d ns positive,
              mul_mono (suc (pos_part total + neg_part floor_sum))
                  (pos_part floor_sum + neg_part total) d p,
            ))
        | no p ↦ omega arith
      ]

  spare_le : total ≤ℤ pos (length ns) +ℤ floor_sum
  spare_le =
      elim (dec_lt (pos_part floor_sum + length ns + neg_part total)
        (pos_part total + neg_part floor_sum)) [
          | yes p ↦ absurd (
              omega (
                arith,
                near,
                floors-FloorsSum d ns positive,
                mul_mono (suc (pos_part floor_sum + length ns + neg_part total))
                    (pos_part total + neg_part floor_sum) d p,
              ))
          | no p ↦ omega int_laws
        ]

  apportion_near : (parts : List ℤ) × (apportion total ns (pos d) ≡ ok parts)
  unfolding apportion
  apportion_near = (
    give_out (floors (pos d) ns) (sort (entries (pos d) 0 ns)) (pos_part (total -ℤ floor_sum)),
    rw (
      positive_passes d positive,
      guard_passes (total -ℤ floor_sum) (length ns) (omega (int_laws, spare_nonneg))
          (omega (int_laws, spare_le)),
    ),
  )

-- With a positive denominator, a total that is the rounded sum of the exact shares is split.
pub apportion-IsRounded :
    (total : ℤ) (ns : List ℤ) (d : ℕ)
    → 0 < d
    → IsRounded (sum_ℤ ns) d total
    → (parts : List ℤ) × (apportion total ns (pos d) ≡ ok parts)
apportion-IsRounded total ns d h r =
    apportion_near total ns d h (IsRounded-IsNear (sum_ℤ ns) d total r)
