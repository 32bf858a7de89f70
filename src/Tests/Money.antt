-- ===== src/Tests/Money.antt =====
-- The money engine at concrete amounts.
use workloom.Base.{◌≡◌, refl, none, List, [], ◌∷◌, ok, arith, get_or}
use workloom.Base.Int.{ℤ, pos, negsuc, neg_ℤ, ◌*ℤ◌, ◌-ℤ◌, ◌+ℤ◌, ◌≤ℤ◌, sum_ℤ}
use workloom.Money.{
  quot, rem, floor_div, round_div, round_pos, round_magnitude, parse_percent, percentage,
  multiply_by_rational,
}
use workloom.Money.Decimal.{parse_decimal, format_decimal}
use workloom.Money.Round.{IsRounded, Rounds, IsFloor, round_div-Rounds, floor_div-IsFloor}
use workloom.Money.Percent.{percentage_range}
use workloom.Money.Apportion.{
  allocate, allocate_by, any_negative, apportion, floors, sort, entries, give_out,
}
use workloom.Money.Apportion.Totals.{sum-apportion, apportion_bounds}
use workloom.Money.Apportion.Success.{apportion-IsRounded}
use workloom.Money.Apportion.Allocate.{IsSplit, allocate-IsSplit}

engine : Unit {0}
unfolding round_div round_pos round_magnitude ◌*ℤ◌ ◌-ℤ◌ ◌+ℤ◌ allocate allocate_by any_negative
    apportion floor_div quot rem sort entries give_out neg_ℤ parse_percent parse_decimal
    format_decimal percentage multiply_by_rational
engine = tt

runs :
    (round_div (negsuc 4) (pos 2) ≡ ok (negsuc 2))
    × (floor_div (negsuc 4) (pos 2) ≡ negsuc 2)
    × (parse_decimal (b' ' ∷ b'-' ∷ b'0' ∷ b'7' ∷ b'.' ∷ b'5' ∷ []) 4 none ≡ ok (negsuc 74999))
    × (format_decimal (negsuc 74999) 4 ≡ b'-' ∷ b'7' ∷ b'.' ∷ b'5' ∷ [])
    × (allocate (negsuc 99) (pos 1 ∷ pos 1 ∷ pos 1 ∷ [])
        ≡ ok (negsuc 33 ∷ negsuc 32 ∷ negsuc 32 ∷ []))
unfolding engine
runs = (refl, refl, refl, refl, refl)

-- 10 over the exact shares 7/2, 7/2 and 3.
abbrev shares : List ℤ
shares = pos 7 ∷ pos 7 ∷ pos 6 ∷ []

abbrev parts : List ℤ
parts = pos 4 ∷ pos 3 ∷ pos 3 ∷ []

apportion-shares : apportion (pos 10) shares (pos 2) ≡ ok parts
unfolding engine
apportion-shares = refl

round_div-Rounds_example : Rounds (negsuc 4) (pos 2) (round_div (negsuc 4) (pos 2))
round_div-Rounds_example = round_div-Rounds (negsuc 4) (pos 2)

floor_div-IsFloor_example : IsFloor (negsuc 4) 2 (floor_div (negsuc 4) (pos 2))
floor_div-IsFloor_example = floor_div-IsFloor (negsuc 4) 2 (omega arith)

sum-apportion_example : sum_ℤ parts ≡ pos 10
sum-apportion_example = sum-apportion (pos 10) shares (pos 2) apportion-shares

apportion_bounds_example :
    (get_or (floors (pos 2) shares) 0 (pos 0) ≤ℤ get_or parts 0 (pos 0))
    × (get_or parts 0 (pos 0) ≤ℤ get_or (floors (pos 2) shares) 0 (pos 0) +ℤ pos 1)
apportion_bounds_example = apportion_bounds (pos 10) shares (pos 2) apportion-shares 0

sum-shares : IsRounded (sum_ℤ shares) 2 (pos 10)
unfolding ◌+ℤ◌
sum-shares = omega arith

apportion-IsRounded_example : (ps : List ℤ) × (apportion (pos 10) shares (pos 2) ≡ ok ps)
apportion-IsRounded_example = apportion-IsRounded (pos 10) shares 2 (omega arith) sum-shares

allocate-IsSplit_example : IsSplit (negsuc 99) shares (allocate (negsuc 99) shares)
allocate-IsSplit_example =
    allocate-IsSplit (negsuc 99) shares (λ e. cc) (unfold any_negative in refl)

percentage_range_example : (pos 0 ≤ℤ pos 10) × (pos 10 ≤ℤ pos 99)
percentage_range_example =
    percentage_range (pos 99) (b'1' ∷ b'0' ∷ []) (pos 10) (omega arith) (unfold engine in refl)
