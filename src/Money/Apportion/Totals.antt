-- ===== src/Money/Apportion/Totals.antt =====
-- What `apportion` and `allocate` return: parts that sum to the total, each within one unit of
-- its exact share, and when they return at all.
use workloom.Base.{
  ℕ, ◌≤◌, ◌≡◌, ◌∙◌, false, ◌||◌, List, length, length-map, get_or, ok, throw_if-eq-ok, range_error,
  arith,
}
use workloom.Base.Int.{
  ℤ, pos, negsuc, ◌+ℤ◌, ◌-ℤ◌, pos_part, neg_part, ◌≤ℤ◌, ltb_ℤ, leb_ℤ, is_negative, sum_ℤ, int_laws,
}
use workloom.Money.{floor_div}
use workloom.Money.Apportion.{entries, sort, give_out, floors, apportion}
use workloom.Money.Apportion.Order.{
  count-sort, length-sort, length-entries, count-entries, sort-AllBelow, entries-AllBelow,
}
use workloom.Money.Apportion.Shares.{length-give_out, sum-give_out, give_out_bounds}

-- A successful call, opened: its two guards have passed.
pub record Split (total : ℤ) (ns : List ℤ) (d : ℤ) (parts : List ℤ) : Type 0 where
  pub positive : leb_ℤ d (pos 0) ≡ false
  pub in_range :
      (is_negative (total -ℤ sum_ℤ (floors d ns))
        || ltb_ℤ (pos (length ns)) (total -ℤ sum_ℤ (floors d ns)))
      ≡ false
  pub given :
      parts
      ≡ give_out (floors d ns) (sort (entries d 0 ns)) (pos_part (total -ℤ sum_ℤ (floors d ns)))

apportion-Split :
    (total : ℤ) (ns : List ℤ) (d : ℤ) (parts : List ℤ)
    → apportion total ns d ≡ ok parts
    → Split total ns d parts
unfolding apportion
apportion-Split total ns d parts h =
    let (p, h') = throw_if-eq-ok (leb_ℤ d (pos 0)) range_error _ h in
    let (q, h'') = throw_if-eq-ok _ range_error _ h' in
    record { positive = p; in_range = q; given = cc }

-- The second guard leaves a number of units that the order has entries for.
spare_range :
    (s : ℤ) (n : ℕ)
    → (is_negative s || ltb_ℤ (pos n) s) ≡ false
    → (neg_part s ≡ 0) × (pos_part s ≤ n)
spare_range (pos k) n h = ground arith
spare_range (negsuc k) n h = cc

module _ (total : ℤ) (ns : List ℤ) (d : ℤ) {parts : List ℤ}
    (h : apportion total ns d ≡ ok parts) where
  abbrev spare : ℤ
  spare = total -ℤ sum_ℤ (floors d ns)

  length-floors : length (floors d ns) ≡ length ns
  length-floors = length-map ns (λ n. floor_div n d)

  spare_fits : (neg_part spare ≡ 0) × (pos_part spare ≤ length ns)
  spare_fits = spare_range spare (length ns) (apportion-Split total ns d parts h).in_range

  -- There is a part for each numerator.
  pub length-apportion : length parts ≡ length ns
  length-apportion =
      rw (apportion-Split total ns d parts h).given
        (length-give_out (floors d ns) (sort (entries d 0 ns)) (pos_part spare) ∙ length-floors)

  -- The parts sum to the total.
  pub sum-apportion : sum_ℤ parts ≡ total
  sum-apportion =
      rw
        (
          (apportion-Split total ns d parts h).given,
          sum-give_out (floors d ns) (sort (entries d 0 ns)) (pos_part spare)
              (sort-AllBelow _ (entries d 0 ns)
                (entries-AllBelow d 0 _ ns (omega (arith, length-floors))))
              (omega (arith, spare_fits, length-sort (entries d 0 ns), length-entries d 0 ns)),
        )
        (omega (int_laws, spare_fits))

  -- Each part is the floor of its exact share, or one unit more.
  pub apportion_bounds :
      (j : ℕ)
      → (get_or (floors d ns) j (pos 0) ≤ℤ get_or parts j (pos 0))
        × (get_or parts j (pos 0) ≤ℤ get_or (floors d ns) j (pos 0) +ℤ pos 1)
  apportion_bounds j = rw (apportion-Split total ns d parts h).given (
      omega (
        int_laws,
        give_out_bounds (floors d ns) (sort (entries d 0 ns)) (pos_part spare) j,
        count-sort j (entries d 0 ns),
        count-entries d 0 j ns,
      ))
