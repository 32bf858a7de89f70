-- ===== src/Pricing/Discounts.antt =====
-- The document discount and its shares.
use workloom.Base.{
  zero, on_guard, ◌⊎◌, on_discount, suc, ◌≡◌, refl, sym, ◌∙◌, false, not, ◌&&◌, Option, none, some,
  List, [], ◌∷◌, map, length, length-map, arith, Result, ok, ok_inj, on_ok, Bool-cases, inl, inr,
}
use workloom.Base.Int.{ℤ, pos, negsuc, ◌≤ℤ◌, leb_ℤ, ltb_ℤ, is_zero, is_zero-eq, sum_ℤ, int_laws}
use workloom.Money.{parse_percent, round_div}
use workloom.Money.Percent.{parse_percent_range, round_percent_range}
use workloom.Money.Apportion.{allocate, any_negative}
use workloom.Money.Apportion.Allocate.{IsSplit, allocate-IsSplit}
use workloom.Pricing.{Priced, DocumentDiscount, by_percent, by_amount, recast_ok, safe_integer}
use workloom.Pricing.Document.{
  document_discount, stated_discount, stated_amount_nonneg, discount_shares, nets, at_least_zero,
}

-- What the source accepts as a discount: nothing, or an amount that a positive subtotal covers.
abbrev pub IsDiscount : ℤ → ℤ → Type 0
IsDiscount subtotal discount =
    (discount ≡ pos 0) ⊎ ((pos 1 ≤ℤ subtotal) × (pos 0 ≤ℤ discount) × (discount ≤ℤ subtotal))

-- A stated discount on a subtotal above zero is not negative.
stated_nonneg :
    (d : DocumentDiscount) (subtotal discount : ℤ)
    → stated_discount d subtotal ≡ ok discount
    → pos 0 ≤ℤ subtotal
    → pos 0 ≤ℤ discount
unfolding stated_discount round_div
stated_nonneg (by_percent p) subtotal discount h k =
    on_ok (parse_percent p) _ (recast_ok (some on_discount) none (parse_percent p) _ h)
      λ rate parsed h'.
        let range = parse_percent_range p rate parsed in
        rw (← ok_inj h') (round_percent_range subtotal rate k range.0 range.1).0
stated_nonneg (by_amount n) subtotal discount h k = stated_amount_nonneg (safe_integer n) discount h

-- The two guards on a stated discount.
guarded :
    (subtotal discount : ℤ)
    → (not (is_zero discount) && leb_ℤ subtotal (pos 0)) ≡ false
    → ltb_ℤ subtotal discount ≡ false
    → (pos 0 ≤ℤ subtotal → pos 0 ≤ℤ discount)
    → IsDiscount subtotal discount
guarded subtotal (pos zero) h k nonneg = inl refl
guarded subtotal (pos (suc d)) h k nonneg = inr (ground arith, ground arith, ground arith)
guarded subtotal (negsuc d) h k nonneg = absurd (ground arith)

-- Whatever the input states, an accepted document discount is one.
pub document_discount-IsDiscount :
    (d : Option DocumentDiscount) (subtotal discount : ℤ)
    → document_discount d subtotal ≡ ok discount
    → IsDiscount subtotal discount
unfolding document_discount
document_discount-IsDiscount none subtotal discount h = inl (sym (ok_inj h))
document_discount-IsDiscount (some d) subtotal discount h =
    on_ok (stated_discount d subtotal) _ h λ stated e h₁.
      on_guard (not (is_zero stated) && leb_ℤ subtotal (pos 0)) _ _ h₁ λ p h₂.
        on_guard (ltb_ℤ subtotal stated) _ _ h₂
          λ q h₃. rw (← ok_inj h₃) (guarded subtotal stated p q (stated_nonneg d subtotal stated e))

any_negative-at_least_zero : (xs : List ℤ) → any_negative (map at_least_zero xs) ≡ false
unfolding any_negative
any_negative-at_least_zero [] = refl
any_negative-at_least_zero (pos n ∷ xs) = any_negative-at_least_zero xs
any_negative-at_least_zero (negsuc n ∷ xs) = any_negative-at_least_zero xs

pub sum-zeros {ℓ} : {A : Type ℓ} (xs : List A) → sum_ℤ (map (λ _. pos 0) xs) ≡ pos 0
sum-zeros [] = refl
sum-zeros (x ∷ xs) = rw (sum-zeros xs) (omega int_laws)

-- `shares` splits the discount over the lines.
pub record IsShared (discount : ℤ) (priced : List Priced) (r : Result (List ℤ)) : Type 0 where
  pub shares : List ℤ
  pub returned : r ≡ ok shares
  pub sums : sum_ℤ shares ≡ discount
  pub matches : length shares ≡ length priced

-- A document with lines shares any discount, and one without lines shares none.
pub discount_shares-IsShared :
    (discount : ℤ) (priced : List Priced)
    → (priced ≡ [] → discount ≡ pos 0)
    → IsShared discount priced (discount_shares discount priced)
unfolding discount_shares
discount_shares-IsShared discount [] empty =
    rw (empty refl) (record { shares = []; returned = refl; sums = refl; matches = refl })
discount_shares-IsShared discount (p ∷ ps) empty = elim (Bool-cases (is_zero discount)) [
  | inl e ↦ rw e (record {
    shares = map (λ _. pos 0) (p ∷ ps);
    returned = refl;
    sums = sum-zeros (p ∷ ps) ∙ sym (is_zero-eq discount e);
    matches = length-map (p ∷ ps) (λ _. pos 0);
  })
  | inr e ↦ rw e (record {
    shares = split.parts;
    returned = split.returned;
    sums = split.sums;
    matches =
        split.matches ∙ length-map (nets (p ∷ ps)) at_least_zero ∙ length-map (p ∷ ps) (λ q. q.net);
  })
]
  where
    split :
        IsSplit discount
          (map at_least_zero (nets (p ∷ ps)))
          (allocate discount (map at_least_zero (nets (p ∷ ps))))
    split =
        allocate-IsSplit discount (map at_least_zero (nets (p ∷ ps))) (λ e. cc)
          (any_negative-at_least_zero (nets (p ∷ ps)))
