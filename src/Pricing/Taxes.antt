-- ===== src/Pricing/Taxes.antt =====
-- The loop over the taxes: the lines' shares of each tax sum to that tax, and no call fails for
-- want of a way to split it.
use workloom.Base.{
  ℕ, ◌≤◌, ◌<◌, ◌≡◌, ap, sym, ◌∙◌, Bool, List, [], ◌∷◌, ◌++◌, map, length, length-map, get_or, arith,
  ok, ok_inj, on_ok,
}
use workloom.Base.Int.{ℤ, pos, ◌+ℤ◌, sum_ℤ, int_laws}
use workloom.Money.{round_div, to_safe_number}
use workloom.Money.Apportion.{apportion}
use workloom.Money.Apportion.Totals.{sum-apportion, length-apportion}
use workloom.Pricing.{Priced, TaxTotal, to_safe}
use workloom.Pricing.Document.{Group, TaxState, tax_group, tax_groups, taxable_of, scatter}
use workloom.Pricing.Grouping.{occurs}
use workloom.Pricing.Scatter.{IsFresh, length-scatter, get_or-scatter_ne, sum-scatter}

-- A value that passes `toSafe` is handed on unchanged.
pub to_safe-eq : (v w : ℤ) → to_safe v ≡ ok w → w ≡ v
unfolding to_safe to_safe_number
to_safe-eq v w h = ground arith

abbrev pub tax_sum : List TaxTotal → ℤ
tax_sum ts = sum_ℤ (map (λ t. t.tax) ts)

tax_sum-append : (ts : List TaxTotal) (t : TaxTotal) → tax_sum (ts ++ t ∷ []) ≡ tax_sum ts +ℤ t.tax
tax_sum-append [] t = omega int_laws
tax_sum-append (u ∷ ts) t = rw (tax_sum-append ts t) (omega int_laws)

-- What one round of the loop has done.
record Round (incl : Bool) (priced : List Priced) (taxable : List ℤ) (g : Group) (s s' : TaxState)
    : Type 0 where
  tax : ℤ
  parts : List ℤ
  parts_sum : sum_ℤ parts ≡ tax
  parts_match : length parts ≡ length g.members
  line_tax_is : s'.line_tax ≡ scatter g.members parts s.line_tax
  taxes_are : tax_sum s'.taxes ≡ tax_sum s.taxes +ℤ tax
  total_is : s'.tax_total ≡ s.tax_total +ℤ tax

tax_group-Round :
    (incl : Bool) (priced : List Priced) (taxable : List ℤ) (g : Group) (s s' : TaxState)
    → tax_group incl priced taxable g s ≡ ok s'
    → Round incl priced taxable g s s'
unfolding tax_group
tax_group-Round incl priced taxable g s s' h = on_ok (round_div _ _) _ h λ tax e₁ h₁.
    on_ok (apportion tax _ _) _ h₁ λ parts e₂ h₂. on_ok (to_safe _) _ h₂ λ amount e₃ h₃.
      on_ok (to_safe tax) _ h₃ λ safe_tax e₄ h₄. record {
        tax = tax;
        parts = parts;
        parts_sum = sum-apportion tax _ _ e₂;
        parts_match =
            length-apportion tax _ _ e₂
            ∙ length-map (taxable_of taxable g.members) _
            ∙ length-map g.members _;
        line_tax_is = ap (λ (t : TaxState). t.line_tax) (sym (ok_inj h₄));
        taxes_are =
            ap (λ (t : TaxState). tax_sum t.taxes) (sym (ok_inj h₄))
            ∙ tax_sum-append s.taxes _
            ∙ ap (λ t. tax_sum s.taxes +ℤ t) (to_safe-eq tax safe_tax e₄);
        total_is = ap (λ (t : TaxState). t.tax_total) (sym (ok_inj h₄));
      }

-- Before a round: the lines of the groups to come have no tax yet, and the rest sums up.
pub record IsPending (n : ℕ) (gs : List Group) (s : TaxState) : Type 0 where
  pub size : length s.line_tax ≡ n
  pub once : (j : ℕ) → occurs j gs ≤ 1
  pub in_range : (j : ℕ) → 1 ≤ occurs j gs → j < n
  pub unset : (j : ℕ) → 1 ≤ occurs j gs → get_or s.line_tax j (pos 0) ≡ pos 0
  pub lines_sum : sum_ℤ s.line_tax ≡ s.tax_total
  pub taxes_sum : tax_sum s.taxes ≡ s.tax_total

Round-IsPending :
    (incl : Bool) (priced : List Priced) (taxable : List ℤ) (n : ℕ) (g : Group) (gs : List Group)
    (s s' : TaxState)
    → Round incl priced taxable g s s'
    → IsPending n (g ∷ gs) s
    → IsPending n gs s'
Round-IsPending incl priced taxable n g gs s s' r v = record {
  size = rw r.line_tax_is (length-scatter g.members r.parts s.line_tax ∙ v.size);
  once = λ j. omega (arith, v.once j);
  in_range = λ j k. v.in_range j (omega arith);
  unset = λ j k. rw r.line_tax_is (
      get_or-scatter_ne g.members r.parts s.line_tax j (omega (arith, v.once j))
      ∙ v.unset j (omega arith));
  lines_sum = rw (
    r.line_tax_is,
    r.total_is,
    sum-scatter g.members r.parts s.line_tax fresh r.parts_match,
    r.parts_sum,
    v.lines_sum,
  );
  taxes_sum = rw (r.taxes_are, r.total_is, v.taxes_sum);
}
  where
    fresh : IsFresh g.members s.line_tax
    fresh = record {
      once = λ j. omega (arith, v.once j);
      in_range = λ j k. rw v.size (v.in_range j (omega arith));
      unset = λ j k. v.unset j (omega arith);
    }

-- At the end of the loop every line's tax is in the total, as is every tax.
pub tax_groups-IsPending :
    (incl : Bool) (priced : List Priced) (taxable : List ℤ) (n : ℕ) (gs : List Group)
    (s s' : TaxState)
    → tax_groups incl priced taxable gs s ≡ ok s'
    → IsPending n gs s
    → IsPending n [] s'
unfolding tax_groups
tax_groups-IsPending incl priced taxable n [] s s' h v = rw (← ok_inj h) v
tax_groups-IsPending incl priced taxable n (g ∷ gs) s s' h v =
    on_ok (tax_group incl priced taxable g s) _ h λ s₁ e h'.
      tax_groups-IsPending incl priced taxable n gs s₁ s' h' (
        Round-IsPending incl priced taxable n g gs s s₁
          (tax_group-Round incl priced taxable g s s₁ e) v)
