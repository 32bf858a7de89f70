-- ===== src/Tests/Work.antt =====
-- Projects and quotes at concrete inputs.
use workloom.Base.{◌≡◌, refl, none, some, List, [], ◌∷◌}
use workloom.Base.Int.{pos, negsuc, ◌+ℤ◌, ◌-ℤ◌}
use workloom.Projects.Contract.{
  ScopeRevision, contract_scope_lines, contracted_value, scope_sum, value_or_zero,
  accepted_revisions, scope_sum-contract_scope_lines,
}
use workloom.Quotes.{
  SplitLine, quote_split, split_lines, add_recurring, net_sum, recurring_net, AllParts,
  quote_split_conserves,
}

engine : Unit {0}
unfolding ◌+ℤ◌ ◌-ℤ◌ contract_scope_lines contracted_value accepted_revisions quote_split split_lines
    add_recurring
engine = tt

-- A draft revision, one that adds to the scope and an earlier one that reduces it.
abbrev revisions : List ScopeRevision
revisions =
    record { title = "Shop"; amount = pos 900; status = "sent"; number = 3 }
    ∷ record { title = "Search"; amount = pos 300; status = "accepted"; number = 2 }
    ∷ record { title = "No blog"; amount = negsuc 99; status = "accepted"; number = 1 }
    ∷ []

value-runs : contracted_value (some (pos 1000)) revisions ≡ some (pos 1200)
unfolding engine
value-runs = refl

scope_sum-contract_scope_lines_example :
    scope_sum (contract_scope_lines "Site" (some (pos 1000)) revisions none)
    ≡ value_or_zero (contracted_value (some (pos 1000)) revisions)
scope_sum-contract_scope_lines_example =
    scope_sum-contract_scope_lines "Site" (some (pos 1000)) revisions none

abbrev build : SplitLine
build = record {
  billing_type = some "one_time";
  interval_unit = none;
  interval_count = none;
  net = pos 800;
  document_discount = pos 80;
  total = pos 720;
}

abbrev care : SplitLine
care = record {
  billing_type = some "recurring";
  interval_unit = some "month";
  interval_count = some 1;
  net = pos 50;
  document_discount = pos 5;
  total = pos 45;
}

split-runs :
    ((quote_split (build ∷ care ∷ care ∷ [])).one_time_net ≡ pos 720)
    × (recurring_net (quote_split (build ∷ care ∷ care ∷ [])).recurring ≡ pos 90)
unfolding engine
split-runs = (refl, refl)

quote_split_conserves_example :
    ((quote_split (build ∷ care ∷ care ∷ [])).one_time_net
        +ℤ recurring_net (quote_split (build ∷ care ∷ care ∷ [])).recurring
      ≡ net_sum (build ∷ care ∷ care ∷ []))
    × AllParts (quote_split (build ∷ care ∷ care ∷ [])).recurring
quote_split_conserves_example = quote_split_conserves (build ∷ care ∷ care ∷ [])
