-- ===== src/Tests/Rates.antt =====
-- Rates at concrete inputs: a person's own rates, set over the organization's.
use workloom.Base.{◌≡◌, refl, true, false, none, some, Option, [], ◌∷◌, String, default_ok}
use workloom.Base.Int.{pos}
use workloom.Rates.{
  RateLevel, RateSource, member, hourly, RateTables, resolve_rates, apply_fixed_fee, find_rate,
  delete_rate, upsert_rate, rate_set, find_project_member, snapshot_rates, project_member_fixed,
}
use workloom.Rates.Lookup.{amounts, same_key, find_rate-rate_set, snapshot_rates-rate_set}

engine : Unit {0}
unfolding resolve_rates apply_fixed_fee find_rate delete_rate upsert_rate rate_set
    find_project_member snapshot_rates
engine = tt

abbrev house : RateTables
house = record {
  defaults =
      record {
        user = none;
        currency = "EUR";
        level = record { billable = some (pos 9000); cost = some (pos 4000) };
      }
      ∷ [];
  project_members =
      record {
        project = "site";
        user = "ann";
        level = record { billable = some (pos 12000); cost = none };
        fixed_fee = some (pos 50000);
      }
      ∷ record {
        project = "site";
        user = "bob";
        level = record { billable = none; cost = none };
        fixed_fee = none;
      }
      ∷ [];
  members = "ann" ∷ "bob" ∷ [];
}

abbrev bobs : RateLevel
bobs = record { billable = some (pos 10000); cost = some (pos 5000) }

abbrev bob_set : RateTables
bob_set = default_ok house (rate_set true (some "bob") "EUR" bobs house)

-- The fee of a project stands for the cost of a person's hours there.
runs : snapshot_rates "site" "EUR" "ann" house ≡ record {
  billable = some (pos 12000);
  billable_source = some RateSource.project_member;
  cost = some (pos 0);
  cost_source = some project_member_fixed;
}
unfolding engine
runs = refl

find_rate-rate_set_example :
    (amounts (find_rate (some "bob") "EUR" bob_set.defaults) ≡ (some (pos 10000), some (pos 5000)))
    × ((user : Option String) (currency : String)
        → same_key (some "bob") "EUR" user currency ≡ false
        → find_rate user currency bob_set.defaults ≡ find_rate user currency house.defaults)
unfolding engine
find_rate-rate_set_example = find_rate-rate_set true (some "bob") "EUR" bobs house bob_set refl

snapshot_rates-rate_set_example : snapshot_rates "site" "EUR" "bob" bob_set ≡ record {
  billable = some (pos 10000);
  billable_source = some member;
  cost = some (pos 5000);
  cost_source = some (hourly member);
}
unfolding engine
snapshot_rates-rate_set_example =
    snapshot_rates-rate_set true "site" "EUR" "bob" (pos 10000) (pos 5000) house bob_set refl refl
      refl refl
