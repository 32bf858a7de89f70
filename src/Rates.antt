-- ===== src/Rates.antt =====
-- Hourly rates: `resolveRates` and `applyFixedFee` of packages/core/src/time/index.ts, and `rateSet`,
-- `memberName` and `snapshotRates` of packages/core/src/modules/time/rates.ts on the tables of
-- default rates and of a project's members.
pub mod Lookup
use workloom.Base.{
  ◌≡◌, Bool, true, false, not, ◌&&◌, ◌||◌, if◌then◌else◌, Option, none, some, List, [], ◌∷◌, ◌++◌,
  String, str_eq, Result, ok, err, ◌>>=◌, ◌>>◌, throw_if, domain_error, forbidden_error,
}
use workloom.Base.Int.{ℤ, pos, eqb_ℤ}
use workloom.Payments.Inputs.{same_option}

pub record RateLevel : Type 0 where
  pub billable : Option ℤ
  pub cost : Option ℤ

pub data RateSource : Type 0 where
  project_member member organization : RateSource

pub data CostRateSource : Type 0 where
  hourly : RateSource → CostRateSource
  project_member_fixed : CostRateSource

pub record RateSnapshot : Type 0 where
  pub billable : Option ℤ
  pub billable_source : Option RateSource
  pub cost : Option ℤ
  pub cost_source : Option CostRateSource

-- `levels[source]?.[field]`.
abbrev pub field_of : (RateLevel → Option ℤ) → Option RateLevel → Option ℤ
field_of field none = none
field_of field (some level) = field level

abbrev pub or_next : Option ℤ → RateSource → Option (ℤ × RateSource) → Option (ℤ × RateSource)
or_next none source next = next
or_next (some value) source next = some (value, source)

-- `pick`, over the three sources in their order.
abbrev pub pick :
    (RateLevel → Option ℤ)
    → Option RateLevel
    → Option RateLevel
    → Option RateLevel
    → Option (ℤ × RateSource)
pick field own default org =
    or_next (field_of field own) project_member
      (or_next (field_of field default) member (or_next (field_of field org) organization none))

abbrev pub value_of_pick : Option (ℤ × RateSource) → Option ℤ
value_of_pick none = none
value_of_pick (some p) = some p.0

abbrev pub source_of_pick : Option (ℤ × RateSource) → Option RateSource
source_of_pick none = none
source_of_pick (some p) = some p.1

abbrev pub cost_source_of : Option RateSource → Option CostRateSource
cost_source_of none = none
cost_source_of (some source) = some (hourly source)

unfoldable pub resolve_rates : Option RateLevel → Option RateLevel → Option RateLevel → RateSnapshot
resolve_rates own default org =
    let billable = pick (λ l. l.billable) own default org in
    let cost = pick (λ l. l.cost) own default org in
    record {
      billable = value_of_pick billable;
      billable_source = source_of_pick billable;
      cost = value_of_pick cost;
      cost_source = cost_source_of (source_of_pick cost);
    }

unfoldable pub apply_fixed_fee : RateSnapshot → Option ℤ → RateSnapshot
apply_fixed_fee snapshot none = snapshot
apply_fixed_fee snapshot (some fee) = record snapshot {
  cost = some (pos 0);
  cost_source = some project_member_fixed;
}

-- A row of the default rates: `user` none is the organization.
pub record DefaultRate : Type 0 where
  pub user : Option String
  pub currency : String
  pub level : RateLevel

pub record ProjectMember : Type 0 where
  pub project : String
  pub user : String
  pub level : RateLevel
  pub fixed_fee : Option ℤ

pub record RateTables : Type 0 where
  pub defaults : List DefaultRate
  pub project_members : List ProjectMember
  pub members : List String

abbrev pub is_rate_of : Option String → String → DefaultRate → Bool
is_rate_of user currency r = same_option r.user user && str_eq r.currency currency

unfoldable pub find_rate : Option String → String → List DefaultRate → Option RateLevel
find_rate user currency [] = none
find_rate user currency (r ∷ rs) =
    let rest = find_rate user currency rs in
    if is_rate_of user currency r then some r.level else rest

unfoldable pub delete_rate : Option String → String → List DefaultRate → List DefaultRate
delete_rate user currency [] = []
delete_rate user currency (r ∷ rs) =
    let rest = delete_rate user currency rs in if is_rate_of user currency r then rest else r ∷ rest

-- `insert … onConflictDoUpdate`.
unfoldable pub upsert_rate : DefaultRate → List DefaultRate → List DefaultRate
upsert_rate row [] = row ∷ []
upsert_rate row (r ∷ rs) =
    let rest = upsert_rate row rs in
    if is_rate_of row.user row.currency r then record r { level = row.level } ∷ rs else r ∷ rest

abbrev pub is_same_rate : Option ℤ → Option ℤ → Bool
is_same_rate none none = true
is_same_rate (some a) (some b) = eqb_ℤ a b
is_same_rate none (some b) = false
is_same_rate (some a) none = false

-- No field of the row, null where there is no row, is other than what is given.
abbrev pub is_unchanged : Option RateLevel → RateLevel → Bool
is_unchanged before level =
    is_same_rate (field_of (λ l. l.billable) before) level.billable
    && is_same_rate (field_of (λ l. l.cost) before) level.cost

abbrev pub is_unset : Option ℤ → Bool
is_unset none = true
is_unset (some a) = false

abbrev pub has_member : String → List String → Bool
has_member user [] = false
has_member user (m ∷ ms) = str_eq m user || has_member user ms

-- `memberName`, for the person whose rates they are.
abbrev pub check_member : Option String → RateTables → Result (Unit {0})
check_member none s = ok tt
check_member (some user) s = throw_if (not (has_member user s.members)) (domain_error "not_member")

abbrev pub written_rates : Option String → String → RateLevel → List DefaultRate → List DefaultRate
written_rates user currency level rows =
    if is_unchanged (find_rate user currency rows) level
    then rows
    else if is_unset level.billable && is_unset level.cost
    then delete_rate user currency rows
    else upsert_rate (record { user = user; currency = currency; level = level }) rows

-- `rateSet`, in a currency that has been settled on; `may_read` is whether the caller has
-- `report:readFinancial`.
unfoldable pub rate_set : Bool → Option String → String → RateLevel → RateTables → Result RateTables
rate_set may_read user currency level s = do
  throw_if (not may_read) (forbidden_error "report:readFinancial")
  checked ← check_member user s
  ok (record s { defaults = written_rates user currency level s.defaults })

unfoldable pub find_project_member : String → String → List ProjectMember → Option ProjectMember
find_project_member project user [] = none
find_project_member project user (m ∷ ms) =
    let rest = find_project_member project user ms in
    if str_eq m.project project && str_eq m.user user then some m else rest

abbrev pub level_of : Option ProjectMember → Option RateLevel
level_of none = none
level_of (some m) = some m.level

abbrev pub fee_of : Option ProjectMember → Option ℤ
fee_of none = none
fee_of (some m) = m.fixed_fee

unfoldable pub snapshot_rates : String → String → String → RateTables → RateSnapshot
snapshot_rates project currency user s =
    let own = find_project_member project user s.project_members in
    apply_fixed_fee
      (resolve_rates (level_of own) (find_rate (some user) currency s.defaults)
        (find_rate none currency s.defaults))
      (fee_of own)
