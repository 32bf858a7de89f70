-- ===== src/Rates/Lookup.antt =====
-- What packages/core/src/modules/time/rates.ts reads of the rates that it has set.
use workloom.Base.{
  ◌≡◌, refl, ap, Bool, true, false, not, ◌&&◌, Option, none, some, List, [], ◌∷◌, String, str_eq,
  str_eq_iff, ok, on_ok, on_guard, ok_inj, Bool-cases, same_ℕ, inl, inr,
}
use workloom.Base.Int.{ℤ, eqb_ℤ, eq_of_parts}
use workloom.Payments.Inputs.{same_option}
use workloom.Payments.Sums.{str_eq_refl}
use workloom.Invoices.Settlement.{and_true}
use workloom.Rates.{
  RateLevel, member, hourly, field_of, resolve_rates, apply_fixed_fee, DefaultRate, RateTables,
  is_rate_of, level_of, fee_of, find_rate, delete_rate, upsert_rate, is_same_rate, is_unchanged,
  is_unset, check_member, written_rates, rate_set, find_project_member, snapshot_rates,
}

same_option_refl : (a : Option String) → same_option a a ≡ true
same_option_refl none = refl
same_option_refl (some a) = str_eq_refl a

same_option_sound : (a b : Option String) → same_option a b ≡ true → a ≡ b
same_option_sound none none h = refl
same_option_sound none (some b) h = absurd (cc)
same_option_sound (some a) none h = absurd (cc)
same_option_sound (some a) (some b) h = ap some ((str_eq_iff a b).0 h)

rate_of_refl : (r : DefaultRate) → is_rate_of r.user r.currency r ≡ true
rate_of_refl r = rw (same_option_refl r.user, str_eq_refl r.currency) refl

-- Another key than that of a row.
rate_of_other :
    (user user' : Option String) (currency currency' : String) (r : DefaultRate)
    → is_rate_of user currency r ≡ true
    → (same_option user user' && str_eq currency currency') ≡ false
    → is_rate_of user' currency' r ≡ false
rate_of_other user user' currency currency' r this other =
    let (same_user, same_currency) = and_true (same_option r.user user) _ this in
    rw (same_option_sound r.user user same_user, (str_eq_iff r.currency currency).0 same_currency)
      other

find_rate-upsert_rate :
    (row : DefaultRate) (rows : List DefaultRate)
    → find_rate row.user row.currency (upsert_rate row rows) ≡ some row.level
unfolding find_rate upsert_rate
find_rate-upsert_rate row [] = rw (rate_of_refl row) refl
find_rate-upsert_rate row (r ∷ rs) = elim (Bool-cases (is_rate_of row.user row.currency r)) [
  | inl this ↦ rw (this, this) refl
  | inr other ↦ rw (other, other) (find_rate-upsert_rate row rs)
]

find_rate-upsert_other :
    (row : DefaultRate) (user : Option String) (currency : String) (rows : List DefaultRate)
    → (same_option row.user user && str_eq row.currency currency) ≡ false
    → find_rate user currency (upsert_rate row rows) ≡ find_rate user currency rows
unfolding find_rate upsert_rate
find_rate-upsert_other row user currency [] h = rw h refl
find_rate-upsert_other row user currency (r ∷ rs) h =
    elim (Bool-cases (is_rate_of row.user row.currency r)) [
      | inl this ↦
          let apart = rate_of_other row.user user row.currency currency r this h in
          rw (this, apart) refl
      | inr other ↦ rw (other, find_rate-upsert_other row user currency rs h) refl
    ]

find_rate-delete_rate :
    (user : Option String) (currency : String) (rows : List DefaultRate)
    → find_rate user currency (delete_rate user currency rows) ≡ none
unfolding find_rate delete_rate
find_rate-delete_rate user currency [] = refl
find_rate-delete_rate user currency (r ∷ rs) = elim (Bool-cases (is_rate_of user currency r)) [
  | inl this ↦ rw this (find_rate-delete_rate user currency rs)
  | inr other ↦ rw (other, other) (find_rate-delete_rate user currency rs)
]

find_rate-delete_other :
    (user user' : Option String) (currency currency' : String) (rows : List DefaultRate)
    → (same_option user user' && str_eq currency currency') ≡ false
    → find_rate user' currency' (delete_rate user currency rows) ≡ find_rate user' currency' rows
unfolding find_rate delete_rate
find_rate-delete_other user user' currency currency' [] h = refl
find_rate-delete_other user user' currency currency' (r ∷ rs) h =
    elim (Bool-cases (is_rate_of user currency r)) [
      | inl this ↦
          rw (this, rate_of_other user user' currency currency' r this h)
            (find_rate-delete_other user user' currency currency' rs h)
      | inr other ↦ rw (other, find_rate-delete_other user user' currency currency' rs h) refl
    ]

same_ℤ : (a b : ℤ) → eqb_ℤ a b ≡ true → a ≡ b
same_ℤ a b h = eq_of_parts a b (same_ℕ _ _ h)

is_same_rate_sound : (a b : Option ℤ) → is_same_rate a b ≡ true → a ≡ b
is_same_rate_sound none none h = refl
is_same_rate_sound none (some b) h = absurd (cc)
is_same_rate_sound (some a) none h = absurd (cc)
is_same_rate_sound (some a) (some b) h = ap some (same_ℤ a b h)

unset_none : (a : Option ℤ) → is_unset a ≡ true → none ≡ a
unset_none none h = refl
unset_none (some a) h = absurd (cc)

-- The two amounts of a level, none where there is no row.
abbrev pub amounts : Option RateLevel → Option ℤ × Option ℤ
amounts level = (field_of (λ l. l.billable) level, field_of (λ l. l.cost) level)

abbrev pub same_key : Option String → String → Option String → String → Bool
same_key user currency user' currency' = same_option user user' && str_eq currency currency'

pair_eq : {a a' b b' : Option ℤ} → a ≡ a' → b ≡ b' → ◌≡◌ {A = Option ℤ × Option ℤ} (a, b) (a', b')
pair_eq p q = rw (p, q) refl

written_same :
    (user : Option String) (currency : String) (level : RateLevel) (rows : List DefaultRate)
    → amounts (find_rate user currency (written_rates user currency level rows))
      ≡ (level.billable, level.cost)
written_same user currency level rows =
    elim (Bool-cases (is_unchanged (find_rate user currency rows) level)) [
      | inl same ↦
          let (billable, cost) =
            and_true
              (is_same_rate (field_of (λ l. l.billable) (find_rate user currency rows))
                level.billable)
              _ same in
          rw same (pair_eq (is_same_rate_sound _ _ billable) (is_same_rate_sound _ _ cost))
      | inr changed ↦ elim (Bool-cases (is_unset level.billable && is_unset level.cost)) [
        | inl unset ↦
            let (billable, cost) = and_true (is_unset level.billable) _ unset in
            rw (changed, unset, find_rate-delete_rate user currency rows)
              (pair_eq (unset_none level.billable billable) (unset_none level.cost cost))
        | inr given ↦
            rw
              (
                changed,
                given,
                find_rate-upsert_rate (record { user = user; currency = currency; level = level })
                    rows,
              )
              refl
      ]
    ]

written_other :
    (user user' : Option String) (currency currency' : String) (level : RateLevel)
    (rows : List DefaultRate)
    → same_key user currency user' currency' ≡ false
    → find_rate user' currency' (written_rates user currency level rows)
      ≡ find_rate user' currency' rows
written_other user user' currency currency' level rows h =
    elim (Bool-cases (is_unchanged (find_rate user currency rows) level)) [
      | inl same ↦ rw same refl
      | inr changed ↦ elim (Bool-cases (is_unset level.billable && is_unset level.cost)) [
        | inl unset ↦
            rw (changed, unset) (find_rate-delete_other user user' currency currency' rows h)
        | inr given ↦
            rw (changed, given)
              (find_rate-upsert_other (record { user = user; currency = currency; level = level })
                user' currency' rows h)
      ]
    ]

-- A served setting of rates is read back: what is found of that person, or of the organization, in
-- that currency are the two amounts that were given, none where none was, and what is found under
-- any other person or currency is what was found before.
pub find_rate-rate_set :
    (may_read : Bool) (user : Option String) (currency : String) (level : RateLevel)
    (s t : RateTables)
    → rate_set may_read user currency level s ≡ ok t
    → (amounts (find_rate user currency t.defaults) ≡ (level.billable, level.cost))
      × ((user' : Option String) (currency' : String)
          → same_key user currency user' currency' ≡ false
          → find_rate user' currency' t.defaults ≡ find_rate user' currency' s.defaults)
unfolding rate_set
find_rate-rate_set may_read user currency level s t h = on_guard (not may_read) _ _ h λ _ h1.
    on_ok (check_member user s) _ h1 λ _ _ h2. rw (← ok_inj h2) (
      written_same user currency level s.defaults,
      λ user' currency' other. written_other user user' currency currency' level s.defaults other,
    )

-- What a member's time on a project is worth once both rates of that member have been set in the
-- project's currency, where the project has no row for that person, or one with neither rate and no
-- fixed fee: those two rates, as the member's.
pub snapshot_rates-rate_set :
    (may_read : Bool) (project currency user : String) (billable cost : ℤ) (s t : RateTables)
    → rate_set may_read
        (some user)
        currency
        (record { billable = some billable; cost = some cost })
        s
      ≡ ok t
    → field_of (λ l. l.billable) (level_of (find_project_member project user s.project_members))
      ≡ none
    → field_of (λ l. l.cost) (level_of (find_project_member project user s.project_members)) ≡ none
    → fee_of (find_project_member project user s.project_members) ≡ none
    → snapshot_rates project currency user t ≡ record {
      billable = some billable;
      billable_source = some member;
      cost = some cost;
      cost_source = some (hourly member);
    }
unfolding rate_set snapshot_rates resolve_rates apply_fixed_fee
snapshot_rates-rate_set may_read project currency user billable cost s t h no_billable no_cost
      no_fee =
    let level : RateLevel = record { billable = some billable; cost = some cost } in
    on_guard (not may_read) _ _ h λ _ h1. on_ok (check_member (some user) s) _ h1 λ _ _ h2.
      let read = written_same (some user) currency level s.defaults in
      rw
        (
          ← ok_inj h2,
          no_billable,
          no_cost,
          no_fee,
          ap (λ (p : Option ℤ × Option ℤ). p.0) read,
          ap (λ (p : Option ℤ × Option ℤ). p.1) read,
        )
        refl
