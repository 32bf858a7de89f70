-- ===== src/Tests/Limits.antt =====
-- Rate limits and service levels at concrete inputs.
use workloom.Base.{◌≡◌, refl, ℕ, ◌-◌, ◌⊎◌, none, some, Option, List, [], ◌∷◌, String, min, arith}
use workloom.Limits.Rate.{
  LimitRow, Request, auth, read, consume_rate_limit, window_of, decide, allowed_count,
  request_count, limits, used, allowed_count-min,
}
use workloom.Limits.Sla.{sla_state, due, breached, sla_state_later}

engine : Unit {0}
unfolding consume_rate_limit window_of decide sla_state
engine = tt

-- Eight sign-ins have been tried in the second minute.
abbrev rows : String → Option LimitRow
rows key = some (record { window_start = 60000; count = 8 })

abbrev sign_in : ℕ → Request
sign_in now = record { key = "ip"; klass = auth; now = now }

abbrev requests : List Request
requests =
    sign_in 61000
    ∷ record { key = "actor"; klass = read; now = 61500 }
    ∷ sign_in 62000
    ∷ sign_in 63000
    ∷ []

allowed-requests : allowed_count "ip" requests rows ≡ 2
unfolding engine
allowed-requests = refl

second_minute : (window_of 61000 ≡ 60000) × (window_of 62000 ≡ 60000) × (window_of 63000 ≡ 60000)
unfolding window_of
second_minute = (refl, refl, refl)

allowed_count-min_example :
    allowed_count "ip" requests rows
    ≡ min (request_count "ip" requests) (limits auth - used 60000 (rows "ip"))
allowed_count-min_example = allowed_count-min "ip" auth 60000 requests rows (
  λ mine. (refl, second_minute.0),
  (λ mine. absurd (cc), (λ mine. (refl, second_minute.1), (λ mine. (refl, second_minute.2), tt))),
)

sla_state_later_example :
    (sla_state (some 5000) none 6000 ≡ sla_state (some 5000) none 4000)
    ⊎ ((sla_state (some 5000) none 4000 ≡ due) × (sla_state (some 5000) none 6000 ≡ breached))
sla_state_later_example = sla_state_later (some 5000) none 4000 6000 (omega arith)
