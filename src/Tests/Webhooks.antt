-- ===== src/Tests/Webhooks.antt =====
-- The delivery of webhooks at concrete inputs: one endpoint, one event, one delivery that is due.
use workloom.Base.{
  ◌≡◌, refl, Bool, true, false, none, some, Option, [], ◌∷◌, arith, str_eq, Bool-cases, inl, inr,
  if◌then◌else◌,
}
use workloom.Webhooks.Schedule.{
  next_retry_delay, jittered, base_delay, IsJittered, next_retry_delay-IsJittered,
}
use workloom.Webhooks.Tables.{
  Delivery, Endpoint, Event, Tables, pending, update_delivery, update_endpoint,
}
use workloom.Webhooks.Deliver.{
  claim_due, is_due, due_rows, insert_due, sort_due, lease_rows, returning, with_rows, has_id,
  undelivered, Claimed, record_result,
}
use workloom.Webhooks.Tables.{find_delivery}
use workloom.Webhooks.Outcome.{IsOutcome, record_result-IsOutcome}
use workloom.Webhooks.Lease.{nothing, claims, claimed_ids, claim_due-excludes}
use workloom.Webhooks.Breaker.{start, later, records, AllWithin, AllWithin-Run}

engine : Unit {0}
unfolding find_delivery claim_due is_due due_rows insert_due sort_due lease_rows returning with_rows
    record_result next_retry_delay jittered update_delivery update_endpoint
engine = tt

next_retry_delay-IsJittered_example : IsJittered 3 (base_delay 3) (next_retry_delay 3 7)
next_retry_delay-IsJittered_example = next_retry_delay-IsJittered 3 7 (omega arith)

abbrev delivery : Delivery
delivery = record {
  id = "d";
  endpoint_id = "e";
  event_id = "v";
  status = pending;
  attempts = 7;
  next_attempt_at = some 1000;
  locked_until = none;
  last_attempt_at = none;
  response_status = none;
  response_body = none;
  error = none;
  duration = none;
  completed_at = none;
}

abbrev endpoint : Endpoint
endpoint = record { id = "e"; enabled = true; disabled_reason = none; consecutive_failures = 4 }

abbrev event : Event
event = record { id = "v"; type = "invoice.paid" }

abbrev tables : Tables
tables = record {
  deliveries = delivery ∷ [];
  endpoints = λ id. if str_eq id "e" then some endpoint else none;
  events = λ id. if str_eq id "v" then some event else none;
}

mine : has_id (claimed_ids (claim_due 50 2000 tables).1) "d" ≡ true
unfolding engine
mine = refl

-- Another claim a second later, and one a minute after that.
claim_due-excludes_example :
    has_id
      (claimed_ids (claim_due 50 63000 (claim_due 50 3000 (claim_due 50 2000 tables).0).0).1)
      "d"
    ≡ false
claim_due-excludes_example =
    claim_due-excludes "d" 50 2000 tables (claim_due 50 3000 (claim_due 50 2000 tables).0).0 50
      63000 mine (claims 50 3000 nothing (omega arith)) (omega arith)

abbrev claimed : Claimed
claimed = record { delivery = record delivery { attempts = 8 }; endpoint = endpoint; event = event }

abbrev map_enabled : Option Endpoint → Option Bool
map_enabled none = none
map_enabled (some e) = some e.enabled

-- The eighth attempt of the fifth delivery in a row fails: the endpoint is switched off.
switched_off :
    map_enabled
      ((record_result claimed (undelivered none none "timed out" 1) 2500 7 tables).endpoints "e")
    ≡ some false
unfolding engine
switched_off = refl

within : AllWithin tables
within id = elim (Bool-cases (str_eq id "e")) [
  | inl same ↦ rw same (λ on. omega arith)
  | inr other ↦ rw other tt
]

AllWithin-Run_example :
    AllWithin (record_result claimed (undelivered none none "timed out" 1) 2500 7 tables)
AllWithin-Run_example =
    AllWithin-Run (later start (records claimed (undelivered none none "timed out" 1) 2500 7))
      within

row : find_delivery "d" tables.deliveries ≡ some delivery
unfolding engine
row = refl

record_result-IsOutcome_example :
    IsOutcome claimed delivery 2500 (undelivered none none "timed out" 1) (
      find_delivery "d"
        (record_result claimed (undelivered none none "timed out" 1) 2500 7 tables).deliveries)
record_result-IsOutcome_example =
    record_result-IsOutcome claimed (undelivered none none "timed out" 1) 2500 7 tables delivery
      (omega arith) row
