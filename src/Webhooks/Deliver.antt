-- ===== src/Webhooks/Deliver.antt =====
-- apps/worker/src/outbox/deliver.ts: claiming the deliveries that are due, attempting one, and
-- recording what came of it. A claim and a recording are one transaction each. Signing and the
-- HTTP request are parameters; what they return is a DeliveryResult of
-- packages/core/src/webhooks/deliver.ts.
use workloom.Base.{
  Bool, true, false, not, ◌&&◌, ◌||◌, ◌⊎◌, inl, inr, if◌then◌else◌, Option, none, some, List, [],
  ◌∷◌, ◌++◌, String, str_eq, ℕ, ◌+◌, ◌*◌, ltb, leb, take, map,
}
use workloom.Webhooks.Schedule.{next_retry_delay, disable_after_consecutive_failures}
use workloom.Webhooks.Tables.{
  DeliveryStatus, pending, succeeded, failed, Delivery, Endpoint, Event, Tables, update_delivery,
  update_endpoint,
}

abbrev pub lease : ℕ
lease = 2 * 60 * 1000

pub record Claimed : Type 0 where
  pub delivery : Delivery
  pub endpoint : Endpoint
  pub event : Event

pub data DeliveryResult : Type 0 where
  delivered : ℕ → String → ℕ → DeliveryResult
  undelivered : Option ℕ → Option String → String → ℕ → DeliveryResult

abbrev pub is_pending : DeliveryStatus → Bool
is_pending pending = true
is_pending succeeded = false
is_pending failed = false

-- `column <= now`, which is not true of null.
abbrev pub not_after : Option ℕ → ℕ → Bool
not_after none now = false
not_after (some t) now = leb t now

-- `column is null or column <= now`.
abbrev pub is_unlocked : Option ℕ → ℕ → Bool
is_unlocked none now = true
is_unlocked (some t) now = leb t now

unfoldable pub is_due : ℕ → Delivery → Bool
is_due now d =
    is_pending d.status && not_after d.next_attempt_at now && is_unlocked d.locked_until now

unfoldable pub due_rows : ℕ → List Delivery → List Delivery
due_rows now [] = []
due_rows now (d ∷ ds) = let rest = due_rows now ds in if is_due now d then d ∷ rest else rest

abbrev pub attempt_time : Option ℕ → ℕ
attempt_time none = 0
attempt_time (some t) = t

-- `orderBy(asc(nextAttemptAt))`.
unfoldable pub insert_due : Delivery → List Delivery → List Delivery
insert_due d [] = d ∷ []
insert_due d (e ∷ es) =
    let rest = insert_due d es in
    if leb (attempt_time d.next_attempt_at) (attempt_time e.next_attempt_at)
    then d ∷ e ∷ es
    else e ∷ rest

unfoldable pub sort_due : List Delivery → List Delivery
sort_due [] = []
sort_due (d ∷ ds) = insert_due d (sort_due ds)

abbrev pub delivery_id : Delivery → String
delivery_id d = d.id

abbrev pub due_ids : ℕ → ℕ → List Delivery → List String
due_ids limit now ds = map delivery_id (take limit (sort_due (due_rows now ds)))

-- `inArray(id, ids)`.
abbrev pub has_id : List String → String → Bool
has_id [] id = false
has_id (i ∷ ids) id = str_eq i id || has_id ids id

-- The lease is taken and the attempt is counted.
abbrev pub leased : ℕ → Delivery → Delivery
leased now d = record d {
  locked_until = some (now + lease);
  attempts = d.attempts + 1;
  last_attempt_at = some now;
}

unfoldable pub lease_rows : List String → ℕ → List Delivery → List Delivery
lease_rows ids now [] = []
lease_rows ids now (d ∷ ds) =
    let rest = lease_rows ids now ds in if has_id ids d.id then leased now d ∷ rest else d ∷ rest

-- `returning()`: the rows that were updated.
unfoldable pub returning : List String → List Delivery → List Delivery
returning ids [] = []
returning ids (d ∷ ds) = let rest = returning ids ds in if has_id ids d.id then d ∷ rest else rest

abbrev pub claimed_of : Delivery → Option Endpoint → Option Event → List Claimed
claimed_of d (some endpoint) (some event) =
    record { delivery = d; endpoint = endpoint; event = event } ∷ []
claimed_of d none e = []
claimed_of d (some endpoint) none = []

-- `deliveries.flatMap(…)`.
unfoldable pub with_rows : Tables → List Delivery → List Claimed
with_rows s [] = []
with_rows s (d ∷ ds) =
    claimed_of d (s.endpoints d.endpoint_id) (s.events d.event_id) ++ with_rows s ds

unfoldable pub claim_due : ℕ → ℕ → Tables → Tables × List Claimed
claim_due limit now s =
    let ids = due_ids limit now s.deliveries in
    let rows = lease_rows ids now s.deliveries in
    (record s { deliveries = rows }, with_rows s (returning ids rows))

abbrev pub is_test : Event → Bool
is_test event = str_eq event.type "webhook.test"

-- `attempt`, where `sign` is the signature of the event's envelope or the error's message, and
-- `send` is the request with that signature.
attempt :
    (Claimed → String ⊎ String) → (Claimed → String → DeliveryResult) → Claimed → DeliveryResult
attempt sign send c =
    if not c.endpoint.enabled && not (is_test c.event)
    then undelivered none none "endpoint is disabled" 0
    else (elim (sign c) [
      | inl signature ↦ send c signature
      | inr message ↦ undelivered none none message 0
    ])

-- A delivery that arrived: `{ ...common, status: 'succeeded', … }`.
abbrev pub succeed : ℕ → ℕ → String → ℕ → Delivery → Delivery
succeed now status body duration d = record d {
  locked_until = none;
  response_status = some status;
  response_body = some body;
  error = none;
  duration = some duration;
  status = succeeded;
  next_attempt_at = none;
  completed_at = some now;
}

-- A failed attempt that is made again after `delay` seconds.
abbrev pub retry_in : ℕ → ℕ → Option ℕ → Option String → String → ℕ → Delivery → Delivery
retry_in now delay status body message duration d = record d {
  locked_until = none;
  response_status = status;
  response_body = body;
  error = some message;
  duration = some duration;
  next_attempt_at = some (now + delay * 1000);
}

-- A failed attempt that was the last.
abbrev pub give_up : ℕ → Option ℕ → Option String → String → ℕ → Delivery → Delivery
give_up now status body message duration d = record d {
  locked_until = none;
  response_status = status;
  response_body = body;
  error = some message;
  duration = some duration;
  status = failed;
  next_attempt_at = none;
  completed_at = some now;
}

abbrev pub reset_failures : Endpoint → Endpoint
reset_failures e = record e { consecutive_failures = 0 }

abbrev pub count_failure : Endpoint → Endpoint
count_failure e = record e { consecutive_failures = e.consecutive_failures + 1 }

abbrev pub disable : ℕ → String → Endpoint → Endpoint
disable failures message e = record e {
  enabled = false;
  disabled_reason = some (record { failures = failures; last_error = message });
}

-- `if (updated && updated.consecutiveFailures >= …)`.
abbrev pub trip :
    String → String → Option Endpoint → (String → Option Endpoint) → String → Option Endpoint
trip id message none endpoints = endpoints
trip id message (some updated) endpoints =
    if leb disable_after_consecutive_failures updated.consecutive_failures
    then update_endpoint id (disable updated.consecutive_failures message) endpoints
    else endpoints

abbrev pub fail_endpoint : String → String → (String → Option Endpoint) → String → Option Endpoint
fail_endpoint id message endpoints =
    let counted = update_endpoint id count_failure endpoints in trip id message (counted id) counted

abbrev pub delay_of : Claimed → ℕ → Option ℕ
delay_of c r =
    if not c.endpoint.enabled || is_test c.event
    then none
    else next_retry_delay c.delivery.attempts r

abbrev pub record_failure :
    Claimed → Option ℕ → Option String → String → ℕ → ℕ → Option ℕ → Tables → Tables
record_failure c status body message duration now (some delay) s = record s {
  deliveries =
      update_delivery c.delivery.id (retry_in now delay status body message duration) s.deliveries;
}
record_failure c status body message duration now none s = record s {
  deliveries =
      update_delivery c.delivery.id (give_up now status body message duration) s.deliveries;
  endpoints =
      if is_test c.event || not c.endpoint.enabled
      then s.endpoints
      else fail_endpoint c.endpoint.id message s.endpoints;
}

-- `record`: `r` is the random number of the retry's delay.
unfoldable pub record_result : Claimed → DeliveryResult → ℕ → ℕ → Tables → Tables
record_result c (delivered status body duration) now r s = record s {
  deliveries = update_delivery c.delivery.id (succeed now status body duration) s.deliveries;
  endpoints =
      if ltb 0 c.endpoint.consecutive_failures && not (is_test c.event)
      then update_endpoint c.endpoint.id reset_failures s.endpoints
      else s.endpoints;
}
record_result c (undelivered status body message duration) now r s =
    record_failure c status body message duration now (delay_of c r) s
