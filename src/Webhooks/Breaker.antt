-- ===== src/Webhooks/Breaker.antt =====
-- The circuit breaker of apps/worker/src/outbox/deliver.ts, the `webhookUpdate` and
-- `webhookDeliveryRetry` of packages/core/src/modules/webhooks.ts, and the runs that they make.
use workloom.Base.{
  ◌≡◌, refl, sym, ap, true≢false, Bool, true, false, not, ◌&&◌, ◌||◌, if◌then◌else◌, Option, none,
  some, String, str_eq, str_eq_iff, ℕ, ◌+◌, ◌<◌, leb, ltb, Bool-cases, ◌⊎◌, inl, inr, arith,
}
use workloom.Webhooks.Schedule.{disable_after_consecutive_failures}
use workloom.Webhooks.Tables.{
  DeliveryStatus, pending, succeeded, failed, Delivery, Endpoint, Tables, update_delivery,
  update_endpoint, find_delivery, change_row,
}
use workloom.Webhooks.Deliver.{
  Claimed, DeliveryResult, delivered, undelivered, claim_due, record_result, record_failure,
  delay_of, is_test, reset_failures, count_failure, trip, fail_endpoint,
}

-- The `enabled` of the patch of `webhookUpdate`.
abbrev pub patch_enabled : Option Bool → Endpoint → Endpoint
patch_enabled none e = e
patch_enabled (some true) e = record e {
  enabled = true;
  disabled_reason = none;
  consecutive_failures = 0;
}
patch_enabled (some false) e = record e { enabled = false }

pub webhook_update : String → Option Bool → Tables → Tables
webhook_update id enabled s = record s {
  endpoints = update_endpoint id (patch_enabled enabled) s.endpoints;
}

-- Why `webhookDeliveryRetry` refuses.
pub data RetryError : Type 0 where
  not_found not_failed : RetryError

abbrev pub fresh_schedule : ℕ → Delivery → Delivery
fresh_schedule now d = record d {
  status = pending;
  attempts = 0;
  next_attempt_at = some now;
  completed_at = none;
  locked_until = none;
}

abbrev pub retry_of : ℕ → Tables → Delivery → DeliveryStatus → RetryError ⊎ Tables
retry_of now s d failed =
    inr (record s { deliveries = update_delivery d.id (fresh_schedule now) s.deliveries })
retry_of now s d pending = inl not_failed
retry_of now s d succeeded = inl not_failed

abbrev pub retry_found : ℕ → Tables → Option Delivery → RetryError ⊎ Tables
retry_found now s none = inl not_found
retry_found now s (some d) = retry_of now s d d.status

pub webhook_delivery_retry : String → ℕ → Tables → RetryError ⊎ Tables
webhook_delivery_retry id now s = retry_found now s (find_delivery id s.deliveries)

-- What can happen to the tables. A worker records any claim that it holds, however stale the
-- endpoint and the delivery it read have become.
pub data Step (s : Tables) : Tables → Type 0 where
  claims : (limit now : ℕ) → Step s (claim_due limit now s).0
  records :
      (c : Claimed) (result : DeliveryResult) (now r : ℕ) → Step s (record_result c result now r s)
  updates : (id : String) (enabled : Option Bool) → Step s (webhook_update id enabled s)
  retries :
      (id : String) (now : ℕ) {t : Tables} → webhook_delivery_retry id now s ≡ inr t → Step s t

pub data Run (s : Tables) : Tables → Type 0 where
  start : Run s s
  later : {t u : Tables} → Run s t → Step t u → Run s u

-- An endpoint that is enabled is below the limit of failures.
abbrev pub IsWithin : Option Endpoint → Type 0
IsWithin none = Unit
IsWithin (some e) = e.enabled ≡ true → e.consecutive_failures < disable_after_consecutive_failures

abbrev pub AllWithin : Tables → Type 0
AllWithin s = (id : String) → IsWithin (s.endpoints id)

IsWithin-change_row :
    (change : Endpoint → Endpoint) (o : Option Endpoint)
    → ((e : Endpoint) → IsWithin (some e) → IsWithin (some (change e)))
    → IsWithin o
    → IsWithin (change_row change o)
IsWithin-change_row change none h k = tt
IsWithin-change_row change (some e) h k = h e k

-- A change that keeps rows within the limit keeps the table within it.
IsWithin-update_endpoint :
    (id : String) (change : Endpoint → Endpoint) (endpoints : String → Option Endpoint)
    → ((e : Endpoint) → IsWithin (some e) → IsWithin (some (change e)))
    → ((key : String) → IsWithin (endpoints key))
    → (key : String) → IsWithin (update_endpoint id change endpoints key)
unfolding update_endpoint
IsWithin-update_endpoint id change endpoints h k key = elim (Bool-cases (str_eq key id)) [
  | inl same ↦ rw same (IsWithin-change_row change (endpoints key) h (k key))
  | inr other ↦ rw other (k key)
]

str_eq_refl : (id : String) → str_eq id id ≡ true
str_eq_refl id = (str_eq_iff id id).1 refl

under :
    (n : ℕ)
    → leb disable_after_consecutive_failures n ≡ false
    → n < disable_after_consecutive_failures
under n h = ground arith

-- The endpoint whose failure was counted is switched off if that made too many.
IsWithin-trip-same :
    (id message : String) (o : Option Endpoint) (counted : String → Option Endpoint)
    → counted id ≡ change_row count_failure o
    → IsWithin (trip id message (change_row count_failure o) counted id)
unfolding update_endpoint
IsWithin-trip-same id message none counted h = rw h tt
IsWithin-trip-same id message (some e) counted h =
    elim (Bool-cases (leb disable_after_consecutive_failures (e.consecutive_failures + 1))) [
      | inl many ↦ rw (many, str_eq_refl id, h) (λ on. absurd (true≢false (sym on)))
      | inr few ↦ rw (few, h) (λ on. under (e.consecutive_failures + 1) few)
    ]

trip-other :
    (id message : String) (o : Option Endpoint) (counted : String → Option Endpoint) (key : String)
    → str_eq key id ≡ false
    → trip id message o counted key ≡ counted key
unfolding update_endpoint
trip-other id message none counted key h = refl
trip-other id message (some e) counted key h =
    elim (Bool-cases (leb disable_after_consecutive_failures e.consecutive_failures)) [
      | inl many ↦ rw (many, h) refl
      | inr few ↦ rw few refl
    ]

update_endpoint-same :
    (id : String) (change : Endpoint → Endpoint) (endpoints : String → Option Endpoint)
    → update_endpoint id change endpoints id ≡ change_row change (endpoints id)
unfolding update_endpoint
update_endpoint-same id change endpoints = rw (str_eq_refl id) refl

update_endpoint-other :
    (id : String) (change : Endpoint → Endpoint) (endpoints : String → Option Endpoint)
    (key : String)
    → str_eq key id ≡ false
    → update_endpoint id change endpoints key ≡ endpoints key
unfolding update_endpoint
update_endpoint-other id change endpoints key h = rw h refl

IsWithin-fail_endpoint :
    (id message : String) (endpoints : String → Option Endpoint)
    → ((key : String) → IsWithin (endpoints key))
    → (key : String) → IsWithin (fail_endpoint id message endpoints key)
IsWithin-fail_endpoint id message endpoints k key =
    let counted = update_endpoint id count_failure endpoints in
    let at_id = update_endpoint-same id count_failure endpoints in
    elim (Bool-cases (str_eq key id)) [
      | inl same ↦
          rw ((str_eq_iff key id).0 same, at_id)
            (IsWithin-trip-same id message (endpoints id) counted at_id)
      | inr other ↦
          rw
            (
              trip-other id message (counted id) counted key other,
              update_endpoint-other id count_failure endpoints key other,
            )
            (k key)
    ]

IsWithin-guarded :
    (c : Bool) (f g : String → Option Endpoint)
    → ((key : String) → IsWithin (f key))
    → ((key : String) → IsWithin (g key))
    → (key : String) → IsWithin ((if c then f else g) key)
IsWithin-guarded true f g h k = h
IsWithin-guarded false f g h k = k

AllWithin-record_failure :
    (c : Claimed) (status : Option ℕ) (body : Option String) (message : String) (duration now : ℕ)
    (delay : Option ℕ) (s : Tables)
    → AllWithin s
    → AllWithin (record_failure c status body message duration now delay s)
AllWithin-record_failure c status body message duration now (some delay) s k = k
AllWithin-record_failure c status body message duration now none s k =
    IsWithin-guarded (is_test c.event || not c.endpoint.enabled) s.endpoints _ k
      (IsWithin-fail_endpoint c.endpoint.id message s.endpoints k)

AllWithin-record_result :
    (c : Claimed) (result : DeliveryResult) (now r : ℕ) (s : Tables)
    → AllWithin s
    → AllWithin (record_result c result now r s)
unfolding record_result
AllWithin-record_result c (delivered status body duration) now r s k =
    IsWithin-guarded (ltb 0 c.endpoint.consecutive_failures && not (is_test c.event)) _ s.endpoints
      (IsWithin-update_endpoint c.endpoint.id reset_failures s.endpoints (λ e h on. omega arith) k)
      k
AllWithin-record_result c (undelivered status body message duration) now r s k =
    AllWithin-record_failure c status body message duration now (delay_of c r) s k

IsWithin-patch_enabled :
    (enabled : Option Bool) (e : Endpoint)
    → IsWithin (some e)
    → IsWithin (some (patch_enabled enabled e))
IsWithin-patch_enabled none e h = h
IsWithin-patch_enabled (some true) e h = λ on. omega arith
IsWithin-patch_enabled (some false) e h = λ on. absurd (true≢false (sym on))

abbrev endpoints_or : Tables → RetryError ⊎ Tables → String → Option Endpoint
endpoints_or s (inl e) = s.endpoints
endpoints_or s (inr t) = t.endpoints

retry_of-endpoints :
    (now : ℕ) (s t : Tables) (d : Delivery) (status : DeliveryStatus)
    → retry_of now s d status ≡ inr t
    → s.endpoints ≡ t.endpoints
retry_of-endpoints now s t d failed h = ap (endpoints_or s) h
retry_of-endpoints now s t d pending h = cc
retry_of-endpoints now s t d succeeded h = cc

retry_found-endpoints :
    (now : ℕ) (s t : Tables) (o : Option Delivery)
    → retry_found now s o ≡ inr t
    → s.endpoints ≡ t.endpoints
retry_found-endpoints now s t none h = cc
retry_found-endpoints now s t (some d) h = retry_of-endpoints now s t d d.status h

AllWithin-Step : {s t : Tables} → Step s t → AllWithin s → AllWithin t
unfolding claim_due webhook_update webhook_delivery_retry
AllWithin-Step (claims limit now) k = k
AllWithin-Step {s} (records c result now r) k = AllWithin-record_result c result now r s k
AllWithin-Step {s} (updates id enabled) k =
    IsWithin-update_endpoint id (patch_enabled enabled) s.endpoints (IsWithin-patch_enabled enabled)
      k
AllWithin-Step {s} (retries id now {t} e) k =
    λ key. rw (← retry_found-endpoints now s t (find_delivery id s.deliveries) e) (k key)

-- In every run of claims, recordings of any claim however stale, updates and retries, an endpoint
-- that is enabled has fewer than 5 failures in a row, if that was so at the start of the run.
pub AllWithin-Run : {s t : Tables} → Run s t → AllWithin s → AllWithin t
AllWithin-Run start k = k
AllWithin-Run (later run step) k = AllWithin-Step step (AllWithin-Run run k)
