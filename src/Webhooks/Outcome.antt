-- ===== src/Webhooks/Outcome.antt =====
-- What the recording of a result (`record` of apps/worker/src/outbox/deliver.ts) leaves in the
-- delivery's row.
use workloom.Base.{
  ◌≡◌, refl, Bool, true, false, not, ◌||◌, if◌then◌else◌, Option, none, some, List, [], ◌∷◌, String,
  str_eq, ℕ, ◌+◌, ◌*◌, ◌≤◌, ◌<◌, ◌⊎◌, Bool-cases, inl, inr,
}
use workloom.Webhooks.Schedule.{
  next_retry_delay, max_attempts, random_scale, next_retry_delay_range, next_retry_delay_last,
}
use workloom.Webhooks.Tables.{
  DeliveryStatus, succeeded, failed, Delivery, Tables, update_delivery, find_delivery,
}
use workloom.Webhooks.Deliver.{
  Claimed, DeliveryResult, delivered, undelivered, record_result, delay_of, is_test, succeed,
  retry_in, give_up,
}

-- A row that no worker will attempt again.
abbrev pub IsOver : DeliveryStatus → ℕ → Option Delivery → Type 0
IsOver status now none = ⊥
IsOver status now (some d) =
    (d.status ≡ status)
    × (d.next_attempt_at ≡ none)
    × (d.locked_until ≡ none)
    × (d.completed_at ≡ some now)

-- A row that is attempted again, between 12 seconds and 14.4 hours after `now`.
abbrev pub IsRetried : Delivery → ℕ → Option Delivery → Type 0
IsRetried before now none = ⊥
IsRetried before now (some d) =
    (delay : ℕ) × ((d.status ≡ before.status)
      × (d.next_attempt_at ≡ some (now + delay * 1000))
      × (d.locked_until ≡ none)
      × (12 ≤ delay)
      × (delay ≤ 51840))

-- Which failed attempts are made again.
abbrev pub MayRetry : Claimed → Type 0
MayRetry c =
    (c.endpoint.enabled ≡ true)
    × (is_test c.event ≡ false)
    × (1 ≤ c.delivery.attempts)
    × (c.delivery.attempts < max_attempts)

-- Which are the last.
abbrev pub IsLast : Claimed → Type 0
IsLast c =
    (c.endpoint.enabled ≡ false) ⊎ ((is_test c.event ≡ true) ⊎ (max_attempts ≤ c.delivery.attempts))

-- What a result makes of the row it is recorded in.
abbrev pub IsOutcome : Claimed → Delivery → ℕ → DeliveryResult → Option Delivery → Type 0
IsOutcome c before now (delivered status body duration) row = IsOver succeeded now row
IsOutcome c before now (undelivered status body message duration) row =
    (MayRetry c → IsRetried before now row) × (IsLast c → IsOver failed now row)

abbrev change_found : (Delivery → Delivery) → Option Delivery → Option Delivery
change_found change none = none
change_found change (some d) = some (change d)

find_delivery-update_delivery :
    (id : String) (change : Delivery → Delivery) (ds : List Delivery)
    → ((d : Delivery) → (change d).id ≡ d.id)
    → find_delivery id (update_delivery id change ds) ≡ change_found change (find_delivery id ds)
unfolding find_delivery update_delivery
find_delivery-update_delivery id change [] h = refl
find_delivery-update_delivery id change (d ∷ ds) h = elim (Bool-cases (str_eq d.id id)) [
  | inl same ↦ rw (same, h d, same) refl
  | inr other ↦ rw (other, other) (find_delivery-update_delivery id change ds h)
]

or_true : (a : Bool) (o : Option ℕ) → (if a || true then none else o) ≡ none
or_true true o = refl
or_true false o = refl

none_both : (a : Bool) → ◌≡◌ {A = Option ℕ} (if a then none else none) none
none_both true = refl
none_both false = refl

delay_of-MayRetry :
    (c : Claimed) (r : ℕ) → MayRetry c → delay_of c r ≡ next_retry_delay c.delivery.attempts r
delay_of-MayRetry c r h = rw (h.0, h.1) refl

delay_of-IsLast : (c : Claimed) (r : ℕ) → IsLast c → delay_of c r ≡ none
delay_of-IsLast c r (inl off) = rw off refl
delay_of-IsLast c r (inr (inl test)) = rw test (or_true (not c.endpoint.enabled) _)
delay_of-IsLast c r (inr (inr many)) =
    rw (next_retry_delay_last c.delivery.attempts r many)
      (none_both (not c.endpoint.enabled || is_test c.event))

-- The recording of a result decides a delivery's row, which the table has. A success ends it as
-- succeeded. A failure of one of the first seven attempts, of an event that is not a test at an
-- endpoint that was enabled when it was claimed, keeps its status and sets the next attempt
-- between 12 seconds and 14.4 hours ahead; a failure of the eighth attempt or a later one, of a
-- test, or at an endpoint that was disabled, ends it as failed. The row is unlocked in each case.
pub record_result-IsOutcome :
    (c : Claimed) (result : DeliveryResult) (now r : ℕ) (s : Tables) (d : Delivery)
    → r < random_scale
    → find_delivery c.delivery.id s.deliveries ≡ some d
    → IsOutcome c d now result
        (find_delivery c.delivery.id (record_result c result now r s).deliveries)
unfolding record_result
record_result-IsOutcome c (delivered status body duration) now r s d random row =
    rw
      (
        find_delivery-update_delivery c.delivery.id (succeed now status body duration) s.deliveries
            (λ d. refl),
        row,
      )
      (refl, refl, refl, refl)
record_result-IsOutcome c (undelivered status body message duration) now r s d random row = (
  λ may.
      let (delay, (e, bounds)) = next_retry_delay_range c.delivery.attempts r random may.2 may.3 in
      rw
        (
          delay_of-MayRetry c r may,
          e,
          find_delivery-update_delivery c.delivery.id
              (retry_in now delay status body message duration) s.deliveries (λ d. refl),
          row,
        )
        (delay, (refl, refl, refl, bounds.0, bounds.1)),
  λ last.
      rw
        (
          delay_of-IsLast c r last,
          find_delivery-update_delivery c.delivery.id (give_up now status body message duration)
              s.deliveries (λ d. refl),
          row,
        )
        (refl, refl, refl, refl),
)
