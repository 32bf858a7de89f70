-- ===== src/Webhooks/Tables.antt =====
-- The tables that the delivery of webhooks reads and writes (packages/db/src/schema/events.ts). A
-- table of rows by primary key is a function; the deliveries, which are scanned, are a list. A
-- time is a number of milliseconds.
use workloom.Base.{Bool, if◌then◌else◌, Option, none, some, List, [], ◌∷◌, String, str_eq, ℕ}

pub data DeliveryStatus : Type 0 where
  pending succeeded failed : DeliveryStatus

pub record Delivery : Type 0 where
  pub id : String
  pub endpoint_id : String
  pub event_id : String
  pub status : DeliveryStatus
  pub attempts : ℕ
  pub next_attempt_at : Option ℕ
  pub locked_until : Option ℕ
  pub last_attempt_at : Option ℕ
  pub response_status : Option ℕ
  pub response_body : Option String
  pub error : Option String
  pub duration : Option ℕ
  pub completed_at : Option ℕ

-- The number of failures and the last error that `disabledReason` prints.
pub record DisabledReason : Type 0 where
  pub failures : ℕ
  pub last_error : String

pub record Endpoint : Type 0 where
  pub id : String
  pub enabled : Bool
  pub disabled_reason : Option DisabledReason
  pub consecutive_failures : ℕ

pub record Event : Type 0 where
  pub id : String
  pub type : String

pub record Tables : Type 0 where
  pub deliveries : List Delivery
  pub endpoints : String → Option Endpoint
  pub events : String → Option Event

-- `update(webhookDeliveries).set(change).where(eq(id, …))`.
unfoldable pub update_delivery : String → (Delivery → Delivery) → List Delivery → List Delivery
update_delivery id change [] = []
update_delivery id change (d ∷ ds) =
    let rest = update_delivery id change ds in if str_eq d.id id then change d ∷ rest else d ∷ rest

abbrev pub change_row : (Endpoint → Endpoint) → Option Endpoint → Option Endpoint
change_row change none = none
change_row change (some e) = some (change e)

-- `update(webhookEndpoints).set(change).where(eq(id, …))`.
unfoldable pub update_endpoint :
    String → (Endpoint → Endpoint) → (String → Option Endpoint) → String → Option Endpoint
update_endpoint id change endpoints key =
    if str_eq key id then change_row change (endpoints key) else endpoints key

-- `select().where(eq(id, …)).limit(1)`.
unfoldable pub find_delivery : String → List Delivery → Option Delivery
find_delivery id [] = none
find_delivery id (d ∷ ds) =
    let rest = find_delivery id ds in if str_eq d.id id then some d else rest
