-- ===== src/Webhooks/Lease.antt =====
-- The lease of apps/worker/src/outbox/deliver.ts: a delivery that a worker has claimed is hidden
-- from the others until the lease lapses.
use workloom.Base.{
  ◌≡◌, refl, sym, ap, ◌∙◌, true≢false, Bool, true, false, ◌&&◌, Option, none, some, List, [], ◌∷◌,
  ◌++◌, String, str_eq, str_eq_iff, ℕ, suc, zero, ◌+◌, ◌≤◌, ◌<◌, leb, take, map, Bool-cases, inl,
  inr, arith,
}
use workloom.Webhooks.Tables.{Delivery, Endpoint, Event, Tables, update_delivery}
use workloom.Webhooks.Deliver.{
  lease, Claimed, DeliveryResult, delivered, undelivered, is_due, is_pending, not_after,
  is_unlocked, due_rows, insert_due, sort_due, due_ids, has_id, lease_rows, claim_due,
  record_result, record_failure, delay_of, delivery_id, attempt_time, returning, with_rows,
  claimed_of,
}

-- Locked at a time.
abbrev pub IsLocked : Option ℕ → ℕ → Type 0
IsLocked none now = ⊥
IsLocked (some t) now = now < t

-- Every row of a delivery is locked until a lease that began at `since` lapses.
abbrev pub IsHeld : String → ℕ → List Delivery → Type 0
IsHeld id since [] = Unit
IsHeld id since (d ∷ ds) =
    (d.id ≡ id → (now : ℕ) → now < since + lease → IsLocked d.locked_until now) × IsHeld id since ds

-- What workers do after a claim made at `since`, for as long as no result of the delivery is
-- recorded: claims, none of them before `since`, and recordings of other deliveries.
pub data Others (id : String) (since : ℕ) (s : Tables) : Tables → Type 0 where
  nothing : Others id since s s
  claims :
      {t : Tables} (limit now : ℕ)
      → Others id since s t
      → since ≤ now
      → Others id since s (claim_due limit now t).0
  records :
      {t : Tables} (c : Claimed) (result : DeliveryResult) (now r : ℕ)
      → Others id since s t
      → str_eq c.delivery.id id ≡ false
      → Others id since s (record_result c result now r t)

abbrev claimed_id : Claimed → String
claimed_id c = c.delivery.id

-- The deliveries that a claim returns.
abbrev pub claimed_ids : List Claimed → List String
claimed_ids cs = map claimed_id cs

-- No row is the delivery's.
abbrev Lacks : String → List Delivery → Type 0
Lacks id [] = Unit
Lacks id (d ∷ ds) = (str_eq d.id id ≡ false) × Lacks id ds

has_id-same : (ids : List String) (a b : String) → a ≡ b → has_id ids a ≡ has_id ids b
has_id-same ids a b e = ap (has_id ids) e

-- The rows that a claim leases are held, whatever they were.
IsHeld-lease_rows-claimed :
    (ids : List String) (id : String) (now : ℕ) (ds : List Delivery)
    → has_id ids id ≡ true
    → IsHeld id now (lease_rows ids now ds)
unfolding lease_rows
IsHeld-lease_rows-claimed ids id now [] h = tt
IsHeld-lease_rows-claimed ids id now (d ∷ ds) h = elim (Bool-cases (has_id ids d.id)) [
  | inl mine ↦ rw mine (λ e t before. before, IsHeld-lease_rows-claimed ids id now ds h)
  | inr other ↦ rw other (
    λ e. absurd (true≢false (sym h ∙ sym (has_id-same ids d.id id e) ∙ other)),
    IsHeld-lease_rows-claimed ids id now ds h,
  )
]

IsHeld-lease_rows :
    (ids : List String) (id : String) (since now : ℕ) (ds : List Delivery)
    → since ≤ now
    → IsHeld id since ds
    → IsHeld id since (lease_rows ids now ds)
unfolding lease_rows
IsHeld-lease_rows ids id since now [] h k = tt
IsHeld-lease_rows ids id since now (d ∷ ds) h k = elim (Bool-cases (has_id ids d.id)) [
  | inl mine ↦ rw mine (λ e t before. omega arith, IsHeld-lease_rows ids id since now ds h k.1)
  | inr other ↦ rw other (k.0, IsHeld-lease_rows ids id since now ds h k.1)
]

IsHeld-update_delivery :
    (id other : String) (change : Delivery → Delivery) (since : ℕ) (ds : List Delivery)
    → str_eq other id ≡ false
    → ((d : Delivery) → (change d).id ≡ d.id)
    → IsHeld id since ds
    → IsHeld id since (update_delivery other change ds)
unfolding update_delivery
IsHeld-update_delivery id other change since [] h same k = tt
IsHeld-update_delivery id other change since (d ∷ ds) h same k =
    elim (Bool-cases (str_eq d.id other)) [
      | inl mine ↦ rw mine (
        λ e. absurd (
            true≢false (
              sym
                ((str_eq_iff other id).1 (sym ((str_eq_iff d.id other).0 mine) ∙ sym (same d) ∙ e))
              ∙ h)),
        IsHeld-update_delivery id other change since ds h same k.1,
      )
      | inr not_mine ↦ rw not_mine (k.0, IsHeld-update_delivery id other change since ds h same k.1)
    ]

IsHeld-record_failure :
    (id : String) (since : ℕ) (c : Claimed) (status : Option ℕ) (body : Option String)
    (message : String) (duration now : ℕ) (delay : Option ℕ) (t : Tables)
    → str_eq c.delivery.id id ≡ false
    → IsHeld id since t.deliveries
    → IsHeld id since (record_failure c status body message duration now delay t).deliveries
IsHeld-record_failure id since c status body message duration now none t h k =
    IsHeld-update_delivery id c.delivery.id _ since t.deliveries h (λ d. refl) k
IsHeld-record_failure id since c status body message duration now (some delay) t h k =
    IsHeld-update_delivery id c.delivery.id _ since t.deliveries h (λ d. refl) k

IsHeld-record_result :
    (id : String) (since : ℕ) (c : Claimed) (result : DeliveryResult) (now r : ℕ) (t : Tables)
    → str_eq c.delivery.id id ≡ false
    → IsHeld id since t.deliveries
    → IsHeld id since (record_result c result now r t).deliveries
unfolding record_result
IsHeld-record_result id since c (delivered status body duration) now r t h k =
    IsHeld-update_delivery id c.delivery.id _ since t.deliveries h (λ d. refl) k
IsHeld-record_result id since c (undelivered status body message duration) now r t h k =
    IsHeld-record_failure id since c status body message duration now (delay_of c r) t h k

IsHeld-Others :
    {id : String} {since : ℕ} {s t : Tables}
    → Others id since s t
    → IsHeld id since s.deliveries
    → IsHeld id since t.deliveries
unfolding claim_due
IsHeld-Others nothing h = h
IsHeld-Others {id} {since} (claims {t} limit now before later) h =
    IsHeld-lease_rows (due_ids limit now t.deliveries) id since now t.deliveries later
      (IsHeld-Others before h)
IsHeld-Others {id} {since} (records {t} c result now r before other) h =
    IsHeld-record_result id since c result now r t other (IsHeld-Others before h)

is_unlocked-IsLocked :
    (locked_until : Option ℕ) (now : ℕ)
    → IsLocked locked_until now
    → is_unlocked locked_until now ≡ false
is_unlocked-IsLocked none now h = absurd h
is_unlocked-IsLocked (some t) now h = ground arith

and-third : (a b c : Bool) → (a && b && c) ≡ true → c ≡ true
and-third a b c h = ground arith

Lacks-due_rows :
    (id : String) (since now : ℕ) (ds : List Delivery)
    → now < since + lease
    → IsHeld id since ds
    → Lacks id (due_rows now ds)
unfolding due_rows is_due
Lacks-due_rows id since now [] h k = tt
Lacks-due_rows id since now (d ∷ ds) h k = elim (Bool-cases (is_due now d)) [
  | inl due ↦ elim (Bool-cases (str_eq d.id id)) [
    | inl same ↦ absurd (
        true≢false (
          sym (and-third (is_pending d.status) (not_after d.next_attempt_at now) _ due)
          ∙ is_unlocked-IsLocked d.locked_until now (k.0 ((str_eq_iff d.id id).0 same) now h)))
    | inr other ↦ rw due (other, Lacks-due_rows id since now ds h k.1)
  ]
  | inr later ↦ rw later (Lacks-due_rows id since now ds h k.1)
]

Lacks-insert_due :
    (id : String) (d : Delivery) (ds : List Delivery)
    → str_eq d.id id ≡ false
    → Lacks id ds
    → Lacks id (insert_due d ds)
unfolding insert_due
Lacks-insert_due id d [] h k = (h, tt)
Lacks-insert_due id d (e ∷ es) h k =
    elim (Bool-cases (leb (attempt_time d.next_attempt_at) (attempt_time e.next_attempt_at))) [
      | inl before ↦ rw before (h, k)
      | inr after ↦ rw after (k.0, Lacks-insert_due id d es h k.1)
    ]

Lacks-sort_due : (id : String) (ds : List Delivery) → Lacks id ds → Lacks id (sort_due ds)
unfolding sort_due
Lacks-sort_due id [] k = tt
Lacks-sort_due id (d ∷ ds) k = Lacks-insert_due id d (sort_due ds) k.0 (Lacks-sort_due id ds k.1)

has_id-Lacks :
    (id : String) (limit : ℕ) (ds : List Delivery)
    → Lacks id ds
    → has_id (map delivery_id (take limit ds)) id ≡ false
has_id-Lacks id zero ds k = refl
has_id-Lacks id (suc limit) [] k = refl
has_id-Lacks id (suc limit) (d ∷ ds) k = rw k.0 (has_id-Lacks id limit ds k.1)

-- A claim returns deliveries that it leased, and no others.
has_id-claimed_of :
    (ids : List String) (id : String) (d : Delivery) (o : Option Endpoint) (e : Option Event)
    (cs : List Claimed)
    → has_id ids d.id ≡ true
    → (has_id (claimed_ids cs) id ≡ true → has_id ids id ≡ true)
    → has_id (claimed_ids (claimed_of d o e ++ cs)) id ≡ true
    → has_id ids id ≡ true
has_id-claimed_of ids id d (some o) (some e) cs h k m = elim (Bool-cases (str_eq d.id id)) [
  | inl same ↦ sym (has_id-same ids d.id id ((str_eq_iff d.id id).0 same)) ∙ h
  | inr other ↦ k (rw other at m)
]
has_id-claimed_of ids id d none e cs h k m = k m
has_id-claimed_of ids id d (some o) none cs h k m = k m

has_id-with_rows :
    (s : Tables) (ids : List String) (id : String) (ds : List Delivery)
    → has_id (claimed_ids (with_rows s (returning ids ds))) id ≡ true
    → has_id ids id ≡ true
unfolding with_rows returning
has_id-with_rows s ids id [] m = absurd (true≢false (sym m))
has_id-with_rows s ids id (d ∷ ds) m = elim (Bool-cases (has_id ids d.id)) [
  | inl mine ↦
      has_id-claimed_of ids id d (s.endpoints d.endpoint_id) (s.events d.event_id)
        (with_rows s (returning ids ds)) mine (has_id-with_rows s ids id ds) (rw mine at m)
  | inr other ↦ has_id-with_rows s ids id ds (rw other at m)
]

-- A delivery that a claim at `since` returning is
-- returning by no claim made before `since + lease`, whatever other claims at or after `since` and
-- recordings of other deliveries come between the two.
pub claim_due-excludes :
    (id : String) (limit since : ℕ) (s t : Tables) (limit' now : ℕ)
    → has_id (claimed_ids (claim_due limit since s).1) id ≡ true
    → Others id since (claim_due limit since s).0 t
    → now < since + lease
    → has_id (claimed_ids (claim_due limit' now t).1) id ≡ false
unfolding claim_due
claim_due-excludes id limit since s t limit' now mine others early =
    let held = IsHeld-Others others (
      IsHeld-lease_rows-claimed _ id since s.deliveries
        (has_id-with_rows s (due_ids limit since s.deliveries) id _ mine)) in
    let free =
      has_id-Lacks id limit' _
        (Lacks-sort_due id _ (Lacks-due_rows id since now t.deliveries early held)) in
    elim (Bool-cases (has_id (claimed_ids (claim_due limit' now t).1) id)) [
      | inl again ↦ absurd (
          true≢false (sym (has_id-with_rows t (due_ids limit' now t.deliveries) id _ again) ∙ free))
      | inr not_again ↦ not_again
    ]
