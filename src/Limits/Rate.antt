-- ===== src/Limits/Rate.antt =====
-- packages/core/src/rate-limit.ts: counting requests against a key. The upsert is one statement,
-- so a request is one step on the table.
use workloom.Base.{
  ◌≡◌, refl, sym, ◌∙◌, true≢false, ℕ, suc, ◌+◌, ◌-◌, ◌*◌, ◌/◌, min, leb, ◌==◌, Bool, true, false,
  if◌then◌else◌, Option, none, some, List, [], ◌∷◌, String, str_eq, str_eq_iff, Bool-cases, inl,
  inr, arith,
}

pub data LimitClass : Type 0 where
  read write expensive auth : LimitClass

abbrev pub window : ℕ
window = 60000

abbrev pub limits : LimitClass → ℕ
limits read = 600
limits write = 120
limits expensive = 20
limits auth = 10

pub record RateLimitDecision : Type 0 where
  pub allowed : Bool
  pub limit : ℕ
  pub remaining : ℕ
  pub reset_seconds : ℕ

pub record LimitRow : Type 0 where
  pub window_start : ℕ
  pub count : ℕ

-- `Math.floor(now.getTime() / WINDOW_MS) * WINDOW_MS`.
unfoldable pub window_of : ℕ → ℕ
window_of now = (now / window) * window

-- What the upsert makes of the row of its key.
abbrev pub count_request : ℕ → Option LimitRow → LimitRow
count_request start none = record { window_start = start; count = 1 }
count_request start (some row) = record {
  window_start = start;
  count = if row.window_start == start then row.count + 1 else 1;
}

-- `Math.ceil((windowStart + WINDOW_MS - now) / 1000)`.
unfoldable pub reset_after : ℕ → ℕ
reset_after now = (window_of now + window - now + 999) / 1000

unfoldable pub decide : ℕ → ℕ → ℕ → RateLimitDecision
decide limit now count = record {
  allowed = leb count limit;
  limit = limit;
  remaining = limit - count;
  reset_seconds = reset_after now;
}

-- The row of the key, and the decision.
unfoldable pub consume_rate_limit :
    String
    → LimitClass
    → ℕ
    → (String → Option LimitRow)
    → (String → Option LimitRow) × RateLimitDecision
consume_rate_limit key klass now rows =
    let row = count_request (window_of now) (rows key) in
    (λ k. if str_eq k key then some row else rows k, decide (limits klass) now row.count)

-- A request for a key.
pub record Request : Type 0 where
  pub key : String
  pub klass : LimitClass
  pub now : ℕ

-- Requests one after the other.
abbrev pub rows_after : List Request → (String → Option LimitRow) → String → Option LimitRow
rows_after [] rows = rows
rows_after (q ∷ qs) rows = rows_after qs (consume_rate_limit q.key q.klass q.now rows).0

-- How many of a key's requests are allowed.
abbrev pub allowed_count : String → List Request → (String → Option LimitRow) → ℕ
allowed_count key [] rows = 0
allowed_count key (q ∷ qs) rows =
    let rest = allowed_count key qs (consume_rate_limit q.key q.klass q.now rows).0 in
    if str_eq q.key key
    then (if (consume_rate_limit q.key q.klass q.now rows).1.allowed then suc rest else rest)
    else rest

-- How many of the requests are a key's.
abbrev pub request_count : String → List Request → ℕ
request_count key [] = 0
request_count key (q ∷ qs) =
    let rest = request_count key qs in if str_eq q.key key then suc rest else rest

-- The key's requests are of one class and stand in one window.
abbrev pub IsWindow : String → LimitClass → ℕ → List Request → Type 0
IsWindow key klass start [] = Unit
IsWindow key klass start (q ∷ qs) =
    (str_eq q.key key ≡ true → (q.klass ≡ klass) × (window_of q.now ≡ start))
    × IsWindow key klass start qs

-- What a key has used of a window.
abbrev pub used : ℕ → Option LimitRow → ℕ
used start none = 0
used start (some row) = if row.window_start == start then row.count else 0

used-count_request :
    (start : ℕ) (o : Option LimitRow) → (count_request start o).count ≡ suc (used start o)
used-count_request start none = refl
used-count_request start (some row) = ground arith

used-counted :
    (start : ℕ) (o : Option LimitRow)
    → used start (some (count_request start o)) ≡ suc (used start o)
used-counted start none = ground arith
used-counted start (some row) = ground arith

str_eq_comm : (a b : String) → str_eq a b ≡ str_eq b a
str_eq_comm a b = elim (Bool-cases (str_eq a b)) [
  | inl same ↦ same ∙ sym ((str_eq_iff b a).1 (sym ((str_eq_iff a b).0 same)))
  | inr other ↦ elim (Bool-cases (str_eq b a)) [
    | inl same ↦
        absurd (true≢false (sym ((str_eq_iff a b).1 (sym ((str_eq_iff b a).0 same))) ∙ other))
    | inr other' ↦ other ∙ sym other'
  ]
]

-- One more request of a window, and what is left for the others.
one_more :
    (n u limit : ℕ)
    → (if leb (suc u) limit then suc (min n (limit - suc u)) else min n (limit - suc u))
      ≡ min (suc n) (limit - u)
one_more n u limit = ground arith

-- What a request leaves its key, and another key.
row_of_key :
    (q : Request) (key : String) (rows : String → Option LimitRow)
    → str_eq q.key key ≡ true
    → (consume_rate_limit q.key q.klass q.now rows).0 key
      ≡ some (count_request (window_of q.now) (rows key))
unfolding consume_rate_limit
row_of_key q key rows h = rw (str_eq_comm key q.key ∙ h, (str_eq_iff q.key key).0 h) refl

row_of_other :
    (q : Request) (key : String) (rows : String → Option LimitRow)
    → str_eq q.key key ≡ false
    → (consume_rate_limit q.key q.klass q.now rows).0 key ≡ rows key
unfolding consume_rate_limit
row_of_other q key rows h = rw (str_eq_comm key q.key ∙ h) refl

allowed_of_key :
    (q : Request) (key : String) (rows : String → Option LimitRow)
    → str_eq q.key key ≡ true
    → (consume_rate_limit q.key q.klass q.now rows).1.allowed
      ≡ leb (suc (used (window_of q.now) (rows key))) (limits q.klass)
unfolding consume_rate_limit decide
allowed_of_key q key rows h =
    rw ((str_eq_iff q.key key).0 h, used-count_request (window_of q.now) (rows key)) refl

-- Of the requests that a key makes in one window, among any requests of other keys, exactly as
-- many are allowed as its class still allows in that window: their number, or the limit less
-- what the key had used of the window, whichever is less.
pub allowed_count-min :
    (key : String) (klass : LimitClass) (start : ℕ) (qs : List Request)
    (rows : String → Option LimitRow)
    → IsWindow key klass start qs
    → allowed_count key qs rows ≡ min (request_count key qs) (limits klass - used start (rows key))
allowed_count-min key klass start [] rows h = omega arith
allowed_count-min key klass start (q ∷ qs) rows h =
    let ih =
      allowed_count-min key klass start qs (consume_rate_limit q.key q.klass q.now rows).0 h.1 in
    elim (Bool-cases (str_eq q.key key)) [
      | inl same ↦
          let (same_class, same_window) = h.0 same in
          rw
            (
              same,
              ih,
              allowed_of_key q key rows same,
              row_of_key q key rows same,
              same_class,
              same_window,
              used-counted start (rows key),
            )
            (one_more (request_count key qs) (used start (rows key)) (limits klass))
      | inr other ↦ rw (other, ih, row_of_other q key rows other) refl
    ]
