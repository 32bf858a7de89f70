-- ===== src/Limits/Sla.antt =====
-- packages/core/src/modules/support/sla.ts: what was promised on a ticket, and whether it was kept.
-- The plan that decides is the one the query of `serviceLevelFor` returns.
use workloom.Base.{
  ◌≡◌, refl, ℕ, ◌+◌, ◌*◌, ◌≤◌, leb, ltb, true, if◌then◌else◌, Option, none, some, ◌⊎◌, Bool-cases,
  inl, inr, arith,
}

pub record ServiceLevel : Type 0 where
  pub response_hours : Option ℕ
  pub resolution_hours : Option ℕ

pub data Priority : Type 0 where
  urgent high normal low : Priority

abbrev pub sla_defaults : Priority → ServiceLevel
sla_defaults urgent = record { response_hours = some 2; resolution_hours = some 8 }
sla_defaults high = record { response_hours = some 4; resolution_hours = some 24 }
sla_defaults normal = record { response_hours = some 8; resolution_hours = some 72 }
sla_defaults low = record { response_hours = some 24; resolution_hours = some 168 }

-- `a ?? b`.
abbrev or_else : Option ℕ → Option ℕ → Option ℕ
or_else none b = b
or_else (some a) b = some a

-- The level that the client's active plan, if there is one, gives a new ticket.
unfoldable pub service_level_for : Option ServiceLevel → Priority → ServiceLevel
service_level_for none priority = sla_defaults priority
service_level_for (some plan) priority = record {
  response_hours = or_else plan.response_hours (sla_defaults priority).response_hours;
  resolution_hours = or_else plan.resolution_hours (sla_defaults priority).resolution_hours;
}

unfoldable pub due_at : ℕ → Option ℕ → Option ℕ
due_at from none = none
due_at from (some hours) = some (from + hours * 60 * 60 * 1000)

pub data SlaState : Type 0 where
  nothing_promised due met breached : SlaState

unfoldable pub sla_state : Option ℕ → Option ℕ → ℕ → SlaState
sla_state none happened_at now = nothing_promised
sla_state (some target) (some happened_at) now = if leb happened_at target then met else breached
sla_state (some target) none now = if ltb target now then breached else due

still_gone : (target now later : ℕ) → now ≤ later → ltb target now ≡ true → ltb target later ≡ true
still_gone target now later h gone = ground arith

running_later :
    (target now later : ℕ)
    → now ≤ later
    → ((if ltb target later then breached else due) ≡ (if ltb target now then breached else due))
      ⊎ (((if ltb target now then breached else due) ≡ due)
          × ((if ltb target later then breached else due) ≡ breached))
running_later target now later h = elim (Bool-cases (ltb target now)) [
  | inl gone ↦ inl (rw (gone, still_gone target now later h gone) refl)
  | inr running ↦ elim (Bool-cases (ltb target later)) [
    | inl gone ↦ inr (rw running refl, rw gone refl)
    | inr still ↦ inl (rw (running, still) refl)
  ]
]

-- As time passes a clock keeps its state, or it was due and is breached.
pub sla_state_later :
    (target happened_at : Option ℕ) (now later : ℕ)
    → now ≤ later
    → (sla_state target happened_at later ≡ sla_state target happened_at now)
      ⊎ ((sla_state target happened_at now ≡ due) × (sla_state target happened_at later ≡ breached))
unfolding sla_state
sla_state_later none happened_at now later h = inl refl
sla_state_later (some target) (some happened_at) now later h = inl refl
sla_state_later (some target) none now later h = running_later target now later h
