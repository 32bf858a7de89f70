-- ===== src/Webhooks/Schedule.antt =====
-- packages/core/src/webhooks/schedule.ts: how long to wait before the next attempt.
use workloom.Base.{
  ◌≡◌, refl, Option, none, some, List, [], ◌∷◌, ℕ, zero, suc, ◌+◌, ◌*◌, ◌/◌, ◌≤◌, ◌<◌, length,
  get_elem?, arith, ◌⊎◌, inl, inr,
}

abbrev pub retry_delays_seconds : List ℕ
retry_delays_seconds = 15 ∷ 60 ∷ 5 * 60 ∷ 30 * 60 ∷ 2 * 3600 ∷ 6 * 3600 ∷ 12 * 3600 ∷ []

abbrev pub max_attempts : ℕ
max_attempts = length retry_delays_seconds + 1

abbrev pub disable_after_consecutive_failures : ℕ
disable_after_consecutive_failures = 5

-- `Math.random()` is `r / random_scale`, for some `r` below it.
abbrev pub random_scale : ℕ
random_scale = 9007199254740992

-- `RETRY_DELAYS_SECONDS[attemptsMade - 1]`: no delay stands at -1.
abbrev pub base_delay : ℕ → Option ℕ
base_delay zero = none
base_delay (suc n) = get_elem? retry_delays_seconds n

-- `Math.round(base * (0.8 + random() * 0.4))`, in exact arithmetic.
unfoldable pub jittered : ℕ → ℕ → ℕ
jittered base r = (2 * (base * (4 * random_scale + 2 * r)) + 5 * random_scale) / (10 * random_scale)

unfoldable pub next_retry_delay : ℕ → ℕ → Option ℕ
next_retry_delay attempts_made r = elim (base_delay attempts_made) [
  | none ↦ none
  | some base ↦ some (jittered base r)
]

scaled_lt : (base r : ℕ) → r < random_scale → base * r ≤ base * random_scale
scaled_lt base r h = grind arith

jittered_bounds :
    (base r : ℕ)
    → r < random_scale
    → (8 * base ≤ 10 * jittered base r + 5) × (10 * jittered base r ≤ 12 * base + 5)
unfolding jittered
jittered_bounds base r h = (omega (arith, scaled_lt base r h), omega (arith, scaled_lt base r h))

-- What is said of a delay that the schedule has.
abbrev pub IsJittered : ℕ → Option ℕ → Option ℕ → Type 0
IsJittered n (some base) (some delay) = (8 * base ≤ 10 * delay + 5) × (10 * delay ≤ 12 * base + 5)
IsJittered n none none = (n ≡ 0) ⊎ (max_attempts ≤ n)
IsJittered n none (some delay) = ⊥
IsJittered n (some base) none = ⊥

-- A retry waits for its delay of the schedule, give or take a fifth, and there is none after the
-- last attempt: for a random number below 1, `next_retry_delay` is none exactly where the
-- schedule has no delay, which is where the number of attempts made is 0 or at least 8, and
-- otherwise it lies between 0.8 and 1.2 times the base delay, rounded to a second.
pub next_retry_delay-IsJittered :
    (n r : ℕ) → r < random_scale → IsJittered n (base_delay n) (next_retry_delay n r)
unfolding next_retry_delay
next_retry_delay-IsJittered zero r h = inl refl
next_retry_delay-IsJittered (suc zero) r h = jittered_bounds 15 r h
next_retry_delay-IsJittered (suc (suc zero)) r h = jittered_bounds 60 r h
next_retry_delay-IsJittered (suc (suc (suc zero))) r h = jittered_bounds 300 r h
next_retry_delay-IsJittered (suc (suc (suc (suc zero)))) r h = jittered_bounds 1800 r h
next_retry_delay-IsJittered (suc (suc (suc (suc (suc zero))))) r h = jittered_bounds 7200 r h
next_retry_delay-IsJittered (suc (suc (suc (suc (suc (suc zero)))))) r h = jittered_bounds 21600 r h
next_retry_delay-IsJittered (suc (suc (suc (suc (suc (suc (suc zero))))))) r h =
    jittered_bounds 43200 r h
next_retry_delay-IsJittered (suc (suc (suc (suc (suc (suc (suc (suc n)))))))) r h =
    inr (omega arith)

in_range :
    (base r : ℕ)
    → r < random_scale
    → 15 ≤ base
    → base ≤ 43200
    → (12 ≤ jittered base r) × (jittered base r ≤ 51840)
in_range base r h low high =
    let (above, below) = jittered_bounds base r h in (omega arith, omega arith)

-- A retry of an attempt before the last waits between 12 seconds and 14.4 hours.
pub next_retry_delay_range :
    (n r : ℕ)
    → r < random_scale
    → 1 ≤ n
    → n < max_attempts
    → (delay : ℕ) × ((next_retry_delay n r ≡ some delay) × ((12 ≤ delay) × (delay ≤ 51840)))
unfolding next_retry_delay
next_retry_delay_range zero r h low high = absurd (omega arith)
next_retry_delay_range (suc zero) r h low high =
    (jittered 15 r, (refl, in_range 15 r h (omega arith) (omega arith)))
next_retry_delay_range (suc (suc zero)) r h low high =
    (jittered 60 r, (refl, in_range 60 r h (omega arith) (omega arith)))
next_retry_delay_range (suc (suc (suc zero))) r h low high =
    (jittered 300 r, (refl, in_range 300 r h (omega arith) (omega arith)))
next_retry_delay_range (suc (suc (suc (suc zero)))) r h low high =
    (jittered 1800 r, (refl, in_range 1800 r h (omega arith) (omega arith)))
next_retry_delay_range (suc (suc (suc (suc (suc zero))))) r h low high =
    (jittered 7200 r, (refl, in_range 7200 r h (omega arith) (omega arith)))
next_retry_delay_range (suc (suc (suc (suc (suc (suc zero)))))) r h low high =
    (jittered 21600 r, (refl, in_range 21600 r h (omega arith) (omega arith)))
next_retry_delay_range (suc (suc (suc (suc (suc (suc (suc zero))))))) r h low high =
    (jittered 43200 r, (refl, in_range 43200 r h (omega arith) (omega arith)))
next_retry_delay_range (suc (suc (suc (suc (suc (suc (suc (suc n)))))))) r h low high =
    absurd (omega arith)

pub next_retry_delay_last : (n r : ℕ) → max_attempts ≤ n → next_retry_delay n r ≡ none
unfolding next_retry_delay
next_retry_delay_last (suc (suc (suc (suc (suc (suc (suc (suc n)))))))) r h = refl
next_retry_delay_last zero r h = absurd (omega arith)
next_retry_delay_last (suc zero) r h = absurd (omega arith)
next_retry_delay_last (suc (suc zero)) r h = absurd (omega arith)
next_retry_delay_last (suc (suc (suc zero))) r h = absurd (omega arith)
next_retry_delay_last (suc (suc (suc (suc zero)))) r h = absurd (omega arith)
next_retry_delay_last (suc (suc (suc (suc (suc zero))))) r h = absurd (omega arith)
next_retry_delay_last (suc (suc (suc (suc (suc (suc zero)))))) r h = absurd (omega arith)
next_retry_delay_last (suc (suc (suc (suc (suc (suc (suc zero))))))) r h = absurd (omega arith)
