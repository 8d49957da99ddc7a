-- ===== src/Control/Callback.antt =====
-- crates/hull-ci-control/src/callback.rs: when a verdict is sent again. Durations are nanoseconds.
-- The transport and the random numbers are parameters: what each attempt is answered, and the number
-- that is drawn after it.
pub mod Delay
pub mod Outcome
mod Examples
use hull_ci.Base.{
  ℕ, zero, suc, ◌+◌, ◌-◌, ◌*◌, ◌/◌, ◌%◌, ◌^◌, min, max, Bool, true, false, not, ◌&&◌, ◌||◌, List,
  [], ◌∷◌, ◌++◌, Option, none, some, Text, lit, decimal, ltb, leb, ◌==◌, if◌then◌else◌,
}

unfoldable pub is_success : ℕ → Bool
is_success status = leb 200 status && ltb status 300

unfoldable pub is_retryable : ℕ → Bool
is_retryable status = leb 500 status || status == 408 || status == 429

-- `Result<CallbackResponse, TransportError>`.
pub data Reply : Type 0 where
  response : (status : ℕ) → Reply
  transport_error : Text → Reply

pub record RetryPolicy : Type 0 where
  pub base : ℕ
  pub max_delay : ℕ
  pub max_attempts : ℕ

abbrev pub default_policy : RetryPolicy
default_policy = record { base = 1_000_000_000; max_delay = 300_000_000_000; max_attempts = 12 }

abbrev pub u32_max : ℕ
u32_max = 2 ^ 32 - 1

-- `1u32.checked_shl(n).unwrap_or(u32::MAX)`.
shifted : ℕ → ℕ
shifted n = if ltb n 32 then 2 ^ n else u32_max

-- A `Duration` has a `u64` of whole seconds.
checked_mul : ℕ → ℕ → Option ℕ
checked_mul d k = if ltb (d * k / 1_000_000_000) (2 ^ 64) then some (d * k) else none

unwrap_or : Option ℕ → ℕ → ℕ
unwrap_or none d = d
unwrap_or (some n) d = n

unfoldable pub backoff : RetryPolicy → ℕ → ℕ
unfolding shifted checked_mul unwrap_or
backoff p attempt =
    min (unwrap_or (checked_mul p.base (shifted (attempt - 1))) p.max_delay) p.max_delay

jitter : ℕ → ℕ → ℕ
jitter random spread = if spread == 0 then 0 else random % spread

unfoldable pub delay : RetryPolicy → ℕ → ℕ → ℕ
unfolding backoff jitter
delay p random attempt = let half = backoff p attempt / 2 in half + jitter random (half % 2 ^ 64)

pub data Delivery : Type 0 where
  delivered : (attempts status : ℕ) → Delivery
  parked : (attempts : ℕ) (last : Text) → Delivery

-- `DeliveryProgress`, and the sleep that follows a wait.
pub data Event : Type 0 where
  request : (attempt max_attempts : ℕ) → Event
  wait : (attempt max_attempts delay : ℕ) → Event

-- What the loop makes of one answer.
pub data Judged : Type 0 where
  success : (status : ℕ) → Judged
  refused : (last : Text) → Judged
  again : (last : Text) → Judged

judge_status : ℕ → Judged
judge_status status =
    if is_success status
    then success status
    else if not (is_retryable status)
    then refused (lit "HTTP " ++ decimal status ++ lit " (not retryable)")
    else again (lit "HTTP " ++ decimal status)

unfoldable pub judge : Reply → Judged
unfolding judge_status
judge (response status) = judge_status status
judge (transport_error e) = again (lit "callback transport failed: " ++ e)

module _ (policy : RetryPolicy) (post : ℕ → Reply) (random : ℕ → ℕ) where
  abbrev pub attempts_allowed : ℕ
  attempts_allowed = max policy.max_attempts 1

  abbrev asked : ℕ → Event
  asked n = request n attempts_allowed

  abbrev slept : ℕ → Event
  slept n = wait n attempts_allowed (delay policy (random n) n)

  -- One attempt, and what a failure that may pass leads to.
  turn : ℕ → (Text → List Event × Delivery) → Judged → List Event × Delivery
  turn n later (success status) = (asked n ∷ [], delivered n status)
  turn n later (refused last) = (asked n ∷ [], parked n last)
  turn n later (again last) = let (events, outcome) = later last in (asked n ∷ events, outcome)

  -- The loop from the attempt `n` on, when `left` more are allowed after it.
  unfoldable pub deliver_from : (left n : ℕ) → List Event × Delivery
  unfolding turn
  deliver_from zero n = turn n (λ last. ([], parked attempts_allowed last)) (judge (post n))
  deliver_from (suc left) n =
      turn n
        (λ last. let (events, outcome) = deliver_from left (suc n) in (slept n ∷ events, outcome))
        (judge (post n))

  -- `deliver_reporting`.
  unfoldable pub deliver : List Event × Delivery
  unfolding deliver_from
  deliver = deliver_from (attempts_allowed - 1) 1
