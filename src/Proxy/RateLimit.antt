-- ===== src/Proxy/RateLimit.antt =====
-- crates/hull-ci-proxy/src/ratelimit.rs: the token bucket. Times are whole seconds; the saturating
-- operations of `u32` and `u64` are written out.
pub mod Bound
use hull_ci.Base.{
  ℕ, ◌+◌, ◌-◌, ◌*◌, ◌^◌, min, Bool, true, false, Option, none, some, ◌==◌, if◌then◌else◌,
}

abbrev pub u32_max : ℕ
u32_max = 2 ^ 32 - 1

abbrev pub u64_max : ℕ
u64_max = 2 ^ 64 - 1

pub record RateLimit : Type 0 where
  pub per_second : ℕ
  pub burst : ℕ

abbrev pub default_rate : RateLimit
default_rate = record { per_second = 20; burst = 200 }

pub record TokenBucket : Type 0 where
  pub limit : RateLimit
  pub tokens : ℕ
  pub last_refill : Option ℕ

abbrev pub new_bucket : RateLimit → TokenBucket
new_bucket limit = record { limit = limit; tokens = limit.burst; last_refill = none }

-- What `elapsed` seconds add: a product that saturates at `u64`, cut down to `u32`.
gained : ℕ → ℕ → ℕ
gained elapsed per_second = min (min (elapsed * per_second) u64_max) u32_max

refilled : TokenBucket → ℕ → ℕ → TokenBucket
unfolding gained
refilled b now elapsed = record b {
  tokens = min (min (b.tokens + gained elapsed b.limit.per_second) u32_max) b.limit.burst;
  last_refill = some now;
}

refill_since : Option ℕ → TokenBucket → ℕ → TokenBucket
unfolding refilled
refill_since none b now = record b { last_refill = some now }
refill_since (some last) b now = if (now - last) == 0 then b else refilled b now (now - last)

unfoldable pub refill : TokenBucket → ℕ → TokenBucket
unfolding refill_since
refill b now = refill_since b.last_refill b now

spend : TokenBucket → TokenBucket × Bool
spend b = if b.tokens == 0 then (b, false) else (record b { tokens = b.tokens - 1 }, true)

unfoldable pub take : TokenBucket → ℕ → TokenBucket × Bool
unfolding spend refill
take b now = spend (refill b now)

unfoldable pub available : TokenBucket → ℕ
available b = b.tokens
