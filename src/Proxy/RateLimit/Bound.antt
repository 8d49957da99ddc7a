-- ===== src/Proxy/RateLimit/Bound.antt =====
-- crates/hull-ci-proxy/src/ratelimit.rs: how much a bucket lets through.
use hull_ci.Base.{
  ℕ, ◌+◌, ◌-◌, ◌*◌, ◌≤◌, ◌<◌, ◌≡◌, refl, true, List, [], ◌∷◌, some, arith, All, if◌then◌else◌, max,
  ap, ◌∙◌,
}
use native.Mathlib.Nat.{add-mul}
use hull_ci.Proxy.RateLimit.{
  RateLimit, TokenBucket, new_bucket, gained, refill, refill_since, spend, take,
}

-- How many of the requests at the given times a bucket grants.
unfoldable pub granted : TokenBucket → List ℕ → ℕ
unfolding take
granted b [] = 0
granted b (t ∷ ts) = (if (take b t).1 then 1 else 0) + granted (take b t).0 ts

module _ (b : TokenBucket) (t last : ℕ) (since : b.last_refill ≡ some last) where
  refill-last : (refill b t).last_refill ≡ some (max last t)
  unfolding refill
  refill-last = rw (since, refill_since) (ground arith)

  -- The clock adds at most `per_second` for each second that it moved on.
  refill-tokens : (refill b t).tokens ≤ b.tokens + (max last t - last) * b.limit.per_second
  unfolding refill gained
  refill-tokens = rw (since, refill_since) (grind arith)

spend-last : (b : TokenBucket) → (spend b).0.last_refill ≡ b.last_refill
unfolding spend
spend-last b = ground arith

spend-tokens : (b : TokenBucket) → (if (spend b).1 then 1 else 0) + (spend b).0.tokens ≡ b.tokens
unfolding spend
spend-tokens b = ground arith

take-limit : (b : TokenBucket) (t : ℕ) → (take b t).0.limit ≡ b.limit
unfolding take
take-limit b t = ground arith

-- A request pays with a token.
take-budget :
    (b : TokenBucket) (t last : ℕ)
    → b.last_refill ≡ some last
    → ((take b t).0.last_refill ≡ some (max last t))
      × ((if (take b t).1 then 1 else 0) + (take b t).0.tokens
          ≤ b.tokens + (max last t - last) * b.limit.per_second)
unfolding take
take-budget b t last h = (
  spend-last (refill b t) ∙ refill-last b t last h,
  omega (arith, spend-tokens (refill b t), refill-tokens b t last h),
)

seconds_add : (a b c p : ℕ) → a ≤ b → b ≤ c → (b - a) * p + (c - b) * p ≡ (c - a) * p
seconds_add a b c p h k = rw (← add-mul (b - a) (c - b) p) (ap (λ n. n * p) (omega arith))

granted_after :
    (b : TokenBucket) (last until : ℕ) (ts : List ℕ)
    → b.last_refill ≡ some last
    → last ≤ until
    → All (λ t. t ≤ until) ts
    → granted b ts ≤ b.tokens + (until - last) * b.limit.per_second
unfolding granted
granted_after b last until [] h l a = omega arith
granted_after b last until (t ∷ ts) h l a =
    let (since, paid) = take-budget b t last h in
    let rest = granted_after (take b t).0 (max last t) until ts since (omega arith) a.1 in
    let same = ap (λ (r : RateLimit). r.per_second) (take-limit b t) in
    omega (
      arith,
      paid,
      rw same at rest,
      seconds_add last (max last t) until b.limit.per_second (omega arith) (omega arith),
    )

first_take :
    (limit : RateLimit) (first : ℕ)
    → let r = take (new_bucket limit) first in
      (r.0.last_refill ≡ some first) × ((if r.1 then 1 else 0) + r.0.tokens ≡ limit.burst)
unfolding take refill
first_take limit first = (spend-last _, spend-tokens _)

-- Over any run of requests, in whatever order their times come, a new bucket grants at most `burst`
-- and `per_second` for each second between the first request and the latest time.
pub granted-le-rate :
    (limit : RateLimit) (first until : ℕ) (ts : List ℕ)
    → first ≤ until
    → All (λ t. t ≤ until) ts
    → granted (new_bucket limit) (first ∷ ts) ≤ limit.burst + (until - first) * limit.per_second
unfolding granted
granted-le-rate limit first until ts h a =
    let b = (take (new_bucket limit) first).0 in
    let rest = granted_after b first until ts (first_take limit first).0 h a in
    let same = ap (λ (r : RateLimit). r.per_second) (take-limit (new_bucket limit) first) in
    omega (arith, (first_take limit first).1, rw same at rest)

refill_recovers :
    (b : TokenBucket) (last now : ℕ)
    → b.last_refill ≡ some last
    → last < now
    → 0 < b.limit.per_second
    → 0 < b.limit.burst
    → (0 < (refill b now).tokens) × ((refill b now).tokens ≤ b.limit.burst)
unfolding refill gained
refill_recovers b last now since later rate burst = rw (since, refill_since) (grind arith)

spend_some : (b : TokenBucket) → 0 < b.tokens → spend b ≡ (record b { tokens = b.tokens - 1 }, true)
unfolding spend
spend_some b h = ground arith

-- Whatever was taken before, a bucket whose limit lets anything through grants a request that comes
-- in a later second than its last refill, and holds fewer tokens than `burst` afterwards.
pub take_recovers :
    (b : TokenBucket) (last now : ℕ)
    → b.last_refill ≡ some last
    → last < now
    → 0 < b.limit.per_second
    → 0 < b.limit.burst
    → ((take b now).1 ≡ true) × ((take b now).0.tokens < b.limit.burst)
unfolding take
take_recovers b last now since later rate burst =
    let (some_left, bounded) = refill_recovers b last now since later rate burst in
    rw (spend_some (refill b now) some_left) (refl, omega arith)
