-- ===== src/Control/Callback/Delay.antt =====
-- crates/hull-ci-control/src/callback.rs: how long a delivery waits.
use hull_ci.Base.{ℕ, ◌+◌, ◌/◌, ◌%◌, ◌^◌, ◌≤◌, arith, ◌==◌, Bool-cases, inl, inr}
use native.Mathlib.Nat.{mod-lt, mod-le}
use hull_ci.Control.Callback.{RetryPolicy, backoff, delay, jitter}

jitter-lt : (random spread : ℕ) → jitter random spread ≤ spread
unfolding jitter
jitter-lt random spread = elim (Bool-cases (spread == 0)) [
  | inl e ↦ rw e (omega arith)
  | inr e ↦ rw e (omega (arith, mod-lt random {m = spread} (ground arith)))
]

half_lem : (b j : ℕ) → j ≤ b / 2 % 2 ^ 64 → (b / 2 ≤ b / 2 + j) × (b / 2 + j ≤ b)
half_lem b j h = (omega arith, omega (arith, mod-le (b / 2) (2 ^ 64)))

backoff-le : (p : RetryPolicy) (attempt : ℕ) → backoff p attempt ≤ p.max_delay
unfolding backoff
backoff-le p attempt = omega arith

-- Whatever number is drawn, a wait is at least half of the backoff and at most all of it, which is at
-- most the longest delay of the policy.
pub delay-bounds :
    (p : RetryPolicy) (random attempt : ℕ)
    → (backoff p attempt / 2 ≤ delay p random attempt)
      × (delay p random attempt ≤ backoff p attempt)
      × (backoff p attempt ≤ p.max_delay)
unfolding delay
delay-bounds p random attempt =
    let b = backoff p attempt in
    let (low, high) = half_lem b _ (jitter-lt random (b / 2 % 2 ^ 64)) in
    (low, high, backoff-le p attempt)
