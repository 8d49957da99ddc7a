-- ===== src/Control/Callback/Examples.antt =====
-- crates/hull-ci-control/src/callback.rs: the theorems at the default policy, with a Hull that is
-- unavailable once and then answers.
use hull_ci.Base.{ℕ, ◌/◌, ◌≤◌, ◌≡◌, suc, count, ltb, if◌then◌else◌}
use hull_ci.Control.Callback.{
  Reply, response, default_policy, attempts_allowed, backoff, delay, deliver,
}
use hull_ci.Control.Callback.Delay.{delay-bounds}
use hull_ci.Control.Callback.Outcome.{
  Ends, deliver-Ends, deliver-events, attempts_of, is_request, is_wait,
}

abbrev hull : ℕ → Reply
hull n = if ltb n 2 then response 503 else response 200

abbrev random : ℕ → ℕ
random n = 7

delay-bounds_run :
    (backoff default_policy 3 / 2 ≤ delay default_policy 7 3)
    × (delay default_policy 7 3 ≤ backoff default_policy 3)
    × (backoff default_policy 3 ≤ 300_000_000_000)
delay-bounds_run = delay-bounds default_policy 7 3

deliver-Ends_example :
    Ends hull 1 (attempts_allowed default_policy hull random) (deliver default_policy hull random).1
deliver-Ends_example = deliver-Ends default_policy hull random

deliver-events_run :
    let r = deliver default_policy hull random in
    (count is_request r.0 ≡ attempts_of r.1) × (suc (count is_wait r.0) ≡ count is_request r.0)
deliver-events_run = deliver-events default_policy hull random
