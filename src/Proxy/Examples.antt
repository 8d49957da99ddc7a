-- ===== src/Proxy/Examples.antt =====
-- crates/hull-ci-proxy/src: the theorems about the proxy at small inputs.
use hull_ci.Base.{◌+◌, ◌-◌, ◌*◌, ◌≤◌, ◌<◌, ◌≡◌, refl, true, [], ◌∷◌, some, arith}
use hull_ci.Proxy.RateLimit.{TokenBucket, default_rate, new_bucket, take}
use hull_ci.Proxy.RateLimit.Bound.{granted, granted-le-rate, take_recovers}

granted-le-rate_example :
    granted (new_bucket default_rate) (3 ∷ 3 ∷ 5 ∷ 4 ∷ []) ≤ 200 + (5 - 3) * 20
granted-le-rate_example =
    granted-le-rate default_rate 3 5 (3 ∷ 5 ∷ 4 ∷ []) (omega arith)
      (omega arith, (omega arith, (omega arith, tt)))

abbrev empty : TokenBucket
empty = record { limit = default_rate; tokens = 0; last_refill = some 3 }

take_recovers_run : ((take empty 4).1 ≡ true) × ((take empty 4).0.tokens < 200)
take_recovers_run = take_recovers empty 3 4 refl (omega arith) (omega arith) (omega arith)
