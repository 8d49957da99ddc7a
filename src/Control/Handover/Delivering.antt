-- ===== src/Control/Handover/Delivering.antt =====
-- crates/hull-ci-control/src/control.rs: one sender at a time for a job's verdict.
use hull_ci.Base.{
  ℕ, suc, ◌+◌, ◌≤◌, Bool, true, false, List, [], ◌∷◌, Option, none, some, arith, if◌then◌else◌,
}
use hull_ci.Control.Job.{Job, awaits_redelivery}
use hull_ci.Control.Handover.{claim_delivery, claim_delivery_if_parked, release_delivery}

-- What is asked of a job's right to deliver, with the instant at which it is.
pub data Ask : Type 0 where
  claim : (now : ℕ) → Ask
  claim_parked : (interval now : ℕ) → Ask
  give_back : (now : ℕ) → Ask

answer : Option Job → Ask → Option Job × Bool
answer o (claim now) = claim_delivery o now
answer o (claim_parked interval now) = claim_delivery_if_parked o interval now
answer o (give_back now) = (release_delivery o now, false)

is_give_back : Ask → Bool
is_give_back (give_back now) = true
is_give_back _ = false

-- How many of the claims are granted, and how often the right is given back.
unfoldable pub grants : Option Job → List Ask → ℕ
unfolding answer claim_delivery claim_delivery_if_parked release_delivery
grants o [] = 0
grants o (a ∷ asks) = (if (answer o a).1 then 1 else 0) + grants (answer o a).0 asks

unfoldable pub returns : List Ask → ℕ
unfolding is_give_back
returns [] = 0
returns (a ∷ asks) = (if is_give_back a then 1 else 0) + returns asks

held : Option Job → ℕ
held none = 0
held (some j) = if j.delivering then 1 else 0

answer-held :
    (o : Option Job) (a : Ask)
    → held o + (if (answer o a).1 then 1 else 0)
      ≤ held (answer o a).0 + (if is_give_back a then 1 else 0)
unfolding answer held is_give_back claim_delivery claim_delivery_if_parked release_delivery
    awaits_redelivery
answer-held none a = ground arith
answer-held (some j) a = ground arith

held-le : (o : Option Job) → held o + 0 ≤ 1
unfolding held
held-le none = omega arith
held-le (some j) = ground arith

grants_more : (o : Option Job) (asks : List Ask) → held o + grants o asks ≤ suc (returns asks)
unfolding grants returns
grants_more o [] = held-le o
grants_more o (a ∷ asks) = omega (arith, answer-held o a, grants_more (answer o a).0 asks)

-- However claims and returns are interleaved, at most one more delivery is granted than has been
-- given back: a delivery of a job's verdict starts only when the one before it is over.
pub grants-le-returns : (o : Option Job) (asks : List Ask) → grants o asks ≤ suc (returns asks)
grants-le-returns o asks = omega (arith, grants_more o asks)
