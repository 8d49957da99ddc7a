-- ===== src/Control/Claims/Examples.antt =====
-- crates/hull-ci-control/src/claims.rs: the theorems about the claim store at small stores.
use hull_ci.Base.{
  ◌≡◌, refl, ◌&&◌, ◌||◌, not, true, false, [], ◌∷◌, none, Text, text_eq, text_keys, get, put, erase,
}
use hull_ci.Control.Claims.{
  TreeKey, DriveLease, LocalState, no_claims, admit, claim_step, destinations, contains, is_stale,
  admitted_job, is_duplicate, is_some, drop_stale,
}
use hull_ci.Control.Claims.Inv.{Inv, Called, Reach, Reach-Inv}
use hull_ci.Control.Claims.OneJob.{admit_twice}
use hull_ci.Control.Claims.Steps.{claimed, was_granted, claim_step-claimed}

abbrev a : Text
a = b'a' ∷ []

abbrev b : Text
b = b'b' ∷ []

abbrev key : TreeKey
key = record { repo = a; tree_id = b }

abbrev one_job : LocalState
one_job = (admit no_claims key a b 0 1000).0

abbrev lease : DriveLease
lease = record { job_id = a; owner = b; fence = 0 }

fresh : get a no_claims.claims ≡ none
unfolding get
fresh = refl

Reach-Inv_example : Inv (claim_step one_job lease b).0
Reach-Inv_example = Reach-Inv (
    Reach.next (Reach.next Reach.here (Called.admits no_claims key a b 0 1000 fresh))
      (Called.claims_step one_job lease b))

live : is_stale one_job key 500 1000 ≡ false
unfolding admit is_stale get put erase text_eq drop_stale
live = refl

admit_twice_example :
    let r = admit one_job key b a 500 1000 in
    (admitted_job r.1 ≡ admitted_job (admit no_claims key a b 0 1000).1)
    × (is_duplicate r.1 ≡ true)
    × (contains b (destinations r.0 (admitted_job (admit no_claims key a b 0 1000).1)) ≡ true)
    × (contains a (destinations r.0 (admitted_job (admit no_claims key a b 0 1000).1)) ≡ true)
admit_twice_example = admit_twice no_claims key a b b a 0 500 1000 live

claim_step-claimed_run :
    let r = claim_step one_job lease b in
    (was_granted r.1 ≡ (is_some (get a one_job.claims) && not (claimed one_job a b)))
    × (claimed r.0 a b ≡ (claimed one_job a b || (was_granted r.1 && text_eq a a && text_eq b b)))
claim_step-claimed_run = claim_step-claimed one_job lease b a b
