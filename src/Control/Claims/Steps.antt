-- ===== src/Control/Claims/Steps.antt =====
-- crates/hull-ci-control/src/claims.rs: a step of a job is leased out by one claim at a time.
use hull_ci.Base.{
  ◌≡◌, refl, Bool, true, false, not, ◌||◌, ◌&&◌, List, [], ◌∷◌, Option, none, some, Text, text_eq,
  text_eq_iff, text_keys, get, put, get-put, arith, any, keep, Bool-cases, Option-cases, inl, inr,
  if◌then◌else◌,
}
use hull_ci.Control.Claims.{
  LocalClaim, LocalState, DriveLease, StepClaim, granted, taken, fenced, claim_step, claim_step_in,
  insert_step, release_step, change_claim, contains, is_some,
}

claimed_in : Option LocalClaim → Text → Bool
claimed_in none step_id = false
claimed_in (some c) step_id = contains step_id c.steps

-- Whether a step is claimed for a job.
unfoldable pub claimed : LocalState → Text → Text → Bool
unfolding claimed_in
claimed st id step_id = claimed_in (get id st.claims) step_id

unfoldable pub was_granted : StepClaim → Bool
was_granted granted = true
was_granted (taken by) = false
was_granted (fenced by) = false

contains_insert :
    (x s : Text) (ss : List Text) → contains x (s ∷ ss) ≡ (text_eq s x || contains x ss)
unfolding contains any
contains_insert x s ss = refl

contains-keep :
    (x s : Text) (ss : List Text)
    → contains x (keep (λ y. not (text_eq y s)) ss) ≡ (not (text_eq s x) && contains x ss)
unfolding contains any keep
contains-keep x s [] = ground arith
contains-keep x s (y ∷ ss) =
    ground (arith, contains-keep x s ss, text_eq_iff y s, text_eq_iff y x, text_eq_iff s x)

module _ (m : List (Text × LocalClaim)) (j id other : Text) where
  claimed_in-put :
      (d : LocalClaim)
      → claimed_in (get id (put j d m)) other
        ≡ (if text_eq j id then contains other d.steps else claimed_in (get id m) other)
  unfolding claimed_in contains
  claimed_in-put d =
      rw (get-put j id d m)
        (elim (Bool-cases (text_eq j id)) [ inl hit ↦ rw hit refl | inr miss ↦ rw miss refl ])

  claimed_in-here :
      (c : LocalClaim)
      → get j m ≡ some c
      → text_eq j id ≡ true
      → claimed_in (get id m) other ≡ contains other c.steps
  unfolding claimed_in contains
  claimed_in-here c e hit = rw (← (text_eq_iff j id).0 hit, e) refl

  claimed_in-gone : get j m ≡ none → text_eq j id ≡ true → claimed_in (get id m) other ≡ false
  unfolding claimed_in contains
  claimed_in-gone e hit = rw (← (text_eq_iff j id).0 hit, e) refl

insert_step-claimed :
    (st : LocalState) (j : Text) (c : LocalClaim) (step_id id other : Text)
    → get j st.claims ≡ some c
    → let r = insert_step st j c step_id in
      (was_granted r.1 ≡ not (contains step_id c.steps))
      × (claimed r.0 id other
          ≡ (claimed st id other || (was_granted r.1 && text_eq j id && text_eq step_id other)))
unfolding insert_step claimed was_granted
insert_step-claimed st j c step_id id other e = elim (Bool-cases (contains step_id c.steps)) [
  | inl old ↦ rw old (refl, ground arith)
  | inr new ↦ rw new (
    refl,
    ground (
      arith,
      claimed_in-put st.claims j id other (record c { steps = step_id ∷ c.steps }),
      claimed_in-here st.claims j id other c e,
      contains_insert other step_id c.steps,
    ),
  )
]

-- An attempt to lease a step out is granted exactly when the job is known and the step is not
-- claimed, and afterwards exactly the steps that were claimed before are claimed and, where it was
-- granted, that one.
pub claim_step-claimed :
    (st : LocalState) (lease : DriveLease) (step_id id other : Text)
    → let r = claim_step st lease step_id in
      (was_granted r.1
        ≡ (is_some (get lease.job_id st.claims) && not (claimed st lease.job_id step_id)))
      × (claimed r.0 id other ≡ (
          claimed st id other
          || (was_granted r.1 && text_eq lease.job_id id && text_eq step_id other)))
unfolding claim_step claimed was_granted is_some
claim_step-claimed st lease step_id id other = elim (Option-cases (get lease.job_id st.claims)) [
  | inl e ↦ rw (e, claim_step_in) (refl, ground arith)
  | inr (c, e) ↦
      rw (e, claim_step_in, claimed_in) (insert_step-claimed st lease.job_id c step_id id other e)
]

-- Giving a step of a known job back frees that step, and it alone.
pub release_step-claimed :
    (st : LocalState) (lease : DriveLease) (step_id id other : Text)
    → claimed (release_step st lease step_id) id other
      ≡ (claimed st id other && not (text_eq lease.job_id id && text_eq step_id other))
unfolding release_step claimed
release_step-claimed st lease step_id id other = elim (Option-cases (get lease.job_id st.claims)) [
  | inl e ↦ rw (e, change_claim) (ground (arith, claimed_in-gone st.claims lease.job_id id other e))
  | inr (c, e) ↦
      rw (e, change_claim)
        (ground (
          arith,
          claimed_in-put st.claims lease.job_id id other
              (record c { steps = keep (λ y. not (text_eq y step_id)) c.steps }),
          claimed_in-here st.claims lease.job_id id other c e,
          contains-keep other step_id c.steps,
        ))
]
