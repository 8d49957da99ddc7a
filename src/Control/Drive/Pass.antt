-- ===== src/Control/Drive/Pass.antt =====
-- crates/hull-ci-control/src/control.rs: a driver either ends its job or has something to wait for.
use hull_ci.Base.{
  ℕ, ◌-◌, ◌≤◌, ◌<◌, ◌≡◌, refl, Bool, true, false, List, [], ◌∷◌, keep, any, Option, none, some,
  Text, text_eq, leb, if◌then◌else◌, arith, Bool-cases, Option-cases, inl, inr, ◌⊎◌, ap, ◌∙◌, find,
  some_inj,
}
use hull_ci.Proto.Verdict.{Verdict, Status}
use hull_ci.Control.JobState.{running, from_status, has_verdict, can_transition_to}
use hull_ci.Control.StepState.{is_terminal, is_in_flight}
use hull_ci.Control.Step.{Step}
use hull_ci.Control.Job.{Job, transition_at, step_of}
use hull_ci.Control.Graph.{advance, any_live}
use hull_ci.Control.Aggregate.{Decision, Fold, undecided, decided, fold}
use hull_ci.Control.Aggregate.Progress.{advance-fold_decides}
use hull_ci.Control.Timeouts.{Timeouts, Expiry, expiry_verdict, sweep, next_step_deadline}
use hull_ci.Control.Handover.{cancel_steps, cancel_step}
use hull_ci.Control.Handover.Cancelled.{over, cancel_steps-Cancels, member, cancel_step-state}
use hull_ci.Control.Drive.{
  wait, deadline_or, next_of, moved_steps, pass, in_flight_ids, with_details_url, details_url,
  moved_or, record_verdict, finished, follow, drive_once,
}

Fold-cases : (f : Fold) → (f ≡ undecided) ⊎ ((d : Decision) × (f ≡ decided d))
Fold-cases undecided = inl refl
Fold-cases (decided d) = inr (d, refl)

deadline_or-le : (o : Option ℕ) (limit : ℕ) → deadline_or o limit ≤ limit
unfolding deadline_or
deadline_or-le none limit = omega arith
deadline_or-le (some d) limit = omega arith

-- What a driver that goes to sleep has to wait for.
pub record WaitsFor (j : Job) (t : Timeouts) (now d : ℕ) : Type 0 where
  pub live : any_live (moved_steps j t now) ≡ true
  pub bounded : d ≤ j.deadline_at
  pub early : now < j.deadline_at

next_of-wait :
    (f : Fold) (steps : List Step) (t : Timeouts) (limit d : ℕ)
    → next_of f steps t limit ≡ wait d
    → (f ≡ undecided) × (d ≤ limit)
unfolding next_of
next_of-wait (decided x) steps t limit d h = absurd (ground arith)
next_of-wait undecided steps t limit d h =
    (refl, omega (arith, deadline_or-le (next_step_deadline steps t) limit, wait_inj h))
  where
    wait_inj : {a b : ℕ} → wait a ≡ wait b → a ≡ b
    wait_inj e = ground arith

live_if_open :
    (steps : List Step) (now elapsed : ℕ)
    → fold (advance steps now).0 elapsed ≡ undecided
    → any_live (advance steps now).0 ≡ true
live_if_open steps now elapsed h = elim (Bool-cases (any_live (advance steps now).0)) [
  | inl live ↦ live
  | inr dead ↦ absurd (advance-fold_decides steps now elapsed dead h)
]

-- A driver goes to sleep only when some step of its job is ready or on a node, before the job's
-- deadline, and for no longer than to that deadline.
pub pass-WaitsFor :
    (j : Job) (t : Timeouts) (now d : ℕ) → (pass j t now).1 ≡ wait d → WaitsFor j t now d
unfolding pass moved_steps
pass-WaitsFor j t now d h = elim (Bool-cases (leb j.deadline_at now)) [
  | inl late ↦ let bad = rw late at h in absurd (ground arith)
  | inr early ↦
      let (unsettled, bound) = next_of-wait _ _ t j.deadline_at d (rw early at h) in
      record {
        live = live_if_open (sweep j.steps t now).0 now (now - j.created_at) unsettled;
        bounded = bound;
        early = ground arith;
      }
]

transition_at-from_status :
    (j : Job) (s : Status) (now : ℕ)
    → j.state ≡ running
    → (moved_or j (transition_at j (from_status s) now)).state ≡ from_status s
unfolding transition_at from_status can_transition_to moved_or
transition_at-from_status j Status.green now h = rw h refl
transition_at-from_status j Status.red now h = rw h refl
transition_at-from_status j Status.errored now h = rw h refl

-- The state of a job agrees with the verdict that it recorded.
pub record IsEnded (j : Job) (status : Status) : Type 0 where
  pub state : j.state ≡ from_status status
  pub recorded : (v : Verdict) × (j.verdict ≡ some v) × (v.status ≡ status)

with_details_url-status : (v : Verdict) (o : Option Text) → (with_details_url v o).status ≡ v.status
unfolding with_details_url
with_details_url-status v none = refl
with_details_url-status v (some url) = refl

second {ℓ κ} :
    {A : Type ℓ} (P : A → Type κ) (b : Bool) (x y : A) → b ≡ false → P y → P (if b then x else y)
second P true x y h p = absurd (ground arith)
second P false x y h p = p

record_verdict-IsEnded :
    (j : Job) (base : Option Text) (v : Verdict) (now : ℕ)
    → j.state ≡ running
    → IsEnded (record_verdict j base v now).0 v.status
unfolding record_verdict has_verdict
record_verdict-IsEnded j base v now h =
    let url = details_url base j.id in
    let same = with_details_url-status v url in
    second (λ (r : Job × Bool). IsEnded r.0 v.status) (has_verdict j.state) _ _ (ap has_verdict h)
      (record {
        state =
            transition_at-from_status j (with_details_url v url).status now h ∙ ap from_status same;
        recorded = (with_details_url v url, refl, same);
      })

-- A verdict changes no step.
record_verdict-steps :
    (j : Job) (base : Option Text) (v : Verdict) (now : ℕ)
    → (record_verdict j base v now).0.steps ≡ j.steps
unfolding record_verdict transition_at moved_or
record_verdict-steps j base v now = ground arith

cancel_steps-state : (j : Job) (ids : List Text) → (cancel_steps j ids).1.state ≡ j.state
unfolding cancel_steps
cancel_steps-state j [] = refl
cancel_steps-state j (id ∷ ids) =
    cancel_steps-state (cancel_step j id (step_of j id)).1 ids ∙ cancel_step-state j id

in_flight-member :
    (ss : List Step) (id : Text) (s : Step)
    → find (λ u. text_eq u.id id) ss ≡ some s
    → is_in_flight s.state ≡ true
    → member id (in_flight_ids ss) ≡ true
unfolding in_flight_ids member keep find any
in_flight-member [] id s h k = absurd (ground arith)
in_flight-member (u ∷ ss) id s h k = elim (Bool-cases (text_eq u.id id)) [
  | inl hit ↦
      let same = some_inj (rw hit at h) in
      let busy = ap (λ (v : Step). is_in_flight v.state) same ∙ k in rw (busy, hit) refl
  | inr miss ↦
      let rest = in_flight-member ss id s (rw miss at h) k in
      elim (Bool-cases (is_in_flight u.state)) [
        | inl busy ↦ rw busy (ground arith)
        | inr idle ↦ rw idle rest
      ]
]

idle-over :
    (j : Job) (id : Text) → member id (in_flight_ids j.steps) ≡ false → over (step_of j id) ≡ true
unfolding over step_of is_in_flight
idle-over j id h = elim (Option-cases (step_of j id)) [
  | inl e ↦ rw e refl
  | inr (s, e) ↦ rw e (elim (Bool-cases (is_terminal s.state)) [
    | inl done ↦ done
    | inr busy ↦ absurd (ground (arith, in_flight-member j.steps id s e))
  ])
]

is_late : (deadline now : ℕ) → deadline ≤ now → leb deadline now ≡ true
is_late deadline now h = ground arith

-- Whatever was in flight is over once every step in flight is cancelled.
cancel_all-over :
    (j : Job) (id : Text) → over (step_of (cancel_steps j (in_flight_ids j.steps)).1 id) ≡ true
cancel_all-over j id =
    let v = cancel_steps-Cancels j (in_flight_ids j.steps) in
    elim (Bool-cases (member id (in_flight_ids j.steps))) [
      | inl named ↦ v.named id named
      | inr other ↦ ap over (v.others id other) ∙ idle-over j id other
    ]

cancel_steps-steps : (j k : Job) (id : Text) → k.steps ≡ j.steps → step_of k id ≡ step_of j id
unfolding step_of
cancel_steps-steps j k id h = ap (find (λ s. text_eq s.id id)) h

-- From its deadline on a running job is ended by the next pass, with an errored verdict, and none of
-- its steps is in flight afterwards.
pub drive_once-late :
    (j : Job) (t : Timeouts) (base : Option Text) (now : ℕ)
    → j.state ≡ running
    → j.deadline_at ≤ now
    → let d = drive_once j t base now in
      IsEnded d.job Status.errored
      × (d.sleep_until ≡ none)
      × ((id : Text) → over (step_of d.job id) ≡ true)
unfolding drive_once pass follow finished expiry_verdict
drive_once-late j t base now h late =
    let k : Job = record j { steps = moved_steps j t now } in
    let c = (cancel_steps k (in_flight_ids k.steps)).1 in
    let v = expiry_verdict Expiry.job t.job in
    rw (is_late j.deadline_at now late, follow)
      (
        record_verdict-IsEnded c base v now (cancel_steps-state k (in_flight_ids k.steps) ∙ h),
        refl,
        λ id.
            ap over (cancel_steps-steps c _ id (record_verdict-steps c base v now))
            ∙ cancel_all-over k id,
      )
