-- ===== src/Control/Handover/Cancelled.antt =====
-- crates/hull-ci-control/src/control.rs: which steps the fleet is told to stop, and what becomes of
-- the steps that are cancelled.
use hull_ci.Base.{
  ◌≡◌, refl, Bool, true, false, ◌&&◌, ◌||◌, List, [], ◌∷◌, ◌++◌, Option, none, some, Text, text_eq,
  text_eq_iff, arith, any, Bool-cases, Option-cases, inl, inr, if◌then◌else◌, ap, ◌∙◌, sym,
}
use hull_ci.Control.StepState.{is_terminal, skipped, can_transition_to}
use hull_ci.Control.Step.{Step, transition}
use hull_ci.Control.Job.{Job, step_of}
use hull_ci.Control.Lease.{on_node, with_step}
use hull_ci.Control.Lease.Report.{find-set_step, step_of-id}
use hull_ci.Control.Handover.{cancel_step, cancel_steps, skipped_or}

unfoldable pub over : Option Step → Bool
unfolding is_terminal
over none = true
over (some s) = is_terminal s.state

-- The id is that of a step that is on a node.
unfoldable pub runs : Option Step → Bool
unfolding on_node
runs none = false
runs (some s) = on_node s.state

-- A step after its cancelling.
cancelled : Option Step → Option Step
unfolding skipped_or
cancelled none = none
cancelled (some s) = some (skipped_or s (transition s skipped))

over-cancelled : (o : Option Step) → over (cancelled o) ≡ true
unfolding over cancelled transition can_transition_to
over-cancelled none = refl
over-cancelled (some s) = ground arith

runs-cancelled : (o : Option Step) → runs (cancelled o) ≡ false
unfolding runs cancelled transition can_transition_to
runs-cancelled none = refl
runs-cancelled (some s) = ground arith

skipped-id : (s : Step) → (skipped_or s (transition s skipped)).id ≡ s.id
unfolding skipped_or transition
skipped-id s = ground arith

none_there :
    (f : Text → Option Step) (id other : Text)
    → f id ≡ none
    → f other ≡ (if text_eq id other then cancelled none else f other)
unfolding cancelled
none_there f id other e = elim (Bool-cases (text_eq id other)) [
  | inl hit ↦ rw hit (ap f (sym ((text_eq_iff id other).0 hit)) ∙ e)
  | inr miss ↦ rw miss refl
]

cancelled_idem : (o : Option Step) → cancelled (cancelled o) ≡ cancelled o
unfolding cancelled transition can_transition_to skipped_or
cancelled_idem none = refl
cancelled_idem (some s) = elim (Bool-cases (can_transition_to s.state skipped)) [
  | inl e ↦ ground arith
  | inr e ↦ ground arith
]

cancel_step-found :
    (j : Job) (id other : Text)
    → step_of (cancel_step j id (step_of j id)).1 other
      ≡ (if text_eq id other then cancelled (step_of j id) else step_of j other)
unfolding cancel_step cancelled with_step step_of
cancel_step-found j id other = elim (Option-cases (step_of j id)) [
  | inl e ↦ rw (e, cancel_step) (none_there (step_of j) id other e)
  | inr (s, e) ↦
      rw (e, cancel_step)
        (find-set_step id other s _ j.steps e (skipped-id s ∙ step_of-id j id s e))
]

cancel_step-one :
    (j : Job) (id other : Text)
    → step_of (cancel_step j id (step_of j id)).1 other
      ≡ (if text_eq id other then cancelled (step_of j other) else step_of j other)
cancel_step-one j id other = cancel_step-found j id other ∙ elim (Bool-cases (text_eq id other)) [
  | inl hit ↦ rw hit (ap (λ i. cancelled (step_of j i)) ((text_eq_iff id other).0 hit))
  | inr miss ↦ rw miss refl
]

cancel_step-sent :
    (j : Job) (id : Text)
    → (cancel_step j id (step_of j id)).0 ≡ (if runs (step_of j id) then id ∷ [] else [])
unfolding cancel_step runs
cancel_step-sent j id = elim (Option-cases (step_of j id)) [
  | inl e ↦ rw (e, cancel_step) refl
  | inr (s, e) ↦ rw (e, cancel_step) refl
]

unfoldable pub member : Text → List Text → Bool
unfolding any
member id ids = any (λ i. text_eq i id) ids

member-append :
    (id : Text) (xs ys : List Text) → member id (xs ++ ys) ≡ (member id xs || member id ys)
unfolding member any
member-append id [] ys = refl
member-append id (x ∷ xs) ys = ground (arith, member-append id xs ys)

twice :
    (a m : Bool) (o p r : Option Step)
    → p ≡ (if a then cancelled o else o)
    → r ≡ (if m then cancelled p else p)
    → r ≡ (if a || m then cancelled o else o)
twice true true o p r h k = k ∙ ap cancelled h ∙ cancelled_idem o
twice true false o p r h k = k ∙ h
twice false true o p r h k = k ∙ ap cancelled h
twice false false o p r h k = k ∙ h

sent_or_later :
    (a m ri r rk s more : Bool)
    → s ≡ (ri && a)
    → (a ≡ true → ri ≡ r)
    → rk ≡ (if a then false else r)
    → more ≡ (m && rk)
    → (s || more) ≡ ((a || m) && r)
sent_or_later a m ri r rk s more h k l n = ground arith

member-sent : (i id : Text) (b : Bool) → member id (if b then i ∷ [] else []) ≡ (b && text_eq i id)
unfolding member any
member-sent i id b = ground arith

runs-after :
    (a : Bool) (o : Option Step)
    → runs (if a then cancelled o else o) ≡ (if a then false else runs o)
runs-after true o = runs-cancelled o
runs-after false o = refl

sent_once :
    (i : Text) (ids : List Text) (id : Text) (j : Job) (more : Bool)
    → more ≡ (member id ids && runs (step_of (cancel_step j i (step_of j i)).1 id))
    → (member id (cancel_step j i (step_of j i)).0 || more)
      ≡ ((text_eq i id || member id ids) && runs (step_of j id))
sent_once i ids id j more h =
    sent_or_later (text_eq i id) (member id ids) (runs (step_of j i)) (runs (step_of j id)) _ _ more
      (ap (member id) (cancel_step-sent j i) ∙ member-sent i id (runs (step_of j i)))
      (λ hit. ap (λ (u : Text). runs (step_of j u)) ((text_eq_iff i id).0 hit))
      (ap runs (cancel_step-one j i id) ∙ runs-after (text_eq i id) (step_of j id)) h

-- Each step that is named is cancelled once, and no other.
cancel_steps-each :
    (j : Job) (ids : List Text) (id : Text)
    → step_of (cancel_steps j ids).1 id
      ≡ (if member id ids then cancelled (step_of j id) else step_of j id)
unfolding cancel_steps member any
cancel_steps-each j [] id = refl
cancel_steps-each j (i ∷ ids) id =
    let k = (cancel_step j i (step_of j i)).1 in
    twice (text_eq i id) (member id ids) (step_of j id) (step_of k id) _ (cancel_step-one j i id)
      (cancel_steps-each k ids id)

cancel_steps-sent :
    (j : Job) (ids : List Text) (id : Text)
    → member id (cancel_steps j ids).0 ≡ (member id ids && runs (step_of j id))
unfolding cancel_steps member any
cancel_steps-sent j [] id = refl
cancel_steps-sent j (i ∷ ids) id =
    let k = (cancel_step j i (step_of j i)).1 in
    member-append id (cancel_step j i (step_of j i)).0 (cancel_steps k ids).0
    ∙ sent_once i ids id j _ (cancel_steps-sent k ids id)

-- What a cancelling leaves, and what it tells the fleet.
pub record Cancels (j : Job) (ids : List Text) (out : List Text × Job) : Type 0 where
  pub named : (id : Text) → member id ids ≡ true → over (step_of out.1 id) ≡ true
  pub others : (id : Text) → member id ids ≡ false → step_of out.1 id ≡ step_of j id
  pub sent : (id : Text) → member id out.0 ≡ (member id ids && runs (step_of j id))

-- Cancelling leaves each step that it names over, and every other step as it was; the fleet is told
-- of exactly the named steps that were on a node.
pub cancel_steps-Cancels : (j : Job) (ids : List Text) → Cancels j ids (cancel_steps j ids)
cancel_steps-Cancels j ids = record {
  named = λ id h. rw (cancel_steps-each j ids id, h) (over-cancelled (step_of j id));
  others = λ id h. cancel_steps-each j ids id ∙ rw h refl;
  sent = cancel_steps-sent j ids;
}

pub cancel_step-state : (j : Job) (id : Text) → (cancel_step j id (step_of j id)).1.state ≡ j.state
unfolding cancel_step with_step
cancel_step-state j id = elim (Option-cases (step_of j id)) [
  | inl e ↦ rw (e, cancel_step) refl
  | inr (s, e) ↦ rw (e, cancel_step) refl
]
