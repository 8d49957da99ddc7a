-- ===== src/Control/Lease/Report.antt =====
-- crates/hull-ci-control/src/control.rs: which report counts, and what it may change.
use hull_ci.Base.{
  some_inj, ap, Bool, ℕ, ◌≡◌, refl, ◌≢◌, inl, inr, true, false, ◌&&◌, List, [], ◌∷◌, Option, none,
  some, Text, text_eq, text_eq_iff, text_keys, get, put, get-put, arith, find, Bool-cases,
  if◌then◌else◌, ◌∙◌, sym, subst, find-some, starts_with,
}
use hull_ci.Control.StepState.{StepState, can_transition_to}
use hull_ci.Control.Step.{Step, transition}
use hull_ci.Control.Job.{Job, step_of}
use hull_ci.Proto.Paths.{log_key_error}
use hull_ci.Control.Lease.{
  Jobs, StepReport, Answer, accepted, rejected, ReportRejected, on_node, held_by, lapsed,
  outcome_state, is_none, accepted_log_key, report_step, moved_by, finished_by, set_step, with_step,
  StepOutcome,
}

accepted-ne {ℓ} : {A : Type ℓ} (e : ReportRejected) (a : A) → rejected e ≢ accepted a
accepted-ne e a h = ground arith

pub accepted_inj {ℓ} : {A : Type ℓ} {a b : A} → Answer.accepted a ≡ accepted b → a ≡ b
accepted_inj h = ground arith

on_node-outcome :
    (s : StepState) (o : StepOutcome)
    → on_node s ≡ true
    → can_transition_to s (outcome_state o) ≡ true
unfolding on_node can_transition_to outcome_state
on_node-outcome s o h = ground arith

is_none-none : (o : Option Text) → is_none o ≡ true → o ≡ none
unfolding is_none
is_none-none none h = refl
is_none-none (some a) h = absurd (ground arith)

-- A log key that is kept is the reported one, is a path of names, and stands under the prefix.
accepted_log_key-safe :
    (o : Option Text) (prefix key : Text)
    → accepted_log_key o prefix ≡ some key
    → (o ≡ some key) × (starts_with prefix key ≡ true) × (log_key_error key ≡ none)
unfolding accepted_log_key
accepted_log_key-safe none prefix key h = absurd (ground arith)
accepted_log_key-safe (some k) prefix key h =
    kept (is_none (log_key_error k)) (starts_with prefix k) refl refl h
  where
    kept :
        (a b : Bool)
        → is_none (log_key_error k) ≡ a
        → starts_with prefix k ≡ b
        → (if a && b then some k else none) ≡ some key
        → (some k ≡ some key) × (starts_with prefix key ≡ true) × (log_key_error key ≡ none)
    kept false b p q e = absurd (ground arith)
    kept true false p q e = absurd (ground arith)
    kept true true p q e = (
      e,
      ap (starts_with prefix) (sym (some_inj e)) ∙ q,
      ap log_key_error (sym (some_inj e)) ∙ is_none-none (log_key_error k) p,
    )

-- A step after a report of it counted.
pub record Counted (r : StepReport) (from prefix : Text) (now : ℕ) (s t : Step) : Type 0 where
  pub was_on_node : on_node s.state ≡ true
  pub holder : held_by s.node_id from ≡ true
  pub in_time : lapsed s.lease_expires_at now ≡ false
  pub outcome : t.state ≡ outcome_state r.outcome
  pub log_key :
      (key : Text)
      → t.log_key ≡ some key
      → (r.log_key ≡ some key) × (starts_with prefix key ≡ true) × (log_key_error key ≡ none)
  pub same_id : t.id ≡ s.id

-- The report of the node that holds the step's lease in time counts.
pub report_step-accepts :
    (r : StepReport) (from prefix : Text) (now : ℕ) (s : Step)
    → on_node s.state ≡ true
    → held_by s.node_id from ≡ true
    → lapsed s.lease_expires_at now ≡ false
    → report_step r from prefix now s
      ≡ accepted (finished_by r prefix now (record s { state = outcome_state r.outcome }))
unfolding report_step transition
report_step-accepts r from prefix now s placed holder timely =
    rw (placed, holder, timely, on_node-outcome s.state r.outcome placed, moved_by) refl

pub report_step-Counted :
    (r : StepReport) (from prefix : Text) (now : ℕ) (s t : Step)
    → report_step r from prefix now s ≡ accepted t
    → Counted r from prefix now s t
unfolding report_step finished_by
report_step-Counted r from prefix now s t h = elim (Bool-cases (on_node s.state)) [
  | inr e ↦ absurd (ground arith)
  | inl placed ↦ elim (Bool-cases (held_by s.node_id from)) [
    | inr e ↦ absurd (ground arith)
    | inl holder ↦ elim (Bool-cases (lapsed s.lease_expires_at now)) [
      | inl e ↦ absurd (ground arith)
      | inr timely ↦
          let same = report_step-accepts r from prefix now s placed holder timely in
          subst (Counted r from prefix now s) (accepted_inj (sym same ∙ h)) (record {
            was_on_node = placed;
            holder = holder;
            in_time = timely;
            outcome = refl;
            log_key = λ key e. accepted_log_key-safe r.log_key prefix key e;
            same_id = refl;
          })
    ]
  ]
]

-- A step of a job in the store.
unfoldable pub step_in : Option Job → Text → Option Step
step_in none id = none
step_in (some j) id = step_of j id

unfoldable pub step_at : Jobs → Text → Text → Option Step
unfolding step_in
step_at jobs job_id id = step_in (get job_id jobs) id

pub find-set_step :
    (id other : Text) (s t : Step) (ss : List Step)
    → find (λ u. text_eq u.id id) ss ≡ some s
    → t.id ≡ id
    → find (λ u. text_eq u.id other) (set_step id t ss)
      ≡ (if text_eq id other then some t else find (λ u. text_eq u.id other) ss)
unfolding find set_step
find-set_step id other s t [] h e = absurd (ground arith)
find-set_step id other s t (u ∷ ss) h e = ground (
  arith,
  text_eq_iff u.id id,
  text_eq_iff id other,
  text_eq_iff u.id other,
  find-set_step id other s t ss,
)

pub step_of-id : (j : Job) (id : Text) (s : Step) → step_of j id ≡ some s → s.id ≡ id
unfolding step_of
step_of-id j id s h = (text_eq_iff s.id id).0 (find-some (λ u. text_eq u.id id) j.steps h)

-- After a change of a step of a job, that step is the new one and every other step is as it was.
pub step_at-put :
    (jobs : Jobs) (job_id id : Text) (j : Job) (s t : Step)
    → get job_id jobs ≡ some j
    → step_of j id ≡ some s
    → t.id ≡ s.id
    → (other_job other : Text)
    → step_at (put job_id (with_step j id t) jobs) other_job other ≡ (
        if text_eq job_id other_job && text_eq id other
        then some t
        else step_at jobs other_job other)
unfolding step_at step_of with_step
step_at-put jobs job_id id j s t h k e other_job other =
    elim (Bool-cases (text_eq job_id other_job)) [
      | inl hit ↦
          rw
            (
              get-put job_id other_job (with_step j id t) jobs,
              hit,
              ← (text_eq_iff job_id other_job).0 hit,
              h,
              step_in,
            )
            (find-set_step id other s t j.steps k (e ∙ step_of-id j id s k))
      | inr miss ↦ rw (get-put job_id other_job (with_step j id t) jobs, miss) refl
    ]
