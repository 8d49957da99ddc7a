-- ===== src/Control/Examples.antt =====
-- crates/hull-ci-control/src: small jobs, and the theorems about jobs and steps at them.
use hull_ci.Base.{
  ℕ, ◌≤◌, ◌+◌, ◌≡◌, refl, ◌≢◌, true, false, List, [], ◌∷◌, none, some, Text, text_eq, inl, inr,
  arith, all,
}
use mathlib.Core.List.Perm
use hull_ci.Proto.Verdict.{member}
use hull_ci.Control.JobState.{JobState, fetching, running, errored, reported, has_verdict}
use hull_ci.Control.StepState.{StepState, is_terminal, is_pending, can_transition_to}
use hull_ci.Control.Step.{Step, new_spec, new_step, transition}
use hull_ci.Control.Step.Lifecycle as StepLife
use hull_ci.Control.Step.Lifecycle.{visits_leased, terminal_is_final, passed_was_leased}
use hull_ci.Control.Job.{Job, Dispatch, new_job}
use hull_ci.Control.Job.Lifecycle as JobLife
use hull_ci.Control.Job.Lifecycle.{
  stage, granted, settled_iff_verdict, verdict_is_final, granted-le-stages, reported_is_final,
}
use hull_ci.Control.Graph.{gate, dep_status, advance, any_live, is_live}
use hull_ci.Control.Graph.Settled.{advance_idem, advance_never_hangs}
use hull_ci.Control.Graph.Justified.{AllJustified, advance-AllJustified}
use hull_ci.Control.Graph.Ordered.{AllUnbroken, declares}
use hull_ci.Control.Graph.Unbroken.{advance_ordered_unbroken}
use hull_ci.Control.Aggregate.{undecided, fold}
use hull_ci.Control.Aggregate.Outcome.{
  fold_status, expected_status, fold-expected_status, fold-perm,
}
use hull_ci.Control.Aggregate.Summary.{
  Decides, HasCleanSummary, ReasonMatches, fold-HasCleanSummary, fold-ReasonMatches,
}
use hull_ci.Control.Aggregate.Progress.{advance-fold_decides}
use hull_ci.Control.Timeouts.{default_timeouts, sweep, sweep_step, fired, next_step_deadline}
use hull_ci.Control.Timeouts.Sweep.{Sweeps, sweep-Sweeps, sweep_step-max_step}
use hull_ci.Control.Timeouts.Deadline.{Wakes, next_step_deadline-Wakes}

-- A step with one command, its name and what it needs.
abbrev step : Text → List Text → StepState → Step
step name needs state = record (new_step name (record (new_spec name [] []) { needs = needs })) {
  state = state;
}

abbrev name_a : Text
name_a = b'a' ∷ []

abbrev name_b : Text
name_b = b'b' ∷ []

-- `b` waits for `a`, which is done.
abbrev chain : List Step
chain = step name_a [] StepState.passed ∷ step name_b (name_a ∷ []) StepState.pending ∷ []

-- `a` and `b` wait for each other.
abbrev cycle : List Step
cycle =
    step name_a (name_b ∷ []) StepState.pending ∷ step name_b (name_a ∷ []) StepState.pending ∷ []

advance_idem_example : advance (advance chain 5).0 9 ≡ ((advance chain 5).0, [])
advance_idem_example = advance_idem chain 5 9

-- The cycle is found: both steps are errored, and nothing is live.
cycle_dead : any_live (advance cycle 5).0 ≡ false
unfolding advance any_live gate dep_status text_eq is_pending transition can_transition_to
cycle_dead = refl

advance_never_hangs_example : all (λ s. is_terminal s.state) (advance cycle 5).0 ≡ true
advance_never_hangs_example = advance_never_hangs cycle 5 cycle_dead

advance-AllJustified_example : AllJustified (advance chain 5).0
unfolding is_live
advance-AllJustified_example = advance-AllJustified chain 5 (
  record { started = λ e. cc; skipped = λ e. cc },
  (record { started = λ e. cc; skipped = λ e. cc }, tt),
)

advance_ordered_unbroken_example : AllUnbroken (advance chain 5).1
unfolding declares text_eq
advance_ordered_unbroken_example = advance_ordered_unbroken chain 5 (tt, ((refl, tt), tt))

advance-fold_decides_example : fold (advance cycle 5).0 7 ≢ undecided
advance-fold_decides_example = advance-fold_decides cycle 5 7 cycle_dead

fold-expected_status_example : fold_status (fold chain 7) ≡ expected_status chain
fold-expected_status_example = fold-expected_status chain 7

abbrev done : Step
done = step name_a [] StepState.passed

abbrev broken : Step
broken = step name_b [] StepState.failed

fold-perm_example :
    fold_status (fold (broken ∷ done ∷ []) 7) ≡ fold_status (fold (done ∷ broken ∷ []) 9)
fold-perm_example =
    fold-perm (broken ∷ done ∷ []) (done ∷ broken ∷ []) 7 9 (Perm.swap done broken [])

fold-HasCleanSummary_example : Decides HasCleanSummary (fold (done ∷ broken ∷ []) 7)
fold-HasCleanSummary_example = fold-HasCleanSummary (done ∷ broken ∷ []) 7

fold-ReasonMatches_example : Decides ReasonMatches (fold (done ∷ broken ∷ []) 7)
fold-ReasonMatches_example = fold-ReasonMatches (done ∷ broken ∷ []) 7

-- On a node since the instant 0, under the default clocks.
abbrev held : Step
held = record (step name_a [] StepState.running) { started_at = some 0 }

abbrev two_hours : ℕ
two_hours = 7200_000_000_000

sweep-Sweeps_example :
    Sweeps default_timeouts two_hours
      (held ∷ done ∷ [])
      (sweep (held ∷ done ∷ []) default_timeouts two_hours).0
      (sweep (held ∷ done ∷ []) default_timeouts two_hours).1
sweep-Sweeps_example = sweep-Sweeps (held ∷ done ∷ []) default_timeouts two_hours

sweep_step-max_step_run : is_terminal (sweep_step default_timeouts two_hours held).0.state ≡ true
sweep_step-max_step_run =
    sweep_step-max_step held default_timeouts two_hours 0 (inr refl) refl (omega arith)

next_step_deadline-Wakes_example :
    Wakes
      (next_step_deadline (held ∷ done ∷ []) default_timeouts)
      two_hours
      (fired default_timeouts two_hours (held ∷ done ∷ []))
next_step_deadline-Wakes_example =
    next_step_deadline-Wakes (held ∷ done ∷ []) default_timeouts two_hours

abbrev dispatch : Dispatch
dispatch = record {
  repo = name_a;
  change = name_a;
  tree_id = name_b;
  intent = [];
  author = [];
  source_url = name_a;
  callback_url = name_b;
  fetch_token = none;
}

abbrev job : Job
job = record (new_job name_a dispatch member 0 9) { state = errored; settled_at = some 4 }

-- What was asked of a job, and when.
abbrev asked : List (JobState × ℕ)
asked = (fetching, 1) ∷ (errored, 2) ∷ (reported, 3) ∷ (running, 4) ∷ []

settled_iff_verdict_run :
    let j = JobLife.replay (new_job name_a dispatch member 0 9) asked in
    JobLife.is_some j.settled_at ≡ has_verdict j.state
settled_iff_verdict_run = settled_iff_verdict name_a dispatch member 0 9 asked

verdict_is_final_example :
    (has_verdict (JobLife.replay job asked).state ≡ true)
    × ((JobLife.replay job asked).settled_at ≡ some 4)
unfolding has_verdict
verdict_is_final_example = verdict_is_final job asked 4 refl refl

granted-le-stages_run : stage job.state + granted job asked ≤ 6
granted-le-stages_run = granted-le-stages job asked

reported_is_final_example :
    JobLife.replay (record job { state = reported }) asked ≡ record job { state = reported }
reported_is_final_example = reported_is_final (record job { state = reported }) asked refl

terminal_is_final_run : StepLife.replay broken (StepState.ready ∷ StepState.passed ∷ []) ≡ broken
unfolding is_terminal
terminal_is_final_run = terminal_is_final broken (StepState.ready ∷ StepState.passed ∷ []) refl

-- The way of a step that a node runs.
abbrev way : List StepState
way = StepState.ready ∷ StepState.leased ∷ StepState.running ∷ StepState.passed ∷ []

passed_was_leased_run : visits_leased (step name_a [] StepState.pending) way ≡ true
unfolding StepLife.replay transition can_transition_to
passed_was_leased_run = passed_was_leased (step name_a [] StepState.pending) way refl (inl refl)
