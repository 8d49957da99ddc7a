-- ===== src/Control/Drive/Examples.antt =====
-- crates/hull-ci-control/src/control.rs: a driver whose job is late, and one that waits.
use hull_ci.Base.{◌≡◌, refl, true, false, [], ◌∷◌, none, some, Text, arith, find, any}
use hull_ci.Proto.Verdict.{Status, member}
use hull_ci.Control.JobState.{running}
use hull_ci.Control.StepState.{StepState, is_terminal, is_pending, is_failed}
use hull_ci.Control.Step.{Step, new_spec, new_step, failed_fatally}
use hull_ci.Control.Job.{Job, Dispatch, step_of}
use hull_ci.Control.Graph.{
  advance, any_live, rounds, round_steps, round_moved, advance_step, break_cycles, is_live,
}
use hull_ci.Control.Aggregate.{fold, fold_some}
use hull_ci.Control.Timeouts.{
  default_timeouts, sweep, sweep_step, fired, step_deadline, step_timeout, next_step_deadline,
}
use hull_ci.Control.Handover.Cancelled.{over}
use hull_ci.Control.Drive.{wait, pass, moved_steps, drive_once}
use hull_ci.Control.Drive.Pass.{WaitsFor, pass-WaitsFor, IsEnded, drive_once-late}

abbrev a : Text
a = b'a' ∷ []

abbrev held : Step
held = record (new_step a (new_spec a [] [])) { state = StepState.running; started_at = some 0 }

abbrev dispatch : Dispatch
dispatch = record {
  repo = a;
  change = a;
  tree_id = a;
  intent = [];
  author = [];
  source_url = a;
  callback_url = a;
  fetch_token = none;
}

-- A job that is running, with a step on a node, and a deadline at 9.
abbrev job : Job
job = record {
  id = a;
  dispatch = dispatch;
  author_class = member;
  state = running;
  steps = held ∷ [];
  verdict = none;
  created_at = 0;
  deadline_at = 9;
  report_attempts = 0;
  callback_urls = a ∷ [];
  delivery = none;
  delivering = false;
  last_delivery_at = none;
  settled_at = none;
}

drive_once-late_example :
    let d = drive_once job default_timeouts none 20 in
    IsEnded d.job Status.errored
    × (d.sleep_until ≡ none)
    × ((id : Text) → over (step_of d.job id) ≡ true)
drive_once-late_example = drive_once-late job default_timeouts none 20 refl (omega arith)

sleeps : (pass job default_timeouts 1).1 ≡ wait 9
unfolding pass moved_steps sweep sweep_step fired step_deadline step_timeout next_step_deadline
    advance rounds round_steps round_moved advance_step break_cycles any_live is_live any fold
    fold_some find failed_fatally is_failed is_terminal is_pending
sleeps = refl

pass-WaitsFor_example : WaitsFor job default_timeouts 1 9
pass-WaitsFor_example = pass-WaitsFor job default_timeouts 1 9 sleeps
