-- ===== src/Control/Handover/Examples.antt =====
-- crates/hull-ci-control/src/control.rs: one job with a step that is handed to a node and reported.
use hull_ci.Base.{
  suc, List, ◌≤◌, ◌≡◌, refl, true, [], ◌∷◌, none, some, Text, text_eq, text_keys, get, find, arith,
}
use hull_ci.Proto.Verdict.{outsider}
use hull_ci.Control.StepState.{ready, can_transition_to}
use hull_ci.Control.Step.{Step, new_step, new_spec, transition}
use hull_ci.Control.Job.{Job, Dispatch, new_job, step_of}
use hull_ci.Control.Lease.{Jobs, StepReport, report_passed, Reported, accepted, record_step_report}
use hull_ci.Control.Lease.Once.{Accepted, record_step_report-Accepted}
use hull_ci.Control.Handover.{Clocks, node, assign_step, settle_assignment, cancel_steps}
use hull_ci.Control.Handover.Leased.{Handed, settle_assignment-Handed, handed_report_counts}
use hull_ci.Control.Handover.Cancelled.{Cancels, cancel_steps-Cancels}
use hull_ci.Control.Handover.Delivering.{
  Ask, claim, claim_parked, give_back, grants, returns, grants-le-returns,
}

abbrev a : Text
a = b'a' ∷ []

abbrev b : Text
b = b'b' ∷ []

abbrev dispatch : Dispatch
dispatch = record {
  repo = a;
  change = a;
  tree_id = b;
  intent = [];
  author = [];
  source_url = a;
  callback_url = b;
  fetch_token = none;
}

abbrev waiting : Step
waiting = record (new_step b (new_spec b [] [])) { state = ready }

unfoldable job : Job
unfolding new_job
job = record (new_job a dispatch outsider 0 9) { steps = waiting ∷ [] }

abbrev jobs : Jobs
jobs = (a, job) ∷ []

abbrev clocks : Clocks
clocks = record { lease_ttl = 30; step_timeout = 100 }

abbrev out : Jobs
out = (settle_assignment jobs a b (node b) clocks 5).jobs

moved : (settle_assignment jobs a b (node b) clocks 5).moved ≡ true
unfolding settle_assignment get job step_of find text_eq transition can_transition_to assign_step
moved = refl

settle_assignment-Handed_run : Handed jobs out a b b clocks 5
settle_assignment-Handed_run = settle_assignment-Handed jobs a b b clocks 5 moved

abbrev report : StepReport
report = record {
  job_id = a;
  step_id = b;
  outcome = report_passed;
  reason = none;
  exit_code = none;
  log_key = none;
  detail = [];
}

handed_report_counts_example :
    (done : Reported) × (record_step_report out report b 60 ≡ accepted done)
handed_report_counts_example = handed_report_counts jobs report b clocks 5 60 moved (omega arith)

record_step_report-Accepted_example : Accepted out report b 60 handed_report_counts_example.0
record_step_report-Accepted_example =
    record_step_report-Accepted out report b 60 handed_report_counts_example.0
      handed_report_counts_example.1

cancel_steps-Cancels_run : Cancels job (b ∷ a ∷ []) (cancel_steps job (b ∷ a ∷ []))
cancel_steps-Cancels_run = cancel_steps-Cancels job (b ∷ a ∷ [])

abbrev asked : List Ask
asked = claim 1 ∷ claim_parked 5 2 ∷ give_back 3 ∷ claim 4 ∷ []

grants-le-returns_example : grants (some job) asked ≤ suc (returns asked)
grants-le-returns_example = grants-le-returns (some job) asked
