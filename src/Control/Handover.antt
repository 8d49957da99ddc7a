-- ===== src/Control/Handover.antt =====
-- crates/hull-ci-control/src/control.rs: what becomes of a step that the scheduler granted, the
-- cancelling of steps, and the right to deliver a verdict. What the source tells the scheduler's
-- queue, or the fleet, is returned beside the jobs.
pub mod Leased
pub mod Cancelled
pub mod Delivering
mod Examples
use hull_ci.Base.{
  ℕ, suc, ◌+◌, max, Bool, true, false, not, ◌||◌, ◌&&◌, List, [], ◌∷◌, ◌++◌, Option, none, some,
  Text, lit, text_keys, Eq, get, put, if◌then◌else◌,
}
use hull_ci.Proto.Verdict.{infra}
use hull_ci.Proto.Sanitize.{sanitize_summary, summary_max_chars}
use hull_ci.Control.StepState.{StepState, errored, leased, skipped}
use hull_ci.Control.Step.{Step, Moved, ok, refused, transition}
use hull_ci.Control.Job.{Job, step_of, awaits_redelivery}
use hull_ci.Control.Lease.{Jobs, on_node, with_step}

pub data NodeError : Type 0 where
  unwired no_capacity : NodeError
  node_rejected : (why : Text) → NodeError

unfoldable pub node_error : NodeError → Text
node_error unwired = lit "no node fleet is wired into this control plane"
node_error no_capacity = lit "no capacity"
node_error (node_rejected why) = lit "node rejected the assignment: " ++ why

-- `Result<String, NodeError>`, the node that took the step.
pub data Assigned : Type 0 where
  node : (id : Text) → Assigned
  failed_with : NodeError → Assigned

-- What the queue is told.
pub data QueueCall : Type 0 where
  nothing requeue release : QueueCall

pub record Clocks : Type 0 where
  pub lease_ttl : ℕ
  pub step_timeout : ℕ

leased_to : Text → Clocks → ℕ → Step → Step
leased_to id clocks now s = record s {
  node_id = some id;
  attempt = suc s.attempt;
  started_at = some now;
  lease_expires_at = some (now + max clocks.lease_ttl clocks.step_timeout);
}

errored_by : NodeError → ℕ → Step → Step
unfolding node_error
errored_by e now s = record s {
  error_reason = some infra;
  detail = sanitize_summary (node_error e) summary_max_chars;
  finished_at = some now;
}

moved_to : (Step → Step) → Moved Step → Option Step
moved_to f (ok s) = some (f s)
moved_to f (refused e) = none

-- The step after the fleet's answer, or none where it does not move.
unfoldable pub assign_step : Assigned → Clocks → ℕ → Step → Option Step
unfolding moved_to leased_to errored_by
assign_step (node id) clocks now s = moved_to (leased_to id clocks now) (transition s leased)
assign_step (failed_with e) clocks now s = moved_to (errored_by e now) (transition s errored)

-- The jobs, whether the step left `ready`, and what the queue is told.
pub record Settled : Type 0 where
  pub jobs : Jobs
  pub moved : Bool
  pub queue : QueueCall

is_rejection : Assigned → Bool
is_rejection (node id) = false
is_rejection (failed_with e) = true

settled_with : Jobs → Text → Text → Assigned → Job → Option Step → Settled
unfolding is_rejection
settled_with jobs job_id step_id a j none = record { jobs = jobs; moved = false; queue = release }
settled_with jobs job_id step_id a j (some s) = record {
  jobs = put job_id (with_step j step_id s) jobs;
  moved = true;
  queue = if is_rejection a then release else nothing;
}

assign_in : Option Step → Assigned → Clocks → ℕ → Option Step
assign_in none a clocks now = none
assign_in (some s) a clocks now = assign_step a clocks now s

settle_in : Jobs → Text → Text → Assigned → Clocks → ℕ → Option Job → Settled
unfolding settled_with assign_in
settle_in jobs job_id step_id a clocks now none = record {
  jobs = jobs;
  moved = false;
  queue = release;
}
settle_in jobs job_id step_id a clocks now (some j) =
    settled_with jobs job_id step_id a j (assign_in (step_of j step_id) a clocks now)

unfoldable pub settle_assignment : Jobs → Text → Text → Assigned → Clocks → ℕ → Settled
unfolding settle_in
settle_assignment jobs job_id step_id (failed_with no_capacity) clocks now = record {
  jobs = jobs;
  moved = false;
  queue = requeue;
}
settle_assignment jobs job_id step_id a clocks now =
    settle_in jobs job_id step_id a clocks now (get job_id jobs)

skipped_or : Step → Moved Step → Step
skipped_or s (ok t) = t
skipped_or s (refused e) = s

-- `cancel_steps` on the steps of its job: one id, then all. The ids that are sent to the fleet are
-- returned.
unfoldable pub cancel_step : Job → Text → Option Step → List Text × Job
unfolding skipped_or on_node
cancel_step j id none = ([], j)
cancel_step j id (some s) =
    (if on_node s.state then id ∷ [] else [], with_step j id (skipped_or s (transition s skipped)))

unfoldable pub cancel_steps : Job → List Text → List Text × Job
unfolding cancel_step
cancel_steps j [] = ([], j)
cancel_steps j (id ∷ ids) =
    let (sent, k) = cancel_step j id (step_of j id) in
    let (more, l) = cancel_steps k ids in (sent ++ more, l)

-- Take the right to deliver a job's verdict.
unfoldable pub claim_delivery : Option Job → ℕ → Option Job × Bool
claim_delivery none now = (none, false)
claim_delivery (some j) now =
    if j.delivering
    then (some j, false)
    else (some (record j { delivering = true; last_delivery_at = some now }), true)

unfoldable pub claim_delivery_if_parked : Option Job → (interval now : ℕ) → Option Job × Bool
claim_delivery_if_parked none interval now = (none, false)
claim_delivery_if_parked (some j) interval now =
    if not (awaits_redelivery j now interval)
    then (some j, false)
    else (some (record j { delivering = true; last_delivery_at = some now }), true)

unfoldable pub release_delivery : Option Job → ℕ → Option Job
release_delivery none now = none
release_delivery (some j) now = some (record j { delivering = false; last_delivery_at = some now })
