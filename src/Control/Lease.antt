-- ===== src/Control/Lease.antt =====
-- crates/hull-ci-control/src/control.rs: what nodes report. The job store is
-- a map of jobs; each handler holds its lock, so a handler is one change of the map. `now` is the
-- instant that it reads.
pub mod Report
pub mod Once
use hull_ci.Base.{
  ℕ, suc, ◌+◌, max, Bool, true, false, not, ◌&&◌, ◌||◌, List, [], ◌∷◌, ◌++◌, map, keep, Option,
  none, some, Text, lit, text_eq, text_keys, ltb, Eq, starts_with, get, put, ℤ, if◌then◌else◌,
}
use hull_ci.Proto.Verdict.{Reason, infra}
use hull_ci.Proto.Paths.{tenant_of, log_key_error}
use hull_ci.Proto.Sanitize.{sanitize_summary, summary_max_chars}
use hull_ci.Control.StepState.{
  StepState, passed, failed, errored, leased, running, skipped, is_in_flight,
}
use hull_ci.Control.Step.{Step, Moved, ok, refused, transition}
use hull_ci.Control.Job.{Job, Dispatch, step_of, awaits_redelivery}

abbrev pub Jobs : Type 0
Jobs = List (Text × Job)

pub data StepOutcome : Type 0 where
  report_passed report_failed report_errored : StepOutcome

pub record StepReport : Type 0 where
  pub job_id : Text
  pub step_id : Text
  pub outcome : StepOutcome
  pub reason : Option Reason
  pub exit_code : Option ℤ
  pub log_key : Option Text
  pub detail : Text

pub data ReportRejected : Type 0 where
  unknown_job unknown_step not_lease_holder not_in_flight lease_expired : ReportRejected

pub data Answer {ℓ} (A : Type ℓ) : Type ℓ where
  accepted : A → Answer A
  rejected : ReportRejected → Answer A

-- `StepState::Leased | StepState::Running`.
unfoldable pub on_node : StepState → Bool
on_node leased = true
on_node running = true
on_node _ = false

is_leased : StepState → Bool
is_leased leased = true
is_leased _ = false

-- `step.node_id.as_deref() == Some(from_node)`.
unfoldable pub held_by : Option Text → Text → Bool
held_by none from = false
held_by (some node) from = text_eq node from

unfoldable pub lapsed : Option ℕ → ℕ → Bool
lapsed none now = false
lapsed (some expires) now = ltb expires now

unfoldable pub outcome_state : StepOutcome → StepState
outcome_state report_passed = passed
outcome_state report_failed = failed
outcome_state report_errored = errored

is_none {ℓ} : {A : Type ℓ} → Option A → Bool
is_none none = true
is_none (some a) = false

unfoldable pub accepted_log_key : Option Text → Text → Option Text
unfolding is_none
accepted_log_key none prefix = none
accepted_log_key (some key) prefix =
    if is_none (log_key_error key) && starts_with prefix key then some key else none

-- The prefix that the logs of a job stand under.
unfoldable pub log_prefix : Dispatch → Text
log_prefix d = tenant_of d.repo ++ b'/' ∷ d.repo ++ b'/' ∷ d.tree_id ++ b'/' ∷ []

reason_after : StepOutcome → Option Reason → Option Reason
reason_after report_errored old = some infra
reason_after _ old = old

-- What the report leaves in a step that moved.
unfoldable pub finished_by : StepReport → Text → ℕ → Step → Step
unfolding reason_after
finished_by r prefix now s = record s {
  exit_code = r.exit_code;
  log_key = accepted_log_key r.log_key prefix;
  detail = sanitize_summary r.detail summary_max_chars;
  finished_at = some now;
  error_reason = reason_after r.outcome s.error_reason;
}

moved_by : StepReport → Text → ℕ → Moved Step → Answer Step
unfolding finished_by
moved_by r prefix now (ok s) = accepted (finished_by r prefix now s)
moved_by r prefix now (refused e) = rejected not_in_flight

unfoldable pub report_step : StepReport → Text → Text → ℕ → Step → Answer Step
unfolding moved_by on_node held_by lapsed
report_step r from prefix now s =
    if not (on_node s.state)
    then rejected not_in_flight
    else if not (held_by s.node_id from)
    then rejected not_lease_holder
    else if lapsed s.lease_expires_at now
    then rejected lease_expired
    else moved_by r prefix now (transition s (outcome_state r.outcome))

-- `step_mut`: change the first step of that id.
unfoldable pub set_step : Text → Step → List Step → List Step
set_step id s [] = []
set_step id s (t ∷ ts) = if text_eq t.id id then s ∷ ts else t ∷ set_step id s ts

unfoldable pub with_step : Job → Text → Step → Job
with_step j id s = record j { steps = set_step id s j.steps }

pub data MemoOutcome : Type 0 where
  memo_passed memo_failed : MemoOutcome

unfoldable pub memo_outcome : StepState → Option MemoOutcome
memo_outcome passed = some memo_passed
memo_outcome failed = some memo_failed
memo_outcome _ = none

-- What `to_memoize` is: the tenant, the key and the outcome.
unfoldable pub memo_write :
    Text → Option Text → Option MemoOutcome → Option (Text × Text × MemoOutcome)
memo_write tenant (some key) (some outcome) = some (tenant, key, outcome)
memo_write tenant (some key) none = none
memo_write tenant none o = none

abbrev pub Reported : Type 0
Reported = Jobs × Option (Text × Text × MemoOutcome)

put_reported : Jobs → StepReport → Job → Answer Step → Answer Reported
unfolding memo_write
put_reported jobs r j (rejected e) = rejected e
put_reported jobs r j (accepted s) = accepted (
  put r.job_id (with_step j r.step_id s) jobs,
  memo_write (tenant_of j.dispatch.repo) s.memo_key (memo_outcome s.state),
)

report_in_job : Jobs → StepReport → Text → ℕ → Job → Option Step → Answer Reported
unfolding put_reported report_step
report_in_job jobs r from now j none = rejected unknown_step
report_in_job jobs r from now j (some s) =
    put_reported jobs r j (report_step r from (log_prefix j.dispatch) now s)

report_to : Jobs → StepReport → Text → ℕ → Option Job → Answer Reported
unfolding report_in_job
report_to jobs r from now none = rejected unknown_job
report_to jobs r from now (some j) = report_in_job jobs r from now j (step_of j r.step_id)

unfoldable pub record_step_report : Jobs → StepReport → Text → ℕ → Answer Reported
unfolding report_to
record_step_report jobs r from now = report_to jobs r from now (get r.job_id jobs)

-- `let _ = step.transition(StepState::Running)`.
moved_or : Step → Moved Step → Step
moved_or s (ok t) = t
moved_or s (refused e) = s

renewed : ℕ → Step → Step
unfolding moved_or is_leased
renewed until s =
    let t = record s { lease_expires_at = some until } in
    if is_leased t.state then moved_or t (transition t running) else t

unfoldable pub renew_step : Text → ℕ → Step → Answer Step
unfolding renewed on_node held_by
renew_step from until s =
    if not (held_by s.node_id from)
    then rejected not_lease_holder
    else if not (on_node s.state)
    then rejected not_in_flight
    else accepted (renewed until s)

put_step : Jobs → Text → Text → Job → Answer Step → Answer Jobs
put_step jobs job_id step_id j (rejected e) = rejected e
put_step jobs job_id step_id j (accepted s) = accepted (put job_id (with_step j step_id s) jobs)

renew_in_job : Jobs → Text → Text → Text → ℕ → Job → Option Step → Answer Jobs
unfolding put_step renew_step
renew_in_job jobs job_id step_id from until j none = rejected unknown_step
renew_in_job jobs job_id step_id from until j (some s) =
    put_step jobs job_id step_id j (renew_step from until s)

renew_to : Jobs → Text → Text → Text → ℕ → Option Job → Answer Jobs
unfolding renew_in_job
renew_to jobs job_id step_id from until none = rejected unknown_job
renew_to jobs job_id step_id from until (some j) =
    renew_in_job jobs job_id step_id from until j (step_of j step_id)

-- `lease_ttl` is the configured life of a lease.
unfoldable pub renew_lease : Jobs → Text → Text → Text → (lease_ttl now : ℕ) → Answer Jobs
unfolding renew_to
renew_lease jobs job_id step_id from lease_ttl now =
    renew_to jobs job_id step_id from (now + lease_ttl) (get job_id jobs)
