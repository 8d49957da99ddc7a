-- ===== src/Control/JobState.antt =====
-- crates/hull-ci-control/src/model.rs: the states of a job.
use hull_ci.Base.{Bool, true, false, Text, lit}
use hull_ci.Proto.Verdict.{Status}

pub data JobState : Type 0 where
  queued fetching planning running green red errored reported report_failed : JobState

unfoldable pub from_status : Status → JobState
from_status Status.green = green
from_status Status.red = red
from_status Status.errored = errored

unfoldable pub has_verdict : JobState → Bool
has_verdict green = true
has_verdict red = true
has_verdict errored = true
has_verdict reported = true
has_verdict report_failed = true
has_verdict _ = false

unfoldable pub is_finished : JobState → Bool
unfolding has_verdict
is_finished s = has_verdict s

unfoldable pub owes_a_verdict : JobState → Bool
owes_a_verdict reported = false
owes_a_verdict _ = true

unfoldable pub as_str : JobState → Text
as_str queued = lit "queued"
as_str fetching = lit "fetching"
as_str planning = lit "planning"
as_str running = lit "running"
as_str green = lit "green"
as_str red = lit "red"
as_str errored = lit "errored"
as_str reported = lit "reported"
as_str report_failed = lit "report_failed"

unfoldable pub can_transition_to : JobState → JobState → Bool
can_transition_to queued fetching = true
can_transition_to fetching planning = true
can_transition_to planning running = true
can_transition_to running green = true
can_transition_to running red = true
can_transition_to running errored = true
can_transition_to queued errored = true
can_transition_to fetching errored = true
can_transition_to planning errored = true
can_transition_to green reported = true
can_transition_to red reported = true
can_transition_to errored reported = true
can_transition_to green report_failed = true
can_transition_to red report_failed = true
can_transition_to errored report_failed = true
can_transition_to report_failed reported = true
can_transition_to _ _ = false
