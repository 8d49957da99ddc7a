-- ===== src/Control/StepState.antt =====
-- crates/hull-ci-control/src/model.rs: the states of a step.
use hull_ci.Base.{Bool, true, false, not, Text, lit}

pub data StepState : Type 0 where
  pending ready leased running passed failed errored cached skipped : StepState

unfoldable pub is_terminal : StepState → Bool
is_terminal passed = true
is_terminal failed = true
is_terminal errored = true
is_terminal cached = true
is_terminal skipped = true
is_terminal _ = false

unfoldable pub is_in_flight : StepState → Bool
unfolding is_terminal
is_in_flight s = not (is_terminal s)

-- `==` on states, for the states that the source compares with.
unfoldable pub is_pending : StepState → Bool
is_pending pending = true
is_pending _ = false

unfoldable pub is_failed : StepState → Bool
is_failed failed = true
is_failed _ = false

unfoldable pub is_errored : StepState → Bool
is_errored errored = true
is_errored _ = false

unfoldable pub is_cached : StepState → Bool
is_cached cached = true
is_cached _ = false

unfoldable pub is_skipped : StepState → Bool
is_skipped skipped = true
is_skipped _ = false

unfoldable pub as_str : StepState → Text
as_str pending = lit "pending"
as_str ready = lit "ready"
as_str leased = lit "leased"
as_str running = lit "running"
as_str passed = lit "passed"
as_str failed = lit "failed"
as_str errored = lit "errored"
as_str cached = lit "cached"
as_str skipped = lit "skipped"

-- The arms of the `match`, one function for each state that a step leaves.
from_waiting : StepState → Bool
from_waiting cached = true
from_waiting failed = true
from_waiting skipped = true
from_waiting errored = true
from_waiting _ = false

from_claimed : StepState → Bool
from_claimed passed = true
from_claimed failed = true
from_claimed errored = true
from_claimed ready = true
from_claimed skipped = true
from_claimed _ = false

unfoldable pub can_transition_to : StepState → StepState → Bool
unfolding from_waiting from_claimed
can_transition_to pending ready = true
can_transition_to pending next = from_waiting next
can_transition_to ready leased = true
can_transition_to ready next = from_waiting next
can_transition_to leased running = true
can_transition_to leased next = from_claimed next
can_transition_to running next = from_claimed next
can_transition_to _ next = false
