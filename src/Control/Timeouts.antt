-- ===== src/Control/Timeouts.antt =====
-- crates/hull-ci-control/src/timeouts.rs: the step clocks. Durations and instants are nanoseconds.
pub mod Sweep
pub mod Deadline
use hull_ci.Base.{
  ℕ, ◌+◌, ◌*◌, ◌/◌, ◌%◌, ◌<◌, min, Bool, true, false, ◌&&◌, List, [], ◌∷◌, ◌++◌, map, Option, none,
  some, Text, lit, decimal, ltb, leb, ◌==◌, if◌then◌else◌,
}
use hull_ci.Proto.Verdict.{Reason, Verdict, verdict_errored}
use hull_ci.Control.StepState.{StepState}
use hull_ci.Control.Step.{Step, Moved, ok, refused, transition}

pub record Timeouts : Type 0 where
  pub step : ℕ
  pub job : ℕ
  pub queue_wait : ℕ
  pub fetch : ℕ
  pub max_step : ℕ

abbrev from_secs : ℕ → ℕ
from_secs n = n * 1_000_000_000

abbrev pub default_timeouts : Timeouts
default_timeouts = record {
  step = from_secs (20 * 60);
  job = from_secs (60 * 60);
  queue_wait = from_secs (30 * 60);
  fetch = from_secs (5 * 60);
  max_step = from_secs (60 * 60);
}

or_default : Option ℕ → ℕ → ℕ
or_default none d = d
or_default (some t) d = t

unfoldable pub step_timeout : Timeouts → Option ℕ → ℕ
unfolding or_default
step_timeout t requested = min (or_default requested t.step) t.max_step

pub data Expiry : Type 0 where
  step job queue_wait fetch : Expiry

unfoldable pub expiry_reason : Expiry → Reason
expiry_reason Expiry.step = Reason.timeout
expiry_reason Expiry.job = Reason.timeout
expiry_reason Expiry.queue_wait = Reason.capacity
expiry_reason Expiry.fetch = Reason.infra

expiry_str : Expiry → Text
expiry_str Expiry.step = lit "step wall clock"
expiry_str Expiry.job = lit "job wall clock"
expiry_str Expiry.queue_wait = lit "queue wait"
expiry_str Expiry.fetch = lit "source fetch"

human : ℕ → Text
human d =
    let secs = d / 1_000_000_000 in
    let mins = secs / 60 in
    if ltb 0 mins && secs % 60 == 0 then decimal mins ++ lit "m" else decimal secs ++ lit "s"

unfoldable pub expiry_verdict : Expiry → ℕ → Verdict
unfolding expiry_str human expiry_reason
expiry_verdict e limit =
    verdict_errored (expiry_reason e)
      (expiry_str e ++ lit " exceeded " ++ human limit ++ lit " — no verdict produced")

-- A clock is armed by the instant from which it runs.
armed : Option ℕ → ℕ → Expiry → Option (ℕ × Expiry)
armed none limit e = none
armed (some at) limit e = some (at + limit, e)

deadline_in : StepState → Step → Timeouts → Option (ℕ × Expiry)
unfolding armed step_timeout
deadline_in StepState.pending s t = armed s.ready_at t.queue_wait Expiry.queue_wait
deadline_in StepState.ready s t = armed s.ready_at t.queue_wait Expiry.queue_wait
deadline_in StepState.leased s t = armed s.started_at (step_timeout t s.spec.timeout) Expiry.step
deadline_in StepState.running s t = armed s.started_at (step_timeout t s.spec.timeout) Expiry.step
deadline_in _ s t = none

unfoldable pub step_deadline : Step → Timeouts → Option (ℕ × Expiry)
unfolding deadline_in
step_deadline s t = deadline_in s.state s t

-- The limit that the message names.
named_limit : Expiry → Step → Timeouts → ℕ
unfolding step_timeout
named_limit Expiry.queue_wait s t = t.queue_wait
named_limit _ s t = step_timeout t s.spec.timeout

expired : Step → Timeouts → ℕ → Expiry → Step × Option Expiry
unfolding named_limit expiry_str human expiry_reason
expired s t now e = elim (transition s StepState.errored) [
  | ok u ↦ (
    record u {
      error_reason = some (expiry_reason e);
      finished_at = some now;
      detail = expiry_str e ++ lit " exceeded " ++ human (named_limit e s t);
    },
    some e,
  )
  | refused r ↦ (s, none)
]

-- The body of the loop for one step.
unfoldable pub sweep_step : Timeouts → ℕ → Step → Step × Option Expiry
unfolding step_deadline expired
sweep_step t now s = elim (step_deadline s t) [
  | none ↦ (s, none)
  | some (deadline, e) ↦ if ltb now deadline then (s, none) else expired s t now e
]

note_fired : Text → Option Expiry → List (Text × Expiry) → List (Text × Expiry)
note_fired id none rest = rest
note_fired id (some e) rest = (id, e) ∷ rest

unfoldable pub fired : Timeouts → ℕ → List Step → List (Text × Expiry)
unfolding sweep_step note_fired
fired t now [] = []
fired t now (s ∷ ss) = note_fired s.id (sweep_step t now s).1 (fired t now ss)

unfoldable pub sweep : List Step → Timeouts → ℕ → List Step × List (Text × Expiry)
unfolding sweep_step fired
sweep steps t now = (map (λ s. (sweep_step t now s).0) steps, fired t now steps)

-- `filter_map(…).min()`.
earlier : Option (ℕ × Expiry) → Option ℕ → Option ℕ
earlier none rest = rest
earlier (some (d, e)) none = some d
earlier (some (d, e)) (some r) = some (min d r)

unfoldable pub next_step_deadline : List Step → Timeouts → Option ℕ
unfolding step_deadline earlier
next_step_deadline [] t = none
next_step_deadline (s ∷ ss) t = earlier (step_deadline s t) (next_step_deadline ss t)
