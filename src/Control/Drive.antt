-- ===== src/Control/Drive.antt =====
-- crates/hull-ci-control/src/control.rs: one pass of the driver of a job, the loop of `phase_run`, and
-- what `finish` records. The steps that the fleet is told to stop are returned beside the job.
pub mod Pass
mod Examples
use hull_ci.Base.{
  ℕ, ◌+◌, ◌-◌, min, Bool, true, false, not, List, [], ◌∷◌, ◌++◌, map, keep, Option, none, some,
  Text, lit, ltb, leb, if◌then◌else◌, ◌==◌,
}
use hull_ci.Proto.Verdict.{Verdict}
use hull_ci.Control.JobState.{JobState, from_status, has_verdict}
use hull_ci.Control.StepState.{is_in_flight}
use hull_ci.Control.Step.{Step, Moved, ok, refused}
use hull_ci.Control.Job.{Job, transition_at}
use hull_ci.Control.Graph.{advance}
use hull_ci.Control.Aggregate.{Decision, Fold, undecided, decided, fold}
use hull_ci.Control.Timeouts.{Timeouts, Expiry, expiry_verdict, sweep, next_step_deadline}
use hull_ci.Control.Handover.{cancel_steps}

-- `Next`, whose deadline is always given.
pub data Next : Type 0 where
  decide : Decision → Next
  job_timeout : Next
  wait : (deadline : ℕ) → Next

deadline_or : Option ℕ → ℕ → ℕ
deadline_or none limit = limit
deadline_or (some d) limit = min d limit

next_of : Fold → List Step → Timeouts → ℕ → Next
unfolding deadline_or
next_of (decided d) steps t limit = decide d
next_of undecided steps t limit = wait (deadline_or (next_step_deadline steps t) limit)

-- The steps after the clocks and the graph.
unfoldable pub moved_steps : Job → Timeouts → ℕ → List Step
moved_steps j t now = (advance (sweep j.steps t now).0 now).0

-- A pass, under the store's lock: the clocks, then the graph, then the deadline or the fold.
unfoldable pub pass : Job → Timeouts → ℕ → Job × Next
unfolding next_of moved_steps
pass j t now = (
  record j { steps = moved_steps j t now },
  if leb j.deadline_at now
      then job_timeout
      else next_of (fold (moved_steps j t now) (now - j.created_at)) (moved_steps j t now) t
          j.deadline_at,
)

in_flight_ids : List Step → List Text
in_flight_ids steps = map (λ s. s.id) (keep (λ s. is_in_flight s.state) steps)

-- `trim_end_matches('/')`.
push_slash : ℕ → Text → Text
push_slash c [] = if c == b'/' then [] else c ∷ []
push_slash c (d ∷ ds) = c ∷ d ∷ ds

trim_slashes : Text → Text
unfolding push_slash
trim_slashes [] = []
trim_slashes (c ∷ cs) = push_slash c (trim_slashes cs)

details_url : Option Text → Text → Option Text
unfolding trim_slashes
details_url none job_id = none
details_url (some base) job_id = some (trim_slashes base ++ lit "/jobs/" ++ job_id)

with_details_url : Verdict → Option Text → Verdict
with_details_url v none = v
with_details_url v (some url) = record v { details_url = some url }

moved_or : Job → Moved Job → Job
moved_or j (ok k) = k
moved_or j (refused e) = j

-- What `finish` records, and whether it does: a job has one verdict.
unfoldable pub record_verdict : Job → Option Text → Verdict → ℕ → Job × Bool
unfolding moved_or with_details_url details_url
record_verdict j base verdict now =
    let v = with_details_url verdict (details_url base j.id) in
    if has_verdict j.state then (j, false) else (
      record (moved_or j (transition_at j (from_status v.status) now)) { verdict = some v },
      true,
    )

-- What the driver has done after a pass.
pub record Driven : Type 0 where
  pub job : Job
  pub sent : List Text
  pub sleep_until : Option ℕ

finished : Job → List Text → Option Text → Verdict → ℕ → Driven
unfolding record_verdict
finished j ids base verdict now =
    let (sent, k) = cancel_steps j ids in
    record { job = (record_verdict k base verdict now).0; sent = sent; sleep_until = none }

follow : Next → Job → Timeouts → Option Text → ℕ → Driven
unfolding finished in_flight_ids
follow (decide d) j t base now = finished j d.cancel base d.verdict now
follow job_timeout j t base now =
    finished j (in_flight_ids j.steps) base (expiry_verdict Expiry.job t.job) now
follow (wait d) j t base now = record { job = j; sent = []; sleep_until = some d }

unfoldable pub drive_once : Job → Timeouts → Option Text → ℕ → Driven
unfolding follow pass
drive_once j t base now = let (k, next) = pass j t now in follow next k t base now
