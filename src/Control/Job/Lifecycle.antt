-- ===== src/Control/Job/Lifecycle.antt =====
-- crates/hull-ci-control/src/model.rs: what every history of `Job::transition_at` keeps.
use hull_ci.Base.{
  ℕ, ◌+◌, ◌≤◌, ◌<◌, ◌≡◌, refl, Bool, true, false, List, [], ◌∷◌, Option, none, some, Text, arith,
  ap, ◌∙◌, if◌then◌else◌,
}
use hull_ci.Proto.Verdict.{AuthorClass}
use hull_ci.Control.JobState.{
  JobState, queued, fetching, planning, running, green, red, errored, reported, report_failed,
  has_verdict, is_finished, can_transition_to,
}
use hull_ci.Control.Step.{Moved, ok, refused}
use hull_ci.Control.Job.{Job, Dispatch, new_job, transition_at}

-- A request that is refused leaves the job as it was.
abbrev after : Job → Moved Job → Job
after j (ok k) = k
after j (refused e) = j

request : Job → JobState × ℕ → Job
request j (next, now) = after j (transition_at j next now)

-- A history: the states that were asked for, each with its instant.
unfoldable pub replay : Job → List (JobState × ℕ) → Job
unfolding request
replay j [] = j
replay j (r ∷ rs) = replay (request j r) rs

-- How many requests of a history were granted.
unfoldable pub granted : Job → List (JobState × ℕ) → ℕ
unfolding request
granted j [] = 0
granted j (r ∷ rs) = (if can_transition_to j.state r.0 then 1 else 0) + granted (request j r) rs

abbrev pub is_some : Option ℕ → Bool
is_some none = false
is_some (some t) = true

-- How far a state lies on the way to `reported`.
unfoldable pub stage : JobState → ℕ
stage queued = 0
stage fetching = 1
stage planning = 2
stage running = 3
stage green = 4
stage red = 4
stage errored = 4
stage report_failed = 5
stage reported = 6

can_transition_to-stage :
    (s next : JobState) → can_transition_to s next ≡ true → stage s < stage next
unfolding can_transition_to stage
can_transition_to-stage s next h = ground arith

stage-le : (s : JobState) → stage s ≤ 6
unfolding stage
stage-le s = ground arith

can_transition_to-has_verdict :
    (s next : JobState)
    → can_transition_to s next ≡ true
    → has_verdict s ≡ true
    → has_verdict next ≡ true
unfolding can_transition_to has_verdict
can_transition_to-has_verdict s next h k = ground arith

can_transition_to-reported : (next : JobState) → can_transition_to reported next ≡ false
unfolding can_transition_to
can_transition_to-reported next = ground arith

request-settled :
    (j : Job) (r : JobState × ℕ)
    → is_some j.settled_at ≡ has_verdict j.state
    → is_some (request j r).settled_at ≡ has_verdict (request j r).state
unfolding request transition_at is_finished
request-settled j (next, now) h = ground (arith, can_transition_to-has_verdict j.state next)

replay-settled :
    (j : Job) (rs : List (JobState × ℕ))
    → is_some j.settled_at ≡ has_verdict j.state
    → is_some (replay j rs).settled_at ≡ has_verdict (replay j rs).state
unfolding replay
replay-settled j [] h = h
replay-settled j (r ∷ rs) h = replay-settled (request j r) rs (request-settled j r h)

-- After any history of a new job, an instant of settlement is recorded exactly when the state has a
-- verdict.
pub settled_iff_verdict :
    (id : Text) (d : Dispatch) (c : AuthorClass) (now job_timeout : ℕ) (rs : List (JobState × ℕ))
    → let j = replay (new_job id d c now job_timeout) rs in
      is_some j.settled_at ≡ has_verdict j.state
unfolding new_job has_verdict
settled_iff_verdict id d c now job_timeout rs =
    replay-settled (new_job id d c now job_timeout) rs refl

request-final :
    (j : Job) (r : JobState × ℕ) (t : ℕ)
    → has_verdict j.state ≡ true
    → j.settled_at ≡ some t
    → (has_verdict (request j r).state ≡ true) × ((request j r).settled_at ≡ some t)
unfolding request transition_at is_finished
request-final j (next, now) t h k = ground (arith, can_transition_to-has_verdict j.state next)

-- A job that has a verdict, settled at `t`, keeps having one and keeps `t`, whatever is asked of it.
pub verdict_is_final :
    (j : Job) (rs : List (JobState × ℕ)) (t : ℕ)
    → has_verdict j.state ≡ true
    → j.settled_at ≡ some t
    → (has_verdict (replay j rs).state ≡ true) × ((replay j rs).settled_at ≡ some t)
unfolding replay
verdict_is_final j [] t h k = (h, k)
verdict_is_final j (r ∷ rs) t h k =
    let (h', k') = request-final j r t h k in verdict_is_final (request j r) rs t h' k'

request-stage :
    (j : Job) (r : JobState × ℕ)
    → stage j.state + (if can_transition_to j.state r.0 then 1 else 0) ≤ stage (request j r).state
unfolding request transition_at
request-stage j (next, now) = ground (arith, can_transition_to-stage j.state next)

-- However long the history, a job changes its state at most as often as stages are left before
-- `reported`: six times for a new job.
pub granted-le-stages : (j : Job) (rs : List (JobState × ℕ)) → stage j.state + granted j rs ≤ 6
unfolding granted
granted-le-stages j [] = omega (arith, stage-le j.state)
granted-le-stages j (r ∷ rs) = omega (arith, request-stage j r, granted-le-stages (request j r) rs)

request-reported : (j : Job) (r : JobState × ℕ) → j.state ≡ reported → request j r ≡ j
unfolding request transition_at
request-reported j (next, now) h = ground (arith, can_transition_to-reported next)

-- A reported job refuses every transition: no field of it changes again.
pub reported_is_final : (j : Job) (rs : List (JobState × ℕ)) → j.state ≡ reported → replay j rs ≡ j
unfolding replay
reported_is_final j [] h = refl
reported_is_final j (r ∷ rs) h =
    ap (λ k. replay k rs) (request-reported j r h) ∙ reported_is_final j rs h
