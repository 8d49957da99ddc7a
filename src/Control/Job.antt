-- ===== src/Control/Job.antt =====
-- crates/hull-ci-control/src/model.rs: a job, its destinations and its transitions.
pub mod Lifecycle
use hull_ci.Base.{
  ℕ, ◌+◌, ◌-◌, Bool, true, false, not, ◌&&◌, List, [], ◌∷◌, ◌++◌, Option, none, some, Text, text_eq,
  leb, any, find, if◌then◌else◌,
}
use hull_ci.Proto.Verdict.{Verdict, AuthorClass}
use hull_ci.Control.JobState.{
  JobState, queued, report_failed, is_finished, can_transition_to, as_str,
}
use hull_ci.Control.Step.{Step, Moved, ok, refused, bad_job}

pub record Dispatch : Type 0 where
  pub repo : Text
  pub change : Text
  pub tree_id : Text
  pub intent : Text
  pub author : Text
  pub source_url : Text
  pub callback_url : Text
  pub fetch_token : Option Text

pub record DeliveryProgress : Type 0 where
  pub attempt : ℕ
  pub max_attempts : ℕ
  pub waiting : Bool

pub record Job : Type 0 where
  pub id : Text
  pub dispatch : Dispatch
  pub author_class : AuthorClass
  pub state : JobState
  pub steps : List Step
  pub verdict : Option Verdict
  pub created_at : ℕ
  pub deadline_at : ℕ
  pub report_attempts : ℕ
  pub callback_urls : List Text
  pub delivery : Option DeliveryProgress
  pub delivering : Bool
  pub last_delivery_at : Option ℕ
  pub settled_at : Option ℕ

unfoldable pub add_callback_url : Job → Text → Job × Bool
unfolding any
add_callback_url j url =
    if any (λ u. text_eq u url) j.callback_urls
    then (j, false)
    else (record j { callback_urls = j.callback_urls ++ url ∷ [] }, true)

unfoldable pub new_job : Text → Dispatch → AuthorClass → ℕ → ℕ → Job
new_job id dispatch author_class now job_timeout = record {
  id = id;
  dispatch = dispatch;
  author_class = author_class;
  state = queued;
  steps = [];
  verdict = none;
  created_at = now;
  deadline_at = now + job_timeout;
  report_attempts = 0;
  callback_urls = dispatch.callback_url ∷ [];
  delivery = none;
  delivering = false;
  last_delivery_at = none;
  settled_at = none;
}

is_report_failed : JobState → Bool
is_report_failed report_failed = true
is_report_failed _ = false

cooled_down : Option ℕ → ℕ → ℕ → Bool
cooled_down none now cooldown = true
cooled_down (some t) now cooldown = leb cooldown (now - t)

unfoldable pub awaits_redelivery : Job → ℕ → ℕ → Bool
unfolding is_report_failed cooled_down
awaits_redelivery j now cooldown =
    is_report_failed j.state && not j.delivering && cooled_down j.last_delivery_at now cooldown

-- The first instant at which the job was settled; a later one does not replace it.
first_settled : Option ℕ → ℕ → Option ℕ
first_settled none now = some now
first_settled (some t) now = some t

unfoldable pub transition_at : Job → JobState → ℕ → Moved Job
unfolding first_settled
transition_at j next now =
    if can_transition_to j.state next
    then ok (record j {
      state = next;
      settled_at = if is_finished next then first_settled j.settled_at now else j.settled_at;
    })
    else refused (bad_job (as_str j.state) (as_str next))

unfoldable pub step_of : Job → Text → Option Step
unfolding find
step_of j step_id = find (λ s. text_eq s.id step_id) j.steps
