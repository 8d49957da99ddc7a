-- ===== src/Control/Step.antt =====
-- crates/hull-ci-control/src/model.rs: a step and its transitions. Instants and durations are
-- natural numbers of nanoseconds.
pub mod Lifecycle
use hull_ci.Base.{ℕ, Bool, false, not, ◌&&◌, List, [], Option, none, Text, ℤ, if◌then◌else◌}
use hull_ci.Proto.Verdict.{Reason}
use hull_ci.Control.StepState.{StepState, pending, is_failed, can_transition_to, as_str}

pub record StepSpec : Type 0 where
  pub name : Text
  pub argv : List Text
  pub image : Text
  pub timeout : Option ℕ
  pub continue_on_error : Bool
  pub needs : List Text
  pub secrets : List Text
  pub inputs : List Text
  pub env_allowlist : List (Text × Text)

pub record Step : Type 0 where
  pub id : Text
  pub spec : StepSpec
  pub state : StepState
  pub attempt : ℕ
  pub node_id : Option Text
  pub lease_expires_at : Option ℕ
  pub ready_at : Option ℕ
  pub started_at : Option ℕ
  pub finished_at : Option ℕ
  pub exit_code : Option ℤ
  pub log_key : Option Text
  pub detail : Text
  pub error_reason : Option Reason
  pub memo_key : Option Text

-- `StepSpec::new` and `Step::new`.
abbrev pub new_spec : Text → List Text → Text → StepSpec
new_spec name argv image = record {
  name = name;
  argv = argv;
  image = image;
  timeout = none;
  continue_on_error = false;
  needs = [];
  secrets = [];
  inputs = [];
  env_allowlist = [];
}

abbrev pub new_step : Text → StepSpec → Step
new_step id spec = record {
  id = id;
  spec = spec;
  state = pending;
  attempt = 0;
  node_id = none;
  lease_expires_at = none;
  ready_at = none;
  started_at = none;
  finished_at = none;
  exit_code = none;
  log_key = none;
  detail = [];
  error_reason = none;
  memo_key = none;
}

-- `StateError::Step` and `StateError::Job`.
pub data StateError : Type 0 where
  bad_job : (from to : Text) → StateError
  bad_step : (from to : Text) → StateError

-- `Result<(), StateError>` beside the state that the method leaves behind.
pub data Moved {ℓ} (A : Type ℓ) : Type ℓ where
  ok : A → Moved A
  refused : StateError → Moved A

unfoldable pub transition : Step → StepState → Moved Step
transition s next =
    if can_transition_to s.state next
    then ok (record s { state = next })
    else refused (bad_step (as_str s.state) (as_str next))

unfoldable pub failed_fatally : Step → Bool
unfolding is_failed
failed_fatally s = is_failed s.state && not s.spec.continue_on_error
