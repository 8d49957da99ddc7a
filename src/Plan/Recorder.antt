-- ===== src/Plan/Recorder.antt =====
-- crates/hull-ci-plan/src/eval.rs: the recorder that the calls of a pipeline file fill. Where an index is out
-- of range, which panics, the result is `none`.
pub mod Table
pub mod Inv
pub mod Planned
use hull_ci.Base.{
  ℕ, zero, suc, ◌+◌, max, ◌≡◌, Bool, true, false, List, [], ◌∷◌, ◌++◌, Option, none, some, Text,
  lit, text_eq, text_keys, get, insert, take, length, leb, ltb, if◌then◌else◌,
}
use hull_ci.Plan.Error.{
  Result, ok, err, ◌>>◌, PlanErrorKind, invalid, exhausted, Field, inputs, cache, secrets, needs,
  list_too_long, duplicate_name, dangling_needs, tier, redeclared_image, redeclared_trust,
  redeclared_cache_scope, too_many_steps, too_deep,
}
use hull_ci.Plan.Validate.{
  max_list_len, check_step_name, check_cache_scope, check_image_ref, check_action, check_list_item,
  check_run,
}
use hull_ci.Plan.Pipeline.{
  Trust, trusted, untrusted, StepKind, run_kind, action, PlanStep, Pipeline,
}

pub record Limits : Type 0 where
  pub max_steps : ℕ
  pub max_depth : ℕ

pub record State : Type 0 where
  pub limits : Limits
  pub actions : List Text
  pub image : Option Text
  pub trust : Option Trust
  pub cache_scope : Option Text
  pub steps : List PlanStep
  pub depths : List ℕ
  pub index : List (Text × ℕ)
  pub failure : Option PlanErrorKind

unfoldable pub new : Limits → (actions : List Text) → State
new limits actions = record {
  limits = limits;
  actions = actions;
  image = none;
  trust = none;
  cache_scope = none;
  steps = [];
  depths = [];
  index = [];
  failure = none;
}

unfoldable pub into_pipeline : State → Pipeline
into_pipeline s = record {
  image = s.image;
  trust = s.trust;
  cache_scope = s.cache_scope;
  steps = s.steps;
}

-- The first failure is kept.
unfoldable pub fail : PlanErrorKind → State → State
fail kind s = record s {
  failure = elim s.failure [ none ↦ some kind | some earlier ↦ some earlier ];
}

unfoldable pub truncate : Text → Text
truncate s = if ltb 32 (length s) then take 32 s ++ 8230 ∷ [] else s

unfoldable pub set_image : Text → State → Result State
unfolding check_image_ref
set_image reference s = elim s.image [
  | some i ↦ err (invalid redeclared_image)
  | none ↦ check_image_ref reference >> ok (record s { image = some reference })
]

unfoldable pub set_trust : Text → State → Result State
unfolding truncate
set_trust given s = elim s.trust [
  | some t ↦ err (invalid redeclared_trust)
  | none ↦
      if text_eq given (lit "trusted")
      then ok (record s { trust = some trusted })
      else if text_eq given (lit "untrusted")
      then ok (record s { trust = some untrusted })
      else err (invalid (tier (truncate given)))
]

unfoldable pub set_cache_scope : Text → State → Result State
unfolding check_cache_scope
set_cache_scope name s = elim s.cache_scope [
  | some c ↦ err (invalid redeclared_cache_scope)
  | none ↦ check_cache_scope name >> ok (record s { cache_scope = some name })
]

check_kind : State → (name : Text) → StepKind → Result (Unit {0})
unfolding check_run check_action
check_kind s name (run_kind run_text) = check_run name run_text
check_kind s name (action uses) = check_action uses s.actions

check_items : Field → (name : Text) → List Text → Result (Unit {0})
unfolding check_list_item
check_items field name [] = ok tt
check_items field name (item ∷ items) =
    check_list_item field name item >> check_items field name items

check_list : Field → (name : Text) → List Text → Result (Unit {0})
unfolding check_items
check_list field name list =
    if ltb max_list_len (length list)
    then err (invalid (list_too_long field name max_list_len))
    else check_items field name list

check_step_image : Option Text → Result (Unit {0})
unfolding check_image_ref
check_step_image none = ok tt
check_step_image (some reference) = check_image_ref reference

unfoldable pub get_elem? {ℓ} : {A : Type ℓ} → List A → ℕ → Option A
get_elem? [] i = none
get_elem? (x ∷ xs) zero = some x
get_elem? (x ∷ xs) (suc i) = get_elem? xs i

-- The loop over what a step needs, at the depth so far.
unfoldable pub needs_depth : State → (name : Text) → (depth : ℕ) → List Text → Option (Result ℕ)
unfolding get_elem? truncate
needs_depth s name depth [] = some (ok depth)
needs_depth s name depth (n ∷ ns) = elim (get n s.index) [
  | none ↦ some (err (invalid (dangling_needs name (truncate n))))
  | some i ↦ elim (get_elem? s.depths i) [
    | none ↦ none
    | some d ↦ needs_depth s name (max depth (d + 1)) ns
  ]
]

-- What `push` asks of a step before it looks at what the step needs.
unfoldable pub check_step : PlanStep → State → Result (Unit {0})
unfolding check_step_name check_kind check_list check_step_image
check_step step s =
    check_step_name step.name
    >> (elim (get step.name s.index) [
      | some i ↦ err (invalid (duplicate_name step.name))
      | none ↦
          if leb s.limits.max_steps (length s.steps)
          then err (exhausted (too_many_steps s.limits.max_steps))
          else ok tt
    ])
    >> check_kind s step.name step.kind
    >> check_list inputs step.name step.inputs
    >> check_list cache step.name step.cache
    >> check_list secrets step.name step.secrets
    >> check_list needs step.name step.needs
    >> check_step_image step.image

unfoldable pub push_at : PlanStep → State → ℕ → Result (Text × State)
push_at step s depth =
    if ltb s.limits.max_depth depth
    then err (exhausted (too_deep s.limits.max_depth))
    else ok (
      step.name,
      record s {
        index = insert step.name (length s.steps) s.index;
        depths = s.depths ++ depth ∷ [];
        steps = s.steps ++ step ∷ [];
      },
    )

push_deep : PlanStep → State → Option (Result ℕ) → Option (Result (Text × State))
unfolding push_at
push_deep step s none = none
push_deep step s (some (err e)) = some (err e)
push_deep step s (some (ok depth)) = some (push_at step s depth)

push_checked : PlanStep → State → Result (Unit {0}) → Option (Result (Text × State))
unfolding needs_depth push_deep
push_checked step s (err e) = some (err e)
push_checked step s (ok u) = push_deep step s (needs_depth s step.name 1 step.needs)

unfoldable pub push : PlanStep → State → Option (Result (Text × State))
unfolding check_step push_checked
push step s = push_checked step s (check_step step s)

-- A call of a builtin that a pipeline file makes, its arguments unpacked.
pub data Call : Type 0 where
  image_call trust_call cache_scope_call : Text → Call
  step_call : PlanStep → Call

pushed : Option (Result (Text × State)) → Option (Result State)
pushed none = none
pushed (some (err e)) = some (err e)
pushed (some (ok (handle, s))) = some (ok s)

unfoldable pub call : Call → State → Option (Result State)
unfolding set_image set_trust set_cache_scope push pushed
call (image_call reference) s = some (set_image reference s)
call (trust_call given) s = some (set_trust given s)
call (cache_scope_call name) s = some (set_cache_scope name s)
call (step_call step) s = pushed (push step s)

-- The calls of an evaluation, up to the first that fails, and whether all were made.
unfoldable pub evaluate : List Call → State → Option (State × Bool)
unfolding call fail
evaluate [] s = some (s, true)
evaluate (c ∷ cs) s = elim (call c s) [
  | none ↦ none
  | some (err e) ↦ some (fail e s, false)
  | some (ok s') ↦ evaluate cs s'
]
