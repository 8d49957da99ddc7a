-- ===== src/Plan/Examples.antt =====
-- crates/hull-ci-plan/src: the theorems at small pipelines.
use hull_ci.Base.{◌≡◌, ◌≤◌, false, Bool, List, [], ◌∷◌, ◌++◌, none, some, Text, lit, decimal, arith}
use hull_ci.Plan.Error.{ok}
use hull_ci.Plan.Validate.{parse_timeout}
use hull_ci.Plan.Validate.Timeout.{UnitOf, parse_timeout_bounds, parse_timeout-decimal}
use hull_ci.Plan.Shape.{measure}
use hull_ci.Plan.Shape.Blind.{nested, measure-nested}
use hull_ci.Plan.Pipeline.{PlanStep, run_kind, auto}
use hull_ci.Plan.Recorder.{Limits, State, Call, step_call, image_call, new, evaluate}
use hull_ci.Plan.Recorder.Inv.{IsRecorded}
use hull_ci.Plan.Recorder.Planned.{evaluate-IsRecorded}

parse_timeout-decimal_example : parse_timeout (decimal 90 ++ b'm' ∷ []) ≡ ok 5400
parse_timeout-decimal_example =
    parse_timeout-decimal b'm' 60 90 UnitOf.minute (omega arith) (omega arith)

ninety_minutes : (1 ≤ 5400) × (5400 ≤ 86400)
ninety_minutes = parse_timeout_bounds (decimal 90 ++ b'm' ∷ []) 5400 parse_timeout-decimal_example

nested_65 : ((measure (nested 65)).code_nesting ≡ 65) × ((measure (nested 65)).raw_nesting ≡ 1)
nested_65 = measure-nested 64

abbrev step_of : Text → List Text → PlanStep
step_of name needs = record {
  name = name;
  kind = run_kind (lit "make");
  inputs = [];
  cache = [];
  secrets = [];
  needs = needs;
  shard = some auto;
  timeout = some 60;
  image = none;
  continue_on_error = false;
}

abbrev limits : Limits
limits = record { max_steps = 4; max_depth = 2 }

abbrev calls : List Call
calls =
    image_call (lit "alpine:3")
    ∷ step_call (step_of (lit "build") [])
    ∷ step_call (step_of (lit "test") (lit "build" ∷ []))
    ∷ step_call (step_of (lit "publish") (lit "test" ∷ []))
    ∷ []

-- The third step is one too deep.
evaluate-IsRecorded_example :
    (s : State) × (finished : Bool) × (evaluate calls (new limits []) ≡ some (s, finished))
    × IsRecorded limits s
evaluate-IsRecorded_example = evaluate-IsRecorded calls limits []
