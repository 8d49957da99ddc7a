-- ===== src/Control/Graph.antt =====
-- crates/hull-ci-control/src/graph.rs: which steps the dependency graph unblocks. The `loop` takes
-- fuel, one more than the number of steps; each round that goes on takes a step out of `pending`.
pub mod Settled
pub mod Gated
pub mod Justified
pub mod Ordered
pub mod Unbroken
use hull_ci.Base.{
  ℕ, zero, suc, Bool, true, false, ◌||◌, List, [], ◌∷◌, ◌++◌, map, Option, none, some, Text,
  text_eq, lit, length, any, find, ◌==◌, if◌then◌else◌,
}
use hull_ci.Proto.Verdict.{Reason}
use hull_ci.Proto.Sanitize.{sanitize_summary}
use hull_ci.Control.StepState.{StepState, is_pending}
use hull_ci.Control.Step.{Step, Moved, ok, refused, transition}

abbrev needs_name_cap : ℕ
needs_name_cap = 64

pub data Advance : Type 0 where
  ready skipped broken : Advance

pub data Gate : Type 0 where
  ready skip wait : Gate
  undeclared : Text → Gate

pub data DepStatus : Type 0 where
  satisfied blocked waiting unknown : DepStatus

-- What a round sees of a step: its name, its state and `continue_on_error`.
pub record Seen : Type 0 where
  pub name : Text
  pub state : StepState
  pub continue_on_error : Bool

abbrev pub see : Step → Seen
see s = record { name = s.spec.name; state = s.state; continue_on_error = s.spec.continue_on_error }

abbrev pub snapshot : List Step → List Seen
snapshot = map see

unfoldable pub status_of : StepState → Bool → DepStatus
status_of StepState.passed tolerated = DepStatus.satisfied
status_of StepState.cached tolerated = DepStatus.satisfied
status_of StepState.failed true = DepStatus.satisfied
status_of StepState.failed false = DepStatus.blocked
status_of StepState.errored tolerated = DepStatus.blocked
status_of StepState.skipped tolerated = DepStatus.blocked
status_of _ tolerated = DepStatus.waiting

unfoldable pub status_found : Option Seen → DepStatus
unfolding status_of
status_found none = DepStatus.unknown
status_found (some e) = status_of e.state e.continue_on_error

unfoldable pub dep_status : Text → List Seen → DepStatus
unfolding find status_found
dep_status name seen = status_found (find (λ e. text_eq e.name name) seen)

gate_end : Bool → Bool → Gate
gate_end true is_waiting = Gate.skip
gate_end false true = Gate.wait
gate_end false false = Gate.ready

-- The `for` loop over `needs`, with its two flags.
unfoldable pub gate_from : Bool → Bool → List Text → List Seen → Gate
unfolding gate_end
gate_from is_blocked is_waiting [] seen = gate_end is_blocked is_waiting
gate_from is_blocked is_waiting (n ∷ ns) seen = elim (dep_status n seen) [
  | DepStatus.unknown ↦ Gate.undeclared n
  | DepStatus.blocked ↦ gate_from true is_waiting ns seen
  | DepStatus.waiting ↦ gate_from is_blocked true ns seen
  | DepStatus.satisfied ↦ gate_from is_blocked is_waiting ns seen
]

unfoldable pub gate : List Text → List Seen → Gate
unfolding gate_from
gate needs seen = gate_from false false needs seen

replace_char : ℕ → ℕ → Text → Text
replace_char from to = map (λ c. if c == from then to else c)

unfoldable pub quoted : Text → Text
unfolding replace_char sanitize_summary
quoted raw = b'`' ∷ replace_char b'`' 0x27 (sanitize_summary raw needs_name_cap) ++ b'`' ∷ []

-- `error_infra`: the step as it is left, and whether it moved.
error_infra : Step → ℕ → Text → Step × Bool
error_infra s now detail = elim (transition s StepState.errored) [
  | ok t ↦
      (record t { error_reason = some Reason.infra; detail = detail; finished_at = some now }, true)
  | refused e ↦ (s, false)
]

undeclared_detail : Text → Text
unfolding quoted
undeclared_detail name = lit "needs " ++ quoted name ++ lit ", which the plan does not declare"

cycle_detail : Text
cycle_detail = lit "waiting on a dependency that can never start (cycle in the plan's needs edges)"

-- What the transition made of a step, or the step itself where it was refused.
moved_to : Step → Moved Step → (Step → Step) → Advance → Step × Option Advance
moved_to s (ok t) stamp a = (stamp t, some a)
moved_to s (refused e) stamp a = (s, none)

infra_moved : Step × Bool → Step × Option Advance
infra_moved (t, moved) = (t, if moved then some Advance.broken else none)

apply_gate : Gate → ℕ → Step → Step × Option Advance
unfolding moved_to error_infra infra_moved undeclared_detail
apply_gate Gate.wait now s = (s, none)
apply_gate Gate.ready now s =
    moved_to s (transition s StepState.ready) (λ t. record t { ready_at = some now }) Advance.ready
apply_gate Gate.skip now s =
    moved_to s (transition s StepState.skipped) (λ t. record t { finished_at = some now })
      Advance.skipped
apply_gate (Gate.undeclared name) now s = infra_moved (error_infra s now (undeclared_detail name))

unfoldable pub decide_gate : List Seen → Step → Gate
decide_gate seen s = if is_pending s.state then gate s.spec.needs seen else Gate.wait

-- One step of a round, decided against the snapshot that the round began with.
unfoldable pub advance_step : List Seen → ℕ → Step → Step × Option Advance
unfolding decide_gate apply_gate
advance_step seen now s = apply_gate (decide_gate seen s) now s

note_move : Text → Option Advance → List (Text × Advance) → List (Text × Advance)
note_move id none rest = rest
note_move id (some a) rest = (id, a) ∷ rest

-- A round: what it makes of the steps, and the entries that it pushes to `moved`.
unfoldable pub round_steps : List Seen → ℕ → List Step → List Step
unfolding advance_step
round_steps seen now = map (λ s. (advance_step seen now s).0)

unfoldable pub round_moved : List Seen → ℕ → List Step → List (Text × Advance)
unfolding advance_step note_move
round_moved seen now [] = []
round_moved seen now (s ∷ ss) = note_move s.id (advance_step seen now s).1 (round_moved seen now ss)

abbrev pub Progress : Type 0
Progress = List Step × List (Text × Advance)

-- A round that moved nothing ends the loop.
unfoldable pub rounds : ℕ → ℕ → List Step → List (Text × Advance) → Progress
unfolding round_steps round_moved
rounds zero now steps moved = (steps, moved)
rounds (suc fuel) now steps moved = elim (round_moved (snapshot steps) now steps) [
  | [] ↦ (round_steps (snapshot steps) now steps, moved)
  | m ∷ ms ↦ rounds fuel now (round_steps (snapshot steps) now steps) (moved ++ m ∷ ms)
]

unfoldable pub is_live : StepState → Bool
is_live StepState.ready = true
is_live StepState.leased = true
is_live StepState.running = true
is_live _ = false

-- The last loop: a pending step of a graph in which nothing can move any more.
unfoldable pub break_step : ℕ → Step → Step × Option Advance
unfolding infra_moved error_infra cycle_detail
break_step now s =
    if is_pending s.state then infra_moved (error_infra s now cycle_detail) else (s, none)

unfoldable pub break_moved : ℕ → List Step → List (Text × Advance)
unfolding break_step note_move
break_moved now [] = []
break_moved now (s ∷ ss) = note_move s.id (break_step now s).1 (break_moved now ss)

unfoldable pub break_steps : ℕ → List Step → List Step
unfolding break_step
break_steps now = map (λ s. (break_step now s).0)

unfoldable pub any_live : List Step → Bool
unfolding any is_live
any_live = any (λ s. is_live s.state)

unfoldable pub break_cycles : ℕ → Progress → Progress
unfolding any_live break_steps break_moved
break_cycles now (steps, moved) =
    if any_live steps
    then (steps, moved)
    else (break_steps now steps, moved ++ break_moved now steps)

unfoldable pub advance : List Step → ℕ → Progress
unfolding rounds break_cycles
advance steps now = break_cycles now (rounds (suc (length steps)) now steps [])
