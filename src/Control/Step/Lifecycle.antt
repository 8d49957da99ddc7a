-- ===== src/Control/Step/Lifecycle.antt =====
-- crates/hull-ci-control/src/model.rs: what every history of `Step::transition` keeps.
use hull_ci.Base.{◌≡◌, refl, Bool, true, false, ◌||◌, List, [], ◌∷◌, arith, ap, ◌∙◌, ◌⊎◌, inl}
use hull_ci.Control.StepState.{
  StepState, pending, leased, running, passed, is_terminal, can_transition_to,
}
use hull_ci.Control.Step.{Step, Moved, ok, refused, transition}

abbrev after : Step → Moved Step → Step
after s (ok t) = t
after s (refused e) = s

request : Step → StepState → Step
request s next = after s (transition s next)

-- A history: the states that were asked for.
unfoldable pub replay : Step → List StepState → Step
unfolding request
replay s [] = s
replay s (n ∷ ns) = replay (request s n) ns

request-terminal : (s : Step) (n : StepState) → is_terminal s.state ≡ true → request s n ≡ s
unfolding request transition can_transition_to is_terminal
request-terminal s n h = ground arith

-- A step in a terminal state refuses every transition: no later request changes anything of it.
pub terminal_is_final :
    (s : Step) (ns : List StepState) → is_terminal s.state ≡ true → replay s ns ≡ s
unfolding replay
terminal_is_final s [] h = refl
terminal_is_final s (n ∷ ns) h =
    ap (λ t. replay t ns) (request-terminal s n h) ∙ terminal_is_final s ns h

abbrev is_leased : StepState → Bool
is_leased leased = true
is_leased _ = false

-- Some state of the history, the first one included, is `leased`.
unfoldable pub visits_leased : Step → List StepState → Bool
unfolding request
visits_leased s [] = is_leased s.state
visits_leased s (n ∷ ns) = is_leased s.state || visits_leased (request s n) ns

-- The states that a step can be in without a lease ever having been granted.
unleased : StepState → Bool
unleased leased = false
unleased running = false
unleased passed = false
unleased _ = true

request-unleased :
    (s : Step) (n : StepState)
    → unleased s.state ≡ true
    → (unleased (request s n).state ≡ true) ⊎ (is_leased (request s n).state ≡ true)
unfolding request transition can_transition_to unleased
request-unleased s n h = ground arith

visits_leased-leased :
    (s : Step) (ns : List StepState) → is_leased s.state ≡ true → visits_leased s ns ≡ true
unfolding visits_leased
visits_leased-leased s [] h = h
visits_leased-leased s (n ∷ ns) h = rw h refl

replay-unleased :
    (s : Step) (ns : List StepState)
    → unleased s.state ≡ true
    → (unleased (replay s ns).state ≡ true) ⊎ (visits_leased s ns ≡ true)
unfolding replay visits_leased
replay-unleased s [] h = inl h
replay-unleased s (n ∷ ns) h = ground (
  arith,
  request-unleased s n h,
  replay-unleased (request s n) ns,
  visits_leased-leased (request s n) ns,
)

-- A step that starts `pending` and ends `passed` or `running` was leased on the way: nothing passes
-- without having been handed to a node.
pub passed_was_leased :
    (s : Step) (ns : List StepState)
    → s.state ≡ pending
    → ((replay s ns).state ≡ passed) ⊎ ((replay s ns).state ≡ running)
    → visits_leased s ns ≡ true
unfolding unleased
passed_was_leased s ns start end = ground (arith, replay-unleased s ns)
