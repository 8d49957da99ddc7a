-- ===== src/Control/Aggregate/Progress.antt =====
-- crates/hull-ci-control/src/graph.rs and aggregate.rs together: a job whose graph has come to rest
-- gets a verdict.
use hull_ci.Base.{ℕ, ◌≡◌, refl, ◌≢◌, true, false, not, List, [], ◌∷◌, arith, any, all}
use hull_ci.Control.StepState.{is_terminal}
use hull_ci.Control.Step.{Step}
use hull_ci.Control.Graph.{any_live, advance}
use hull_ci.Control.Graph.Settled.{advance_never_hangs}
use hull_ci.Control.Aggregate.{undecided, fold, fold_some, fold_settled}

all-any :
    (steps : List Step)
    → all (λ s. is_terminal s.state) steps ≡ true
    → any (λ s. not (is_terminal s.state)) steps ≡ false
unfolding all any
all-any [] h = refl
all-any (s ∷ ss) h = ground (arith, all-any ss)

fold_over :
    (steps : List Step) (elapsed : ℕ)
    → all (λ s. is_terminal s.state) steps ≡ true
    → fold steps elapsed ≢ undecided
unfolding fold fold_some fold_settled
fold_over [] elapsed h = λ e. ground arith
fold_over (x ∷ xs) elapsed h = ground (arith, all-any (x ∷ xs))

-- When `advance` leaves no step ready, leased or running, `fold` decides: the driver never waits for
-- a job in which nothing can happen any more.
pub advance-fold_decides :
    (steps : List Step) (now elapsed : ℕ)
    → any_live (advance steps now).0 ≡ false
    → fold (advance steps now).0 elapsed ≢ undecided
advance-fold_decides steps now elapsed h = fold_over _ elapsed (advance_never_hangs steps now h)
