-- ===== src/Control/Aggregate/Outcome.antt =====
-- crates/hull-ci-control/src/aggregate.rs: the status of `fold` is that of the worst step.
use mathlib.Core.List.{Perm, Permᴰ}
use mathlib.Core.Logic.{∥∥₁_elim}
use hull_ci.Base.{
  ℕ, ◌≤◌, max, ◌≡◌, refl, true, false, not, List, [], ◌∷◌, Option, none, some, arith, find, any,
  Option-cases, Bool-cases, inl, inr, ◌==◌, if◌then◌else◌, ap, ◌∙◌, sym,
}
use hull_ci.Proto.Verdict.{Status, green, red, errored}
use hull_ci.Control.StepState.{is_terminal, is_errored}
use hull_ci.Control.Step.{Step, failed_fatally}
use hull_ci.Control.Aggregate.{
  Fold, undecided, decided, no_tests_decision, red_decision, errored_decision, green_decision,
  fold_some, fold_settled, fold,
}

-- How bad a step is: a fatal failure, still under way, an infrastructure error, or none of these.
severity : Step → ℕ
severity s =
    if failed_fatally s
    then 3
    else if not (is_terminal s.state)
    then 2
    else if is_errored s.state
    then 1
    else 0

worst : List Step → ℕ
worst [] = 0
worst (s ∷ ss) = max (severity s) (worst ss)

status_of_worst : ℕ → Option Status
status_of_worst w =
    if w == 0
    then some green
    else if w == 1
    then some errored
    else if w == 2
    then none
    else some red

-- The status that the worst step calls for; a plan with no step is an error, and `none` is a wait.
pub expected_status : List Step → Option Status
unfolding status_of_worst worst
expected_status [] = some errored
expected_status (s ∷ ss) = status_of_worst (worst (s ∷ ss))

abbrev pub fold_status : Fold → Option Status
fold_status undecided = none
fold_status (decided d) = some d.verdict.status

worst-le : (steps : List Step) → worst steps ≤ 3
unfolding worst severity
worst-le [] = omega arith
worst-le (s ∷ ss) = ground (arith, worst-le ss)

worst-fatal : (steps : List Step) {s : Step} → find failed_fatally steps ≡ some s → worst steps ≡ 3
unfolding worst severity find
worst-fatal [] h = ground arith
worst-fatal (x ∷ ss) {s} h = ground (arith, worst-fatal ss {s = s}, worst-le ss)

worst-not_fatal : (steps : List Step) → find failed_fatally steps ≡ none → worst steps ≤ 2
unfolding worst severity find
worst-not_fatal [] h = omega arith
worst-not_fatal (x ∷ ss) h = ground (arith, worst-not_fatal ss)

worst-running :
    (steps : List Step) → any (λ s. not (is_terminal s.state)) steps ≡ true → 2 ≤ worst steps
unfolding worst severity any
worst-running [] h = ground arith
worst-running (x ∷ ss) h = ground (arith, worst-running ss)

worst-over :
    (steps : List Step)
    → find failed_fatally steps ≡ none
    → any (λ s. not (is_terminal s.state)) steps ≡ false
    → worst steps ≤ 1
unfolding worst severity any find
worst-over [] h k = omega arith
worst-over (x ∷ ss) h k = ground (arith, worst-over ss)

worst-errored :
    (steps : List Step) {s : Step} → find (λ s. is_errored s.state) steps ≡ some s → 1 ≤ worst steps
unfolding worst severity find
worst-errored [] h = ground arith
worst-errored (x ∷ ss) {s} h = ground (arith, worst-errored ss {s = s})

worst-fine :
    (steps : List Step)
    → find failed_fatally steps ≡ none
    → any (λ s. not (is_terminal s.state)) steps ≡ false
    → find (λ s. is_errored s.state) steps ≡ none
    → worst steps ≡ 0
unfolding worst severity any find
worst-fine [] h k e = refl
worst-fine (x ∷ ss) h k e = ground (arith, worst-fine ss)

fold_settled-status :
    (steps : List Step) (elapsed : ℕ)
    → find failed_fatally steps ≡ none
    → any (λ s. not (is_terminal s.state)) steps ≡ false
    → fold_status (fold_settled steps elapsed) ≡ status_of_worst (worst steps)
unfolding fold_settled status_of_worst errored_decision green_decision
fold_settled-status steps elapsed fine over =
    elim (Option-cases (find (λ s. is_errored s.state) steps)) [
      | inr (s, broken) ↦
          rw (broken, fold_settled)
            (ground (arith, worst-errored steps {s = s} broken, worst-over steps fine over))
      | inl none_broken ↦
          rw (none_broken, fold_settled) (ground (arith, worst-fine steps fine over none_broken))
    ]

fold_some-status :
    (steps : List Step) (elapsed : ℕ)
    → fold_status (fold_some steps elapsed) ≡ status_of_worst (worst steps)
unfolding fold_some status_of_worst red_decision
fold_some-status steps elapsed = elim (Option-cases (find failed_fatally steps)) [
  | inr (s, fatal) ↦ rw (fatal, fold_some) (ground (arith, worst-fatal steps {s = s} fatal))
  | inl fine ↦
      rw (fine, fold_some)
        (elim (Bool-cases (any (λ s. not (is_terminal s.state)) steps)) [
          | inl running ↦
              rw running (ground (arith, worst-running steps running, worst-not_fatal steps fine))
          | inr over ↦ rw over (fold_settled-status steps elapsed fine over)
        ])
]

-- `fold` decides by the worst step alone: red if one failed fatally, else undecided while one is
-- under way, else errored if one errored, else green; a job with no step is errored.
pub fold-expected_status :
    (steps : List Step) (elapsed : ℕ) → fold_status (fold steps elapsed) ≡ expected_status steps
unfolding fold expected_status no_tests_decision
fold-expected_status [] elapsed = refl
fold-expected_status (s ∷ ss) elapsed = fold_some-status (s ∷ ss) elapsed

worst-perm : {xs ys : List Step} → Permᴰ xs ys → worst xs ≡ worst ys
unfolding worst
worst-perm Permᴰ.nil = refl
worst-perm (Permᴰ.cons e p) = rw (e, worst-perm p)
worst-perm (Permᴰ.swap e f) = rw (e, f) (omega arith)
worst-perm (Permᴰ.trans p q) = worst-perm p ∙ worst-perm q

expected_status-perm : {xs ys : List Step} → Permᴰ xs ys → expected_status xs ≡ expected_status ys
unfolding expected_status
expected_status-perm Permᴰ.nil = refl
expected_status-perm (Permᴰ.cons e p) = ap status_of_worst (worst-perm (Permᴰ.cons e p))
expected_status-perm (Permᴰ.swap e f) = ap status_of_worst (worst-perm (Permᴰ.swap e f))
expected_status-perm (Permᴰ.trans p q) = expected_status-perm p ∙ expected_status-perm q

status_set : IsSet (Option Status)
status_set = hlevel

-- The order in which the steps stand, and the time that passed, never change the status.
pub fold-perm :
    (xs ys : List Step) (elapsed later : ℕ)
    → Perm xs ys
    → fold_status (fold xs elapsed) ≡ fold_status (fold ys later)
fold-perm xs ys elapsed later p = ∥∥₁_elim p (status_set _ _) λ q.
    fold-expected_status xs elapsed ∙ expected_status-perm q ∙ sym (fold-expected_status ys later)
