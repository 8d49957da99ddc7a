-- ===== src/Control/Aggregate/Summary.antt =====
-- crates/hull-ci-control/src/aggregate.rs: what a verdict carries beside its status.
use hull_ci.Base.{
  ℕ, ◌≡◌, refl, List, [], ◌∷◌, Option, none, some, Text, arith, find, any, not, Option-cases, Bool,
  all, Bool-cases, inl, inr, true, false, lit,
}
use hull_ci.Proto.Verdict.{Status, Reason, errored}
use hull_ci.Proto.Sanitize.{summary_max_chars}
use hull_ci.Proto.Chars.{is_control, is_invisible_formatting}
use hull_ci.Proto.Sanitize.Clean.{
  IsClean, IsPrintable-all, sanitize_summary-IsClean, is_printable, is_single_spaced,
}
use hull_ci.Control.StepState.{is_terminal, is_errored}
use hull_ci.Control.Step.{Step, failed_fatally}
use hull_ci.Control.Aggregate.{
  Fold, undecided, decided, Decision, no_tests_decision, red_decision, errored_decision,
  green_decision, fold_some, fold_settled, fold, red_summary, errored_summary, green_summary,
}

-- Every decision satisfies `P` if the four ways to reach one do.
abbrev pub Decides : (Decision → Type 0) → Fold → Type 0
Decides P undecided = Unit
Decides P (decided d) = P d

pub fold_cases :
    (P : Decision → Type 0) (steps : List Step) (elapsed : ℕ)
    → P no_tests_decision
    → ((s : Step) → find failed_fatally steps ≡ some s → P (red_decision steps elapsed s))
    → ((s : Step) → find (λ s. is_errored s.state) steps ≡ some s → P (errored_decision s))
    → P (green_decision steps elapsed)
    → Decides P (fold steps elapsed)
unfolding fold
fold_cases P [] elapsed none_to_run red error green = none_to_run
fold_cases P (x ∷ xs) elapsed none_to_run red error green =
    elim (Option-cases (find failed_fatally (x ∷ xs))) [
      | inr (s, e) ↦ rw (e, fold_some) (red s e)
      | inl e ↦
          rw (e, fold_some)
            (elim (Bool-cases (any (λ s. not (is_terminal s.state)) (x ∷ xs))) [
              | inl running ↦ rw running tt
              | inr over ↦ rw over (elim (Option-cases (find (λ s. is_errored s.state) (x ∷ xs))) [
                | inr (s, f) ↦ rw (f, fold_settled) (error s f)
                | inl f ↦ rw (f, fold_settled) green
              ])
            ])
    ]

abbrev pub HasCleanSummary : Decision → Type 0
HasCleanSummary d = (t : Text) × (d.verdict.summary ≡ some t) × IsClean summary_max_chars t

no_tests_clean : HasCleanSummary no_tests_decision
unfolding no_tests_decision lit is_printable is_single_spaced all is_control is_invisible_formatting
no_tests_clean = (
  _,
  refl,
  record {
    bounded = omega arith;
    printable = IsPrintable-all (lit "no steps to run — nothing detectable in the tree") refl;
    spaced = refl;
  },
)

-- Whatever the steps are called and whatever they printed, a decision carries a summary, and it is
-- clean and within the contract's 200 characters.
pub fold-HasCleanSummary :
    (steps : List Step) (elapsed : ℕ) → Decides HasCleanSummary (fold steps elapsed)
unfolding red_decision errored_decision green_decision red_summary errored_summary green_summary
fold-HasCleanSummary steps elapsed =
    fold_cases HasCleanSummary steps elapsed no_tests_clean
      (λ s e. (_, refl, sanitize_summary-IsClean _ _))
      (λ s e. (_, refl, sanitize_summary-IsClean _ _)) (_, refl, sanitize_summary-IsClean _ _)

abbrev pub has_reason : Option Reason → Bool
has_reason none = false
has_reason (some r) = true

abbrev pub is_error : Status → Bool
is_error errored = true
is_error _ = false

abbrev pub ReasonMatches : Decision → Type 0
ReasonMatches d = has_reason d.verdict.reason ≡ is_error d.verdict.status

-- A verdict gives a reason exactly when its status is `errored`.
pub fold-ReasonMatches :
    (steps : List Step) (elapsed : ℕ) → Decides ReasonMatches (fold steps elapsed)
unfolding no_tests_decision red_decision errored_decision green_decision
fold-ReasonMatches steps elapsed =
    fold_cases ReasonMatches steps elapsed refl (λ s e. refl) (λ s e. refl) refl
