-- ===== src/Control/Aggregate.antt =====
-- crates/hull-ci-control/src/aggregate.rs: the one verdict of a job, from the outcomes of its steps.
pub mod Outcome
pub mod Summary
pub mod Progress
use hull_ci.Base.{
  ℕ, ◌+◌, ◌/◌, ◌%◌, Bool, true, false, not, ◌&&◌, List, [], ◌∷◌, ◌++◌, map, Option, none, some,
  Text, ℤ, text_eq, lit, decimal, decimal_int, length, any, find, keep, count, ltb, ◌==◌,
  if◌then◌else◌,
}
use hull_ci.Proto.Verdict.{
  Reason, no_tests, infra, Verdict, verdict_green, verdict_red, verdict_errored,
}
use hull_ci.Proto.Sanitize.{sanitize_summary, summary_max_chars}
use hull_ci.Control.StepState.{
  is_terminal, is_in_flight, is_failed, is_errored, is_cached, is_skipped,
}
use hull_ci.Control.Step.{Step, failed_fatally}

abbrev name_cap : ℕ
name_cap = 48

abbrev detail_cap : ℕ
detail_cap = 100

pub record Decision : Type 0 where
  pub verdict : Verdict
  pub cancel : List Text

pub data Fold : Type 0 where
  undecided : Fold
  decided : Decision → Fold

unfoldable pub decision : Fold → Option Decision
decision undecided = none
decision (decided d) = some d

replace_char : ℕ → ℕ → Text → Text
replace_char from to = map (λ c. if c == from then to else c)

quoted : Text → ℕ → Text
unfolding replace_char
quoted raw cap = b'`' ∷ replace_char b'`' 0x27 (sanitize_summary raw cap) ++ b'`' ∷ []

-- `{:.0}` of the seconds: to the nearest, a half to the even side.
round_secs : ℕ → ℕ
round_secs d =
    let whole = d / 1_000_000_000 in
    let part = d % 1_000_000_000 in
    if ltb part 500_000_000
    then whole
    else if ltb 500_000_000 part
    then whole + 1
    else whole + whole % 2

secs : ℕ → Text
unfolding round_secs
secs d = decimal (round_secs d) ++ lit "s"

is_empty : Text → Bool
is_empty [] = true
is_empty (c ∷ cs) = false

-- ` ({n} {what})` where `n` is positive, and nothing where it is 0.
counted : ℕ → Text → Text
counted n what = if ltb 0 n then lit " (" ++ decimal n ++ what ++ lit ")" else []

green_line : List Step → ℕ → Text
unfolding counted secs count is_cached is_failed is_skipped
green_line steps elapsed =
    decimal (length steps)
    ++ lit " step"
    ++ (if length steps == 1 then [] else lit "s")
    ++ lit " ("
    ++ decimal (count (λ s. is_cached s.state) steps)
    ++ lit " cached), 0 failed — "
    ++ secs elapsed
    ++ counted (count (λ s. is_failed s.state) steps) (lit " tolerated failure(s)")
    ++ counted (count (λ s. is_skipped s.state) steps) (lit " skipped")

green_summary : List Step → ℕ → Text
unfolding green_line
green_summary steps elapsed = sanitize_summary (green_line steps elapsed) summary_max_chars

exit_part : Option ℤ → Text
exit_part none = []
exit_part (some code) = lit " (exit " ++ decimal_int code ++ lit ")"

detail_part : Text → Text
unfolding is_empty
detail_part detail = if is_empty detail then [] else lit ": " ++ detail

red_summary : Step → ℕ → Text
unfolding quoted exit_part detail_part secs
red_summary s elapsed =
    sanitize_summary
      (lit "step "
        ++ quoted s.spec.name name_cap
        ++ lit " failed"
        ++ exit_part s.exit_code
        ++ detail_part (sanitize_summary s.detail detail_cap)
        ++ lit " — "
        ++ secs elapsed)
      summary_max_chars

errored_summary : Step → Text
unfolding quoted detail_part
errored_summary s =
    sanitize_summary
      (lit "step "
        ++ quoted s.spec.name name_cap
        ++ lit " errored"
        ++ detail_part (sanitize_summary s.detail detail_cap)
        ++ lit " — no verdict produced")
      summary_max_chars

reason_or_infra : Option Reason → Reason
reason_or_infra none = infra
reason_or_infra (some r) = r

-- The in-flight siblings of a fatal failure.
unfoldable pub cancel_list : Step → List Step → List Text
unfolding keep is_in_flight
cancel_list failed steps =
    map (λ s. s.id) (keep (λ s. not (text_eq s.id failed.id) && is_in_flight s.state) steps)

unfoldable pub no_tests_decision : Decision
no_tests_decision = record {
  verdict = verdict_errored no_tests (lit "no steps to run — nothing detectable in the tree");
  cancel = [];
}

unfoldable pub red_decision : List Step → ℕ → Step → Decision
unfolding red_summary cancel_list
red_decision steps elapsed failed = record {
  verdict = verdict_red (red_summary failed elapsed);
  cancel = cancel_list failed steps;
}

unfoldable pub errored_decision : Step → Decision
unfolding errored_summary reason_or_infra
errored_decision s = record {
  verdict = verdict_errored (reason_or_infra s.error_reason) (errored_summary s);
  cancel = [];
}

unfoldable pub green_decision : List Step → ℕ → Decision
unfolding green_summary
green_decision steps elapsed = record {
  verdict = verdict_green (green_summary steps elapsed);
  cancel = [];
}

-- The steps are all over, and none failed fatally.
unfoldable pub fold_settled : List Step → ℕ → Fold
unfolding find errored_decision green_decision is_errored
fold_settled steps elapsed = elim (find (λ s. is_errored s.state) steps) [
  | some s ↦ decided (errored_decision s)
  | none ↦ decided (green_decision steps elapsed)
]

unfoldable pub fold_some : List Step → ℕ → Fold
unfolding find any fold_settled red_decision is_terminal
fold_some steps elapsed = elim (find failed_fatally steps) [
  | some failed ↦ decided (red_decision steps elapsed failed)
  | none ↦
      if any (λ s. not (is_terminal s.state)) steps then undecided else fold_settled steps elapsed
]

unfoldable pub fold : List Step → ℕ → Fold
unfolding fold_some no_tests_decision
fold [] elapsed = decided no_tests_decision
fold (s ∷ ss) elapsed = fold_some (s ∷ ss) elapsed
