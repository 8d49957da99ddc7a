-- ===== src/Proto/Verdict.antt =====
-- crates/hull-ci-proto/src/lib.rs: `Status`, `Reason`, `Verdict` and the author classes.
use hull_ci.Base.{Bool, true, false, Option, none, some, Text}

pub data Status : Type 0 where
  green red errored : Status

pub is_memoizable : Status → Bool
is_memoizable green = true
is_memoizable red = true
is_memoizable errored = false

pub data Reason : Type 0 where
  no_tests timeout infra capacity : Reason

pub record Verdict : Type 0 where
  pub status : Status
  pub summary : Option Text
  pub details_url : Option Text
  pub reason : Option Reason

-- `Verdict::green`, `Verdict::red` and `Verdict::errored`.
abbrev pub verdict_green : Text → Verdict
verdict_green summary = record {
  status = green;
  summary = some summary;
  details_url = none;
  reason = none;
}

abbrev pub verdict_red : Text → Verdict
verdict_red summary = record {
  status = red;
  summary = some summary;
  details_url = none;
  reason = none;
}

abbrev pub verdict_errored : Reason → Text → Verdict
verdict_errored reason summary = record {
  status = errored;
  summary = some summary;
  details_url = none;
  reason = some reason;
}

pub data AuthorClass : Type 0 where
  member outsider : AuthorClass

unfoldable pub may_receive_secrets : AuthorClass → Bool
may_receive_secrets member = true
may_receive_secrets outsider = false
