-- ===== src/Control/Store/Examples.antt =====
-- crates/hull-ci-control/src/store.rs: evictions of small stores.
use hull_ci.Base.{ℕ, ◌≡◌, refl, [], ◌∷◌, none, some, Text, lit, text_eq, erase}
use hull_ci.Proto.Verdict.{member}
use hull_ci.Control.JobState.{JobState, reported, report_failed, owes_a_verdict}
use hull_ci.Control.Job.{Job, Dispatch, new_job}
use hull_ci.Control.Store.{
  JobStore, evict, settled_oldest_first, settled_of, sort_by_key, insert_by_key, evict_paid,
  evict_owed, remove, usize_sub,
}
use hull_ci.Control.Store.Evicts.{Evicts, evict-Evicts}

abbrev dispatch : Dispatch
dispatch = record {
  repo = lit "t/r";
  change = lit "c";
  tree_id = lit "tree";
  intent = lit "i";
  author = lit "a";
  source_url = lit "s";
  callback_url = lit "u";
  fetch_token = none;
}

abbrev settled_job : Text → JobState → ℕ → Job
settled_job id state at = record (new_job id dispatch member 0 60) {
  state = state;
  settled_at = some at;
}

abbrev first : Text
first = b'1' ∷ []

abbrev second : Text
second = b'2' ∷ []

abbrev third : Text
third = b'3' ∷ []

-- Two jobs that Hull has heard of, and one whose verdict it has not.
abbrev store : JobStore
store =
    (first, settled_job first reported 0)
    ∷ (second, settled_job second reported 1)
    ∷ (third, settled_job third report_failed 2)
    ∷ []

evict-Evicts_example : Evicts store (evict store 100 10 50).0 (evict store 100 10 50).1
evict-Evicts_example = evict-Evicts store 100 10 50

-- The store holds three jobs under a cap of fifty, and the debt is dropped all the same: after two
-- evictions one record is left, and the two are taken off its count once more.
debt_is_dropped : evict store 100 10 50 ≡ ([], first ∷ second ∷ third ∷ [])
unfolding evict settled_oldest_first settled_of sort_by_key insert_by_key evict_paid evict_owed
    remove usize_sub new_job owes_a_verdict erase text_eq
debt_is_dropped = refl

-- Of three paid jobs under a cap of one, two are left.
abbrev crowd : JobStore
crowd =
    (first, settled_job first reported 0)
    ∷ (second, settled_job second reported 1)
    ∷ (third, settled_job third reported 2)
    ∷ []

cap_is_missed : (evict crowd 3 10 1).1 ≡ first ∷ []
unfolding evict settled_oldest_first settled_of sort_by_key insert_by_key evict_paid evict_owed
    remove usize_sub new_job owes_a_verdict erase text_eq
cap_is_missed = refl
