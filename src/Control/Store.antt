-- ===== src/Control/Store.antt =====
-- crates/hull-ci-control/src/store.rs: the records of the jobs, and their eviction.
pub mod Evicts
mod Examples
use hull_ci.Base.{
  ℕ, ◌+◌, ◌-◌, ◌%◌, ◌^◌, Bool, true, false, not, ◌||◌, List, [], ◌∷◌, ◌++◌, Option, none, some,
  Text, text_keys, get, erase, length, leb, ltb, if◌then◌else◌,
}
use hull_ci.Proto.Verdict.{AuthorClass}
use hull_ci.Control.JobState.{owes_a_verdict}
use hull_ci.Control.Job.{Job, Dispatch, new_job}

abbrev pub JobStore : Type 0
JobStore = List (Text × Job)

unfoldable pub insert :
    JobStore → (job_id : Text) → Dispatch → AuthorClass → (now job_timeout : ℕ) → JobStore
insert by_id job_id dispatch author_class now job_timeout = elim (get job_id by_id) [
  | none ↦ (job_id, new_job job_id dispatch author_class now job_timeout) ∷ by_id
  | some j ↦ by_id
]

unfoldable pub remove : JobStore → (job_id : Text) → JobStore
remove by_id job_id = erase job_id by_id

same_bool : Bool → Bool → Bool
same_bool true b = b
same_bool false b = not b

dated : Option ℕ → Text → List (ℕ × Text) → List (ℕ × Text)
dated none id rest = rest
dated (some t) id rest = (t, id) ∷ rest

-- The two filters of `settled_oldest_first`.
unfoldable pub settled_of : (owing : Bool) → JobStore → List (ℕ × Text)
unfolding same_bool dated
settled_of owing [] = []
settled_of owing ((k, j) ∷ by_id) =
    let rest = settled_of owing by_id in
    if same_bool (owes_a_verdict j.state) owing then dated j.settled_at j.id rest else rest

-- `sort_by_key`, which is stable.
unfoldable pub insert_by_key : ℕ × Text → List (ℕ × Text) → List (ℕ × Text)
insert_by_key p [] = p ∷ []
insert_by_key p (q ∷ qs) =
    let later = insert_by_key p qs in if leb p.0 q.0 then p ∷ q ∷ qs else q ∷ later

unfoldable pub sort_by_key : List (ℕ × Text) → List (ℕ × Text)
unfolding insert_by_key
sort_by_key [] = []
sort_by_key (p ∷ ps) = insert_by_key p (sort_by_key ps)

unfoldable pub settled_oldest_first : JobStore → (owing : Bool) → List (ℕ × Text)
unfolding settled_of sort_by_key
settled_oldest_first by_id owing = sort_by_key (settled_of owing by_id)

-- The difference of two `usize`, as a build without overflow checks has it.
unfoldable pub usize_sub : ℕ → ℕ → ℕ
usize_sub m n = (m + 2 ^ 64 - n) % 2 ^ 64

-- The loop over the jobs that were paid.
unfoldable pub evict_paid :
    (now retention max_jobs : ℕ)
    → List (ℕ × Text)
    → JobStore
    → (evicted : List Text) → JobStore × List Text
unfolding remove usize_sub
evict_paid now retention max_jobs [] by_id evicted = (by_id, evicted)
evict_paid now retention max_jobs ((settled_at, id) ∷ paid) by_id evicted =
    let too_old = leb retention (now - settled_at) in
    let over_cap = ltb max_jobs (usize_sub (length by_id) (length evicted)) in
    let onward = evict_paid now retention max_jobs paid (remove by_id id) (evicted ++ id ∷ []) in
    if too_old || over_cap then onward else (by_id, evicted)

-- The loop over the jobs that are owed.
unfoldable pub evict_owed :
    (max_jobs : ℕ) → List (ℕ × Text) → JobStore → (evicted : List Text) → JobStore × List Text
unfolding remove usize_sub
evict_owed max_jobs [] by_id evicted = (by_id, evicted)
evict_owed max_jobs ((settled_at, id) ∷ owed) by_id evicted =
    let onward = evict_owed max_jobs owed (remove by_id id) (evicted ++ id ∷ []) in
    if leb (usize_sub (length by_id) (length evicted)) max_jobs then (by_id, evicted) else onward

unfoldable pub evict : JobStore → (now retention max_jobs : ℕ) → JobStore × List Text
unfolding settled_oldest_first evict_paid evict_owed
evict by_id now retention max_jobs =
    let paid = settled_oldest_first by_id false in
    let owed = settled_oldest_first by_id true in
    let (after, evicted) = evict_paid now retention max_jobs paid by_id [] in
    evict_owed max_jobs owed after evicted
