-- ===== src/Control/Claims.antt =====
-- crates/hull-ci-control/src/claims.rs: which replica drives a tree, in the store of one process
-- (`LocalClaims`). Milliseconds are natural numbers, as the `i64` clock is never negative, and
-- a lock is held for the whole of each operation, so an operation is one state change.
pub mod Inv
pub mod OneJob
pub mod Steps
mod Examples
use hull_ci.Base.{
  ℕ, ◌+◌, Bool, true, false, not, ◌&&◌, ◌≡◌, ◌↔◌, List, [], ◌∷◌, ◌++◌, Option, none, some, Text,
  text_eq, text_eq_iff, text_keys, lit, leb, any, keep, Eq, get, put, erase, arith, if◌then◌else◌,
}
use hull_ci.Proto.Verdict.{Verdict}

pub record TreeKey : Type 0 where
  pub repo : Text
  pub tree_id : Text

abbrev pub tree_eq : TreeKey → TreeKey → Bool
tree_eq a b = text_eq a.repo b.repo && text_eq a.tree_id b.tree_id

pub tree_eq_iff : (a b : TreeKey) → (tree_eq a b ≡ true) ↔ (a ≡ b)
tree_eq_iff a b =
    let p = text_eq_iff a.repo b.repo in
    let q = text_eq_iff a.tree_id b.tree_id in
    (λ h. ground (arith, p, q), λ h. ground (arith, p, q))

instance abbrev pub tree_keys : Eq TreeKey
tree_keys = record { same = tree_eq; same_iff = tree_eq_iff }

pub record DriveLease : Type 0 where
  pub job_id : Text
  pub owner : Text
  pub fence : ℕ

pub data Admitted : Type 0 where
  created : DriveLease → Admitted
  attached : (job_id owner : Text) → Option Verdict → Admitted

unfoldable pub admitted_job : Admitted → Text
admitted_job (created l) = l.job_id
admitted_job (attached id owner v) = id

unfoldable pub is_duplicate : Admitted → Bool
is_duplicate (created l) = false
is_duplicate (attached id owner v) = true

pub data StepClaim : Type 0 where
  granted : StepClaim
  taken : (by : Text) → StepClaim
  fenced : (held_by : Text) → StepClaim

pub record LocalClaim : Type 0 where
  pub key : TreeKey
  pub callback_urls : List Text
  pub verdict : Option Verdict
  pub settled_at_ms : Option ℕ
  pub steps : List Text

pub record LocalState : Type 0 where
  pub by_key : List (TreeKey × Text)
  pub claims : List (Text × LocalClaim)

abbrev pub no_claims : LocalState
no_claims = record { by_key = []; claims = [] }

unfoldable pub local_owner : Text
local_owner = lit "local"

unfoldable pub no_claim : Text
no_claim = lit "(no claim)"

unfoldable pub contains : Text → List Text → Bool
unfolding any
contains x = any (λ u. text_eq u x)

-- The claim that a tree has, through the two maps.
claim_of : Option Text → LocalState → Option LocalClaim
unfolding get
claim_of none st = none
claim_of (some id) st = get id st.claims

settled_long_ago : Option LocalClaim → ℕ → ℕ → Bool
settled_long_ago none now retention = false
settled_long_ago (some c) now retention = elim c.settled_at_ms [
  | none ↦ false
  | some t ↦ leb (t + retention) now
]

unfoldable pub is_stale : LocalState → TreeKey → ℕ → ℕ → Bool
unfolding claim_of settled_long_ago
is_stale st key now retention = settled_long_ago (claim_of (get key st.by_key) st) now retention

forget_claim : Option Text → List (Text × LocalClaim) → List (Text × LocalClaim)
forget_claim none claims = claims
forget_claim (some id) claims = erase id claims

-- A claim that was settled longer ago than the retention is dropped first.
unfoldable pub drop_stale : LocalState → TreeKey → ℕ → ℕ → LocalState
unfolding is_stale forget_claim
drop_stale st key now retention =
    if is_stale st key now retention
    then record {
      by_key = erase key st.by_key;
      claims = forget_claim (get key st.by_key) st.claims;
    }
    else st

add_url : Text → List Text → List Text
unfolding contains
add_url url urls = if contains url urls then urls else urls ++ url ∷ []

fresh_claim : TreeKey → Text → LocalClaim
fresh_claim key url = record {
  key = key;
  callback_urls = url ∷ [];
  verdict = none;
  settled_at_ms = none;
  steps = [];
}

create : LocalState → TreeKey → Text → Text → LocalState × Admitted
unfolding fresh_claim
create st key proposed url = (
  record {
    by_key = put key proposed st.by_key;
    claims = put proposed (fresh_claim key url) st.claims;
  },
  created (record { job_id = proposed; owner = local_owner; fence = 0 }),
)

attach : LocalState → Text → LocalClaim → Text → LocalState × Admitted
unfolding add_url
attach st id c url = (
  record st {
    claims = put id (record c { callback_urls = add_url url c.callback_urls }) st.claims;
  },
  attached id local_owner c.verdict,
)

-- The tree is known by `existing`: attach to its claim, or replace a key that names no claim.
join : LocalState → TreeKey → Text → Text → Text → Option LocalClaim → LocalState × Admitted
unfolding attach create
join st key proposed url existing (some c) = attach st existing c url
join st key proposed url existing none =
    create (record st { by_key = erase key st.by_key }) key proposed url

admit_to : LocalState → TreeKey → Text → Text → Option Text → LocalState × Admitted
unfolding join create
admit_to st key proposed url none = create st key proposed url
admit_to st key proposed url (some existing) =
    join st key proposed url existing (get existing st.claims)

unfoldable pub admit : LocalState → TreeKey → Text → Text → ℕ → ℕ → LocalState × Admitted
unfolding admit_to
admit st key proposed url now retention =
    let st' = drop_stale st key now retention in admit_to st' key proposed url (get key st'.by_key)

pub is_some {ℓ} : {A : Type ℓ} → Option A → Bool
is_some none = false
is_some (some a) = true

unfoldable pub renew : LocalState → DriveLease → Bool
unfolding is_some
renew st lease = is_some (get lease.job_id st.claims)

-- `claim.steps.insert(step_id)`.
insert_step : LocalState → Text → LocalClaim → Text → LocalState × StepClaim
unfolding contains
insert_step st id c step_id =
    if contains step_id c.steps
    then (st, taken local_owner)
    else (record st { claims = put id (record c { steps = step_id ∷ c.steps }) st.claims }, granted)

claim_step_in : LocalState → Text → Option LocalClaim → Text → LocalState × StepClaim
unfolding insert_step
claim_step_in st id none step_id = (st, fenced no_claim)
claim_step_in st id (some c) step_id = insert_step st id c step_id

unfoldable pub claim_step : LocalState → DriveLease → Text → LocalState × StepClaim
unfolding claim_step_in
claim_step st lease step_id = claim_step_in st lease.job_id (get lease.job_id st.claims) step_id

-- `get_mut`: change the claim of a job, if it has one.
change_claim : LocalState → Text → Option LocalClaim → (LocalClaim → LocalClaim) → LocalState
change_claim st id none f = st
change_claim st id (some c) f = record st { claims = put id (f c) st.claims }

unfoldable pub release_step : LocalState → DriveLease → Text → LocalState
unfolding change_claim keep
release_step st lease step_id =
    change_claim st lease.job_id (get lease.job_id st.claims)
      (λ c. record c { steps = keep (λ s. not (text_eq s step_id)) c.steps })

unfoldable pub settle : LocalState → DriveLease → Verdict → ℕ → LocalState
unfolding change_claim
settle st lease verdict now =
    change_claim st lease.job_id (get lease.job_id st.claims)
      (λ c. record c { verdict = some verdict; settled_at_ms = some now })

urls_of : Option LocalClaim → List Text
urls_of none = []
urls_of (some c) = c.callback_urls

unfoldable pub destinations : LocalState → Text → List Text
unfolding urls_of
destinations st id = urls_of (get id st.claims)

points_at : Option Text → Text → Bool
points_at none id = false
points_at (some j) id = text_eq j id

forget_in : LocalState → Text → Option LocalClaim → LocalState
unfolding points_at
forget_in st id none = st
forget_in st id (some c) = record {
  by_key = if points_at (get c.key st.by_key) id then erase c.key st.by_key else st.by_key;
  claims = erase id st.claims;
}

unfoldable pub forget : LocalState → Text → LocalState
unfolding forget_in
forget st id = forget_in st id (get id st.claims)
