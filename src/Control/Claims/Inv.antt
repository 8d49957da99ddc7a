-- ===== src/Control/Claims/Inv.antt =====
-- crates/hull-ci-control/src/claims.rs: the two maps of `LocalClaims` stay in step.
use hull_ci.Base.{
  ℕ, ◌≡◌, refl, false, Option, none, some, Text, text_eq, text_eq_iff, text_keys, get, put, erase,
  get-put, get-erase, arith, Bool-cases, Option-cases, inl, inr, ◌∙◌,
}
use hull_ci.Proto.Verdict.{Verdict}
use hull_ci.Control.Claims.{
  TreeKey, tree_keys, tree_eq, tree_eq_iff, DriveLease, LocalClaim, LocalState, no_claims, is_stale,
  drop_stale, forget_claim, create, attach, join, admit_to, admit, claim_step, release_step, settle,
  change_claim, forget, insert_step, claim_step_in, contains, forget_in, points_at, fresh_claim,
}

-- Every key leads to a claim, and to a claim of that key.
pub record Inv (st : LocalState) : Type 0 where
  pub linked :
      (k : TreeKey) (id : Text)
      → get k st.by_key ≡ some id
      → (c : LocalClaim) × (get id st.claims ≡ some c) × (c.key ≡ k)

no_claims-Inv : Inv no_claims
unfolding get
no_claims-Inv = record { linked = λ k id h. absurd (ground arith) }

-- A claim that keeps its key may change.
put-Inv :
    (st : LocalState) (id : Text) (c d : LocalClaim)
    → Inv st
    → get id st.claims ≡ some c
    → d.key ≡ c.key
    → Inv (record st { claims = put id d st.claims })
put-Inv st id c d v here same = record {
  linked = λ k j h.
      let (b, found, keyed) = v.linked k j h in
      elim (Bool-cases (text_eq id j)) [
        | inl hit ↦ (d, get-put id j d st.claims ∙ rw hit, ground (arith, text_eq_iff id j))
        | inr miss ↦ (b, get-put id j d st.claims ∙ rw miss found, keyed)
      ];
}

create-Inv :
    (st : LocalState) (key : TreeKey) (proposed url : Text)
    → Inv st
    → get proposed st.claims ≡ none
    → Inv (create st key proposed url).0
unfolding create
create-Inv st key proposed url v fresh = record {
  linked = λ k j h.
      let keys = get-put key k proposed st.by_key in
      let ids = get-put proposed j (fresh_claim key url) st.claims in
      elim (Bool-cases (tree_eq key k)) [
        | inl hit ↦ (
          fresh_claim key url,
          ground (arith, keys, ids, text_eq_iff proposed j),
          (tree_eq_iff key k).0 hit,
        )
        | inr miss ↦
            let (c, found, keyed) = v.linked k j (ground (arith, keys)) in
            (c, ground (arith, ids, text_eq_iff proposed j), keyed)
      ];
}

attach-Inv :
    (st : LocalState) (id url : Text) (c : LocalClaim)
    → Inv st
    → get id st.claims ≡ some c
    → Inv (attach st id c url).0
unfolding attach
attach-Inv st id url c v here = put-Inv st id c _ v here refl

-- A key that is dropped takes nothing from the others.
drop_key-Inv :
    (st : LocalState) (key : TreeKey) → Inv st → Inv (record st { by_key = erase key st.by_key })
drop_key-Inv st key v = record {
  linked = λ k j h. v.linked k j (ground (arith, get-erase key k st.by_key));
}

-- Nor does its claim, as no other key leads to it.
drop_claim-Inv :
    (st : LocalState) (key : TreeKey) (id : Text) (c : LocalClaim)
    → Inv st
    → get id st.claims ≡ some c
    → c.key ≡ key
    → Inv (record { by_key = erase key st.by_key; claims = erase id st.claims })
drop_claim-Inv st key id c v here keyed = record {
  linked = λ k j h.
      let keys = get-erase key k st.by_key in
      let (d, found, k_keyed) = v.linked k j (ground (arith, keys)) in
      (
        d,
        ground (arith, keys, get-erase id j st.claims, text_eq_iff id j, tree_eq_iff key k),
        k_keyed,
      );
}

pub drop_stale-Inv :
    (st : LocalState) (key : TreeKey) (now retention : ℕ)
    → Inv st
    → Inv (drop_stale st key now retention)
unfolding drop_stale
drop_stale-Inv st key now retention v = elim (Bool-cases (is_stale st key now retention)) [
  | inr live ↦ rw (live, drop_stale) v
  | inl stale ↦
      rw (stale, drop_stale)
        (elim (Option-cases (get key st.by_key)) [
          | inl e ↦ rw (e, forget_claim) (drop_key-Inv st key v)
          | inr (id, e) ↦
              let (c, found, keyed) = v.linked key id e in
              rw (e, forget_claim) (drop_claim-Inv st key id c v found keyed)
        ])
]

drop_stale-fresh :
    (st : LocalState) (key : TreeKey) (now retention : ℕ) (id : Text)
    → get id st.claims ≡ none
    → get id (drop_stale st key now retention).claims ≡ none
unfolding drop_stale
drop_stale-fresh st key now retention id h = elim (Bool-cases (is_stale st key now retention)) [
  | inr live ↦ rw (live, drop_stale) h
  | inl stale ↦
      rw (stale, drop_stale)
        (elim (Option-cases (get key st.by_key)) [
          | inl e ↦ rw (e, forget_claim) h
          | inr (j, e) ↦ rw (e, forget_claim) (ground (arith, get-erase j id st.claims))
        ])
]

admit_to-Inv :
    (st : LocalState) (key : TreeKey) (proposed url : Text) (o : Option Text)
    → Inv st
    → get proposed st.claims ≡ none
    → Inv (admit_to st key proposed url o).0
unfolding admit_to
admit_to-Inv st key proposed url none v fresh = create-Inv st key proposed url v fresh
admit_to-Inv st key proposed url (some id) v fresh = elim (Option-cases (get id st.claims)) [
  | inl e ↦ rw (e, join) (create-Inv _ key proposed url (drop_key-Inv st key v) fresh)
  | inr (c, e) ↦ rw (e, join) (attach-Inv st id url c v e)
]

-- Admitting a dispatch under an unused job id keeps the maps in step.
admit-Inv :
    (st : LocalState) (key : TreeKey) (proposed url : Text) (now retention : ℕ)
    → get proposed st.claims ≡ none
    → Inv st
    → Inv (admit st key proposed url now retention).0
unfolding admit
admit-Inv st key proposed url now retention fresh v =
    admit_to-Inv _ key proposed url _ (drop_stale-Inv st key now retention v)
      (drop_stale-fresh st key now retention proposed fresh)

change_claim-Inv :
    (st : LocalState) (id : Text) (f : LocalClaim → LocalClaim)
    → ((c : LocalClaim) → (f c).key ≡ c.key)
    → Inv st
    → Inv (change_claim st id (get id st.claims) f)
unfolding change_claim
change_claim-Inv st id f same v = elim (Option-cases (get id st.claims)) [
  | inl e ↦ rw (e, change_claim) v
  | inr (c, e) ↦ rw (e, change_claim) (put-Inv st id c (f c) v e (same c))
]

claim_step-Inv :
    (st : LocalState) (lease : DriveLease) (step_id : Text)
    → Inv st
    → Inv (claim_step st lease step_id).0
unfolding claim_step insert_step
claim_step-Inv st lease step_id v = elim (Option-cases (get lease.job_id st.claims)) [
  | inl e ↦ rw (e, claim_step_in) v
  | inr (c, e) ↦
      rw (e, claim_step_in)
        (elim (Bool-cases (contains step_id c.steps)) [
          | inl old ↦ rw old v
          | inr new ↦ rw new (put-Inv st lease.job_id c _ v e refl)
        ])
]

-- A claim that its own key does not lead to can go without its key.
unlinked-Inv :
    (st : LocalState) (id : Text) (c : LocalClaim)
    → Inv st
    → get id st.claims ≡ some c
    → points_at (get c.key st.by_key) id ≡ false
    → Inv (record st { claims = erase id st.claims })
unfolding points_at
unlinked-Inv st id c v here stray = record {
  linked = λ k j h.
      let (d, found, keyed) = v.linked k j h in
      (d, ground (arith, get-erase id j st.claims, text_eq_iff id j), keyed);
}

forget-Inv : (st : LocalState) (id : Text) → Inv st → Inv (forget st id)
unfolding forget
forget-Inv st id v = elim (Option-cases (get id st.claims)) [
  | inl e ↦ rw (e, forget_in) v
  | inr (c, e) ↦
      rw (e, forget_in)
        (elim (Bool-cases (points_at (get c.key st.by_key) id)) [
          | inl own ↦ rw own (drop_claim-Inv st c.key id c v e refl)
          | inr stray ↦ rw stray (unlinked-Inv st id c v e stray)
        ])
]

-- What the claim store is asked to do. The new job ids come from elsewhere, and are unused.
pub data Called : LocalState → LocalState → Type 0 where
  admits :
      (st : LocalState) (key : TreeKey) (proposed url : Text) (now retention : ℕ)
      → get proposed st.claims ≡ none
      → Called st (admit st key proposed url now retention).0
  claims_step :
      (st : LocalState) (lease : DriveLease) (step_id : Text)
      → Called st (claim_step st lease step_id).0
  releases_step :
      (st : LocalState) (lease : DriveLease) (step_id : Text)
      → Called st (release_step st lease step_id)
  settles :
      (st : LocalState) (lease : DriveLease) (verdict : Verdict) (now : ℕ)
      → Called st (settle st lease verdict now)
  forgets : (st : LocalState) (id : Text) → Called st (forget st id)

pub data Reach : LocalState → Type 0 where
  here : Reach no_claims
  next : {st st' : LocalState} → Reach st → Called st st' → Reach st'

Called-Inv : {st st' : LocalState} → Called st st' → Inv st → Inv st'
unfolding settle release_step
Called-Inv (Called.admits st key proposed url now retention fresh) v =
    admit-Inv st key proposed url now retention fresh v
Called-Inv (Called.claims_step st lease step_id) v = claim_step-Inv st lease step_id v
Called-Inv (Called.releases_step st lease step_id) v =
    change_claim-Inv st lease.job_id _ (λ c. refl) v
Called-Inv (Called.settles st lease verdict now) v =
    change_claim-Inv st lease.job_id _ (λ c. refl) v
Called-Inv (Called.forgets st id) v = forget-Inv st id v

-- Whatever calls have been made, in whatever order, each tree that the store knows leads to a claim
-- of that very tree, provided that new job ids are unused.
pub Reach-Inv : {st : LocalState} → Reach st → Inv st
Reach-Inv Reach.here = no_claims-Inv
Reach-Inv (Reach.next r c) = Called-Inv c (Reach-Inv r)
