-- ===== src/Control/Claims/OneJob.antt =====
-- crates/hull-ci-control/src/claims.rs: dispatches of one tree share one job.
use hull_ci.Base.{
  ap, ◌∙◌, ℕ, ◌≡◌, refl, true, false, List, [], ◌∷◌, ◌++◌, some, Text, text_eq_refl, text_keys, get,
  get-put_self, arith, any, Option-cases, inl, inr,
}
use hull_ci.Control.Claims.{
  TreeKey, tree_keys, LocalClaim, LocalState, is_stale, drop_stale, create, attach, join, admit_to,
  admit, admitted_job, is_duplicate, contains, add_url, destinations, urls_of, fresh_claim,
}

contains_last : (u : Text) (us : List Text) → contains u (us ++ u ∷ []) ≡ true
unfolding contains any
contains_last u [] = ground (arith, text_eq_refl u)
contains_last u (v ∷ us) = ground (arith, contains_last u us)

contains_before :
    (u v : Text) (us : List Text) → contains u us ≡ true → contains u (us ++ v ∷ []) ≡ true
unfolding contains any
contains_before u v [] h = ground arith
contains_before u v (w ∷ us) h = ground (arith, contains_before u v us)

add_url-new : (u : Text) (us : List Text) → contains u (add_url u us) ≡ true
unfolding add_url
add_url-new u us = ground (arith, contains_last u us)

add_url-old :
    (u v : Text) (us : List Text) → contains u us ≡ true → contains u (add_url v us) ≡ true
unfolding add_url
add_url-old u v us h = ground (arith, contains_before u v us)

-- The key leads to the job, and the job's claim will call the url back.
pub record Joined (st : LocalState) (key : TreeKey) (id url : Text) : Type 0 where
  pub leads : get key st.by_key ≡ some id
  pub claim : LocalClaim
  pub found : get id st.claims ≡ some claim
  pub told : contains url claim.callback_urls ≡ true

create-Joined :
    (st : LocalState) (key : TreeKey) (proposed url : Text)
    → Joined (create st key proposed url).0 key proposed url
unfolding create contains any
create-Joined st key proposed url = record {
  leads = get-put_self key proposed st.by_key;
  claim = fresh_claim key url;
  found = get-put_self proposed (fresh_claim key url) st.claims;
  told = ground (arith, text_eq_refl url);
}

attach-Joined :
    (st : LocalState) (key : TreeKey) (id url : Text) (c : LocalClaim)
    → get key st.by_key ≡ some id
    → Joined (attach st id c url).0 key id url
unfolding attach
attach-Joined st key id url c h = record {
  leads = h;
  claim = record c { callback_urls = add_url url c.callback_urls };
  found = get-put_self id (record c { callback_urls = add_url url c.callback_urls }) st.claims;
  told = add_url-new url c.callback_urls;
}

admit_to-Joined :
    (st : LocalState) (key : TreeKey) (proposed url : Text)
    → let r = admit_to st key proposed url (get key st.by_key) in
      Joined r.0 key (admitted_job r.1) url
unfolding admit_to admitted_job
admit_to-Joined st key proposed url = elim (Option-cases (get key st.by_key)) [
  | inl e ↦ rw (e, create, admit_to) (create-Joined st key proposed url)
  | inr (id, e) ↦ elim (Option-cases (get id st.claims)) [
    | inl gone ↦ rw (e, admit_to, gone, join) (create-Joined _ key proposed url)
    | inr (c, found) ↦ rw (e, admit_to, found, join) (attach-Joined st key id url c e)
  ]
]

-- Admitting always leaves the tree with the job that is returned, and that job with the callback.
admit-Joined :
    (st : LocalState) (key : TreeKey) (proposed url : Text) (now retention : ℕ)
    → let r = admit st key proposed url now retention in Joined r.0 key (admitted_job r.1) url
unfolding admit
admit-Joined st key proposed url now retention =
    admit_to-Joined (drop_stale st key now retention) key proposed url

drop_nothing :
    (st : LocalState) (key : TreeKey) (now retention : ℕ)
    → is_stale st key now retention ≡ false
    → drop_stale st key now retention ≡ st
unfolding drop_stale
drop_nothing st key now retention live = rw live refl

admit_again :
    (st : LocalState) (key : TreeKey) (id proposed url : Text) (now retention : ℕ) (c : LocalClaim)
    → get key st.by_key ≡ some id
    → get id st.claims ≡ some c
    → is_stale st key now retention ≡ false
    → admit st key proposed url now retention ≡ attach st id c url
unfolding admit
admit_again st key id proposed url now retention c h k live =
    ap (λ (s : LocalState). admit_to s key proposed url (get key s.by_key))
      (drop_nothing st key now retention live)
    ∙ rw (h, admit_to, k, join) refl

attach_tells :
    (st : LocalState) (key : TreeKey) (id url other : Text) (c : LocalClaim)
    → contains url c.callback_urls ≡ true
    → let b = attach st id c other in
      (admitted_job b.1 ≡ id)
      × (is_duplicate b.1 ≡ true)
      × (contains url (destinations b.0 id) ≡ true)
      × (contains other (destinations b.0 id) ≡ true)
unfolding attach destinations admitted_job is_duplicate
attach_tells st key id url other c told =
    let kept =
      get-put_self id (record c { callback_urls = add_url other c.callback_urls }) st.claims in
    (
      refl,
      refl,
      rw (kept, urls_of) (add_url-old url other c.callback_urls told),
      rw (kept, urls_of) (add_url-new other c.callback_urls),
    )

-- A second dispatch of a tree whose claim has not outlived the retention attaches to the job that
-- the first one got, whatever id is proposed for it, and both callbacks are destinations of it.
pub admit_twice :
    (st : LocalState) (key : TreeKey) (first second url other : Text) (now later retention : ℕ)
    → is_stale (admit st key first url now retention).0 key later retention ≡ false
    → let a = admit st key first url now retention in
      let b = admit a.0 key second other later retention in
      (admitted_job b.1 ≡ admitted_job a.1)
      × (is_duplicate b.1 ≡ true)
      × (contains url (destinations b.0 (admitted_job a.1)) ≡ true)
      × (contains other (destinations b.0 (admitted_job a.1)) ≡ true)
admit_twice st key first second url other now later retention live =
    let a = admit st key first url now retention in
    let j = admit-Joined st key first url now retention in
    let e = admit_again a.0 key _ second other later retention j.claim j.leads j.found live in
    rw e (attach_tells a.0 key _ url other j.claim j.told)
