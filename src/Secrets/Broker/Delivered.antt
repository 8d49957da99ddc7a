-- ===== src/Secrets/Broker/Delivered.antt =====
-- crates/hull-ci-secrets/src/broker.rs: what a redemption that delivers has found, and what it hands
-- over.
use hull_ci.Base.{
  ℕ, ◌<◌, ◌≡◌, refl, true, false, List, [], ◌∷◌, map, Option, none, some, Text, text_eq_iff,
  text_keys, get, All, arith, Bool-cases, Option-cases, inl, inr, sym, subst, ap, ◌∙◌,
}
use hull_ci.Proto.Verdict.{may_receive_secrets}
use hull_ci.Proxy.Grant.{Crypto}
use hull_ci.Secrets.Error.{
  ok_inj, Result-cases, Result, ok, err, >>=-eq-ok, wrong_node, wrong_proxy,
}
use hull_ci.Secrets.Keys.{Aead, Keyring}
use hull_ci.Secrets.Seal.{SealedSecret, Rows, get_row, open_sealed}
use hull_ci.Secrets.Capability.{CapabilityGrant, CapRecord, Registry, parse_token, spend}
use hull_ci.Secrets.Capability.Spends.{Spends, spend-Spends}
use hull_ci.Secrets.Broker.{
  Broker, DeliveredSecrets, found_or_unknown, open_all, all_declared, wanted, has_name, handed,
  hand_over, redeem, redeem_parsed, redeem_spent, hand_over_proxy, redeem_proxy_capability,
  redeem_proxy_parsed, redeem_proxy_spent, reassert_proxy_capability, reassert_record,
}

-- The value is what the tenant's own record of that name opens to.
abbrev pub IsOpened : Aead → Keyring → Rows → Text → Text × Text → Type 0
IsOpened a keys rows tenant (name, value) =
    (s : SealedSecret) × (get_row tenant name rows ≡ some s)
    × (open_sealed a keys tenant name s ≡ ok value)

abbrev pub names_of : List (Text × Text) → List Text
names_of values = map (λ (e : Text × Text). e.0) values

-- The names that a request asks for: an empty one asks for all that were declared.
abbrev pub asked : (names requested : List Text) → List Text
asked names [] = names
asked names (n ∷ ns) = n ∷ ns

-- What a grant hands over.
pub record Hands (a : Aead) (b : Broker) (g : CapabilityGrant) (requested : List Text)
    (d : DeliveredSecrets) : Type 0 where
  pub entitled : may_receive_secrets g.author_class ≡ true
  pub declared : All (λ n. has_name n g.names ≡ true) requested
  pub names_are : names_of d.values ≡ asked g.names requested
  pub opened : All (IsOpened a b.keys b.rows g.tenant) d.values
  pub same_tenant : d.tenant ≡ g.tenant
  pub same_job : d.job_id ≡ g.job_id

found_inv :
    (tenant name : Text) (o : Option SealedSecret) {s : SealedSecret}
    → found_or_unknown tenant name o ≡ ok s
    → o ≡ some s
unfolding found_or_unknown
found_inv tenant name none h = absurd (ground arith)
found_inv tenant name (some t) h = ground arith

pub open_all-IsOpened :
    (a : Aead) (keys : Keyring) (rows : Rows) (tenant : Text) (names : List Text)
    (values : List (Text × Text))
    → open_all a keys rows tenant names ≡ ok values
    → (names_of values ≡ names) × All (IsOpened a keys rows tenant) values
unfolding open_all
open_all-IsOpened a keys rows tenant [] values h =
    subst (λ vs. (names_of vs ≡ []) × All (IsOpened a keys rows tenant) vs) (ok_inj h) (refl, tt)
open_all-IsOpened a keys rows tenant (n ∷ ns) values h =
    let (s, e, h1) = >>=-eq-ok (found_or_unknown tenant n (get_row tenant n rows)) _ h in
    let (v, e1, h2) = >>=-eq-ok (open_sealed a keys tenant n s) _ h1 in
    let (rest, e2, h3) = >>=-eq-ok (open_all a keys rows tenant ns) _ h2 in
    let (same, all_opened) = open_all-IsOpened a keys rows tenant ns rest e2 in
    subst (λ vs. (names_of vs ≡ n ∷ ns) × All (IsOpened a keys rows tenant) vs) (ok_inj h3)
      (ap (λ ms. n ∷ ms) same, ((s, found_inv tenant n _ e, e1), all_opened))

all_declared-has_name :
    (names requested : List Text) {u : Unit {0}}
    → all_declared names requested ≡ ok u
    → All (λ n. has_name n names ≡ true) requested
unfolding all_declared
all_declared-has_name names [] h = tt
all_declared-has_name names (n ∷ ns) {u} h = elim (Bool-cases (has_name n names)) [
  | inl e ↦ (e, all_declared-has_name names ns {u = u} (rw e at h))
  | inr e ↦ let bad = rw e at h in absurd (ground arith)
]

wanted-asked :
    (names requested out : List Text)
    → wanted names requested ≡ ok out
    → (out ≡ asked names requested) × All (λ n. has_name n names ≡ true) requested
unfolding wanted
wanted-asked names [] out h = (ground arith, tt)
wanted-asked names (n ∷ ns) out h =
    let (u, e, h1) = >>=-eq-ok (all_declared names (n ∷ ns)) _ h in
    (sym (ok_inj h1), all_declared-has_name names (n ∷ ns) e)

hand_over-Hands :
    (a : Aead) (b : Broker) (g : CapabilityGrant) (requested : List Text) (d : DeliveredSecrets)
    → hand_over a b g requested ≡ ok d
    → Hands a b g requested d
unfolding hand_over handed
hand_over-Hands a b g requested d h = elim (Bool-cases (may_receive_secrets g.author_class)) [
  | inr e ↦ let bad = rw e at h in absurd (ground arith)
  | inl e ↦
      let (names, e1, h1) = >>=-eq-ok (wanted g.names requested) _ (rw e at h) in
      let (values, e2, h2) = >>=-eq-ok (open_all a b.keys b.rows g.tenant names) _ h1 in
      let (names_are, declared) = wanted-asked g.names requested names e1 in
      let (same, opened) = open_all-IsOpened a b.keys b.rows g.tenant names values e2 in
      subst (Hands a b g requested) (ok_inj h2) (record {
        entitled = e;
        declared = declared;
        names_are = same ∙ names_are;
        opened = opened;
        same_tenant = refl;
        same_job = refl;
      })
]

-- What a redemption that delivers found and did.
pub record Redeems (c : Crypto) (a : Aead) (b : Broker) (token node_id : Text)
    (requested : List Text) (now : ℕ) (d : DeliveredSecrets) : Type 0 where
  pub id : Text
  pub digest : Text
  pub parsed : parse_token c token ≡ ok (id, digest)
  pub grant : CapabilityGrant
  pub spent :
      Spends b.caps id digest node_id now (redeem c a b token node_id requested now).0.caps grant
  pub hands : Hands a b grant requested d

redeem_spent-inv :
    (c : Crypto) (a : Aead) (b : Broker) (requested : List Text)
    (out : Registry × Result CapabilityGrant) (d : DeliveredSecrets)
    → (redeem_spent c a b requested out).1 ≡ ok d
    → (g : CapabilityGrant) × (out.1 ≡ ok g)
      × (hand_over a b g requested ≡ ok d)
      × ((redeem_spent c a b requested out).0.caps ≡ out.0)
unfolding redeem_spent
redeem_spent-inv c a b requested (caps, err e) d h = absurd (ground arith)
redeem_spent-inv c a b requested (caps, ok g) d h = (g, refl, h, refl)

-- A redemption that delivers was made with the token of a capability that is in the registry, is
-- neither revoked nor spent nor expired, is bound to the node that asks, and was minted for an author
-- who may receive secrets. It spends the capability, and hands over, for the capability's own tenant and
-- job, exactly the names that were asked for, all of them declared, each with what the tenant's record
-- of that name opens to.
pub redeem-Redeems :
    (c : Crypto) (a : Aead) (b : Broker) (token node_id : Text) (requested : List Text) (now : ℕ)
    (d : DeliveredSecrets)
    → (redeem c a b token node_id requested now).1 ≡ ok d
    → Redeems c a b token node_id requested now d
unfolding redeem redeem_parsed
redeem-Redeems c a b token node_id requested now d h = elim (Result-cases (parse_token c token)) [
  | inl (e, f) ↦ let bad = rw (f, redeem_parsed) at h in absurd (ground arith)
  | inr ((id, digest), f) ↦
      let (g, e1, e2, e3) =
        redeem_spent-inv c a b requested (spend c wrong_node b.caps id digest node_id now) d
          (rw (f, redeem_parsed) at h) in
      record {
        id = id;
        digest = digest;
        parsed = f;
        grant = g;
        spent =
            rw (f, redeem_parsed, e3) (spend-Spends c wrong_node b.caps id digest node_id now g e1);
        hands = hand_over-Hands a b g requested d e2;
      }
]

-- The same of a package proxy's capability, which covers every declared name or none.
pub record RedeemsProxy (c : Crypto) (a : Aead) (b : Broker) (token proxy_id : Text) (now : ℕ)
    (d : DeliveredSecrets) : Type 0 where
  pub id : Text
  pub digest : Text
  pub parsed : parse_token c token ≡ ok (id, digest)
  pub grant : CapabilityGrant
  pub spent :
      Spends b.proxy_caps id digest proxy_id now
        (redeem_proxy_capability c a b token proxy_id now).0.proxy_caps
        grant
  pub entitled : may_receive_secrets grant.author_class ≡ true
  pub names_are : names_of d.values ≡ grant.names
  pub opened : All (IsOpened a b.keys b.rows grant.tenant) d.values
  pub same_tenant : d.tenant ≡ grant.tenant

redeem_proxy_spent-inv :
    (c : Crypto) (a : Aead) (b : Broker) (out : Registry × Result CapabilityGrant)
    (d : DeliveredSecrets)
    → (redeem_proxy_spent c a b out).1 ≡ ok d
    → (g : CapabilityGrant) × (out.1 ≡ ok g)
      × (hand_over_proxy a b g ≡ ok d)
      × ((redeem_proxy_spent c a b out).0.proxy_caps ≡ out.0)
unfolding redeem_proxy_spent
redeem_proxy_spent-inv c a b (caps, err e) d h = absurd (ground arith)
redeem_proxy_spent-inv c a b (caps, ok g) d h = (g, refl, h, refl)

hand_over_proxy-inv :
    (a : Aead) (b : Broker) (g : CapabilityGrant) (d : DeliveredSecrets)
    → hand_over_proxy a b g ≡ ok d
    → (may_receive_secrets g.author_class ≡ true)
      × (names_of d.values ≡ g.names)
      × All (IsOpened a b.keys b.rows g.tenant) d.values
      × (d.tenant ≡ g.tenant)
unfolding hand_over_proxy handed
hand_over_proxy-inv a b g d h = elim (Bool-cases (may_receive_secrets g.author_class)) [
  | inr e ↦ let bad = rw e at h in absurd (ground arith)
  | inl e ↦
      let (values, e2, h2) = >>=-eq-ok (open_all a b.keys b.rows g.tenant g.names) _ (rw e at h) in
      let (same, opened) = open_all-IsOpened a b.keys b.rows g.tenant g.names values e2 in
      subst
        (λ (x : DeliveredSecrets).
          (may_receive_secrets g.author_class ≡ true)
          × (names_of x.values ≡ g.names)
          × All (IsOpened a b.keys b.rows g.tenant) x.values
          × (x.tenant ≡ g.tenant))
        (ok_inj h2) (e, same, opened, refl)
]

pub redeem_proxy_capability-RedeemsProxy :
    (c : Crypto) (a : Aead) (b : Broker) (token proxy_id : Text) (now : ℕ) (d : DeliveredSecrets)
    → (redeem_proxy_capability c a b token proxy_id now).1 ≡ ok d
    → RedeemsProxy c a b token proxy_id now d
unfolding redeem_proxy_capability redeem_proxy_parsed
redeem_proxy_capability-RedeemsProxy c a b token proxy_id now d h =
    elim (Result-cases (parse_token c token)) [
      | inl (e, f) ↦ let bad = rw (f, redeem_proxy_parsed) at h in absurd (ground arith)
      | inr ((id, digest), f) ↦
          let (g, e1, e2, e3) =
            redeem_proxy_spent-inv c a b (spend c wrong_proxy b.proxy_caps id digest proxy_id now) d
              (rw (f, redeem_proxy_parsed) at h) in
          let (member, names_are, opened, same) = hand_over_proxy-inv a b g d e2 in
          record {
            id = id;
            digest = digest;
            parsed = f;
            grant = g;
            spent =
                rw (f, redeem_proxy_parsed, e3)
                  (spend-Spends c wrong_proxy b.proxy_caps id digest proxy_id now g e1);
            entitled = member;
            names_are = names_are;
            opened = opened;
            same_tenant = same;
          }
    ]

-- What a re-assertion that is granted found.
pub record Reasserts (c : Crypto) (b : Broker) (token proxy_id : Text) (now : ℕ)
    (g : CapabilityGrant) : Type 0 where
  pub id : Text
  pub digest : Text
  pub parsed : parse_token c token ≡ ok (id, digest)
  pub entry : CapRecord
  pub found : get id b.proxy_caps ≡ some entry
  pub authentic : entry.digest ≡ digest
  pub standing : entry.revoked ≡ false
  pub timely : now < entry.grant.expires_at
  pub held : entry.grant.holder ≡ proxy_id
  pub grants : entry.grant ≡ g

module _ (c : Crypto) (b : Broker) (token proxy_id : Text) (now : ℕ) (g : CapabilityGrant) where
  reassert_record-Reasserts :
      (id digest : Text) (r : CapRecord)
      → parse_token c token ≡ ok (id, digest)
      → get id b.proxy_caps ≡ some r
      → reassert_record c digest proxy_id now (some r) ≡ ok g
      → Reasserts c b token proxy_id now g
  unfolding reassert_record
  reassert_record-Reasserts id digest r p f h = record {
    id = id;
    digest = digest;
    parsed = p;
    entry = r;
    found = f;
    authentic = ground (arith, c.ct_eq_iff r.digest digest);
    standing = ground arith;
    timely = ground arith;
    held = ground (arith, text_eq_iff r.grant.holder proxy_id);
    grants = ground arith;
  }

  pub reassert_proxy_capability-Reasserts :
      reassert_proxy_capability c b token proxy_id now ≡ ok g → Reasserts c b token proxy_id now g
  unfolding reassert_proxy_capability
  reassert_proxy_capability-Reasserts h =
      let (p, e, h1) = >>=-eq-ok (parse_token c token) _ h in
      elim (Option-cases (get p.0 b.proxy_caps)) [
        | inl f ↦ let bad = rw (f, reassert_record) at h1 in absurd (ground arith)
        | inr (r, f) ↦ reassert_record-Reasserts p.0 p.1 r e f (rw f at h1)
      ]
