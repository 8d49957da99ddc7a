-- ===== src/Secrets/Broker/Used.antt =====
-- crates/hull-ci-secrets/src/broker.rs: the operations on a broker, and what they do to the registries.
use hull_ci.Base.{
  ℕ, ◌≡◌, refl, true, List, Option, none, some, Text, text_keys, leb, arith, Bool-cases, inl, inr,
  Holds, Holds-insert, Holds-keep,
}
use hull_ci.Proxy.Grant.{Crypto}
use hull_ci.Secrets.Error.{Result, ok, err, wrong_node, wrong_proxy}
use hull_ci.Secrets.Keys.{Aead, Keyring}
use hull_ci.Secrets.Seal.{Draw, SealedSecret}
use hull_ci.Secrets.Capability.{
  CapabilityGrant, CapRecord, Registry, parse_token, mint_record, spend, sweep,
}
use hull_ci.Secrets.Capability.Kept.{spend-Holds, revoke-Holds, revoke_where-Holds}
use hull_ci.Secrets.Broker.{
  Broker, CapabilityRequest, mint, mint_named, preflight, mint_proxy_capability, mint_proxy_named,
  redeem, redeem_parsed, redeem_spent, redeem_proxy_capability, redeem_proxy_parsed,
  redeem_proxy_spent, revoke, revoke_proxy_capability, revoke_job_proxy_capabilities, revoke_tenant,
  shred_tenant, shredded, provision, delete_secret, put_secret, put_sealed, rotate_tenant, rotated,
  rotate_records,
}

-- What is asked of a broker.
pub data Used (c : Crypto) (a : Aead) : Broker → Broker → Type 0 where
  provisions : (b : Broker) (tenant kek : Text) → Used c a b (provision b tenant kek)
  puts :
      (b : Broker) (tenant name value : Text) (draw : Draw)
      → Used c a b (put_secret a b tenant name value draw).0
  deletes : (b : Broker) (tenant name : Text) → Used c a b (delete_secret b tenant name).0
  mints :
      (b : Broker) (req : CapabilityRequest) (id secret : Text) (now : ℕ)
      → Used c a b (mint c b req id secret now).0
  mints_proxy :
      (b : Broker) (req : CapabilityRequest) (id secret : Text) (expires_at now : ℕ)
      → Used c a b (mint_proxy_capability c b req id secret expires_at now).0
  redeems :
      (b : Broker) (token node_id : Text) (requested : List Text) (now : ℕ)
      → Used c a b (redeem c a b token node_id requested now).0
  redeems_proxy :
      (b : Broker) (token proxy_id : Text) (now : ℕ)
      → Used c a b (redeem_proxy_capability c a b token proxy_id now).0
  revokes : (b : Broker) (cap_id : Text) → Used c a b (revoke b cap_id).0
  revokes_proxy : (b : Broker) (cap_id : Text) → Used c a b (revoke_proxy_capability b cap_id).0
  revokes_job : (b : Broker) (job_id : Text) → Used c a b (revoke_job_proxy_capabilities b job_id).0
  revokes_tenant : (b : Broker) (tenant : Text) → Used c a b (revoke_tenant b tenant).0
  shreds : (b : Broker) (tenant : Text) → Used c a b (shred_tenant b tenant).0
  rotates :
      (b : Broker) (tenant kek : Text) (nonce : ℕ → Text)
      → Used c a b (rotate_tenant a b tenant kek nonce).0

-- The id and the tenant of the capability that an operation may mint, for a node and for a package proxy.
unfoldable pub minted :
    {c : Crypto} {a : Aead} {b out : Broker} → Used c a b out → Option (Text × Text)
minted (Used.mints b req id secret now) = some (id, req.tenant)
minted _ = none

unfoldable pub minted_proxy :
    {c : Crypto} {a : Aead} {b out : Broker} → Used c a b out → Option (Text × Text)
minted_proxy (Used.mints_proxy b req id secret expires_at now) = some (id, req.tenant)
minted_proxy _ = none

-- The operations on one registry leave the other alone, and those on keys and rows leave both.
module _ (P : Registry × Registry → Type 0) where
  put_sealed-caps :
      (a : Aead) (b : Broker) (o : Result SealedSecret)
      → P (b.caps, b.proxy_caps)
      → P ((put_sealed a b o).0.caps, (put_sealed a b o).0.proxy_caps)
  unfolding put_sealed
  put_sealed-caps a b (ok s) h = h
  put_sealed-caps a b (err e) h = h

  shredded-caps :
      (b : Broker) (o : Result Keyring)
      → P (b.caps, b.proxy_caps)
      → P ((shredded b o).0.caps, (shredded b o).0.proxy_caps)
  unfolding shredded
  shredded-caps b (ok keys) h = h
  shredded-caps b (err e) h = h

  rotated-caps :
      (a : Aead) (b : Broker) (tenant : Text) (nonce : ℕ → Text) (o : Result (Keyring × ℕ))
      → P (b.caps, b.proxy_caps)
      → P ((rotated a b tenant nonce o).0.caps, (rotated a b tenant nonce o).0.proxy_caps)
  unfolding rotated rotate_records
  rotated-caps a b tenant nonce (ok (keys, n)) h = h
  rotated-caps a b tenant nonce (err e) h = h

mint_named-proxy_caps :
    (c : Crypto) (b : Broker) (req : CapabilityRequest) (id secret : Text) (now : ℕ)
    (o : Result (List Text))
    → (mint_named c b req id secret now o).0.proxy_caps ≡ b.proxy_caps
unfolding mint_named
mint_named-proxy_caps c b req id secret now (ok names) = refl
mint_named-proxy_caps c b req id secret now (err e) = refl

mint_proxy_named-caps :
    (c : Crypto) (b : Broker) (req : CapabilityRequest) (id secret : Text) (expires_at now : ℕ)
    (o : Result (List Text))
    → (mint_proxy_named c b req id secret expires_at now o).0.caps ≡ b.caps
unfolding mint_proxy_named
mint_proxy_named-caps c b req id secret expires_at now (ok names) = ground arith
mint_proxy_named-caps c b req id secret expires_at now (err e) = refl

redeem_spent-proxy_caps :
    (c : Crypto) (a : Aead) (b : Broker) (requested : List Text)
    (out : Registry × Result CapabilityGrant)
    → (redeem_spent c a b requested out).0.proxy_caps ≡ b.proxy_caps
unfolding redeem_spent
redeem_spent-proxy_caps c a b requested (caps, ok g) = refl
redeem_spent-proxy_caps c a b requested (caps, err e) = refl

redeem_proxy_spent-caps :
    (c : Crypto) (a : Aead) (b : Broker) (out : Registry × Result CapabilityGrant)
    → (redeem_proxy_spent c a b out).0.caps ≡ b.caps
unfolding redeem_proxy_spent
redeem_proxy_spent-caps c a b (caps, ok g) = refl
redeem_proxy_spent-caps c a b (caps, err e) = refl

redeem_parsed-proxy_caps :
    (c : Crypto) (a : Aead) (b : Broker) (node_id : Text) (requested : List Text) (now : ℕ)
    (p : Result (Text × Text))
    → (redeem_parsed c a b node_id requested now p).0.proxy_caps ≡ b.proxy_caps
unfolding redeem_parsed redeem_spent
redeem_parsed-proxy_caps c a b node_id requested now (err e) = refl
redeem_parsed-proxy_caps c a b node_id requested now (ok (id, digest)) =
    redeem_spent-proxy_caps c a b requested (spend c wrong_node b.caps id digest node_id now)

redeem_proxy_parsed-caps :
    (c : Crypto) (a : Aead) (b : Broker) (proxy_id : Text) (now : ℕ) (p : Result (Text × Text))
    → (redeem_proxy_parsed c a b proxy_id now p).0.caps ≡ b.caps
unfolding redeem_proxy_parsed redeem_proxy_spent
redeem_proxy_parsed-caps c a b proxy_id now (err e) = refl
redeem_proxy_parsed-caps c a b proxy_id now (ok (id, digest)) =
    redeem_proxy_spent-caps c a b (spend c wrong_proxy b.proxy_caps id digest proxy_id now)

module _ (P : Text → CapRecord → Type 0)
    (spent : (id : Text) (r : CapRecord) → P id r → P id (record r { consumed = true }))
    (ended : (id : Text) (r : CapRecord) → P id r → P id (record r { revoked = true })) where
  redeem_spent-Holds :
      (c : Crypto) (a : Aead) (b : Broker) (requested : List Text)
      (out : Registry × Result CapabilityGrant)
      → Holds P out.0
      → Holds P (redeem_spent c a b requested out).0.caps
  unfolding redeem_spent
  redeem_spent-Holds c a b requested (caps, ok g) h = h
  redeem_spent-Holds c a b requested (caps, err e) h = h

  redeem_parsed-Holds :
      (c : Crypto) (a : Aead) (b : Broker) (node_id : Text) (requested : List Text) (now : ℕ)
      (p : Result (Text × Text))
      → Holds P b.caps
      → Holds P (redeem_parsed c a b node_id requested now p).0.caps
  unfolding redeem_parsed
  redeem_parsed-Holds c a b node_id requested now (err e) h = h
  redeem_parsed-Holds c a b node_id requested now (ok (id, digest)) h =
      redeem_spent-Holds c a b requested _
        (spend-Holds P spent ended c wrong_node b.caps id digest node_id now h)

  redeem_proxy_spent-Holds :
      (c : Crypto) (a : Aead) (b : Broker) (out : Registry × Result CapabilityGrant)
      → Holds P out.0
      → Holds P (redeem_proxy_spent c a b out).0.proxy_caps
  unfolding redeem_proxy_spent
  redeem_proxy_spent-Holds c a b (caps, ok g) h = h
  redeem_proxy_spent-Holds c a b (caps, err e) h = h

  redeem_proxy_parsed-Holds :
      (c : Crypto) (a : Aead) (b : Broker) (proxy_id : Text) (now : ℕ) (p : Result (Text × Text))
      → Holds P b.proxy_caps
      → Holds P (redeem_proxy_parsed c a b proxy_id now p).0.proxy_caps
  unfolding redeem_proxy_parsed
  redeem_proxy_parsed-Holds c a b proxy_id now (err e) h = h
  redeem_proxy_parsed-Holds c a b proxy_id now (ok (id, digest)) h =
      redeem_proxy_spent-Holds c a b _
        (spend-Holds P spent ended c wrong_proxy b.proxy_caps id digest proxy_id now h)

  mint_named-Holds :
      (c : Crypto) (b : Broker) (req : CapabilityRequest) (id secret : Text) (now : ℕ)
      (o : Result (List Text))
      → ((r : CapRecord) → r.grant.tenant ≡ req.tenant → P id r)
      → Holds P b.caps
      → Holds P (mint_named c b req id secret now o).0.caps
  unfolding mint_named sweep mint_record
  mint_named-Holds c b req id secret now (err e) fresh h = h
  mint_named-Holds c b req id secret now (ok names) fresh h =
      Holds-insert P _ id _ (fresh _ refl) (Holds-keep P _ b.caps h)

  mint_proxy_named-Holds :
      (c : Crypto) (b : Broker) (req : CapabilityRequest) (id secret : Text) (expires_at now : ℕ)
      (o : Result (List Text))
      → ((r : CapRecord) → r.grant.tenant ≡ req.tenant → P id r)
      → Holds P b.proxy_caps
      → Holds P (mint_proxy_named c b req id secret expires_at now o).0.proxy_caps
  unfolding mint_proxy_named sweep mint_record
  mint_proxy_named-Holds c b req id secret expires_at now (err e) fresh h = h
  mint_proxy_named-Holds c b req id secret expires_at now (ok names) fresh h =
      elim (Bool-cases (leb expires_at now)) [
        | inl e ↦ rw e h
        | inr e ↦ rw e (Holds-insert P _ id _ (fresh _ refl) (Holds-keep P _ b.proxy_caps h))
      ]

  -- What spending and revoking keep of each capability of a node, every operation keeps, if it holds of
  -- what is minted.
  pub Used-caps :
      {c : Crypto} {a : Aead} {b out : Broker} (u : Used c a b out)
      → ((id tenant : Text) (r : CapRecord)
          → minted u ≡ some (id, tenant)
          → r.grant.tenant ≡ tenant
          → P id r)
      → Holds P b.caps
      → Holds P out.caps
  unfolding minted provision put_secret delete_secret mint mint_proxy_capability redeem
      redeem_proxy_capability revoke revoke_proxy_capability revoke_job_proxy_capabilities
      revoke_tenant shred_tenant rotate_tenant
  Used-caps (Used.provisions b tenant kek) fresh h = h
  Used-caps {a} (Used.puts b tenant name value draw) fresh h =
      put_sealed-caps (λ (p : Registry × Registry). Holds P p.0) a b _ h
  Used-caps (Used.deletes b tenant name) fresh h = h
  Used-caps {c} (Used.mints b req id secret now) fresh h =
      mint_named-Holds c b req id secret now (preflight b req) (λ r e. fresh id req.tenant r refl e)
        h
  Used-caps {c} (Used.mints_proxy b req id secret expires_at now) fresh h =
      rw (mint_proxy_named-caps c b req id secret expires_at now (preflight b req)) h
  Used-caps {c} {a} (Used.redeems b token node_id requested now) fresh h =
      redeem_parsed-Holds c a b node_id requested now (parse_token c token) h
  Used-caps {c} {a} (Used.redeems_proxy b token proxy_id now) fresh h =
      rw (redeem_proxy_parsed-caps c a b proxy_id now (parse_token c token)) h
  Used-caps (Used.revokes b cap_id) fresh h = revoke-Holds P spent ended b.caps cap_id h
  Used-caps (Used.revokes_proxy b cap_id) fresh h = h
  Used-caps (Used.revokes_job b job_id) fresh h = h
  Used-caps (Used.revokes_tenant b tenant) fresh h = revoke_where-Holds P spent ended _ b.caps h
  Used-caps (Used.shreds b tenant) fresh h =
      shredded-caps (λ (p : Registry × Registry). Holds P p.0) (revoke_tenant b tenant).0 _
        (revoke_where-Holds P spent ended _ b.caps h)
  Used-caps {a} (Used.rotates b tenant kek nonce) fresh h =
      rotated-caps (λ (p : Registry × Registry). Holds P p.0) a b tenant nonce _ h

  -- What spending and revoking keep of each capability of a package proxy, every operation keeps, if it holds of
  -- what is minted.
  pub Used-proxy_caps :
      {c : Crypto} {a : Aead} {b out : Broker} (u : Used c a b out)
      → ((id tenant : Text) (r : CapRecord)
          → minted_proxy u ≡ some (id, tenant)
          → r.grant.tenant ≡ tenant
          → P id r)
      → Holds P b.proxy_caps
      → Holds P out.proxy_caps
  unfolding minted_proxy provision put_secret delete_secret mint mint_proxy_capability redeem
      redeem_proxy_capability revoke revoke_proxy_capability revoke_job_proxy_capabilities
      revoke_tenant shred_tenant rotate_tenant
  Used-proxy_caps (Used.provisions b tenant kek) fresh h = h
  Used-proxy_caps {a} (Used.puts b tenant name value draw) fresh h =
      put_sealed-caps (λ (p : Registry × Registry). Holds P p.1) a b _ h
  Used-proxy_caps (Used.deletes b tenant name) fresh h = h
  Used-proxy_caps {c} (Used.mints b req id secret now) fresh h =
      rw (mint_named-proxy_caps c b req id secret now (preflight b req)) h
  Used-proxy_caps {c} (Used.mints_proxy b req id secret expires_at now) fresh h =
      mint_proxy_named-Holds c b req id secret expires_at now (preflight b req)
        (λ r e. fresh id req.tenant r refl e) h
  Used-proxy_caps {c} {a} (Used.redeems b token node_id requested now) fresh h =
      rw (redeem_parsed-proxy_caps c a b node_id requested now (parse_token c token)) h
  Used-proxy_caps {c} {a} (Used.redeems_proxy b token proxy_id now) fresh h =
      redeem_proxy_parsed-Holds c a b proxy_id now (parse_token c token) h
  Used-proxy_caps (Used.revokes b cap_id) fresh h = h
  Used-proxy_caps (Used.revokes_proxy b cap_id) fresh h =
      revoke-Holds P spent ended b.proxy_caps cap_id h
  Used-proxy_caps (Used.revokes_job b job_id) fresh h =
      revoke_where-Holds P spent ended _ b.proxy_caps h
  Used-proxy_caps (Used.revokes_tenant b tenant) fresh h =
      revoke_where-Holds P spent ended _ b.proxy_caps h
  Used-proxy_caps (Used.shreds b tenant) fresh h =
      shredded-caps (λ (p : Registry × Registry). Holds P p.1) (revoke_tenant b tenant).0 _
        (revoke_where-Holds P spent ended _ b.proxy_caps h)
  Used-proxy_caps {a} (Used.rotates b tenant kek nonce) fresh h =
      rotated-caps (λ (p : Registry × Registry). Holds P p.1) a b tenant nonce _ h
