-- ===== src/Secrets/Broker/Refines.antt =====
-- crates/hull-ci-secrets/src/broker.rs: the operations of the broker beside those on a map of values.
use hull_ci.Base.{ℕ, ◌≡◌, List, Text, length, leb, Bool-cases, inl, inr}
use hull_ci.Proxy.Grant.{Crypto}
use hull_ci.Secrets.Error.{Result, ok, err, wrong_node, wrong_proxy, ◌>>◌, >>=-eq-ok}
use hull_ci.Secrets.Context.{validate_name}
use hull_ci.Secrets.Keys.{Aead, Keyring, nonce_len}
use hull_ci.Secrets.Keys.Wrapped.{
  AnyTenant, rotate-KeepsKeks, provision_tenant-KeepsKeks, shred-KeepsKeks,
}
use hull_ci.Secrets.Seal.{SealedSecret, Draw, place_keys, Rows, seal, delete_row}
use hull_ci.Secrets.Seal.Opens.{IsDrawn, Opens, seal-Opens}
use hull_ci.Secrets.Capability.{Registry, CapabilityGrant, parse_token, spend}
use hull_ci.Secrets.Broker.{
  Broker, CapabilityRequest, put_secret, rotate_tenant, shred_tenant, revoke_tenant, provision,
  delete_secret, redeem, redeem_parsed, redeem_spent, redeem_proxy_capability, redeem_proxy_parsed,
  redeem_proxy_spent, mint, mint_named, preflight, mint_proxy_capability, mint_proxy_named, revoke,
  revoke_proxy_capability, revoke_job_proxy_capabilities,
}
use hull_ci.Secrets.Broker.Used.{Used}
use hull_ci.Secrets.Broker.Stored.{Values, Stores, Stores-KeepsKeks}
use hull_ci.Secrets.Broker.Changes.{
  without_value, without_tenant, stored_if, Holding, erase-Stores, put_sealed-Stores,
  shredded-Stores, rotated-Stores,
}

-- What an operation does to the values: only a `put_secret` that succeeds, a deletion and a shredding
-- do anything.
unfoldable pub meaning : {c : Crypto} {a : Aead} {b out : Broker} → Used c a b out → Values → Values
unfolding stored_if
meaning {a} (Used.puts b tenant name value draw) f =
    stored_if (put_secret a b tenant name value draw).1 (tenant, name) value f
meaning (Used.deletes b tenant name) f = without_value (tenant, name) f
meaning (Used.shreds b tenant) f = without_tenant tenant f
meaning _ f = f

-- The random bytes of the operation have the right lengths.
unfoldable pub IsWellDrawn : {c : Crypto} {a : Aead} {b out : Broker} → Used c a b out → Type 0
IsWellDrawn (Used.puts b tenant name value draw) = IsDrawn draw
IsWellDrawn (Used.rotates b tenant kek nonce) = (i : ℕ) → length (nonce i) ≡ nonce_len
IsWellDrawn _ = Unit

-- The operations on the registries leave the keys and the records alone.
module _ (P : Keyring × Rows → Type 0) (c : Crypto) (a : Aead) where
  mint_named-same :
      (b : Broker) (req : CapabilityRequest) (id secret : Text) (now : ℕ) (o : Result (List Text))
      → P (b.keys, b.rows)
      → P ((mint_named c b req id secret now o).0.keys, (mint_named c b req id secret now o).0.rows)
  unfolding mint_named
  mint_named-same b req id secret now (ok names) h = h
  mint_named-same b req id secret now (err e) h = h

  mint_proxy_named-same :
      (b : Broker) (req : CapabilityRequest) (id secret : Text) (expires_at now : ℕ)
      (o : Result (List Text))
      → P (b.keys, b.rows)
      → let out = (mint_proxy_named c b req id secret expires_at now o).0 in P (out.keys, out.rows)
  unfolding mint_proxy_named
  mint_proxy_named-same b req id secret expires_at now (ok names) h =
      elim (Bool-cases (leb expires_at now)) [ inl e ↦ rw e h | inr e ↦ rw e h ]
  mint_proxy_named-same b req id secret expires_at now (err e) h = h

  redeem_spent-same :
      (b : Broker) (requested : List Text) (out : Registry × Result CapabilityGrant)
      → P (b.keys, b.rows)
      → let after = (redeem_spent c a b requested out).0 in P (after.keys, after.rows)
  unfolding redeem_spent
  redeem_spent-same b requested (caps, ok g) h = h
  redeem_spent-same b requested (caps, err e) h = h

  redeem_parsed-same :
      (b : Broker) (node_id : Text) (requested : List Text) (now : ℕ) (p : Result (Text × Text))
      → P (b.keys, b.rows)
      → let after = (redeem_parsed c a b node_id requested now p).0 in P (after.keys, after.rows)
  unfolding redeem_parsed
  redeem_parsed-same b node_id requested now (err e) h = h
  redeem_parsed-same b node_id requested now (ok (id, digest)) h =
      redeem_spent-same b requested (spend c wrong_node b.caps id digest node_id now) h

  redeem_proxy_spent-same :
      (b : Broker) (out : Registry × Result CapabilityGrant)
      → P (b.keys, b.rows)
      → let after = (redeem_proxy_spent c a b out).0 in P (after.keys, after.rows)
  unfolding redeem_proxy_spent
  redeem_proxy_spent-same b (caps, ok g) h = h
  redeem_proxy_spent-same b (caps, err e) h = h

  redeem_proxy_parsed-same :
      (b : Broker) (proxy_id : Text) (now : ℕ) (p : Result (Text × Text))
      → P (b.keys, b.rows)
      → let after = (redeem_proxy_parsed c a b proxy_id now p).0 in P (after.keys, after.rows)
  unfolding redeem_proxy_parsed
  redeem_proxy_parsed-same b proxy_id now (err e) h = h
  redeem_proxy_parsed-same b proxy_id now (ok (id, digest)) h =
      redeem_proxy_spent-same b (spend c wrong_proxy b.proxy_caps id digest proxy_id now) h

sealed-Opens :
    (a : Aead) (b : Broker) (tenant name value : Text) (draw : Draw) (s : SealedSecret)
    → IsDrawn draw
    → (validate_name name >> seal a b.keys tenant name value draw) ≡ ok s
    → Opens a b.keys tenant name s value
sealed-Opens a b tenant name value draw s d h =
    let (u, e, g) = >>=-eq-ok (validate_name name) _ h in
    seal-Opens a b.keys tenant name value draw s d g

-- If a broker holds the values of a map, then after any operation it holds the values of the map that the
-- operation means: a stored secret is at its place, a deleted one and those of a shredded tenant are
-- promised no more, and every other value still opens, also when a rotation stops half-way.
pub Used-Holding :
    {c : Crypto} {a : Aead} {b out : Broker} (f : Values) (u : Used c a b out)
    → IsWellDrawn u
    → Holding a f b
    → Holding a (meaning u f) out
unfolding IsWellDrawn meaning provision put_secret delete_secret delete_row mint
    mint_proxy_capability redeem redeem_proxy_capability revoke revoke_proxy_capability
    revoke_job_proxy_capabilities revoke_tenant shred_tenant rotate_tenant
Used-Holding {a} f (Used.provisions b tenant kek) w st =
    Stores-KeepsKeks a f AnyTenant b.keys _ b.rows (provision_tenant-KeepsKeks b.keys tenant kek)
      (λ p v h. tt) st
Used-Holding {a} f (Used.puts b tenant name value draw) w st =
    put_sealed-Stores a f b tenant name value draw _
      (λ s h. sealed-Opens a b tenant name value draw s w h) st
Used-Holding {a} f (Used.deletes b tenant name) w st =
    erase-Stores a f b.keys b.rows (tenant, name) st
Used-Holding {c} {a} f (Used.mints b req id secret now) w st =
    mint_named-same (λ (p : Keyring × Rows). Stores a f p.0 p.1) c a b req id secret now
      (preflight b req) st
Used-Holding {c} {a} f (Used.mints_proxy b req id secret expires_at now) w st =
    mint_proxy_named-same (λ (p : Keyring × Rows). Stores a f p.0 p.1) c a b req id secret
      expires_at now (preflight b req) st
Used-Holding {c} {a} f (Used.redeems b token node_id requested now) w st =
    redeem_parsed-same (λ (p : Keyring × Rows). Stores a f p.0 p.1) c a b node_id requested now
      (parse_token c token) st
Used-Holding {c} {a} f (Used.redeems_proxy b token proxy_id now) w st =
    redeem_proxy_parsed-same (λ (p : Keyring × Rows). Stores a f p.0 p.1) c a b proxy_id now
      (parse_token c token) st
Used-Holding f (Used.revokes b cap_id) w st = st
Used-Holding f (Used.revokes_proxy b cap_id) w st = st
Used-Holding f (Used.revokes_job b job_id) w st = st
Used-Holding f (Used.revokes_tenant b tenant) w st = st
Used-Holding {a} f (Used.shreds b tenant) w st =
    shredded-Stores a f (revoke_tenant b tenant).0 tenant _
      (λ later h. shred-KeepsKeks b.keys tenant later h) st
Used-Holding {a} f (Used.rotates b tenant kek nonce) w st =
    rotated-Stores a f b tenant nonce _ w
      (λ later v h. rotate-KeepsKeks b.keys tenant kek later v h) st
