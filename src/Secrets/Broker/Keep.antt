-- ===== src/Secrets/Broker/Keep.antt =====
-- crates/hull-ci-secrets/src/broker.rs: revocation, shredding, rotation, and the tenants' secrets.
use hull_ci.Base.{ℕ, suc, ◌+◌, Bool, List, [], ◌∷◌, map, none, some, Text, text_eq, text_keys}
use hull_ci.Secrets.Error.{Result, ok, err, ◌>>◌}
use hull_ci.Secrets.Context.{validate_name}
use hull_ci.Secrets.Keys.{Aead, Keyring, provision_tenant, rotate, shred}
use hull_ci.Secrets.Seal.{SealedSecret, Draw, Rows, seal, rewrap, put_row, delete_row, list_rows}
use hull_ci.Secrets.Capability.{
  CapabilityGrant, CapRecord, Registry, parse_token, mint_record, spend, sweep, revoke_where,
}
use hull_ci.Secrets.Capability
use hull_ci.Secrets.Broker.State.{Broker}

unfoldable pub revoke : Broker → (cap_id : Text) → Broker × Bool
revoke b cap_id =
    let (caps, done) = Capability.revoke b.caps cap_id in (record b { caps = caps }, done)

unfoldable pub revoke_proxy_capability : Broker → (cap_id : Text) → Broker × Bool
revoke_proxy_capability b cap_id =
    let (caps, done) = Capability.revoke b.proxy_caps cap_id in
    (record b { proxy_caps = caps }, done)

unfoldable pub revoke_job_proxy_capabilities : Broker → (job_id : Text) → Broker × ℕ
revoke_job_proxy_capabilities b job_id =
    let (caps, n) = revoke_where (λ g. text_eq g.job_id job_id) b.proxy_caps in
    (record b { proxy_caps = caps }, n)

unfoldable pub revoke_tenant : Broker → (tenant : Text) → Broker × ℕ
revoke_tenant b tenant =
    let (caps, n) = revoke_where (λ g. text_eq g.tenant tenant) b.caps in
    let (proxy_caps, m) = revoke_where (λ g. text_eq g.tenant tenant) b.proxy_caps in
    (record b { caps = caps; proxy_caps = proxy_caps }, n + m)

unfoldable pub shredded : Broker → Result Keyring → Broker × Result (Unit {0})
shredded b (ok keys) = (record b { keys = keys }, ok tt)
shredded b (err e) = (b, err e)

unfoldable pub shred_tenant : Broker → (tenant : Text) → Broker × Result (Unit {0})
unfolding shredded
shred_tenant b tenant =
    let revoked = (revoke_tenant b tenant).0 in shredded revoked (shred revoked.keys tenant)

unfoldable pub provision : Broker → (tenant kek : Text) → Broker
provision b tenant kek = record b { keys = (provision_tenant b.keys tenant kek).0 }

unfoldable pub delete_secret : Broker → (tenant name : Text) → Broker × Bool
delete_secret b tenant name =
    let (rows, was) = delete_row tenant name b.rows in (record b { rows = rows }, was)

unfoldable pub list_names : Broker → (tenant : Text) → List Text
list_names b tenant = map (λ (s : SealedSecret). s.name) (list_rows tenant b.rows)

module _ (a : Aead) where
  unfoldable pub put_sealed : Broker → Result SealedSecret → Broker × Result (Unit {0})
  put_sealed b (err e) = (b, err e)
  put_sealed b (ok s) = (record b { rows = put_row s b.rows }, ok tt)

  unfoldable pub put_secret :
      Broker → (tenant name value : Text) → Draw → Broker × Result (Unit {0})
  unfolding put_sealed
  put_secret b tenant name value draw =
      put_sealed b do validate_name name; seal a b.keys tenant name value draw

  -- The loop over the tenant's records; `nonce` is drawn for each. A failure leaves the records before
  -- it as they are by then.
  unfoldable pub rewrap_all :
      Keyring → (nonce : ℕ → Text) → List SealedSecret → Rows → ℕ → Rows × Result ℕ
  rewrap_all keys nonce [] rows n = (rows, ok n)
  rewrap_all keys nonce (s ∷ ss) rows n = elim (rewrap a keys s (nonce n)) [
    | err e ↦ (rows, err e)
    | ok none ↦ rewrap_all keys nonce ss rows n
    | ok (some updated) ↦ rewrap_all keys nonce ss (put_row updated rows) (suc n)
  ]

  unfoldable pub rotate_records :
      Broker → (tenant : Text) → (nonce : ℕ → Text) → Keyring → Broker × Result ℕ
  unfolding rewrap_all
  rotate_records b tenant nonce keys =
      let (rows, n) = rewrap_all keys nonce (list_rows tenant b.rows) b.rows 0 in
      (record b { keys = keys; rows = rows }, n)

  unfoldable pub rotated :
      Broker → (tenant : Text) → (nonce : ℕ → Text) → Result (Keyring × ℕ) → Broker × Result ℕ
  unfolding rotate_records
  rotated b tenant nonce (err e) = (b, err e)
  rotated b tenant nonce (ok (keys, version)) = rotate_records b tenant nonce keys

  unfoldable pub rotate_tenant :
      Broker → (tenant kek : Text) → (nonce : ℕ → Text) → Broker × Result ℕ
  unfolding rotated
  rotate_tenant b tenant kek nonce = rotated b tenant nonce (rotate b.keys tenant kek)
