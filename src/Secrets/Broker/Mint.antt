-- ===== src/Secrets/Broker/Mint.antt =====
-- crates/hull-ci-secrets/src/broker.rs: minting. New ids and random bytes are arguments.
use hull_ci.Base.{ℕ, List, Text, text_keys, insert, leb, if◌then◌else◌}
use hull_ci.Proxy.Grant.{Crypto}
use hull_ci.Secrets.Error.{Result, ok, err, capability_expired}
use hull_ci.Secrets.Capability.{mint_record, sweep}
use hull_ci.Secrets.Broker.State.{
  Broker, CapabilityRequest, sat_add_u64, grant_of, preflight, Minted,
}

module _ (c : Crypto) where
  unfoldable pub mint_named :
      Broker
      → CapabilityRequest
      → (id secret : Text) → ℕ
      → Result (List Text)
      → Broker × Result Minted
  mint_named b req id secret now (err e) = (b, err e)
  mint_named b req id secret now (ok names) =
      let g = grant_of req id names (sat_add_u64 now b.ttl_secs) in
      let (token, r) = mint_record c id secret g in
      (record b { caps = insert id r (sweep now b.caps) }, ok (token, g))

  unfoldable pub mint : Broker → CapabilityRequest → (id secret : Text) → ℕ → Broker × Result Minted
  unfolding mint_named preflight
  mint b req id secret now = mint_named b req id secret now (preflight b req)

  unfoldable pub mint_proxy_named :
      Broker
      → CapabilityRequest
      → (id secret : Text) → (expires_at now : ℕ) → Result (List Text)
      → Broker × Result Minted
  mint_proxy_named b req id secret expires_at now (err e) = (b, err e)
  mint_proxy_named b req id secret expires_at now (ok names) =
      let g = grant_of req id names expires_at in
      let (token, r) = mint_record c id secret g in
      if leb expires_at now
      then (b, err capability_expired)
      else (record b { proxy_caps = insert id r (sweep now b.proxy_caps) }, ok (token, g))

  unfoldable pub mint_proxy_capability :
      Broker
      → CapabilityRequest
      → (id secret : Text) → (expires_at now : ℕ) → Broker × Result Minted
  unfolding mint_proxy_named preflight
  mint_proxy_capability b req id secret expires_at now =
      mint_proxy_named b req id secret expires_at now (preflight b req)
