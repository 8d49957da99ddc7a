-- ===== src/Secrets/Broker/Revoked.antt =====
-- crates/hull-ci-secrets/src/broker.rs: what the revocation of a tenant's capabilities reaches.
use hull_ci.Base.{
  ℕ, ◌≡◌, ◌≢◌, refl, true, false, List, [], ◌∷◌, some, Text, text_eq, text_eq_iff, text_keys, arith,
  sym, subst, ◌∙◌, Holds, Holds-get, ap,
}
use hull_ci.Proxy.Grant.{Crypto}
use hull_ci.Secrets.Error.{ok}
use hull_ci.Secrets.Keys.{Aead}
use hull_ci.Secrets.Capability.{CapabilityGrant, CapRecord, Registry, revoke_where}
use hull_ci.Secrets.Broker.{
  Broker, DeliveredSecrets, redeem, redeem_proxy_capability, reassert_proxy_capability,
  revoke_tenant,
}
use hull_ci.Secrets.Broker.Used.{Used, minted, minted_proxy, Used-caps, Used-proxy_caps}
use hull_ci.Secrets.Broker.Delivered.{
  redeem-Redeems, redeem_proxy_capability-RedeemsProxy, reassert_proxy_capability-Reasserts,
}

-- Brokers that come of one by operations, none of which mints a capability for the tenant.
pub data After (c : Crypto) (a : Aead) (tenant : Text) (start : Broker) : Broker → Type 0 where
  here : After c a tenant start start
  next :
      {b out : Broker}
      → After c a tenant start b
      → (u : Used c a b out) → ((id : Text) → minted u ≢ some (id, tenant))
      → ((id : Text) → minted_proxy u ≢ some (id, tenant))
      → After c a tenant start out

-- Every capability of the tenant is revoked.
abbrev IsRevoked : Text → Text → CapRecord → Type 0
IsRevoked tenant i r = r.grant.tenant ≡ tenant → r.revoked ≡ true

Used-IsRevoked :
    {c : Crypto} {a : Aead} {b out : Broker} (tenant : Text) (u : Used c a b out)
    → ((id : Text) → minted u ≢ some (id, tenant))
    → Holds (IsRevoked tenant) b.caps
    → Holds (IsRevoked tenant) out.caps
Used-IsRevoked tenant u other h =
    Used-caps (IsRevoked tenant) (λ i r p e. p e) (λ i r p e. refl) u
      (λ i t r m s e. absurd (other i (subst (λ x. minted u ≡ some (i, x)) (sym s ∙ e) m))) h

Used_proxy-IsRevoked :
    {c : Crypto} {a : Aead} {b out : Broker} (tenant : Text) (u : Used c a b out)
    → ((id : Text) → minted_proxy u ≢ some (id, tenant))
    → Holds (IsRevoked tenant) b.proxy_caps
    → Holds (IsRevoked tenant) out.proxy_caps
Used_proxy-IsRevoked tenant u other h =
    Used-proxy_caps (IsRevoked tenant) (λ i r p e. p e) (λ i r p e. refl) u
      (λ i t r m s e. absurd (other i (subst (λ x. minted_proxy u ≡ some (i, x)) (sym s ∙ e) m))) h

After-IsRevoked :
    (c : Crypto) (a : Aead) (tenant : Text) {start b : Broker}
    → Holds (IsRevoked tenant) start.caps
    → Holds (IsRevoked tenant) start.proxy_caps
    → After c a tenant start b
    → Holds (IsRevoked tenant) b.caps × Holds (IsRevoked tenant) b.proxy_caps
After-IsRevoked c a tenant h k After.here = (h, k)
After-IsRevoked c a tenant h k (After.next r u other other') =
    let (x, y) = After-IsRevoked c a tenant h k r in
    (Used-IsRevoked tenant u other x, Used_proxy-IsRevoked tenant u other' y)

revoke_where-IsRevoked :
    (tenant : Text) (reg : Registry)
    → Holds (IsRevoked tenant) (revoke_where (λ g. text_eq g.tenant tenant) reg).0
unfolding revoke_where
revoke_where-IsRevoked tenant [] = tt
revoke_where-IsRevoked tenant ((id, r) ∷ reg) =
    ((λ e. ground (arith, text_eq_iff r.grant.tenant tenant)), revoke_where-IsRevoked tenant reg)

false-ne-true : false ≡ true → ⊥
false-ne-true h = ground arith

-- What the later use of a token for the tenant gives, in each of the three ways.
pub record NothingFor (c : Crypto) (a : Aead) (tenant : Text) (b : Broker) : Type 0 where
  pub redemptions :
      (token node_id : Text) (requested : List Text) (now : ℕ) (d : DeliveredSecrets)
      → (redeem c a b token node_id requested now).1 ≡ ok d
      → d.tenant ≢ tenant
  pub proxy_redemptions :
      (token proxy_id : Text) (now : ℕ) (d : DeliveredSecrets)
      → (redeem_proxy_capability c a b token proxy_id now).1 ≡ ok d
      → d.tenant ≢ tenant
  pub reassertions :
      (token proxy_id : Text) (now : ℕ) (g : CapabilityGrant)
      → reassert_proxy_capability c b token proxy_id now ≡ ok g
      → g.tenant ≢ tenant

-- Once the capabilities of a tenant are revoked, nothing is delivered for that tenant, neither to a node
-- nor to the package proxy, and no package proxy's capability of it is re-asserted, not even one that
-- was redeemed before; whatever is done later, as long as none is minted for the tenant again.
pub revoke_tenant-NothingFor :
    (c : Crypto) (a : Aead) (b later : Broker) (tenant : Text)
    → After c a tenant (revoke_tenant b tenant).0 later
    → NothingFor c a tenant later
unfolding revoke_tenant
revoke_tenant-NothingFor c a b later tenant after =
    let (nodes, proxies) =
      After-IsRevoked c a tenant (revoke_where-IsRevoked tenant b.caps)
        (revoke_where-IsRevoked tenant b.proxy_caps) after in
    record {
      redemptions = λ token node_id requested now d h e.
          let x = redeem-Redeems c a later token node_id requested now d h in
          false-ne-true (
            sym x.spent.standing
            ∙ Holds-get (IsRevoked tenant) later.caps x.id x.spent.entry nodes x.spent.found (
                ap (λ (g : CapabilityGrant). g.tenant) x.spent.grants
                ∙ sym x.hands.same_tenant
                ∙ e));
      proxy_redemptions = λ token proxy_id now d h e.
          let x = redeem_proxy_capability-RedeemsProxy c a later token proxy_id now d h in
          false-ne-true (
            sym x.spent.standing
            ∙ Holds-get (IsRevoked tenant) later.proxy_caps x.id x.spent.entry proxies x.spent.found
                (ap (λ (g : CapabilityGrant). g.tenant) x.spent.grants ∙ sym x.same_tenant ∙ e));
      reassertions = λ token proxy_id now g h e.
          let x = reassert_proxy_capability-Reasserts c later token proxy_id now g h in
          false-ne-true (
            sym x.standing
            ∙ Holds-get (IsRevoked tenant) later.proxy_caps x.id x.entry proxies x.found
                (ap (λ (g : CapabilityGrant). g.tenant) x.grants ∙ e));
    }
