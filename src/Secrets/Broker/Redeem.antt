-- ===== src/Secrets/Broker/Redeem.antt =====
-- crates/hull-ci-secrets/src/broker.rs: redemptions, and the re-assertion of a package proxy.
use hull_ci.Base.{
  ℕ, not, List, [], ◌∷◌, Option, none, some, Text, text_eq, text_keys, get, leb, if◌then◌else◌,
}
use hull_ci.Proto.Verdict.{may_receive_secrets}
use hull_ci.Proxy.Grant.{Crypto}
use hull_ci.Secrets.Error.{
  Result, ok, err, ◌>>=◌, ◌>>◌, outsider_refused, undeclared, wrong_node, wrong_proxy,
  bad_capability, capability_revoked, capability_expired,
}
use hull_ci.Secrets.Keys.{Aead, Keyring}
use hull_ci.Secrets.Seal.{Rows, open_sealed, get_row}
use hull_ci.Secrets.Capability.{CapabilityGrant, CapRecord, Registry, parse_token, spend}
use hull_ci.Secrets.Broker.State.{Broker, DeliveredSecrets, has_name, found_or_unknown}

-- The loop that opens what is wanted.
module _ (a : Aead) where
  unfoldable pub open_all :
      Keyring → Rows → (tenant : Text) → List Text → Result (List (Text × Text))
  unfolding found_or_unknown
  open_all keys rows tenant [] = ok []
  open_all keys rows tenant (n ∷ ns) = do
    s ← found_or_unknown tenant n (get_row tenant n rows)
    v ← open_sealed a keys tenant n s
    rest ← open_all keys rows tenant ns
    ok ((n, v) ∷ rest)

-- The first name that is not declared.
unfoldable pub all_declared : List Text → List Text → Result (Unit {0})
all_declared names [] = ok tt
all_declared names (n ∷ ns) =
    let rest = all_declared names ns in if has_name n names then rest else err (undeclared n)

unfoldable pub wanted : (names requested : List Text) → Result (List Text)
unfolding all_declared
wanted names [] = ok names
wanted names (n ∷ ns) = do all_declared names (n ∷ ns); ok (n ∷ ns)

module _ (a : Aead) (b : Broker) (g : CapabilityGrant) where
  unfoldable pub handed : List Text → Result DeliveredSecrets
  handed names = do
    values ← open_all a b.keys b.rows g.tenant names
    ok (record { tenant = g.tenant; job_id = g.job_id; values = values })

  -- What follows the spending of a capability.
  unfoldable pub hand_over : (requested : List Text) → Result DeliveredSecrets
  unfolding handed
  hand_over requested =
      if not (may_receive_secrets g.author_class)
      then err outsider_refused
      else do names ← wanted g.names requested; handed names

  unfoldable pub hand_over_proxy : Result DeliveredSecrets
  unfolding handed
  hand_over_proxy =
      if not (may_receive_secrets g.author_class) then err outsider_refused else handed g.names

module _ (c : Crypto) where
  module _ (a : Aead) where
    unfoldable pub redeem_spent :
        Broker
        → (requested : List Text) → Registry × Result CapabilityGrant
        → Broker × Result DeliveredSecrets
    redeem_spent b requested (caps, err e) = (record b { caps = caps }, err e)
    redeem_spent b requested (caps, ok g) = (record b { caps = caps }, hand_over a b g requested)

    unfoldable pub redeem_parsed :
        Broker
        → (node_id : Text) → (requested : List Text) → ℕ
        → Result (Text × Text)
        → Broker × Result DeliveredSecrets
    unfolding redeem_spent
    redeem_parsed b node_id requested now (err e) = (b, err e)
    redeem_parsed b node_id requested now (ok (id, digest)) =
        redeem_spent b requested (spend c wrong_node b.caps id digest node_id now)

    unfoldable pub redeem :
        Broker
        → (token node_id : Text) → (requested : List Text) → ℕ
        → Broker × Result DeliveredSecrets
    unfolding redeem_parsed
    redeem b token node_id requested now =
        redeem_parsed b node_id requested now (parse_token c token)

    unfoldable pub redeem_proxy_spent :
        Broker → Registry × Result CapabilityGrant → Broker × Result DeliveredSecrets
    redeem_proxy_spent b (caps, err e) = (record b { proxy_caps = caps }, err e)
    redeem_proxy_spent b (caps, ok g) = (record b { proxy_caps = caps }, hand_over_proxy a b g)

    unfoldable pub redeem_proxy_parsed :
        Broker → (proxy_id : Text) → ℕ → Result (Text × Text) → Broker × Result DeliveredSecrets
    unfolding redeem_proxy_spent
    redeem_proxy_parsed b proxy_id now (err e) = (b, err e)
    redeem_proxy_parsed b proxy_id now (ok (id, digest)) =
        redeem_proxy_spent b (spend c wrong_proxy b.proxy_caps id digest proxy_id now)

    unfoldable pub redeem_proxy_capability :
        Broker → (token proxy_id : Text) → ℕ → Broker × Result DeliveredSecrets
    unfolding redeem_proxy_parsed
    redeem_proxy_capability b token proxy_id now =
        redeem_proxy_parsed b proxy_id now (parse_token c token)

  unfoldable pub reassert_record :
      (digest proxy_id : Text) → ℕ → Option CapRecord → Result CapabilityGrant
  reassert_record digest proxy_id now none = err bad_capability
  reassert_record digest proxy_id now (some r) =
      if not (c.ct_eq r.digest digest)
      then err bad_capability
      else if r.revoked
      then err capability_revoked
      else if leb r.grant.expires_at now
      then err capability_expired
      else if not (text_eq r.grant.holder proxy_id)
      then err wrong_proxy
      else if not (may_receive_secrets r.grant.author_class)
      then err outsider_refused
      else ok r.grant

  unfoldable pub reassert_proxy_capability :
      Broker → (token proxy_id : Text) → ℕ → Result CapabilityGrant
  unfolding reassert_record
  reassert_proxy_capability b token proxy_id now = do
    p ← parse_token c token
    reassert_record p.1 proxy_id now (get p.0 b.proxy_caps)
