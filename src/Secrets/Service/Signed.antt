-- ===== src/Secrets/Service/Signed.antt =====
-- crates/hull-ci-secrets/src/service.rs: who is given secrets.
use hull_ci.Base.{
  ℕ, ◌≡◌, Text, text_eq, text_eq_iff, arith, Bool-cases, inl, inr, subst, sym, ◌∙◌, ap,
}
use hull_ci.Proxy.Grant.{Crypto}
use hull_ci.Secrets.Error.{ok_inj, Result-cases, Result, ok, err}
use hull_ci.Secrets.Keys.{Aead}
use hull_ci.Secrets.Identity.{Signing, NodeRegistry, SignedRedemption, verify}
use hull_ci.Secrets.Identity.Enrolled.{Verifies, verify-Verifies}
use hull_ci.Secrets.Capability.{CapabilityGrant}
use hull_ci.Secrets.Broker.{Broker, DeliveredSecrets}
use hull_ci.Secrets.Broker
use hull_ci.Secrets.Broker.Delivered.{Redeems, redeem-Redeems}
use hull_ci.Secrets.Service.{redeem, redeem_as, checked_job, of_job}

-- What a signed redemption that delivers has.
pub record Delivers (c : Crypto) (a : Aead) (s : Signing) (b : Broker) (nodes : NodeRegistry)
    (r : SignedRedemption) (now broker_now : ℕ) (d : DeliveredSecrets) : Type 0 where
  pub node_id : Text
  pub verified : Verifies c s nodes r now node_id
  pub redeemed : Redeems c a b r.token node_id r.requested broker_now d
  pub same_holder : redeemed.grant.holder ≡ node_id
  pub same_job : d.job_id ≡ r.job_id

checked_inv :
    (job_id : Text) (out : Broker × Result DeliveredSecrets) (d : DeliveredSecrets)
    → (checked_job job_id out).1 ≡ ok d
    → (out.1 ≡ ok d) × (d.job_id ≡ job_id)
unfolding checked_job of_job
checked_inv job_id (b, err e) d h = absurd (ground arith)
checked_inv job_id (b, ok x) d h = elim (Bool-cases (text_eq x.job_id job_id)) [
  | inr e ↦ let bad = rw e at h in absurd (ground arith)
  | inl e ↦
      let same = rw e at h in
      (
        same,
        subst (λ (y : DeliveredSecrets). y.job_id ≡ job_id) (ok_inj same)
            ((text_eq_iff x.job_id job_id).0 e),
      )
]

-- Secrets are delivered only for a redemption that is signed, over its token, job, names and time, with
-- the key that is enrolled to the node that the capability is bound to, within a minute of the service's
-- clock, and for the job that it names.
pub redeem-Delivers :
    (c : Crypto) (a : Aead) (s : Signing) (b : Broker) (nodes : NodeRegistry) (r : SignedRedemption)
    (now broker_now : ℕ) (d : DeliveredSecrets)
    → (redeem c a s b nodes r now broker_now).1 ≡ ok d
    → Delivers c a s b nodes r now broker_now d
unfolding redeem redeem_as
redeem-Delivers c a s b nodes r now broker_now d h = elim (Result-cases (verify c s nodes r now)) [
  | inl (e, f) ↦ let bad = rw (f, redeem_as) at h in absurd (ground arith)
  | inr (node_id, f) ↦
      let (g, same) =
        checked_inv r.job_id (Broker.redeem c a b r.token node_id r.requested broker_now) d
          (rw (f, redeem_as) at h) in
      let x = redeem-Redeems c a b r.token node_id r.requested broker_now d g in
      record {
        node_id = node_id;
        verified = verify-Verifies c s nodes r now node_id f;
        redeemed = x;
        same_holder = sym (ap (λ (y : CapabilityGrant). y.holder) x.spent.grants) ∙ x.spent.held;
        same_job = same;
      }
]
