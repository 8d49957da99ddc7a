-- ===== src/Secrets/Service.antt =====
-- crates/hull-ci-secrets/src/service.rs: the broker behind the nodes' signatures.
pub mod Signed
mod Examples
use hull_ci.Base.{ℕ, Bool, true, false, Text, text_eq, if◌then◌else◌}
use hull_ci.Proxy.Grant.{Crypto}
use hull_ci.Secrets.Error.{Result, ok, err, wrong_job}
use hull_ci.Secrets.Keys.{Aead}
use hull_ci.Secrets.Identity.{Signing, NodeRegistry, SignedRedemption, verify}
use hull_ci.Secrets.Broker.{Broker, DeliveredSecrets}
use hull_ci.Secrets.Broker

of_job : (job_id : Text) → DeliveredSecrets → Result DeliveredSecrets
of_job job_id d = if text_eq d.job_id job_id then ok d else err (wrong_job d.job_id job_id)

checked_job : (job_id : Text) → Broker × Result DeliveredSecrets → Broker × Result DeliveredSecrets
unfolding of_job
checked_job job_id (b, err e) = (b, err e)
checked_job job_id (b, ok d) = (b, of_job job_id d)

module _ (c : Crypto) (a : Aead) (s : Signing) where
  redeem_as :
      Broker → SignedRedemption → (broker_now : ℕ) → Result Text → Broker × Result DeliveredSecrets
  unfolding checked_job
  redeem_as b r broker_now (err e) = (b, err e)
  redeem_as b r broker_now (ok node_id) =
      checked_job r.job_id (Broker.redeem c a b r.token node_id r.requested broker_now)

  -- `now` is the service's clock, and `broker_now` the broker's.
  unfoldable pub redeem :
      Broker
      → NodeRegistry
      → SignedRedemption
      → (now broker_now : ℕ) → Broker × Result DeliveredSecrets
  unfolding redeem_as
  redeem b nodes r now broker_now = redeem_as b r broker_now (verify c s nodes r now)
