-- ===== src/Secrets/Service/Examples.antt =====
-- crates/hull-ci-secrets/src/identity.rs and service.rs: the theorems at a node's signed redemption.
use hull_ci.Base.{
  ◌≡◌, refl, ap, ◌∙◌, true, [], ◌∷◌, ◌++◌, some, Text, lit, text_eq, keep, get, insert, erase,
  decimal, decimal_fuel,
}
use hull_ci.Proxy.Grant.Shifting.{shifting, fill}
use hull_ci.Secrets.Error.{Result, ok}
use hull_ci.Secrets.Fixture.{prefixing, token, armed, delivery, delivers}
use hull_ci.Secrets.Context.{associated_data, with_lengths, be_bytes}
use hull_ci.Secrets.Identity.{
  Signing, SignedRedemption, NodeRegistry, enrol, resolve, payload_of, signing_payload, verify,
}
use hull_ci.Secrets.Identity.Enrolled.{Reach, resolve-inj}
use hull_ci.Secrets.Capability.{mint_token, token_prefix}
use hull_ci.Secrets.Broker
use hull_ci.Secrets.Broker.{Broker, DeliveredSecrets}
use hull_ci.Secrets.Service.{redeem, redeem_as, checked_job, of_job}
use hull_ci.Secrets.Service.Signed.{Delivers, redeem-Delivers}

abbrev key : Text
key = fill 32 9

-- A signature is the key and what is signed.
abbrev signing : Signing
signing = record {
  is_key = λ k. true;
  verifies = λ k payload signature. text_eq signature (k ++ payload);
}

abbrev nodes : NodeRegistry
nodes = (key, lit "node-1") ∷ []

abbrev unsigned : SignedRedemption
unsigned = record {
  token = token;
  job_id = lit "job-1";
  requested = [];
  nonce = fill 16 5;
  issued_at = 1000;
  public_key = key;
  signature = [];
}

abbrev signed : SignedRedemption
signed = record unsigned { signature = key ++ payload_of shifting unsigned }

verified : verify shifting signing nodes signed 1010 ≡ ok (lit "node-1")
unfolding verify signing_payload associated_data with_lengths be_bytes decimal decimal_fuel text_eq
    lit get mint_token token_prefix
verified = refl

checked :
    (p : Broker × Result DeliveredSecrets)
    → p.1 ≡ ok delivery
    → (checked_job (lit "job-1") p).1 ≡ ok delivery
unfolding checked_job of_job text_eq lit
checked (b, r) h = ap (λ d. (checked_job (lit "job-1") (b, d)).1) h

served : (redeem shifting prefixing signing armed nodes signed 1010 1001).1 ≡ ok delivery
unfolding redeem redeem_as
served =
    ap (λ v. (redeem_as shifting prefixing signing armed signed 1001 v).1) verified
    ∙ checked (Broker.redeem shifting prefixing armed token (lit "node-1") [] 1001) delivers

redeem-Delivers_example : Delivers shifting prefixing signing armed nodes signed 1010 1001 delivery
redeem-Delivers_example =
    redeem-Delivers shifting prefixing signing armed nodes signed 1010 1001 delivery served

enrols : enrol [] (lit "node-1") key ≡ ok nodes
unfolding enrol get insert erase keep
enrols = refl

resolves : resolve nodes key ≡ some (lit "node-1")
unfolding resolve get text_eq
resolves = refl

resolve-inj_example : key ≡ key
resolve-inj_example =
    resolve-inj nodes (lit "node-1") key key (Reach.enrols (lit "node-1") key Reach.empty enrols)
      resolves resolves
