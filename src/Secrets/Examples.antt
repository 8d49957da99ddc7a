-- ===== src/Secrets/Examples.antt =====
-- crates/hull-ci-secrets/src: the theorems on the broker, the labels and the masking at small inputs.
use hull_ci.Base.{
  ◌≤◌, ◌≡◌, refl, ◌≢◌, false, true, List, [], ◌∷◌, none, Text, lit, arith, length, All, any,
  text_eq, ◌==◌,
}
use hull_ci.Proxy.Grant.Shifting.{shifting}
use hull_ci.Proxy.Grant.{strip_prefix, split_once}
use hull_ci.Secrets.Error.{wrong_node, ok}
use hull_ci.Secrets.Fixture.{
  prefixing, acme, token_name, provisioned, stocked, request, cap_id, secret, token, armed,
  delivery, delivers, misrouted,
}
use hull_ci.Secrets.Capability.{token_prefix, parse_token, mint_token}
use hull_ci.Secrets.Context.Injective.{IsShort, associated_data-inj}
use hull_ci.Secrets.Broker.{provision, redeem, revoke_tenant, Broker}
use hull_ci.Secrets.Broker.Used.{Used}
use hull_ci.Secrets.Broker.Delivered.{Redeems, redeem-Redeems}
use hull_ci.Secrets.Broker.Refused.{is_early, redeem-refused}
use hull_ci.Secrets.Broker.Spent
use hull_ci.Secrets.Broker.Spent.{redeem_once}
use hull_ci.Secrets.Broker.Revoked
use hull_ci.Secrets.Broker.Revoked.{NothingFor, revoke_tenant-NothingFor}
use hull_ci.Secrets.Broker.Stored.{Values}
use hull_ci.Secrets.Broker.Changes.{Holding}
use hull_ci.Secrets.Broker.Refines.{IsWellDrawn, meaning, Used-Holding}
use hull_ci.Secrets.Mask.{masker, mask_bytes, min_maskable_len}
use hull_ci.Secrets.Mask.Hidden.{contains, masker-hides}

redeem-Redeems_example : Redeems shifting prefixing armed token (lit "node-1") [] 1001 delivery
redeem-Redeems_example =
    redeem-Redeems shifting prefixing armed token (lit "node-1") [] 1001 delivery delivers

node_is_early : is_early wrong_node ≡ true
unfolding is_early
node_is_early = refl

-- Asked for by another node, the capability is not spent.
redeem-refused_example : (redeem shifting prefixing armed token (lit "node-2") [] 1001).0 ≡ armed
redeem-refused_example =
    redeem-refused shifting prefixing armed token (lit "node-2") [] 1001 wrong_node misrouted
      node_is_early

abbrev spent : Broker
spent = (redeem shifting prefixing armed token (lit "node-1") [] 1001).0

parses : parse_token shifting token ≡ ok (cap_id, secret)
unfolding parse_token mint_token token_prefix strip_prefix split_once lit
parses = refl

-- The tenant's other secrets are deleted, and the same token is shown again.
redeem_once_example : (redeem shifting prefixing spent token (lit "node-1") [] 1002).1 ≢ ok delivery
redeem_once_example =
    redeem_once shifting prefixing armed spent token (lit "node-1") token (lit "node-1") [] [] 1001
      1002 cap_id secret secret delivery delivery delivers parses Spent.After.here parses

revoke_tenant-NothingFor_example : NothingFor shifting prefixing acme (revoke_tenant armed acme).0
revoke_tenant-NothingFor_example =
    revoke_tenant-NothingFor shifting prefixing armed (revoke_tenant armed acme).0 acme
      Revoked.After.here

abbrev nothing : Values
nothing p = none

abbrev stocking : Used shifting prefixing provisioned stocked
stocking = Used.puts provisioned acme token_name (lit "hunter22") _

holds_nothing : Holding prefixing nothing provisioned
unfolding provision
holds_nothing = record { kept = tt; present = λ p v h. absurd (ground arith) }

drawn : IsWellDrawn stocking
unfolding IsWellDrawn
drawn = record { dek_bytes = refl; value_nonce_bytes = refl; wrap_nonce_bytes = refl }

Used-Holding_example : Holding prefixing (meaning stocking nothing) stocked
Used-Holding_example = Used-Holding nothing stocking drawn holds_nothing

abbrev arming : Used shifting prefixing stocked armed
arming = Used.mints stocked request cap_id secret 1000

abbrev domain : Text
domain = lit "hull-ci/test/v1"

domain-IsShort : IsShort domain
unfolding lit
domain-IsShort = omega arith

fields-AllIsShort : All IsShort (acme ∷ token_name ∷ [])
unfolding lit
fields-AllIsShort = (omega arith, (omega arith, tt))

associated_data-inj_example :
    (domain ≡ domain) × ((acme ∷ token_name ∷ []) ≡ (acme ∷ token_name ∷ []))
associated_data-inj_example =
    associated_data-inj domain domain (acme ∷ token_name ∷ []) (acme ∷ token_name ∷ [])
      domain-IsShort domain-IsShort fields-AllIsShort fields-AllIsShort refl

abbrev both : List Text
both = lit "short" ∷ lit "hunter22" ∷ []

delivered : any (λ v. text_eq v (lit "hunter22")) both ≡ true
unfolding any text_eq lit
delivered = refl

long_enough : min_maskable_len ≤ length (lit "hunter22")
unfolding lit
long_enough = omega arith

no_star : any (λ c. c == b'*') (lit "hunter22") ≡ false
unfolding any lit
no_star = refl

masker-hides_example :
    contains (lit "hunter22") (mask_bytes (masker both) (lit "login hunter22hunter22 done")) ≡ false
masker-hides_example =
    masker-hides both (lit "hunter22") (lit "login hunter22hunter22 done") delivered long_enough
      no_star
