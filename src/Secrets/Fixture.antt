-- ===== src/Secrets/Fixture.antt =====
-- crates/hull-ci-secrets/src: a broker with a secret and a capability to try the code with. The cipher puts the key and the
-- associated data before a message, and takes them off again.
use hull_ci.Base.{
  ◌≡◌, refl, [], ◌∷◌, ◌++◌, Option, none, some, Text, lit, text_eq, ap, ◌∙◌, sym, some_inj, get,
  all, any, erase, insert, keep, decimal, decimal_fuel,
}
use hull_ci.Proto.Verdict.{member, may_receive_secrets}
use hull_ci.Proxy.Grant.{strip_prefix, split_once}
use hull_ci.Proxy.Grant.Parse.{strip_prefix-append}
use hull_ci.Proxy.Grant.Shifting.{shifting, fill}
use hull_ci.Secrets.Error.{err, wrong_node, ok}
use hull_ci.Secrets.Keys.{
  Aead, current_version, provision_tenant, aead_open, aead_seal, find_kek, kek_of, last_version,
  push_version, unwrap_dek, wrap_dek,
}
use hull_ci.Secrets.Capability.{mint_token, parse_token, token_prefix, spend, mint_record, sweep}
use hull_ci.Secrets.Broker.{
  Broker, CapabilityRequest, DeliveredSecrets, provision, put_secret, mint, redeem, declare,
  hand_over, has_name, insert_name, open_all, put_sealed, sat_add_u64, wanted,
}
use hull_ci.Secrets.Context.{validate_name, associated_data, be_bytes, with_lengths}
use hull_ci.Secrets.Seal.{
  seal, get_row, is_labelled, open_sealed, put_row, value_aad, wrap_aad, same_place,
}

unfoldable pub stripped : Text → Option Text → Option Text
unfolding strip_prefix
stripped aad none = none
stripped aad (some rest) = strip_prefix aad rest

abbrev pub prefixing_decrypt : (key nonce aad sealed : Text) → Option Text
unfolding stripped strip_prefix
prefixing_decrypt key nonce aad sealed = stripped aad (strip_prefix key sealed)

pub decrypt-encrypt :
    (key nonce aad message sealed : Text)
    → some (key ++ (aad ++ message)) ≡ some sealed
    → prefixing_decrypt key nonce aad sealed ≡ some message
unfolding stripped
decrypt-encrypt key nonce aad message sealed h =
    ap (λ s. stripped aad (strip_prefix key s)) (some_inj (sym h))
    ∙ ap (stripped aad) (strip_prefix-append key (aad ++ message))
    ∙ strip_prefix-append aad message

abbrev pub prefixing : Aead
prefixing = record {
  encrypt = λ key nonce aad message. some (key ++ (aad ++ message));
  decrypt = prefixing_decrypt;
  decrypt-encrypt = decrypt-encrypt;
}

abbrev pub acme : Text
acme = lit "acme"

abbrev pub token_name : Text
token_name = lit "NPM_TOKEN"

abbrev pub provisioned : Broker
provisioned =
    provision (record { keys = []; rows = []; caps = []; proxy_caps = []; ttl_secs = 900 }) acme
      (fill 32 1)

abbrev pub stocked : Broker
stocked =
    (put_secret prefixing provisioned acme token_name (lit "hunter22")
      (record { dek = fill 32 2; value_nonce = fill 24 3; wrap_nonce = fill 24 4 })).0

abbrev pub request : CapabilityRequest
request = record {
  tenant = acme;
  job_id = lit "job-1";
  holder = lit "node-1";
  declared = token_name ∷ [];
  author_class = member;
}

abbrev pub cap_id : Text
cap_id = fill 16 1

abbrev pub secret : Text
secret = fill 32 7

abbrev pub token : Text
token = mint_token shifting cap_id secret

abbrev pub armed : Broker
armed = (mint shifting stocked request cap_id secret 1000).0

abbrev pub delivery : DeliveredSecrets
delivery = record {
  tenant = acme;
  job_id = lit "job-1";
  values = (token_name, lit "hunter22") ∷ [];
}

pub delivers : (redeem shifting prefixing armed token (lit "node-1") [] 1001).1 ≡ ok delivery
unfolding redeem lit mint_token parse_token strip_prefix token_prefix split_once spend get mint
    may_receive_secrets current_version put_secret validate_name all any text_eq seal provision
    provision_tenant erase insert keep decimal decimal_fuel declare hand_over has_name insert_name
    open_all put_sealed sat_add_u64 wanted mint_record sweep associated_data be_bytes with_lengths
    aead_open aead_seal find_kek kek_of last_version push_version unwrap_dek wrap_dek get_row
    is_labelled open_sealed put_row value_aad wrap_aad same_place prefixing_decrypt
delivers = refl

pub misrouted : (redeem shifting prefixing armed token (lit "node-2") [] 1001).1 ≡ err wrong_node
unfolding redeem lit mint_token parse_token strip_prefix token_prefix split_once spend get mint
    may_receive_secrets current_version put_secret validate_name all any text_eq seal provision
    provision_tenant erase insert keep decimal decimal_fuel declare hand_over has_name insert_name
    open_all put_sealed sat_add_u64 wanted mint_record sweep associated_data be_bytes with_lengths
    aead_open aead_seal find_kek kek_of last_version push_version unwrap_dek wrap_dek get_row
    is_labelled open_sealed put_row value_aad wrap_aad same_place prefixing_decrypt
misrouted = refl
