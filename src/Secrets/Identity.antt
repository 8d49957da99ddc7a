-- ===== src/Secrets/Identity.antt =====
-- crates/hull-ci-secrets/src/identity.rs: the keys of the nodes, and signed redemptions. Ed25519 and
-- the hexadecimal encoding are parameters.
pub mod Enrolled
use hull_ci.Base.{
  ℕ, ◌+◌, ◌-◌, Bool, true, false, not, List, [], ◌∷◌, ◌++◌, keep, Option, none, some, Text, lit,
  text_eq, text_keys, decimal, Eq, get, insert, ltb, length, ◌==◌, if◌then◌else◌,
}
use hull_ci.Proxy.Grant.{Crypto}
use hull_ci.Secrets.Error.{
  Result, ok, err, ◌>>=◌, ◌>>◌, bad_node_signature, stale_redemption, unenrolled_node,
  key_already_enrolled,
}
use hull_ci.Secrets.Context.{associated_data}

-- `VerifyingKey::from_bytes` takes the key, and `verify` the signature of the payload under it.
pub record Signing : Type 0 where
  pub is_key : (key : Text) → Bool
  pub verifies : (key payload signature : Text) → Bool

abbrev pub max_skew_secs : ℕ
max_skew_secs = 60

pub record SignedRedemption : Type 0 where
  pub token : Text
  pub job_id : Text
  pub requested : List Text
  pub nonce : Text
  pub issued_at : ℕ
  pub public_key : Text
  pub signature : Text

-- The name of the node under each public key.
abbrev pub NodeRegistry : Type 0
NodeRegistry = List (Text × Text)

enrol_found : NodeRegistry → (node_id key : Text) → Option Text → Result NodeRegistry
unfolding keep
enrol_found by_key node_id key (some existing) =
    if text_eq existing node_id then ok by_key else err (key_already_enrolled existing node_id)
enrol_found by_key node_id key none =
    ok (insert key node_id (keep (λ (e : Text × Text). not (text_eq e.1 node_id)) by_key))

unfoldable pub enrol : NodeRegistry → (node_id key : Text) → Result NodeRegistry
unfolding enrol_found
enrol by_key node_id key = enrol_found by_key node_id key (get key by_key)

unfoldable pub revoke : NodeRegistry → (node_id : Text) → NodeRegistry × Bool
unfolding keep
revoke by_key node_id =
    let rest = keep (λ (e : Text × Text). not (text_eq e.1 node_id)) by_key in
    (rest, not (length rest == length by_key))

unfoldable pub resolve : NodeRegistry → (key : Text) → Option Text
resolve by_key key = get key by_key

-- `u64::abs_diff`.
abs_diff : ℕ → ℕ → ℕ
abs_diff m n = if ltb m n then n - m else m - n

node_or_unenrolled : Text → Option Text → Result Text
node_or_unenrolled shown none = err (unenrolled_node shown)
node_or_unenrolled shown (some node_id) = ok node_id

module _ (c : Crypto) where
  unfoldable pub signing_payload :
      (token job_id : Text)
      → (requested : List Text) → (nonce : Text) → (issued_at : ℕ) → (public_key : Text) → Text
  signing_payload token job_id requested nonce issued_at public_key =
      associated_data (lit "hull-ci/node-redemption/v1") (
        (token ∷ job_id ∷ c.encode nonce ∷ decimal issued_at ∷ c.encode public_key ∷ [])
        ++ requested)

  abbrev pub payload_of : SignedRedemption → Text
  payload_of r = signing_payload r.token r.job_id r.requested r.nonce r.issued_at r.public_key

  unfoldable pub verify : Signing → NodeRegistry → SignedRedemption → ℕ → Result Text
  unfolding abs_diff node_or_unenrolled
  verify s by_key r now =
      if not (s.is_key r.public_key)
      then err bad_node_signature
      else if not (s.verifies r.public_key (payload_of r) r.signature)
      then err bad_node_signature
      else if ltb max_skew_secs (abs_diff now r.issued_at)
      then err (stale_redemption (abs_diff now r.issued_at))
      else node_or_unenrolled (c.encode r.public_key) (get r.public_key by_key)
