-- ===== src/Secrets/Capability.antt =====
-- crates/hull-ci-secrets/src/capability.rs: the token, what a capability authorises, and the registry
-- of capabilities. The fields of a node's capability and of a package proxy's are the same but for the
-- name of the one who may redeem it, which is `holder` here.
pub mod Spends
pub mod Kept
use hull_ci.Base.{
  ℕ, ◌+◌, ◌≡◌, Bool, true, false, not, ◌&&◌, List, [], ◌∷◌, ◌++◌, map, keep, Option, none, some,
  Text, lit, text_eq, text_keys, Eq, get, insert, count, leb, ltb, length, ◌==◌, if◌then◌else◌,
}
use hull_ci.Proto.Verdict.{AuthorClass}
use hull_ci.Proxy.Grant.{Crypto, strip_prefix, split_once}
use hull_ci.Secrets.Error.{
  Result, ok, err, SecretError, bad_capability, capability_revoked, capability_consumed,
  capability_expired,
}

abbrev pub default_ttl_secs : ℕ
default_ttl_secs = 60

abbrev pub id_len : ℕ
id_len = 16

abbrev pub secret_len : ℕ
secret_len = 32

unfoldable pub token_prefix : Text
token_prefix = lit "hcap_"

pub record CapabilityGrant : Type 0 where
  pub cap_id : Text
  pub tenant : Text
  pub job_id : Text
  pub holder : Text
  pub names : List Text
  pub author_class : AuthorClass
  pub expires_at : ℕ

pub record CapRecord : Type 0 where
  pub grant : CapabilityGrant
  pub digest : Text
  pub consumed : Bool
  pub revoked : Bool

abbrev pub Registry : Type 0
Registry = List (Text × CapRecord)

module _ (c : Crypto) where
  unfoldable pub mint_token : (id secret : Text) → Text
  mint_token id secret = token_prefix ++ c.encode id ++ b'.' ∷ c.encode secret

  parse_secret : Text → Option Text → Result (Text × Text)
  parse_secret id none = err bad_capability
  parse_secret id (some secret) =
      if length secret == secret_len then ok (id, c.hash secret) else err bad_capability

  parse_id : Option Text → Text → Result (Text × Text)
  unfolding parse_secret
  parse_id none secret_hex = err bad_capability
  parse_id (some id) secret_hex =
      if length id == id_len then parse_secret id (c.decode secret_hex) else err bad_capability

  parse_halves : Option (Text × Text) → Result (Text × Text)
  unfolding parse_id
  parse_halves none = err bad_capability
  parse_halves (some (id_hex, secret_hex)) = parse_id (c.decode id_hex) secret_hex

  parse_body : Option Text → Result (Text × Text)
  unfolding parse_halves
  parse_body none = err bad_capability
  parse_body (some body) = parse_halves (split_once body)

  unfoldable pub parse_token : Text → Result (Text × Text)
  unfolding parse_body
  parse_token token = parse_body (strip_prefix token_prefix token)

  unfoldable pub mint_record : (id secret : Text) → CapabilityGrant → Text × CapRecord
  unfolding mint_token
  mint_record id secret grant = (
    mint_token id secret,
    record {
      grant = record grant { cap_id = id };
      digest = c.hash secret;
      consumed = false;
      revoked = false;
    },
  )

  -- What a redemption does under the lock of the registry. `wrong` is the refusal of another holder.
  spend_record :
      SecretError
      → Registry
      → (id digest holder : Text) → ℕ
      → CapRecord
      → Registry × Result CapabilityGrant
  spend_record wrong reg id digest holder now r =
      if not (c.ct_eq r.digest digest)
      then (reg, err bad_capability)
      else if r.revoked
      then (reg, err capability_revoked)
      else if r.consumed
      then (reg, err capability_consumed)
      else if leb r.grant.expires_at now
      then (reg, err capability_expired)
      else if not (text_eq r.grant.holder holder)
      then (reg, err wrong)
      else (insert id (record r { consumed = true }) reg, ok r.grant)

  spend_found :
      SecretError
      → Registry
      → (id digest holder : Text) → ℕ
      → Option CapRecord
      → Registry × Result CapabilityGrant
  unfolding spend_record
  spend_found wrong reg id digest holder now none = (reg, err bad_capability)
  spend_found wrong reg id digest holder now (some r) =
      spend_record wrong reg id digest holder now r

  unfoldable pub spend :
      SecretError → Registry → (id digest holder : Text) → ℕ → Registry × Result CapabilityGrant
  unfolding spend_found
  spend wrong reg id digest holder now = spend_found wrong reg id digest holder now (get id reg)

-- `retain(|_, r| r.grant.expires_at > now)`.
unfoldable pub sweep : ℕ → Registry → Registry
unfolding keep
sweep now reg = keep (λ (e : Text × CapRecord). ltb now e.1.grant.expires_at) reg

revoke_found : Registry → Text → Option CapRecord → Registry × Bool
revoke_found reg id none = (reg, false)
revoke_found reg id (some r) = (insert id (record r { revoked = true }) reg, true)

unfoldable pub revoke : Registry → Text → Registry × Bool
unfolding revoke_found
revoke reg id = revoke_found reg id (get id reg)

revoke_if : (CapabilityGrant → Bool) → Text × CapRecord → Text × CapRecord
revoke_if p (id, r) = (id, if p r.grant && not r.revoked then record r { revoked = true } else r)

-- The loops that revoke every capability of a tenant or of a job, and count them.
unfoldable pub revoke_where : (CapabilityGrant → Bool) → Registry → Registry × ℕ
unfolding revoke_if count
revoke_where p reg =
    (map (revoke_if p) reg, count (λ (e : Text × CapRecord). p e.1.grant && not e.1.revoked) reg)
