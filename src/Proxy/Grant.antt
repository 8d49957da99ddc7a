-- ===== src/Proxy/Grant.antt =====
-- crates/hull-ci-proxy/src/grant.rs: the bearer that a job holds, and the registry of grants. The
-- crates `hex`, `blake3` and `subtle` are a parameter: `Crypto` has the calls and what the code relies
-- on. The random bytes of a new grant are arguments. A lock is held for the whole of each operation.
pub mod Parse
pub mod Authorise
pub mod Holds
pub mod Used
pub mod Distinct
pub mod Revoke
pub mod Shifting
mod Examples
use hull_ci.Base.{
  ℕ, ◌≡◌, ◌↔◌, ◌-◌, Bool, true, false, not, List, [], ◌∷◌, ◌++◌, map, keep, Option, none, some,
  Text, lit, text_eq, text_keys, Eq, get, put, erase, any, leb, ltb, length, ◌==◌, if◌then◌else◌,
}
use hull_ci.Proxy.RateLimit.{RateLimit, TokenBucket, new_bucket, take}

-- `hex::encode` and `decode`, `blake3::hash` and `ct_eq`. Hexadecimal digits have no dot, decoding
-- undoes encoding, and the comparison is that of the bytes.
pub record Crypto : Type 0 where
  pub encode : Text → Text
  pub decode : Text → Option Text
  pub hash : Text → Text
  pub ct_eq : Text → Text → Bool
  pub decode-encode : (bytes : Text) → decode (encode bytes) ≡ some bytes
  pub encode_no_dot : (bytes : Text) → any (λ c. c == b'.') (encode bytes) ≡ false
  pub ct_eq_iff : (a b : Text) → (ct_eq a b ≡ true) ↔ (a ≡ b)

abbrev pub id_len : ℕ
id_len = 16

abbrev pub secret_len : ℕ
secret_len = 32

unfoldable pub token_prefix : Text
token_prefix = lit "hpkg_"

-- `str::strip_prefix` and `str::split_once('.')`.
unfoldable pub strip_prefix : Text → Text → Option Text
strip_prefix [] s = some s
strip_prefix (p ∷ ps) [] = none
strip_prefix (p ∷ ps) (c ∷ cs) = let rest = strip_prefix ps cs in if p == c then rest else none

before_dot : ℕ → Option (Text × Text) → Option (Text × Text)
before_dot c none = none
before_dot c (some (a, b)) = some (c ∷ a, b)

unfoldable pub split_once : Text → Option (Text × Text)
unfolding before_dot
split_once [] = none
split_once (c ∷ cs) =
    let rest = before_dot c (split_once cs) in if c == b'.' then some ([], cs) else rest

pub record Grant : Type 0 where
  pub grant_id : Text
  pub tenant : Text
  pub job_id : Text
  pub upstreams : List Text
  pub expires_at : ℕ
  pub rate : RateLimit

pub data GrantError : Type 0 where
  invalid expired revoked : GrantError
  rate_limited : (limit burst : ℕ) → GrantError

pub record Record : Type 0 where
  pub grant : Grant
  pub digest : Text
  pub is_revoked : Bool
  pub bucket : TokenBucket

abbrev pub Registry : Type 0
Registry = List (Text × Record)

pub data Authorised : Type 0 where
  granted : Grant → Authorised
  failed : GrantError → Authorised

module _ (c : Crypto) where
  unfoldable pub mint_token : (id secret : Text) → Text
  mint_token id secret = token_prefix ++ c.encode id ++ b'.' ∷ c.encode secret

  -- The digest of a decoded secret of the right length.
  parse_secret : Text → Option Text → Option (Text × Text)
  parse_secret id none = none
  parse_secret id (some secret) =
      if length secret == secret_len then some (id, c.hash secret) else none

  parse_id : Option Text → Text → Option (Text × Text)
  unfolding parse_secret
  parse_id none secret_hex = none
  parse_id (some id) secret_hex =
      if length id == id_len then parse_secret id (c.decode secret_hex) else none

  parse_parts : Option (Text × Text) → Option (Text × Text)
  unfolding parse_id
  parse_parts none = none
  parse_parts (some (id_hex, secret_hex)) = parse_id (c.decode id_hex) secret_hex

  parse_body : Option Text → Option (Text × Text)
  unfolding parse_parts split_once
  parse_body none = none
  parse_body (some body) = parse_parts (split_once body)

  -- `GrantToken::parse`: the id and the digest.
  unfoldable pub parse : Text → Option (Text × Text)
  unfolding parse_body strip_prefix
  parse token = parse_body (strip_prefix token_prefix token)

  unfoldable pub mint :
      Registry
      → (id secret tenant job_id : Text) → List Text
      → (expires_at : ℕ) → RateLimit
      → Registry × Text × Grant
  unfolding mint_token
  mint reg id secret tenant job_id upstreams expires_at rate =
      let grant : Grant = record {
        grant_id = id;
        tenant = tenant;
        job_id = job_id;
        upstreams = upstreams;
        expires_at = expires_at;
        rate = rate;
      } in
      (
        put id
            (record {
              grant = grant;
              digest = c.hash secret;
              is_revoked = false;
              bucket = new_bucket rate;
            })
            reg,
        mint_token id secret,
        grant,
      )

  charge : Registry → Text → Record → TokenBucket × Bool → Registry × Authorised
  charge reg id r (bucket, true) = (put id (record r { bucket = bucket }) reg, granted r.grant)
  charge reg id r (bucket, false) = (
    put id (record r { bucket = bucket }) reg,
    failed (rate_limited r.grant.rate.per_second r.grant.rate.burst),
  )

  unfoldable pub authorise_record : Registry → Text → Text → ℕ → Record → Registry × Authorised
  unfolding charge
  authorise_record reg id digest now r =
      if not (c.ct_eq r.digest digest)
      then (reg, failed invalid)
      else if r.is_revoked
      then (reg, failed revoked)
      else if leb r.grant.expires_at now
      then (reg, failed expired)
      else charge reg id r (take r.bucket now)

  authorise_found : Registry → Text → Text → ℕ → Option Record → Registry × Authorised
  unfolding authorise_record
  authorise_found reg id digest now none = (reg, failed invalid)
  authorise_found reg id digest now (some r) = authorise_record reg id digest now r

  authorise_parsed : Registry → Option (Text × Text) → ℕ → Registry × Authorised
  unfolding authorise_found
  authorise_parsed reg none now = (reg, failed invalid)
  authorise_parsed reg (some (id, digest)) now = authorise_found reg id digest now (get id reg)

  unfoldable pub authorise : Registry → Text → ℕ → Registry × Authorised
  unfolding authorise_parsed parse
  authorise reg token now = authorise_parsed reg (parse token) now

revoke_found : Registry → Text → Option Record → Registry × Bool
revoke_found reg id none = (reg, false)
revoke_found reg id (some r) =
    if r.is_revoked then (reg, false) else (put id (record r { is_revoked = true }) reg, true)

unfoldable pub revoke : Registry → Text → Registry × Bool
unfolding revoke_found
revoke reg id = revoke_found reg id (get id reg)

unfoldable pub ids_of_job : Registry → Text → List Text
unfolding keep
ids_of_job reg job_id =
    map (λ (e : Text × Record). e.1.grant.grant_id)
      (keep (λ (e : Text × Record). text_eq e.1.grant.job_id job_id) reg)

unfoldable pub erase_all : List Text → Registry → Registry
erase_all [] reg = reg
erase_all (id ∷ ids) reg = erase_all ids (erase id reg)

unfoldable pub revoke_job : Registry → Text → Registry × ℕ
unfolding ids_of_job erase_all
revoke_job reg job_id = let ids = ids_of_job reg job_id in (erase_all ids reg, length ids)

unfoldable pub sweep : Registry → ℕ → Registry × ℕ
unfolding keep
sweep reg now =
    let live = keep (λ (e : Text × Record). ltb now e.1.grant.expires_at) reg in
    (live, length reg - length live)
