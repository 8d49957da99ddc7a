-- ===== src/Proxy/Grant/Used.antt =====
-- crates/hull-ci-proxy/src/grant.rs: the operations on a registry, and what they keep.
use hull_ci.Base.{
  ℕ, ◌≡◌, refl, Bool, true, List, [], Option, none, some, Text, text_keys, get, put, keep,
}
use hull_ci.Proxy.RateLimit.{RateLimit, TokenBucket}
use hull_ci.Proxy.Grant.{
  Crypto, Record, Registry, mint, authorise, revoke, ids_of_job, erase_all, revoke_job, sweep,
}
use hull_ci.Proxy.Grant.Authorise.{minted_record}
use hull_ci.Proxy.Grant.Holds.{
  Holds, Holds-get, Holds-put, Holds-erase_all, Holds-keep, authorise_lasts, revoke_lasts,
}

-- What is asked of a registry.
pub data Used (c : Crypto) : Registry → Registry → Type 0 where
  mints :
      (reg : Registry) (id secret tenant job_id : Text) (upstreams : List Text) (expires_at : ℕ)
      (rate : RateLimit)
      → Used c reg (mint c reg id secret tenant job_id upstreams expires_at rate).0
  authorises : (reg : Registry) (token : Text) (now : ℕ) → Used c reg (authorise c reg token now).0
  revokes : (reg : Registry) (id : Text) → Used c reg (revoke reg id).0
  ends_job : (reg : Registry) (job_id : Text) → Used c reg (revoke_job reg job_id).0
  sweeps : (reg : Registry) (now : ℕ) → Used c reg (sweep reg now).0

-- The registries that come of an empty one.
pub data Reach (c : Crypto) : Registry → Type 0 where
  empty : Reach c []
  next : {reg out : Registry} → Reach c reg → Used c reg out → Reach c out

-- The id of the grant that is minted, if one is.
unfoldable pub minted_id : {c : Crypto} {reg out : Registry} → Used c reg out → Option Text
minted_id (Used.mints reg id secret tenant job_id upstreams expires_at rate) = some id
minted_id _ = none

-- What the changes of a map keep, every operation keeps.
module _ (Q : Registry → Type 0)
    (spent : (reg : Registry) (id : Text) (r : Record) (b : TokenBucket)
      → get id reg ≡ some r
      → Q reg
      → Q (put id (record r { bucket = b }) reg))
    (ended : (reg : Registry) (id : Text) (r : Record)
      → get id reg ≡ some r
      → Q reg
      → Q (put id (record r { is_revoked = true }) reg))
    (erased : (ids : List Text) (reg : Registry) → Q reg → Q (erase_all ids reg))
    (kept : (p : Text × Record → Bool) (reg : Registry) → Q reg → Q (keep p reg)) where
  pub used_lasts :
      (c : Crypto) {reg out : Registry} (u : Used c reg out)
      → ((id secret tenant job_id : Text) (upstreams : List Text) (expires_at : ℕ)
            (rate : RateLimit)
          → minted_id u ≡ some id
          → Q reg
          → Q (put id (minted_record c id secret tenant job_id upstreams expires_at rate) reg))
      → Q reg
      → Q out
  unfolding mint revoke_job sweep minted_id
  used_lasts c (Used.mints reg id secret tenant job_id upstreams expires_at rate) fresh a =
      fresh id secret tenant job_id upstreams expires_at rate refl a
  used_lasts c (Used.authorises reg token now) fresh a =
      authorise_lasts Q spent ended c reg token now a
  used_lasts c (Used.revokes reg id) fresh a = revoke_lasts Q spent ended reg id a
  used_lasts c (Used.ends_job reg job_id) fresh a = erased (ids_of_job reg job_id) reg a
  used_lasts c (Used.sweeps reg now) fresh a = kept _ reg a

-- The same for a statement of every entry.
module _ (P : Text → Record → Type 0)
    (spent : (id : Text) (r : Record) (b : TokenBucket) → P id r → P id (record r { bucket = b }))
    (ended : (id : Text) (r : Record) → P id r → P id (record r { is_revoked = true })) where
  pub Used-Holds :
      (c : Crypto) {reg out : Registry} (u : Used c reg out)
      → ((id secret tenant job_id : Text) (upstreams : List Text) (expires_at : ℕ)
            (rate : RateLimit)
          → minted_id u ≡ some id
          → P id (minted_record c id secret tenant job_id upstreams expires_at rate))
      → Holds P reg
      → Holds P out
  Used-Holds c u fresh a =
      used_lasts (Holds P)
        (λ reg id r b f h. Holds-put P reg id _ (spent id r b (Holds-get P reg id r h f)) h)
        (λ reg id r f h. Holds-put P reg id _ (ended id r (Holds-get P reg id r h f)) h)
        (Holds-erase_all P) (Holds-keep P) c u
        (λ id secret tenant job_id upstreams expires_at rate m h.
          Holds-put P _ id _ (fresh id secret tenant job_id upstreams expires_at rate m) h)
        a
