-- ===== src/Proxy/Grant/Authorise.antt =====
-- crates/hull-ci-proxy/src/grant.rs: who is authorised, and for what.
use hull_ci.Base.{
  ℕ, ◌<◌, ◌≡◌, refl, Bool, true, false, not, List, some, Text, text_keys, get, put, get-put_self,
  leb, length, if◌then◌else◌, arith, Bool-cases, Option-cases, inl, inr, ap, ◌∙◌, sym,
}
use hull_ci.Proxy.RateLimit.{RateLimit, TokenBucket, new_bucket, take, refill}
use hull_ci.Proxy.Grant.{
  Crypto, id_len, secret_len, Grant, Record, Registry, Authorised, granted, parse, mint, authorise,
  authorise_parsed, authorise_found, authorise_record, charge,
}
use hull_ci.Proxy.Grant.Parse.{parse-mint_token}

-- What it takes to be authorised, and what it leaves.
pub record IsAuthorised (c : Crypto) (reg : Registry) (token : Text) (now : ℕ) (g : Grant)
    (out : Registry) : Type 0 where
  pub id : Text
  pub digest : Text
  pub entry : Record
  pub parsed : parse c token ≡ some (id, digest)
  pub found : get id reg ≡ some entry
  pub authentic : entry.digest ≡ digest
  pub live : entry.is_revoked ≡ false
  pub in_time : now < entry.grant.expires_at
  pub charged : (take entry.bucket now).1 ≡ true
  pub same_grant : g ≡ entry.grant
  pub paid : out ≡ put id (record entry { bucket = (take entry.bucket now).0 }) reg

charge-granted :
    (c : Crypto) (reg : Registry) (id : Text) (r : Record) (t : TokenBucket × Bool) (g : Grant)
    → (charge c reg id r t).1 ≡ granted g
    → (t.1 ≡ true)
      × (g ≡ r.grant)
      × ((charge c reg id r t).0 ≡ put id (record r { bucket = t.0 }) reg)
unfolding charge
charge-granted c reg id r (b, true) g h = (refl, ground arith, refl)
charge-granted c reg id r (b, false) g h = absurd (ground arith)

-- The last of three answers.
third {ℓ} :
    {A : Type ℓ} (a b c : Bool) (w x y z : A)
    → a ≡ true
    → b ≡ false
    → c ≡ false
    → (if not a then w else if b then x else if c then y else z) ≡ z
third true false false w x y z h k l = refl
third false b c w x y z h k l = absurd (ground arith)
third true true c w x y z h k l = absurd (ground arith)
third true false true w x y z h k l = absurd (ground arith)

module _ (c : Crypto) (reg : Registry) (now : ℕ) where
  authorise_record-charge :
      (id digest : Text) (r : Record)
      → c.ct_eq r.digest digest ≡ true
      → r.is_revoked ≡ false
      → leb r.grant.expires_at now ≡ false
      → authorise_record c reg id digest now r ≡ charge c reg id r (take r.bucket now)
  unfolding authorise_record
  authorise_record-charge id digest r h k l =
      third (c.ct_eq r.digest digest) r.is_revoked (leb r.grant.expires_at now) _ _ _ _ h k l

  authorise_record-granted :
      (token id digest : Text) (r : Record) (g : Grant)
      → parse c token ≡ some (id, digest)
      → get id reg ≡ some r
      → (authorise_record c reg id digest now r).1 ≡ granted g
      → IsAuthorised c reg token now g (authorise_record c reg id digest now r).0
  unfolding authorise_record
  authorise_record-granted token id digest r g p f h = elim (Bool-cases (c.ct_eq r.digest digest)) [
    | inr e ↦ let bad = rw e at h in absurd (ground arith)
    | inl authentic ↦ elim (Bool-cases r.is_revoked) [
      | inl e ↦ let bad = rw (authentic, e) at h in absurd (ground arith)
      | inr live ↦ elim (Bool-cases (leb r.grant.expires_at now)) [
        | inl e ↦ let bad = rw (authentic, live, e) at h in absurd (ground arith)
        | inr timely ↦
            let done = authorise_record-charge id digest r authentic live timely in
            let (charged, same, paid) =
              charge-granted c reg id r (take r.bucket now) g
                (ap (λ (x : Registry × Authorised). x.1) (sym done) ∙ h) in
            record {
              id = id;
              digest = digest;
              entry = r;
              parsed = p;
              found = f;
              authentic = (c.ct_eq_iff r.digest digest).0 authentic;
              live = live;
              in_time = ground arith;
              charged = charged;
              same_grant = same;
              paid = ap (λ (x : Registry × Authorised). x.0) done ∙ paid;
            }
      ]
    ]
  ]

-- A request is authorised only by a token whose id is that of a grant in the registry and whose
-- secret has the digest that was kept with it, while the grant is neither revoked nor expired and its
-- bucket has a token left; the answer is that grant, and the registry changes by the token that is
-- taken from its bucket alone.
pub authorise-IsAuthorised :
    (c : Crypto) (reg : Registry) (now : ℕ) (token : Text) (g : Grant)
    → (authorise c reg token now).1 ≡ granted g
    → IsAuthorised c reg token now g (authorise c reg token now).0
unfolding authorise
authorise-IsAuthorised c reg now token g h = elim (Option-cases (parse c token)) [
  | inl e ↦ let bad = rw (e, authorise_parsed) at h in absurd (ground arith)
  | inr ((id, digest), e) ↦ elim (Option-cases (get id reg)) [
    | inl f ↦ let bad = rw (e, authorise_parsed, f, authorise_found) at h in absurd (ground arith)
    | inr (r, f) ↦
        rw (e, authorise_parsed, f, authorise_found)
          (authorise_record-granted c reg now token id digest r g e f
            (rw (e, authorise_parsed, f, authorise_found) at h))
  ]
]

new_bucket-take :
    (rate : RateLimit) (now : ℕ) → 0 < rate.burst → (take (new_bucket rate) now).1 ≡ true
unfolding take refill
new_bucket-take rate now h = ground arith

charge-true :
    (c : Crypto) (reg : Registry) (id : Text) (r : Record) (t : TokenBucket × Bool)
    → t.1 ≡ true
    → (charge c reg id r t).1 ≡ granted r.grant
unfolding charge
charge-true c reg id r (b, true) h = refl
charge-true c reg id r (b, false) h = absurd (ground arith)

abbrev pub minted_record :
    Crypto → (id secret tenant job_id : Text) → List Text → (expires_at : ℕ) → RateLimit → Record
minted_record c id secret tenant job_id upstreams expires_at rate = record {
  grant = record {
    grant_id = id;
    tenant = tenant;
    job_id = job_id;
    upstreams = upstreams;
    expires_at = expires_at;
    rate = rate;
  };
  digest = c.hash secret;
  is_revoked = false;
  bucket = new_bucket rate;
}

later : (expires_at now : ℕ) → now < expires_at → leb expires_at now ≡ false
later expires_at now h = ground arith

pub mint-authorise :
    (c : Crypto) (reg : Registry) (id secret tenant job_id : Text) (upstreams : List Text)
    (expires_at now : ℕ) (rate : RateLimit)
    → length id ≡ id_len
    → length secret ≡ secret_len
    → now < expires_at
    → 0 < rate.burst
    → let m = mint c reg id secret tenant job_id upstreams expires_at rate in
      (authorise c m.0 m.1 now).1 ≡ granted m.2
unfolding authorise mint
mint-authorise c reg id secret tenant job_id upstreams expires_at now rate h k before some_left =
    let m = mint c reg id secret tenant job_id upstreams expires_at rate in
    let r = minted_record c id secret tenant job_id upstreams expires_at rate in
    rw (parse-mint_token c id secret h k, authorise_parsed, get-put_self id r reg, authorise_found)
      (ap (λ (x : Registry × Authorised). x.1)
          (authorise_record-charge c m.0 now id (c.hash secret) r
            ((c.ct_eq_iff (c.hash secret) (c.hash secret)).1 refl) refl
            (later expires_at now before))
        ∙ charge-true c m.0 id r (take (new_bucket rate) now) (new_bucket-take rate now some_left))
