-- ===== src/Proxy/Grant/Holds.antt =====
-- crates/hull-ci-proxy/src/grant.rs: what holds of every entry through the operations.
use hull_ci.Base.{
  ℕ, ◌≡◌, Bool, true, false, not, List, [], ◌∷◌, some, Text, text_eq, text_eq_iff, text_keys, get,
  put, erase, keep, All, leb, if◌then◌else◌, arith, Bool-cases, Option-cases, inl, inr, some_inj,
  subst,
}
use hull_ci.Proxy.RateLimit.{TokenBucket, take}
use hull_ci.Proxy.Grant.{
  Crypto, GrantError, Record, Registry, Authorised, failed, parse, authorise, authorise_parsed,
  authorise_found, authorise_record, charge, revoke, revoke_found, erase_all,
}

-- A statement of every entry that an operation leaves.
abbrev pub Holds : (Text → Record → Type 0) → Registry → Type 0
Holds P reg = All (λ (e : Text × Record). P e.0 e.1) reg

module _ (P : Text → Record → Type 0) where
  pub Holds-get :
      (reg : Registry) (id : Text) (r : Record) → Holds P reg → get id reg ≡ some r → P id r
  unfolding get
  Holds-get [] id r a h = absurd (ground arith)
  Holds-get ((j, s) ∷ reg) id r a h = elim (Bool-cases (text_eq j id)) [
    | inl hit ↦
        subst (λ k. P k r) ((text_eq_iff j id).0 hit) (subst (P j) (some_inj (rw hit at h)) a.0)
    | inr miss ↦ Holds-get reg id r a.1 (rw miss at h)
  ]

  pub Holds-put :
      (reg : Registry) (id : Text) (r : Record) → P id r → Holds P reg → Holds P (put id r reg)
  unfolding put
  Holds-put [] id r p a = (p, tt)
  Holds-put ((j, s) ∷ reg) id r p a = elim (Bool-cases (text_eq j id)) [
    | inl hit ↦ rw hit (p, a.1)
    | inr miss ↦ rw miss (a.0, Holds-put reg id r p a.1)
  ]

  pub Holds-erase : (reg : Registry) (id : Text) → Holds P reg → Holds P (erase id reg)
  unfolding erase
  Holds-erase [] id a = tt
  Holds-erase ((j, s) ∷ reg) id a = elim (Bool-cases (text_eq j id)) [
    | inl hit ↦ rw hit (Holds-erase reg id a.1)
    | inr miss ↦ rw miss (a.0, Holds-erase reg id a.1)
  ]

  pub Holds-erase_all :
      (ids : List Text) (reg : Registry) → Holds P reg → Holds P (erase_all ids reg)
  unfolding erase_all
  Holds-erase_all [] reg a = a
  Holds-erase_all (id ∷ ids) reg a = Holds-erase_all ids (erase id reg) (Holds-erase reg id a)

  pub Holds-keep : (p : Text × Record → Bool) (reg : Registry) → Holds P reg → Holds P (keep p reg)
  unfolding keep
  Holds-keep p [] a = tt
  Holds-keep p (e ∷ reg) a = elim (Bool-cases (p e)) [
    | inl hit ↦ rw hit (a.0, Holds-keep p reg a.1)
    | inr miss ↦ rw miss (Holds-keep p reg a.1)
  ]

-- A statement of a registry that lasts when the bucket or the revocation of an entry changes.
module _ (Q : Registry → Type 0)
    (spent : (reg : Registry) (id : Text) (r : Record) (b : TokenBucket)
      → get id reg ≡ some r
      → Q reg
      → Q (put id (record r { bucket = b }) reg))
    (ended : (reg : Registry) (id : Text) (r : Record)
      → get id reg ≡ some r
      → Q reg
      → Q (put id (record r { is_revoked = true }) reg)) where
  either : (b : Bool) (x y : Registry × Bool) → Q x.0 → Q y.0 → Q (if b then x else y).0
  either true x y h k = h
  either false x y h k = k

  charge_lasts :
      (c : Crypto) (reg : Registry) (id : Text) (r : Record) (t : TokenBucket × Bool)
      → get id reg ≡ some r
      → Q reg
      → Q (charge c reg id r t).0
  unfolding charge
  charge_lasts c reg id r (b, true) p a = spent reg id r b p a
  charge_lasts c reg id r (b, false) p a = spent reg id r b p a

  authorise_record_lasts :
      (c : Crypto) (reg : Registry) (id digest : Text) (now : ℕ) (r : Record)
      → get id reg ≡ some r
      → Q reg
      → Q (authorise_record c reg id digest now r).0
  unfolding authorise_record
  authorise_record_lasts c reg id digest now r p a =
      after_checks (c.ct_eq r.digest digest) r.is_revoked (leb r.grant.expires_at now) _
        (charge_lasts c reg id r (take r.bucket now) p a)
    where
      after_checks :
          (x y z : Bool) (done : Registry × Authorised)
          → Q done.0
          → Q
              (if not x
                then (reg, failed GrantError.invalid)
                else if y
                then (reg, failed GrantError.revoked)
                else if z
                then (reg, failed GrantError.expired)
                else done).0
      after_checks false y z done d = a
      after_checks true true z done d = a
      after_checks true false true done d = a
      after_checks true false false done d = d

  pub authorise_lasts :
      (c : Crypto) (reg : Registry) (token : Text) (now : ℕ)
      → Q reg
      → Q (authorise c reg token now).0
  unfolding authorise
  authorise_lasts c reg token now a = elim (Option-cases (parse c token)) [
    | inl e ↦ rw (e, authorise_parsed) a
    | inr ((id, digest), e) ↦ elim (Option-cases (get id reg)) [
      | inl f ↦ rw (e, authorise_parsed, f, authorise_found) a
      | inr (r, f) ↦
          rw (e, authorise_parsed, f, authorise_found)
            (authorise_record_lasts c reg id digest now r f a)
    ]
  ]

  pub revoke_lasts : (reg : Registry) (id : Text) → Q reg → Q (revoke reg id).0
  unfolding revoke
  revoke_lasts reg id a = elim (Option-cases (get id reg)) [
    | inl f ↦ rw (f, revoke_found) a
    | inr (r, f) ↦ rw (f, revoke_found) (either r.is_revoked _ _ a (ended reg id r f a))
  ]
