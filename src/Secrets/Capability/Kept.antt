-- ===== src/Secrets/Capability/Kept.antt =====
-- crates/hull-ci-secrets/src/broker.rs: what spending and revoking keep of every capability.
use hull_ci.Base.{
  ℕ, ◌≡◌, refl, Bool, true, not, ◌&&◌, [], ◌∷◌, Text, text_keys, get, insert, arith, Bool-cases,
  Option-cases, inl, inr, ◌⊎◌, Holds, Holds-get, Holds-insert,
}
use hull_ci.Proxy.Grant.{Crypto}
use hull_ci.Secrets.Error.{SecretError, err}
use hull_ci.Secrets.Capability.{
  CapabilityGrant, CapRecord, Registry, spend, spend_found, spend_record, revoke, revoke_found,
  revoke_if, revoke_where,
}

spend_record-cases :
    (c : Crypto) (wrong : SecretError) (reg : Registry) (id digest holder : Text) (now : ℕ)
    (r : CapRecord)
    → ((spend_record c wrong reg id digest holder now r).0 ≡ reg)
      ⊎ ((spend_record c wrong reg id digest holder now r).0
          ≡ insert id (record r { consumed = true }) reg)
unfolding spend_record
spend_record-cases c wrong reg id digest holder now r = ground arith

module _ (P : Text → CapRecord → Type 0)
    (spent : (id : Text) (r : CapRecord) → P id r → P id (record r { consumed = true }))
    (ended : (id : Text) (r : CapRecord) → P id r → P id (record r { revoked = true })) where
  pub spend-Holds :
      (c : Crypto) (wrong : SecretError) (reg : Registry) (id digest holder : Text) (now : ℕ)
      → Holds P reg
      → Holds P (spend c wrong reg id digest holder now).0
  unfolding spend
  spend-Holds c wrong reg id digest holder now h = elim (Option-cases (get id reg)) [
    | inl f ↦ rw (f, spend_found) h
    | inr (r, f) ↦
        rw (f, spend_found)
          (elim (spend_record-cases c wrong reg id digest holder now r) [
            | inl e ↦ rw e h
            | inr e ↦ rw e (Holds-insert P reg id _ (spent id r (Holds-get P reg id r h f)) h)
          ])
  ]

  pub revoke-Holds : (reg : Registry) (id : Text) → Holds P reg → Holds P (revoke reg id).0
  unfolding revoke
  revoke-Holds reg id h = elim (Option-cases (get id reg)) [
    | inl f ↦ rw (f, revoke_found) h
    | inr (r, f) ↦
        rw (f, revoke_found) (Holds-insert P reg id _ (ended id r (Holds-get P reg id r h f)) h)
  ]

  pub revoke_where-Holds :
      (p : CapabilityGrant → Bool) (reg : Registry) → Holds P reg → Holds P (revoke_where p reg).0
  unfolding revoke_where revoke_if
  revoke_where-Holds p [] h = tt
  revoke_where-Holds p ((id, r) ∷ reg) h = elim (Bool-cases (p r.grant && not r.revoked)) [
    | inl e ↦ rw e (ended id r h.0, revoke_where-Holds p reg h.1)
    | inr e ↦ rw e (h.0, revoke_where-Holds p reg h.1)
  ]

spend_record_err-same :
    (c : Crypto) (wrong : SecretError) (reg : Registry) (id digest holder : Text) (now : ℕ)
    (e : SecretError) (r : CapRecord)
    → (spend_record c wrong reg id digest holder now r).1 ≡ err e
    → (spend_record c wrong reg id digest holder now r).0 ≡ reg
unfolding spend_record
spend_record_err-same c wrong reg id digest holder now e r h = ground arith

-- A spending that is refused changes nothing.
pub spend_err-same :
    (c : Crypto) (wrong : SecretError) (reg : Registry) (id digest holder : Text) (now : ℕ)
    {e : SecretError}
    → (spend c wrong reg id digest holder now).1 ≡ err e
    → (spend c wrong reg id digest holder now).0 ≡ reg
unfolding spend spend_found
spend_err-same c wrong reg id digest holder now {e} h = elim (Option-cases (get id reg)) [
  | inl missing ↦ rw missing refl
  | inr (r, found) ↦
      rw found (spend_record_err-same c wrong reg id digest holder now e r (rw found at h))
]
