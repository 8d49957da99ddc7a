-- ===== src/Secrets/Capability/Spends.antt =====
-- crates/hull-ci-secrets/src/broker.rs: the part of a redemption that the registry's lock guards.
use hull_ci.Base.{
  ℕ, ◌<◌, ◌≡◌, refl, true, false, some, Text, text_eq, text_eq_iff, text_keys, get, insert, leb,
  arith, Bool-cases, Option-cases, inl, inr,
}
use hull_ci.Proxy.Grant.{Crypto}
use hull_ci.Secrets.Error.{ok, SecretError}
use hull_ci.Secrets.Capability.{
  CapabilityGrant, CapRecord, Registry, spend, spend_found, spend_record,
}

-- What was spent.
pub record Spends (reg : Registry) (id digest holder : Text) (now : ℕ) (out : Registry)
    (g : CapabilityGrant) : Type 0 where
  pub entry : CapRecord
  pub found : get id reg ≡ some entry
  pub authentic : entry.digest ≡ digest
  pub standing : entry.revoked ≡ false
  pub unspent : entry.consumed ≡ false
  pub timely : now < entry.grant.expires_at
  pub held : entry.grant.holder ≡ holder
  pub grants : entry.grant ≡ g
  pub after : out ≡ insert id (record entry { consumed = true }) reg

module _ (c : Crypto) (wrong : SecretError) (reg : Registry) (id digest holder : Text) (now : ℕ)
    (g : CapabilityGrant) where
  spend_record-Spends :
      (r : CapRecord)
      → get id reg ≡ some r
      → (spend_record c wrong reg id digest holder now r).1 ≡ ok g
      → Spends reg id digest holder now (spend_record c wrong reg id digest holder now r).0 g
  unfolding spend_record
  spend_record-Spends r f h = elim (Bool-cases (c.ct_eq r.digest digest)) [
    | inr e ↦ let bad = rw e at h in absurd (ground arith)
    | inl e ↦ elim (Bool-cases r.revoked) [
      | inl e1 ↦ let bad = rw (e, e1) at h in absurd (ground arith)
      | inr e1 ↦ elim (Bool-cases r.consumed) [
        | inl e2 ↦ let bad = rw (e, e1, e2) at h in absurd (ground arith)
        | inr e2 ↦ elim (Bool-cases (leb r.grant.expires_at now)) [
          | inl e3 ↦ let bad = rw (e, e1, e2, e3) at h in absurd (ground arith)
          | inr e3 ↦ elim (Bool-cases (text_eq r.grant.holder holder)) [
            | inr e4 ↦ let bad = rw (e, e1, e2, e3, e4) at h in absurd (ground arith)
            | inl e4 ↦ record {
              entry = r;
              found = f;
              authentic = (c.ct_eq_iff r.digest digest).0 e;
              standing = e1;
              unspent = e2;
              timely = ground arith;
              held = (text_eq_iff r.grant.holder holder).0 e4;
              grants = let done = rw (e, e1, e2, e3, e4) at h in ground arith;
              after = rw (e, e1, e2, e3, e4) refl;
            }
          ]
        ]
      ]
    ]
  ]

  pub spend-Spends :
      (spend c wrong reg id digest holder now).1 ≡ ok g
      → Spends reg id digest holder now (spend c wrong reg id digest holder now).0 g
  unfolding spend
  spend-Spends h = elim (Option-cases (get id reg)) [
    | inl f ↦ let bad = rw (f, spend_found) at h in absurd (ground arith)
    | inr (r, f) ↦ rw (f, spend_found) (spend_record-Spends r f (rw (f, spend_found) at h))
  ]
