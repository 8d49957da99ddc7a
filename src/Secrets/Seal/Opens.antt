-- ===== src/Secrets/Seal/Opens.antt =====
-- crates/hull-ci-secrets/src/seal.rs: sealing and rewrapping beside opening.
use hull_ci.Base.{
  ℕ, ◌≡◌, refl, some, Text, text_eq_iff, length, ◌==◌, arith, Bool-cases, inl, inr, sym, ◌∙◌, subst,
  some_inj,
}
use hull_ci.Secrets.Error.{ok_inj, ok, >>=-eq-ok}
use hull_ci.Secrets.Keys.{
  Aead, Keyring, dek_len, nonce_len, current_version, aead_seal, aead_open, wrap_dek, unwrap_dek,
}
use hull_ci.Secrets.Keys.Wrapped.{
  aead_open-aead_seal, unwrap_dek-wrap_dek, unwrap_dek-length, KeepsKeks, unwrap_dek-KeepsKeks,
}
use hull_ci.Secrets.Seal.{
  SealedSecret, Draw, value_aad, wrap_aad, is_empty, is_labelled, seal, open_sealed, rewrap,
  rewrap_as,
}

-- The lengths of random bytes that the cipher and the key manager ask for.
pub record IsDrawn (draw : Draw) : Type 0 where
  pub dek_bytes : length draw.dek ≡ dek_len
  pub value_nonce_bytes : length draw.value_nonce ≡ nonce_len
  pub wrap_nonce_bytes : length draw.wrap_nonce ≡ nonce_len

-- What it takes to open a sealed secret.
pub record Opens (a : Aead) (ring : Keyring) (tenant name : Text) (s : SealedSecret) (v : Text)
    : Type 0 where
  pub tenant_is : s.tenant ≡ tenant
  pub name_is : s.name ≡ name
  pub dek : Text
  pub unwraps :
      unwrap_dek a ring tenant s.kek_version s.wrapped_dek (wrap_aad tenant name s.kek_version)
      ≡ ok dek
  pub opens : aead_open a dek s.ciphertext (value_aad tenant name) ≡ ok v

module _ (a : Aead) (ring : Keyring) (tenant name : Text) (s : SealedSecret) (v : Text) where
  pub open_sealed-Opens : open_sealed a ring tenant name s ≡ ok v → Opens a ring tenant name s v
  unfolding open_sealed is_labelled
  open_sealed-Opens h = elim (Bool-cases (is_labelled tenant name s)) [
    | inr e ↦ let bad = rw e at h in absurd (ground arith)
    | inl e ↦
        let (dek, f, g) =
          >>=-eq-ok
            (unwrap_dek a ring tenant s.kek_version s.wrapped_dek
              (wrap_aad tenant name s.kek_version))
            _ (rw e at h) in
        record {
          tenant_is = ground (arith, text_eq_iff s.tenant tenant);
          name_is = ground (arith, text_eq_iff s.name name);
          dek = dek;
          unwraps = f;
          opens = g;
        }
  ]

  pub Opens-open_sealed : Opens a ring tenant name s v → open_sealed a ring tenant name s ≡ ok v
  unfolding open_sealed is_labelled
  Opens-open_sealed o =
      rw
        (
          (text_eq_iff s.tenant tenant).1 o.tenant_is,
          (text_eq_iff s.name name).1 o.name_is,
          o.unwraps,
        )
        o.opens

-- A secret that is sealed with random bytes of the right lengths opens to its value.
pub seal-Opens :
    (a : Aead) (ring : Keyring) (tenant name value : Text) (draw : Draw) (s : SealedSecret)
    → IsDrawn draw
    → seal a ring tenant name value draw ≡ ok s
    → Opens a ring tenant name s value
unfolding seal
seal-Opens a ring tenant name value draw s d h = elim (Bool-cases (is_empty value)) [
  | inl e ↦ let bad = rw e at h in absurd (ground arith)
  | inr e ↦
      let (version, f, h1) = >>=-eq-ok (current_version ring tenant) _ (rw e at h) in
      let (ciphertext, f1, h2) =
        >>=-eq-ok (aead_seal a draw.dek draw.value_nonce value (value_aad tenant name)) _ h1 in
      let (wrapped, f2, h3) =
        >>=-eq-ok
          (wrap_dek a ring tenant version draw.dek draw.wrap_nonce (wrap_aad tenant name version)) _
          h2 in
      subst (λ x. Opens a ring tenant name x value) (ok_inj h3)
        (record {
          tenant_is = refl;
          name_is = refl;
          dek = draw.dek;
          unwraps =
              unwrap_dek-wrap_dek a ring tenant version draw.dek draw.wrap_nonce _ wrapped
                d.dek_bytes d.wrap_nonce_bytes f2;
          opens =
              aead_open-aead_seal a draw.dek draw.value_nonce value _ ciphertext d.value_nonce_bytes
                f1;
        })
]

-- A keyring that keeps the tenant's keys keeps what they open.
pub Opens-KeepsKeks :
    (a : Aead) (only : Text → Type 0) (ring later : Keyring) (tenant name : Text) (s : SealedSecret)
    (v : Text)
    → KeepsKeks only ring later
    → only tenant
    → Opens a ring tenant name s v
    → Opens a later tenant name s v
Opens-KeepsKeks a only ring later tenant name s v keeps o x = record {
  tenant_is = x.tenant_is;
  name_is = x.name_is;
  dek = x.dek;
  unwraps =
      unwrap_dek-KeepsKeks a only ring later tenant s.kek_version s.wrapped_dek _ x.dek keeps o
        x.unwraps;
  opens = x.opens;
}

-- What `rewrap` gives back opens to what its argument opens to, and has its labels.
pub record Rewraps (a : Aead) (ring : Keyring) (s u : SealedSecret) : Type 0 where
  pub same_tenant : u.tenant ≡ s.tenant
  pub same_name : u.name ≡ s.name
  pub same_value : (v : Text) → Opens a ring s.tenant s.name s v → Opens a ring s.tenant s.name u v

rewrap_as-Rewraps :
    (a : Aead) (ring : Keyring) (s u : SealedSecret) (nonce : Text) (current : ℕ)
    → length nonce ≡ nonce_len
    → rewrap_as a ring s nonce current ≡ ok (some u)
    → Rewraps a ring s u
unfolding rewrap_as
rewrap_as-Rewraps a ring s u nonce current n h = elim (Bool-cases (current == s.kek_version)) [
  | inl e ↦ let bad = rw e at h in absurd (ground arith)
  | inr e ↦
      let (dek, f, h1) =
        >>=-eq-ok
          (unwrap_dek a ring s.tenant s.kek_version s.wrapped_dek
            (wrap_aad s.tenant s.name s.kek_version))
          _ (rw e at h) in
      let (wrapped, f1, h2) =
        >>=-eq-ok (wrap_dek a ring s.tenant current dek nonce (wrap_aad s.tenant s.name current)) _
          h1 in
      subst (Rewraps a ring s) (some_inj (ok_inj h2)) (record {
        same_tenant = refl;
        same_name = refl;
        same_value = λ v x. record {
          tenant_is = refl;
          name_is = refl;
          dek = dek;
          unwraps =
              unwrap_dek-wrap_dek a ring s.tenant current dek nonce _ wrapped
                (unwrap_dek-length a ring s.tenant s.kek_version s.wrapped_dek _ dek f) n f1;
          opens =
              subst (λ k. aead_open a k s.ciphertext (value_aad s.tenant s.name) ≡ ok v)
                (ok_inj (sym x.unwraps ∙ f)) x.opens;
        };
      })
]

pub rewrap-Rewraps :
    (a : Aead) (ring : Keyring) (s u : SealedSecret) (nonce : Text)
    → length nonce ≡ nonce_len
    → rewrap a ring s nonce ≡ ok (some u)
    → Rewraps a ring s u
unfolding rewrap
rewrap-Rewraps a ring s u nonce n h =
    let (current, f, g) = >>=-eq-ok (current_version ring s.tenant) _ h in
    rewrap_as-Rewraps a ring s u nonce current n g
