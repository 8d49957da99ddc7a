-- ===== src/Secrets/Keys/Wrapped.antt =====
-- crates/hull-ci-secrets/src/keys.rs: wrapping and unwrapping, and the keys of a keyring that changes.
use hull_ci.Base.{
  ℕ, zero, suc, ◌≡◌, refl, false, List, [], ◌∷◌, ◌++◌, Option, none, some, Text, text_eq,
  text_eq_iff, text_keys, get, insert, get-insert, ltb, length, take, drop, length-append, arith,
  Bool-cases, Option-cases, inl, inr, sym, ◌∙◌, ap, subst, some_inj,
}
use hull_ci.Secrets.Error.{ok_inj, ok, >>=-eq-ok}
use hull_ci.Secrets.Keys.{
  Aead, Keyring, TenantKeys, nonce_len, dek_len, find_kek, kek_in, kek_of, push_version, or_new,
  provision_tenant, provision_with, rotate, rotate_found, shred, shred_found, sealed_with,
  aead_seal, aead_open, wrap_dek, unwrap_dek, as_dek, ok_or,
}

take-append : (n : ℕ) (xs ys : Text) → length xs ≡ n → take n (xs ++ ys) ≡ xs
take-append zero [] ys h = refl
take-append zero (x ∷ xs) ys h = absurd (omega arith)
take-append (suc n) [] ys h = absurd (omega arith)
take-append (suc n) (x ∷ xs) ys h = ap (λ zs. x ∷ zs) (take-append n xs ys (omega arith))

drop-append : (n : ℕ) (xs ys : Text) → length xs ≡ n → drop n (xs ++ ys) ≡ ys
drop-append zero [] ys h = refl
drop-append zero (x ∷ xs) ys h = absurd (omega arith)
drop-append (suc n) [] ys h = absurd (omega arith)
drop-append (suc n) (x ∷ xs) ys h = drop-append n xs ys (omega arith)

long-ltb : (xs ys : Text) → length xs ≡ nonce_len → ltb (length (xs ++ ys)) nonce_len ≡ false
long-ltb xs ys h = ground (arith, length-append xs ys)

module _ (a : Aead) where
  sealed_inv :
      (nonce : Text) (o : Option Text) (blob : Text)
      → sealed_with nonce o ≡ ok blob
      → (sealed : Text) × (o ≡ some sealed) × (nonce ++ sealed ≡ blob)
  unfolding sealed_with
  sealed_inv nonce none blob h = absurd (ground arith)
  sealed_inv nonce (some s) blob h = (s, refl, ok_inj h)

  -- What is sealed under a key is opened under it, in the same context.
  pub aead_open-aead_seal :
      (key nonce plaintext aad blob : Text)
      → length nonce ≡ nonce_len
      → aead_seal a key nonce plaintext aad ≡ ok blob
      → aead_open a key blob aad ≡ ok plaintext
  unfolding aead_open aead_seal
  aead_open-aead_seal key nonce plaintext aad blob n h =
      let (s, e, f) = sealed_inv nonce (a.encrypt key nonce aad plaintext) blob h in
      subst (λ b. aead_open a key b aad ≡ ok plaintext) f
        (rw
          (
            long-ltb nonce s n,
            take-append nonce_len nonce s n,
            drop-append nonce_len nonce s n,
            a.decrypt-encrypt key nonce aad plaintext s e,
          )
          refl)

  pub unwrap_dek-wrap_dek :
      (ring : Keyring) (tenant : Text) (version : ℕ) (dek nonce aad wrapped : Text)
      → length dek ≡ dek_len
      → length nonce ≡ nonce_len
      → wrap_dek a ring tenant version dek nonce aad ≡ ok wrapped
      → unwrap_dek a ring tenant version wrapped aad ≡ ok dek
  unfolding wrap_dek unwrap_dek
  unwrap_dek-wrap_dek ring tenant version dek nonce aad wrapped d n h =
      let (kek, e, f) = >>=-eq-ok (kek_of ring tenant version) _ h in
      rw (e, aead_open-aead_seal kek nonce dek aad wrapped n f, as_dek, d) refl

  pub unwrap_dek-length :
      (ring : Keyring) (tenant : Text) (version : ℕ) (wrapped aad dek : Text)
      → unwrap_dek a ring tenant version wrapped aad ≡ ok dek
      → length dek ≡ dek_len
  unfolding unwrap_dek as_dek
  unwrap_dek-length ring tenant version wrapped aad dek h =
      let (kek, e, f) = >>=-eq-ok (kek_of ring tenant version) _ h in
      let (plain, e1, f1) = >>=-eq-ok (aead_open a kek wrapped aad) _ f in ground arith

-- Every key of the first keyring that `only` lets through is in the second.
abbrev pub KeepsKeks : (Text → Type 0) → Keyring → Keyring → Type 0
KeepsKeks only ring later =
    (tenant : Text) (version : ℕ) (kek : Text)
    → only tenant
    → kek_of ring tenant version ≡ ok kek
    → kek_of later tenant version ≡ ok kek

pub unwrap_dek-KeepsKeks :
    (a : Aead) (only : Text → Type 0) (ring later : Keyring) (tenant : Text) (version : ℕ)
    (wrapped aad dek : Text)
    → KeepsKeks only ring later
    → only tenant
    → unwrap_dek a ring tenant version wrapped aad ≡ ok dek
    → unwrap_dek a later tenant version wrapped aad ≡ ok dek
unfolding unwrap_dek
unwrap_dek-KeepsKeks a only ring later tenant version wrapped aad dek keeps o h =
    let (kek, e, f) = >>=-eq-ok (kek_of ring tenant version) _ h in
    rw (keeps tenant version kek o e) f

find_kek-append :
    (version : ℕ) (vs ws : List (ℕ × Text)) {kek : Text}
    → find_kek version vs ≡ some kek
    → find_kek version (vs ++ ws) ≡ some kek
unfolding find_kek
find_kek-append version [] ws h = absurd (ground arith)
find_kek-append version ((v, k) ∷ vs) ws {kek} h =
    ground (arith, find_kek-append version vs ws {kek = kek})

kek_in_inv :
    (tenant : Text) (version : ℕ) (o : Option TenantKeys) {kek : Text}
    → kek_in tenant version o ≡ ok kek
    → (keys : TenantKeys) × (o ≡ some keys) × (find_kek version keys.versions ≡ some kek)
unfolding kek_in ok_or
kek_in_inv tenant version none h = absurd (ground arith)
kek_in_inv tenant version (some keys) h = (keys, refl, ground arith)

insert-KeepsKeks :
    (only : Text → Type 0) (ring : Keyring) (tenant : Text) (keys' : TenantKeys)
    → ((keys : TenantKeys) (version : ℕ) (kek : Text)
        → only tenant
        → get tenant ring ≡ some keys
        → find_kek version keys.versions ≡ some kek
        → find_kek version keys'.versions ≡ some kek)
    → KeepsKeks only ring (insert tenant keys' ring)
unfolding kek_of
insert-KeepsKeks only ring tenant keys' has t version kek o h =
    elim (Bool-cases (text_eq tenant t)) [
      | inr e ↦ rw (get-insert tenant t keys' ring, e) h
      | inl e ↦
          let same = (text_eq_iff tenant t).0 e in
          let (keys, f, g) = kek_in_inv t version (get t ring) h in
          rw
            (
              get-insert tenant t keys' ring,
              e,
              kek_in,
              has keys version kek (rw same o) (rw same f) g,
            )
            refl
    ]

abbrev pub AnyTenant : Text → Type 0
AnyTenant t = Unit

pub rotate-KeepsKeks :
    (ring : Keyring) (tenant kek : Text) (later : Keyring) (version : ℕ)
    → rotate ring tenant kek ≡ ok (later, version)
    → KeepsKeks AnyTenant ring later
unfolding rotate rotate_found push_version
rotate-KeepsKeks ring tenant kek later version h = elim (Option-cases (get tenant ring)) [
  | inl f ↦ let bad = rw (f, rotate_found) at h in absurd (ground arith)
  | inr (keys, f) ↦
      let same = ok_inj (rw (f, rotate_found) at h) in
      rw (← ap (λ (p : Keyring × ℕ). p.0) same) (
        insert-KeepsKeks AnyTenant ring tenant (push_version kek keys) (λ ks v k o g e.
          find_kek-append v keys.versions _
            (subst (λ (x : TenantKeys). find_kek v x.versions ≡ some k) (some_inj (sym g ∙ f)) e)))
]

provision_with-KeepsKeks :
    (ring : Keyring) (tenant kek : Text) (keys : TenantKeys) (o : Option ℕ)
    → ((old : TenantKeys) → get tenant ring ≡ some old → old ≡ keys)
    → KeepsKeks AnyTenant ring (provision_with ring tenant kek keys o).0
unfolding provision_with push_version
provision_with-KeepsKeks ring tenant kek keys (some v) same =
    insert-KeepsKeks AnyTenant ring tenant keys
      (λ ks w k o g e. subst (λ (x : TenantKeys). find_kek w x.versions ≡ some k) (same ks g) e)
provision_with-KeepsKeks ring tenant kek keys none same =
    insert-KeepsKeks AnyTenant ring tenant (push_version kek keys) (λ ks w k o g e.
      find_kek-append w keys.versions _
        (subst (λ (x : TenantKeys). find_kek w x.versions ≡ some k) (same ks g) e))

or_new-same : (o : Option TenantKeys) (old : TenantKeys) → o ≡ some old → old ≡ or_new o
unfolding or_new
or_new-same none old h = absurd (ground arith)
or_new-same (some keys) old h = sym (some_inj h)

pub provision_tenant-KeepsKeks :
    (ring : Keyring) (tenant kek : Text)
    → KeepsKeks AnyTenant ring (provision_tenant ring tenant kek).0
unfolding provision_tenant
provision_tenant-KeepsKeks ring tenant kek =
    provision_with-KeepsKeks ring tenant kek (or_new (get tenant ring)) _
      (or_new-same (get tenant ring))

abbrev pub OtherThan : Text → Text → Type 0
OtherThan tenant t = text_eq tenant t ≡ false

pub shred-KeepsKeks :
    (ring : Keyring) (tenant : Text) (later : Keyring)
    → shred ring tenant ≡ ok later
    → KeepsKeks (OtherThan tenant) ring later
unfolding shred
shred-KeepsKeks ring tenant later h t version kek o k = elim (Option-cases (get tenant ring)) [
  | inl f ↦ let bad = rw (f, shred_found) at h in absurd (ground arith)
  | inr (keys, f) ↦
      let same = ok_inj (rw (f, shred_found) at h) in
      subst (λ r. kek_of r t version ≡ ok kek) same
        (unfold kek_of in rw (get-insert tenant t (record keys { versions = [] }) ring, o) k)
]
