-- ===== src/Secrets/Keys.antt =====
-- crates/hull-ci-secrets/src/keys.rs: the tenants' key-encryption keys, and the sealing of bytes under
-- a key. The cipher is a parameter, and the random bytes are arguments.
pub mod Wrapped
use hull_ci.Base.{
  ℕ, suc, ◌+◌, ◌≡◌, List, [], ◌∷◌, ◌++◌, Option, none, some, Text, text_keys, Eq, get, insert, ltb,
  ◌==◌, length, take, drop, if◌then◌else◌,
}
use hull_ci.Secrets.Error.{Result, ok, err, ◌>>=◌, no_tenant_key, no_kek_version, decrypt_failed}

-- XChaCha20-Poly1305: `encrypt` and `decrypt` of a message with associated data. What decryption of an
-- encrypted message gives back under the same key, nonce and associated data is the message.
pub record Aead : Type 0 where
  pub encrypt : (key nonce aad message : Text) → Option Text
  pub decrypt : (key nonce aad sealed : Text) → Option Text
  pub decrypt-encrypt :
      (key nonce aad message sealed : Text)
      → encrypt key nonce aad message ≡ some sealed
      → decrypt key nonce aad sealed ≡ some message

abbrev pub dek_len : ℕ
dek_len = 32

abbrev pub nonce_len : ℕ
nonce_len = 24

pub record TenantKeys : Type 0 where
  pub versions : List (ℕ × Text)
  pub next_version : ℕ

abbrev pub Keyring : Type 0
Keyring = List (Text × TenantKeys)

unfoldable pub last_version : List (ℕ × Text) → Option ℕ
last_version [] = none
last_version ((v, k) ∷ []) = some v
last_version ((v, k) ∷ w ∷ ws) = last_version (w ∷ ws)

unfoldable pub find_kek : ℕ → List (ℕ × Text) → Option Text
find_kek version [] = none
find_kek version ((v, k) ∷ vs) = if v == version then some k else find_kek version vs

unfoldable pub ok_or {ℓ} : {A : Type ℓ} → Option A → Result A → Result A
ok_or none e = e
ok_or (some a) e = ok a

version_of : Text → Option TenantKeys → Result ℕ
unfolding last_version ok_or
version_of tenant none = err (no_tenant_key tenant)
version_of tenant (some keys) = ok_or (last_version keys.versions) (err (no_tenant_key tenant))

unfoldable pub current_version : Keyring → Text → Result ℕ
unfolding version_of
current_version ring tenant = version_of tenant (get tenant ring)

unfoldable pub kek_in : Text → ℕ → Option TenantKeys → Result Text
unfolding find_kek ok_or
kek_in tenant version none = err (no_tenant_key tenant)
kek_in tenant version (some keys) =
    ok_or (find_kek version keys.versions) (err (no_kek_version tenant version))

-- `with_kek`: the key that its closure is called on.
unfoldable pub kek_of : Keyring → Text → ℕ → Result Text
unfolding kek_in
kek_of ring tenant version = kek_in tenant version (get tenant ring)

unfoldable pub push_version : Text → TenantKeys → TenantKeys
push_version kek keys = record {
  versions = keys.versions ++ (keys.next_version, kek) ∷ [];
  next_version = suc keys.next_version;
}

or_new : Option TenantKeys → TenantKeys
or_new none = record { versions = []; next_version = 1 }
or_new (some keys) = keys

provision_with : Keyring → Text → Text → TenantKeys → Option ℕ → Keyring × ℕ
unfolding push_version
provision_with ring tenant kek keys (some version) = (insert tenant keys ring, version)
provision_with ring tenant kek keys none =
    (insert tenant (push_version kek keys) ring, keys.next_version)

unfoldable pub provision_tenant : Keyring → (tenant kek : Text) → Keyring × ℕ
unfolding provision_with or_new last_version
provision_tenant ring tenant kek =
    let keys = or_new (get tenant ring) in
    provision_with ring tenant kek keys (last_version keys.versions)

rotate_found : Keyring → (tenant kek : Text) → Option TenantKeys → Result (Keyring × ℕ)
unfolding push_version
rotate_found ring tenant kek none = err (no_tenant_key tenant)
rotate_found ring tenant kek (some keys) =
    ok (insert tenant (push_version kek keys) ring, keys.next_version)

unfoldable pub rotate : Keyring → (tenant kek : Text) → Result (Keyring × ℕ)
unfolding rotate_found
rotate ring tenant kek = rotate_found ring tenant kek (get tenant ring)

shred_found : Keyring → Text → Option TenantKeys → Result Keyring
shred_found ring tenant none = err (no_tenant_key tenant)
shred_found ring tenant (some keys) = ok (insert tenant (record keys { versions = [] }) ring)

unfoldable pub shred : Keyring → Text → Result Keyring
unfolding shred_found
shred ring tenant = shred_found ring tenant (get tenant ring)

sealed_with : Text → Option Text → Result Text
sealed_with nonce none = err decrypt_failed
sealed_with nonce (some sealed) = ok (nonce ++ sealed)

module _ (a : Aead) where
  unfoldable pub aead_seal : (key nonce plaintext aad : Text) → Result Text
  unfolding sealed_with
  aead_seal key nonce plaintext aad = sealed_with nonce (a.encrypt key nonce aad plaintext)

  unfoldable pub aead_open : (key blob aad : Text) → Result Text
  unfolding ok_or
  aead_open key blob aad =
      if ltb (length blob) nonce_len
      then err decrypt_failed
      else ok_or (a.decrypt key (take nonce_len blob) aad (drop nonce_len blob))
          (err decrypt_failed)

  unfoldable pub wrap_dek : Keyring → (tenant : Text) → ℕ → (dek nonce aad : Text) → Result Text
  unfolding aead_seal
  wrap_dek ring tenant version dek nonce aad = do
    kek ← kek_of ring tenant version
    aead_seal kek nonce dek aad

  unfoldable pub as_dek : Text → Result Text
  as_dek bytes = if length bytes == dek_len then ok bytes else err decrypt_failed

  unfoldable pub unwrap_dek : Keyring → (tenant : Text) → ℕ → (wrapped aad : Text) → Result Text
  unfolding aead_open as_dek
  unwrap_dek ring tenant version wrapped aad = do
    kek ← kek_of ring tenant version
    plain ← aead_open kek wrapped aad
    as_dek plain
