-- ===== src/Secrets/Seal.antt =====
-- crates/hull-ci-secrets/src/seal.rs and store.rs: sealed secrets, and the store of them. `Draw` has
-- the random bytes of one sealing.
pub mod Opens
use hull_ci.Base.{
  ℕ, ◌-◌, ◌≡◌, ◌↔◌, refl, Bool, true, false, not, ◌&&◌, ◌||◌, List, [], ◌∷◌, ◌++◌, map, keep,
  Option, none, some, Text, lit, text_eq, text_eq_iff, decimal, Eq, get, insert, erase, length,
  ◌==◌, if◌then◌else◌, arith,
}
use hull_ci.Secrets.Error.{Result, ok, err, ◌>>=◌, empty_value, context_mismatch}
use hull_ci.Secrets.Context.{associated_data}
use hull_ci.Secrets.Keys.{
  Aead, Keyring, current_version, aead_seal, aead_open, wrap_dek, unwrap_dek,
}

pub record SealedSecret : Type 0 where
  pub tenant : Text
  pub name : Text
  pub kek_version : ℕ
  pub wrapped_dek : Text
  pub ciphertext : Text

pub record Draw : Type 0 where
  pub dek : Text
  pub value_nonce : Text
  pub wrap_nonce : Text

unfoldable pub value_aad : (tenant name : Text) → Text
value_aad tenant name = associated_data (lit "hull-ci/secret-value/v1") (tenant ∷ name ∷ [])

unfoldable pub wrap_aad : (tenant name : Text) → ℕ → Text
wrap_aad tenant name version =
    associated_data (lit "hull-ci/dek-wrap/v1") (tenant ∷ name ∷ decimal version ∷ [])

is_empty : Text → Bool
is_empty [] = true
is_empty (c ∷ cs) = false

-- `format!("{tenant}/{name}")`.
context : (tenant name : Text) → Text
context tenant name = tenant ++ b'/' ∷ name

unfoldable pub is_labelled : (tenant name : Text) → SealedSecret → Bool
is_labelled tenant name s = text_eq s.tenant tenant && text_eq s.name name

module _ (a : Aead) where
  unfoldable pub seal : Keyring → (tenant name plaintext : Text) → Draw → Result SealedSecret
  unfolding is_empty
  seal ring tenant name plaintext draw = if is_empty plaintext then err empty_value else do
    version ← current_version ring tenant
    ciphertext ← aead_seal a draw.dek draw.value_nonce plaintext (value_aad tenant name)
    wrapped ← wrap_dek a ring tenant version draw.dek draw.wrap_nonce (wrap_aad tenant name version)
    ok (record {
      tenant = tenant;
      name = name;
      kek_version = version;
      wrapped_dek = wrapped;
      ciphertext = ciphertext;
    })

  unfoldable pub open_sealed : Keyring → (tenant name : Text) → SealedSecret → Result Text
  unfolding context is_labelled
  open_sealed ring tenant name s =
      if not (is_labelled tenant name s)
      then err (context_mismatch (context tenant name) (context s.tenant s.name))
      else do
        dek ←
            unwrap_dek a ring tenant s.kek_version s.wrapped_dek
              (wrap_aad tenant name s.kek_version)
        aead_open a dek s.ciphertext (value_aad tenant name)

  rewrap_as : Keyring → SealedSecret → Text → ℕ → Result (Option SealedSecret)
  rewrap_as ring s nonce current = if current == s.kek_version then ok none else do
    dek ←
        unwrap_dek a ring s.tenant s.kek_version s.wrapped_dek
          (wrap_aad s.tenant s.name s.kek_version)
    wrapped ← wrap_dek a ring s.tenant current dek nonce (wrap_aad s.tenant s.name current)
    ok (some (record s { kek_version = current; wrapped_dek = wrapped }))

  unfoldable pub rewrap : Keyring → SealedSecret → (nonce : Text) → Result (Option SealedSecret)
  unfolding rewrap_as
  rewrap ring s nonce = do current ← current_version ring s.tenant; rewrap_as ring s nonce current

-- `MemorySealedStore`: rows under their tenant and name.
abbrev pub Place : Type 0
Place = Text × Text

unfoldable pub same_place : Place → Place → Bool
same_place p q = text_eq p.0 q.0 && text_eq p.1 q.1

pub same_place_iff : (p q : Place) → (same_place p q ≡ true) ↔ (p ≡ q)
unfolding same_place
same_place_iff (t, n) (u, m) = ground (arith, text_eq_iff t u, text_eq_iff n m)

instance abbrev pub place_keys : Eq Place
place_keys = record { same = same_place; same_iff = same_place_iff }

abbrev pub Rows : Type 0
Rows = List (Place × SealedSecret)

unfoldable pub put_row : SealedSecret → Rows → Rows
put_row s rows = insert (s.tenant, s.name) s rows

unfoldable pub get_row : (tenant name : Text) → Rows → Option SealedSecret
get_row tenant name rows = get (tenant, name) rows

was_some {ℓ} : {A : Type ℓ} → Option A → Bool
was_some none = false
was_some (some a) = true

unfoldable pub delete_row : (tenant name : Text) → Rows → Rows × Bool
unfolding was_some
delete_row tenant name rows = (erase (tenant, name) rows, was_some (get (tenant, name) rows))

unfoldable pub list_rows : Text → Rows → List SealedSecret
unfolding keep
list_rows tenant rows =
    map (λ (e : Place × SealedSecret). e.1)
      (keep (λ (e : Place × SealedSecret). text_eq e.0.0 tenant) rows)

unfoldable pub delete_tenant : Text → Rows → Rows × ℕ
unfolding keep
delete_tenant tenant rows =
    let rest = keep (λ (e : Place × SealedSecret). not (text_eq e.0.0 tenant)) rows in
    (rest, length rows - length rest)
