-- ===== src/Secrets/Broker/Stored.antt =====
-- crates/hull-ci-secrets/src/broker.rs: what the broker promises of the secrets that are stored in it: it
-- is a map of values under their tenants and names.
use hull_ci.Base.{
  ℕ, suc, ◌≡◌, refl, List, [], ◌∷◌, keep, Option, none, some, Text, text_eq, get, insert,
  get-insert, length, All, Bool-cases, inl, inr, sym, ◌∙◌, subst, Holds, Holds-get, Holds-insert,
}
use hull_ci.Secrets.Error.{Result, ok, err, SecretError}
use hull_ci.Secrets.Keys.{Aead, Keyring, nonce_len}
use hull_ci.Secrets.Keys.Wrapped.{KeepsKeks}
use hull_ci.Secrets.Seal.{
  SealedSecret, Place, place_keys, Rows, open_sealed, rewrap, put_row, list_rows,
}
use hull_ci.Secrets.Seal.Opens.{Opens, Opens-open_sealed, Opens-KeepsKeks, Rewraps, rewrap-Rewraps}
use hull_ci.Secrets.Broker.{rewrap_all}

data RewrapCase (o : Result (Option SealedSecret)) : Type 0 where
  failed : (e : SecretError) → o ≡ err e → RewrapCase o
  current : o ≡ ok none → RewrapCase o
  updated : (u : SealedSecret) → o ≡ ok (some u) → RewrapCase o

rewrap_cases : (o : Result (Option SealedSecret)) → RewrapCase o
rewrap_cases (err e) = failed e refl
rewrap_cases (ok none) = current refl
rewrap_cases (ok (some u)) = updated u refl

-- The abstract view: the value that is stored at a place, if there is one.
abbrev pub Values : Type 0
Values = Place → Option Text

module _ (a : Aead) (f : Values) where
  -- A record stands under its own labels, and opens to the value of its place.
  abbrev pub IsKept : Keyring → Place → SealedSecret → Type 0
  IsKept keys p s =
      (s.tenant ≡ p.0) × (s.name ≡ p.1) × ((v : Text) → f p ≡ some v → Opens a keys p.0 p.1 s v)

  -- The keys and the records have every value of the abstract view.
  pub record Stores (keys : Keyring) (rows : Rows) : Type 0 where
    pub kept : Holds (IsKept keys) rows
    pub present : (p : Place) (v : Text) → f p ≡ some v → (s : SealedSecret) × (get p rows ≡ some s)

  pub Stores-opens :
      (keys : Keyring) (rows : Rows) (tenant name v : Text) (s : SealedSecret)
      → Stores keys rows
      → f (tenant, name) ≡ some v
      → get (tenant, name) rows ≡ some s
      → open_sealed a keys tenant name s ≡ ok v
  Stores-opens keys rows tenant name v s st e g =
      Opens-open_sealed a keys tenant name s v
        ((Holds-get (IsKept keys) rows (tenant, name) s st.kept g).2 v e)

  -- A changed keyring that keeps the keys of the tenants whose values are known.
  pub Stores-KeepsKeks :
      (only : Text → Type 0) (ring later : Keyring) (rows : Rows)
      → KeepsKeks only ring later
      → ((p : Place) (v : Text) → f p ≡ some v → only p.0)
      → Stores ring rows
      → Stores later rows
  Stores-KeepsKeks only ring later rows keeps o st = record {
    kept = All-KeepsKeks rows st.kept;
    present = st.present;
  }
    where
      All-KeepsKeks : (r : Rows) → Holds (IsKept ring) r → Holds (IsKept later) r
      All-KeepsKeks [] h = tt
      All-KeepsKeks ((p, s) ∷ r) h = (
        (
          h.0.0,
          h.0.1,
          (λ v e. Opens-KeepsKeks a only ring later p.0 p.1 s v keeps (o p v e) (h.0.2 v e)),
        ),
        All-KeepsKeks r h.1,
      )

  present-insert :
      (rows : Rows) (q p : Place) (s : SealedSecret)
      → ((t : SealedSecret) × (get p rows ≡ some t))
      → (t : SealedSecret) × (get p (insert q s rows) ≡ some t)
  present-insert rows q p s (t, h) = elim (Bool-cases (place_keys.same q p)) [
    | inl e ↦ (s, get-insert q p s rows ∙ rw e refl)
    | inr e ↦ (t, get-insert q p s rows ∙ rw e h)
  ]

  pub put_row-Stores :
      (keys : Keyring) (rows : Rows) (s : SealedSecret)
      → ((v : Text) → f (s.tenant, s.name) ≡ some v → Opens a keys s.tenant s.name s v)
      → Stores keys rows
      → Stores keys (put_row s rows)
  unfolding put_row
  put_row-Stores keys rows s o st = record {
    kept = Holds-insert (IsKept keys) rows (s.tenant, s.name) s (refl, refl, o) st.kept;
    present = λ p v e. present-insert rows (s.tenant, s.name) p s (st.present p v e);
  }

  -- A record that is listed has what its labels say.
  abbrev pub IsListed : Keyring → SealedSecret → Type 0
  IsListed keys s = (v : Text) → f (s.tenant, s.name) ≡ some v → Opens a keys s.tenant s.name s v

  kept-IsListed :
      (keys : Keyring) (p : Place) (s : SealedSecret) → IsKept keys p s → IsListed keys s
  kept-IsListed keys (t, n) s (x, y, o) =
      subst (λ (u : Text). (v : Text) → f (u, s.name) ≡ some v → Opens a keys u s.name s v) (sym x)
        (subst (λ (m : Text). (v : Text) → f (t, m) ≡ some v → Opens a keys t m s v) (sym y) o)

  pub list_rows-IsListed :
      (keys : Keyring) (tenant : Text) (rows : Rows)
      → Holds (IsKept keys) rows
      → All (IsListed keys) (list_rows tenant rows)
  unfolding list_rows keep
  list_rows-IsListed keys tenant [] h = tt
  list_rows-IsListed keys tenant ((p, s) ∷ rows) h = elim (Bool-cases (text_eq p.0 tenant)) [
    | inl e ↦ rw e (kept-IsListed keys p s h.0, list_rows-IsListed keys tenant rows h.1)
    | inr e ↦ rw e (list_rows-IsListed keys tenant rows h.1)
  ]

  rewrapped-IsListed :
      (keys : Keyring) (s u : SealedSecret) → Rewraps a keys s u → IsListed keys s → IsListed keys u
  rewrapped-IsListed keys s u r o =
      subst (λ (t : Text). (v : Text) → f (t, u.name) ≡ some v → Opens a keys t u.name u v)
        (sym r.same_tenant)
        (subst (λ (m : Text). (v : Text) → f (s.tenant, m) ≡ some v → Opens a keys s.tenant m u v)
          (sym r.same_name) (λ v e. r.same_value v (o v e)))

  -- The loop that wraps the keys anew loses no value, wherever it stops.
  pub rewrap_all-Stores :
      (keys : Keyring) (nonce : ℕ → Text) (ss : List SealedSecret) (rows : Rows) (n : ℕ)
      → ((i : ℕ) → length (nonce i) ≡ nonce_len)
      → All (IsListed keys) ss
      → Stores keys rows
      → Stores keys (rewrap_all a keys nonce ss rows n).0
  unfolding rewrap_all
  rewrap_all-Stores keys nonce [] rows n w h st = st
  rewrap_all-Stores keys nonce (s ∷ ss) rows n w h st =
      elim (rewrap_cases (rewrap a keys s (nonce n))) [
        | failed e x ↦ rw (x, rewrap_all) st
        | current x ↦ rw (x, rewrap_all) (rewrap_all-Stores keys nonce ss rows n w h.1 st)
        | updated u x ↦
            rw (x, rewrap_all)
              (rewrap_all-Stores keys nonce ss (put_row u rows) (suc n) w h.1 (
                put_row-Stores keys rows u
                  (rewrapped-IsListed keys s u (rewrap-Rewraps a keys s u (nonce n) (w n) x) h.0)
                  st))
      ]
