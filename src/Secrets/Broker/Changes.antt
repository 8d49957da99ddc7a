-- ===== src/Secrets/Broker/Changes.antt =====
-- crates/hull-ci-secrets/src/broker.rs: the changes of the keys and of the records, and what they do to the
-- values that are stored.
use hull_ci.Base.{
  ℕ, ◌≡◌, refl, Bool, true, false, none, some, Text, text_eq, get, insert, erase, get-erase,
  get-insert, same_self, some_inj, length, if◌then◌else◌, arith, Bool-cases, inl, inr, sym, ◌∙◌,
  subst, Holds, Holds-erase, ◌⊎◌, [], ◌∷◌,
}
use hull_ci.Secrets.Error.{Result-cases, Result, ok, err}
use hull_ci.Secrets.Keys.{Aead, Keyring, nonce_len}
use hull_ci.Secrets.Keys.Wrapped.{KeepsKeks, AnyTenant, OtherThan}
use hull_ci.Secrets.Seal.{SealedSecret, Draw, Place, place_keys, Rows, put_row, list_rows}
use hull_ci.Secrets.Seal.Opens.{Opens}
use hull_ci.Secrets.Broker.{Broker, put_sealed, rotated, rotate_records, shredded}
use hull_ci.Secrets.Broker.Stored.{
  Values, IsKept, Stores, Stores-KeepsKeks, list_rows-IsListed, rewrap_all-Stores,
}

-- The operations of a map of values.
unfoldable pub with_value : Place → Text → Values → Values
with_value p v f q = if place_keys.same p q then some v else f q

unfoldable pub without_value : Place → Values → Values
without_value p f q = if place_keys.same p q then none else f q

unfoldable pub without_tenant : Text → Values → Values
without_tenant tenant f q = if text_eq tenant q.0 then none else f q

unfoldable pub stored_if {ℓ} : {A : Type ℓ} → Result A → Place → Text → Values → Values
stored_if (ok u) p v f = with_value p v f
stored_if (err e) p v f = f

abbrev pub Holding : Aead → Values → Broker → Type 0
Holding a f b = Stores a f b.keys b.rows

true-ne-false : {x : Bool} → x ≡ true → x ≡ false → ⊥
true-ne-false h k = ground arith

apart-place :
    (q p : Place) (f : Values) (v : Text)
    → without_value q f p ≡ some v
    → place_keys.same q p ≡ false
unfolding without_value
apart-place q p f v h = elim (Bool-cases (place_keys.same q p)) [
  | inl e ↦ let bad = rw e at h in absurd (ground arith)
  | inr e ↦ e
]

module _ (a : Aead) where
  -- A view with fewer values.
  Stores-fewer :
      (f g : Values) (keys : Keyring) (rows : Rows)
      → ((p : Place) (v : Text) → g p ≡ some v → f p ≡ some v)
      → Stores a f keys rows
      → Stores a g keys rows
  Stores-fewer f g keys rows less st = record {
    kept = All-fewer rows st.kept;
    present = λ p v e. st.present p v (less p v e);
  }
    where
      All-fewer : (r : Rows) → Holds (IsKept a f keys) r → Holds (IsKept a g keys) r
      All-fewer [] h = tt
      All-fewer ((p, s) ∷ r) h = ((h.0.0, h.0.1, (λ v e. h.0.2 v (less p v e))), All-fewer r h.1)

  without_value-fewer :
      (p q : Place) (f : Values) (v : Text) → without_value p f q ≡ some v → f q ≡ some v
  unfolding without_value
  without_value-fewer p q f v h = elim (Bool-cases (place_keys.same p q)) [
    | inl e ↦ let bad = rw e at h in absurd (ground arith)
    | inr e ↦ rw e at h
  ]

  without_tenant-fewer :
      (t : Text) (q : Place) (f : Values) (v : Text)
      → without_tenant t f q ≡ some v
      → (text_eq t q.0 ≡ false) × (f q ≡ some v)
  unfolding without_tenant
  without_tenant-fewer t q f v h = elim (Bool-cases (text_eq t q.0)) [
    | inl e ↦ let bad = rw e at h in absurd (ground arith)
    | inr e ↦ (e, rw e at h)
  ]

  module _ (f : Values) (q : Place) (value : Text) (keys : Keyring) where
    erase-with_value :
        (rows : Rows)
        → Holds (IsKept a f keys) rows
        → Holds (IsKept a (with_value q value f) keys) (erase q rows)
    unfolding erase with_value
    erase-with_value [] h = tt
    erase-with_value ((p, s) ∷ rows) h = elim (Bool-cases (place_keys.same p q)) [
      | inl e ↦ rw e (erase-with_value rows h.1)
      | inr e ↦
          rw e ((h.0.0, h.0.1, (λ v g. h.0.2 v (elsewhere p v e g))), erase-with_value rows h.1)
    ]
      where
        elsewhere :
            (p : Place) (v : Text)
            → place_keys.same p q ≡ false
            → with_value q value f p ≡ some v
            → f p ≡ some v
        elsewhere p v e g = ground (arith, place_keys.same_iff p q, place_keys.same_iff q p)

    here-value :
        (p : Place) (v : Text)
        → with_value q value f p ≡ some v
        → ((q ≡ p) × (value ≡ v)) ⊎ ((place_keys.same q p ≡ false) × (f p ≡ some v))
    unfolding with_value
    here-value p v h = elim (Bool-cases (place_keys.same q p)) [
      | inl e ↦ inl ((place_keys.same_iff q p).0 e, some_inj (rw e at h))
      | inr e ↦ inr (e, rw e at h)
    ]

    insert-present :
        (rows : Rows) (s : SealedSecret)
        → Stores a f keys rows
        → (p : Place) (v : Text) → with_value q value f p ≡ some v
        → (t : SealedSecret) × (get p (insert q s rows) ≡ some t)
    insert-present rows s st p v h = elim (here-value p v h) [
      | inl (e, g) ↦ (s, get-insert q p s rows ∙ rw ((place_keys.same_iff q p).1 e) refl)
      | inr (e, g) ↦ let (t, k) = st.present p v g in (t, get-insert q p s rows ∙ rw e k)
    ]

    insert-Stores :
        (rows : Rows) (s : SealedSecret)
        → s.tenant ≡ q.0
        → s.name ≡ q.1
        → Opens a keys q.0 q.1 s value
        → Stores a f keys rows
        → Stores a (with_value q value f) keys (insert q s rows)
    unfolding insert
    insert-Stores rows s x y o st = record {
      kept = (
        (x, y, (λ v h. subst (λ w. Opens a keys q.0 q.1 s w) (same-value v h) o)),
        erase-with_value rows st.kept,
      );
      present = insert-present rows s st;
    }
      where
        same-value : (v : Text) → with_value q value f q ≡ some v → value ≡ v
        same-value v h = elim (here-value q v h) [
          | inl (e, g) ↦ g
          | inr (e, g) ↦ absurd (true-ne-false (same_self q) e)
        ]

  put-Stores :
      (f : Values) (keys : Keyring) (rows : Rows) (tenant name value : Text) (s : SealedSecret)
      → Opens a keys tenant name s value
      → Stores a f keys rows
      → Stores a (with_value (tenant, name) value f) keys (put_row s rows)
  unfolding put_row
  put-Stores f keys rows tenant name value s o st =
      subst
        (λ (t : Text).
          Stores a (with_value (tenant, name) value f) keys (insert (t, s.name) s rows))
        (sym o.tenant_is)
        (subst
          (λ (n : Text).
            Stores a (with_value (tenant, name) value f) keys (insert (tenant, n) s rows))
          (sym o.name_is)
          (insert-Stores f (tenant, name) value keys rows s o.tenant_is o.name_is o st))

  pub erase-Stores :
      (f : Values) (keys : Keyring) (rows : Rows) (q : Place)
      → Stores a f keys rows
      → Stores a (without_value q f) keys (erase q rows)
  erase-Stores f keys rows q st =
      let fewer =
        Stores-fewer f (without_value q f) keys rows (λ p v. without_value-fewer q p f v) st in
      record {
        kept = Holds-erase (IsKept a (without_value q f) keys) rows q fewer.kept;
        present = λ p v h.
            let (t, k) = fewer.present p v h in
            (t, get-erase q p rows ∙ rw (apart-place q p f v h) k);
      }

  pub put_sealed-Stores :
      (f : Values) (b : Broker) (tenant name value : Text) (draw : Draw) (o : Result SealedSecret)
      → ((s : SealedSecret) → o ≡ ok s → Opens a b.keys tenant name s value)
      → Holding a f b
      → Holding a (stored_if (put_sealed a b o).1 (tenant, name) value f) (put_sealed a b o).0
  unfolding put_sealed stored_if
  put_sealed-Stores f b tenant name value draw (ok s) o st =
      put-Stores f b.keys b.rows tenant name value s (o s refl) st
  put_sealed-Stores f b tenant name value draw (err e) o st = st

  pub shredded-Stores :
      (f : Values) (b : Broker) (tenant : Text) (o : Result Keyring)
      → ((later : Keyring) → o ≡ ok later → KeepsKeks (OtherThan tenant) b.keys later)
      → Holding a f b
      → Holding a (without_tenant tenant f) (shredded b o).0
  unfolding shredded
  shredded-Stores f b tenant o keeps st =
      let fewer =
        Stores-fewer f (without_tenant tenant f) b.keys b.rows
          (λ p v h. (without_tenant-fewer tenant p f v h).1) st in
      elim (Result-cases o) [
        | inl (e, x) ↦ rw (x, shredded) fewer
        | inr (later, x) ↦
            rw (x, shredded)
              (Stores-KeepsKeks a (without_tenant tenant f) (OtherThan tenant) b.keys later b.rows
                (keeps later x) (λ p v h. (without_tenant-fewer tenant p f v h).0) fewer)
      ]

  pub rotated-Stores :
      (f : Values) (b : Broker) (tenant : Text) (nonce : ℕ → Text) (o : Result (Keyring × ℕ))
      → ((i : ℕ) → length (nonce i) ≡ nonce_len)
      → ((later : Keyring) (v : ℕ) → o ≡ ok (later, v) → KeepsKeks AnyTenant b.keys later)
      → Holding a f b
      → Holding a f (rotated a b tenant nonce o).0
  unfolding rotated rotate_records
  rotated-Stores f b tenant nonce (err e) n keeps st = st
  rotated-Stores f b tenant nonce (ok (later, v)) n keeps st =
      let turned =
        Stores-KeepsKeks a f AnyTenant b.keys later b.rows (keeps later v refl) (λ p v h. tt) st in
      rewrap_all-Stores a f later nonce (list_rows tenant b.rows) b.rows 0 n
        (list_rows-IsListed a f later tenant b.rows turned.kept) turned
