-- ===== src/Base/Assoc.antt =====
-- A `HashMap` or `BTreeMap` as an association list without repeated keys.
use mathlib.Core.Path.{◌≡◌, refl, ◌∙◌, subst}
use mathlib.Core.Logic.{◌↔◌, inl, inr, ◌≢◌}
use mathlib.Core.Bool.{Bool, true, false}
use mathlib.Core.List.{List, [], ◌∷◌}
use mathlib.Core.Option.{Option, none, some}
use native.Mathlib.Omega.{arith}
use hull_ci.Base.Tests.{if◌then◌else◌, Bool-cases, some_inj}
use hull_ci.Base.Lists.{All, keep}
use hull_ci.Base.Strings.{Text, text_eq, text_eq_iff}

-- `==` on keys.
pub record Eq {ℓ} (K : Type ℓ) : Type ℓ where
  pub same : K → K → Bool
  pub same_iff : (a b : K) → (same a b ≡ true) ↔ (a ≡ b)

instance abbrev pub text_keys : Eq Text
text_keys = record { same = text_eq; same_iff = text_eq_iff }

module _ {ℓ} {K : Type ℓ} ⦃e : Eq K⦄ where
  pub same_self : (k : K) → e.same k k ≡ true
  same_self k = (e.same_iff k k).1 refl

  pub same-ne : (a b : K) → a ≢ b → e.same a b ≡ false
  same-ne a b h = elim (Bool-cases (e.same a b)) [
    | inl t ↦ absurd (h ((e.same_iff a b).0 t))
    | inr f ↦ f
  ]

module _ {ℓ κ} {K : Type ℓ} {V : Type κ} ⦃e : Eq K⦄ where
  unfoldable pub get : K → List (K × V) → Option V
  get k [] = none
  get k ((j, v) ∷ m) = if e.same j k then some v else get k m

  unfoldable pub put : K → V → List (K × V) → List (K × V)
  put k v [] = (k, v) ∷ []
  put k v ((j, w) ∷ m) = if e.same j k then (k, v) ∷ m else (j, w) ∷ put k v m

  unfoldable pub erase : K → List (K × V) → List (K × V)
  erase k [] = []
  erase k ((j, w) ∷ m) = let rest = erase k m in if e.same j k then rest else (j, w) ∷ rest

  -- `HashMap::insert`: the new entry is the only one of its key.
  unfoldable pub insert : K → V → List (K × V) → List (K × V)
  unfolding erase
  insert k v m = (k, v) ∷ erase k m

  pub get-put :
      (k j : K) (v : V) (m : List (K × V))
      → get j (put k v m) ≡ (if e.same k j then some v else get j m)
  unfolding get put
  get-put k j v [] = refl
  get-put k j v ((i, w) ∷ m) =
      ground (arith, e.same_iff k j, e.same_iff i k, e.same_iff i j, get-put k j v m)

  pub get-erase :
      (k j : K) (m : List (K × V)) → get j (erase k m) ≡ (if e.same k j then none else get j m)
  unfolding get erase
  get-erase k j [] = ground arith
  get-erase k j ((i, w) ∷ m) =
      ground (arith, e.same_iff k j, e.same_iff i k, e.same_iff i j, get-erase k j m)

  pub get-put_self : (k : K) (v : V) (m : List (K × V)) → get k (put k v m) ≡ some v
  get-put_self k v m = get-put k k v m ∙ rw ((e.same_iff k k).1 refl)

  pub get-erase_self : (k : K) (m : List (K × V)) → get k (erase k m) ≡ none
  get-erase_self k m = get-erase k k m ∙ rw ((e.same_iff k k).1 refl)

  pub get-insert :
      (k j : K) (v : V) (m : List (K × V))
      → get j (insert k v m) ≡ (if e.same k j then some v else get j m)
  unfolding get insert
  get-insert k j v m = ground (arith, get-erase k j m)

  pub get-insert_self : (k : K) (v : V) (m : List (K × V)) → get k (insert k v m) ≡ some v
  get-insert_self k v m = get-insert k k v m ∙ rw ((e.same_iff k k).1 refl)

-- A statement of every entry of a map.
module _ {ℓ κ ι} {K : Type ℓ} {V : Type κ} ⦃e : Eq K⦄ (P : K → V → Type ι) where
  abbrev pub Holds : List (K × V) → Type ι
  Holds m = All (λ (en : K × V). P en.0 en.1) m

  pub Holds-get : (m : List (K × V)) (k : K) (v : V) → Holds m → get k m ≡ some v → P k v
  unfolding get
  Holds-get [] k v a h = absurd (ground arith)
  Holds-get ((j, w) ∷ m) k v a h = elim (Bool-cases (e.same j k)) [
    | inl hit ↦
        subst (λ i. P i v) ((e.same_iff j k).0 hit) (subst (P j) (some_inj (rw hit at h)) a.0)
    | inr miss ↦ Holds-get m k v a.1 (rw miss at h)
  ]

  pub Holds-erase : (m : List (K × V)) (k : K) → Holds m → Holds (erase k m)
  unfolding erase
  Holds-erase [] k a = tt
  Holds-erase ((j, w) ∷ m) k a = elim (Bool-cases (e.same j k)) [
    | inl hit ↦ rw hit (Holds-erase m k a.1)
    | inr miss ↦ rw miss (a.0, Holds-erase m k a.1)
  ]

  pub Holds-insert : (m : List (K × V)) (k : K) (v : V) → P k v → Holds m → Holds (insert k v m)
  unfolding insert
  Holds-insert m k v p a = (p, Holds-erase m k a)

  pub Holds-keep : (p : K × V → Bool) (m : List (K × V)) → Holds m → Holds (keep p m)
  unfolding keep
  Holds-keep p [] a = tt
  Holds-keep p (en ∷ m) a = elim (Bool-cases (p en)) [
    | inl hit ↦ rw hit (a.0, Holds-keep p m a.1)
    | inr miss ↦ rw miss (Holds-keep p m a.1)
  ]
