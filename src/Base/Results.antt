-- ===== src/Base/Results.antt =====
-- Rust's `Result` with its `?`, for an error type that each component has of its own.
use mathlib.Core.Path.{◌≡◌, refl}
use mathlib.Core.Logic.{◌⊎◌, inl, inr}
use native.Mathlib.Omega.{arith}

pub data Outcome {ℓ} (E : Type 0) (A : Type ℓ) : Type ℓ where
  err : E → Outcome E A
  ok : A → Outcome E A

module _ {ℓ κ} {E : Type 0} {A : Type ℓ} {B : Type κ} where
  infixl 5 ◌>>=◌
  abbrev pub ◌>>=◌ : Outcome E A → (A → Outcome E B) → Outcome E B
  err e >>= next = err e
  ok a >>= next = next a

  -- What a chain that went well found on its way.
  pub >>=-eq-ok :
      (first : Outcome E A) (next : A → Outcome E B) {b : B}
      → (first >>= next) ≡ ok b
      → (a : A) × (first ≡ ok a) × (next a ≡ ok b)
  >>=-eq-ok (err e) next went = absurd (ground arith)
  >>=-eq-ok (ok a) next went = (a, refl, went)

module _ {κ} {E : Type 0} {B : Type κ} where
  infixl 5 ◌>>◌
  abbrev pub ◌>>◌ : Outcome E (Unit {0}) → Outcome E B → Outcome E B
  first >> second = first >>= λ done. second

  pub >>-before :
      (first : Outcome E (Unit {0})) (second : Outcome E B) {b : B}
      → (first >> second) ≡ ok b
      → first ≡ ok tt
  >>-before (err e) second went = absurd (ground arith)
  >>-before (ok done) second went = refl

  pub >>-after :
      (first : Outcome E (Unit {0})) (second : Outcome E B) {b : B}
      → (first >> second) ≡ ok b
      → second ≡ ok b
  >>-after (err e) second went = absurd (ground arith)
  >>-after (ok done) second went = went

module _ {ℓ} {E : Type 0} {A : Type ℓ} where
  pub ok_inj : {x y : A} → ◌≡◌ {A = Outcome E A} (ok x) (ok y) → x ≡ y
  ok_inj same = ground arith

  -- To split on a computed result and keep the equation.
  pub Result-cases : (m : Outcome E A) → ((e : E) × (m ≡ err e)) ⊎ ((a : A) × (m ≡ ok a))
  Result-cases (err e) = inl (e, refl)
  Result-cases (ok a) = inr (a, refl)
