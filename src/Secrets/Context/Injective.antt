-- ===== src/Secrets/Context/Injective.antt =====
-- crates/hull-ci-secrets/src/lib.rs: associated data beside the context that they encode.
use hull_ci.Base.{ℕ, ◌≡◌, refl, ◌<◌, ◌^◌, List, [], ◌∷◌, ◌++◌, Text, length, All, arith, sym}
use hull_ci.Secrets.Context.{be_bytes, with_lengths, associated_data}

-- The lengths that four bytes hold.
abbrev pub IsShort : Text → Type 0
IsShort f = length f < 2 ^ 32

append-inj : (a b xs ys : Text) → length a ≡ length b → a ++ xs ≡ b ++ ys → (a ≡ b) × (xs ≡ ys)
append-inj [] [] xs ys n h = (refl, h)
append-inj [] (b ∷ bs) xs ys n h = absurd (omega arith)
append-inj (a ∷ as') [] xs ys n h = absurd (omega arith)
append-inj (a ∷ as') (b ∷ bs) xs ys n h = ground (arith, append-inj as' bs xs ys)

be_bytes-inj :
    (m n : ℕ) (xs ys : Text)
    → m < 2 ^ 32
    → n < 2 ^ 32
    → be_bytes m ++ xs ≡ be_bytes n ++ ys
    → (m ≡ n) × (xs ≡ ys)
unfolding be_bytes
be_bytes-inj m n xs ys hm hn h = ground arith

nil-ne-be_bytes : (n : ℕ) (xs : Text) → [] ≡ be_bytes n ++ xs → ⊥
unfolding be_bytes
nil-ne-be_bytes n xs h = ground arith

with_lengths-inj :
    (fs gs : List Text)
    → All IsShort fs
    → All IsShort gs
    → with_lengths fs ≡ with_lengths gs
    → fs ≡ gs
unfolding with_lengths
with_lengths-inj [] [] p q h = refl
with_lengths-inj [] (g ∷ gs) p q h = absurd (nil-ne-be_bytes (length g) _ h)
with_lengths-inj (f ∷ fs) [] p q h = absurd (nil-ne-be_bytes (length f) _ (sym h))
with_lengths-inj (f ∷ fs) (g ∷ gs) p q h =
    let (same_length, rest) =
      be_bytes-inj (length f) (length g) (f ++ with_lengths fs) (g ++ with_lengths gs) p.0 q.0 h in
    let (same_field, same_tail) =
      append-inj f g (with_lengths fs) (with_lengths gs) same_length rest in
    ground (arith, with_lengths-inj fs gs p.1 q.1 same_tail)

-- Associated data are the same only for the same domain and the same fields, as long as each of them
-- is shorter than 2^32 bytes.
pub associated_data-inj :
    (domain other : Text) (fields others : List Text)
    → IsShort domain
    → IsShort other
    → All IsShort fields
    → All IsShort others
    → associated_data domain fields ≡ associated_data other others
    → (domain ≡ other) × (fields ≡ others)
unfolding associated_data
associated_data-inj domain other fields others d o fs os h =
    let same = with_lengths-inj (domain ∷ fields) (other ∷ others) (d, fs) (o, os) h in
    (ground arith, ground arith)
