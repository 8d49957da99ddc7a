-- ===== src/Secrets/Mask/Hidden.antt =====
-- crates/hull-ci-secrets/src/mask.rs: what masked output can still show.
use hull_ci.Base.{
  ℕ, zero, suc, ◌≤◌, ◌≡◌, refl, Bool, true, false, ◌||◌, List, [], ◌∷◌, ◌++◌, Text, text_eq,
  text_eq_iff, any, length, drop, ◌==◌, starts_with, arith, Bool-cases, inl, inr, All, subst, sym,
  text_eq_refl,
}
use hull_ci.Secrets.Mask.{
  Masker, mask_text, min_maskable_len, insert_value, register, replace_loop, replace_all,
  mask_bytes, register_all, masker,
}

-- The value stands somewhere in the text.
unfoldable pub contains : (value text : Text) → Bool
contains value [] = starts_with value []
contains value (c ∷ cs) = starts_with value (c ∷ cs) || contains value cs

-- A value that is not empty and has no byte of the mask.
abbrev pub IsPlain : Text → Type 0
IsPlain [] = ⊥
IsPlain (c ∷ cs) = any (λ x. x == b'*') (c ∷ cs) ≡ false

starts_with-empty : (text : Text) → starts_with [] text ≡ true
unfolding starts_with
starts_with-empty [] = refl
starts_with-empty (c ∷ cs) = refl

starts_with-replace_loop :
    (fuel : ℕ) (value text needle : Text)
    → any (λ x. x == b'*') value ≡ false
    → starts_with value (replace_loop fuel text needle mask_text) ≡ true
    → starts_with value text ≡ true
unfolding starts_with replace_loop any
starts_with-replace_loop f [] text m p h = starts_with-empty text
starts_with-replace_loop zero (x ∷ xs) text m p h = ground arith
starts_with-replace_loop (suc f) (x ∷ xs) [] m p h = ground arith
starts_with-replace_loop (suc f) (x ∷ xs) (c ∷ cs) m p h =
    elim (Bool-cases (starts_with m (c ∷ cs))) [
      | inl e ↦ let h' = rw e at h in ground arith
      | inr e ↦ let h' = rw e at h in ground (arith, starts_with-replace_loop f xs cs m)
    ]

contains-drop :
    (n : ℕ) (value text : Text) → contains value (drop n text) ≡ true → contains value text ≡ true
unfolding contains
contains-drop zero v t h = h
contains-drop (suc n) v [] h = h
contains-drop (suc n) v (c ∷ cs) h = ground (arith, contains-drop n v cs)

contains-mask_text :
    (value rest : Text)
    → IsPlain value
    → contains value (mask_text ++ rest) ≡ true
    → contains value rest ≡ true
unfolding contains starts_with any
contains-mask_text [] rest p h = absurd p
contains-mask_text (x ∷ xs) rest p h = ground arith

true-ne-false : {b : Bool} → b ≡ true → b ≡ false → ⊥
true-ne-false h k = ground arith

not-true : {b : Bool} → (b ≡ true → ⊥) → b ≡ false
not-true {b} h = elim (Bool-cases b) [ inl e ↦ absurd (h e) | inr e ↦ e ]

starts_with-length :
    (value text : Text) → starts_with value text ≡ true → length value ≤ length text
unfolding starts_with
starts_with-length [] t h = omega arith
starts_with-length (x ∷ xs) [] h = ground arith
starts_with-length (x ∷ xs) (c ∷ cs) h = ground (arith, starts_with-length xs cs)

nil-contains : (x : ℕ) (xs : Text) → contains (x ∷ xs) [] ≡ false
unfolding contains starts_with
nil-contains x xs = refl

either-contains :
    (value : Text) (c : ℕ) (cs out : Text)
    → (starts_with value (c ∷ out) ≡ true → starts_with value (c ∷ cs) ≡ true)
    → (contains value out ≡ true → contains value cs ≡ true)
    → contains value (c ∷ out) ≡ true
    → contains value (c ∷ cs) ≡ true
unfolding contains
either-contains v c cs out first later h = ground arith

neither-contains :
    (value : Text) (c : ℕ) (out : Text)
    → (starts_with value (c ∷ out) ≡ true → ⊥)
    → contains value out ≡ false
    → contains value (c ∷ out) ≡ false
unfolding contains
neither-contains v c out first later = ground arith

not-contains-mask_text :
    (value rest : Text)
    → IsPlain value
    → contains value rest ≡ false
    → contains value (mask_text ++ rest) ≡ false
not-contains-mask_text v rest p h = not-true (λ t. true-ne-false (contains-mask_text v rest p t) h)

-- What is left of a value was in the text before.
contains-replace_loop :
    (fuel : ℕ) (value text needle : Text)
    → IsPlain value
    → contains value (replace_loop fuel text needle mask_text) ≡ true
    → contains value text ≡ true
unfolding contains replace_loop
contains-replace_loop f [] text m p h = absurd p
contains-replace_loop zero (x ∷ xs) text m p h = absurd (true-ne-false h (nil-contains x xs))
contains-replace_loop (suc f) (x ∷ xs) [] m p h = h
contains-replace_loop (suc f) (x ∷ xs) (c ∷ cs) m p h = elim (Bool-cases (starts_with m (c ∷ cs))) [
  | inl e ↦ contains-drop (length m) (x ∷ xs) (c ∷ cs) (
      contains-replace_loop f (x ∷ xs) (drop (length m) (c ∷ cs)) m p
        (contains-mask_text (x ∷ xs) _ p (rw e at h)))
  | inr e ↦
      either-contains (x ∷ xs) c cs (replace_loop f cs m mask_text)
        (λ s. starts_with-replace_loop (suc f) (x ∷ xs) (c ∷ cs) m p (rw e s))
        (contains-replace_loop f (x ∷ xs) cs m p) (rw e at h)
]

-- The loop leaves no value that it replaces.
replace_loop-hides :
    (fuel : ℕ) (value text : Text)
    → IsPlain value
    → contains value (replace_loop fuel text value mask_text) ≡ false
unfolding contains replace_loop
replace_loop-hides f [] text p = absurd p
replace_loop-hides zero (x ∷ xs) text p = nil-contains x xs
replace_loop-hides (suc f) (x ∷ xs) [] p = nil-contains x xs
replace_loop-hides (suc f) (x ∷ xs) (c ∷ cs) p = elim (Bool-cases (starts_with (x ∷ xs) (c ∷ cs))) [
  | inl e ↦ rw e (
      not-contains-mask_text (x ∷ xs) _ p
        (replace_loop-hides f (x ∷ xs) (drop (length (x ∷ xs)) (c ∷ cs)) p))
  | inr e ↦ rw e (
      neither-contains (x ∷ xs) c (replace_loop f cs (x ∷ xs) mask_text)
        (λ s.
          true-ne-false (starts_with-replace_loop (suc f) (x ∷ xs) (c ∷ cs) (x ∷ xs) p (rw e s)) e)
        (replace_loop-hides f (x ∷ xs) cs p))
]

contains-length : (value text : Text) → contains value text ≡ true → length value ≤ length text
unfolding contains
contains-length v [] h = starts_with-length v [] h
contains-length v (c ∷ cs) h = ground (arith, contains-length v cs, starts_with-length v (c ∷ cs))

replace_all-hides :
    (value text : Text) → IsPlain value → contains value (replace_all text value mask_text) ≡ false
unfolding replace_all
replace_all-hides [] text p = absurd p
replace_all-hides (x ∷ xs) text p =
    ground (arith, replace_loop-hides (length text) (x ∷ xs) text, contains-length (x ∷ xs) text)

contains-replace_all :
    (value text needle : Text)
    → IsPlain value
    → contains value (replace_all text needle mask_text) ≡ true
    → contains value text ≡ true
unfolding replace_all
contains-replace_all v text [] p h = h
contains-replace_all v text (n ∷ ns) p h =
    ground (arith, contains-replace_loop (length text) v text (n ∷ ns) p)

contains-mask_bytes :
    (values : Masker) (value text : Text)
    → IsPlain value
    → contains value (mask_bytes values text) ≡ true
    → contains value text ≡ true
unfolding mask_bytes
contains-mask_bytes [] v text p h = h
contains-mask_bytes (w ∷ ws) v text p h =
    contains-replace_all v text w p (contains-mask_bytes ws v (replace_all text w mask_text) p h)

mask_bytes-hides :
    (values : Masker) (value text : Text)
    → any (λ v. text_eq v value) values ≡ true
    → IsPlain value
    → contains value (mask_bytes values text) ≡ false
unfolding mask_bytes any
mask_bytes-hides [] v text h p = ground arith
mask_bytes-hides (w ∷ ws) v text h p = elim (Bool-cases (text_eq w v)) [
  | inl e ↦ not-true (λ t.
      true-ne-false (contains-mask_bytes ws v (replace_all text w mask_text) p t) (
        subst (λ u. contains v (replace_all text u mask_text) ≡ false) (sym ((text_eq_iff w v).0 e))
          (replace_all-hides v text p)))
  | inr e ↦ mask_bytes-hides ws v (replace_all text w mask_text) (rw e at h) p
]

any-insert_value :
    (p : Text → Bool) (v : Text) (ws : Masker) → any p (insert_value v ws) ≡ (p v || any p ws)
unfolding any insert_value
any-insert_value p v [] = refl
any-insert_value p v (w ∷ ws) = ground (arith, any-insert_value p v ws)

-- A value that is registered stays so.
register-keeps :
    (m : Masker) (v value : Text)
    → any (λ w. text_eq w value) m ≡ true
    → any (λ w. text_eq w value) (register m v).0 ≡ true
unfolding register
register-keeps m v value h = ground (arith, any-insert_value (λ w. text_eq w value) v m)

register-holds :
    (m : Masker) (v : Text)
    → min_maskable_len ≤ length v
    → any (λ w. text_eq w v) (register m v).0 ≡ true
unfolding register
register-holds m v h = ground (arith, any-insert_value (λ w. text_eq w v) v m, text_eq_refl v)

register_all-keeps :
    (vs : List Text) (m : Masker) (value : Text)
    → any (λ w. text_eq w value) m ≡ true
    → any (λ w. text_eq w value) (register_all m vs) ≡ true
unfolding register_all
register_all-keeps [] m value h = h
register_all-keeps (v ∷ vs) m value h =
    register_all-keeps vs (register m v).0 value (register-keeps m v value h)

register_all-holds :
    (vs : List Text) (m : Masker) (value : Text)
    → any (λ w. text_eq w value) vs ≡ true
    → min_maskable_len ≤ length value
    → any (λ w. text_eq w value) (register_all m vs) ≡ true
unfolding register_all any
register_all-holds [] m value h k = ground arith
register_all-holds (v ∷ vs) m value h k = elim (Bool-cases (text_eq v value)) [
  | inl e ↦ register_all-keeps vs (register m v).0 value (
      subst (λ u. any (λ w. text_eq w u) (register m v).0 ≡ true) ((text_eq_iff v value).0 e)
        (register-holds m v
          (subst (λ u. min_maskable_len ≤ length u) (sym ((text_eq_iff v value).0 e)) k)))
  | inr e ↦ register_all-holds vs (register m v).0 value (rw e at h) k
]

-- After the secrets of a job are registered, a masked output shows none of them: each one that is of
-- the least length and has no `*` in it is nowhere in what is left of any output.
pub masker-hides :
    (delivered : List Text) (value output : Text)
    → any (λ v. text_eq v value) delivered ≡ true
    → min_maskable_len ≤ length value
    → any (λ c. c == b'*') value ≡ false
    → contains value (mask_bytes (masker delivered) output) ≡ false
unfolding masker
masker-hides delivered [] output h k p = absurd (omega arith)
masker-hides delivered (c ∷ cs) output h k p =
    mask_bytes-hides (register_all [] delivered) (c ∷ cs) output
      (register_all-holds delivered [] (c ∷ cs) h k) p

replace_loop-same :
    (fuel : ℕ) (value text : Text)
    → length text ≤ fuel
    → contains value text ≡ false
    → replace_loop fuel text value mask_text ≡ text
unfolding replace_loop contains
replace_loop-same zero v [] h k = refl
replace_loop-same zero v (c ∷ cs) h k = absurd (omega arith)
replace_loop-same (suc f) v [] h k = refl
replace_loop-same (suc f) v (c ∷ cs) h k = ground (arith, replace_loop-same f v cs)

replace_all-same :
    (value text : Text) → contains value text ≡ false → replace_all text value mask_text ≡ text
unfolding replace_all
replace_all-same [] text h = refl
replace_all-same (x ∷ xs) text h = ground (arith, replace_loop-same (length text) (x ∷ xs) text)

-- Output in which no registered value stands is left as it is.
pub mask_bytes-same :
    (values : Masker) (output : Text)
    → All (λ v. contains v output ≡ false) values
    → mask_bytes values output ≡ output
unfolding mask_bytes
mask_bytes-same [] output h = refl
mask_bytes-same (v ∷ vs) output h =
    rw (replace_all-same v output h.0) (mask_bytes-same vs output h.1)
