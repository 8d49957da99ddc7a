-- ===== src/Proto/Paths/Segments.antt =====
-- crates/hull-ci-proto/src/lib.rs: segments of a path, and splitting and joining them.
use hull_ci.Base.{
  ℕ, ◌≡◌, refl, Bool, true, false, not, ◌||◌, List, [], ◌∷◌, ◌++◌, none, Text, any, ◌==◌, arith,
  All, Bool-cases, inl, inr, ap, ◌∙◌,
}
use hull_ci.Proto.Chars.{
  is_whitespace, is_control, is_invisible_formatting, trim, trim_start, trim_end, push_front,
}
use hull_ci.Proto.Paths.{split, join, join_more, extend, path_segment_error}

-- No white space, and no slash, anywhere.
unfoldable pub no_space : Text → Bool
unfolding any
no_space s = not (any is_whitespace s)

unfoldable pub no_slash : Text → Bool
unfolding any
no_slash s = not (any (λ c. c == b'/') s)

abbrev pub IsSegment : Text → Type 0
IsSegment s = path_segment_error s ≡ none

trim_start-no_space : (s : Text) → no_space s ≡ true → trim_start s ≡ s
unfolding trim_start no_space any
trim_start-no_space [] h = refl
trim_start-no_space (c ∷ cs) h = ground arith

push_front_solid : (c : ℕ) (s : Text) → is_whitespace c ≡ false → push_front c s ≡ c ∷ s
unfolding push_front
push_front_solid c [] h = rw h refl
push_front_solid c (d ∷ s) h = refl

trim_end-no_space : (s : Text) → no_space s ≡ true → trim_end s ≡ s
unfolding trim_end no_space any push_front
trim_end-no_space [] h = refl
trim_end-no_space (c ∷ cs) h =
    ap (push_front c) (trim_end-no_space cs (ground arith)) ∙ push_front_solid c cs (ground arith)

pub trim-no_space : (s : Text) → no_space s ≡ true → trim s ≡ s
unfolding trim
trim-no_space s h = ap trim_end (trim_start-no_space s h) ∙ trim_end-no_space s h

any_or : (p q r : ℕ → Bool) (s : Text) → any (λ d. p d || q d || r d) s ≡ false → any p s ≡ false
unfolding any
any_or p q r [] h = refl
any_or p q r (c ∷ s) h = ground (arith, any_or p q r s)

-- A segment has no white space, and is not empty.
pub IsSegment-no_space : (s : Text) → IsSegment s → no_space s ≡ true
unfolding path_segment_error no_space
IsSegment-no_space [] h = ground arith
IsSegment-no_space (c ∷ s) h =
    ground (arith, any_or is_whitespace is_control is_invisible_formatting (c ∷ s))

pub IsSegment-trim : (s : Text) → IsSegment s → trim s ≡ s
IsSegment-trim s h = trim-no_space s (IsSegment-no_space s h)

no_slash-trim_start : (s : Text) → no_slash s ≡ true → no_slash (trim_start s) ≡ true
unfolding trim_start no_slash any
no_slash-trim_start [] h = refl
no_slash-trim_start (c ∷ cs) h = ground (arith, no_slash-trim_start cs)

no_slash-push_front :
    (c : ℕ) (s : Text)
    → no_slash (c ∷ []) ≡ true
    → no_slash s ≡ true
    → no_slash (push_front c s) ≡ true
unfolding push_front no_slash any
no_slash-push_front c [] h k = ground arith
no_slash-push_front c (d ∷ s) h k = ground arith

no_slash-trim_end : (s : Text) → no_slash s ≡ true → no_slash (trim_end s) ≡ true
unfolding trim_end no_slash any
no_slash-trim_end [] h = refl
no_slash-trim_end (c ∷ cs) h =
    no_slash-push_front c (trim_end cs) (ground arith) (no_slash-trim_end cs (ground arith))

pub no_slash-trim : (s : Text) → no_slash s ≡ true → no_slash (trim s) ≡ true
unfolding trim
no_slash-trim s h = no_slash-trim_end (trim_start s) (no_slash-trim_start s h)

no_slash-extend :
    (c : ℕ) (ss : List Text)
    → (c == b'/') ≡ false
    → All (λ s. no_slash s ≡ true) ss
    → All (λ s. no_slash s ≡ true) (extend c ss)
unfolding extend no_slash any
no_slash-extend c [] h a = (ground arith, tt)
no_slash-extend c (s ∷ ss) h a = (ground arith, a.1)

pub no_slash-split : (t : Text) → All (λ s. no_slash s ≡ true) (split t)
unfolding split no_slash any
no_slash-split [] = (refl, tt)
no_slash-split (c ∷ cs) = elim (Bool-cases (c == b'/')) [
  | inl e ↦ rw (e, split) (refl, no_slash-split cs)
  | inr e ↦ rw (e, split) (no_slash-extend c (split cs) e (no_slash-split cs))
]

no_slash_head : (c : ℕ) (s : Text) → no_slash (c ∷ s) ≡ true → (c == b'/') ≡ false
unfolding no_slash any
no_slash_head c s h = ground arith

no_slash_tail : (c : ℕ) (s : Text) → no_slash (c ∷ s) ≡ true → no_slash s ≡ true
unfolding no_slash any
no_slash_tail c s h = ground arith

pub append_nil : (s : Text) → s ++ [] ≡ s
append_nil [] = refl
append_nil (c ∷ s) = ap (λ (u : Text). c ∷ u) (append_nil s)

-- Splitting undoes the joining of segments without slashes.
split-append :
    (s t : Text)
    → no_slash s ≡ true
    → (a : Text) (ss : List Text) → split t ≡ a ∷ ss
    → split (s ++ t) ≡ (s ++ a) ∷ ss
unfolding split no_slash any
split-append [] t h a ss e = e
split-append (c ∷ s) t h a ss e =
    rw (no_slash_head c s h, split, split-append s t (no_slash_tail c s h) a ss e, extend) refl

split-join_more :
    (ss : List Text) → All (λ s. no_slash s ≡ true) ss → split (join_more ss) ≡ [] ∷ ss
unfolding split join_more
split-join_more [] a = refl
split-join_more (s ∷ ss) a =
    ap (λ (us : List Text). [] ∷ us)
      (split-append s (join_more ss) a.0 [] ss (split-join_more ss a.1)
        ∙ ap (λ u. u ∷ ss) (append_nil s))

pub split-join :
    (s : Text) (ss : List Text)
    → All (λ s. no_slash s ≡ true) (s ∷ ss)
    → split (join (s ∷ ss)) ≡ s ∷ ss
unfolding join
split-join s ss a =
    split-append s (join_more ss) a.0 [] ss (split-join_more ss a.1)
    ∙ ap (λ u. u ∷ ss) (append_nil s)

join_more-extend : (c : ℕ) (ss : List Text) → join_more (extend c ss) ≡ b'/' ∷ join (extend c ss)
unfolding join join_more extend
join_more-extend c [] = refl
join_more-extend c (s ∷ ss) = refl

join-extend : (c : ℕ) (ss : List Text) → join (extend c ss) ≡ c ∷ join ss
unfolding join join_more extend
join-extend c [] = refl
join-extend c (s ∷ ss) = refl

join_more-split : (t : Text) → join_more (split t) ≡ b'/' ∷ join (split t)
unfolding split join join_more
join_more-split [] = refl
join_more-split (c ∷ cs) = elim (Bool-cases (c == b'/')) [
  | inl e ↦ rw (e, split) refl
  | inr e ↦ rw (e, split) (join_more-extend c (split cs))
]

pub join-split : (t : Text) → join (split t) ≡ t
unfolding join split join_more
join-split [] = refl
join-split (c ∷ cs) = elim (Bool-cases (c == b'/')) [
  | inl e ↦ rw (e, split) (join_more-split cs ∙ rw (join-split cs) (ground arith))
  | inr e ↦ rw (e, split) (join-extend c (split cs) ∙ ap (λ (u : Text). c ∷ u) (join-split cs))
]

extend-cons : (c : ℕ) (ss : List Text) → (s : Text) × (rest : List Text) × (extend c ss ≡ s ∷ rest)
unfolding extend
extend-cons c [] = (c ∷ [], [], refl)
extend-cons c (s ∷ ss) = (c ∷ s, ss, refl)

pub split-cons : (t : Text) → (s : Text) × (ss : List Text) × (split t ≡ s ∷ ss)
unfolding split
split-cons [] = ([], [], refl)
split-cons (c ∷ cs) = elim (Bool-cases (c == b'/')) [
  | inl e ↦ ([], split cs, rw (e, split) refl)
  | inr e ↦ let (s, ss, k) = extend-cons c (split cs) in (s, ss, rw (e, split) k)
]
