-- ===== src/Proto/Paths/Canonical.antt =====
-- crates/hull-ci-proto/src/lib.rs: what a canonical repository name is.
use hull_ci.Base.{
  ℕ, ◌≡◌, refl, ◌≤◌, true, false, List, [], ◌∷◌, ◌++◌, Option, none, some, Text, length,
  length-append, any, ltb, arith, All, map, Bool-cases, inl, inr, ap, ◌∙◌, subst, sym,
}
use hull_ci.Proto.Chars.{is_whitespace, trim, trim_start}
use hull_ci.Proto.Sanitize.Clean.{length-trim_end-le}
use hull_ci.Proto.Paths.{
  Checked, ok, err, split, join, join_more, path_segment_error, check_segments, push_segment,
  canonical_repo, canonical_trimmed, joined, tenant_of, first_segment, non_empty_or, max_repo_len,
}
use hull_ci.Proto.Paths.Segments.{
  IsSegment, no_space, no_slash, IsSegment-trim, IsSegment-no_space, trim-no_space, no_slash-trim,
  no_slash-split, split-join, join-split, split-cons,
}

push_segment-ok :
    (s : Text) (o : Option Text) (r : Checked (List Text)) (ss : List Text)
    → push_segment s o r ≡ ok ss
    → (o ≡ none) × (rest : List Text) × (r ≡ ok rest) × (ss ≡ s ∷ rest)
unfolding push_segment
push_segment-ok s (some why) r ss h = absurd (ground arith)
push_segment-ok s none (err e) ss h = absurd (ground arith)
push_segment-ok s none (ok rest) ss h = (refl, rest, refl, ground arith)

-- The checks over all segments succeed with the trimmed segments, which are then segments.
check_segments-ok :
    (raws ss : List Text) → check_segments raws ≡ ok ss → (ss ≡ map trim raws) × All IsSegment ss
unfolding check_segments
check_segments-ok [] [] h = (refl, tt)
check_segments-ok [] (s ∷ ss) h = absurd (ground arith)
check_segments-ok (raw ∷ raws) ss h =
    let (seg, rest, e, same) = push_segment-ok (trim raw) _ (check_segments raws) ss h in
    let (trimmed, all) = check_segments-ok raws rest e in
    (same ∙ ap (λ (us : List Text). trim raw ∷ us) trimmed, rw same (seg, all))

push_segment-none :
    (s raw : Text) (r : Checked (List Text))
    → raw ≡ s
    → IsSegment s
    → push_segment raw (path_segment_error raw) r ≡ push_segment s none r
push_segment-none s raw r e seg =
    ap (λ (u : Text). push_segment u (path_segment_error u) r) e ∙ ap (λ o. push_segment s o r) seg

check_segments-IsSegment : (ss : List Text) → All IsSegment ss → check_segments ss ≡ ok ss
unfolding check_segments
check_segments-IsSegment [] a = refl
check_segments-IsSegment (s ∷ ss) (seg, a) =
    push_segment-none s (trim s) (check_segments ss) (IsSegment-trim s seg) seg
    ∙ rw (check_segments-IsSegment ss a, push_segment) refl

length-trim_start-le : (s : Text) → length (trim_start s) ≤ length s
unfolding trim_start
length-trim_start-le [] = omega arith
length-trim_start-le (c ∷ s) = ground (arith, length-trim_start-le s)

length-trim-le : (s : Text) → length (trim s) ≤ length s
unfolding trim
length-trim-le s = omega (arith, length-trim_end-le (trim_start s), length-trim_start-le s)

length-join_more-le : (ss : List Text) → length (join_more (map trim ss)) ≤ length (join_more ss)
unfolding join_more
length-join_more-le [] = omega arith
length-join_more-le (s ∷ ss) = omega (
  arith,
  length-append (trim s) (join_more (map trim ss)),
  length-append s (join_more ss),
  length-trim-le s,
  length-join_more-le ss,
)

length-join-le : (ss : List Text) → length (join (map trim ss)) ≤ length (join ss)
unfolding join
length-join-le [] = omega arith
length-join-le (s ∷ ss) = omega (
  arith,
  length-append (trim s) (join_more (map trim ss)),
  length-append s (join_more ss),
  length-trim-le s,
  length-join_more-le ss,
)

no_space-append : (s t : Text) → no_space s ≡ true → no_space t ≡ true → no_space (s ++ t) ≡ true
unfolding no_space any
no_space-append [] t h k = k
no_space-append (c ∷ s) t h k = ground (arith, no_space-append s t)

no_space-nil : no_space [] ≡ true
unfolding no_space any
no_space-nil = refl

no_space-slash : (s : Text) → no_space s ≡ true → no_space (b'/' ∷ s) ≡ true
unfolding no_space any is_whitespace
no_space-slash s h = h

no_space-join_more : (ss : List Text) → All IsSegment ss → no_space (join_more ss) ≡ true
unfolding join_more
no_space-join_more [] a = no_space-nil
no_space-join_more (s ∷ ss) (seg, a) =
    no_space-append (b'/' ∷ s) (join_more ss) (no_space-slash s (IsSegment-no_space s seg))
      (no_space-join_more ss a)

no_space-join : (ss : List Text) → All IsSegment ss → no_space (join ss) ≡ true
unfolding join
no_space-join [] a = no_space-nil
no_space-join (s ∷ ss) (seg, a) =
    no_space-append s (join_more ss) (IsSegment-no_space s seg) (no_space-join_more ss a)

no_slash-map-trim :
    (ss : List Text) → All (λ s. no_slash s ≡ true) ss → All (λ s. no_slash s ≡ true) (map trim ss)
no_slash-map-trim [] a = tt
no_slash-map-trim (s ∷ ss) (h, a) = (no_slash-trim s h, no_slash-map-trim ss a)

short : (t : Text) → length t ≤ max_repo_len → ltb max_repo_len (length t) ≡ false
short t h = ground arith

non_empty_or-IsSegment : (s t : Text) → IsSegment s → non_empty_or s t ≡ s
unfolding path_segment_error non_empty_or
non_empty_or-IsSegment [] t h = absurd (ground arith)
non_empty_or-IsSegment (c ∷ s) t h = refl

-- A path of segments is its own canonical spelling.
canonical_trimmed-segments :
    (s : Text) (ss : List Text)
    → All IsSegment (s ∷ ss)
    → split (join (s ∷ ss)) ≡ s ∷ ss
    → length (join (s ∷ ss)) ≤ max_repo_len
    → canonical_trimmed (join (s ∷ ss)) ≡ ok (join (s ∷ ss))
unfolding canonical_trimmed join path_segment_error
canonical_trimmed-segments [] ss (seg, a) e h = absurd (ground arith)
canonical_trimmed-segments (c ∷ s) ss a e h =
    rw (short (join ((c ∷ s) ∷ ss)) h, e, check_segments-IsSegment ((c ∷ s) ∷ ss) a, joined) refl

canonical_repo-segments :
    (s : Text) (ss : List Text)
    → All IsSegment (s ∷ ss)
    → split (join (s ∷ ss)) ≡ s ∷ ss
    → length (join (s ∷ ss)) ≤ max_repo_len
    → canonical_repo (join (s ∷ ss)) ≡ ok (join (s ∷ ss))
unfolding canonical_repo
canonical_repo-segments s ss a e h =
    ap canonical_trimmed (trim-no_space _ (no_space-join (s ∷ ss) a))
    ∙ canonical_trimmed-segments s ss a e h

-- The first segment of a path of segments is its tenant.
tenant_of-segments :
    (s : Text) (ss : List Text)
    → All IsSegment (s ∷ ss)
    → split (join (s ∷ ss)) ≡ s ∷ ss
    → tenant_of (join (s ∷ ss)) ≡ s
unfolding tenant_of
tenant_of-segments s ss a e =
    rw (trim-no_space (join (s ∷ ss)) (no_space-join (s ∷ ss) a), e, first_segment)
      (rw (IsSegment-trim s a.0) (non_empty_or-IsSegment s _ a.0))

-- What is promised of a repository name that is accepted.
pub record IsCanonical (repo out : Text) : Type 0 where
  pub bounded : length out ≤ max_repo_len
  pub segments : All IsSegment (split out)
  pub fixed : canonical_repo out ≡ ok out
  pub tenant : tenant_of out ≡ tenant_of repo
  pub owner : (rest : List Text) × (split out ≡ tenant_of repo ∷ rest)

tenant_of-trim :
    (repo t raw : Text) (raws : List Text)
    → trim repo ≡ t
    → split t ≡ raw ∷ raws
    → IsSegment (trim raw)
    → tenant_of repo ≡ trim raw
unfolding tenant_of
tenant_of-trim repo t raw raws e k seg =
    rw (e, k, first_segment) (non_empty_or-IsSegment (trim raw) t seg)

within_bound : {a b c m : ℕ} → a ≤ b → b ≡ c → c ≤ m → a ≤ m
within_bound h e k = omega arith

trimmed-IsCanonical :
    (repo t raw : Text) (raws : List Text)
    → trim repo ≡ t
    → split t ≡ raw ∷ raws
    → All IsSegment (trim raw ∷ map trim raws)
    → length t ≤ max_repo_len
    → IsCanonical repo (join (trim raw ∷ map trim raws))
trimmed-IsCanonical repo t raw raws e k a h =
    let flat = subst (All (λ s. no_slash s ≡ true)) k (no_slash-split t) in
    let apart = split-join (trim raw) (map trim raws) (no_slash-map-trim (raw ∷ raws) flat) in
    let whole = ap (λ (u : Text). length u) (ap join (sym k) ∙ join-split t) in
    let bound = within_bound (length-join-le (raw ∷ raws)) whole h in
    let same = tenant_of-trim repo t raw raws e k a.0 in
    record {
      bounded = bound;
      segments = rw apart a;
      fixed = canonical_repo-segments (trim raw) (map trim raws) a apart bound;
      tenant = tenant_of-segments (trim raw) (map trim raws) a apart ∙ sym same;
      owner = (map trim raws, rw (apart, same) refl);
    }

joined-ok :
    (r : Checked (List Text)) (out : Text)
    → joined r ≡ ok out
    → (ss : List Text) × (r ≡ ok ss) × (join ss ≡ out)
unfolding joined
joined-ok (ok ss) out h = (ss, refl, ground arith)
joined-ok (err e) out h = absurd (ground arith)

short_enough :
    (t out : Text)
    → canonical_trimmed t ≡ ok out
    → (length t ≤ max_repo_len) × (joined (check_segments (split t)) ≡ ok out)
unfolding canonical_trimmed
short_enough [] out h = absurd (ground arith)
short_enough (c ∷ cs) out h = elim (Bool-cases (ltb max_repo_len (length (c ∷ cs)))) [
  | inl e ↦ absurd (ground arith)
  | inr e ↦ (ground arith, ground arith)
]

-- A repository name that is accepted comes out in the one spelling that the function leaves alone: at
-- most 256 characters, every segment between its slashes usable as a name, the first of them the
-- tenant, and the same tenant as the name that came in.
pub canonical_repo-IsCanonical :
    (repo out : Text) → canonical_repo repo ≡ ok out → IsCanonical repo out
unfolding canonical_repo
canonical_repo-IsCanonical repo out h =
    let (bound, done) = short_enough (trim repo) out h in
    let (ss, checked, whole) = joined-ok _ out done in
    let (raw, raws, k) = split-cons (trim repo) in
    let (trimmed, a) =
      check_segments-ok (raw ∷ raws) ss (subst (λ us. check_segments us ≡ ok ss) k checked) in
    subst (IsCanonical repo) (ap join (sym trimmed) ∙ whole)
      (trimmed-IsCanonical repo (trim repo) raw raws refl k (subst (All IsSegment) trimmed a) bound)
