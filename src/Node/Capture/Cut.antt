-- ===== src/Node/Capture/Cut.antt =====
-- crates/hull-ci-node/src/capture.rs: where a buffer is cut.
use hull_ci.Base.{
  ℕ, zero, suc, ◌+◌, ◌-◌, ◌≤◌, ◌<◌, ◌≡◌, refl, [], ◌∷◌, ◌++◌, Option, some, length, take, drop,
  count, ltb, ◌==◌, arith, Bool-cases, Option-cases, inl, inr, ap, ◌∙◌, sym, some_inj,
}
use hull_ci.Node.Capture.{
  Bytes, OutputCaps, is_newline, count_newlines, next, position, behind, byte_cut, past_newlines,
  or_zero, line_cut, cut_of,
}

pub take-drop : (n : ℕ) (xs : Bytes) → take n xs ++ drop n xs ≡ xs
take-drop zero xs = refl
take-drop (suc n) [] = refl
take-drop (suc n) (x ∷ xs) = ap (λ (ys : Bytes). x ∷ ys) (take-drop n xs)

pub length-take : (n : ℕ) (xs : Bytes) → n ≤ length xs → length (take n xs) ≡ n
length-take zero xs h = refl
length-take (suc n) [] h = absurd (omega arith)
length-take (suc n) (x ∷ xs) h = omega (arith, length-take n xs)

pub length-drop : (n : ℕ) (xs : Bytes) → length (drop n xs) ≡ length xs - n
length-drop zero xs = omega arith
length-drop (suc n) [] = omega arith
length-drop (suc n) (x ∷ xs) = omega (arith, length-drop n xs)

drop-nil : (n : ℕ) → drop {A = ℕ} n [] ≡ []
drop-nil zero = refl
drop-nil (suc n) = refl

add_zero_left : (m : ℕ) → 0 + m ≡ m
add_zero_left m = omega arith

add_suc_left : (n m : ℕ) → suc n + m ≡ suc (n + m)
add_suc_left n m = omega arith

pub drop-add : (n m : ℕ) (xs : Bytes) → drop (n + m) xs ≡ drop m (drop n xs)
drop-add zero m xs = ap (λ k. drop k xs) (add_zero_left m)
drop-add (suc n) m [] = ap (λ k. drop {A = ℕ} k []) (add_suc_left n m) ∙ sym (drop-nil m)
drop-add (suc n) m (x ∷ xs) = ap (λ k. drop k (x ∷ xs)) (add_suc_left n m) ∙ drop-add n m xs

pub count_newlines-append :
    (xs ys : Bytes) → count_newlines (xs ++ ys) ≡ count_newlines xs + count_newlines ys
unfolding count_newlines count
count_newlines-append [] ys = omega arith
count_newlines-append (x ∷ xs) ys = omega (arith, count_newlines-append xs ys)

position-lt : (bs : Bytes) (i : ℕ) → position bs ≡ some i → i < length bs
unfolding position next
position-lt [] i h = absurd (ground arith)
position-lt (b ∷ bs) i h = elim (Bool-cases (is_newline b)) [
  | inl e ↦ let same = some_inj (rw (e, position) at h) in omega (arith, same)
  | inr e ↦ elim (Option-cases (position bs)) [
    | inl f ↦ let bad = rw (e, position, f, next) at h in absurd (ground arith)
    | inr (j, f) ↦
        let same = some_inj (rw (e, position, f, next) at h) in
        omega (arith, same, position-lt bs j f)
  ]
]

byte_cut-fits :
    (caps : OutputCaps) (buf : Bytes)
    → (byte_cut caps buf ≤ length buf) × (length buf - byte_cut caps buf ≤ caps.max_bytes)
unfolding byte_cut
byte_cut-fits caps buf = elim (Bool-cases (ltb caps.max_bytes (length buf))) [
  | inr small ↦ rw small (omega arith, ground arith)
  | inl big ↦
      let cut = length buf - caps.max_bytes in
      elim (Option-cases (position (drop cut buf))) [
        | inl e ↦ rw (big, e, behind) (omega arith, omega arith)
        | inr (off, e) ↦
            let here = position-lt (drop cut buf) off e in
            let rest = length-drop cut buf in
            rw (big, e, behind) (ground (arith, rest), ground (arith, rest))
      ]
]

-- So many newlines off, where there are as many.
past_newlines-counts :
    (e : ℕ) (bs : Bytes)
    → 0 < e
    → e ≤ count_newlines bs
    → (k : ℕ) × (past_newlines e bs ≡ some k)
      × (k ≤ length bs)
      × (count_newlines (drop k bs) + e ≡ count_newlines bs)
unfolding past_newlines count_newlines count next
past_newlines-counts e [] h k = absurd (omega arith)
past_newlines-counts e (b ∷ bs) h k = elim (Bool-cases (is_newline b)) [
  | inr other ↦
      let (n, found, bound, rest) = past_newlines-counts e bs h (ground arith) in
      (
        suc n,
        rw (other, past_newlines, found) refl,
        omega (arith, bound),
        rw other (omega (arith, rest)),
      )
  | inl hit ↦ elim (Bool-cases ((e - 1) == 0)) [
    | inl last ↦ (1, rw (hit, past_newlines, last) refl, omega arith, rw hit (ground arith))
    | inr more ↦
        let (n, found, bound, rest) =
          past_newlines-counts (e - 1) bs (ground arith) (ground arith) in
        (
          suc n,
          rw (hit, past_newlines, more, found) refl,
          omega (arith, bound),
          rw hit (ground (arith, rest)),
        )
  ]
]

or_zero-some : (o : Option ℕ) (k : ℕ) → o ≡ some k → or_zero o ≡ k
unfolding or_zero
or_zero-some o k h = rw h refl

line_cut-fits :
    (caps : OutputCaps) (rest : Bytes)
    → (line_cut caps rest ≤ length rest)
      × (count_newlines (drop (line_cut caps rest) rest) ≤ caps.max_lines)
unfolding line_cut
line_cut-fits caps rest = elim (Bool-cases (ltb caps.max_lines (count_newlines rest))) [
  | inr few ↦ rw few (omega arith, ground arith)
  | inl many ↦
      let (k, found, bound, left) =
        past_newlines-counts (count_newlines rest - caps.max_lines) rest (ground arith)
          (omega arith) in
      rw (many, found, or_zero) (bound, ground (arith, left))
]

-- A cut lies within the buffer, and what is behind it is within both caps.
pub record Fits (caps : OutputCaps) (buf : Bytes) (cut : ℕ) : Type 0 where
  pub within : cut ≤ length buf
  pub bytes : length (drop cut buf) ≤ caps.max_bytes
  pub lines : count_newlines (drop cut buf) ≤ caps.max_lines

pub cut_of-Fits : (caps : OutputCaps) (buf : Bytes) → Fits caps buf (cut_of caps buf)
unfolding cut_of
cut_of-Fits caps buf =
    let a = byte_cut caps buf in
    let b = line_cut caps (drop a buf) in
    let (a_in, a_fits) = byte_cut-fits caps buf in
    let (b_in, b_fits) = line_cut-fits caps (drop a buf) in
    let rest = length-drop a buf in
    record {
      within = omega (arith, a_in, b_in, rest);
      bytes = omega (arith, length-drop (a + b) buf, a_fits, a_in);
      lines = rw (drop-add a b buf) b_fits;
    }
