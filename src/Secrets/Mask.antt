-- ===== src/Secrets/Mask.antt =====
-- crates/hull-ci-secrets/src/mask.rs: the values that are redacted from captured output. A value and an
-- output are lists of bytes.
pub mod Hidden
use hull_ci.Base.{
  ℕ, zero, suc, ◌+◌, Bool, true, false, List, [], ◌∷◌, ◌++◌, Text, text_eq, any, length, drop, ltb,
  leb, starts_with, if◌then◌else◌,
}

abbrev pub mask_text : Text
mask_text = b'*' ∷ b'*' ∷ b'*' ∷ []

abbrev pub min_maskable_len : ℕ
min_maskable_len = 6

abbrev pub Masker : Type 0
Masker = List Text

-- Where a stable sort by falling length puts a value that was pushed at the end of a sorted list: after
-- every value that is as long.
unfoldable pub insert_value : Text → Masker → Masker
insert_value v [] = v ∷ []
insert_value v (w ∷ ws) = if leb (length v) (length w) then w ∷ insert_value v ws else v ∷ w ∷ ws

unfoldable pub register : Masker → Text → Masker × Bool
unfolding any insert_value
register values value =
    if ltb (length value) min_maskable_len
    then (values, false)
    else if any (λ v. text_eq v value) values
    then (values, true)
    else (insert_value value values, true)

unfoldable pub longest_value : Masker → ℕ
longest_value [] = 0
longest_value (v ∷ vs) = length v

-- The loop over `i`: what it has yet to read is `haystack`. Each round reads a byte at least, so its
-- length is fuel enough.
unfoldable pub replace_loop : ℕ → (haystack needle replacement : Text) → Text
unfolding starts_with
replace_loop zero haystack needle replacement = []
replace_loop (suc fuel) [] needle replacement = []
replace_loop (suc fuel) (c ∷ cs) needle replacement =
    let after = replace_loop fuel (drop (length needle) (c ∷ cs)) needle replacement in
    let onward = replace_loop fuel cs needle replacement in
    if starts_with needle (c ∷ cs) then replacement ++ after else c ∷ onward

unfoldable pub replace_all : (haystack needle replacement : Text) → Text
unfolding replace_loop
replace_all haystack [] replacement = haystack
replace_all haystack (n ∷ ns) replacement =
    if ltb (length haystack) (length (n ∷ ns))
    then haystack
    else replace_loop (length haystack) haystack (n ∷ ns) replacement

unfoldable pub mask_bytes : Masker → Text → Text
unfolding replace_all
mask_bytes [] bytes = bytes
mask_bytes (v ∷ vs) bytes = mask_bytes vs (replace_all bytes v mask_text)

-- `DeliveredSecrets::masker` of broker.rs: a masker of the values that were delivered.
unfoldable pub register_all : Masker → List Text → Masker
unfolding register
register_all m [] = m
register_all m (v ∷ vs) = register_all (register m v).0 vs

unfoldable pub masker : List Text → Masker
unfolding register_all
masker delivered = register_all [] delivered
