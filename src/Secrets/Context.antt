-- ===== src/Secrets/Context.antt =====
-- crates/hull-ci-secrets/src/lib.rs: the names of secrets, and the associated data that bind a
-- ciphertext or a signature to its context. Texts are their bytes.
pub mod Injective
use hull_ci.Base.{
  ℕ, ◌/◌, ◌%◌, ◌^◌, Bool, true, false, ◌&&◌, ◌||◌, List, [], ◌∷◌, ◌++◌, Text, lit, text_eq, any,
  all, leb, length, ◌==◌, if◌then◌else◌,
}
use hull_ci.Secrets.Error.{Result, ok, err, invalid_name, reserved_name}

-- `char::is_ascii_uppercase` and `is_ascii_digit`.
is_ascii_uppercase : ℕ → Bool
is_ascii_uppercase c = leb b'A' c && leb c b'Z'

is_ascii_digit : ℕ → Bool
is_ascii_digit c = leb b'0' c && leb c b'9'

reserved_names : List Text
reserved_names =
    lit "PATH"
    ∷ lit "HOME"
    ∷ lit "LANG"
    ∷ lit "CI"
    ∷ lit "TMPDIR"
    ∷ lit "IFS"
    ∷ lit "LD_PRELOAD"
    ∷ lit "LD_AUDIT"
    ∷ lit "LD_LIBRARY_PATH"
    ∷ lit "DYLD_INSERT_LIBRARIES"
    ∷ lit "DYLD_LIBRARY_PATH"
    ∷ []

has_name_shape : Text → Bool
unfolding is_ascii_uppercase is_ascii_digit
has_name_shape [] = false
has_name_shape (c ∷ cs) =
    (is_ascii_uppercase c || c == b'_')
    && all (λ d. is_ascii_uppercase d || is_ascii_digit d || d == b'_') cs

unfoldable pub validate_name : Text → Result (Unit {0})
unfolding has_name_shape reserved_names
validate_name name =
    if has_name_shape name
    then if any (λ r. text_eq r name) reserved_names then err (reserved_name name) else ok tt
    else err (invalid_name name)

-- `(n as u32).to_be_bytes()`.
unfoldable pub be_bytes : ℕ → Text
be_bytes n = (n / 2 ^ 24 % 256) ∷ (n / 2 ^ 16 % 256) ∷ (n / 2 ^ 8 % 256) ∷ (n % 256) ∷ []

unfoldable pub with_lengths : List Text → Text
unfolding be_bytes
with_lengths [] = []
with_lengths (f ∷ fs) = be_bytes (length f) ++ f ++ with_lengths fs

unfoldable pub associated_data : (domain : Text) → List Text → Text
unfolding with_lengths
associated_data domain fields = with_lengths (domain ∷ fields)
