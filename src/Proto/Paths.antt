-- ===== src/Proto/Paths.antt =====
-- crates/hull-ci-proto/src/lib.rs: `tenant_of`, `canonical_repo`, `check_path_segment` and
-- `check_log_key`, the names that become parts of an object key.
pub mod Segments
pub mod Canonical
use hull_ci.Base.{
  ℕ, Bool, true, false, not, ◌||◌, ◌&&◌, List, [], ◌∷◌, ◌++◌, Option, none, some, Text, lit,
  text_eq, length, any, ltb, ◌==◌, if◌then◌else◌,
}
use hull_ci.Proto.Chars.{is_whitespace, is_control, is_invisible_formatting, trim}

-- `ContractError`, the variants that these functions return.
pub data ContractError : Type 0 where
  missing_field : (name : Text) → ContractError
  malformed : (field why : Text) → ContractError

pub data Checked {ℓ} (A : Type ℓ) : Type ℓ where
  ok : A → Checked A
  err : ContractError → Checked A

-- `str::split('/')`: the segments, of which there is always one.
extend : ℕ → List Text → List Text
extend c [] = (c ∷ []) ∷ []
extend c (s ∷ ss) = (c ∷ s) ∷ ss

unfoldable pub split : Text → List Text
unfolding extend
split [] = [] ∷ []
split (c ∷ cs) = if c == b'/' then [] ∷ split cs else extend c (split cs)

-- Segments between slashes, as the loop pushes them.
join_more : List Text → Text
join_more [] = []
join_more (s ∷ ss) = b'/' ∷ s ++ join_more ss

unfoldable pub join : List Text → Text
unfolding join_more
join [] = []
join (s ∷ ss) = s ++ join_more ss

-- `check_path_segment`: why a segment is refused, or none.
unfoldable pub path_segment_error : Text → Option Text
unfolding any is_whitespace is_control is_invisible_formatting
path_segment_error [] = some (lit "empty path segment")
path_segment_error (c ∷ cs) =
    let s = c ∷ cs in
    if text_eq s (b'.' ∷ []) || text_eq s (b'.' ∷ b'.' ∷ [])
    then some (lit "`.` and `..` are not names")
    else if any (λ d. is_whitespace d || is_control d || is_invisible_formatting d) s
    then some (lit "whitespace, control or invisible characters in a path segment")
    else if any (λ d. d == 0x5c) s
    then some (lit "`\\` is a path separator, not a name character")
    else none

first_segment : List Text → Text → Text
first_segment [] repo = repo
first_segment (s ∷ ss) repo = s

non_empty_or : Text → Text → Text
non_empty_or [] repo = repo
non_empty_or (c ∷ cs) repo = c ∷ cs

unfoldable pub tenant_of : Text → Text
unfolding first_segment non_empty_or trim split
tenant_of repo =
    let whole = trim repo in non_empty_or (trim (first_segment (split whole) whole)) whole

abbrev pub max_repo_len : ℕ
max_repo_len = 256

-- The loop over the segments: the first that is refused decides.
push_segment : Text → Option Text → Checked (List Text) → Checked (List Text)
push_segment s (some why) rest = err (malformed (lit "repo") why)
push_segment s none (ok ss) = ok (s ∷ ss)
push_segment s none (err e) = err e

unfoldable pub check_segments : List Text → Checked (List Text)
unfolding push_segment path_segment_error trim
check_segments [] = ok []
check_segments (raw ∷ raws) =
    push_segment (trim raw) (path_segment_error (trim raw)) (check_segments raws)

joined : Checked (List Text) → Checked Text
unfolding join
joined (ok ss) = ok (join ss)
joined (err e) = err e

canonical_trimmed : Text → Checked Text
unfolding joined check_segments
canonical_trimmed [] = err (missing_field (lit "repo"))
canonical_trimmed (c ∷ cs) =
    if ltb max_repo_len (length (c ∷ cs))
    then err (malformed (lit "repo") (lit "longer than 256 characters"))
    else joined (check_segments (split (c ∷ cs)))

unfoldable pub canonical_repo : Text → Checked Text
unfolding canonical_trimmed trim
canonical_repo repo = canonical_trimmed (trim repo)

abbrev pub max_log_key_len : ℕ
max_log_key_len = 1024

first_error : Option Text → Option Text → Option Text
first_error (some why) later = some why
first_error none later = later

unfoldable pub log_key_segments : List Text → Option Text
unfolding first_error path_segment_error
log_key_segments [] = none
log_key_segments (s ∷ ss) = first_error (path_segment_error s) (log_key_segments ss)

unfoldable pub log_key_error : Text → Option Text
unfolding log_key_segments split
log_key_error key =
    if length key == 0 || ltb max_log_key_len (length key)
    then some (lit "empty or longer than 1024 characters")
    else log_key_segments (split key)
