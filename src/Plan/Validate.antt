-- ===== src/Plan/Validate.antt =====
-- crates/hull-ci-plan/src/validate.rs: the checks of names, lists and timeouts. A text is its characters.
pub mod Timeout
use hull_ci.Base.{
  ℕ, zero, suc, ◌+◌, ◌-◌, ◌*◌, ◌^◌, Bool, true, false, not, ◌&&◌, ◌||◌, List, [], ◌∷◌, Option, none,
  some, Text, lit, text_eq, any, all, leb, ltb, length, ◌==◌, if◌then◌else◌,
}
use hull_ci.Plan.Error.{
  Result, ok, err, invalid, Field, run, name_length, name_charset, cache_scope_shape,
  image_ref_shape, unknown_action, timeout_syntax, timeout_too_long, string_too_long,
  control_characters,
}

abbrev pub max_name_len : ℕ
max_name_len = 64

abbrev pub max_cache_scope_len : ℕ
max_cache_scope_len = 64

abbrev pub max_image_ref_len : ℕ
max_image_ref_len = 512

abbrev pub max_run_len : ℕ
max_run_len = 8192

abbrev pub max_list_item_len : ℕ
max_list_item_len = 1024

abbrev pub max_list_len : ℕ
max_list_len = 1024

abbrev pub max_timeout_hours : ℕ
max_timeout_hours = 24

-- `char::is_ascii_alphanumeric` and `is_control`.
unfoldable pub is_ascii_digit : ℕ → Bool
is_ascii_digit c = leb b'0' c && leb c b'9'

unfoldable pub is_ascii_alphanumeric : ℕ → Bool
unfolding is_ascii_digit
is_ascii_alphanumeric c =
    is_ascii_digit c || (leb b'a' c && leb c b'z') || (leb b'A' c && leb c b'Z')

unfoldable pub is_control : ℕ → Bool
is_control c = ltb c 32 || (leb 127 c && ltb c 160)

unfoldable pub is_name_char : ℕ → Bool
unfolding is_ascii_alphanumeric
is_name_char c = is_ascii_alphanumeric c || c == b'_' || c == b'-' || c == b'/'

unfoldable pub check_step_name : Text → Result (Unit {0})
unfolding all is_name_char
check_step_name name =
    if length name == 0 || ltb max_name_len (length name)
    then err (invalid (name_length (length name) max_name_len))
    else if not (all is_name_char name)
    then err (invalid (name_charset name))
    else ok tt

is_scope_char : ℕ → Bool
unfolding is_ascii_alphanumeric
is_scope_char c = is_ascii_alphanumeric c || c == b'_' || c == b'-'

unfoldable pub check_cache_scope : Text → Result (Unit {0})
unfolding all is_scope_char
check_cache_scope name =
    if length name == 0 || ltb max_cache_scope_len (length name)
    then err (invalid (cache_scope_shape max_cache_scope_len))
    else if not (all is_scope_char name)
    then err (invalid (cache_scope_shape max_cache_scope_len))
    else ok tt

unfoldable pub check_image_ref : Text → Result (Unit {0})
unfolding any is_control
check_image_ref reference =
    if length reference == 0 || ltb max_image_ref_len (length reference) || any is_control reference
    then err (invalid (image_ref_shape max_image_ref_len))
    else ok tt

unfoldable pub check_action : Text → List Text → Result (Unit {0})
unfolding any
check_action uses registry =
    if any (λ a. text_eq a uses) registry then ok tt else err (invalid (unknown_action uses))

-- `chars().next_back()` and what is before it.
unfoldable pub split_last : Text → Option (Text × ℕ)
split_last [] = none
split_last (c ∷ cs) = elim (split_last cs) [
  | none ↦ some ([], c)
  | some (front, last) ↦ some (c ∷ front, last)
]

unfoldable pub u64_mod : ℕ
u64_mod = 2 ^ 64

-- `checked_mul` and `checked_add` of a `u64`.
unfoldable pub fits_u64 : ℕ → Option ℕ
unfolding u64_mod
fits_u64 n = if ltb n u64_mod then some n else none

-- The digits of a `u64` after those that make up `value`.
unfoldable pub digits_from : ℕ → Text → Option ℕ
unfolding fits_u64
digits_from value [] = some value
digits_from value (c ∷ cs) =
    let more = digits_from (value * 10 + (c - b'0')) cs in
    if is_ascii_digit c then if ltb (value * 10 + (c - b'0')) u64_mod then more else none else none

-- `str::parse::<u64>`: an optional `+`, and one digit at least.
unfoldable pub parse_u64 : Text → Option ℕ
unfolding digits_from
parse_u64 [] = none
parse_u64 (c ∷ []) = digits_from 0 (c ∷ [])
parse_u64 (c ∷ d ∷ ds) =
    let plain = digits_from 0 (c ∷ d ∷ ds) in if c == b'+' then digits_from 0 (d ∷ ds) else plain

-- The seconds of a number of units.
seconds : ℕ → ℕ → Option ℕ
unfolding fits_u64
seconds unit n =
    if unit == b's'
    then some n
    else if unit == b'm'
    then fits_u64 (n * 60)
    else if unit == b'h'
    then fits_u64 (n * 3600)
    else none

within_ceiling : Text → Option ℕ → Result ℕ
within_ceiling raw none = err (invalid (timeout_syntax raw))
within_ceiling raw (some secs) =
    if ltb (max_timeout_hours * 3600) secs
    then err (invalid (timeout_too_long raw max_timeout_hours))
    else ok secs

timeout_of : Text → ℕ → Option ℕ → Result ℕ
unfolding within_ceiling seconds
timeout_of raw unit none = err (invalid (timeout_syntax raw))
timeout_of raw unit (some n) =
    if n == 0 then err (invalid (timeout_syntax raw)) else within_ceiling raw (seconds unit n)

timeout_parts : Text → Option (Text × ℕ) → Result ℕ
unfolding timeout_of parse_u64
timeout_parts raw none = err (invalid (timeout_syntax raw))
timeout_parts raw (some (digits, unit)) = timeout_of raw unit (parse_u64 digits)

-- A duration in seconds.
unfoldable pub parse_timeout : Text → Result ℕ
unfolding timeout_parts split_last
parse_timeout raw = timeout_parts raw (split_last raw)

unfoldable pub check_list_item : Field → (step item : Text) → Result (Unit {0})
unfolding any is_control
check_list_item field step item =
    if ltb max_list_item_len (length item)
    then err (invalid (string_too_long field step max_list_item_len))
    else if any is_control item
    then err (invalid (control_characters field step))
    else ok tt

unfoldable pub check_run : (step run_text : Text) → Result (Unit {0})
unfolding any is_control
check_run step run_text =
    if ltb max_run_len (length run_text)
    then err (invalid (string_too_long run step max_run_len))
    else if any (λ c. is_control c && not (c == 10 || c == 9)) run_text
    then err (invalid (control_characters run step))
    else ok tt
