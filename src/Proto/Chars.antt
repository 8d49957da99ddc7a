-- ===== src/Proto/Chars.antt =====
-- The character classes of crates/hull-ci-proto/src/lib.rs, on code points: the ones of the standard
-- library that the source calls (`char::is_control`, `is_whitespace`, `is_ascii_alphabetic`,
-- `str::trim`) and `is_invisible_formatting`.
use hull_ci.Base.{ℕ, Bool, ◌&&◌, ◌||◌, [], ◌∷◌, Text, ◌==◌, leb, ltb, if◌then◌else◌}

-- `char::is_control`: the category Cc.
unfoldable pub is_control : ℕ → Bool
is_control c = ltb c 32 || (leb 127 c && leb c 159)

-- `char::is_whitespace`: the property White_Space.
unfoldable pub is_whitespace : ℕ → Bool
is_whitespace c =
    (leb 9 c && leb c 13)
    || c == 32
    || c == 0x85
    || c == 0xa0
    || c == 0x1680
    || (leb 0x2000 c && leb c 0x200a)
    || c == 0x2028
    || c == 0x2029
    || c == 0x202f
    || c == 0x205f
    || c == 0x3000

unfoldable pub is_ascii_alphabetic : ℕ → Bool
is_ascii_alphabetic c = (leb b'a' c && leb c b'z') || (leb b'A' c && leb c b'Z')

unfoldable pub is_ascii_digit : ℕ → Bool
is_ascii_digit c = leb b'0' c && leb c b'9'

unfoldable pub is_ascii_alphanumeric : ℕ → Bool
unfolding is_ascii_alphabetic is_ascii_digit
is_ascii_alphanumeric c = is_ascii_alphabetic c || is_ascii_digit c

within : ℕ → ℕ → ℕ → Bool
within lo hi c = leb lo c && leb c hi

unfoldable pub is_invisible_formatting : ℕ → Bool
unfolding within
is_invisible_formatting c =
    c == 0xad
    || c == 0x61c
    || c == 0x180e
    || within 0x200b 0x200f c
    || within 0x202a 0x202e c
    || within 0x2060 0x2064 c
    || within 0x2066 0x206f c
    || c == 0xfeff
    || within 0xfff9 0xfffb c
    || c == 0x110bd
    || c == 0x110cd
    || within 0x13430 0x1343f c
    || within 0x1bca0 0x1bca3 c
    || within 0x1d173 0x1d17a c
    || c == 0xe0001
    || within 0xe0020 0xe007f c

-- `str::trim`, as its two ends.
unfoldable pub trim_start : Text → Text
unfolding is_whitespace
trim_start [] = []
trim_start (c ∷ cs) = let rest = trim_start cs in if is_whitespace c then rest else c ∷ cs

unfoldable pub push_front : ℕ → Text → Text
push_front c [] = if is_whitespace c then [] else c ∷ []
push_front c (d ∷ ds) = c ∷ d ∷ ds

unfoldable pub trim_end : Text → Text
unfolding push_front is_whitespace
trim_end [] = []
trim_end (c ∷ cs) = push_front c (trim_end cs)

unfoldable pub trim : Text → Text
unfolding trim_start trim_end
trim s = trim_end (trim_start s)
