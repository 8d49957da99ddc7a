-- ===== src/Proto/Examples.antt =====
-- crates/hull-ci-proto/src/lib.rs: the cleaning of a summary on a text with an escape sequence, and a repository name.
use hull_ci.Base.{◌≡◌, refl, Text, lit, [], ◌∷◌, any, text_eq}
use hull_ci.Proto.Chars.{is_control, is_ascii_alphabetic, is_invisible_formatting}
use hull_ci.Proto.Sanitize.{sanitize_summary}
use hull_ci.Proto.Sanitize.Clean.{IsClean, sanitize_summary-IsClean}
use hull_ci.Proto.Sanitize.Idem.{sanitize_summary_idem}
use hull_ci.Proto.Paths.{canonical_repo, ok, split}
use hull_ci.Proto.Paths.Canonical.{IsCanonical, canonical_repo-IsCanonical}

-- An escape, the rest of a colour sequence, and text with a doubled space.
abbrev painted : Text
painted = 0x1b ∷ lit "[31mred  text"

sanitize_summary-painted : sanitize_summary painted 5 ≡ lit "red t"
unfolding sanitize_summary lit is_control is_ascii_alphabetic is_invisible_formatting
sanitize_summary-painted = refl

sanitize_summary-IsClean_example : IsClean 5 (sanitize_summary painted 5)
sanitize_summary-IsClean_example = sanitize_summary-IsClean painted 5

sanitize_summary_idem_run :
    sanitize_summary (sanitize_summary painted 5) 5 ≡ sanitize_summary painted 5
sanitize_summary_idem_run = sanitize_summary_idem painted 5

-- A repository name with white space around its segments.
abbrev spaced : Text
spaced = b' ' ∷ b'a' ∷ b' ' ∷ b'/' ∷ b'B' ∷ []

spaced_accepted : canonical_repo spaced ≡ ok (b'a' ∷ b'/' ∷ b'B' ∷ [])
unfolding canonical_repo any text_eq split
spaced_accepted = refl

canonical_repo-IsCanonical_example : IsCanonical spaced (b'a' ∷ b'/' ∷ b'B' ∷ [])
canonical_repo-IsCanonical_example = canonical_repo-IsCanonical spaced _ spaced_accepted
