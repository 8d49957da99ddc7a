-- ===== src/Proto/Sanitize.antt =====
-- crates/hull-ci-proto/src/lib.rs, `sanitize_summary`. The `while let` loop is a fold over the
-- characters; the inner loop that skips a terminal escape is the mode of the fold's state, and
-- `break` sets `stopped`.
pub mod Clean
pub mod Idem
use hull_ci.Base.{
  ℕ, Bool, true, false, ◌||◌, not, ◌&&◌, List, [], ◌∷◌, ◌++◌, Text, length, ◌==◌, leb,
  if◌then◌else◌,
}
use hull_ci.Proto.Chars.{is_control, is_ascii_alphabetic, is_invisible_formatting, trim}

-- `plain` reads text, `bracket` is at the `[` that follows an escape, `sequence` is behind it.
pub data Mode : Type 0 where
  plain bracket sequence : Mode

pub record Scan : Type 0 where
  pub mode : Mode
  pub last_was_space : Bool
  pub out : Text
  pub stopped : Bool

-- `chars.peek()` is `Some('[')`.
abbrev peek_bracket : Text → Bool
peek_bracket [] = false
peek_bracket (c ∷ cs) = c == b'['

-- The character after the control characters became spaces.
flatten_control : ℕ → ℕ
flatten_control c = if is_control c || c == 0x2028 || c == 0x2029 then b' ' else c

-- `out.push(c)` unless `max_chars` are there already.
push : ℕ → ℕ → Scan → Scan
push max_chars c s =
    if leb max_chars (length s.out)
    then record s { stopped = true }
    else record s { out = s.out ++ c ∷ [] }

keep_char : ℕ → ℕ → Scan → Scan
unfolding push
keep_char max_chars c s =
    if is_invisible_formatting c
    then s
    else if c == b' ' && s.last_was_space
    then s
    else push max_chars c (record s { last_was_space = c == b' ' })

read_char : ℕ → Scan → ℕ → Text → Scan
unfolding keep_char flatten_control
read_char max_chars s c rest =
    if c == 0x1b
    then record s { mode = if peek_bracket rest then bracket else plain }
    else keep_char max_chars (flatten_control c) s

-- One character, by the mode.
step_mode : Mode → ℕ → Scan → ℕ → Text → Scan
unfolding read_char
step_mode plain max_chars s c rest = read_char max_chars s c rest
step_mode bracket max_chars s c rest = record s { mode = sequence }
step_mode sequence max_chars s c rest = record s {
  mode = if is_ascii_alphabetic c then plain else sequence;
}

step : ℕ → Scan → ℕ → Text → Scan
unfolding step_mode
step max_chars s c rest = if s.stopped then s else step_mode s.mode max_chars s c rest

run : ℕ → Scan → Text → Scan
unfolding step
run max_chars s [] = s
run max_chars s (c ∷ rest) = run max_chars (step max_chars s c rest) rest

abbrev start : Scan
start = record { mode = plain; last_was_space = false; out = []; stopped = false }

unfoldable pub sanitize_summary : Text → ℕ → Text
unfolding run trim
sanitize_summary raw max_chars = trim (run max_chars start raw).out

abbrev pub summary_max_chars : ℕ
summary_max_chars = 200
