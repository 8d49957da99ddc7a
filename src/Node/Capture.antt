-- ===== src/Node/Capture.antt =====
-- crates/hull-ci-node/src/capture.rs: the bounded buffer of a step's output. Bytes and `usize` are
-- natural numbers, with the saturating additions at 64 bits written out; the two `u64` counters of
-- what was dropped are exact, as no job prints 2 ^ 64 bytes.
pub mod Cut
pub mod Inv
use hull_ci.Base.{
  ℕ, zero, suc, ◌+◌, ◌-◌, ◌/◌, ◌*◌, ◌^◌, min, max, Bool, true, false, ◌||◌, List, [], ◌∷◌, ◌++◌,
  Option, none, some, length, take, drop, count, ltb, ◌==◌, if◌then◌else◌,
}

abbrev pub Bytes : Type 0
Bytes = List ℕ

pub record OutputCaps : Type 0 where
  pub max_bytes : ℕ
  pub max_lines : ℕ

abbrev pub default_caps : OutputCaps
default_caps = record { max_bytes = 50 * 1024 * 1024; max_lines = 500_000 }

abbrev pub byte_slack : OutputCaps → ℕ
byte_slack caps = max (caps.max_bytes / 8) (64 * 1024)

abbrev pub line_slack : OutputCaps → ℕ
line_slack caps = max (caps.max_lines / 8) 1024

unfoldable pub saturating_add : ℕ → ℕ → ℕ
saturating_add a b = min (a + b) (2 ^ 64 - 1)

pub record OutputCapture : Type 0 where
  pub caps : OutputCaps
  pub buf : Bytes
  pub lines : ℕ
  pub dropped_bytes : ℕ
  pub dropped_lines : ℕ

abbrev pub new_capture : OutputCaps → OutputCapture
new_capture caps = record { caps = caps; buf = []; lines = 0; dropped_bytes = 0; dropped_lines = 0 }

abbrev pub is_newline : ℕ → Bool
is_newline b = b == 10

unfoldable pub count_newlines : Bytes → ℕ
unfolding count
count_newlines bs = count is_newline bs

-- `iter().position(|b| *b == b'\n')`.
next : Option ℕ → Option ℕ
next none = none
next (some i) = some (suc i)

unfoldable pub position : Bytes → Option ℕ
unfolding next
position [] = none
position (b ∷ bs) = if is_newline b then some 0 else next (position bs)

-- The first part of the cut: over the byte cap, to behind the next newline.
behind : ℕ → ℕ → Option ℕ → ℕ
behind whole cut none = whole
behind whole cut (some off) = cut + off + 1

unfoldable pub byte_cut : OutputCaps → Bytes → ℕ
unfolding behind position
byte_cut caps buf =
    if ltb caps.max_bytes (length buf)
    then (let cut = length buf - caps.max_bytes in
        behind (length buf) cut (position (drop cut buf)))
    else 0

-- The loop that counts `excess` newlines off: how many bytes it passes, where it gets that far.
unfoldable pub past_newlines : ℕ → Bytes → Option ℕ
unfolding next
past_newlines excess [] = none
past_newlines excess (b ∷ bs) =
    let skip = next (past_newlines excess bs) in
    let fewer = next (past_newlines (excess - 1) bs) in
    if is_newline b then (if (excess - 1) == 0 then some 1 else fewer) else skip

or_zero : Option ℕ → ℕ
or_zero none = 0
or_zero (some n) = n

unfoldable pub line_cut : OutputCaps → Bytes → ℕ
unfolding or_zero past_newlines
line_cut caps rest =
    if ltb caps.max_lines (count_newlines rest)
    then or_zero (past_newlines (count_newlines rest - caps.max_lines) rest)
    else 0

unfoldable pub cut_of : OutputCaps → Bytes → ℕ
unfolding byte_cut line_cut
cut_of caps buf = let cut = byte_cut caps buf in cut + line_cut caps (drop cut buf)

unfoldable pub drop_front : ℕ → OutputCapture → OutputCapture
drop_front cut c =
    let dropped = count_newlines (take cut c.buf) in
    if cut == 0 then c else record c {
      dropped_bytes = c.dropped_bytes + cut;
      dropped_lines = c.dropped_lines + dropped;
      lines = c.lines - dropped;
      buf = drop cut c.buf;
    }

unfoldable pub trim : OutputCapture → OutputCapture
unfolding cut_of drop_front
trim c = drop_front (cut_of c.caps c.buf) c

appended : OutputCapture → Bytes → OutputCapture
appended c chunk = record c { buf = c.buf ++ chunk; lines = c.lines + count_newlines chunk }

abbrev pub is_over : OutputCapture → Bool
is_over c =
    ltb (min (c.caps.max_bytes + byte_slack c.caps) (2 ^ 64 - 1)) (length c.buf)
    || ltb (min (c.caps.max_lines + line_slack c.caps) (2 ^ 64 - 1)) c.lines

unfoldable pub push : OutputCapture → Bytes → OutputCapture
unfolding appended trim
push c chunk = let d = appended c chunk in if is_over d then trim d else d

-- `CapturedOutput` is the capture after the last trim.
unfoldable pub finish : OutputCapture → OutputCapture
unfolding trim
finish c = trim c

unfoldable pub truncated : OutputCapture → Bool
truncated c = ltb 0 c.dropped_bytes
