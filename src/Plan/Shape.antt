-- ===== src/Plan/Shape.antt =====
-- crates/hull-ci-plan/src/shape.rs: how nested a pipeline file is, measured before it is parsed. The
-- source is its bytes; what a loop has yet to read is the rest of them.
pub mod Blind
use hull_ci.Base.{
  ℕ, zero, suc, ◌+◌, ◌-◌, max, ◌≡◌, ◌↔◌, Bool, true, false, not, ◌&&◌, ◌||◌, List, [], ◌∷◌, Option,
  none, some, Text, lit, Eq, get, insert, length, drop, ltb, starts_with, ◌==◌, ==_iff,
  if◌then◌else◌,
}
use hull_ci.Plan.Error.{
  Result, ok, err, exhausted, nesting, statement_size, block_chain, indent, source_bytes,
}
use hull_ci.Plan.Validate.{is_ascii_alphanumeric}

pub record Shape : Type 0 where
  pub code_nesting : ℕ
  pub raw_nesting : ℕ
  pub statement_weight : ℕ
  pub indent_columns : ℕ
  pub block_chain : ℕ

unfoldable pub is_open : ℕ → Bool
is_open b = b == b'(' || b == b'[' || b == b'{'

unfoldable pub is_close : ℕ → Bool
is_close b = b == b')' || b == b']' || b == b'}'

raw_from : (depth top : ℕ) → Text → ℕ
unfolding is_open is_close
raw_from depth top [] = top
raw_from depth top (b ∷ bs) =
    let deeper = raw_from (suc depth) (max top (suc depth)) bs in
    let out = raw_from (depth - 1) top bs in
    let on = raw_from depth top bs in if is_open b then deeper else if is_close b then out else on

unfoldable pub raw_nesting : Text → ℕ
unfolding raw_from
raw_nesting bytes = raw_from 0 0 bytes

-- How many bytes a string literal takes up, from after its opening quotes: the loop of `skip_string`. A
-- backslash takes the byte after it along, if there is one.
string_rest : ℕ → (quote : ℕ) → (triple : Bool) → Text → ℕ
string_rest zero quote triple bs = 0
string_rest (suc f) quote triple [] = 0
string_rest (suc f) quote triple (b ∷ bs) =
    let escaped = suc (string_rest f quote triple (drop 1 bs)) in
    let escaped_two = suc escaped in
    let on = suc (string_rest f quote triple bs) in
    if b == b'\\'
    then (if length bs == 0 then escaped else escaped_two)
    else if b == 10 && not triple
    then 0
    else if b == quote
    then (if not triple
        then 1
        else if starts_with (quote ∷ quote ∷ quote ∷ []) (b ∷ bs)
        then 3
        else on)
    else on

-- The length of the literal that starts with the quote `b`.
unfoldable pub skip_string : ℕ → Text → ℕ
unfolding string_rest
skip_string b bs =
    if starts_with (b ∷ b ∷ b ∷ []) (b ∷ bs)
    then 3 + string_rest (length bs) b true (drop 2 bs)
    else 1 + string_rest (length bs) b false bs

is_newline : ℕ → Bool
is_newline b = b == 10

-- How many bytes there are before a newline, and how many go on a word.
to_newline : Text → ℕ
to_newline [] = 0
to_newline (b ∷ bs) = let on = suc (to_newline bs) in if b == 10 then 0 else on

is_word : ℕ → Bool
is_word b = is_ascii_alphanumeric b || b == b'_' || b == b'.'

word_length : Text → ℕ
unfolding is_word
word_length [] = 0
word_length (b ∷ bs) = let on = suc (word_length bs) in if is_word b then on else 0

instance abbrev pub column_keys : Eq ℕ
column_keys = record { same = ◌==◌; same_iff = ==_iff }

-- The variables of the loop. `previous` is the byte before the rest.
pub record Scan : Type 0 where
  pub shape : Shape
  pub chain_at : List (ℕ × ℕ)
  pub depth : ℕ
  pub weight : ℕ
  pub at_line_start : Bool
  pub columns : ℕ
  pub previous : ℕ

or_zero : Option ℕ → ℕ
or_zero none = 0
or_zero (some n) = n

-- The run of branches at the column, after a line that starts with `rest`.
chain_after : ℕ → Text → ℕ × Bool
unfolding starts_with
chain_after entry rest =
    if starts_with (lit "elif") rest
    then (suc entry, true)
    else if starts_with (lit "if ") rest || starts_with (lit "if(") rest
    then (1, true)
    else if starts_with (lit "else") rest
    then (entry, false)
    else (0, false)

line_starts : Scan → Text → Scan
unfolding chain_after or_zero
line_starts s rest =
    let (entry, counts) = chain_after (or_zero (get s.columns s.chain_at)) rest in
    record s {
      shape = record s.shape {
        indent_columns = max s.shape.indent_columns s.columns;
        block_chain = if counts then max s.shape.block_chain entry else s.shape.block_chain;
      };
      chain_at = insert s.columns entry s.chain_at;
      at_line_start = false;
    }

first_of_line : Scan → ℕ → Text → Scan
unfolding line_starts is_newline
first_of_line s b bs = if s.at_line_start && not (is_newline b) then line_starts s (b ∷ bs) else s

weigh : Scan → Scan
weigh s = record s { weight = suc s.weight }

opens : Scan → Scan
unfolding weigh
opens s = weigh (record s {
  depth = suc s.depth;
  shape = record s.shape { code_nesting = max s.shape.code_nesting (suc s.depth) };
})

closes : Scan → Scan
unfolding weigh
closes s = weigh (record s { depth = s.depth - 1 })

statement_ends : Scan → Scan
statement_ends s = record s {
  shape = record s.shape { statement_weight = max s.shape.statement_weight s.weight };
  weight = 0;
}

separates : Scan → ℕ → Scan
unfolding statement_ends is_newline
separates s b =
    let s' =
      if s.depth == 0 && not (is_newline b && s.previous == b'\\') then statement_ends s else s in
    if is_newline b then record s' { at_line_start = true; columns = 0 } else s'

is_blank : ℕ → Bool
is_blank b = b == b' ' || b == 9

-- What the match does on a byte, and how many bytes it takes.
on_byte : Scan → ℕ → Text → Scan × ℕ
unfolding opens closes separates weigh is_open is_close is_blank to_newline word_length skip_string
on_byte s b bs =
    if b == b'#'
    then (s, to_newline (b ∷ bs))
    else if b == b'"' || b == b'\''
    then (weigh s, skip_string b bs)
    else if is_open b
    then (opens s, 1)
    else if is_close b
    then (closes s, 1)
    else if b == 10 || b == b';'
    then (separates s b, 1)
    else if is_blank b || b == 13
    then (s, 1)
    else if is_word b
    then (weigh s, word_length (b ∷ bs))
    else (weigh s, 1)

-- The last of the bytes that were taken.
last_taken : ℕ → Text → ℕ → ℕ
last_taken zero bs before = before
last_taken (suc n) [] before = before
last_taken (suc n) (b ∷ bs) before = last_taken n bs b

-- Each round takes a byte at least, so the number of bytes is fuel enough.
unfoldable pub scan_loop : ℕ → Scan → Text → Scan
unfolding on_byte first_of_line is_blank last_taken
scan_loop zero s rest = s
scan_loop (suc f) s [] = s
scan_loop (suc f) s (b ∷ bs) =
    let indented = scan_loop f (record s { columns = suc s.columns; previous = b }) bs in
    let (s', n) = on_byte (first_of_line s b bs) b bs in
    let onward =
      scan_loop f (record s' { previous = last_taken n (b ∷ bs) s.previous }) (drop n (b ∷ bs)) in
    if s.at_line_start && is_blank b then indented else onward

unfoldable pub scan_start : Scan
scan_start = record {
  shape = record {
    code_nesting = 0;
    raw_nesting = 0;
    statement_weight = 0;
    indent_columns = 0;
    block_chain = 0;
  };
  chain_at = [];
  depth = 0;
  weight = 0;
  at_line_start = true;
  columns = 0;
  previous = 0;
}

unfoldable pub scan : Text → Shape
unfolding scan_loop scan_start statement_ends
scan bytes = (statement_ends (scan_loop (length bytes) scan_start bytes)).shape

unfoldable pub measure : Text → Shape
unfolding scan raw_nesting
measure source = record (scan source) { raw_nesting = raw_nesting source }

pub record ShapeLimits : Type 0 where
  pub max_source_bytes : ℕ
  pub max_nesting : ℕ
  pub max_raw_nesting : ℕ
  pub max_statement_weight : ℕ
  pub max_indent_columns : ℕ
  pub max_block_chain : ℕ

-- What `evaluate_on_this_stack` of eval.rs asks of a source before it is parsed.
unfoldable pub admit_source : ShapeLimits → Text → Result (Unit {0})
unfolding measure
admit_source l source =
    let shape = measure source in
    if ltb l.max_source_bytes (length source)
    then err (exhausted (source_bytes l.max_source_bytes))
    else if ltb l.max_nesting shape.code_nesting || ltb l.max_raw_nesting shape.raw_nesting
    then err (exhausted (nesting l.max_nesting))
    else if ltb l.max_statement_weight shape.statement_weight
    then err (exhausted (statement_size l.max_statement_weight))
    else if ltb l.max_block_chain shape.block_chain
    then err (exhausted (block_chain l.max_block_chain))
    else if ltb l.max_indent_columns shape.indent_columns
    then err (exhausted (indent l.max_indent_columns))
    else ok tt
