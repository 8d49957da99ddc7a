-- ===== src/Plan/Shape/Blind.antt =====
-- crates/hull-ci-plan/src/shape.rs: the two counts of brackets compared.
use hull_ci.Base.{
  ℕ, zero, suc, ◌+◌, ◌*◌, ◌≤◌, max, ◌≡◌, refl, false, List, [], ◌∷◌, Text, lit, get, insert, erase,
  length, starts_with, arith, ◌∙◌, ap,
}
use hull_ci.Plan.Validate.{is_ascii_alphanumeric}
use hull_ci.Plan.Shape.{
  Shape, Scan, is_open, is_close, raw_from, raw_nesting, string_rest, skip_string, scan_loop,
  scan_start, scan, measure, statement_ends, on_byte, first_of_line, is_blank, last_taken, opens,
  weigh, chain_after, line_starts, or_zero, is_newline, is_word,
}

-- `["]",` so many times over: each opens a bracket, and has a closing one in a string.
pub nested : ℕ → Text
nested zero = []
nested (suc n) = b'[' ∷ b'"' ∷ b']' ∷ b'"' ∷ b',' ∷ nested n

-- The scan in the middle of a line.
abbrev inside : Shape → List (ℕ × ℕ) → (depth weight columns previous : ℕ) → Scan
inside shape chain depth weight columns previous = record {
  shape = shape;
  chain_at = chain;
  depth = depth;
  weight = weight;
  at_line_start = false;
  columns = columns;
  previous = previous;
}

scan_loop-one :
    (f : ℕ) (shape : Shape) (chain : List (ℕ × ℕ)) (depth weight columns previous : ℕ) (rest : Text)
    → scan_loop
        (suc (suc (suc f)))
        (inside shape chain depth weight columns previous)
        (b'[' ∷ b'"' ∷ b']' ∷ b'"' ∷ b',' ∷ rest)
      ≡ scan_loop f
          (inside
            (record shape { code_nesting = max shape.code_nesting (suc depth) })
            chain
            (suc depth)
            (suc (suc (suc weight)))
            columns
            b',')
          rest
unfolding scan_loop on_byte first_of_line is_blank last_taken opens weigh is_open is_close
    skip_string string_rest starts_with is_word is_ascii_alphanumeric is_newline
scan_loop-one f shape chain depth weight columns previous rest = refl

scan_loop-nested :
    (n f : ℕ)
    → 3 * n ≤ f
    → (shape : Shape) (chain : List (ℕ × ℕ)) (depth weight columns previous : ℕ)
    → shape.code_nesting ≡ depth
    → (scan_loop f (inside shape chain depth weight columns previous) (nested n)).shape.code_nesting
      ≡ depth + n
unfolding nested scan_loop
scan_loop-nested zero zero fits shape chain depth weight columns previous at = at ∙ omega arith
scan_loop-nested zero (suc f) fits shape chain depth weight columns previous at = at ∙ omega arith
scan_loop-nested (suc n) (suc (suc (suc f))) fits shape chain depth weight columns previous at =
    ap (λ s. s.shape.code_nesting)
      (scan_loop-one f shape chain depth weight columns previous (nested n))
    ∙ scan_loop-nested n f (omega arith)
        (record shape { code_nesting = max shape.code_nesting (suc depth) }) chain (suc depth)
        (suc (suc (suc weight))) columns b',' (omega arith)
    ∙ omega arith
scan_loop-nested (suc n) zero fits shape chain depth weight columns previous at =
    absurd (omega arith)
scan_loop-nested (suc n) (suc zero) fits shape chain depth weight columns previous at =
    absurd (omega arith)
scan_loop-nested (suc n) (suc (suc zero)) fits shape chain depth weight columns previous at =
    absurd (omega arith)

-- The first shape that a source which starts so has.
abbrev one_deep : Shape
one_deep = record scan_start.shape { code_nesting = 1 }

scan_loop-first :
    (f : ℕ) (rest : Text)
    → scan_loop (suc (suc (suc f))) scan_start (b'[' ∷ b'"' ∷ b']' ∷ b'"' ∷ b',' ∷ rest)
      ≡ scan_loop f (inside one_deep ((0, 0) ∷ []) 1 3 0 b',') rest
unfolding scan_loop scan_start on_byte first_of_line is_blank last_taken opens weigh is_open
    is_close skip_string string_rest starts_with is_word is_ascii_alphanumeric is_newline
    line_starts chain_after or_zero get insert erase lit
scan_loop-first f rest = refl

length-nested : (n : ℕ) → length (nested n) ≡ 5 * n
unfolding nested
length-nested zero = refl
length-nested (suc n) = omega (arith, length-nested n)

raw_from-nested : (n : ℕ) → raw_from 0 1 (nested n) ≡ 1
unfolding nested raw_from
raw_from-nested zero = refl
raw_from-nested (suc n) = raw_from-nested n

-- The count of brackets that skips strings is that of the repetitions, the one that reads every byte
-- stays at one.
pub measure-nested :
    (n : ℕ)
    → ((measure (nested (suc n))).code_nesting ≡ suc n)
      × ((measure (nested (suc n))).raw_nesting ≡ 1)
unfolding measure scan statement_ends raw_nesting raw_from nested scan_start is_open is_close
measure-nested n = (
  ap (λ s. s.shape.code_nesting) (scan_loop-first (suc (suc (length (nested n)))) (nested n))
      ∙ scan_loop-nested n (suc (suc (length (nested n)))) (omega (arith, length-nested n)) one_deep
          _ 1 3 0 b',' refl
      ∙ omega arith,
  raw_from-nested n,
)
