-- ===== src/Proto/Sanitize/Clean.antt =====
-- crates/hull-ci-proto/src/lib.rs, `sanitize_summary`: what every result is free of.
use hull_ci.Base.{
  ℕ, ◌≤◌, ◌≡◌, refl, Bool, true, false, ◌||◌, not, ◌&&◌, [], ◌∷◌, ◌++◌, Text, length, length-append,
  arith, ◌==◌, All, all, inl, inr, Bool-cases, ◌⊎◌,
}
use hull_ci.Proto.Chars.{
  is_control, is_whitespace, is_invisible_formatting, trim_start, trim_end, push_front, trim,
}
use hull_ci.Proto.Sanitize.{
  Mode, plain, bracket, sequence, Scan, start, flatten_control, keep_char, read_char, step_mode,
  step, run, sanitize_summary,
}

-- Neither a control character, nor a line or paragraph separator, nor invisible formatting.
unfoldable pub is_printable : ℕ → Bool
is_printable c = not (is_control c || c == 0x2028 || c == 0x2029) && not (is_invisible_formatting c)

-- No space stands behind a space; `after` says whether one stands in front of the text.
unfoldable pub is_single_spaced : Bool → Text → Bool
is_single_spaced after [] = true
is_single_spaced after (c ∷ cs) = not (after && c == b' ') && is_single_spaced (c == b' ') cs

unfoldable pub ends_with_space : Bool → Text → Bool
ends_with_space after [] = after
ends_with_space after (c ∷ cs) = ends_with_space (c == b' ') cs

abbrev pub IsPrintable : Text → Type 0
IsPrintable = All (λ c. is_printable c ≡ true)

pub record IsClean (max_chars : ℕ) (t : Text) : Type 0 where
  pub bounded : length t ≤ max_chars
  pub printable : IsPrintable t
  pub spaced : is_single_spaced false t ≡ true

-- For a text at hand, by evaluation.
pub IsPrintable-all : (t : Text) → all is_printable t ≡ true → IsPrintable t
unfolding all
IsPrintable-all [] h = tt
IsPrintable-all (c ∷ t) h = (ground arith, IsPrintable-all t (ground arith))

IsPrintable-snoc :
    (t : Text) (c : ℕ) → IsPrintable t → is_printable c ≡ true → IsPrintable (t ++ c ∷ [])
IsPrintable-snoc [] c h k = (k, tt)
IsPrintable-snoc (d ∷ t) c h k = (h.0, IsPrintable-snoc t c h.1 k)

is_single_spaced-snoc :
    (after : Bool) (t : Text) (c : ℕ)
    → is_single_spaced after (t ++ c ∷ [])
      ≡ (is_single_spaced after t && not (ends_with_space after t && c == b' '))
unfolding is_single_spaced ends_with_space
is_single_spaced-snoc after [] c = ground arith
is_single_spaced-snoc after (d ∷ t) c = ground (arith, is_single_spaced-snoc (d == b' ') t c)

ends_with_space-snoc :
    (after : Bool) (t : Text) (c : ℕ) → ends_with_space after (t ++ c ∷ []) ≡ (c == b' ')
unfolding ends_with_space
ends_with_space-snoc after [] c = refl
ends_with_space-snoc after (d ∷ t) c = ends_with_space-snoc (d == b' ') t c

-- What the loop keeps. The flag is read only while the loop goes on.
record Inv (max_chars : ℕ) (s : Scan) : Type 0 where
  bounded : length s.out ≤ max_chars
  printable : IsPrintable s.out
  spaced : is_single_spaced false s.out ≡ true
  flag : (s.stopped ≡ true) ⊎ (ends_with_space false s.out ≡ s.last_was_space)

flatten_control-is_printable :
    (c : ℕ)
    → is_invisible_formatting (flatten_control c) ≡ false
    → is_printable (flatten_control c) ≡ true
unfolding is_printable flatten_control is_control
flatten_control-is_printable c h = ground arith

keep_char-Inv :
    (max_chars : ℕ) (c : ℕ) (s : Scan)
    → (is_invisible_formatting c ≡ false → is_printable c ≡ true)
    → s.stopped ≡ false
    → Inv max_chars s
    → Inv max_chars (keep_char max_chars c s)
unfolding keep_char
keep_char-Inv max_chars c s shown live v = elim (Bool-cases (is_invisible_formatting c)) [
  | inl hidden ↦ rw hidden v
  | inr seen ↦ record {
    bounded = ground (arith, length-append s.out (c ∷ []));
    printable = ground (arith, IsPrintable-snoc s.out c v.printable (shown seen));
    spaced = ground (arith, is_single_spaced-snoc false s.out c);
    flag = ground (arith, ends_with_space-snoc false s.out c);
  }
]

step_mode-Inv :
    (max_chars : ℕ) (mode : Mode) (s : Scan) (c : ℕ) (rest : Text)
    → s.stopped ≡ false
    → Inv max_chars s
    → Inv max_chars (step_mode mode max_chars s c rest)
unfolding step_mode
step_mode-Inv max_chars plain s c rest live v = elim (Bool-cases (c == 0x1b)) [
  | inl escape ↦
      rw (escape, read_char)
        (record { bounded = v.bounded; printable = v.printable; spaced = v.spaced; flag = v.flag })
  | inr other ↦
      rw (other, read_char)
        (keep_char-Inv max_chars (flatten_control c) s (flatten_control-is_printable c) live v)
]
step_mode-Inv max_chars bracket s c rest live v = record {
  bounded = v.bounded;
  printable = v.printable;
  spaced = v.spaced;
  flag = v.flag;
}
step_mode-Inv max_chars sequence s c rest live v = record {
  bounded = v.bounded;
  printable = v.printable;
  spaced = v.spaced;
  flag = v.flag;
}

step-Inv :
    (max_chars : ℕ) (s : Scan) (c : ℕ) (rest : Text)
    → Inv max_chars s
    → Inv max_chars (step max_chars s c rest)
unfolding step
step-Inv max_chars s c rest v = elim (Bool-cases s.stopped) [
  | inl over ↦ simp over v
  | inr live ↦ simp live (step_mode-Inv max_chars s.mode s c rest live v)
]

run-Inv :
    (max_chars : ℕ) (s : Scan) (t : Text) → Inv max_chars s → Inv max_chars (run max_chars s t)
unfolding run
run-Inv max_chars s [] v = v
run-Inv max_chars s (c ∷ t) v =
    run-Inv max_chars (step max_chars s c t) t (step-Inv max_chars s c t v)

is_single_spaced_weaken :
    (t : Text) → is_single_spaced true t ≡ true → is_single_spaced false t ≡ true
unfolding is_single_spaced
is_single_spaced_weaken [] h = refl
is_single_spaced_weaken (c ∷ t) h = ground arith

trim_start-IsClean : {m : ℕ} (t : Text) → IsClean m t → IsClean m (trim_start t)
unfolding trim_start is_single_spaced
trim_start-IsClean [] v = v
trim_start-IsClean {m} (c ∷ t) v = elim (Bool-cases (is_whitespace c)) [
  | inl space ↦
      rw (space, trim_start)
        (trim_start-IsClean t (record {
          bounded = omega (arith, v.bounded);
          printable = v.printable.1;
          spaced = ground (arith, v.spaced, is_single_spaced_weaken t);
        }))
  | inr solid ↦ rw (solid, trim_start) v
]

pub length-trim_end-le : (t : Text) → length (trim_end t) ≤ length t
unfolding trim_end push_front
length-trim_end-le [] = omega arith
length-trim_end-le (c ∷ t) = ground (arith, length-trim_end-le t)

trim_end-IsPrintable : (t : Text) → IsPrintable t → IsPrintable (trim_end t)
unfolding trim_end push_front
trim_end-IsPrintable [] h = h
trim_end-IsPrintable (c ∷ t) h = ground (arith, trim_end-IsPrintable t h.1)

trim_end-is_single_spaced :
    (after : Bool) (t : Text)
    → is_single_spaced after t ≡ true
    → is_single_spaced after (trim_end t) ≡ true
unfolding trim_end push_front is_single_spaced
trim_end-is_single_spaced after [] h = refl
trim_end-is_single_spaced after (c ∷ t) h = ground (arith, trim_end-is_single_spaced (c == b' ') t)

trim_end-IsClean : {m : ℕ} (t : Text) → IsClean m t → IsClean m (trim_end t)
trim_end-IsClean t v = record {
  bounded = omega (arith, length-trim_end-le t, v.bounded);
  printable = trim_end-IsPrintable t v.printable;
  spaced = trim_end-is_single_spaced false t v.spaced;
}

run-IsClean : (m : ℕ) (raw : Text) → IsClean m (run m start raw).out
unfolding is_single_spaced ends_with_space
run-IsClean m raw = record { bounded = v.bounded; printable = v.printable; spaced = v.spaced }
  where
    v : Inv m (run m start raw)
    v =
        run-Inv m start raw
          (record { bounded = omega arith; printable = tt; spaced = refl; flag = inr refl })

-- Whatever a job wrote, the summary has at most `max_chars` characters, none of them a control
-- character, a line separator or invisible formatting, and no two spaces stand together.
pub sanitize_summary-IsClean : (raw : Text) (m : ℕ) → IsClean m (sanitize_summary raw m)
unfolding sanitize_summary trim
sanitize_summary-IsClean raw m = trim_end-IsClean _ (trim_start-IsClean _ (run-IsClean m raw))
