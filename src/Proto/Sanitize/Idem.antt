-- ===== src/Proto/Sanitize/Idem.antt =====
-- crates/hull-ci-proto/src/lib.rs, `sanitize_summary`: cleaning twice is cleaning once.
use mathlib.Core.List.{append-nil, append_assoc}
use hull_ci.Base.{
  ℕ, ◌+◌, ◌≤◌, ◌≡◌, refl, true, false, ◌&&◌, [], ◌∷◌, ◌++◌, Text, length, sym, ap, length-append,
  arith, ◌==◌, inl, inr, Bool-cases, ◌∙◌,
}
use hull_ci.Proto.Chars.{is_control, is_whitespace, trim_start, trim_end, push_front, trim}
use hull_ci.Proto.Sanitize.{
  plain, Scan, start, push, flatten_control, keep_char, read_char, step_mode, step, run,
  sanitize_summary,
}
use hull_ci.Proto.Sanitize.Clean.{
  is_printable, is_single_spaced, IsPrintable, IsClean, sanitize_summary-IsClean,
}

trim_end_idem : (t : Text) → trim_end (trim_end t) ≡ trim_end t
unfolding trim_end
trim_end_idem [] = refl
trim_end_idem (c ∷ t) = push_front_fixed (trim_end t) (trim_end_idem t)
  where
    push_front_fixed : (u : Text) → trim_end u ≡ u → trim_end (push_front c u) ≡ push_front c u
    push_front_fixed [] h = elim (Bool-cases (is_whitespace c)) [
      | inl space ↦ rw (space, push_front)
      | inr solid ↦ rw (solid, push_front) (rw (solid, push_front))
    ]
    push_front_fixed (d ∷ u) h = rw h

trim_start-trim_end : (t : Text) → trim_start (trim_end (trim_start t)) ≡ trim_end (trim_start t)
unfolding trim_start trim_end push_front
trim_start-trim_end [] = refl
trim_start-trim_end (c ∷ t) = elim (Bool-cases (is_whitespace c)) [
  | inl space ↦ rw space (trim_start-trim_end t)
  | inr solid ↦ rw solid (ground arith)
]

pub trim_idem : (t : Text) → trim (trim t) ≡ trim t
unfolding trim
trim_idem t = ap trim_end (trim_start-trim_end t) ∙ trim_end_idem (trim_start t)

-- One character of a clean text goes through the loop as it is.
step-clean :
    (m : ℕ) (s : Scan) (c : ℕ) (rest : Text)
    → s.mode ≡ plain
    → s.stopped ≡ false
    → is_printable c ≡ true
    → (s.last_was_space && c == b' ') ≡ false
    → length s.out + 1 ≤ m
    → step m s c rest ≡ record s { out = s.out ++ c ∷ []; last_was_space = c == b' ' }
unfolding step step_mode read_char keep_char push flatten_control is_printable is_control
step-clean m s c rest p q shown spaced room = ground arith

run-clean :
    (m : ℕ) (s : Scan) (t : Text)
    → s.mode ≡ plain
    → s.stopped ≡ false
    → IsPrintable t
    → is_single_spaced s.last_was_space t ≡ true
    → length s.out + length t ≤ m
    → (run m s t).out ≡ s.out ++ t
unfolding run is_single_spaced
run-clean m s [] p q shown spaced room = sym (append-nil s.out)
run-clean m s (c ∷ t) p q shown spaced room =
    ap (λ s'. (run m s' t).out) (step-clean m s c t p q shown.0 (ground arith) (omega arith))
    ∙ run-clean m (record s { out = s.out ++ c ∷ []; last_was_space = c == b' ' }) t p q shown.1
        (ground arith) (omega (arith, length-append s.out (c ∷ [])))
    ∙ append_assoc s.out (c ∷ []) t

sanitize_summary-clean : (t : Text) (m : ℕ) → IsClean m t → sanitize_summary t m ≡ trim t
unfolding sanitize_summary
sanitize_summary-clean t m v =
    ap trim (run-clean m start t refl refl v.printable v.spaced (omega (arith, v.bounded)))

sanitize_summary-trim : (t : Text) (m : ℕ) → trim (sanitize_summary t m) ≡ sanitize_summary t m
unfolding sanitize_summary
sanitize_summary-trim t m = trim_idem (run m start t).out

-- A summary that was cleaned passes a second cleaning under the same limit unchanged.
pub sanitize_summary_idem :
    (raw : Text) (m : ℕ) → sanitize_summary (sanitize_summary raw m) m ≡ sanitize_summary raw m
sanitize_summary_idem raw m =
    sanitize_summary-clean _ m (sanitize_summary-IsClean raw m) ∙ sanitize_summary-trim raw m
