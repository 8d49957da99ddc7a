-- ===== src/Control/Graph/Ordered.antt =====
-- crates/hull-ci-control/src/graph.rs: a plan whose steps need only steps declared before them, as
-- the planner accepts it, is never broken by the graph.
use mathlib.Core.List.{append_assoc, map-append}
use hull_ci.Base.{
  ℕ, ◌≡◌, refl, ◌≢◌, Bool, true, false, List, [], ◌∷◌, ◌++◌, map, Option, none, some, Text, arith,
  All, Bool-cases, inl, inr, ◌⊎◌, find, any, text_eq, ap, sym, ◌∙◌, subst,
}
use hull_ci.Control.StepState.{is_pending, can_transition_to, is_terminal}
use hull_ci.Control.Step.{Step, transition}
use hull_ci.Control.Graph.{
  Advance, Gate, DepStatus, Seen, see, snapshot, status_of, status_found, dep_status, gate,
  gate_from, gate_end, decide_gate, apply_gate, advance_step, note_move, round_moved,
}

unfoldable pub declares : List Text → Text → Bool
unfolding any
declares before n = any (λ m. text_eq m n) before

-- Each step needs only names that stand in `before` or belong to an earlier step.
abbrev pub IsOrdered : List Text → List Step → Type 0
IsOrdered before [] = Unit
IsOrdered before (s ∷ ss) =
    All (λ n. declares before n ≡ true) s.spec.needs × IsOrdered (before ++ s.spec.name ∷ []) ss

abbrev pub names : List Seen → List Text
names = map (λ e. e.name)

-- A name of the view is known to it.
dep_status-known :
    (n : Text) (es fs : List Seen)
    → declares (names es) n ≡ true
    → dep_status n (es ++ fs) ≢ DepStatus.unknown
unfolding declares any dep_status find status_found status_of
dep_status-known n [] fs h e = ground arith
dep_status-known n (x ∷ es) fs h e = ground (arith, dep_status-known n es fs)

-- And it is decided, if the steps that stand in front are all over.
dep_status-decided :
    (n : Text) (es fs : List Seen)
    → declares (names es) n ≡ true
    → All (λ e. is_terminal e.state ≡ true) es
    → (dep_status n (es ++ fs) ≡ DepStatus.satisfied)
      ⊎ (dep_status n (es ++ fs) ≡ DepStatus.blocked)
unfolding declares any dep_status find status_found status_of is_terminal
dep_status-decided n [] fs h t = ground arith
dep_status-decided n (x ∷ es) fs h t = elim (Bool-cases (text_eq x.name n)) [
  | inl hit ↦ rw hit (ground arith)
  | inr miss ↦ rw miss (dep_status-decided n es fs (ground arith) t.1)
]

gate_from-declared :
    (b w : Bool) (ns : List Text) (es fs : List Seen) (m : Text)
    → All (λ n. declares (names es) n ≡ true) ns
    → gate_from b w ns (es ++ fs) ≢ Gate.undeclared m
unfolding gate_from gate_end
gate_from-declared b w [] es fs m h e = ground arith
gate_from-declared b w (n ∷ ns) es fs m h e = ground (
  arith,
  dep_status-known n es fs h.0,
  gate_from-declared true w ns es fs m h.1,
  gate_from-declared b true ns es fs m h.1,
  gate_from-declared b w ns es fs m h.1,
)

gate_from-decided :
    (b : Bool) (ns : List Text) (es fs : List Seen)
    → All (λ n. declares (names es) n ≡ true) ns
    → All (λ e. is_terminal e.state ≡ true) es
    → gate_from b false ns (es ++ fs) ≢ Gate.wait
unfolding gate_from gate_end
gate_from-decided b [] es fs h t e = ground arith
gate_from-decided b (n ∷ ns) es fs h t e = ground (
  arith,
  dep_status-decided n es fs h.0 t,
  gate_from-decided true ns es fs h.1 t,
  gate_from-decided b ns es fs h.1 t,
)

-- The part of the view that stands in front of a step, with the names that it has.
pub record Front (seen : List Seen) (before : List Text) (es : List Seen) (steps : List Step)
    : Type 0 where
  pub split : seen ≡ es ++ snapshot steps
  pub named : names es ≡ before

pub Front-next :
    {seen : List Seen} {before : List Text} {es : List Seen} (s : Step) {ss : List Step}
    → Front seen before es (s ∷ ss)
    → Front seen (before ++ s.spec.name ∷ []) (es ++ see s ∷ []) ss
Front-next {es} s {ss} v = record {
  split = v.split ∙ sym (append_assoc es (see s ∷ []) (snapshot ss));
  named = map-append (λ e. e.name) es (see s ∷ []) ∙ ap (λ ns. ns ++ s.spec.name ∷ []) v.named;
}

IsUnbroken : Option Advance → Type 0
IsUnbroken m = m ≢ some Advance.broken

abbrev pub AllUnbroken : List (Text × Advance) → Type 0
AllUnbroken = All (λ m. m.1 ≢ Advance.broken)

note_move-AllUnbroken :
    (id : Text) (m : Option Advance) (rest : List (Text × Advance))
    → IsUnbroken m
    → AllUnbroken rest
    → AllUnbroken (note_move id m rest)
unfolding IsUnbroken note_move
note_move-AllUnbroken id none rest u h = h
note_move-AllUnbroken id (some a) rest u h = (λ e. u (ap some e), h)

apply_gate-IsUnbroken :
    (g : Gate) (now : ℕ) (s : Step)
    → ((m : Text) → g ≢ Gate.undeclared m)
    → IsUnbroken (apply_gate g now s).1
unfolding IsUnbroken apply_gate transition can_transition_to
apply_gate-IsUnbroken Gate.ready now s declared e = ground arith
apply_gate-IsUnbroken Gate.skip now s declared e = ground arith
apply_gate-IsUnbroken Gate.wait now s declared e = ground arith
apply_gate-IsUnbroken (Gate.undeclared m) now s declared e = declared m refl

advance_step-IsUnbroken :
    (seen : List Seen) (now : ℕ) (s : Step)
    → ((m : Text) → gate s.spec.needs seen ≢ Gate.undeclared m)
    → IsUnbroken (advance_step seen now s).1
unfolding advance_step decide_gate
advance_step-IsUnbroken seen now s declared = elim (Bool-cases (is_pending s.state)) [
  | inl p ↦ simp p (apply_gate-IsUnbroken (gate s.spec.needs seen) now s declared)
  | inr p ↦ simp p (apply_gate-IsUnbroken Gate.wait now s (λ m e. ground arith))
]

-- The needs of a step are declared in front of it, so its gate is none that `undeclared` names.
module _ {seen : List Seen} {before : List Text} {es : List Seen} {s : Step} {ss : List Step}
    (v : Front seen before es (s ∷ ss))
    (needs : All (λ n. declares before n ≡ true) s.spec.needs) where
  abbrev pub in_front : All (λ n. declares (names es) n ≡ true) s.spec.needs
  in_front = subst (λ b. All (λ n. declares b n ≡ true) s.spec.needs) (sym v.named) needs

  gate-declared : (m : Text) → gate s.spec.needs seen ≢ Gate.undeclared m
  unfolding gate
  gate-declared m = rw v.split (gate_from-declared false false s.spec.needs es _ m in_front)

  pub gate-decided : All (λ e. is_terminal e.state ≡ true) es → gate s.spec.needs seen ≢ Gate.wait
  unfolding gate
  gate-decided over = rw v.split (gate_from-decided false s.spec.needs es _ in_front over)

pub round_moved-AllUnbroken :
    (now : ℕ) (seen : List Seen) (before : List Text) (es : List Seen) (steps : List Step)
    → Front seen before es steps
    → IsOrdered before steps
    → AllUnbroken (round_moved seen now steps)
unfolding round_moved
round_moved-AllUnbroken now seen before es [] v h = tt
round_moved-AllUnbroken now seen before es (s ∷ ss) v h =
    note_move-AllUnbroken s.id _ _ (advance_step-IsUnbroken seen now s (gate-declared v h.0))
      (round_moved-AllUnbroken now seen _ _ ss (Front-next s v) h.1)

pub All-snoc {ℓ κ} :
    {A : Type ℓ} (P : A → Type κ) (xs : List A) (x : A) → All P xs → P x → All P (xs ++ x ∷ [])
All-snoc P [] x h k = (k, tt)
All-snoc P (y ∷ xs) x h k = (h.0, All-snoc P xs x h.1 k)
