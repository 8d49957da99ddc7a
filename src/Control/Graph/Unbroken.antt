-- ===== src/Control/Graph/Unbroken.antt =====
-- crates/hull-ci-control/src/graph.rs: what `advance` makes of a plan in declaration order.
use hull_ci.Base.{
  ℕ, zero, suc, ◌≡◌, refl, ◌≢◌, true, false, List, [], ◌∷◌, ◌++◌, Text, arith, length, All,
  Bool-cases, List-cases, inl, inr, any,
}
use hull_ci.Control.StepState.{is_pending, is_terminal}
use hull_ci.Control.Step.{Step, transition}
use hull_ci.Control.Graph.{
  Advance, Gate, Seen, see, snapshot, gate, decide_gate, advance_step, round_steps, round_moved,
  rounds, break_cycles, any_live, is_live, advance,
}
use hull_ci.Control.Graph.Settled.{IsQuiet, IsStarted, IsStarted-break, rounds_inv, rounds_enough}
use hull_ci.Control.Graph.Ordered.{
  IsOrdered, Front, Front-next, gate-decided, AllUnbroken, round_moved-AllUnbroken, All-snoc,
}

step_over :
    (seen : List Seen) (s : Step)
    → is_live s.state ≡ false
    → decide_gate seen s ≡ Gate.wait
    → gate s.spec.needs seen ≢ Gate.wait
    → is_terminal s.state ≡ true
unfolding is_live decide_gate is_pending is_terminal
step_over seen s dead quiet h = ground arith

-- With nothing live and nothing let through, every step is over, front to back.
quiet-terminal :
    (seen : List Seen) (before : List Text) (es : List Seen) (steps : List Step)
    → Front seen before es steps
    → IsOrdered before steps
    → IsQuiet seen steps
    → any_live steps ≡ false
    → All (λ e. is_terminal e.state ≡ true) es
    → All (λ s. is_terminal s.state ≡ true) steps
unfolding any_live any
quiet-terminal seen before es [] v h q dead over = tt
quiet-terminal seen before es (s ∷ ss) v h q dead over =
    let done = step_over seen s (ground arith) q.0 (gate-decided v h.0 over) in
    (
      done,
      quiet-terminal seen _ _ ss (Front-next s v) h.1 q.1 (ground arith)
          (All-snoc _ es (see s) over done),
    )

terminal-IsStarted :
    (steps : List Step) → All (λ s. is_terminal s.state ≡ true) steps → IsStarted steps
unfolding is_terminal is_pending
terminal-IsStarted [] h = tt
terminal-IsStarted (s ∷ ss) h = (ground arith, terminal-IsStarted ss h.1)

advance_step-spec :
    (seen : List Seen) (now : ℕ) (s : Step) → (advance_step seen now s).0.spec ≡ s.spec
unfolding advance_step decide_gate transition
advance_step-spec seen now s = ground arith

round_steps-IsOrdered :
    (seen : List Seen) (now : ℕ) (before : List Text) (steps : List Step)
    → IsOrdered before steps
    → IsOrdered before (round_steps seen now steps)
unfolding round_steps
round_steps-IsOrdered seen now before [] h = tt
round_steps-IsOrdered seen now before (s ∷ ss) h =
    rw (advance_step-spec seen now s) (h.0, round_steps-IsOrdered seen now _ ss h.1)

All-append {ℓ κ} :
    {A : Type ℓ} (P : A → Type κ) (xs ys : List A) → All P xs → All P ys → All P (xs ++ ys)
All-append P [] ys h k = k
All-append P (x ∷ xs) ys h k = (h.0, All-append P xs ys h.1 k)

rounds-AllUnbroken :
    (fuel now : ℕ) (steps : List Step) (moved : List (Text × Advance))
    → IsOrdered [] steps
    → AllUnbroken moved
    → AllUnbroken (rounds fuel now steps moved).1
unfolding rounds
rounds-AllUnbroken zero now steps moved h u = u
rounds-AllUnbroken (suc fuel) now steps moved h u =
    let seen = snapshot steps in
    let fine =
      round_moved-AllUnbroken now seen [] [] steps (record { split = refl; named = refl }) h in
    elim (List-cases (round_moved seen now steps)) [
      | inl e ↦ rw (e, rounds) u
      | inr (m, ms, e) ↦
          rw (e, rounds)
            (rounds-AllUnbroken fuel now _ (moved ++ m ∷ ms)
              (round_steps-IsOrdered seen now [] steps h)
              (All-append _ moved (m ∷ ms) u (rw e at fine)))
    ]

-- If every step needs only steps that stand before it, `advance` reports no step as broken: neither
-- an undeclared need nor a cycle is ever found.
pub advance_ordered_unbroken :
    (steps : List Step) (now : ℕ) → IsOrdered [] steps → AllUnbroken (advance steps now).1
unfolding advance break_cycles
advance_ordered_unbroken steps now h =
    let r = rounds (suc (length steps)) now steps [] in
    let ordered =
      rounds_inv (IsOrdered []) now (λ ss. round_steps-IsOrdered (snapshot ss) now [] ss)
        (suc (length steps)) steps [] h in
    let fine = rounds-AllUnbroken (suc (length steps)) now steps [] h tt in
    elim (Bool-cases (any_live r.0)) [
      | inl live ↦ rw live fine
      | inr dead ↦
          let over =
            quiet-terminal (snapshot r.0) [] [] r.0 (record { split = refl; named = refl }) ordered
              (rounds_enough now steps) dead tt in
          rw (dead, (IsStarted-break now r.0 (terminal-IsStarted r.0 over)).1)
            (All-append _ r.1 [] fine tt)
    ]
