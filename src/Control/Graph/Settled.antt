-- ===== src/Control/Graph/Settled.antt =====
-- crates/hull-ci-control/src/graph.rs: the rounds of `advance` end, and leave nothing to move.
use hull_ci.Base.{
  ℕ, zero, suc, ◌+◌, ◌<◌, ◌≡◌, refl, true, false, List, [], ◌∷◌, ◌++◌, none, some, Text, arith, ap,
  ◌∙◌, sym, length, count, count-le-length, All, if◌then◌else◌, Bool-cases, List-cases, inl, inr,
  any, all,
}
use mathlib.Core.Bool.{false≢true}
use hull_ci.Control.StepState.{is_pending, can_transition_to, is_terminal}
use hull_ci.Control.Step.{Step, transition}
use hull_ci.Control.Graph.{
  Advance, Gate, Seen, snapshot, decide_gate, advance_step, note_move, round_steps, round_moved,
  rounds, break_step, break_steps, break_moved, break_cycles, any_live, is_live, advance,
}

-- No pending step of the list is let through by what `seen` shows.
abbrev pub IsQuiet : List Seen → List Step → Type 0
IsQuiet seen = All (λ s. decide_gate seen s ≡ Gate.wait)

-- How many steps are pending.
unfoldable pub pending_steps : List Step → ℕ
unfolding count is_pending
pending_steps = count (λ s. is_pending s.state)

advance_step-stays :
    (seen : List Seen) (now : ℕ) (s : Step)
    → (advance_step seen now s).1 ≡ none
    → ((advance_step seen now s).0 ≡ s) × (decide_gate seen s ≡ Gate.wait)
unfolding advance_step decide_gate transition can_transition_to is_pending
advance_step-stays seen now s h = ground arith

advance_step-wait :
    (seen : List Seen) (now : ℕ) (s : Step)
    → decide_gate seen s ≡ Gate.wait
    → advance_step seen now s ≡ (s, none)
unfolding advance_step
advance_step-wait seen now s h = ground arith

advance_step-pending :
    (seen : List Seen) (now : ℕ) (s : Step)
    → (if is_pending (advance_step seen now s).0.state then 1 else 0)
        + (elim (advance_step seen now s).1 [ none ↦ 0 | some a ↦ 1 ])
      ≡ (if is_pending s.state then 1 else 0)
unfolding advance_step decide_gate transition can_transition_to is_pending
advance_step-pending seen now s = ground arith

round_moved-nil :
    (seen : List Seen) (now : ℕ) (steps : List Step)
    → round_moved seen now steps ≡ []
    → (round_steps seen now steps ≡ steps) × IsQuiet seen steps
unfolding round_moved round_steps note_move
round_moved-nil seen now [] h = (refl, tt)
round_moved-nil seen now (s ∷ ss) h =
    ground (arith, advance_step-stays seen now s, round_moved-nil seen now ss)

IsQuiet-round_moved :
    (seen : List Seen) (now : ℕ) (steps : List Step)
    → IsQuiet seen steps
    → (round_steps seen now steps ≡ steps) × (round_moved seen now steps ≡ [])
unfolding round_moved round_steps note_move
IsQuiet-round_moved seen now [] q = (refl, refl)
IsQuiet-round_moved seen now (s ∷ ss) q =
    ground (arith, advance_step-wait seen now s q.0, IsQuiet-round_moved seen now ss q.1)

round-pending :
    (seen : List Seen) (now : ℕ) (steps : List Step)
    → pending_steps (round_steps seen now steps) + length (round_moved seen now steps)
      ≡ pending_steps steps
unfolding round_moved round_steps note_move pending_steps
round-pending seen now [] = refl
round-pending seen now (s ∷ ss) =
    ground (arith, advance_step-pending seen now s, round-pending seen now ss)

-- With more fuel than pending steps the rounds end by themselves.
rounds-IsQuiet :
    (fuel now : ℕ) (steps : List Step) (moved : List (Text × Advance))
    → pending_steps steps < fuel
    → let r = rounds fuel now steps moved in IsQuiet (snapshot r.0) r.0
unfolding rounds
rounds-IsQuiet zero now steps moved h = elim h [ ]
rounds-IsQuiet (suc fuel) now steps moved h =
    elim (List-cases (round_moved (snapshot steps) now steps)) [
      | inl e ↦
          let (same, quiet) = round_moved-nil (snapshot steps) now steps e in
          rw (e, rounds) (rw same quiet)
      | inr (m, ms, e) ↦
          rw (e, rounds)
            (rounds-IsQuiet fuel now _ (moved ++ m ∷ ms)
              (omega (arith, round-pending (snapshot steps) now steps, ap length e)))
    ]

-- What a round keeps, the loop keeps.
pub rounds_inv {ℓ} :
    (P : List Step → Type ℓ) (now : ℕ)
    → ((steps : List Step) → P steps → P (round_steps (snapshot steps) now steps))
    → (fuel : ℕ) (steps : List Step) (moved : List (Text × Advance)) → P steps
    → P (rounds fuel now steps moved).0
unfolding rounds
rounds_inv P now keep zero steps moved h = h
rounds_inv P now keep (suc fuel) steps moved h =
    elim (List-cases (round_moved (snapshot steps) now steps)) [
      | inl e ↦ rw (e, rounds) (keep steps h)
      | inr (m, ms, e) ↦
          rw (e, rounds) (rounds_inv P now keep fuel _ (moved ++ m ∷ ms) (keep steps h))
    ]

-- The loop of `advance` is given enough fuel: it ends because a round moved nothing.
pub rounds_enough :
    (now : ℕ) (steps : List Step)
    → let r = rounds (suc (length steps)) now steps [] in IsQuiet (snapshot r.0) r.0
unfolding pending_steps
rounds_enough now steps =
    rounds-IsQuiet (suc (length steps)) now steps []
      (omega (arith, count-le-length (λ s. is_pending s.state) steps))

break_step-pending : (now : ℕ) (s : Step) → is_pending (break_step now s).0.state ≡ false
unfolding break_step transition can_transition_to is_pending
break_step-pending now s = ground arith

break_steps-IsQuiet :
    (seen : List Seen) (now : ℕ) (steps : List Step) → IsQuiet seen (break_steps now steps)
unfolding break_steps decide_gate
break_steps-IsQuiet seen now [] = tt
break_steps-IsQuiet seen now (s ∷ ss) =
    (rw (break_step-pending now s), break_steps-IsQuiet seen now ss)

-- After `advance` no pending step is let through any more.
pub advance-IsQuiet :
    (steps : List Step) (now : ℕ) → IsQuiet (snapshot (advance steps now).0) (advance steps now).0
unfolding advance break_cycles
advance-IsQuiet steps now =
    let r = rounds (suc (length steps)) now steps [] in
    elim (Bool-cases (any_live r.0)) [
      | inl live ↦ rw live (rounds_enough now steps)
      | inr dead ↦ rw dead (break_steps-IsQuiet _ now r.0)
    ]

abbrev pub IsStarted : List Step → Type 0
IsStarted = All (λ s. is_pending s.state ≡ false)

break_steps-IsStarted : (now : ℕ) (steps : List Step) → IsStarted (break_steps now steps)
unfolding break_steps
break_steps-IsStarted now [] = tt
break_steps-IsStarted now (s ∷ ss) = (break_step-pending now s, break_steps-IsStarted now ss)

pub IsStarted-break :
    (now : ℕ) (steps : List Step)
    → IsStarted steps
    → (break_steps now steps ≡ steps) × (break_moved now steps ≡ [])
unfolding break_steps break_moved break_step note_move
IsStarted-break now [] h = (refl, refl)
IsStarted-break now (s ∷ ss) h = ground (arith, IsStarted-break now ss h.1)

advance-IsStarted :
    (steps : List Step) (now : ℕ)
    → any_live (advance steps now).0 ≡ false
    → IsStarted (advance steps now).0
unfolding advance break_cycles
advance-IsStarted steps now h =
    let r = rounds (suc (length steps)) now steps [] in
    elim (Bool-cases (any_live r.0)) [
      | inl live ↦ absurd (false≢true (sym h ∙ rw live live))
      | inr dead ↦ rw dead (break_steps-IsStarted now r.0)
    ]

IsStarted-terminal :
    (steps : List Step)
    → any_live steps ≡ false
    → IsStarted steps
    → all (λ s. is_terminal s.state) steps ≡ true
unfolding any_live any all is_live is_terminal is_pending
IsStarted-terminal [] h k = refl
IsStarted-terminal (s ∷ ss) h k = ground (arith, IsStarted-terminal ss)

-- No job hangs in its graph: when `advance` leaves no step ready, leased or running, every step is
-- in a terminal state.
pub advance_never_hangs :
    (steps : List Step) (now : ℕ)
    → any_live (advance steps now).0 ≡ false
    → all (λ s. is_terminal s.state) (advance steps now).0 ≡ true
advance_never_hangs steps now h = IsStarted-terminal _ h (advance-IsStarted steps now h)

rounds-quiet :
    (fuel now : ℕ) (steps : List Step)
    → IsQuiet (snapshot steps) steps
    → rounds (suc fuel) now steps [] ≡ (steps, [])
unfolding rounds
rounds-quiet fuel now steps q =
    let (same, still) = IsQuiet-round_moved (snapshot steps) now steps q in
    rw (still, rounds) (rw same)

-- `advance` goes all the way at once: on its own result, at any later instant, it changes nothing
-- and reports nothing.
pub advance_idem :
    (steps : List Step) (now later : ℕ)
    → advance (advance steps now).0 later ≡ ((advance steps now).0, [])
advance_idem steps now later =
    settled (advance steps now).0 (advance-IsQuiet steps now) (advance-IsStarted steps now)
  where
    settled :
        (done : List Step)
        → IsQuiet (snapshot done) done
        → (any_live done ≡ false → IsStarted done)
        → advance done later ≡ (done, [])
    settled done quiet started =
        unfold advance in
        ap (break_cycles later) (rounds-quiet (length done) later done quiet)
        ∙ (unfold break_cycles in
            elim (Bool-cases (any_live done)) [
              | inl live ↦ rw live
              | inr dead ↦
                  let (same, still) = IsStarted-break later done (started dead) in
                  rw dead (rw (same, still))
            ])
