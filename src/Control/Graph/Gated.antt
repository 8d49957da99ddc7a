-- ===== src/Control/Graph/Gated.antt =====
-- crates/hull-ci-control/src/graph.rs: `advance` starts a step only behind satisfied needs.
use hull_ci.Base.{
  ℕ, suc, ◌≡◌, refl, Bool, true, false, List, [], ◌∷◌, map, Text, arith, length, All, Bool-cases,
  inl, inr, ◌⊎◌, find, text_eq,
}
use hull_ci.Control.StepState.{StepState, is_pending, can_transition_to}
use hull_ci.Control.Step.{Step, transition}
use hull_ci.Control.Graph.{
  Gate, DepStatus, Seen, see, snapshot, status_of, status_found, dep_status, gate, gate_from,
  gate_end, decide_gate, advance_step, round_steps, rounds, break_step, break_steps, break_cycles,
  any_live, is_live, advance,
}
use hull_ci.Control.Graph.Settled.{rounds_inv}

-- How the view of a step may change while it can still count for its dependents: the name stays, and
-- a dependency that is satisfied or blocked stays so.
record Later (e f : Seen) : Type 0 where
  same_name : e.name ≡ f.name
  satisfied_stays :
      status_of e.state e.continue_on_error ≡ DepStatus.satisfied
      → status_of f.state f.continue_on_error ≡ DepStatus.satisfied
  blocked_stays :
      status_of e.state e.continue_on_error ≡ DepStatus.blocked
      → status_of f.state f.continue_on_error ≡ DepStatus.blocked

abbrev Grows : List Seen → List Seen → Type 0
Grows [] [] = Unit
Grows [] (f ∷ fs) = ⊥
Grows (e ∷ es) [] = ⊥
Grows (e ∷ es) (f ∷ fs) = Later e f × Grows es fs

status_of-known : (s : StepState) (c : Bool) → (status_of s c ≡ DepStatus.unknown) → ⊥
unfolding status_of
status_of-known s c h = ground arith

record Follows (a b : DepStatus) : Type 0 where
  satisfied_stays : a ≡ DepStatus.satisfied → b ≡ DepStatus.satisfied
  blocked_stays : a ≡ DepStatus.blocked → b ≡ DepStatus.blocked
  known_stays : b ≡ DepStatus.unknown → a ≡ DepStatus.unknown

dep_status-Follows :
    (n : Text) (es fs : List Seen) → Grows es fs → Follows (dep_status n es) (dep_status n fs)
unfolding dep_status find status_found
dep_status-Follows n [] [] g = record {
  satisfied_stays = λ h. h;
  blocked_stays = λ h. h;
  known_stays = λ h. h;
}
dep_status-Follows n [] (f ∷ fs) g = absurd g
dep_status-Follows n (e ∷ es) [] g = absurd g
dep_status-Follows n (e ∷ es) (f ∷ fs) g =
    rw (← g.0.same_name) (elim (Bool-cases (text_eq e.name n)) [
      | inl hit ↦ rw hit (record {
        satisfied_stays = g.0.satisfied_stays;
        blocked_stays = g.0.blocked_stays;
        known_stays = λ h. absurd (status_of-known _ _ h);
      })
      | inr miss ↦ rw miss (dep_status-Follows n es fs g.1)
    ])

gate_from-ready :
    (b w : Bool) (ns : List Text) (es : List Seen)
    → gate_from b w ns es ≡ Gate.ready
    → (b ≡ false) × (w ≡ false) × All (λ n. dep_status n es ≡ DepStatus.satisfied) ns
unfolding gate_from gate_end
gate_from-ready b w [] es h = ground arith
gate_from-ready b w (n ∷ ns) es h =
    ground
      (arith, gate_from-ready b w ns es, gate_from-ready true w ns es, gate_from-ready b true ns es)

gate-ready_of :
    (ns : List Text) (es : List Seen)
    → All (λ n. dep_status n es ≡ DepStatus.satisfied) ns
    → gate_from false false ns es ≡ Gate.ready
unfolding gate_from gate_end
gate-ready_of [] es h = refl
gate-ready_of (n ∷ ns) es h = ground (arith, gate-ready_of ns es h.1)

All-Grows :
    (ns : List Text) (es fs : List Seen)
    → Grows es fs
    → All (λ n. dep_status n es ≡ DepStatus.satisfied) ns
    → All (λ n. dep_status n fs ≡ DepStatus.satisfied) ns
All-Grows [] es fs g h = tt
All-Grows (n ∷ ns) es fs g h =
    ((dep_status-Follows n es fs g).satisfied_stays h.0, All-Grows ns es fs g h.1)

gate-ready-Grows :
    (ns : List Text) (es fs : List Seen)
    → Grows es fs
    → gate ns es ≡ Gate.ready
    → gate ns fs ≡ Gate.ready
unfolding gate
gate-ready-Grows ns es fs g h =
    gate-ready_of ns fs (All-Grows ns es fs g (gate_from-ready false false ns es h).2)

gate_from-skip-Grows :
    (b w b' w' : Bool) (ns : List Text) (es fs : List Seen)
    → Grows es fs
    → (b ≡ false) ⊎ (b' ≡ true)
    → gate_from b w ns es ≡ Gate.skip
    → gate_from b' w' ns fs ≡ Gate.skip
unfolding gate_from gate_end
gate_from-skip-Grows b w b' w' [] es fs g m h = ground arith
gate_from-skip-Grows b w b' w' (n ∷ ns) es fs g m h =
    let v = dep_status-Follows n es fs g in
    let keep = λ (b w b' w' : Bool). gate_from-skip-Grows b w b' w' ns es fs g in
    ground (
      arith,
      v.satisfied_stays,
      v.blocked_stays,
      v.known_stays,
      keep true w true w',
      keep b true true w',
      keep b true b' true,
      keep b true b' w',
      keep b w b' w',
    )

gate-skip-Grows :
    (ns : List Text) (es fs : List Seen)
    → Grows es fs
    → gate ns es ≡ Gate.skip
    → gate ns fs ≡ Gate.skip
unfolding gate
gate-skip-Grows ns es fs g h = gate_from-skip-Grows false false false false ns es fs g (inl refl) h

-- Why a step is where it is: a started step has all of its needs satisfied, a skipped one is blocked.
pub record IsExplained (seen : List Seen) (s : Step) : Type 0 where
  pub started : is_live s.state ≡ true → gate s.spec.needs seen ≡ Gate.ready
  pub skipped : s.state ≡ StepState.skipped → gate s.spec.needs seen ≡ Gate.skip

advance_step-Later :
    (seen : List Seen) (now : ℕ) (s : Step) → Later (see s) (see (advance_step seen now s).0)
unfolding advance_step decide_gate transition can_transition_to is_pending status_of
advance_step-Later seen now s = record {
  same_name = ground arith;
  satisfied_stays = λ h. ground arith;
  blocked_stays = λ h. ground arith;
}

advance_step-IsExplained :
    (seen : List Seen) (now : ℕ) (s : Step)
    → IsExplained seen s
    → IsExplained seen (advance_step seen now s).0
unfolding advance_step decide_gate transition can_transition_to is_pending is_live
advance_step-IsExplained seen now s v = record {
  started = λ h. ground (arith, v.started);
  skipped = λ h. ground (arith, v.skipped);
}

break_step-Later : (now : ℕ) (s : Step) → Later (see s) (see (break_step now s).0)
unfolding break_step transition can_transition_to is_pending status_of
break_step-Later now s = record {
  same_name = ground arith;
  satisfied_stays = λ h. ground arith;
  blocked_stays = λ h. ground arith;
}

break_step-IsExplained :
    (seen : List Seen) (now : ℕ) (s : Step)
    → IsExplained seen s
    → IsExplained seen (break_step now s).0
unfolding break_step transition can_transition_to is_pending is_live
break_step-IsExplained seen now s v = record {
  started = λ h. ground (arith, v.started);
  skipped = λ h. ground (arith, v.skipped);
}

-- A change of every step that keeps each one's view and explanation keeps the whole explained.
module _ (change : Step → Step) (later : (s : Step) → Later (see s) (see (change s))) where
  Grows-change : (steps : List Step) → Grows (snapshot steps) (snapshot (map change steps))
  Grows-change [] = tt
  Grows-change (s ∷ ss) = (later s, Grows-change ss)

  All-change :
      (seen after : List Seen) (steps : List Step)
      → Grows seen after
      → ((s : Step) → IsExplained seen s → IsExplained seen (change s))
      → All (IsExplained seen) steps
      → All (IsExplained after) (map change steps)
  All-change seen after [] g keep h = tt
  All-change seen after (s ∷ ss) g keep h =
      let v = keep s h.0 in
      (
        record {
          started = λ e. gate-ready-Grows _ seen after g (v.started e);
          skipped = λ e. gate-skip-Grows _ seen after g (v.skipped e);
        },
        All-change seen after ss g keep h.1,
      )

abbrev pub AllExplained : List Step → Type 0
AllExplained steps = All (IsExplained (snapshot steps)) steps

round_steps-AllExplained :
    (now : ℕ) (steps : List Step)
    → AllExplained steps
    → AllExplained (round_steps (snapshot steps) now steps)
unfolding round_steps
round_steps-AllExplained now steps h =
    let seen = snapshot steps in
    let later = advance_step-Later seen now in
    All-change (λ s. (advance_step seen now s).0) later seen _ steps
      (Grows-change (λ s. (advance_step seen now s).0) later steps)
      (advance_step-IsExplained seen now) h

break_steps-AllExplained :
    (now : ℕ) (steps : List Step) → AllExplained steps → AllExplained (break_steps now steps)
unfolding break_steps
break_steps-AllExplained now steps h =
    let later = break_step-Later now in
    All-change (λ s. (break_step now s).0) later (snapshot steps) _ steps
      (Grows-change (λ s. (break_step now s).0) later steps)
      (break_step-IsExplained (snapshot steps) now) h

-- If every started step has satisfied needs and every skipped step a blocked need, declared ones all,
-- then so it is after `advance`, by the states that `advance` leaves.
pub advance-AllExplained :
    (steps : List Step) (now : ℕ) → AllExplained steps → AllExplained (advance steps now).0
unfolding advance break_cycles
advance-AllExplained steps now h =
    let r = rounds (suc (length steps)) now steps [] in
    let v =
      rounds_inv AllExplained now (round_steps-AllExplained now) (suc (length steps)) steps [] h in
    elim (Bool-cases (any_live r.0)) [
      | inl live ↦ rw live v
      | inr dead ↦ rw dead (break_steps-AllExplained now r.0 v)
    ]
