-- ===== src/Control/Timeouts/Sweep.antt =====
-- crates/hull-ci-control/src/timeouts.rs: what `sweep` does to each step.
use hull_ci.Base.{
  ℕ, ◌+◌, ◌≤◌, ◌<◌, ◌≡◌, refl, ◌⊎◌, inl, inr, true, false, List, [], ◌∷◌, Option, none, some, Text,
  arith, Option-cases, ap, subst, sym,
}
use native.Mathlib.Decide.{dec_lt}
use hull_ci.Control.StepState.{errored, leased, running, is_terminal, can_transition_to}
use hull_ci.Control.Step.{Step, transition}
use hull_ci.Control.Timeouts.{
  Timeouts, Expiry, expiry_reason, step_deadline, step_timeout, sweep_step, fired, sweep,
  note_fired, expired,
}

-- What a sweep makes of one step, with what it reports: nothing, where no clock is armed or the
-- deadline lies ahead, and else an errored step with the reason of its clock.
pub data Swept (t : Timeouts) (now : ℕ) (s u : Step) (report : Option Expiry) : Type 0 where
  unarmed : step_deadline s t ≡ none → u ≡ s → report ≡ none → Swept t now s u report
  early :
      (d : ℕ) (e : Expiry)
      → step_deadline s t ≡ some (d, e)
      → now < d
      → u ≡ s
      → report ≡ none
      → Swept t now s u report
  stopped :
      (d : ℕ) (e : Expiry)
      → step_deadline s t ≡ some (d, e)
      → d ≤ now
      → u.id ≡ s.id
      → u.spec ≡ s.spec
      → u.state ≡ errored
      → u.error_reason ≡ some (expiry_reason e)
      → u.finished_at ≡ some now
      → report ≡ some e
      → Swept t now s u report

-- The same of a whole list, with the reports in the order of the steps.
pub data Sweeps (t : Timeouts) (now : ℕ)
    : List Step → List Step → List (Text × Expiry) → Type 0 where
  done : Sweeps t now [] [] []
  silent :
      {s u : Step} {ss us : List Step} {fs : List (Text × Expiry)}
      → Swept t now s u none
      → Sweeps t now ss us fs
      → Sweeps t now (s ∷ ss) (u ∷ us) fs
  reported :
      {s u : Step} {ss us : List Step} {fs : List (Text × Expiry)} (e : Expiry)
      → Swept t now s u (some e)
      → Sweeps t now ss us fs
      → Sweeps t now (s ∷ ss) (u ∷ us) ((s.id, e) ∷ fs)

sweep_step-armed :
    (t : Timeouts) (now d : ℕ) (e : Expiry) (s : Step)
    → step_deadline s t ≡ some (d, e)
    → is_terminal s.state ≡ false
unfolding step_deadline is_terminal
sweep_step-armed t now d e s h = ground arith

-- A step whose clock ran out can always be errored.
expired_lem :
    (t : Timeouts) (now : ℕ) (e : Expiry) (s : Step)
    → is_terminal s.state ≡ false
    → let r = expired s t now e in
      (r.0.id ≡ s.id)
      × (r.0.spec ≡ s.spec)
      × (r.0.state ≡ errored)
      × (r.0.error_reason ≡ some (expiry_reason e))
      × (r.0.finished_at ≡ some now)
      × (r.1 ≡ some e)
unfolding expired transition can_transition_to is_terminal
expired_lem t now e s h = ground arith

module _ (t : Timeouts) (now : ℕ) (s : Step) where
  sweep_step-none : step_deadline s t ≡ none → sweep_step t now s ≡ (s, none)
  unfolding sweep_step
  sweep_step-none h = rw (h, sweep_step)

  sweep_step-early :
      (d : ℕ) (e : Expiry)
      → step_deadline s t ≡ some (d, e)
      → now < d
      → sweep_step t now s ≡ (s, none)
  unfolding sweep_step
  sweep_step-early d e h k = rw (h, sweep_step) (ground arith)

  sweep_step-late :
      (d : ℕ) (e : Expiry)
      → step_deadline s t ≡ some (d, e)
      → ¬ (now < d)
      → sweep_step t now s ≡ expired s t now e
  unfolding sweep_step
  sweep_step-late d e h k = rw (h, sweep_step) (ground arith)

  sweep_step-stopped :
      (d : ℕ) (e : Expiry)
      → step_deadline s t ≡ some (d, e)
      → ¬ (now < d)
      → Swept t now s (sweep_step t now s).0 (sweep_step t now s).1
  sweep_step-stopped d e h k =
      let (id, spec, state, reason, finished, report) =
        expired_lem t now e s (sweep_step-armed t now d e s h) in
      subst (λ r. Swept t now s r.0 r.1) (sym (sweep_step-late d e h k))
        (Swept.stopped d e h (omega arith) id spec state reason finished report)

  sweep_step-Swept : Swept t now s (sweep_step t now s).0 (sweep_step t now s).1
  sweep_step-Swept = elim (Option-cases (step_deadline s t)) [
    | inl e ↦ let q = sweep_step-none e in Swept.unarmed e (ap (λ r. r.0) q) (ap (λ r. r.1) q)
    | inr ((d, e), p) ↦ elim (dec_lt now d) [
      | yes h ↦
          let q = sweep_step-early d e p h in
          Swept.early d e p h (ap (λ r. r.0) q) (ap (λ r. r.1) q)
      | no h ↦ sweep_step-stopped d e p h
    ]
  ]

-- A sweep stops exactly the steps whose clock has run out, each with the reason of its clock, leaves
-- every other step as it is, and reports the stopped ones in order.
pub sweep-Sweeps :
    (steps : List Step) (t : Timeouts) (now : ℕ)
    → Sweeps t now steps (sweep steps t now).0 (sweep steps t now).1
unfolding sweep fired
sweep-Sweeps [] t now = Sweeps.done
sweep-Sweeps (s ∷ ss) t now = each (sweep-Sweeps ss t now) (sweep_step t now s).1 refl
  where
    u : Step
    u = (sweep_step t now s).0

    each :
        Sweeps t now ss (sweep ss t now).0 (sweep ss t now).1
        → (r : Option Expiry) → (sweep_step t now s).1 ≡ r
        → Sweeps t now (s ∷ ss) (sweep (s ∷ ss) t now).0 (note_fired s.id r (fired t now ss))
    each rest none e = Sweeps.silent (subst (Swept t now s u) e (sweep_step-Swept t now s)) rest
    each rest (some x) e =
        Sweeps.reported x (subst (Swept t now s u) e (sweep_step-Swept t now s)) rest

-- No step outlives `max_step` on a node, whatever its pipeline asked for: one that was started at
-- `at` is in a terminal state after every sweep from `at + max_step` on.
pub sweep_step-max_step :
    (s : Step) (t : Timeouts) (now at : ℕ)
    → (s.state ≡ leased) ⊎ (s.state ≡ running)
    → s.started_at ≡ some at
    → at + t.max_step ≤ now
    → is_terminal (sweep_step t now s).0.state ≡ true
unfolding sweep_step step_deadline step_timeout transition can_transition_to is_terminal
sweep_step-max_step s t now at held started late = ground arith
