-- ===== src/Control/Timeouts/Deadline.antt =====
-- crates/hull-ci-control/src/timeouts.rs: `next_step_deadline` is when the next sweep has work.
use hull_ci.Base.{
  ℕ, ◌≤◌, ◌<◌, ◌≡◌, refl, List, [], ◌∷◌, Option, none, some, Text, arith, ◌≢◌, Bool, true, false,
  leb,
}
use hull_ci.Control.StepState.{can_transition_to}
use hull_ci.Control.Step.{Step, transition}
use hull_ci.Control.Timeouts.{
  Timeouts, Expiry, step_deadline, sweep_step, fired, note_fired, next_step_deadline, earlier,
}

-- What a wake-up at `now` finds: nothing, before the deadline or without one, and something after it.
abbrev pub Wakes : Option ℕ → ℕ → List (Text × Expiry) → Type 0
Wakes none now fs = fs ≡ []
Wakes (some d) now fs = (now < d → fs ≡ []) × (d ≤ now → fs ≢ [])

fires_by : Option (ℕ × Expiry) → ℕ → Bool
fires_by none now = false
fires_by (some (d, e)) now = leb d now

abbrev is_some : Option Expiry → Bool
is_some none = false
is_some (some e) = true

sweep_step-fires :
    (t : Timeouts) (now : ℕ) (s : Step)
    → is_some (sweep_step t now s).1 ≡ fires_by (step_deadline s t) now
unfolding sweep_step step_deadline fires_by transition can_transition_to
sweep_step-fires t now s = ground arith

-- A sweep before `next_step_deadline` stops nothing, and one from that instant on stops some step: a
-- driver that sleeps until then misses no clock and does not wake up for nothing.
pub next_step_deadline-Wakes :
    (steps : List Step) (t : Timeouts) (now : ℕ)
    → Wakes (next_step_deadline steps t) now (fired t now steps)
unfolding next_step_deadline fired fires_by
next_step_deadline-Wakes [] t now = refl
next_step_deadline-Wakes (s ∷ ss) t now =
    combine (step_deadline s t) (next_step_deadline ss t) (sweep_step t now s).1
      (sweep_step-fires t now s) (next_step_deadline-Wakes ss t now)
  where
    combine :
        (o : Option (ℕ × Expiry)) (rest : Option ℕ) (r : Option Expiry)
        → is_some r ≡ fires_by o now
        → Wakes rest now (fired t now ss)
        → Wakes (earlier o rest) now (note_fired s.id r (fired t now ss))
    combine none rest none q w = w
    combine none rest (some e) q w = cc
    combine (some (d, e)) none none q w = (λ h. w, λ h k. ground arith)
    combine (some (d, e)) none (some f) q w = (λ h. ground arith, λ h k. cc)
    combine (some (d, e)) (some x) none q w = (λ h. w.0 (omega arith), λ h. w.1 (ground arith))
    combine (some (d, e)) (some x) (some f) q w = (λ h. ground arith, λ h k. cc)
