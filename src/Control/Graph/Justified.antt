-- ===== src/Control/Graph/Justified.antt =====
-- crates/hull-ci-control/src/graph.rs: what the states of the steps say about their needs, told
-- without the gate.
use hull_ci.Base.{
  ℕ, ◌≡◌, refl, ◌↔◌, Bool, true, false, not, ◌||◌, List, [], ◌∷◌, Option, none, some, Text, arith,
  All, all, any, Bool-cases, Option-cases, inl, inr, find, text_eq, if◌then◌else◌,
}
use hull_ci.Control.StepState.{StepState}
use hull_ci.Control.Step.{Step}
use hull_ci.Control.Graph.{
  Gate, DepStatus, snapshot, status_of, status_found, dep_status, gate, gate_from, gate_end,
  is_live, advance,
}
use hull_ci.Control.Graph.Gated.{IsExplained, advance-AllExplained}

-- The step did what its dependents wait for, or its failure is tolerated.
unfoldable pub is_done : StepState → (tolerated : Bool) → Bool
is_done StepState.passed tolerated = true
is_done StepState.cached tolerated = true
is_done StepState.failed tolerated = tolerated
is_done _ tolerated = false

-- The step is over, and its dependents can never start.
unfoldable pub is_ruined : StepState → (tolerated : Bool) → Bool
is_ruined StepState.failed tolerated = not tolerated
is_ruined StepState.errored tolerated = true
is_ruined StepState.skipped tolerated = true
is_ruined _ tolerated = false

of_step : (StepState → Bool → Bool) → Option Step → Bool
of_step f none = false
of_step f (some s) = f s.state s.spec.continue_on_error

exists_in : Option Step → Bool
exists_in none = false
exists_in (some s) = true

abbrev pub named : Text → List Step → Option Step
named n steps = find (λ s. text_eq s.spec.name n) steps

unfoldable pub fulfilled : List Step → Text → Bool
unfolding of_step is_done
fulfilled steps n = of_step is_done (named n steps)

unfoldable pub ruined : List Step → Text → Bool
unfolding of_step is_ruined
ruined steps n = of_step is_ruined (named n steps)

unfoldable pub declared : List Step → Text → Bool
unfolding exists_in
declared steps n = exists_in (named n steps)

-- A step that was started has all of its needs fulfilled; a step that was skipped has a need that is
-- ruined, and needs declared steps only.
pub record IsJustified (steps : List Step) (s : Step) : Type 0 where
  pub started : is_live s.state ≡ true → all (fulfilled steps) s.spec.needs ≡ true
  pub skipped :
      s.state ≡ StepState.skipped
      → (all (declared steps) s.spec.needs ≡ true) × (any (ruined steps) s.spec.needs ≡ true)

abbrev pub AllJustified : List Step → Type 0
AllJustified steps = All (IsJustified steps) steps

-- The status of a need, by the three questions about it.
told : Bool → Bool → Bool → DepStatus
told true fulfilled ruined =
    if fulfilled
    then DepStatus.satisfied
    else if ruined
    then DepStatus.blocked
    else DepStatus.waiting
told false fulfilled ruined = DepStatus.unknown

status_of-told :
    (s : StepState) (c : Bool) → status_of s c ≡ told true (is_done s c) (is_ruined s c)
unfolding status_of told is_done is_ruined
status_of-told s c = ground arith

dep_status-told :
    (n : Text) (steps : List Step)
    → dep_status n (snapshot steps) ≡ told (declared steps n) (fulfilled steps n) (ruined steps n)
unfolding dep_status find status_found declared fulfilled ruined told
dep_status-told n [] = refl
dep_status-told n (s ∷ ss) = elim (Bool-cases (text_eq s.spec.name n)) [
  | inl hit ↦
      rw (hit, status_found, of_step, exists_in) (status_of-told s.state s.spec.continue_on_error)
  | inr miss ↦ rw miss (dep_status-told n ss)
]

is_done-ne-is_ruined : (s : StepState) (c : Bool) → is_done s c ≡ true → is_ruined s c ≡ false
unfolding is_done is_ruined
is_done-ne-is_ruined s c h = ground arith

record Coherent (declared fulfilled ruined : Bool) : Type 0 where
  fulfilled_declared : fulfilled ≡ true → declared ≡ true
  ruined_declared : ruined ≡ true → declared ≡ true
  not_both : fulfilled ≡ true → ruined ≡ false

need-Coherent :
    (steps : List Step) (n : Text)
    → Coherent (declared steps n) (fulfilled steps n) (ruined steps n)
unfolding declared fulfilled ruined
need-Coherent steps n = elim (Option-cases (named n steps)) [
  | inl e ↦
      rw (e, of_step, exists_in)
        (record { fulfilled_declared = λ h. h; ruined_declared = λ h. h; not_both = λ h. refl })
  | inr (s, e) ↦
      rw (e, of_step, exists_in)
        (record {
          fulfilled_declared = λ h. refl;
          ruined_declared = λ h. refl;
          not_both = is_done-ne-is_ruined s.state s.spec.continue_on_error;
        })
]

module _ (steps : List Step) where
  gate_from-ready_iff :
      (b w : Bool) (ns : List Text)
      → (gate_from b w ns (snapshot steps) ≡ Gate.ready)
        ↔ ((b ≡ false) × (w ≡ false) × (all (fulfilled steps) ns ≡ true))
  unfolding gate_from gate_end all told
  gate_from-ready_iff b w [] = ground arith
  gate_from-ready_iff b w (n ∷ ns) =
      let c = need-Coherent steps n in
      ground (
        arith,
        dep_status-told n steps,
        c.fulfilled_declared,
        gate_from-ready_iff b w ns,
        gate_from-ready_iff true w ns,
        gate_from-ready_iff b true ns,
      )

  gate_from-skip_iff :
      (b w : Bool) (ns : List Text)
      → (gate_from b w ns (snapshot steps) ≡ Gate.skip)
        ↔ ((all (declared steps) ns ≡ true) × ((b || any (ruined steps) ns) ≡ true))
  unfolding gate_from gate_end all any told
  gate_from-skip_iff b w [] = ground arith
  gate_from-skip_iff b w (n ∷ ns) =
      let c = need-Coherent steps n in
      ground (
        arith,
        dep_status-told n steps,
        c.fulfilled_declared,
        c.ruined_declared,
        c.not_both,
        gate_from-skip_iff b w ns,
        gate_from-skip_iff true w ns,
        gate_from-skip_iff b true ns,
      )

  IsJustified-IsExplained : (s : Step) → IsJustified steps s ↔ IsExplained (snapshot steps) s
  unfolding gate
  IsJustified-IsExplained s =
      let ready = gate_from-ready_iff false false s.spec.needs in
      let skip = gate_from-skip_iff false false s.spec.needs in
      (
        λ v. record {
          started = λ h. ready.1 (refl, refl, v.started h);
          skipped = λ h. skip.1 (v.skipped h);
        },
        λ v. record {
          started = λ h. (ready.0 (v.started h)).2;
          skipped = λ h. skip.0 (v.skipped h);
        },
      )

  AllJustified-AllExplained :
      (ss : List Step) → All (IsJustified steps) ss ↔ All (IsExplained (snapshot steps)) ss
  AllJustified-AllExplained [] = (λ v. tt, λ v. tt)
  AllJustified-AllExplained (s ∷ ss) =
      let one = IsJustified-IsExplained s in
      let rest = AllJustified-AllExplained ss in
      (λ v. (one.0 v.0, rest.0 v.1), λ v. (one.1 v.0, rest.1 v.1))

-- If every started step has its needs fulfilled and every skipped step a ruined need, declared ones
-- all, then so it is after `advance`, by the states that `advance` leaves. So no step is started
-- before its needs are fulfilled, and none is skipped without cause.
pub advance-AllJustified :
    (steps : List Step) (now : ℕ) → AllJustified steps → AllJustified (advance steps now).0
advance-AllJustified steps now v =
    let out = (advance steps now).0 in
    (AllJustified-AllExplained out out).1
      (advance-AllExplained steps now ((AllJustified-AllExplained steps steps).0 v))
