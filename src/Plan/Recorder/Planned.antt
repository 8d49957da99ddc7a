-- ===== src/Plan/Recorder/Planned.antt =====
-- crates/hull-ci-plan/src/eval.rs: whole evaluations of a pipeline file's calls.
use hull_ci.Base.{
  ◌≡◌, refl, ap, ◌∙◌, subst, ◌⊎◌, inl, inr, Bool, true, false, List, [], ◌∷◌, Option, some, Text,
  lit, text_eq, text_keys, get, arith, Bool-cases, Option-cases,
}
use hull_ci.Plan.Error.{>>-after, Result, ok, err, ok_inj, PlanErrorKind}
use hull_ci.Plan.Pipeline.{Trust, trusted, untrusted, depth_from, depth}
use hull_ci.Plan.Recorder.{
  Limits, State, new, into_pipeline, Call, call, pushed, evaluate, fail, set_image, set_trust,
  set_cache_scope, image_call, trust_call, cache_scope_call, step_call,
}
use hull_ci.Plan.Recorder.Table.{table_from, Ordered}
use hull_ci.Plan.Recorder.Inv.{IsRecorded, needed, push-cases, its_state}

new-IsRecorded : (l : Limits) (actions : List Text) → IsRecorded l (new l actions)
unfolding needed new get table_from Ordered into_pipeline depth depth_from
new-IsRecorded l actions = record {
  at_names = λ n. refl;
  as_many = refl;
  limited = refl;
  ordered = tt;
  few = omega arith;
  shallow = omega arith;
}

-- A change of the settings of the pipeline alone.
settings-IsRecorded :
    {l : Limits} (s : State) (i : Option Text) (t : Option Trust) (c : Option Text)
    (f : Option PlanErrorKind)
    → IsRecorded l s
    → IsRecorded l (record s { image = i; trust = t; cache_scope = c; failure = f })
unfolding needed into_pipeline depth
settings-IsRecorded s i t c f r = record {
  at_names = r.at_names;
  as_many = r.as_many;
  limited = r.limited;
  ordered = r.ordered;
  few = r.few;
  shallow = r.shallow;
}

fail-IsRecorded :
    {l : Limits} (e : PlanErrorKind) (s : State) → IsRecorded l s → IsRecorded l (fail e s)
unfolding fail
fail-IsRecorded e s r = settings-IsRecorded s s.image s.trust s.cache_scope _ r

module _ {l : Limits} (s : State) (r : IsRecorded l s) {s' : State} where
  set_image-IsRecorded : (reference : Text) → set_image reference s ≡ ok s' → IsRecorded l s'
  unfolding set_image
  set_image-IsRecorded reference h = elim (Option-cases s.image) [
    | inl fresh ↦
        subst (IsRecorded _) (ok_inj (>>-after _ _ (rw fresh at h)))
          (settings-IsRecorded s (some reference) s.trust s.cache_scope s.failure r)
    | inr (i, again) ↦ absurd (ground arith)
  ]

  set_cache_scope-IsRecorded : (name : Text) → set_cache_scope name s ≡ ok s' → IsRecorded l s'
  unfolding set_cache_scope
  set_cache_scope-IsRecorded name h = elim (Option-cases s.cache_scope) [
    | inl fresh ↦
        subst (IsRecorded _) (ok_inj (>>-after _ _ (rw fresh at h)))
          (settings-IsRecorded s s.image s.trust (some name) s.failure r)
    | inr (i, again) ↦ absurd (ground arith)
  ]

  set_trust-IsRecorded : (given : Text) → set_trust given s ≡ ok s' → IsRecorded l s'
  unfolding set_trust
  set_trust-IsRecorded given h = elim (Option-cases s.trust) [
    | inr (i, again) ↦ absurd (ground arith)
    | inl fresh ↦ elim (Bool-cases (text_eq given (lit "trusted"))) [
      | inl t ↦
          subst (IsRecorded _) (ok_inj (rw (fresh, t) at h))
            (settings-IsRecorded s s.image (some trusted) s.cache_scope s.failure r)
      | inr f ↦ elim (Bool-cases (text_eq given (lit "untrusted"))) [
        | inl t ↦
            subst (IsRecorded _) (ok_inj (rw (fresh, f, t) at h))
              (settings-IsRecorded s s.image (some untrusted) s.cache_scope s.failure r)
        | inr g ↦ absurd (ground arith)
      ]
    ]
  ]

-- What a builtin says of a recorder that is within the limits.
abbrev Answer : Limits → Option (Result State) → Type 0
Answer l o =
    ((e : PlanErrorKind) × (o ≡ some (err e))) ⊎ ((s : State) × (o ≡ some (ok s)) × IsRecorded l s)

set-Answer :
    {l : Limits} (m : Result State) → ((s : State) → m ≡ ok s → IsRecorded l s) → Answer l (some m)
set-Answer (ok s) h = inr (s, refl, h s refl)
set-Answer (err e) h = inl (e, refl)

call-Answer : {l : Limits} (c : Call) (s : State) → IsRecorded l s → Answer l (call c s)
unfolding call
call-Answer (image_call x) s r = set-Answer (set_image x s) λ s' h. set_image-IsRecorded s r x h
call-Answer (trust_call x) s r = set-Answer (set_trust x s) λ s' h. set_trust-IsRecorded s r x h
call-Answer (cache_scope_call x) s r =
    set-Answer (set_cache_scope x s) λ s' h. set_cache_scope-IsRecorded s r x h
call-Answer (step_call step) s r = elim (push-cases step s r) [
  | inl (e, refused) ↦ inl (e, ap pushed refused)
  | inr (done, after) ↦ inr (its_state step s r, ap pushed done, after)
]

evaluate-after :
    (c : Call) (cs : List Call) (s s' : State)
    → call c s ≡ some (ok s')
    → evaluate (c ∷ cs) s ≡ evaluate cs s'
unfolding evaluate
evaluate-after c cs s s' h = ground arith

evaluate-failed :
    (c : Call) (cs : List Call) (s : State) (e : PlanErrorKind)
    → call c s ≡ some (err e)
    → evaluate (c ∷ cs) s ≡ some (fail e s, false)
unfolding evaluate
evaluate-failed c cs s e h = ground arith

evaluate_from :
    {l : Limits} (cs : List Call) (s : State)
    → IsRecorded l s
    → (s' : State) × (finished : Bool) × (evaluate cs s ≡ some (s', finished)) × IsRecorded l s'
unfolding evaluate
evaluate_from [] s r = (s, true, refl, r)
evaluate_from (c ∷ cs) s r = elim (call-Answer c s r) [
  | inl (e, failed) ↦ (fail e s, false, evaluate-failed c cs s e failed, fail-IsRecorded e s r)
  | inr (s', done, r') ↦
      (let (t, finished, comes, within) = evaluate_from cs s' r' in
        (t, finished, evaluate-after c cs s s' done ∙ comes, within))
]

-- Whatever calls a pipeline file makes, an evaluation looks no index up that is out of range, and what is
-- recorded at its end, or where a call failed, has: no more steps than the limit; each step under a proper
-- name that no earlier step has, needing earlier steps alone; and a longest path, as the pipeline counts it,
-- within the limit.
pub evaluate-IsRecorded :
    (cs : List Call) (l : Limits) (actions : List Text)
    → (s : State) × (finished : Bool) × (evaluate cs (new l actions) ≡ some (s, finished))
      × IsRecorded l s
evaluate-IsRecorded cs l actions = evaluate_from cs (new l actions) (new-IsRecorded l actions)
