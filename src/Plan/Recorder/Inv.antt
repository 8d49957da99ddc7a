-- ===== src/Plan/Recorder/Inv.antt =====
-- crates/hull-ci-plan/src/eval.rs: the invariant of the recorder, at a step that is pushed.
use hull_ci.Base.{
  ℕ, zero, suc, ◌+◌, ◌≤◌, ◌<◌, max, ◌≡◌, refl, sym, ap, ◌∙◌, subst, ◌⊎◌, inl, inr, false, List, [],
  ◌∷◌, ◌++◌, Option, none, some, Text, text_eq, text_eq_iff, text_keys, get, insert, get-insert,
  All, length, length-append, ltb, arith, Bool-cases, some_inj, Option-cases,
}
use hull_ci.Plan.Error.{
  >>-before, >>-after, ok, err, ok_inj, Result-cases, PlanErrorKind, invalid, dangling_needs,
}
use hull_ci.Plan.Validate.{check_step_name}
use hull_ci.Plan.Pipeline.{PlanStep, deepest, depth}
use hull_ci.Plan.Recorder.{
  Limits, State, into_pipeline, get_elem?, needs_depth, check_step, push_at, push_deep,
  push_checked, push, truncate,
}
use hull_ci.Plan.Recorder.Table.{
  table_from, Ordered, or_else, get-append, get-append_absent, table_from-append, depth_from-append,
  Ordered-append,
}

-- The recorded depth of the step of a name, if there is one; `none` where the index is out of range.
unfoldable pub needed : State → Text → Option (Option ℕ)
needed s n = elim (get n s.index) [
  | none ↦ some none
  | some i ↦ elim (get_elem? s.depths i) [ none ↦ none | some d ↦ some (some d) ]
]

abbrev pub table : State → List (Text × ℕ)
table s = table_from [] s.steps

-- The index and the depths are those of the steps, which are in order and within the limits.
pub record IsRecorded (l : Limits) (s : State) : Type 0 where
  pub at_names : (n : Text) → needed s n ≡ some (get n (table s))
  pub as_many : length s.depths ≡ length s.steps
  pub ordered : Ordered [] s.steps
  pub limited : s.limits ≡ l
  pub few : length s.steps ≤ s.limits.max_steps
  pub shallow : depth (into_pipeline s) ≤ s.limits.max_depth

module _ {A : Type 0} where
  get_elem?-there :
      (xs : List A) (x y : A) (i : ℕ)
      → get_elem? xs i ≡ some x
      → get_elem? (xs ++ y ∷ []) i ≡ some x
  unfolding get_elem?
  get_elem?-there [] x y i h = absurd (ground arith)
  get_elem?-there (z ∷ xs) x y zero h = h
  get_elem?-there (z ∷ xs) x y (suc i) h = get_elem?-there xs x y i h

  get_elem?-last : (xs : List A) (y : A) → get_elem? (xs ++ y ∷ []) (length xs) ≡ some y
  unfolding get_elem?
  get_elem?-last [] y = refl
  get_elem?-last (x ∷ xs) y = get_elem?-last xs y

needed-missing : (s : State) (n : Text) → get n s.index ≡ none → needed s n ≡ some none
unfolding needed
needed-missing s n h = ground arith

needed-found :
    (s : State) (n : Text) (i : ℕ) {d : ℕ}
    → get n s.index ≡ some i
    → get_elem? s.depths i ≡ some d
    → needed s n ≡ some (some d)
unfolding needed
needed-found s n i h g = ground arith

module _ (s : State) (n : Text) (at : needed s n ≡ some (get n (table s))) where
  tabled-none : get n s.index ≡ none → get n (table s) ≡ none
  tabled-none h = some_inj (sym at ∙ needed-missing s n h)

  tabled-some :
      (i : ℕ)
      → get n s.index ≡ some i
      → (d : ℕ) × (get_elem? s.depths i ≡ some d) × (get n (table s) ≡ some d)
  unfolding needed
  tabled-some i h = elim (Option-cases (get_elem? s.depths i)) [
    | inl out ↦ absurd (ground arith)
    | inr (d, there) ↦ (d, there, some_inj (sym at ∙ needed-found s n i h there))
  ]

module _ (s : State) (name n : Text) (d : ℕ) (ns : List Text) where
  needs_depth-missing :
      get n s.index ≡ none
      → needs_depth s name d (n ∷ ns) ≡ some (err (invalid (dangling_needs name (truncate n))))
  unfolding needs_depth
  needs_depth-missing h = ground arith

  needs_depth-found :
      (i : ℕ) {v : ℕ}
      → get n s.index ≡ some i
      → get_elem? s.depths i ≡ some v
      → needs_depth s name d (n ∷ ns) ≡ needs_depth s name (max d (v + 1)) ns
  unfolding needs_depth
  needs_depth-found i h g = ground arith

deepest-found :
    (m : List (Text × ℕ)) (n : Text) (ns : List Text) {v : ℕ}
    → get n m ≡ some v
    → deepest m (n ∷ ns) ≡ max v (deepest m ns)
unfolding deepest
deepest-found m n ns h = ground arith

max-deeper : (d v e : ℕ) → max (max d (v + 1)) (1 + e) ≡ max d (1 + max v e)
max-deeper d v e = omega arith

-- The loop meets no index out of range, and a depth it comes to is one more than the deepest need.
needs_depth-deepest :
    (s : State)
    → ((n : Text) → needed s n ≡ some (get n (table s)))
    → (name : Text) (ns : List Text) (d : ℕ) → 1 ≤ d
    → ((e : PlanErrorKind) × (needs_depth s name d ns ≡ some (err e)))
      ⊎ ((needs_depth s name d ns ≡ some (ok (max d (1 + deepest (table s) ns))))
          × All (λ n. (v : ℕ) × (get n (table s) ≡ some v)) ns)
unfolding needs_depth deepest
needs_depth-deepest s at_names name [] d h = inr (ground arith, tt)
needs_depth-deepest s at_names name (n ∷ ns) d h = elim (Option-cases (get n s.index)) [
  | inl missing ↦ inl (_, needs_depth-missing s name n d ns missing)
  | inr (i, found) ↦
      (let (v, there, tabled) = tabled-some s n (at_names n) i found in
        let goes_on = needs_depth-found s name n d ns i found there in
        elim (needs_depth-deepest s at_names name ns (max d (v + 1)) (omega arith)) [
          | inl (e, refused) ↦ inl (e, goes_on ∙ refused)
          | inr (come, met) ↦ inr (
            goes_on
                ∙ come
                ∙ ap (λ k. some (ok k))
                    (max-deeper d v (deepest (table s) ns)
                      ∙ ap (λ k. max d (1 + k)) (sym (deepest-found (table s) n ns tabled))),
            ((v, tabled), met),
          )
        ])
]

-- The state after a step of a depth.
abbrev pub grown : PlanStep → State → ℕ → State
grown step s depth = record s {
  index = insert step.name (length s.steps) s.index;
  depths = s.depths ++ depth ∷ [];
  steps = s.steps ++ step ∷ [];
}

module _ {l : Limits} (step : PlanStep) (s : State) (r : IsRecorded l s)
    (absent : get step.name s.index ≡ none) where
  abbrev pub its_depth : ℕ
  its_depth = 1 + deepest (table s) step.needs

  grown-same :
      (n : Text) → step.name ≡ n → needed (grown step s its_depth) n ≡ some (some its_depth)
  grown-same n e =
      needed-found (grown step s its_depth) n (length s.steps)
        (get-insert step.name n (length s.steps) s.index
          ∙ ground (arith, (text_eq_iff step.name n).1 e))
        (rw (sym r.as_many) (get_elem?-last s.depths its_depth))

  grown-other :
      (n : Text) → text_eq step.name n ≡ false → needed (grown step s its_depth) n ≡ needed s n
  grown-other n ne = elim (Option-cases (get n s.index)) [
    | inl missing ↦
        needed-missing (grown step s its_depth) n
          (get-insert step.name n (length s.steps) s.index ∙ rw (ne, missing))
        ∙ sym (needed-missing s n missing)
    | inr (i, found) ↦
        (let (d, there, tabled) = tabled-some s n (r.at_names n) i found in
          needed-found (grown step s its_depth) n i
            (get-insert step.name n (length s.steps) s.index ∙ rw (ne, found))
            (get_elem?-there s.depths d its_depth i there)
          ∙ sym (needed-found s n i found there))
  ]

  absent-tabled : get step.name (table s) ≡ none
  absent-tabled = tabled-none s step.name (r.at_names step.name) absent

  grown-at_names :
      (n : Text)
      → needed (grown step s its_depth) n ≡ some (get n (table s ++ (step.name, its_depth) ∷ []))
  unfolding or_else
  grown-at_names n = elim (Bool-cases (text_eq step.name n)) [
    | inl t ↦
        grown-same n ((text_eq_iff step.name n).0 t)
        ∙ sym (
            ap some (
              get-append_absent n step.name its_depth (table s)
                (subst (λ k. get k (table s) ≡ none) ((text_eq_iff step.name n).0 t) absent-tabled)
              ∙ rw t))
    | inr f ↦
        grown-other n f
        ∙ r.at_names n
        ∙ ap some (sym (get-append n step.name its_depth (table s) ∙ ground arith))
  ]

  grown-IsRecorded :
      check_step_name step.name ≡ ok tt
      → length s.steps < s.limits.max_steps
      → its_depth ≤ s.limits.max_depth
      → All (λ n. (v : ℕ) × (get n (table s) ≡ some v)) step.needs
      → IsRecorded l (grown step s its_depth)
  unfolding depth into_pipeline
  grown-IsRecorded named room fits met = record {
    at_names =
        λ n. grown-at_names n ∙ ap (λ m. some (get n m)) (sym (table_from-append [] s.steps step));
    as_many =
        length-append s.depths (its_depth ∷ [])
        ∙ ap (λ k. k + 1) r.as_many
        ∙ sym (length-append s.steps (step ∷ []));
    limited = r.limited;
    ordered = Ordered-append [] s.steps step r.ordered named absent-tabled met;
    few = omega (arith, length-append s.steps (step ∷ []));
    shallow =
        subst (λ k. k ≤ s.limits.max_depth) (sym (depth_from-append [] 0 s.steps step))
          (omega (arith, r.shallow));
  }

-- A step that passes the checks has a proper name that is not taken, and there is room for it.
check_step-ok :
    (step : PlanStep) (s : State)
    → check_step step s ≡ ok tt
    → (check_step_name step.name ≡ ok tt)
      × (get step.name s.index ≡ none)
      × (length s.steps < s.limits.max_steps)
unfolding check_step
check_step-ok step s c =
    (let named_and_new =
        >>-before _ _
          (>>-before _ _ (>>-before _ _ (>>-before _ _ (>>-before _ _ (>>-before _ _ c))))) in
      let new = >>-after (check_step_name step.name) _ named_and_new in
      elim (Option-cases (get step.name s.index)) [
        | inl absent ↦ (>>-before (check_step_name step.name) _ named_and_new, absent, ground arith)
        | inr (i, taken) ↦ absurd (ground arith)
      ])

push_at-grown :
    (step : PlanStep) (s : State) (d : ℕ) {h : Text} {s' : State}
    → push_at step s d ≡ ok (h, s')
    → (d ≤ s.limits.max_depth) × (h ≡ step.name) × (s' ≡ grown step s d)
unfolding push_at
push_at-grown step s d {h} {s'} o = elim (Bool-cases (ltb s.limits.max_depth d)) [
  | inl deep ↦ absurd (ground arith)
  | inr fits ↦
      (let done = ok_inj (rw fits at o) in
        (ground arith, sym (ap (λ r. r.0) done), sym (ap (λ r. r.1) done)))
]

module _ {l : Limits} (step : PlanStep) (s : State) (r : IsRecorded l s) where
  abbrev pub its_state : State
  its_state = grown step s (1 + deepest (table s) step.needs)

  push-done :
      check_step step s ≡ ok tt
      → needs_depth s step.name 1 step.needs ≡ some (ok (max 1 (1 + deepest (table s) step.needs)))
      → push step s ≡ some (push_at step s (1 + deepest (table s) step.needs))
  unfolding push
  push-done c d =
      ap (push_checked step s) c
      ∙ ap (push_deep step s) d
      ∙ ap (λ k. some (push_at step s k)) (omega arith)

  -- A step is refused, or it is the last step of a recorder that is within the limits still.
  pub push-cases :
      ((e : PlanErrorKind) × (push step s ≡ some (err e)))
      ⊎ ((push step s ≡ some (ok (step.name, its_state))) × IsRecorded l its_state)
  unfolding push
  push-cases = elim (Result-cases (check_step step s)) [
    | inl (e, refused) ↦ inl (e, ap (push_checked step s) refused)
    | inr (u, passed) ↦
        elim (needs_depth-deepest s r.at_names step.name step.needs 1 (omega arith)) [
          | inl (e, refused) ↦
              inl (e, ap (push_checked step s) passed ∙ ap (push_deep step s) refused)
          | inr (come, met) ↦
              elim (Result-cases (push_at step s (1 + deepest (table s) step.needs))) [
                | inl (e, deep) ↦ inl (e, push-done passed come ∙ ap some deep)
                | inr ((h, s'), fits) ↦
                    (let (named, absent, room) = check_step-ok step s passed in
                      let (shallow, his_name, grows) = push_at-grown step s _ fits in
                      inr (
                        push-done passed come
                            ∙ ap some fits
                            ∙ ap (λ p. some (ok p))
                                (ap (λ n. (n, s')) his_name ∙ ap (λ q. (step.name, q)) grows),
                        grown-IsRecorded step s r absent named room shallow met,
                      ))
              ]
        ]
  ]
