-- ===== src/Fetch/Extract/Allowed.antt =====
-- crates/hull-ci-fetch/src/extract.rs: what `check_path` and the check of a link's target let through.
use hull_ci.Base.{
  ℕ, zero, suc, ◌+◌, ◌≤◌, ◌≡◌, refl, Bool, true, false, List, [], ◌∷◌, ◌++◌, Text, text_eq, length,
  length-append, All, arith, Bool-cases, Option-cases, inl, inr, subst,
}
use hull_ci.Fetch.Paths.{
  Component, root_dir, cur_dir, parent_dir, normal, components, later_parts, first_parts, Names,
  is_absolute, split_slash,
}
use hull_ci.Fetch.Extract.{
  Unicode, Limits, Checked, good, bad, check_chars, has_backslash, is_some, check_name, after_name,
  check_components, check_path, check_target,
}
use hull_ci.Fetch.Extract.Created.{IsName, IsAllowedPath, StaysInside, climbs, descents}

abbrev parent_name : Text
parent_name = b'.' ∷ b'.' ∷ []

-- A named component is not `..`.
abbrev IsProper : Component → Type 0
IsProper (normal n) = text_eq n parent_name ≡ false
IsProper _ = Unit

later_parts-IsProper : (ps : List Text) → All IsProper (later_parts ps)
unfolding later_parts
later_parts-IsProper [] = tt
later_parts-IsProper ([] ∷ ps) = later_parts-IsProper ps
later_parts-IsProper ((c ∷ cs) ∷ ps) = elim (Bool-cases (text_eq (c ∷ cs) (b'.' ∷ []))) [
  | inl e ↦ rw e (later_parts-IsProper ps)
  | inr e ↦ elim (Bool-cases (text_eq (c ∷ cs) parent_name)) [
    | inl f ↦ rw (e, f) (tt, later_parts-IsProper ps)
    | inr f ↦ rw (e, f) (f, later_parts-IsProper ps)
  ]
]

first_parts-IsProper : (b : Bool) (p : Text × List Text) → All IsProper (first_parts b p)
unfolding first_parts
first_parts-IsProper true ([], ps) = (tt, later_parts-IsProper ps)
first_parts-IsProper false ([], ps) = later_parts-IsProper ps
first_parts-IsProper b (c ∷ cs, ps) = elim (Bool-cases (text_eq (c ∷ cs) (b'.' ∷ []))) [
  | inl e ↦ rw e (tt, later_parts-IsProper ps)
  | inr e ↦ let ih = later_parts-IsProper ((c ∷ cs) ∷ ps) in rw e (rw e at ih)
]

components-IsProper : (path : Text) → All IsProper (components path)
unfolding components
components-IsProper path = first_parts-IsProper (is_absolute path) (split_slash path)

good_inj {ℓ} : {A : Type ℓ} {x y : A} → good x ≡ good y → x ≡ y
good_inj h = ground arith

module _ (u : Unicode) (l : Limits) where
  check_name-IsName :
      (n : Text) {t : Unit {0}}
      → text_eq n parent_name ≡ false
      → check_name u l n ≡ good t
      → IsName u l n
  unfolding check_name has_backslash
  check_name-IsName n p h = elim (Option-cases (u.decode n)) [
    | inl e ↦ let no = rw (e, is_some) at h in absurd (ground arith)
    | inr (chars, e) ↦
        let h' = rw (e, is_some, check_chars) at h in
        record {
          short = ground arith;
          no_backslash = ground arith;
          not_parent = p;
          chars = chars;
          decoded = e;
          no_control = ground arith;
        }
  ]

  All-push :
      (out : Names) (n : Text)
      → All (IsName u l) out
      → IsName u l n
      → All (IsName u l) (out ++ n ∷ [])
  All-push [] n h k = (k, tt)
  All-push (x ∷ out) n h k = (h.0, All-push out n h.1 k)

  after_name_inv :
      (o : Checked (Unit {0})) (depth : ℕ) (rest : Checked Names) (out : Names)
      → after_name u l o depth rest ≡ good out
      → (t : Unit {0}) × (o ≡ good t) × (depth ≤ l.max_path_depth) × (rest ≡ good out)
  unfolding after_name
  after_name_inv (bad r) depth rest out h = absurd (ground arith)
  after_name_inv (good t) depth rest out h = (t, refl, ground arith, ground arith)

  check_components-IsAllowedPath :
      (cs : List Component) (out : Names) (depth : ℕ) (rel : Names)
      → All IsProper cs
      → length out ≡ depth
      → depth ≤ l.max_path_depth
      → All (IsName u l) out
      → check_components u l cs out depth ≡ good rel
      → IsAllowedPath u l rel
  unfolding check_components
  check_components-IsAllowedPath [] out depth rel p n m a h =
      subst (IsAllowedPath u l) (good_inj h) (omega arith, a)
  check_components-IsAllowedPath (cur_dir ∷ cs) out depth rel p n m a h =
      check_components-IsAllowedPath cs out depth rel p.1 n m a h
  check_components-IsAllowedPath (parent_dir ∷ cs) out depth rel p n m a h = absurd (ground arith)
  check_components-IsAllowedPath (root_dir ∷ cs) out depth rel p n m a h = absurd (ground arith)
  check_components-IsAllowedPath (normal name ∷ cs) out depth rel p n m a h =
      let (t, e, deep, rest) =
        after_name_inv (check_name u l name) (suc depth)
          (check_components u l cs (out ++ name ∷ []) (suc depth)) rel h in
      check_components-IsAllowedPath cs (out ++ name ∷ []) (suc depth) rel p.1
        (omega (arith, length-append out (name ∷ []), n)) deep
        (All-push out name a (check_name-IsName name {t = t} p.0 e)) rest

  -- The names of a checked path are short, readable text without control characters and backslashes, none
  -- of them is `..`, and there are no more than the limit.
  pub check_path-IsAllowedPath :
      (path : Text) (rel : Names) → check_path u l path ≡ good rel → IsAllowedPath u l rel
  unfolding check_path
  check_path-IsAllowedPath path rel h =
      check_components-IsAllowedPath (components path) [] 0 rel (components-IsProper path) refl
        (omega arith) tt h

front-cur :
    (f : Component) (front : List Component) (stack : ℕ)
    → cur_dir ≡ f
    → climbs front ≤ stack + descents front
    → climbs (f ∷ front) ≤ stack + descents (f ∷ front)
front-cur f front stack e h =
    subst (λ x. climbs (x ∷ front) ≤ stack + descents (x ∷ front)) e (unfold climbs descents in h)

front-normal :
    (n : Text) (f : Component) (front : List Component) (stack : ℕ)
    → normal n ≡ f
    → climbs front ≤ suc stack + descents front
    → climbs (f ∷ front) ≤ stack + descents (f ∷ front)
front-normal n f front stack e h =
    subst (λ x. climbs (x ∷ front) ≤ stack + descents (x ∷ front)) e
      (unfold climbs descents in omega (arith, h))

front-parent :
    (f : Component) (front : List Component) (stack : ℕ)
    → parent_dir ≡ f
    → climbs front ≤ stack + descents front
    → climbs (f ∷ front) ≤ suc stack + descents (f ∷ front)
front-parent f front stack e h =
    subst (λ x. climbs (x ∷ front) ≤ suc stack + descents (x ∷ front)) e
      (unfold climbs descents in omega (arith, h))

-- The check of a target keeps it inside the tree.
pub check_target-StaysInside :
    (cs : List Component) (stack : ℕ) {t : Unit {0}}
    → check_target cs stack ≡ good t
    → StaysInside cs stack
unfolding check_target climbs descents
check_target-StaysInside cs stack h [] back e = omega arith
check_target-StaysInside [] stack h (f ∷ front) back e = absurd (ground arith)
check_target-StaysInside (cur_dir ∷ cs) stack {t} h (f ∷ front) back e =
    let ih = check_target-StaysInside cs stack {t = t} h front back (ground arith) in
    front-cur f front stack (ground arith) ih
check_target-StaysInside (normal n ∷ cs) stack {t} h (f ∷ front) back e =
    let ih = check_target-StaysInside cs (suc stack) {t = t} h front back (ground arith) in
    front-normal n f front stack (ground arith) ih
check_target-StaysInside (root_dir ∷ cs) stack h (f ∷ front) back e = absurd (ground arith)
check_target-StaysInside (parent_dir ∷ cs) zero h (f ∷ front) back e = absurd (ground arith)
check_target-StaysInside (parent_dir ∷ cs) (suc stack) {t} h (f ∷ front) back e =
    let ih = check_target-StaysInside cs stack {t = t} h front back (ground arith) in
    front-parent f front stack (ground arith) ih
