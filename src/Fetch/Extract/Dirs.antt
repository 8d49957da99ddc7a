-- ===== src/Fetch/Extract/Dirs.antt =====
-- crates/hull-ci-fetch/src/extract.rs: the making of directories.
use hull_ci.Base.{
  ℕ, ◌+◌, ◌≡◌, refl, Bool, true, false, List, [], ◌∷◌, ◌++◌, none, length-append, All, arith,
  Bool-cases, inl, inr, sym, ◌∙◌, subst, ◌⊎◌,
}
use mathlib.Core.List.{append_assoc}
use hull_ci.Fetch.Paths.{Names, has_path}
use hull_ci.Fetch.Disk.{dir, Disk, create}
use hull_ci.Fetch.Extract.{
  Unicode, Limits, Checked, good, bad, Rejection, State, link_on_path, made_dir, make_dir,
  make_dirs_from, make_dirs,
}
use hull_ci.Fetch.Extract.Created.{IsName, IsAllowedPath, IsTree, create-IsTree}

-- What is known of a state while it works at a path.
pub record IsSound (u : Unicode) (l : Limits) (st : State) : Type 0 where
  pub tree : IsTree u l st.disk st.symlinks st.out.bytes

-- A path of allowed names with no noted link on it.
pub record IsClean (u : Unicode) (l : Limits) (st : State) (p : Names) : Type 0 where
  pub path : IsAllowedPath u l p
  pub no_link : link_on_path st.symlinks [] p ≡ none

All-front {ℓ κ} : {A : Type ℓ} (P : A → Type κ) (xs ys : List A) → All P (xs ++ ys) → All P xs
All-front P [] ys h = tt
All-front P (x ∷ xs) ys h = (h.0, All-front P xs ys h.1)

link_on_path-front :
    (symlinks : List Names) (prefix xs ys : Names)
    → link_on_path symlinks prefix (xs ++ ys) ≡ none
    → link_on_path symlinks prefix xs ≡ none
unfolding link_on_path
link_on_path-front symlinks prefix [] ys h = refl
link_on_path-front symlinks prefix (x ∷ xs) ys h =
    ground (arith, link_on_path-front symlinks (prefix ++ x ∷ []) xs ys)

pub IsClean-front :
    (u : Unicode) (l : Limits) (st : State) (xs ys : Names)
    → IsClean u l st (xs ++ ys)
    → IsClean u l st xs
IsClean-front u l st xs ys c = record {
  path = (omega (arith, length-append xs ys, c.path.0), All-front (IsName u l) xs ys c.path.1);
  no_link = link_on_path-front st.symlinks [] xs ys c.no_link;
}

-- What the making of directories leaves.
pub record MakesDirs (u : Unicode) (l : Limits) (st out : State) : Type 0 where
  pub sound : IsSound u l out
  pub same_links : out.symlinks ≡ st.symlinks
  pub same_out : out.out ≡ st.out

made_dir_inv :
    (st : State) (p : Names) (o : Disk × Bool) (out : State)
    → made_dir st p o ≡ good out
    → (o.1 ≡ true) × (out ≡ record st { disk = o.0; dirs = p ∷ st.dirs })
unfolding made_dir
made_dir_inv st p (disk, true) out h = (refl, ground arith)
made_dir_inv st p (disk, false) out h = absurd (ground arith)

good_inj {ℓ} : {A : Type ℓ} {x y : A} → good x ≡ good y → x ≡ y
good_inj h = ground arith

plus-zero : (n : ℕ) → n + 0 ≡ n
plus-zero n = omega arith

make_dir-MakesDirs :
    (u : Unicode) (l : Limits) (st out : State) (p : Names)
    → IsSound u l st
    → IsClean u l st p
    → make_dir st p ≡ good out
    → MakesDirs u l st out
unfolding make_dir
make_dir-MakesDirs u l st out p s c h = elim (Bool-cases (has_path p st.dirs)) [
  | inl e ↦
      subst (MakesDirs u l st) (good_inj (rw e at h))
        (record { sound = s; same_links = refl; same_out = refl })
  | inr e ↦
      let (done, made) = made_dir_inv st p (create st.disk p dir) out (rw e at h) in
      subst (MakesDirs u l st) (sym made) (record {
        sound = record {
          tree = subst (IsTree u l (create st.disk p dir).0 st.symlinks) (plus-zero st.out.bytes) (
              create-IsTree u l st.disk st.symlinks st.symlinks st.out.bytes p dir s.tree c.no_link
                (λ q k. k) (λ t f. absurd (ground arith)) c.path tt (omega (arith, s.tree.within))
                done);
        };
        same_links = refl;
        same_out = refl;
      })
]

pub IsClean-same :
    (u : Unicode) (l : Limits) (st out : State) (p : Names)
    → out.symlinks ≡ st.symlinks
    → IsClean u l st p
    → IsClean u l out p
IsClean-same u l st out p e c = record {
  path = c.path;
  no_link = subst (λ s. link_on_path s [] p ≡ none) (sym e) c.no_link;
}

MakesDirs-trans :
    (u : Unicode) (l : Limits) (st mid out : State)
    → MakesDirs u l st mid
    → MakesDirs u l mid out
    → MakesDirs u l st out
MakesDirs-trans u l st mid out m n = record {
  sound = n.sound;
  same_links = n.same_links ∙ m.same_links;
  same_out = n.same_out ∙ m.same_out;
}

pub Checked-cases {ℓ} :
    {A : Type ℓ} (o : Checked A) → ((a : A) × (o ≡ good a)) ⊎ ((r : Rejection) × (o ≡ bad r))
Checked-cases (good a) = inl (a, refl)
Checked-cases (bad r) = inr (r, refl)

make_dirs_from-MakesDirs :
    (u : Unicode) (l : Limits) (st out : State) (prefix rest : Names)
    → IsSound u l st
    → IsClean u l st (prefix ++ rest)
    → make_dirs_from st prefix rest ≡ good out
    → MakesDirs u l st out
unfolding make_dirs_from
make_dirs_from-MakesDirs u l st out prefix [] s c h =
    subst (MakesDirs u l st) (good_inj h) (record { sound = s; same_links = refl; same_out = refl })
make_dirs_from-MakesDirs u l st out prefix (x ∷ rest) s c h =
    let c' : IsClean u l st ((prefix ++ x ∷ []) ++ rest) =
      subst (IsClean u l st) (sym (append_assoc prefix (x ∷ []) rest)) c in
    elim (Checked-cases (make_dir st (prefix ++ x ∷ []))) [
      | inr (r, e) ↦ let no = rw (e, make_dirs_from) at h in absurd (ground arith)
      | inl (mid, e) ↦
          let m =
            make_dir-MakesDirs u l st mid (prefix ++ x ∷ []) s
              (IsClean-front u l st (prefix ++ x ∷ []) rest c') e in
          MakesDirs-trans u l st mid out m (
            make_dirs_from-MakesDirs u l mid out (prefix ++ x ∷ []) rest m.sound
              (IsClean-same u l st mid ((prefix ++ x ∷ []) ++ rest) m.same_links c')
              (rw (e, make_dirs_from) at h))
    ]

pub make_dirs-MakesDirs :
    (u : Unicode) (l : Limits) (st out : State) (p : Names)
    → IsSound u l st
    → IsClean u l st p
    → make_dirs st p ≡ good out
    → MakesDirs u l st out
unfolding make_dirs
make_dirs-MakesDirs u l st out p s c h = make_dirs_from-MakesDirs u l st out [] p s c h
