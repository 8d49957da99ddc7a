-- ===== src/Fetch/Extract/Created.antt =====
-- crates/hull-ci-fetch/src/extract.rs: what an extracted tree may hold.
use hull_ci.Base.{
  ℕ, suc, ◌+◌, ◌≤◌, ◌≡◌, ◌≢◌, refl, Bool, true, false, List, [], ◌∷◌, ◌++◌, Option, none, some,
  Text, text_eq, get, any, length, All, ◌==◌, arith, Bool-cases, inl, inr, sym, subst, some_inj,
  ◌⊎◌,
}
use hull_ci.Fetch.Paths.{
  Component, parent_dir, normal, components, is_absolute, Names, path_keys, path_eq, path_eq_iff,
  has_path, parent,
}
use hull_ci.Fetch.Disk.{
  Node, dir, file, link, Nodes, Disk, Way, clear, followed, past, walk, create,
}
use hull_ci.Fetch.Disk.Ways.{walk-new, Creates, create-Creates}
use hull_ci.Fetch.Extract.{Unicode, Limits, is_control, link_on_path}

-- How often a target climbs, and how many names it goes down by.
unfoldable pub climbs : List Component → ℕ
climbs [] = 0
climbs (parent_dir ∷ cs) = suc (climbs cs)
climbs (c ∷ cs) = climbs cs

unfoldable pub descents : List Component → ℕ
descents [] = 0
descents (normal n ∷ cs) = suc (descents cs)
descents (c ∷ cs) = descents cs

-- Read from a directory of that depth, no part of the target stands above the root.
abbrev pub StaysInside : List Component → ℕ → Type 0
StaysInside cs depth =
    (front back : List Component) → cs ≡ front ++ back → climbs front ≤ depth + descents front

module _ (u : Unicode) (l : Limits) where
  -- A name that the tree may have.
  pub record IsName (n : Text) : Type 0 where
    pub short : length n ≤ l.max_name_bytes
    pub no_backslash : any (λ c. c == b'\\') n ≡ false
    pub not_parent : text_eq n (b'.' ∷ b'.' ∷ []) ≡ false
    pub chars : Text
    pub decoded : u.decode n ≡ some chars
    pub no_control : any is_control chars ≡ false

  abbrev pub IsAllowedNode : Names → Node → Type 0
  IsAllowedNode p dir = Unit
  IsAllowedNode p (file size x) = size ≤ l.max_file_bytes
  IsAllowedNode p (link target) =
      (is_absolute target ≡ false) × StaysInside (components target) (length (parent p))

  abbrev pub IsAllowedPath : Names → Type 0
  IsAllowedPath p = (length p ≤ l.max_path_depth) × All IsName p

  abbrev pub IsAllowed : Names × Node → Type 0
  IsAllowed (p, n) = IsAllowedPath p × IsAllowedNode p n

abbrev pub size_of : Node → ℕ
size_of dir = 0
size_of (file size x) = size
size_of (link target) = 0

unfoldable pub total_size : Nodes → ℕ
total_size [] = 0
total_size ((p, n) ∷ nodes) = size_of n + total_size nodes

-- What holds of the disk, the links that were noted and the bytes that were counted.
pub record IsTree (u : Unicode) (l : Limits) (disk : Disk) (symlinks : List Names) (bytes : ℕ)
    : Type 0 where
  pub not_astray : disk.astray ≡ false
  pub grounded : (p : Names) (n : Node) → get p disk.nodes ≡ some n → walk disk.nodes [] p ≡ clear
  pub noted : (p : Names) (t : Text) → get p disk.nodes ≡ some (link t) → has_path p symlinks ≡ true
  pub allowed : All (IsAllowed u l) disk.nodes
  pub counted : total_size disk.nodes ≡ bytes
  pub within : bytes ≤ l.max_total_bytes

true-ne-false : {b : Bool} → b ≡ true → b ≡ false → ⊥
true-ne-false h k = ground arith

past-not-followed :
    (o : Option Node) (w : Way)
    → ((t : Text) → o ≢ some (link t))
    → w ≢ followed
    → past o w ≢ followed
unfolding past
past-not-followed none w f h e = ground arith
past-not-followed (some dir) w f h e = h e
past-not-followed (some (file s x)) w f h e = ground arith
past-not-followed (some (link t)) w f h e = f t refl

-- A path without a noted link is never followed through one.
pub walk-not-followed :
    (nodes : Nodes) (symlinks : List Names) (prefix rest : Names)
    → ((p : Names) (t : Text) → get p nodes ≡ some (link t) → has_path p symlinks ≡ true)
    → link_on_path symlinks prefix rest ≡ none
    → walk nodes prefix rest ≢ followed
unfolding walk link_on_path
walk-not-followed nodes symlinks prefix [] noted h e = ground arith
walk-not-followed nodes symlinks prefix (c ∷ []) noted h e = ground arith
walk-not-followed nodes symlinks prefix (c ∷ d ∷ r) noted h e =
    elim (Bool-cases (has_path (prefix ++ c ∷ []) symlinks)) [
      | inl x ↦ let bad = rw x at h in ground arith
      | inr x ↦
          past-not-followed (get (prefix ++ c ∷ []) nodes) (walk nodes (prefix ++ c ∷ []) (d ∷ r))
            (λ t g. true-ne-false (noted (prefix ++ c ∷ []) t g) x)
            (walk-not-followed nodes symlinks (prefix ++ c ∷ []) (d ∷ r) noted (rw x at h)) e
    ]

get-own :
    (nodes : Nodes) (q p : Names) (n m : Node)
    → get p ((q, n) ∷ nodes) ≡ some m
    → ((q ≡ p) × (n ≡ m)) ⊎ (get p nodes ≡ some m)
unfolding get
get-own nodes q p n m h = elim (Bool-cases (path_eq q p)) [
  | inl e ↦ inl ((path_eq_iff q p).0 e, some_inj (rw e at h))
  | inr e ↦ inr (rw e at h)
]

-- A node that is made at an allowed path with no link on it.
module _ (u : Unicode) (l : Limits) (disk : Disk) (symlinks later : List Names) (bytes : ℕ)
    (p : Names) (n : Node) (tree : IsTree u l disk symlinks bytes)
    (clean : link_on_path symlinks [] p ≡ none)
    (keeps : (q : Names) → has_path q symlinks ≡ true → has_path q later ≡ true)
    (notes : (t : Text) → n ≡ link t → has_path p later ≡ true) (path : IsAllowedPath u l p)
    (node : IsAllowedNode u l p n) (fits : bytes + size_of n ≤ l.max_total_bytes)
    (done : (create disk p n).1 ≡ true) where
  made-IsTree :
      Creates disk p n (create disk p n).0
      → IsTree u l (record disk { nodes = (p, n) ∷ disk.nodes }) later (bytes + size_of n)
  unfolding total_size
  made-IsTree c = record {
    not_astray = tree.not_astray;
    grounded = λ q m h. elim (get-own disk.nodes p q n m h) [
      | inl (e, f) ↦
          walk-new disk.nodes p n [] q c.free (subst (λ r. walk disk.nodes [] r ≡ clear) e c.way)
      | inr g ↦ walk-new disk.nodes p n [] q c.free (tree.grounded q m g)
    ];
    noted = λ q t h. elim (get-own disk.nodes p q n (link t) h) [
      | inl (e, f) ↦ subst (λ r. has_path r later ≡ true) e (notes t f)
      | inr g ↦ keeps q (tree.noted q t g)
    ];
    allowed = ((path, node), tree.allowed);
    counted = omega (arith, tree.counted);
    within = fits;
  }

  pub create-IsTree : IsTree u l (create disk p n).0 later (bytes + size_of n)
  create-IsTree =
      let c =
        create-Creates disk p n (walk-not-followed disk.nodes symlinks [] p tree.noted clean)
          done in
      subst (λ d. IsTree u l d later (bytes + size_of n)) (sym c.made) (made-IsTree c)
