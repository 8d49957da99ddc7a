-- ===== src/Fetch/Disk/Ways.antt =====
-- crates/hull-ci-fetch/src/extract.rs: what a new node does to the ways on the disk.
use hull_ci.Base.{
  ◌≡◌, ◌≢◌, refl, true, [], ◌∷◌, ◌++◌, Option, none, some, get, arith, Bool-cases, Option-cases,
  inl, inr, sym, ◌∙◌, subst,
}
use hull_ci.Fetch.Paths.{Names, path_keys, path_eq, path_eq_iff}
use hull_ci.Fetch.Disk.{
  Node, dir, file, link, Nodes, Disk, Way, clear, blocked, followed, past, walk, is_free, create,
  create_by,
}

pub get-new :
    (nodes : Nodes) (q p : Names) (n m : Node)
    → get q nodes ≡ none
    → get p nodes ≡ some m
    → get p ((q, n) ∷ nodes) ≡ some m
unfolding get
get-new nodes q p n m free h = elim (Bool-cases (path_eq q p)) [
  | inl e ↦
      let bad = subst (λ r. get r nodes ≡ none) ((path_eq_iff q p).0 e) free in
      absurd (some-ne-none (sym h ∙ bad))
  | inr e ↦ rw e h
]
  where
    some-ne-none : {x : Node} → some x ≡ none → ⊥
    some-ne-none h = ground arith

past-clear : (o : Option Node) (w : Way) → past o w ≡ clear → (o ≡ some dir) × (w ≡ clear)
unfolding past
past-clear none w h = absurd (ground arith)
past-clear (some dir) w h = (refl, h)
past-clear (some (file s x)) w h = absurd (ground arith)
past-clear (some (link t)) w h = absurd (ground arith)

-- A way that is clear stays so when something new is made.
pub walk-new :
    (nodes : Nodes) (q : Names) (n : Node) (prefix rest : Names)
    → get q nodes ≡ none
    → walk nodes prefix rest ≡ clear
    → walk ((q, n) ∷ nodes) prefix rest ≡ clear
unfolding walk
walk-new nodes q n prefix [] free h = refl
walk-new nodes q n prefix (c ∷ []) free h = refl
walk-new nodes q n prefix (c ∷ d ∷ r) free h =
    let p = past-clear (get (prefix ++ c ∷ []) nodes) (walk nodes (prefix ++ c ∷ []) (d ∷ r)) h in
    rw (get-new nodes q (prefix ++ c ∷ []) n dir free p.0, past)
      (walk-new nodes q n (prefix ++ c ∷ []) (d ∷ r) free p.1)

-- What a call that makes something, and does not go astray, found and did.
pub record Creates (d : Disk) (p : Names) (n : Node) (out : Disk) : Type 0 where
  pub way : walk d.nodes [] p ≡ clear
  pub free : get p d.nodes ≡ none
  pub made : out ≡ record d { nodes = (p, n) ∷ d.nodes }

create_by-Creates :
    (d : Disk) (p : Names) (n : Node) (w : Way)
    → w ≢ followed
    → (create_by d p n w).1 ≡ true
    → (w ≡ clear)
      × (get p d.nodes ≡ none)
      × ((create_by d p n w).0 ≡ record d { nodes = (p, n) ∷ d.nodes })
unfolding create_by is_free
create_by-Creates d p n clear f h = elim (Option-cases (get p d.nodes)) [
  | inl e ↦ rw (e, is_free) (refl, refl, refl)
  | inr (m, e) ↦ let bad = rw (e, is_free) at h in absurd (ground arith)
]
create_by-Creates d p n blocked f h = absurd (ground arith)
create_by-Creates d p n followed f h = absurd (f refl)

pub create-Creates :
    (d : Disk) (p : Names) (n : Node)
    → walk d.nodes [] p ≢ followed
    → (create d p n).1 ≡ true
    → Creates d p n (create d p n).0
unfolding create
create-Creates d p n f h =
    let (way, free, made) = create_by-Creates d p n (walk d.nodes [] p) f h in
    record { way = way; free = free; made = made }
