-- ===== src/Secrets/Identity/Enrolled.antt =====
-- crates/hull-ci-secrets/src/identity.rs: keys and nodes in the registry, and verified redemptions.
use hull_ci.Base.{
  ℕ, ◌+◌, ◌≤◌, ◌≡◌, Bool, true, false, not, List, [], ◌∷◌, keep, Option, none, some, Text, text_eq,
  text_eq_iff, text_keys, get, insert, erase, All, arith, Bool-cases, Option-cases, inl, inr, sym,
  ◌∙◌, subst, some_inj,
}
use hull_ci.Proxy.Grant.{Crypto}
use hull_ci.Secrets.Error.{ok_inj, ok}
use hull_ci.Secrets.Identity.{
  Signing, SignedRedemption, NodeRegistry, max_skew_secs, enrol, enrol_found, revoke, resolve,
  payload_of, verify, abs_diff, node_or_unenrolled,
}

-- No entry has the node.
abbrev Lacks : Text → NodeRegistry → Type 0
Lacks node_id reg = All (λ (e : Text × Text). text_eq e.1 node_id ≡ false) reg

abbrev OneKeyEach : NodeRegistry → Type 0
OneKeyEach [] = Unit
OneKeyEach (e ∷ reg) = Lacks e.1 reg × OneKeyEach reg

All-keep {ℓ κ} :
    {A : Type ℓ} (P : A → Type κ) (p : A → Bool) (xs : List A) → All P xs → All P (keep p xs)
unfolding keep
All-keep P p [] h = tt
All-keep P p (x ∷ xs) h = elim (Bool-cases (p x)) [
  | inl e ↦ rw e (h.0, All-keep P p xs h.1)
  | inr e ↦ rw e (All-keep P p xs h.1)
]

keep-Lacks :
    (node_id : Text) (reg : NodeRegistry)
    → Lacks node_id (keep (λ (e : Text × Text). not (text_eq e.1 node_id)) reg)
unfolding keep
keep-Lacks node_id [] = tt
keep-Lacks node_id ((k, n) ∷ reg) = elim (Bool-cases (text_eq n node_id)) [
  | inl e ↦ rw e (keep-Lacks node_id reg)
  | inr e ↦ rw e (e, keep-Lacks node_id reg)
]

keep-OneKeyEach :
    (p : Text × Text → Bool) (reg : NodeRegistry) → OneKeyEach reg → OneKeyEach (keep p reg)
unfolding keep
keep-OneKeyEach p [] h = tt
keep-OneKeyEach p (x ∷ reg) h = elim (Bool-cases (p x)) [
  | inl e ↦ rw e (All-keep _ p reg h.0, keep-OneKeyEach p reg h.1)
  | inr e ↦ rw e (keep-OneKeyEach p reg h.1)
]

erase-Lacks :
    (node_id k : Text) (reg : NodeRegistry) → Lacks node_id reg → Lacks node_id (erase k reg)
unfolding erase
erase-Lacks node_id k [] h = tt
erase-Lacks node_id k ((j, n) ∷ reg) h = elim (Bool-cases (text_eq j k)) [
  | inl e ↦ rw e (erase-Lacks node_id k reg h.1)
  | inr e ↦ rw e (h.0, erase-Lacks node_id k reg h.1)
]

erase-OneKeyEach : (k : Text) (reg : NodeRegistry) → OneKeyEach reg → OneKeyEach (erase k reg)
unfolding erase
erase-OneKeyEach k [] h = tt
erase-OneKeyEach k ((j, n) ∷ reg) h = elim (Bool-cases (text_eq j k)) [
  | inl e ↦ rw e (erase-OneKeyEach k reg h.1)
  | inr e ↦ rw e (erase-Lacks n k reg h.0, erase-OneKeyEach k reg h.1)
]

enrol-OneKeyEach :
    (reg : NodeRegistry) (node_id key : Text) (out : NodeRegistry)
    → enrol reg node_id key ≡ ok out
    → OneKeyEach reg
    → OneKeyEach out
unfolding enrol enrol_found
enrol-OneKeyEach reg node_id key out h one = elim (Option-cases (get key reg)) [
  | inl f ↦ subst OneKeyEach (ok_inj (rw (f, enrol_found) at h)) (
      unfold insert in
      (
        erase-Lacks node_id key _ (keep-Lacks node_id reg),
        erase-OneKeyEach key _ (keep-OneKeyEach _ reg one),
      ))
  | inr (existing, f) ↦ elim (Bool-cases (text_eq existing node_id)) [
    | inl e ↦ subst OneKeyEach (ok_inj (rw (f, enrol_found, e) at h)) one
    | inr e ↦ let bad = rw (f, enrol_found, e) at h in absurd (ground arith)
  ]
]

-- The registries that come of an empty one.
pub data Reach : NodeRegistry → Type 0 where
  empty : Reach []
  enrols :
      {reg out : NodeRegistry} (node_id key : Text)
      → Reach reg
      → enrol reg node_id key ≡ ok out
      → Reach out
  revokes : {reg : NodeRegistry} (node_id : Text) → Reach reg → Reach (revoke reg node_id).0

Reach-OneKeyEach : {reg : NodeRegistry} → Reach reg → OneKeyEach reg
unfolding revoke
Reach-OneKeyEach Reach.empty = tt
Reach-OneKeyEach (Reach.enrols {reg} {out} node_id key r h) =
    enrol-OneKeyEach reg node_id key out h (Reach-OneKeyEach r)
Reach-OneKeyEach (Reach.revokes {reg} node_id r) = keep-OneKeyEach _ reg (Reach-OneKeyEach r)

true-ne-false : {b : Bool} → b ≡ true → b ≡ false → ⊥
true-ne-false h k = ground arith

get-Lacks :
    (reg : NodeRegistry) (node_id key : Text) → Lacks node_id reg → get key reg ≡ some node_id → ⊥
unfolding get
get-Lacks [] node_id key h g = ground arith
get-Lacks ((k, n) ∷ reg) node_id key h g = elim (Bool-cases (text_eq k key)) [
  | inl e ↦ true-ne-false ((text_eq_iff n node_id).1 (some_inj (rw e at g))) h.0
  | inr e ↦ get-Lacks reg node_id key h.1 (rw e at g)
]

one_key :
    (reg : NodeRegistry) (node_id k k' : Text)
    → OneKeyEach reg
    → get k reg ≡ some node_id
    → get k' reg ≡ some node_id
    → k ≡ k'
unfolding get
one_key [] node_id k k' one g g' = absurd (ground arith)
one_key ((j, n) ∷ reg) node_id k k' one g g' = elim (Bool-cases (text_eq j k)) [
  | inl e ↦ elim (Bool-cases (text_eq j k')) [
    | inl e' ↦ sym ((text_eq_iff j k).0 e) ∙ (text_eq_iff j k').0 e'
    | inr e' ↦ absurd (
        get-Lacks reg node_id k' (subst (λ m. Lacks m reg) (some_inj (rw e at g)) one.0)
          (rw e' at g'))
  ]
  | inr e ↦ elim (Bool-cases (text_eq j k')) [
    | inl e' ↦ absurd (
        get-Lacks reg node_id k (subst (λ m. Lacks m reg) (some_inj (rw e' at g')) one.0)
          (rw e at g))
    | inr e' ↦ one_key reg node_id k k' one.1 (rw e at g) (rw e' at g')
  ]
]

-- Whatever was enrolled and revoked, no two keys resolve to the same node.
pub resolve-inj :
    (reg : NodeRegistry) (node_id key other : Text)
    → Reach reg
    → resolve reg key ≡ some node_id
    → resolve reg other ≡ some node_id
    → key ≡ other
unfolding resolve
resolve-inj reg node_id key other r g g' = one_key reg node_id key other (Reach-OneKeyEach r) g g'

-- What a redemption that is verified as a node's has.
pub record Verifies (c : Crypto) (s : Signing) (by_key : NodeRegistry) (r : SignedRedemption)
    (now : ℕ) (node_id : Text) : Type 0 where
  pub is_signed : s.verifies r.public_key (payload_of c r) r.signature ≡ true
  pub not_late : now ≤ r.issued_at + max_skew_secs
  pub not_early : r.issued_at ≤ now + max_skew_secs
  pub enrolled : resolve by_key r.public_key ≡ some node_id

node_inv :
    (shown : Text) (o : Option Text) (node_id : Text)
    → node_or_unenrolled shown o ≡ ok node_id
    → o ≡ some node_id
unfolding node_or_unenrolled
node_inv shown none node_id h = absurd (ground arith)
node_inv shown (some n) node_id h = ground arith

pub verify-Verifies :
    (c : Crypto) (s : Signing) (by_key : NodeRegistry) (r : SignedRedemption) (now : ℕ)
    (node_id : Text)
    → verify c s by_key r now ≡ ok node_id
    → Verifies c s by_key r now node_id
unfolding verify abs_diff resolve
verify-Verifies c s by_key r now node_id h = record {
  is_signed = ground arith;
  not_late = ground arith;
  not_early = ground arith;
  enrolled = ground (arith, node_inv (c.encode r.public_key) (get r.public_key by_key) node_id);
}
