-- ===== src/Proxy/Grant/Revoke.antt =====
-- crates/hull-ci-proxy/src/grant.rs: a grant that was revoked, or whose job is over, is dead.
use hull_ci.Base.{
  ℕ, ◌≡◌, refl, ◌≢◌, Bool, true, false, List, [], ◌∷◌, Option, none, some, Text, text_eq,
  text_eq_iff, text_keys, get, put, erase, get-erase, any, keep, if◌then◌else◌, arith, Bool-cases,
  Option-cases, inl, inr, ap, ◌∙◌, sym, some_inj, subst,
}
use hull_ci.Proxy.Grant.{
  Crypto, Grant, Record, Registry, granted, parse, authorise, revoke, revoke_found, ids_of_job,
  erase_all, revoke_job,
}
use hull_ci.Proxy.Grant.Authorise.{authorise-IsAuthorised}
use hull_ci.Proxy.Grant.Holds.{Holds, Holds-get}
use hull_ci.Proxy.Grant.Used.{Used, Reach, minted_id, Used-Holds}
use hull_ci.Proxy.Grant.Distinct.{true-ne-false, IsDistinct, Reach-IsDistinct}

-- Each grant stands under its own id.
abbrev IsKeyed : Registry → Type 0
IsKeyed reg = Holds (λ id r. r.grant.grant_id ≡ id) reg

Reach-IsKeyed : (c : Crypto) {reg : Registry} → Reach c reg → IsKeyed reg
Reach-IsKeyed c Reach.empty = tt
Reach-IsKeyed c (Reach.next r u) =
    Used-Holds (λ id r. r.grant.grant_id ≡ id) (λ id r b h. h) (λ id r h. h) c u
      (λ id secret tenant job_id upstreams expires_at rate m. refl) (Reach-IsKeyed c r)

get-erase_all :
    (ids : List Text) (id : Text) (reg : Registry) (r : Record)
    → get id (erase_all ids reg) ≡ some r
    → (get id reg ≡ some r) × (any (λ i. text_eq i id) ids ≡ false)
unfolding erase_all any
get-erase_all [] id reg r h = (h, refl)
get-erase_all (i ∷ ids) id reg r h =
    let (found, others) = get-erase_all ids id (erase i reg) r h in
    ground (arith, get-erase i id reg)

-- A record of the job is among those that end with it.
ids_of_job_complete :
    (reg : Registry) (id job_id : Text) (r : Record)
    → IsKeyed reg
    → get id reg ≡ some r
    → text_eq r.grant.job_id job_id ≡ true
    → any (λ i. text_eq i id) (ids_of_job reg job_id) ≡ true
unfolding ids_of_job any keep get
ids_of_job_complete [] id job_id r k h e = absurd (ground arith)
ids_of_job_complete ((j, s) ∷ reg) id job_id r k h e = elim (Bool-cases (text_eq j id)) [
  | inl hit ↦
      let same = some_inj (rw hit at h) in
      let own = subst (λ (u : Record). text_eq u.grant.job_id job_id ≡ true) (sym same) e in
      rw (own, k.0, hit) refl
  | inr miss ↦
      let rest = ids_of_job_complete reg id job_id r k.1 (rw miss at h) e in
      elim (Bool-cases (text_eq s.grant.job_id job_id)) [
        | inl own ↦ rw own (ground arith)
        | inr other ↦ rw other rest
      ]
]

-- Once a job is over, no token is authorised for a grant of it.
pub revoke_job-authorise :
    (c : Crypto) (reg : Registry) (job_id token : Text) (now : ℕ) (g : Grant)
    → Reach c reg
    → (authorise c (revoke_job reg job_id).0 token now).1 ≡ granted g
    → g.job_id ≢ job_id
unfolding revoke_job
revoke_job-authorise c reg job_id token now g reached h same =
    let a = authorise-IsAuthorised c (revoke_job reg job_id).0 now token g h in
    let (found, others) = get-erase_all (ids_of_job reg job_id) a.id reg a.entry a.found in
    let all = ids_of_job_complete reg a.id job_id a.entry (Reach-IsKeyed c reached) found (
      (text_eq_iff a.entry.grant.job_id job_id).1
        (ap (λ (x : Grant). x.job_id) (sym a.same_grant) ∙ same)) in
    absurd (true-ne-false (sym all ∙ others))

-- The grant of that id, if there is one, is revoked.
abbrev IsDead : Text → Text → Record → Type 0
IsDead id j r = j ≡ id → r.is_revoked ≡ true

-- What comes after a registry, as long as no grant is minted under the id again.
pub data After (c : Crypto) (id : Text) (start : Registry) : Registry → Type 0 where
  at_once : After c id start start
  next :
      {reg out : Registry}
      → After c id start reg
      → (u : Used c reg out) → minted_id u ≢ some id
      → After c id start out

After-IsDead :
    (c : Crypto) (id : Text) {start reg : Registry}
    → Holds (IsDead id) start
    → After c id start reg
    → Holds (IsDead id) reg
After-IsDead c id a After.at_once = a
After-IsDead c id a (After.next before u other) =
    Used-Holds (IsDead id) (λ j r b h. h) (λ j r h e. refl) c u
      (λ j secret tenant job_id upstreams expires_at rate m e. absurd (other (m ∙ ap some e)))
      (After-IsDead c id a before)

apart-IsDead : (id : Text) (reg : Registry) → Holds (λ k r. k ≢ id) reg → Holds (IsDead id) reg
apart-IsDead id [] a = tt
apart-IsDead id ((j, s) ∷ reg) a = ((λ e. absurd (a.0 e)), apart-IsDead id reg a.1)

put-IsDead :
    (reg : Registry) (id : Text) (r : Record)
    → r.is_revoked ≡ true
    → IsDistinct reg
    → Holds (IsDead id) (put id r reg)
unfolding put
put-IsDead [] id r h a = ((λ e. h), tt)
put-IsDead ((j, s) ∷ reg) id r h a = elim (Bool-cases (text_eq j id)) [
  | inl hit ↦ rw hit (
    (λ e. h),
    apart-IsDead id reg (subst (λ i. Holds (λ k r. k ≢ i) reg) ((text_eq_iff j id).0 hit) a.0),
  )
  | inr miss ↦ rw miss (
    (λ e. absurd (true-ne-false (sym ((text_eq_iff j id).1 e) ∙ miss))),
    put-IsDead reg id r h a.1,
  )
]

same-IsDead :
    (reg : Registry) (id : Text)
    → ((r : Record) → get id reg ≡ some r → r.is_revoked ≡ true)
    → IsDistinct reg
    → Holds (IsDead id) reg
unfolding get
same-IsDead [] id h a = tt
same-IsDead ((j, s) ∷ reg) id h a = elim (Bool-cases (text_eq j id)) [
  | inl hit ↦ (
    (λ e. h s (rw hit refl)),
    apart-IsDead id reg (subst (λ i. Holds (λ k r. k ≢ i) reg) ((text_eq_iff j id).0 hit) a.0),
  )
  | inr miss ↦ (
    (λ e. absurd (true-ne-false (sym ((text_eq_iff j id).1 e) ∙ miss))),
    same-IsDead reg id (λ r f. h r (rw miss f)) a.1,
  )
]

none-ne-some : {r : Record} → none ≢ some r
none-ne-some h = ground arith

abbrev picked : Bool → Registry → Registry → Registry × Bool
picked b x y = if b then (x, false) else (y, true)

revoke_found-IsDead :
    (reg : Registry) (id : Text) (r : Record)
    → get id reg ≡ some r
    → IsDistinct reg
    → (b : Bool) → r.is_revoked ≡ b
    → Holds (IsDead id) (picked b reg (put id (record r { is_revoked = true }) reg)).0
revoke_found-IsDead reg id r f a true e =
    same-IsDead reg id (λ s g. subst (λ (x : Record). x.is_revoked ≡ true) (some_inj (sym f ∙ g)) e)
      a
revoke_found-IsDead reg id r f a false e = put-IsDead reg id _ refl a

revoke-IsDead : (reg : Registry) (id : Text) → IsDistinct reg → Holds (IsDead id) (revoke reg id).0
unfolding revoke
revoke-IsDead reg id a = elim (Option-cases (get id reg)) [
  | inl f ↦ rw (f, revoke_found) (same-IsDead reg id (λ r g. absurd (none-ne-some (sym f ∙ g))) a)
  | inr (r, f) ↦ rw (f, revoke_found) (revoke_found-IsDead reg id r f a r.is_revoked refl)
]

abbrev pair : Text → Text → Option (Text × Text)
pair id digest = some (id, digest)

same_id : {i j d e : Text} → pair i d ≡ pair j e → i ≡ j
same_id h = ground arith

-- Once a grant is revoked, no token of its id is authorised any more, whatever is done with the
-- registry later, as long as no grant is minted under that id again.
pub revoke_is_final :
    (c : Crypto) (reg later : Registry) (id token digest : Text) (now : ℕ) (g : Grant)
    → Reach c reg
    → After c id (revoke reg id).0 later
    → parse c token ≡ some (id, digest)
    → (authorise c later token now).1 ≢ granted g
revoke_is_final c reg later id token digest now g reached after e h =
    let a = authorise-IsAuthorised c later now token g h in
    let start = revoke-IsDead reg id (Reach-IsDistinct c reached) in
    let dead = Holds-get (IsDead id) later a.id a.entry (After-IsDead c id start after) a.found in
    absurd (true-ne-false (sym (dead (same_id (sym a.parsed ∙ e))) ∙ a.live))
