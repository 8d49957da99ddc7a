-- ===== src/Proxy/Grant/Distinct.antt =====
-- crates/hull-ci-proxy/src/grant.rs: a registry has one entry for an id, as a map has.
use hull_ci.Base.{
  ◌≢◌, Bool, true, false, List, [], ◌∷◌, Text, text_eq, text_eq_iff, text_keys, put, erase, keep,
  arith, Bool-cases, inl, inr, ◌∙◌, sym, subst,
}
use hull_ci.Proxy.Grant.{Crypto, Record, Registry, erase_all}
use hull_ci.Proxy.Grant.Holds.{Holds, Holds-put, Holds-erase, Holds-keep}
use hull_ci.Proxy.Grant.Used.{Reach, used_lasts}

pub true-ne-false : true ≢ false
true-ne-false h = ground arith

-- No id has two entries.
abbrev pub IsDistinct : Registry → Type 0
IsDistinct [] = Unit
IsDistinct ((j, s) ∷ reg) = Holds (λ k r. k ≢ j) reg × IsDistinct reg

put-IsDistinct :
    (reg : Registry) (id : Text) (r : Record) → IsDistinct reg → IsDistinct (put id r reg)
unfolding put
put-IsDistinct [] id r a = (tt, tt)
put-IsDistinct ((j, s) ∷ reg) id r a = elim (Bool-cases (text_eq j id)) [
  | inl hit ↦ rw hit (subst (λ i. Holds (λ k r. k ≢ i) reg) ((text_eq_iff j id).0 hit) a.0, a.1)
  | inr miss ↦ rw miss (
    Holds-put (λ k r. k ≢ j) reg id r
        (λ e. true-ne-false (sym ((text_eq_iff j id).1 (sym e)) ∙ miss)) a.0,
    put-IsDistinct reg id r a.1,
  )
]

erase-IsDistinct : (reg : Registry) (id : Text) → IsDistinct reg → IsDistinct (erase id reg)
unfolding erase
erase-IsDistinct [] id a = tt
erase-IsDistinct ((j, s) ∷ reg) id a = elim (Bool-cases (text_eq j id)) [
  | inl hit ↦ rw hit (erase-IsDistinct reg id a.1)
  | inr miss ↦ rw miss (Holds-erase (λ k r. k ≢ j) reg id a.0, erase-IsDistinct reg id a.1)
]

erase_all-IsDistinct :
    (ids : List Text) (reg : Registry) → IsDistinct reg → IsDistinct (erase_all ids reg)
unfolding erase_all
erase_all-IsDistinct [] reg a = a
erase_all-IsDistinct (id ∷ ids) reg a =
    erase_all-IsDistinct ids (erase id reg) (erase-IsDistinct reg id a)

keep-IsDistinct :
    (p : Text × Record → Bool) (reg : Registry) → IsDistinct reg → IsDistinct (keep p reg)
unfolding keep
keep-IsDistinct p [] a = tt
keep-IsDistinct p (e ∷ reg) a = elim (Bool-cases (p e)) [
  | inl hit ↦ rw hit (Holds-keep (λ k r. k ≢ e.0) p reg a.0, keep-IsDistinct p reg a.1)
  | inr miss ↦ rw miss (keep-IsDistinct p reg a.1)
]

pub Reach-IsDistinct : (c : Crypto) {reg : Registry} → Reach c reg → IsDistinct reg
Reach-IsDistinct c Reach.empty = tt
Reach-IsDistinct c (Reach.next r u) =
    used_lasts IsDistinct (λ reg id r b f a. put-IsDistinct reg id _ a)
      (λ reg id r f a. put-IsDistinct reg id _ a) erase_all-IsDistinct keep-IsDistinct c u
      (λ id secret tenant job_id upstreams expires_at rate m a. put-IsDistinct _ id _ a)
      (Reach-IsDistinct c r)
