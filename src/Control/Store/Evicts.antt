-- ===== src/Control/Store/Evicts.antt =====
-- crates/hull-ci-control/src/store.rs: what an eviction does to the records.
use hull_ci.Base.{
  ℕ, ◌-◌, ◌≡◌, refl, ◌∙◌, ◌⊎◌, inl, inr, Bool, true, false, ◌&&◌, ◌||◌, List, [], ◌∷◌, ◌++◌, Option,
  none, some, Text, text_eq, text_eq_iff, text_keys, get, erase, get-erase, any, All, length, leb,
  ltb, arith, Bool-cases,
}
use hull_ci.Control.JobState.{owes_a_verdict}
use hull_ci.Control.Job.{Job}
use hull_ci.Control.Store.{
  JobStore, dated, settled_of, insert_by_key, sort_by_key, settled_oldest_first, evict_paid,
  evict_owed, evict, remove, usize_sub, same_bool,
}

is_some : Option ℕ → Bool
is_some none = false
is_some (some t) = true

-- A settled job of the store has the id.
unfoldable pub has_settled : Text → JobStore → Bool
unfolding any is_some
has_settled id by_id = any (λ (e : Text × Job). text_eq e.1.id id && is_some e.1.settled_at) by_id

abbrev IsCandidate : JobStore → ℕ × Text → Type 0
IsCandidate by_id p = has_settled p.1 by_id ≡ true

dated-All :
    (P : ℕ × Text → Type 0) (o : Option ℕ) (id : Text) (rest : List (ℕ × Text))
    → ((t : ℕ) → o ≡ some t → P (t, id))
    → All P rest
    → All P (dated o id rest)
unfolding dated
dated-All P none id rest h a = a
dated-All P (some t) id rest h a = (h t refl, a)

has_settled-first :
    (k : Text) (j : Job) (by_id : JobStore) (t : ℕ)
    → j.settled_at ≡ some t
    → has_settled j.id ((k, j) ∷ by_id) ≡ true
unfolding has_settled any
has_settled-first k j by_id t h = rw ((text_eq_iff j.id j.id).1 refl, h) refl

has_settled-later :
    (k : Text) (j : Job) (by_id : JobStore) (id : Text)
    → has_settled id by_id ≡ true
    → has_settled id ((k, j) ∷ by_id) ≡ true
unfolding has_settled any
has_settled-later k j by_id id h = ground arith

settled_of-IsCandidate :
    (owing : Bool) (by_id full : JobStore)
    → ((id : Text) → has_settled id by_id ≡ true → has_settled id full ≡ true)
    → All (IsCandidate full) (settled_of owing by_id)
unfolding settled_of
settled_of-IsCandidate owing [] full sub = tt
settled_of-IsCandidate owing ((k, j) ∷ by_id) full sub =
    let rest =
      settled_of-IsCandidate owing by_id full (λ id h. sub id (has_settled-later k j by_id id h)) in
    elim (Bool-cases (same_bool (owes_a_verdict j.state) owing)) [
      | inl wanted ↦ rw wanted (
          dated-All (IsCandidate full) j.settled_at j.id (settled_of owing by_id)
            (λ t h. sub j.id (has_settled-first k j by_id t h)) rest)
      | inr other ↦ rw other rest
    ]

insert_by_key-All :
    (P : ℕ × Text → Type 0) (p : ℕ × Text) (qs : List (ℕ × Text))
    → P p
    → All P qs
    → All P (insert_by_key p qs)
unfolding insert_by_key
insert_by_key-All P p [] h a = (h, tt)
insert_by_key-All P p (q ∷ qs) h a = elim (Bool-cases (leb p.0 q.0)) [
  | inl before ↦ rw before (h, a)
  | inr after ↦ rw after (a.0, insert_by_key-All P p qs h a.1)
]

sort_by_key-All : (P : ℕ × Text → Type 0) (ps : List (ℕ × Text)) → All P ps → All P (sort_by_key ps)
unfolding sort_by_key
sort_by_key-All P [] a = tt
sort_by_key-All P (p ∷ ps) a = insert_by_key-All P p (sort_by_key ps) a.0 (sort_by_key-All P ps a.1)

-- What there is after some evictions: each was of a settled job's id; what was evicted is gone, and
-- everything else stands as it stood.
pub record Evicts (full by_id : JobStore) (evicted : List Text) : Type 0 where
  pub settled : All (λ id. has_settled id full ≡ true) evicted
  pub kept : (k : Text) → any (λ i. text_eq i k) evicted ≡ false → get k by_id ≡ get k full
  pub gone : (k : Text) → any (λ i. text_eq i k) evicted ≡ true → get k by_id ≡ none

any-append_one :
    (k id : Text) (ids : List Text)
    → any (λ i. text_eq i k) (ids ++ id ∷ []) ≡ (any (λ i. text_eq i k) ids || text_eq id k)
unfolding any
any-append_one k id [] = ground arith
any-append_one k id (i ∷ ids) = ground (arith, any-append_one k id ids)

All-append_one :
    (P : Text → Type 0) (ids : List Text) (id : Text) → All P ids → P id → All P (ids ++ id ∷ [])
All-append_one P [] id a p = (p, tt)
All-append_one P (i ∷ ids) id a p = (a.0, All-append_one P ids id a.1 p)

-- To split on whether an id was evicted, or is evicted now.
evicted-cases :
    (k id : Text) (ids : List Text)
    → any (λ i. text_eq i k) (ids ++ id ∷ []) ≡ true
    → (any (λ i. text_eq i k) ids ≡ true) ⊎ (text_eq id k ≡ true)
evicted-cases k id ids h = elim (Bool-cases (any (λ i. text_eq i k) ids)) [
  | inl before ↦ inl before
  | inr not_yet ↦ inr (ground (arith, any-append_one k id ids))
]

not_evicted :
    (k id : Text) (ids : List Text)
    → any (λ i. text_eq i k) (ids ++ id ∷ []) ≡ false
    → (any (λ i. text_eq i k) ids ≡ false) × (text_eq id k ≡ false)
not_evicted k id ids h =
    (ground (arith, any-append_one k id ids), ground (arith, any-append_one k id ids))

gone_or_erased :
    (k id : Text) (by_id : JobStore)
    → (get k by_id ≡ none) ⊎ (text_eq id k ≡ true)
    → get k (erase id by_id) ≡ none
gone_or_erased k id by_id (inl gone) = ground (arith, get-erase id k by_id)
gone_or_erased k id by_id (inr same) = ground (arith, get-erase id k by_id)

evict_one :
    (full by_id : JobStore) (evicted : List Text) (id : Text)
    → Evicts full by_id evicted
    → has_settled id full ≡ true
    → Evicts full (remove by_id id) (evicted ++ id ∷ [])
unfolding remove
evict_one full by_id evicted id e h = record {
  settled = All-append_one (λ i. has_settled i full ≡ true) evicted id e.settled h;
  kept = λ k out.
      let (before, other) = not_evicted k id evicted out in
      get-erase id k by_id ∙ rw other (e.kept k before);
  gone = λ k now_gone. gone_or_erased k id by_id (elim (evicted-cases k id evicted now_gone) [
    | inl before ↦ inl (e.gone k before)
    | inr same ↦ inr same
  ]);
}

evict_paid-Evicts :
    (full : JobStore) (now retention max_jobs : ℕ) (paid : List (ℕ × Text)) (by_id : JobStore)
    (evicted : List Text)
    → All (IsCandidate full) paid
    → Evicts full by_id evicted
    → let out = evict_paid now retention max_jobs paid by_id evicted in Evicts full out.0 out.1
unfolding evict_paid
evict_paid-Evicts full now retention max_jobs [] by_id evicted a e = e
evict_paid-Evicts full now retention max_jobs ((t, id) ∷ paid) by_id evicted a e =
    elim (Bool-cases
      (leb retention (now - t) || ltb max_jobs (usize_sub (length by_id) (length evicted)))) [
        | inl goes ↦ rw goes (
            evict_paid-Evicts full now retention max_jobs paid (remove by_id id)
              (evicted ++ id ∷ []) a.1 (evict_one full by_id evicted id e a.0))
        | inr stays ↦ rw stays e
      ]

evict_owed-Evicts :
    (full : JobStore) (max_jobs : ℕ) (owed : List (ℕ × Text)) (by_id : JobStore)
    (evicted : List Text)
    → All (IsCandidate full) owed
    → Evicts full by_id evicted
    → let out = evict_owed max_jobs owed by_id evicted in Evicts full out.0 out.1
unfolding evict_owed
evict_owed-Evicts full max_jobs [] by_id evicted a e = e
evict_owed-Evicts full max_jobs ((t, id) ∷ owed) by_id evicted a e =
    elim (Bool-cases (leb (usize_sub (length by_id) (length evicted)) max_jobs)) [
      | inl fits ↦ rw fits e
      | inr over ↦ rw over (
          evict_owed-Evicts full max_jobs owed (remove by_id id) (evicted ++ id ∷ []) a.1
            (evict_one full by_id evicted id e a.0))
    ]

candidates-All :
    (by_id : JobStore) (owing : Bool) → All (IsCandidate by_id) (settled_oldest_first by_id owing)
unfolding settled_oldest_first
candidates-All by_id owing =
    sort_by_key-All (IsCandidate by_id) (settled_of owing by_id)
      (settled_of-IsCandidate owing by_id by_id λ id h. h)

-- An eviction names settled jobs alone, at any pressure: each id that it gives back is of a job in the
-- store that was settled; the records under those ids are gone, and every other record stands as it
-- stood.
pub evict-Evicts :
    (by_id : JobStore) (now retention max_jobs : ℕ)
    → Evicts by_id (evict by_id now retention max_jobs).0 (evict by_id now retention max_jobs).1
unfolding evict any
evict-Evicts by_id now retention max_jobs =
    evict_owed-Evicts by_id max_jobs (settled_oldest_first by_id true) _ _
      (candidates-All by_id true)
      (evict_paid-Evicts by_id now retention max_jobs (settled_oldest_first by_id false) by_id []
        (candidates-All by_id false)
        (record { settled = tt; kept = λ k h. refl; gone = λ k h. absurd (ground arith) }))
