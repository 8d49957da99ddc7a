-- ===== src/Control/Callback/Outcome.antt =====
-- crates/hull-ci-control/src/callback.rs: how a delivery ends.
use hull_ci.Base.{
  ℕ, zero, suc, ◌+◌, ◌-◌, ◌≤◌, ◌<◌, ◌≡◌, refl, Bool, true, false, Text, arith, count, ◌⊎◌, inl, inr,
  subst, ap, sym, ◌∙◌,
}
use hull_ci.Control.Callback.{
  RetryPolicy, Reply, Delivery, delivered, parked, Event, request, wait, Judged, success, refused,
  again, judge, attempts_allowed, turn, deliver_from, deliver,
}

le_cases : (n i : ℕ) → n ≤ i → (n ≡ i) ⊎ (suc n ≤ i)
le_cases n i h = ground arith

unfoldable pub attempts_of : Delivery → ℕ
attempts_of (delivered n status) = n
attempts_of (parked n last) = n

unfoldable pub is_request : Event → Bool
is_request (request n allowed) = true
is_request (wait n allowed d) = false

unfoldable pub is_wait : Event → Bool
is_wait (request n allowed) = false
is_wait (wait n allowed d) = true

pub data IsRetry (r : Reply) : Type 0 where
  retry : (last : Text) → judge r ≡ again last → IsRetry r

-- Why a delivery ended as it did, where the attempts from `first` on were made.
pub data Ends (post : ℕ → Reply) (first allowed : ℕ) : Delivery → Type 0 where
  answered :
      (n status : ℕ)
      → first ≤ n
      → n ≤ allowed
      → ((i : ℕ) → first ≤ i → i < n → IsRetry (post i))
      → judge (post n) ≡ success status
      → Ends post first allowed (delivered n status)
  gave_up :
      (n : ℕ) (last : Text)
      → first ≤ n
      → n ≤ allowed
      → ((i : ℕ) → first ≤ i → i < n → IsRetry (post i))
      → judge (post n) ≡ refused last
      → Ends post first allowed (parked n last)
  exhausted :
      (last : Text)
      → first ≤ allowed
      → ((i : ℕ) → first ≤ i → i ≤ allowed → IsRetry (post i))
      → judge (post allowed) ≡ again last
      → Ends post first allowed (parked allowed last)

-- One retry goes before what comes after it.
IsRetry-from :
    (post : ℕ → Reply) (n m : ℕ)
    → IsRetry (post n)
    → ((i : ℕ) → suc n ≤ i → i < m → IsRetry (post i))
    → (i : ℕ) → n ≤ i
    → i < m
    → IsRetry (post i)
IsRetry-from post n m r later i h k = elim (le_cases n i h) [
  | inl e ↦ subst (λ j. IsRetry (post j)) e r
  | inr above ↦ later i above k
]

Ends-before :
    (post : ℕ → Reply) (n allowed : ℕ) {d : Delivery}
    → IsRetry (post n)
    → Ends post (suc n) allowed d
    → Ends post n allowed d
Ends-before post n allowed r (Ends.answered m status first bound before e) =
    Ends.answered m status (omega arith) bound (IsRetry-from post n m r before) e
Ends-before post n allowed r (Ends.gave_up m last first bound before e) =
    Ends.gave_up m last (omega arith) bound (IsRetry-from post n m r before) e
Ends-before post n allowed r (Ends.exhausted last bound all e) =
    Ends.exhausted last (omega arith)
      (λ i h k.
        IsRetry-from post n (suc allowed) r (λ j a b. all j a (omega arith)) i h (omega arith))
      e

Judged-cases :
    (j : Judged)
    → ((s : ℕ) × (j ≡ success s)) ⊎ (((l : Text) × (j ≡ refused l)) ⊎ ((l : Text) × (j ≡ again l)))
Judged-cases (success s) = inl (s, refl)
Judged-cases (refused l) = inr (inl (l, refl))
Judged-cases (again l) = inr (inr (l, refl))

the_last : (n i : ℕ) {m : ℕ} → n + 0 ≡ m → n ≤ i → i ≤ m → n ≡ i
the_last n i h a b = omega arith

module _ (policy : RetryPolicy) (post : ℕ → Reply) (random : ℕ → ℕ) where
  deliver_from-Ends :
      (left n : ℕ)
      → n + left ≡ attempts_allowed policy post random
      → Ends post n (attempts_allowed policy post random) (deliver_from policy post random left n).1
  unfolding deliver_from
  deliver_from-Ends zero n h = elim (Judged-cases (judge (post n))) [
    | inl (s, e) ↦
        rw (e, turn)
          (Ends.answered n s (omega arith) (omega arith) (λ i a b. absurd (omega arith)) e)
    | inr (inl (l, e)) ↦
        rw (e, turn)
          (Ends.gave_up n l (omega arith) (omega arith) (λ i a b. absurd (omega arith)) e)
    | inr (inr (l, e)) ↦
        rw (e, turn)
          (Ends.exhausted l (omega arith)
            (λ i a b. subst (λ j. IsRetry (post j)) (the_last n i h a b) (retry l e))
            (ap (λ j. judge (post j)) (sym (the_last n _ h (omega arith) (omega arith))) ∙ e))
  ]
  deliver_from-Ends (suc left) n h = elim (Judged-cases (judge (post n))) [
    | inl (s, e) ↦
        rw (e, turn)
          (Ends.answered n s (omega arith) (omega arith) (λ i a b. absurd (omega arith)) e)
    | inr (inl (l, e)) ↦
        rw (e, turn)
          (Ends.gave_up n l (omega arith) (omega arith) (λ i a b. absurd (omega arith)) e)
    | inr (inr (l, e)) ↦
        rw (e, turn)
          (Ends-before post n _ (retry l e) (deliver_from-Ends left (suc n) (omega arith)))
  ]

  -- A delivery always ends within the allowed attempts: delivered by the first attempt that is
  -- answered with success, parked by the first that is refused for good, or parked after the last
  -- attempt, where every one failed in a way that may pass.
  pub deliver-Ends :
      Ends post 1 (attempts_allowed policy post random) (deliver policy post random).1
  unfolding deliver
  deliver-Ends = deliver_from-Ends _ 1 (omega arith)

  deliver_from-events :
      (left n : ℕ)
      → n + left ≡ attempts_allowed policy post random
      → let r = deliver_from policy post random left n in
        (n + count is_request r.0 ≡ suc (attempts_of r.1))
        × (suc (count is_wait r.0) ≡ count is_request r.0)
  unfolding deliver_from count attempts_of is_request is_wait
  deliver_from-events zero n h = elim (Judged-cases (judge (post n))) [
    | inl (s, e) ↦ rw (e, turn) (omega arith, omega arith)
    | inr (inl (l, e)) ↦ rw (e, turn) (omega arith, omega arith)
    | inr (inr (l, e)) ↦ rw (e, turn) (omega arith, omega arith)
  ]
  deliver_from-events (suc left) n h = elim (Judged-cases (judge (post n))) [
    | inl (s, e) ↦ rw (e, turn) (omega arith, omega arith)
    | inr (inl (l, e)) ↦ rw (e, turn) (omega arith, omega arith)
    | inr (inr (l, e)) ↦
        let rest = deliver_from-events left (suc n) (omega arith) in
        rw (e, turn) (omega arith, omega arith)
  ]

  -- The attempts that are reported are the requests that were made, and one wait stands between each
  -- two requests.
  pub deliver-events :
      let r = deliver policy post random in
      (count is_request r.0 ≡ attempts_of r.1) × (suc (count is_wait r.0) ≡ count is_request r.0)
  unfolding deliver
  deliver-events =
      let (a, b) = deliver_from-events (attempts_allowed policy post random - 1) 1 (omega arith) in
      (omega arith, b)
