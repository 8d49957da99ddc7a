-- ===== src/Secrets/Broker/Spent.antt =====
-- crates/hull-ci-secrets/src/broker.rs: the second redemption of a capability.
use hull_ci.Base.{
  ℕ, ◌≡◌, ◌≢◌, refl, true, false, List, [], ◌∷◌, some, Text, text_eq, text_eq_iff, text_keys,
  insert, erase, arith, Bool-cases, inl, inr, sym, subst, ◌∙◌, Holds, Holds-get,
}
use hull_ci.Proxy.Grant.{Crypto}
use hull_ci.Secrets.Error.{Result, ok}
use hull_ci.Secrets.Keys.{Aead}
use hull_ci.Secrets.Capability.{CapRecord, Registry, parse_token}
use hull_ci.Secrets.Broker.{Broker, DeliveredSecrets, redeem}
use hull_ci.Secrets.Broker.Used.{Used, minted, Used-caps}
use hull_ci.Secrets.Broker.Delivered.{redeem-Redeems}

-- Brokers that come of one by operations, none of which mints a node's capability under `id` again.
pub data After (c : Crypto) (a : Aead) (id : Text) (start : Broker) : Broker → Type 0 where
  here : After c a id start start
  next :
      {b out : Broker}
      → After c a id start b
      → (u : Used c a b out) → ((tenant : Text) → minted u ≢ some (id, tenant))
      → After c a id start out

-- What is under `id` is spent.
abbrev IsSpent : Text → Text → CapRecord → Type 0
IsSpent id i r = i ≡ id → r.consumed ≡ true

Used-IsSpent :
    {c : Crypto} {a : Aead} {b out : Broker} (id : Text) (u : Used c a b out)
    → ((tenant : Text) → minted u ≢ some (id, tenant))
    → Holds (IsSpent id) b.caps
    → Holds (IsSpent id) out.caps
Used-IsSpent id u other h =
    Used-caps (IsSpent id) (λ i r p e. refl) (λ i r p e. p e) u
      (λ i tenant r m s e. absurd (other tenant (subst (λ j. minted u ≡ some (j, tenant)) e m))) h

After-IsSpent :
    (c : Crypto) (a : Aead) (id : Text) {start b : Broker}
    → Holds (IsSpent id) start.caps
    → After c a id start b
    → Holds (IsSpent id) b.caps
After-IsSpent c a id h After.here = h
After-IsSpent c a id h (After.next r u other) = Used-IsSpent id u other (After-IsSpent c a id h r)

false-ne-true : false ≡ true → ⊥
false-ne-true h = ground arith

abbrev pair : (id digest : Text) → Result (Text × Text)
pair id digest = ok (id, digest)

same_id : {i j d e : Text} → pair i d ≡ pair j e → i ≡ j
same_id h = ground arith

erase-IsSpent : (id : Text) (reg : Registry) → Holds (IsSpent id) (erase id reg)
unfolding erase
erase-IsSpent id [] = tt
erase-IsSpent id ((j, r) ∷ reg) = elim (Bool-cases (text_eq j id)) [
  | inl e ↦ rw e (erase-IsSpent id reg)
  | inr e ↦
      rw e
        ((λ same. absurd (false-ne-true (sym e ∙ (text_eq_iff j id).1 same))), erase-IsSpent id reg)
]

insert-IsSpent :
    (id : Text) (reg : Registry) (r : CapRecord)
    → r.consumed ≡ true
    → Holds (IsSpent id) (insert id r reg)
unfolding insert
insert-IsSpent id reg r h = ((λ e. h), erase-IsSpent id reg)

-- Once a capability has been redeemed, no token of its id delivers anything any more, whatever is done
-- with the broker later, as long as no capability is minted under that id again.
pub redeem_once :
    (c : Crypto) (a : Aead) (b later : Broker) (token node_id again other : Text)
    (requested names : List Text) (now then_at : ℕ) (id digest digest' : Text)
    (d d' : DeliveredSecrets)
    → (redeem c a b token node_id requested now).1 ≡ ok d
    → parse_token c token ≡ ok (id, digest)
    → After c a id (redeem c a b token node_id requested now).0 later
    → parse_token c again ≡ ok (id, digest')
    → (redeem c a later again other names then_at).1 ≢ ok d'
redeem_once c a b later token node_id again other requested names now then_at id digest digest' d d'
      h p after q k =
    let first = redeem-Redeems c a b token node_id requested now d h in
    let second = redeem-Redeems c a later again other names then_at d' k in
    let start : Holds (IsSpent id) (redeem c a b token node_id requested now).0.caps =
      subst (λ reg. Holds (IsSpent id) reg) (sym first.spent.after)
        (subst
          (λ i. Holds (IsSpent id) (insert i (record first.spent.entry { consumed = true }) b.caps))
          (same_id (sym p ∙ first.parsed)) (insert-IsSpent id b.caps _ refl)) in
    let dead =
      Holds-get (IsSpent id) later.caps second.id second.spent.entry
        (After-IsSpent c a id start after) second.spent.found in
    false-ne-true (sym second.spent.unspent ∙ dead (same_id (sym second.parsed ∙ q)))
