-- ===== src/Secrets/Broker/Refused.antt =====
-- crates/hull-ci-secrets/src/broker.rs: a redemption that is refused before the capability is spent.
use hull_ci.Base.{
  ℕ, ◌≡◌, refl, sym, ap, ◌∙◌, Bool, true, false, inl, inr, List, [], ◌∷◌, Option, none, some, Text,
  text_keys, get, length, ◌==◌, arith, if◌then◌else◌, Bool-cases, Option-cases,
}
use hull_ci.Proxy.Grant.{Crypto}
use hull_ci.Secrets.Error.{
  Result, ok, err, ◌>>=◌, Result-cases, SecretError, bad_capability, capability_revoked,
  capability_consumed, capability_expired, wrong_node,
}
use hull_ci.Secrets.Keys.{
  Aead, Keyring, dek_len, kek_of, kek_in, find_kek, ok_or, aead_open, unwrap_dek, as_dek,
}
use hull_ci.Secrets.Seal.{SealedSecret, Rows, open_sealed, get_row}
use hull_ci.Secrets.Capability.{CapabilityGrant, Registry, parse_token, spend}
use hull_ci.Secrets.Capability.Kept.{spend_err-same}
use hull_ci.Secrets.Broker.{
  Broker, redeem, redeem_parsed, redeem_spent, hand_over, handed, wanted, all_declared, open_all,
  found_or_unknown, has_name,
}

-- The refusals that stand before the capability is spent.
unfoldable pub is_early : SecretError → Bool
is_early bad_capability = true
is_early capability_revoked = true
is_early capability_consumed = true
is_early capability_expired = true
is_early wrong_node = true
is_early _ = false

-- The result is not one of them.
abbrev IsLate : {A : Type 0} → Result A → Type 0
IsLate m = (e : SecretError) → m ≡ err e → is_early e ≡ false

module _ {A : Type 0} where
  ok-IsLate : (a : A) → IsLate (ok a)
  ok-IsLate a e h = absurd (ground arith)

  err-IsLate : (d : SecretError) → is_early d ≡ false → IsLate {A = A} (err d)
  err-IsLate d h e same = ap is_early (sym (err_inj same)) ∙ h
    where
      err_inj : {x y : SecretError} → ◌≡◌ {A = Result A} (err x) (err y) → x ≡ y
      err_inj same = ground arith

  ok_or-IsLate : (o : Option A) (d : SecretError) → is_early d ≡ false → IsLate (ok_or o (err d))
  unfolding ok_or
  ok_or-IsLate none d h = err-IsLate d h
  ok_or-IsLate (some a) d h = ok-IsLate a

  then-IsLate :
      (test : Bool) (d : SecretError) (m : Result A)
      → is_early d ≡ false
      → IsLate m
      → IsLate (if test then err d else m)
  then-IsLate true d m h k = err-IsLate d h
  then-IsLate false d m h k = k

>>=-IsLate :
    {A B : Type 0} (m : Result A) (f : A → Result B)
    → IsLate m
    → ((a : A) → IsLate (f a))
    → IsLate (m >>= f)
>>=-IsLate (ok a) f h k = k a
>>=-IsLate (err d) f h k = err-IsLate d (h d refl)

found_or_unknown-IsLate :
    (tenant name : Text) (o : Option SealedSecret) → IsLate (found_or_unknown tenant name o)
unfolding found_or_unknown is_early
found_or_unknown-IsLate tenant name none = err-IsLate _ refl
found_or_unknown-IsLate tenant name (some s) = ok-IsLate s

module _ (a : Aead) (keys : Keyring) where
  kek_of-IsLate : (tenant : Text) (version : ℕ) → IsLate (kek_of keys tenant version)
  unfolding kek_of kek_in is_early
  kek_of-IsLate tenant version = elim (Option-cases (get tenant keys)) [
    | inl missing ↦ rw missing (err-IsLate _ refl)
    | inr (ks, found) ↦ rw found (ok_or-IsLate (find_kek version ks.versions) _ refl)
  ]

  aead_open-IsLate : (key blob aad : Text) → IsLate (aead_open a key blob aad)
  unfolding aead_open is_early
  aead_open-IsLate key blob aad = then-IsLate _ _ _ refl (ok_or-IsLate _ _ refl)

  as_dek-IsLate : (bytes : Text) → IsLate (as_dek a bytes)
  unfolding as_dek is_early
  as_dek-IsLate bytes = elim (Bool-cases (length bytes == dek_len)) [
    | inl fits ↦ rw fits (ok-IsLate bytes)
    | inr short ↦ rw short (err-IsLate _ refl)
  ]

  unwrap_dek-IsLate :
      (tenant : Text) (version : ℕ) (wrapped aad : Text)
      → IsLate (unwrap_dek a keys tenant version wrapped aad)
  unfolding unwrap_dek
  unwrap_dek-IsLate tenant version wrapped aad =
      >>=-IsLate (kek_of keys tenant version) _ (kek_of-IsLate tenant version) λ kek.
        >>=-IsLate (aead_open a kek wrapped aad) _ (aead_open-IsLate kek wrapped aad) as_dek-IsLate

  open_sealed-IsLate :
      (tenant name : Text) (s : SealedSecret) → IsLate (open_sealed a keys tenant name s)
  unfolding open_sealed is_early
  open_sealed-IsLate tenant name s = then-IsLate _ _ _ refl (
      >>=-IsLate (unwrap_dek a keys tenant s.kek_version s.wrapped_dek _) _
        (unwrap_dek-IsLate tenant s.kek_version s.wrapped_dek _)
        λ dek. aead_open-IsLate dek s.ciphertext _)

  open_all-IsLate :
      (rows : Rows) (tenant : Text) (names : List Text) → IsLate (open_all a keys rows tenant names)
  unfolding open_all
  open_all-IsLate rows tenant [] = ok-IsLate []
  open_all-IsLate rows tenant (n ∷ ns) =
      >>=-IsLate (found_or_unknown tenant n (get_row tenant n rows)) _
        (found_or_unknown-IsLate tenant n (get_row tenant n rows))
        λ s. >>=-IsLate (open_sealed a keys tenant n s) _ (open_sealed-IsLate tenant n s) λ v.
          >>=-IsLate (open_all a keys rows tenant ns) _ (open_all-IsLate rows tenant ns)
            λ rest. ok-IsLate _

all_declared-IsLate : (names requested : List Text) → IsLate (all_declared names requested)
unfolding all_declared is_early
all_declared-IsLate names [] = ok-IsLate tt
all_declared-IsLate names (n ∷ ns) = elim (Bool-cases (has_name n names)) [
  | inl declared ↦ rw declared (all_declared-IsLate names ns)
  | inr not_declared ↦ rw not_declared (err-IsLate _ refl)
]

wanted-IsLate : (names requested : List Text) → IsLate (wanted names requested)
unfolding wanted
wanted-IsLate names [] = ok-IsLate names
wanted-IsLate names (n ∷ ns) =
    >>=-IsLate (all_declared names (n ∷ ns)) _ (all_declared-IsLate names (n ∷ ns))
      λ t. ok-IsLate (n ∷ ns)

hand_over-IsLate :
    (a : Aead) (b : Broker) (g : CapabilityGrant) (requested : List Text)
    → IsLate (hand_over a b g requested)
unfolding hand_over handed is_early
hand_over-IsLate a b g requested = then-IsLate _ _ _ refl (
    >>=-IsLate (wanted g.names requested) _ (wanted-IsLate g.names requested) λ names.
      >>=-IsLate (open_all a b.keys b.rows g.tenant names) _
        (open_all-IsLate a b.keys b.rows g.tenant names) λ values. ok-IsLate _)

redeem_spent-same :
    (c : Crypto) (a : Aead) (b : Broker) (requested : List Text)
    (out : Registry × Result CapabilityGrant) (e : SecretError)
    → ((d : SecretError) → out.1 ≡ err d → out.0 ≡ b.caps)
    → (redeem_spent c a b requested out).1 ≡ err e
    → is_early e ≡ true
    → (redeem_spent c a b requested out).0 ≡ b
unfolding redeem_spent
redeem_spent-same c a b requested (caps, err d) e same h early =
    ap (λ reg. record b { caps = reg }) (same d refl)
redeem_spent-same c a b requested (caps, ok g) e same h early =
    absurd (ground (arith, hand_over-IsLate a b g requested e h))

-- A redemption that is refused for its token, its expiry, a revocation, an earlier use or the node that
-- asks changes nothing in the broker: it does not spend the capability.
pub redeem-refused :
    (c : Crypto) (a : Aead) (b : Broker) (token node_id : Text) (requested : List Text) (now : ℕ)
    (e : SecretError)
    → (redeem c a b token node_id requested now).1 ≡ err e
    → is_early e ≡ true
    → (redeem c a b token node_id requested now).0 ≡ b
unfolding redeem redeem_parsed
redeem-refused c a b token node_id requested now e h early =
    elim (Result-cases (parse_token c token)) [
      | inl (d, f) ↦ rw (f, redeem_parsed) refl
      | inr ((id, digest), f) ↦
          rw (f, redeem_parsed)
            (redeem_spent-same c a b requested (spend c wrong_node b.caps id digest node_id now) e
              (λ d. spend_err-same c wrong_node b.caps id digest node_id now)
              (rw (f, redeem_parsed) at h) early)
    ]
