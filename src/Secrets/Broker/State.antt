-- ===== src/Secrets/Broker/State.antt =====
-- crates/hull-ci-secrets/src/broker.rs: the broker, what is asked of it, and what both mints do first.
use hull_ci.Base.{
  ℕ, ◌+◌, ◌-◌, ◌^◌, Bool, true, false, not, ◌&&◌, ◌||◌, List, [], ◌∷◌, Option, none, some, Text,
  text_eq, text_keys, any, ltb, min, ◌==◌, if◌then◌else◌,
}
use hull_ci.Proto.Verdict.{AuthorClass, may_receive_secrets}
use hull_ci.Secrets.Error.{Result, ok, err, ◌>>=◌, ◌>>◌, outsider_refused, unknown_secret}
use hull_ci.Secrets.Context.{validate_name}
use hull_ci.Secrets.Keys.{Keyring, current_version}
use hull_ci.Secrets.Seal.{SealedSecret, Rows, get_row}
use hull_ci.Secrets.Capability.{CapabilityGrant, Registry}

pub record Broker : Type 0 where
  pub keys : Keyring
  pub rows : Rows
  pub caps : Registry
  pub proxy_caps : Registry
  pub ttl_secs : ℕ

pub record CapabilityRequest : Type 0 where
  pub tenant : Text
  pub job_id : Text
  pub holder : Text
  pub declared : List Text
  pub author_class : AuthorClass

pub record DeliveredSecrets : Type 0 where
  pub tenant : Text
  pub job_id : Text
  pub values : List (Text × Text)

-- The order of `String`, by which a `BTreeSet` is kept.
unfoldable pub text_lt : Text → Text → Bool
text_lt [] [] = false
text_lt [] (d ∷ ds) = true
text_lt (c ∷ cs) [] = false
text_lt (c ∷ cs) (d ∷ ds) = ltb c d || (c == d && text_lt cs ds)

unfoldable pub insert_name : Text → List Text → List Text
unfolding text_lt
insert_name n [] = n ∷ []
insert_name n (m ∷ ms) =
    if text_eq n m then m ∷ ms else if text_lt n m then n ∷ m ∷ ms else m ∷ insert_name n ms

unfoldable pub has_name : Text → List Text → Bool
unfolding any
has_name n names = any (λ m. text_eq m n) names

unfoldable pub found_or_unknown : (tenant name : Text) → Option SealedSecret → Result SealedSecret
found_or_unknown tenant name none = err (unknown_secret tenant name)
found_or_unknown tenant name (some s) = ok s

-- The loop over the declared names.
unfoldable pub declare : Rows → (tenant : Text) → List Text → List Text → Result (List Text)
unfolding found_or_unknown
declare rows tenant [] names = ok names
declare rows tenant (n ∷ ns) names = do
  validate_name n
  s ← found_or_unknown tenant n (get_row tenant n rows)
  declare rows tenant ns (insert_name n names)

unfoldable pub sat_add_u64 : ℕ → ℕ → ℕ
sat_add_u64 m n = min (m + n) (2 ^ 64 - 1)

abbrev pub grant_of : CapabilityRequest → Text → List Text → ℕ → CapabilityGrant
grant_of req id names expires_at = record {
  cap_id = id;
  tenant = req.tenant;
  job_id = req.job_id;
  holder = req.holder;
  names = names;
  author_class = req.author_class;
  expires_at = expires_at;
}

-- What both mints do before they look at the clock.
unfoldable pub preflight : Broker → CapabilityRequest → Result (List Text)
preflight b req =
    if not (may_receive_secrets req.author_class)
    then err outsider_refused
    else do version ← current_version b.keys req.tenant; declare b.rows req.tenant req.declared []

abbrev pub Minted : Type 0
Minted = Text × CapabilityGrant
