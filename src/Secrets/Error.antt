-- ===== src/Secrets/Error.antt =====
-- crates/hull-ci-secrets/src/lib.rs: the errors of the broker, and results.
use hull_ci.Base.{ℕ, Text}
use hull_ci.Base.Results.{Outcome}
pub use hull_ci.Base.Results.{
  ok, err, ◌>>=◌, ◌>>◌, >>=-eq-ok, >>-before, >>-after, ok_inj, Result-cases,
}

pub data SecretError : Type 0 where
  invalid_name reserved_name no_tenant_key undeclared unenrolled_node : Text → SecretError
  empty_value decrypt_failed outsider_refused bad_capability : SecretError
  capability_expired capability_consumed capability_revoked : SecretError
  wrong_node wrong_proxy bad_node_signature : SecretError
  no_kek_version : (tenant : Text) (version : ℕ) → SecretError
  context_mismatch : (expected found : Text) → SecretError
  unknown_secret : (tenant name : Text) → SecretError
  wrong_job : (bound presented : Text) → SecretError
  stale_redemption : (skew_secs : ℕ) → SecretError
  key_already_enrolled : (enrolled_to requested : Text) → SecretError

abbrev pub Result {ℓ} : Type ℓ → Type ℓ
Result A = Outcome SecretError A
