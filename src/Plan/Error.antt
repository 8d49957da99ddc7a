-- ===== src/Plan/Error.antt =====
-- crates/hull-ci-plan/src/error.rs and validate.rs: the rules that a pipeline can break.
use hull_ci.Base.{ℕ, Text}
use hull_ci.Base.Results.{Outcome}
pub use hull_ci.Base.Results.{
  ok, err, ◌>>=◌, ◌>>◌, >>=-eq-ok, >>-before, >>-after, ok_inj, Result-cases,
}

pub data Field : Type 0 where
  inputs cache secrets needs run : Field

pub data Invalid : Type 0 where
  name_length : (got limit : ℕ) → Invalid
  name_charset duplicate_name tier unknown_action nothing_to_run timeout_syntax : Text → Invalid
  dangling_needs : (name missing : Text) → Invalid
  shard : (got : Text) → (max : ℕ) → Invalid
  cache_scope_shape image_ref_shape : (limit : ℕ) → Invalid
  timeout_too_long : (got : Text) → (limit_hours : ℕ) → Invalid
  list_too_long string_too_long : Field → (name : Text) → (limit : ℕ) → Invalid
  control_characters : Field → (name : Text) → Invalid
  redeclared_image redeclared_trust redeclared_cache_scope : Invalid

pub data Bound : Type 0 where
  too_many_steps too_deep source_bytes nesting statement_size indent block_chain : ℕ → Bound

pub data PlanErrorKind : Type 0 where
  invalid : Invalid → PlanErrorKind
  exhausted : Bound → PlanErrorKind

abbrev pub Result {ℓ} : Type ℓ → Type ℓ
Result A = Outcome PlanErrorKind A
