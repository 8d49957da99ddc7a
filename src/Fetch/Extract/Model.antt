-- ===== src/Fetch/Extract/Model.antt =====
-- crates/hull-ci-fetch/src/extract.rs: entries, limits, refusals and the state of an extraction.
use hull_ci.Base.Results.{Outcome}
pub use hull_ci.Base.Results.{ok, err, ◌>>=◌, >>=-eq-ok, ok_inj, Result-cases}
use hull_ci.Base.{ℕ, List, Option, Text, text_keys}
use hull_ci.Fetch.Paths.{Names, path_keys}
use hull_ci.Fetch.Disk.{Disk}

-- `str::from_utf8`, the lossy conversion, and NFC.
pub record Unicode : Type 0 where
  pub decode : Text → Option Text
  pub lossy : Text → Text
  pub nfc : Text → Text

pub record Limits : Type 0 where
  pub max_entries : ℕ
  pub max_file_bytes : ℕ
  pub max_total_bytes : ℕ
  pub max_path_depth : ℕ
  pub max_name_bytes : ℕ

pub data Rejection : Type 0 where
  absolute_path parent_traversal non_utf8_path illegal_byte backslash_in_name : Rejection
  hard_link special_file absolute_symlink_target symlink_escapes_root conflict duplicate : Rejection
  name_too_long too_deep privileged_mode file_too_large : ℕ → Rejection
  unicode_collision symlink_ancestor : Text → Rejection

pub data ExtractError : Type 0 where
  archive_too_large malformed destination_not_empty : ExtractError
  too_many_entries content_too_large : ℕ → ExtractError
  rejected : (path : Text) → Rejection → ExtractError

abbrev pub Result {ℓ} : Type ℓ → Type ℓ
Result A = Outcome ExtractError A

pub data Checked {ℓ} (A : Type ℓ) : Type ℓ where
  good : A → Checked A
  bad : Rejection → Checked A

-- `map_err(|r| ExtractError::rejected(&display, r))?`.
unfoldable pub or_rejected {ℓ} : {A : Type ℓ} → Text → Checked A → Result A
or_rejected display (good a) = ok a
or_rejected display (bad r) = err (rejected display r)

pub data EntryType : Type 0 where
  regular continuous directory symlink hard char_device block_device fifo x_global other : EntryType

-- The bytes that follow a header: how many there are, or how many before the stream breaks and with what
-- error.
pub data Body : Type 0 where
  holds : ℕ → Body
  breaks : ℕ → ExtractError → Body

pub record Entry : Type 0 where
  pub kind : EntryType
  pub path : Text
  pub mode : Option ℕ
  pub size : Option ℕ
  pub link_name : Option Text
  pub body : Body

pub record Extracted : Type 0 where
  pub files : ℕ
  pub dirs : ℕ
  pub symlinks : ℕ
  pub bytes : ℕ

pub record State : Type 0 where
  pub disk : Disk
  pub claimed : List (Text × Text)
  pub dirs : List Names
  pub symlinks : List Names
  pub out : Extracted
