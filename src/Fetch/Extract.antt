-- ===== src/Fetch/Extract.antt =====
-- crates/hull-ci-fetch/src/extract.rs: the paranoid reader of tar archives. The crates `tar` and
-- `unicode_normalization` and the conversions of bytes to text are parameters: an archive is the list of
-- its entries, as `tar` reads them.
pub mod Model
pub mod Checks
pub mod Fill
pub mod Created
pub mod Dirs
pub mod Allowed
pub mod Writes
pub mod Tree
unfoldable pub use Model.*
unfoldable pub use Checks.*
unfoldable pub use Fill.*
