-- ===== src/Secrets/Broker.antt =====
-- crates/hull-ci-secrets/src/broker.rs: the broker with its keys, its store and its two registries of
-- capabilities. An operation is one step here, also where it takes its locks one after the other.
-- `now` is the clock's reading; new ids and random bytes are arguments.
pub mod State
pub mod Mint
pub mod Redeem
pub mod Keep
pub mod Delivered
pub mod Used
pub mod Spent
pub mod Revoked
pub mod Refused
pub mod Stored
pub mod Changes
pub mod Refines
unfoldable pub use State.*
unfoldable pub use Mint.*
unfoldable pub use Redeem.*
unfoldable pub use Keep.*
