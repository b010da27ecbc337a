-- ===== src/World.antt =====
-- The state that the services share: the tables, the UUIDs drawn so far, the socket messages sent,
-- and the messages that wait for the commit of the running transaction.
mod State
mod Tables
mod Saves
mod Transaction
pub mod Laws
pub mod Unique
pub mod Memory
pub use State.*
pub use Tables.*
unfoldable pub use Saves.*
pub use Transaction.*
pub mod Runs
