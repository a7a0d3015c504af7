-- ===== src/Records/Store.antt =====
-- records/src/public_records/fakes/store.py, class FakeRecordsStore: the row store in memory, with
-- the semantics that the SQL adapter promises. Its methods are actions on `Store`, a group of
-- tables to a child module. Its lock makes each method one step. A Python object that the store
-- hands out is a copy of the row here: no caller of the modelled code writes to one.
pub mod Reads
pub mod Frame
pub mod Unique
pub mod Purged
pub mod Rows
mod State
mod Campaigns
mod Jurisdictions
mod Targets
mod Threads
mod Emails
mod Sends
mod Escalations
mod Spend
mod Purge
pub use State.*
unfoldable pub use Campaigns.*
unfoldable pub use Jurisdictions.*
unfoldable pub use Targets.*
unfoldable pub use Threads.*
unfoldable pub use Emails.*
unfoldable pub use Sends.*
unfoldable pub use Escalations.*
unfoldable pub use Spend.*
unfoldable pub use Purge.*
