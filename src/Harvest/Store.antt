-- ===== src/Harvest/Store.antt =====
-- core/src/harvest_core/fakes/datastore.py, class FakeDatastore: the harvest tables in memory, with
-- the constraints of the SQL adapter. Its methods are actions on `Datastore`, a table to a child
-- module. Its lock makes each method one step; a row that it hands out is a copy. One counter
-- numbers the rows of all tables.
mod State
mod Jurisdictions
mod Targets
mod Artifacts
mod History
mod Sources
mod Purge
pub mod Stamped
pub mod Due
pub mod Reads
unfoldable pub use State.*
unfoldable pub use Jurisdictions.*
unfoldable pub use Targets.*
unfoldable pub use Artifacts.*
unfoldable pub use History.*
unfoldable pub use Sources.*
unfoldable pub use Purge.*
