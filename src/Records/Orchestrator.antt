-- ===== src/Records/Orchestrator.antt =====
-- records/src/public_records/orchestrator.py and census.py: the periodic concerns. The thread pool
-- and the locks that keep a concern single-flight are not modelled: each pass is one call.
pub mod Queries
mod Scope
mod Seeding
mod Mail
mod Scan
unfoldable pub use Scope.*
unfoldable pub use Seeding.*
unfoldable pub use Mail.*
unfoldable pub use Scan.*
