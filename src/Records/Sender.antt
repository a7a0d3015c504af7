-- ===== src/Records/Sender.antt =====
-- records/src/public_records/sender.py: initial requests and thread jobs.
pub mod Gates
pub mod Duplicates
mod Sent
mod Mail
mod Contact
mod Jobs
unfoldable pub use Mail.*
unfoldable pub use Contact.*
unfoldable pub use Jobs.*
