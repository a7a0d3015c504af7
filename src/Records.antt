-- ===== src/Records.antt =====
-- The public records service (records/src/public_records).
pub mod Domain
pub mod Lifecycle
pub mod Messages
pub mod Store
pub mod World
pub mod StoreOnly
mod Acknowledged
pub mod Submitted
pub mod Keys
pub mod Attachments
pub mod Fees
pub mod Sender
pub mod Receiver
pub mod Orchestrator
pub mod Operations
pub mod Consumer
pub mod Service
pub mod Sample
pub mod Tests
