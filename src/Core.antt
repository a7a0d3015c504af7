-- ===== src/Core.antt =====
-- The shared core (core/src/harvest_core): the stand-ins of its infrastructure ports.
pub mod Queue
pub mod KeyValue
pub mod ObjectStore
pub mod Storage
pub mod Tests
