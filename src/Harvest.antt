-- ===== src/Harvest.antt =====
-- The harvest of legal codes: the datastore and domain of core/src/harvest_core, the workers of
-- harvester/src/harvest_harvester and the orchestrator of orchestrator/src/harvest_orchestrator.
pub mod Domain
pub mod Store
pub mod Messages
pub mod World
pub mod Frame
pub mod Links
pub mod Sniff
pub mod Staging
pub mod Gates
pub mod Fanin
pub mod Fetch
pub mod Sweep
pub mod Code
pub mod Orchestrator
pub mod Service
pub mod Sample
mod Tests
