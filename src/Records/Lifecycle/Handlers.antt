-- ===== src/Records/Lifecycle/Handlers.antt =====
-- Every handler and every periodic pass lets the thread rows evolve.
mod Base
pub mod Sending
pub mod Receiving
pub mod Seeding
pub mod Passes
