-- ===== src/Records/Lifecycle.antt =====
-- The life of the thread rows: how the rows of a store may differ from those of an earlier one
-- when no human has had a hand in it.
pub mod Rows
pub mod Rules
pub mod Handlers
