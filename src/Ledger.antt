-- ===== src/Ledger.antt =====
-- The World State Ledger, services/world-state-ledger: the versioned state of the project, changed
-- only by proposals that the state manager validates and commits.
pub mod Json
pub mod Models
pub mod Manager
pub mod Commit
mod Samples
mod Tests
