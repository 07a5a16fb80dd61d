-- ===== src/Governor.antt =====
-- The Economic Governor, services/economic-governor: its spin detector, and the monitor with
-- the budget tracker and the enforcer.
pub mod Spin
pub mod Monitor
mod Tests
