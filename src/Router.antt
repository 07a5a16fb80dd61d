-- ===== src/Router.antt =====
-- The Multi-Model Router, services/multi-model-router: its escalation policy.
pub mod Escalation
mod Tests
