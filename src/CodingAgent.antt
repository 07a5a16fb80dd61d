-- ===== src/CodingAgent.antt =====
-- The coding agent, services/coding-agent/src/coding_agent.
pub mod Models
pub mod Coder
pub mod Report
pub mod Git
pub mod Loop
mod Tests
