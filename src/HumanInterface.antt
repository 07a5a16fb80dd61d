-- ===== src/HumanInterface.antt =====
-- The human interface, services/human-interface/src/human_interface.
pub mod Gates
mod Tests
