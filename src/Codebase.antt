-- ===== src/Codebase.antt =====
-- Codebase comprehension, services/codebase-comprehension/src/codebase_comprehension.
pub mod Chunker
mod Tests
