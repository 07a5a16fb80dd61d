-- ===== src/Knowledge.antt =====
-- The knowledge and memory service, services/knowledge-memory/src/knowledge_memory.
pub mod WorkingMemory
mod Tests
