-- ===== src/Evaluation.antt =====
-- The evaluation engine, services/evaluation-engine/src/evaluation_engine.
pub mod Evaluator
mod Tests
