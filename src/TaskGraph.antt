-- ===== src/TaskGraph.antt =====
-- The Task Graph Engine, services/task-graph-engine: its domain models, the task DAG over
-- networkx, the decomposer, the distributed lock over Redis and the scheduler.
pub mod Models
pub mod DiGraph
pub mod Dag
pub mod Lock
pub mod Repo
pub mod Transitions
pub mod Scheduler
mod Samples
mod Tests
pub mod Decompose
