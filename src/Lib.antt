-- ===== src/Lib.antt =====
-- ARCHITECT: the core logic of its services, with the theorems that make it correct.
--
-- The Task Graph Engine (services/task-graph-engine/src/task_graph_engine) turns a specification
-- into tasks, keeps them in a graph of dependencies, and hands ready tasks to agents. Its parts:
--   TaskGraph/Models: models.py, and the enumerations of libs/architect-common. Identifiers are only
--     compared, so that a number stands for each.
--   TaskGraph/Dag: `TaskDAG` (graph.py). networkx is the parameter TaskGraph/DiGraph: its operations
--     and the documented laws that the proofs use. Export has `validate`
--     and `to_task_graph`; Ready, FromTasks, Ordered and Stored hold the proofs.
--   TaskGraph/Lock: `DistributedSchedulerLock` (distributed_lock.py). Redis is a parameter: its
--     commands and their documented effect. A key that expires, or another instance that writes, is a
--     change of the store by the surroundings (`wait` while polling, `others` between calls of a run).
--   TaskGraph/Repo: the calls that the scheduler makes of `TaskRepository` (libs/architect-db); the
--     table is a list of rows; the order in which a page of it is served is the parameter `Database`,
--     since the queries have no ORDER BY.
--   TaskGraph/Transitions: the transitions that scheduler.py allows, and the tasks that it stores.
--   TaskGraph/Scheduler: `TaskScheduler` (scheduler.py). A method is an action on the record
--     `Scheduler`: graph, completed set, lock, table and published events. An exception keeps what was
--     written before it. A method runs to its end before the next starts; what other instances do to
--     the shared store is in `Run`. The children hold `load_from_db` (Load) and the proofs: the
--     lifecycle that all calls but `load_from_db` refine (Lifecycle, Refines), runs and their
--     invariants (Runs, Attempts), claims (Claim, Safety, Contention, Reclaim) and restarts (Restart,
--     Forgets).
--   TaskGraph/Decompose: the deterministic decomposition (decomposer.py). Numbers of a descriptor are
--     natural, and its texts are texts. `new_task_id()` and `utcnow()` are parameters by call count.
--   TaskGraph/Samples: a plain graph, store and database that meet the laws asked of networkx, Redis and
--     PostgreSQL.
--
-- The World State Ledger (services/world-state-ledger/src/world_state_ledger) keeps the versions of the
-- project's state. Its parts:
--   Ledger/Json: JSON values, with Python's equality, and the dot-paths of state_manager.py. An int or
--     a finite float is exact, as a fraction of a power of two. A value is copied where the code shares
--     a reference to it.
--   Ledger/Models: models.py and the rows of both tables.
--   Ledger/Manager: the reads of `StateManager` (state_manager.py), its validation and its replay of
--     deltas. pydantic's dump and validation of a state are a parameter.
--   Ledger/Commit: `get_current`, `submit_proposal` and `validate_and_commit`, on the record `State` of
--     both tables, the cache and the published events. A call is one step; whether Redis takes the
--     write to the cache after the commit is an argument. Outcome, Checks and History hold the proofs.
--   Ledger/Samples: a plain stand-in for pydantic that meets the laws asked of it.
--
-- Governor/Spin is the `SpinDetector` of services/economic-governor (spin_detector.py), its ordered dict
-- a list with the oldest entry first. Governor/Monitor is the `Monitor` with the `BudgetTracker` and the
-- `Enforcer` (monitor.py, budget_tracker.py, enforcer.py): one state, a function per handler and one for
-- a round of the monitoring loop; Expected says what is to be published, by the calls alone, and Actions
-- holds the proofs. Costs, rates and phases are left out; of a cost only counts whether there is one.
-- Router/Escalation is the `EscalationPolicy` of services/multi-model-router (escalation.py); a history
-- stands there with the latest entry first.
--
-- Deployment/Workflow is the `DeploymentWorkflow` of services/deployment-pipeline
-- (src/deployment_pipeline/temporal/workflows.py), an action on the record `Workflow`: its fields and a
-- log of what it awaits, the latest first. Temporal, the activities and the senders of signals are the
-- parameter `World`, which answers by the log; the signals it names are handled before the awaited call
-- resumes. An awaited timer or condition may be cancelled. Gates, Sound and Safety, Progress, Watching
-- and Completion, and Termination hold the proofs.
--
-- Events/Subscriber is the `EventSubscriber` of libs/architect-events (src/architect_events/subscriber.py),
-- its read loop over what `XREADGROUP` returned, with a log of what is received, called and sent;
-- Redis, the parsing of an event and the handlers are the parameter `World`. Events/Dlq is `reprocess` of
-- dlq.py. The children of both hold the proofs.
--
-- Evaluation/Evaluator is the `Evaluator` of services/evaluation-engine (evaluator.py, models.py), with a
-- log of the layers that ran and the events. HumanInterface/Gates are the approval gates of
-- services/human-interface (api/routes.py), on both tables: the parent serves a request to its end before
-- the next, and Overlap has votes whose read and commit interleave; Tally and the children of Overlap have
-- the proofs. Knowledge/WorkingMemory is the `WorkingMemoryStore` of services/knowledge-memory (working_memory.py); Eviction has the proofs.
--
-- Gateway/ServiceClient is `_request` of the `ServiceClient` of apps/api-gateway (service_client.py), with
-- a log of what it sends and how long it waits; what an attempt meets is a parameter.
--
-- CodingAgent is the loop of services/coding-agent: Loop is `CodingAgentLoop.execute` (agent.py), with a
-- log of what it asks, runs, writes and publishes; Report its `_collect_errors`; Coder the parsing of a
-- reply (coder.py); Git `GitCommitter.commit` (git.py). Blank, Commits, Safety, Rounds and Outcome have the proofs.
-- The loop needs no fuel: it counts the retries that are left.
--
-- Codebase/Chunker is the `SemanticChunker` of services/codebase-comprehension (chunker.py), on texts as
-- lists of code points; Blocks and Chunks have the proofs.
--
-- Common/Triple has the rules for what an action keeps and ends in, by which these proofs are built.
--
-- Fuel and bounds. A step of a deployment has as many rounds of health checks as the fuel says, which
-- is enough if it is the step's minimum duration in seconds and the checks are some seconds apart.
-- `acquire` counts its polls, as the code's deadline does. `load_pages` has a round more than the table
-- has rows, which is enough since each round but the last takes at least one.
--
-- Not modelled: logging; failures of the database, whose calls are taken to return; the decomposition
-- by an LLM; the services that are clients of databases, message brokers, containers and language
-- models.
pub mod Common
pub mod Codebase
pub mod CodingAgent
pub mod Deployment
pub mod Evaluation
pub mod Events
pub mod Gateway
pub mod Governor
pub mod HumanInterface
pub mod Knowledge
pub mod Ledger
pub mod Router
pub mod TaskGraph
