-- ===== src/TaskGraph/Scheduler.antt =====
-- `TaskScheduler`, services/task-graph-engine/src/task_graph_engine/scheduler.py: its object, and its
-- methods as actions on it. Calls of the database return; one `now` serves a method's clock reads.
pub mod Lifecycle
pub mod Outcome
pub mod Claim
pub mod Refines
pub mod Runs
pub mod Attempts
pub mod Safety
pub mod Contention
pub mod Reclaim
pub mod Load
pub mod Restart
pub mod Forgets
use architect.Common.{
  ℕ, ◌+◌, Bool, true, false, not, ◌||◌, Option, none, some, List, [], ◌∷◌, ◌++◌, leb, add,
  update_set, head?, if◌then◌else◌,
}
use architect.Common.Text.{Text}
use architect.Common.Result.{ok, err, Action, pure, reads, modify, raise_unless, ◌>>=◌, ◌>>◌}
use architect.TaskGraph.Models.{
  TaskId, AgentId, Time, StatusEnum, pending, running, completed, failed, blocked, cancelled,
  EvalVerdict, fail_soft, Task, status_eq,
}
use architect.TaskGraph.DiGraph.{DiGraph}
use architect.TaskGraph.Dag.{
  Error, invalid_transition, lock_timeout, get_task, update_task, get_ready_tasks,
}
pub use architect.TaskGraph.Transitions.{
  is_valid_transition, started_task, completed_task, failed_task, retried_task,
}
use architect.TaskGraph.Lock
use architect.TaskGraph.Lock.{Redis, Lock, lock_key, try_claim_task, get_completed, acquire}
use architect.TaskGraph.Repo.{TaskRow, update_status}

-- The envelopes that the scheduler publishes.
pub data Event : Type 0 where
  task_started : TaskId → AgentId → Event
  task_completed : TaskId → EvalVerdict → Event
  task_failed : TaskId → Text → Event
  task_retried : TaskId → (attempt : ℕ) → Event

-- The object: graph, completed set, lock, the rows behind the repository, what was published.
pub record Scheduler (Graph Store : Type 0) : Type 0 where
  pub dag : Graph
  pub completed_ids : List TaskId
  pub lock : Lock Store
  pub table : List TaskRow
  pub events : List Event

-- `deliver` says which envelopes the event bus takes; it raises at the others.
module _ (nx : DiGraph) (rd : Redis) (deliver : Event → Bool) where
  abbrev pub State : Type 0
  State = Scheduler nx.Graph rd.Store

  abbrev pub M : Type 0 → Type 0
  M A = Action State Error A

  -- `self._dag.update_task(...)`
  abbrev store_task : TaskId → Task → M (Unit {0})
  store_task task_id task s = elim (update_task nx s.dag task_id task) [
    | ok g ↦ (ok tt, record s { dag = g })
    | err e ↦ (err e, s)
  ]

  -- `_publish_event`: an exception of the bus is logged and dropped.
  abbrev pub published : Event → State → State
  published e s = if deliver e then record s { events = s.events ++ e ∷ [] } else s

  abbrev publish_event : Event → M (Unit {0})
  publish_event e = modify (published e)

  abbrev save_status : TaskId → StatusEnum → Option Text → Time → M (Unit {0})
  save_status task_id status error now =
      modify (λ s. record s { table = update_status s.table task_id status error now })

  -- `_assert_transition`
  abbrev assert_transition : Task → StatusEnum → M (Unit {0})
  assert_transition task target =
      raise_unless (is_valid_transition task.status target)
        (invalid_transition task.id task.status target)

  unfoldable pub mark_running : Time → TaskId → AgentId → M (Unit {0})
  mark_running now task_id agent_id = do
    task ← reads (λ s. get_task nx s.dag task_id)
    assert_transition task running
    store_task task_id (started_task now agent_id task)
    save_status task_id running none now
    publish_event (task_started task_id agent_id)

  unfoldable pub mark_completed : Time → TaskId → EvalVerdict → M (Unit {0})
  mark_completed now task_id verdict = do
    task ← reads (λ s. get_task nx s.dag task_id)
    assert_transition task completed
    store_task task_id (completed_task now verdict task)
    modify (λ s. record s { completed_ids = add task_id s.completed_ids })
    modify (λ s. record s { lock = Lock.mark_completed rd s.lock task_id })
    save_status task_id completed none now
    publish_event (task_completed task_id verdict)

  unfoldable pub mark_failed : Time → TaskId → Text → M (Unit {0})
  mark_failed now task_id error = do
    task ← reads (λ s. get_task nx s.dag task_id)
    assert_transition task failed
    store_task task_id (failed_task now error task)
    save_status task_id failed (some error) now
    publish_event (task_failed task_id error)

  -- The reset to PENDING, past the tests of `should_retry`.
  abbrev queue_retry : Time → TaskId → Task → M Bool
  queue_retry now task_id task = do
    store_task task_id (retried_task task)
    save_status task_id pending none now
    publish_event (task_retried task_id (task.current_attempt + 1))
    pure true

  unfoldable pub should_retry : Time → TaskId → M Bool
  should_retry now task_id = do
    task ← reads (λ s. get_task nx s.dag task_id)
    if not (status_eq task.status failed) || leb task.budget.max_retries task.current_attempt
        then pure false
        else queue_retry now task_id task

  abbrev get_some : Option TaskId → M (Option Task)
  get_some none = pure none
  get_some (some task_id) = do task ← reads (λ s. get_task nx s.dag task_id); pure (some task)

  unfoldable pub schedule_next : M (Option Task)
  schedule_next s = get_some (head? (get_ready_tasks nx s.dag s.completed_ids)) s

  -- `await self._distributed_lock.try_claim_task(...)`
  abbrev try_claim : TaskId → M Bool
  try_claim task_id s =
      let (got, lk) = try_claim_task rd s.lock task_id in (ok got, record s { lock = lk })

  abbrev run_claimed : Time → AgentId → Task → M (Option Task)
  run_claimed now agent_id task = do
    mark_running now task.id agent_id
    claimed_task ← reads (λ s. get_task nx s.dag task.id)
    pure (some claimed_task)

  abbrev claim_some : Time → AgentId → Option Task → M (Option Task)
  claim_some now agent_id none = pure none
  claim_some now agent_id (some task) = do
    claimed ← try_claim task.id
    if not claimed then pure none else run_claimed now agent_id task

  -- The body of the `async with`.
  unfoldable pub claim_next : Time → AgentId → M (Option Task)
  claim_next now agent_id = do
    modify (λ s. record s { completed_ids = update_set (get_completed rd s.lock) s.completed_ids })
    task ← schedule_next
    claim_some now agent_id task

  -- What `schedule_lock` does on the way out.
  abbrev pub release : State → State
  release s = elim s.lock.redis [
    | some r ↦ record s {
      lock = record {
        redis = some (rd.delete r lock_key);
        local_completed = s.lock.local_completed;
      };
    }
    | none ↦ s
  ]

  abbrev pub with_redis_lock : M (Option Task) → Bool × rd.Store → M (Option Task)
  with_redis_lock body (got, r) s =
      let s' = record s {
        lock = record { redis = some r; local_completed = s.lock.local_completed };
      } in
      let (result, after) = body s' in
      if got then (result, release after) else (err lock_timeout, s')

  -- `polls` and `wait` are the polls before the deadline, and what others do between two of them.
  unfoldable pub schedule_and_claim : ℕ → (rd.Store → rd.Store) → Time → AgentId → M (Option Task)
  schedule_and_claim polls wait now agent_id s = elim s.lock.redis [
    | some r ↦ with_redis_lock (claim_next now agent_id) (acquire rd polls wait r) s
    | none ↦ claim_next now agent_id s
  ]
