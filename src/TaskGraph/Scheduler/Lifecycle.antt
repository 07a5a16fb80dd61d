-- ===== src/TaskGraph/Scheduler/Lifecycle.antt =====
-- The lifecycle of a task as a relation of its own: what the methods of `TaskScheduler`
-- (scheduler.py) may do to the task that they store.
use architect.Common.{◌+◌, ◌<◌, ◌≡◌, refl, ◌⊎◌, true, some, arith, length, length-append}
use architect.Common.Result.{ok}
use architect.Common.Text.{Text}
use architect.TaskGraph.Models.{
  TaskId, AgentId, Time, StatusEnum, pending, running, completed, failed, Task, EvalVerdict,
}
use architect.TaskGraph.DiGraph.{DiGraph}
use architect.TaskGraph.Dag.{has_node, get_task, update_task}
use architect.TaskGraph.Transitions.{
  is_valid_transition, started_task, completed_task, failed_task, retried_task,
}

-- What no method changes.
pub record SameSpec (t t' : Task) : Type 0 where
  pub same_id : t'.id ≡ t.id
  pub same_type : t'.type ≡ t.type
  pub same_dependencies : t'.dependencies ≡ t.dependencies
  pub same_budget : t'.budget ≡ t.budget
  pub same_priority : t'.priority ≡ t.priority

-- One step in the life of a task.
pub data Lifecycle (t t' : Task) : Type 0 where
  start :
      SameSpec t t'
      → t.status ≡ pending
      → t'.status ≡ running
      → t'.current_attempt ≡ t.current_attempt + 1
      → t'.retry_history ≡ t.retry_history
      → Lifecycle t t'
  finish :
      SameSpec t t'
      → t.status ≡ running
      → t'.status ≡ completed
      → t'.current_attempt ≡ t.current_attempt
      → t'.retry_history ≡ t.retry_history
      → Lifecycle t t'
  fail :
      SameSpec t t'
      → t.status ≡ running
      → t'.status ≡ failed
      → t'.current_attempt ≡ t.current_attempt
      → length t'.retry_history ≡ length t.retry_history + 1
      → Lifecycle t t'
  retry :
      SameSpec t t'
      → t.status ≡ failed
      → t'.status ≡ pending
      → t'.current_attempt ≡ t.current_attempt
      → t.current_attempt < t.budget.max_retries
      → t'.retry_history ≡ t.retry_history
      → Lifecycle t t'

pub to_running : (s : StatusEnum) → is_valid_transition s running ≡ true → s ≡ pending
unfolding is_valid_transition
to_running s h = ground arith

pub to_completed : (s : StatusEnum) → is_valid_transition s completed ≡ true → s ≡ running
unfolding is_valid_transition
to_completed s h = ground arith

pub to_failed : (s : StatusEnum) → is_valid_transition s failed ≡ true → s ≡ running
unfolding is_valid_transition
to_failed s h = ground arith

pub started_task-Lifecycle :
    (now : Time) (a : AgentId) (t : Task) → t.status ≡ pending → Lifecycle t (started_task now a t)
unfolding started_task
started_task-Lifecycle now a t h = start (ground arith) h refl refl refl

pub completed_task-Lifecycle :
    (now : Time) (v : EvalVerdict) (t : Task)
    → t.status ≡ running
    → Lifecycle t (completed_task now v t)
unfolding completed_task
completed_task-Lifecycle now v t h = finish (ground arith) h refl refl refl

pub failed_task-Lifecycle :
    (now : Time) (e : Text) (t : Task) → t.status ≡ running → Lifecycle t (failed_task now e t)
unfolding failed_task
failed_task-Lifecycle now e t h = fail (ground arith) h refl refl (length-append t.retry_history _)

pub retried_task-Lifecycle :
    (t : Task)
    → t.status ≡ failed
    → t.current_attempt < t.budget.max_retries
    → Lifecycle t (retried_task t)
unfolding retried_task
retried_task-Lifecycle t h lt = retry (ground arith) h refl refl lt refl

module _ (nx : DiGraph) where
  open nx use {Graph, add_node, node_task, node_task-add_node}

  -- One stored task has made one step of its lifecycle.
  pub record Stored (g g' : Graph) : Type 0 where
    pub task_id : TaskId
    pub before : Task
    pub after : Task
    pub found : get_task nx g task_id ≡ ok before
    pub step : Lifecycle before after
    pub result : g' ≡ add_node g task_id after

  abbrev pub Moves : Graph → Graph → Type 0
  Moves g g' = (g' ≡ g) ⊎ Stored g g'

  pub get_task-eq-ok :
      (g : Graph) (n : TaskId) (t : Task)
      → get_task nx g n ≡ ok t
      → (has_node nx g n ≡ true) × (node_task g n ≡ some t)
  unfolding get_task
  get_task-eq-ok g n t h = ground arith

  pub update_task_known :
      (g : Graph) (n : TaskId) (t t' : Task)
      → get_task nx g n ≡ ok t
      → update_task nx g n t' ≡ ok (add_node g n t')
  unfolding update_task
  update_task_known g n t t' h = ground (arith, get_task-eq-ok g n t h)
