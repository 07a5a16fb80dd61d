-- ===== src/TaskGraph/Transitions.antt =====
-- The status transitions of `TaskScheduler`, services/task-graph-engine/src/task_graph_engine/
-- scheduler.py, and the task that each lifecycle method stores.
use architect.Common.{◌+◌, Bool, true, false, Option, none, some, [], ◌∷◌, ◌++◌}
use architect.Common.Text.{Text}
use architect.TaskGraph.Models.{
  AgentId, Time, StatusEnum, pending, running, completed, failed, blocked, cancelled, EvalVerdict,
  fail_soft, Task,
}

-- `_VALID_TRANSITIONS`
unfoldable pub is_valid_transition : StatusEnum → StatusEnum → Bool
is_valid_transition pending running = true
is_valid_transition pending cancelled = true
is_valid_transition pending blocked = true
is_valid_transition blocked pending = true
is_valid_transition blocked cancelled = true
is_valid_transition running completed = true
is_valid_transition running failed = true
is_valid_transition running cancelled = true
is_valid_transition failed pending = true
is_valid_transition failed cancelled = true
is_valid_transition _ _ = false

-- The tasks that the lifecycle methods store.
unfoldable pub started_task : Time → AgentId → Task → Task
started_task now agent_id task = record task {
  status = running;
  assigned_agent = some agent_id;
  current_attempt = task.current_attempt + 1;
  timestamps = record {
    created_at = task.timestamps.created_at;
    started_at = some now;
    completed_at = task.timestamps.completed_at;
  };
}

unfoldable pub completed_task : Time → EvalVerdict → Task → Task
completed_task now verdict task = record task {
  status = completed;
  verdict = some verdict;
  timestamps = record {
    created_at = task.timestamps.created_at;
    started_at = task.timestamps.started_at;
    completed_at = some now;
  };
}

-- `task.timestamps.started_at or now`
abbrev or_now : Option Time → Time → Time
or_now none now = now
or_now (some t) now = t

unfoldable pub failed_task : Time → Text → Task → Task
failed_task now error task = record task {
  status = failed;
  error_message = some error;
  timestamps = record {
    created_at = task.timestamps.created_at;
    started_at = task.timestamps.started_at;
    completed_at = some now;
  };
  retry_history =
      task.retry_history
      ++ record {
        attempt = task.current_attempt;
        started_at = or_now task.timestamps.started_at now;
        ended_at = some now;
        verdict = some fail_soft;
        failure_reason = some error;
        tokens_consumed = 0;
      }
        ∷ [];
}

unfoldable pub retried_task : Task → Task
retried_task task = record task {
  status = pending;
  error_message = none;
  assigned_agent = none;
  timestamps = record {
    created_at = task.timestamps.created_at;
    started_at = none;
    completed_at = none;
  };
}
