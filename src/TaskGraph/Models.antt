-- ===== src/TaskGraph/Models.antt =====
-- The domain models, services/task-graph-engine/src/task_graph_engine/models.py, with the
-- enumerations that they use from libs/architect-common/src/architect_common/enums.py.
-- Identifiers are only compared, so a number stands for each; a time is a number of seconds.
use architect.Common.{ℕ, Bool, true, false, Option, none, List, []}
use architect.Common.Text.{Text}

abbrev pub TaskId : Type 0
TaskId = ℕ

abbrev pub AgentId : Type 0
AgentId = ℕ

abbrev pub Time : Type 0
Time = ℕ

pub data StatusEnum : Type 0 where
  pending running completed failed blocked cancelled : StatusEnum

pub data TaskType : Type 0 where
  implement_feature write_test review_code fix_bug refactor : TaskType

pub data AgentType : Type 0 where
  coder reviewer tester planner : AgentType

pub data ModelTier : Type 0 where
  tier_1 tier_2 tier_3 : ModelTier

pub data EvalVerdict : Type 0 where
  pass fail_soft fail_hard : EvalVerdict

pub record TaskBudget : Type 0 where
  pub max_tokens : ℕ
  pub max_time : Time
  pub max_retries : ℕ
  pub max_output_size_bytes : ℕ

pub record TaskInput : Type 0 where
  pub key : Text
  pub artifact_uri : Text
  pub content_hash : Text

pub record TaskOutput : Type 0 where
  pub key : Text
  pub artifact_uri : Text
  pub content_hash : Text
  pub size_bytes : ℕ

pub record TaskRetryRecord : Type 0 where
  pub attempt : ℕ
  pub started_at : Time
  pub ended_at : Option Time
  pub verdict : Option EvalVerdict
  pub failure_reason : Option Text
  pub tokens_consumed : ℕ

pub record TaskTimestamps : Type 0 where
  pub created_at : Time
  pub started_at : Option Time
  pub completed_at : Option Time

pub record Task : Type 0 where
  pub id : TaskId
  pub type : TaskType
  pub agent_type : AgentType
  pub model_tier : ModelTier
  pub dependencies : List TaskId
  pub dependents : List TaskId
  pub inputs : List TaskInput
  pub outputs : List TaskOutput
  pub budget : TaskBudget
  pub status : StatusEnum
  pub assigned_agent : Option AgentId
  pub priority : ℕ
  pub timestamps : TaskTimestamps
  pub current_attempt : ℕ
  pub retry_history : List TaskRetryRecord
  pub verdict : Option EvalVerdict
  pub error_message : Option Text
  pub description : Text

pub record TaskGraph : Type 0 where
  pub tasks : List Task
  pub execution_order : List TaskId
  pub created_at : Time

-- The defaults of the fields: 100 000 tokens, 30 minutes, 3 retries, 1 MB.
abbrev pub default_budget : TaskBudget
default_budget = record {
  max_tokens = 100_000;
  max_time = 1800;
  max_retries = 3;
  max_output_size_bytes = 1_000_000;
}

-- `Task(id=id)` at the time `now`, every other field at its default.
abbrev pub default_task : TaskId → Time → Task
default_task id now = record {
  id = id;
  type = implement_feature;
  agent_type = coder;
  model_tier = tier_2;
  dependencies = [];
  dependents = [];
  inputs = [];
  outputs = [];
  budget = default_budget;
  status = pending;
  assigned_agent = none;
  priority = 0;
  timestamps = record { created_at = now; started_at = none; completed_at = none };
  current_attempt = 0;
  retry_history = [];
  verdict = none;
  error_message = none;
  description = [];
}

-- `a == b` on statuses.
abbrev pub status_eq : StatusEnum → StatusEnum → Bool
status_eq pending pending = true
status_eq running running = true
status_eq completed completed = true
status_eq failed failed = true
status_eq blocked blocked = true
status_eq cancelled cancelled = true
status_eq _ _ = false
