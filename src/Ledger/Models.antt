-- ===== src/Ledger/Models.antt =====
-- The domain models, services/world-state-ledger/src/world_state_ledger/models.py, with the
-- enumerations of libs/architect-common/src/architect_common/enums.py that they use, and the rows of
-- libs/architect-db/src/architect_db/models/{ledger,proposal}.py.
use architect.Common.{ℕ, Bool, true, false, Option, none, List, []}
use architect.Common.Text.{Text}
use architect.TaskGraph.Models.{TaskId, AgentId, Time, StatusEnum}
use architect.Ledger.Json.{Number, Json, Object}

abbrev pub ProposalId : Type 0
ProposalId = ℕ

abbrev pub LedgerVersion : Type 0
LedgerVersion = ℕ

pub data ProposalVerdict : Type 0 where
  pending accepted rejected : ProposalVerdict

abbrev pub is_pending : ProposalVerdict → Bool
is_pending pending = true
is_pending _ = false

abbrev pub is_accepted : ProposalVerdict → Bool
is_accepted accepted = true
is_accepted _ = false

pub data EnvironmentName : Type 0 where
  dev staging prod : EnvironmentName

pub data HealthStatus : Type 0 where
  healthy degraded down unknown : HealthStatus

pub data BuildResult : Type 0 where
  pass fail : BuildResult

pub data LintStatus : Type 0 where
  clean warnings errors : LintStatus

pub record SpecState : Type 0 where
  pub spec_version : Text

pub record RepoState : Type 0 where
  pub commit_hash : Text
  pub branch_topology : List (Text × Text)
  pub file_manifest : List (Text × Text)
  pub dependency_lock_hash : Option Text

pub record TestResult : Type 0 where
  pub suite : Text
  pub passed : Number
  pub failed : Number
  pub skipped : Number
  pub duration_seconds : Number

pub record BuildState : Type 0 where
  pub last_build : Option BuildResult
  pub test_results : List TestResult
  pub coverage : Number
  pub lint_status : LintStatus

pub record EnvironmentInfo : Type 0 where
  pub name : EnvironmentName
  pub status : HealthStatus
  pub deployed_version : Option Text

pub record InfraState : Type 0 where
  pub environments : List EnvironmentInfo

pub record ActiveAgent : Type 0 where
  pub agent_id : AgentId
  pub task_id : TaskId
  pub status : StatusEnum

pub record AgentState : Type 0 where
  pub active_agents : List ActiveAgent
  pub completed_task_ids : List TaskId
  pub blocked_task_ids : List TaskId

pub record BudgetState : Type 0 where
  pub allocated_tokens : Number
  pub consumed_tokens : Number
  pub remaining_tokens : Number
  pub burn_rate : Number

pub record WorldState : Type 0 where
  pub version : LedgerVersion
  pub updated_at : Time
  pub spec : Option SpecState
  pub repo : Option RepoState
  pub build : BuildState
  pub infra : InfraState
  pub agents : AgentState
  pub budget : BudgetState

abbrev zero_number : Number
zero_number = record { plus = 0; minus = 0; shift = 0 }

-- `WorldState()` at the time `now`.
abbrev pub pristine : Time → WorldState
pristine now = record {
  version = 0;
  updated_at = now;
  spec = none;
  repo = none;
  build = record {
    last_build = none;
    test_results = [];
    coverage = zero_number;
    lint_status = clean;
  };
  infra = record { environments = [] };
  agents = record { active_agents = []; completed_task_ids = []; blocked_task_ids = [] };
  budget = record {
    allocated_tokens = zero_number;
    consumed_tokens = zero_number;
    remaining_tokens = zero_number;
    burn_rate = zero_number;
  };
}

pub record StateMutation : Type 0 where
  pub path : Text
  pub old_value : Json
  pub new_value : Json

pub record Proposal : Type 0 where
  pub id : ProposalId
  pub agent_id : AgentId
  pub task_id : TaskId
  pub mutations : List StateMutation
  pub rationale : Text

pub record LedgerRow : Type 0 where
  pub version : LedgerVersion
  pub state_snapshot : Option Object
  pub mutations : List StateMutation
  pub is_checkpoint : Bool
  pub updated_at : Time
  pub proposal_id : ProposalId

-- Why a proposal was rejected.
pub data Reason : Type 0 where
  stale_value : Text → (expected found : Json) → Reason
  budget_violated : Json → Reason

pub record ProposalRow : Type 0 where
  pub id : ProposalId
  pub agent_id : AgentId
  pub task_id : TaskId
  pub mutations : List StateMutation
  pub rationale : Text
  pub verdict : ProposalVerdict
  pub verdict_reason : Option Reason
  pub verdict_at : Option Time
  pub ledger_version_before : LedgerVersion
  pub ledger_version_after : Option LedgerVersion
