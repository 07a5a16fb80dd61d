-- ===== src/Deployment/Models.antt =====
-- The data of the deployment workflow, from
-- services/deployment-pipeline/src/deployment_pipeline/temporal/workflows.py and libs/architect-common.
-- Every activity takes the deployment's id, which is left out; what an activity measured is a number
-- that names it. The confidence is only compared, and natural in a common unit.
use architect.Common.{ℕ, Bool, Option, none, some, List, [], ◌∷◌, leb, if◌then◌else◌}
use architect.Common.Text.{Text, codes}

pub data DeploymentStatus : Type 0 where
  pending staging smoke_testing awaiting_approval canary rolling_out verifying : DeploymentStatus
  completed rolled_back failed : DeploymentStatus

pub data DeploymentStage : Type 0 where
  staging_stage canary_5 rollout_25 rollout_50 rollout_100 : DeploymentStage

-- `RollbackReason`, a `StrEnum`: its members are texts.
abbrev pub error_rate_exceeded : Text
error_rate_exceeded = codes "error_rate_exceeded"

abbrev pub smoke_test_failed : Text
smoke_test_failed = codes "smoke_test_failed"

abbrev pub verification_failed : Text
verification_failed = codes "verification_failed"

abbrev pub manual : Text
manual = codes "manual"

abbrev pub approval_denied : Text
approval_denied = codes "approval_denied"

-- A step of the plan; a key may be missing.
pub record RolloutStep : Type 0 where
  pub traffic_pct : Option ℕ
  pub min_duration_seconds : Option ℕ
  pub health_check_interval_seconds : Option ℕ

pub record Params : Type 0 where
  pub deployment_id : Text
  pub rollout_steps : List RolloutStep
  pub confidence : ℕ
  pub first_deploy_requires_human : Bool
  pub auto_approve_threshold : ℕ

pub record WorkflowResult : Type 0 where
  pub deployment_id : Text
  pub status : DeploymentStatus
  pub rollback_reason : Option Text
  pub stages_completed : List DeploymentStage

-- `data.get("decision")` and `data.get("reason")` of a signal.
pub data Signal : Type 0 where
  approval : Option Text → Signal
  rollback_request : Option Text → Signal

-- What the workflow awaits.
pub data Command : Type 0 where
  deploy_to_staging run_smoke_tests request_approval wait_approval : Command
  collect_baseline_metrics : Command
  deploy_canary : ℕ → Command
  set_traffic : ℕ → Command
  publish_stage_changed : DeploymentStage → ℕ → Command
  sleep : ℕ → Command
  collect_health_metrics : Command
  check_rollback_criteria : ℕ → ℕ → Command
  run_acceptance_verification publish_completed : Command
  rollback : Text → Command
  publish_rolled_back : Text → DeploymentStage → Command

-- The dict that an activity returns: the keys that the workflow looks up.
pub record Reply : Type 0 where
  pub success : Option Bool
  pub passed : Option Bool
  pub should_rollback : Option Bool
  pub reason : Option Text
  pub metrics : ℕ

-- The activities and the senders of signals. An activity that raises has no reply, nor
-- has a timer or a condition whose wait is cancelled; the signals are those handled before the
-- awaited call resumes.
pub record World : Type 0 where
  pub reply : List Command → Option Reply
  pub signals : List Command → List Signal

abbrev pub or_else {ℓ} : {A : Type ℓ} → Option A → A → A
or_else none a = a
or_else (some b) a = b

-- `reason or RollbackReason.MANUAL`
abbrev pub or_manual : Text → Text
or_manual [] = manual
or_manual (c ∷ t) = c ∷ t

abbrev pub resolve_stage : ℕ → DeploymentStage
resolve_stage pct =
    if leb pct 5
    then canary_5
    else if leb pct 25
    then rollout_25
    else if leb pct 50
    then rollout_50
    else rollout_100
