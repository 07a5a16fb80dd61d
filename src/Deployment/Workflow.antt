-- ===== src/Deployment/Workflow.antt =====
-- `DeploymentWorkflow`, services/deployment-pipeline/src/deployment_pipeline/temporal/workflows.py.
-- What is awaited is put on a log, the latest first, and the surroundings answer by the log.
pub mod Gates
pub mod Sound
pub mod Safety
pub mod Progress
pub mod Watching
pub mod Completion
pub mod Termination
use architect.Common.{
  ℕ, zero, suc, ◌+◌, Bool, true, false, not, ◌||◌, Option, none, some, List, [], ◌∷◌, ◌++◌, ltb,
  leb, if◌then◌else◌,
}
use architect.Common.Result.{
  Result, ok, err, Action, branch, pure, raise, reads, modify, ◌>>=◌, ◌>>◌,
}
use architect.Common.Text.{Text, codes, text_beq}
use architect.Deployment.Models.{
  DeploymentStatus, pending, staging, smoke_testing, awaiting_approval, canary, rolling_out,
  verifying, completed, rolled_back, DeploymentStage, staging_stage, smoke_test_failed,
  error_rate_exceeded, verification_failed, manual, approval_denied, RolloutStep, Params,
  WorkflowResult, Signal, approval, rollback_request, Command, deploy_to_staging, run_smoke_tests,
  request_approval, wait_approval, collect_baseline_metrics, deploy_canary, set_traffic,
  publish_stage_changed, sleep, collect_health_metrics, check_rollback_criteria,
  run_acceptance_verification, publish_completed, rollback, publish_rolled_back, Reply, World,
  or_else, or_manual, resolve_stage,
}

-- An activity's error leaves the workflow, and so does a cancellation of what is awaited. Fuel is the
-- model's own.
pub data Stop : Type 0 where
  activity_error cancelled out_of_fuel : Stop

pub record Workflow : Type 0 where
  pub approval_received : Bool
  pub approval_decision : Text
  pub rollback_requested : Bool
  pub rollback_reason : Text
  pub current_status : DeploymentStatus
  pub current_stage : Option DeploymentStage
  pub current_traffic_pct : ℕ
  pub stages_completed : List DeploymentStage
  pub log : List Command

-- `__init__`
abbrev pub new : Workflow
new = record {
  approval_received = false;
  approval_decision = codes "pending";
  rollback_requested = false;
  rollback_reason = [];
  current_status = pending;
  current_stage = none;
  current_traffic_pct = 0;
  stages_completed = [];
  log = [];
}

-- The handlers of the signals.
abbrev pub handle : Signal → Workflow → Workflow
handle (approval decision) s = record s {
  approval_received = true;
  approval_decision = or_else decision (codes "approved");
}
handle (rollback_request reason) s = record s {
  rollback_requested = true;
  rollback_reason = or_else reason manual;
}

abbrev pub handle_all : List Signal → Workflow → Workflow
handle_all [] s = s
handle_all (signal ∷ rest) s = handle_all rest (handle signal s)

abbrev pub M : Type 0 → Type 0
M A = Action Workflow Stop A

abbrev pub replied : Option Reply → Result Stop Reply
replied none = err activity_error
replied (some r) = ok r

-- What a timer or a condition is awaited for, unless the wait is cancelled.
abbrev pub unless_cancelled : {A : Type 0} → Option Reply → A → Result Stop A
unless_cancelled none a = err cancelled
unless_cancelled (some r) a = ok a

abbrev pub needs_approval : Params → Bool
needs_approval p = p.first_deploy_requires_human || ltb p.confidence p.auto_approve_threshold

abbrev pub set_status : DeploymentStatus → Workflow → Workflow
set_status status s = record s { current_status = status }

abbrev pub complete_stage : DeploymentStage → Workflow → Workflow
complete_stage stage s = record s { stages_completed = s.stages_completed ++ stage ∷ [] }

abbrev pub is_requested : Workflow → Bool
is_requested s = s.rollback_requested

abbrev pub is_denied : Workflow → Bool
is_denied s = text_beq s.approval_decision (codes "denied")

abbrev pub result_of : Text → DeploymentStatus → Option Text → Workflow → WorkflowResult
result_of id status reason s = record {
  deployment_id = id;
  status = status;
  rollback_reason = reason;
  stages_completed = s.stages_completed;
}

abbrev pub traffic_command : ℕ → Command
traffic_command pct = if leb pct 5 then deploy_canary pct else set_traffic pct

abbrev pub enter_stage : ℕ → Workflow → Workflow
enter_stage pct s = record s {
  current_stage = some (resolve_stage pct);
  current_traffic_pct = pct;
  current_status = if leb pct 5 then canary else rolling_out;
}

module _ (w : World) (p : Params) where
  abbrev pub awaited : Command → Workflow → Workflow
  awaited c s = handle_all (w.signals (c ∷ s.log)) (record s { log = c ∷ s.log })

  -- `workflow.execute_activity`
  unfoldable pub execute : Command → M Reply
  execute c s = (replied (w.reply (c ∷ s.log)), awaited c s)

  -- `workflow.sleep`
  unfoldable pub pause : ℕ → M (Unit {0})
  pause seconds s =
      (unless_cancelled (w.reply (sleep seconds ∷ s.log)) tt, awaited (sleep seconds) s)

  -- `_do_rollback`
  unfoldable pub do_rollback : Text → M WorkflowResult
  do_rollback reason = do
    modify (set_status rolled_back)
    _ ← execute (rollback reason)
    stage ← reads (λ s. ok (or_else s.current_stage staging_stage))
    _ ← execute (publish_rolled_back reason stage)
    reads (λ s. ok (result_of p.deployment_id rolled_back (some reason) s))

  -- `wait_condition`: whether a signal came before the timeout.
  unfoldable pub wait_for_signal : M Bool
  wait_for_signal s =
      if s.approval_received || s.rollback_requested
      then (ok true, s)
      else let s' = awaited wait_approval s in
        (
          unless_cancelled (w.reply (wait_approval ∷ s.log))
              (s'.approval_received || s'.rollback_requested),
          s',
        )

  -- `return await self._do_rollback(...)` inside a loop.
  abbrev pub returned : M WorkflowResult → M (Option WorkflowResult)
  returned m = do r ← m; pure (some r)

  unfoldable pub do_requested_rollback : M WorkflowResult
  do_requested_rollback = do
    reason ← reads (λ s. ok s.rollback_reason)
    do_rollback (or_manual reason)

  -- A round of the health monitoring loop; `again` are the rounds after it.
  unfoldable pub health_check : ℕ → ℕ → M (Option WorkflowResult) → M (Option WorkflowResult)
  health_check interval baseline again = do
    pause interval
    health ← execute collect_health_metrics
    verdict ← execute (check_rollback_criteria health.metrics baseline)
    if or_else verdict.should_rollback false
        then returned (do_rollback (or_else verdict.reason error_rate_exceeded))
        else again

  -- The loop, from the seconds elapsed; nothing is returned when it ends by itself.
  unfoldable pub monitor : ℕ → ℕ → ℕ → ℕ → ℕ → M (Option WorkflowResult)
  monitor zero interval minimum baseline elapsed =
      if ltb elapsed minimum then raise out_of_fuel else pure none
  monitor (suc fuel) interval minimum baseline elapsed =
      let again = monitor fuel interval minimum baseline (elapsed + interval) in
      if ltb elapsed minimum
      then branch is_requested (returned do_requested_rollback)
          (health_check interval baseline again)
      else pure none

  -- Step 8.
  unfoldable pub complete : M WorkflowResult
  complete = do
    modify (set_status completed)
    _ ← execute publish_completed
    reads (λ s. ok (result_of p.deployment_id completed none s))

  -- Step 7.
  unfoldable pub verify : M WorkflowResult
  verify = do
    modify (set_status verifying)
    verification ← execute run_acceptance_verification
    if or_else verification.passed false then complete else do_rollback verification_failed

  -- What follows the monitoring of a step: an early return, or the next step.
  abbrev pub next_step :
      DeploymentStage → M WorkflowResult → Option WorkflowResult → M WorkflowResult
  next_step stage next (some r) = pure r
  next_step stage next none = do modify (complete_stage stage); next

  unfoldable pub rollout_step : ℕ → ℕ → RolloutStep → M WorkflowResult → M WorkflowResult
  rollout_step fuel baseline step next =
      let pct = or_else step.traffic_pct 100 in
      let minimum = or_else step.min_duration_seconds 300 in
      let interval = or_else step.health_check_interval_seconds 30 in
      do
        modify (enter_stage pct)
        execute (traffic_command pct)
        execute (publish_stage_changed (resolve_stage pct) pct)
        over ← monitor fuel interval minimum baseline 0
        next_step (resolve_stage pct) next over

  -- Steps 5 and 6, then the rest.
  unfoldable pub rollout : ℕ → ℕ → List RolloutStep → M WorkflowResult
  rollout fuel baseline [] = verify
  rollout fuel baseline (step ∷ steps) =
      let next = rollout fuel baseline steps in
      branch is_requested do_requested_rollback (rollout_step fuel baseline step next)

  -- Step 4, then the rest.
  unfoldable pub deploy : ℕ → M WorkflowResult
  deploy fuel = do
    baseline ← execute collect_baseline_metrics
    rollout fuel baseline.metrics p.rollout_steps

  abbrev pub decide : ℕ → M WorkflowResult
  decide fuel =
      branch is_requested do_requested_rollback
        (branch is_denied (do_rollback approval_denied) (deploy fuel))

  -- Step 3, then the rest.
  unfoldable pub approval_gate : ℕ → M WorkflowResult
  approval_gate fuel = do
    modify (set_status awaiting_approval)
    execute request_approval
    signalled ← wait_for_signal
    if signalled then decide fuel else do_rollback approval_denied

  -- Step 2, then the rest.
  unfoldable pub smoke_test : ℕ → M WorkflowResult
  smoke_test fuel = do
    modify (set_status smoke_testing)
    smoke ← execute run_smoke_tests
    if or_else smoke.passed false
        then (if needs_approval p then approval_gate fuel else deploy fuel)
        else do_rollback smoke_test_failed

  unfoldable pub run : ℕ → M WorkflowResult
  run fuel = do
    modify (λ s. record s { current_status = staging; current_stage = some staging_stage })
    deployed ← execute deploy_to_staging
    if or_else deployed.success false
        then modify (complete_stage staging_stage) >> smoke_test fuel
        else do_rollback smoke_test_failed
