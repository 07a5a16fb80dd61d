-- ===== src/Deployment/Tests.antt =====
-- The deployment workflow on small plans.
use architect.Common.{
  map, ◌≢◌, ◌⊎◌, arith, ℕ, ◌≡◌, refl, true, false, Option, none, some, List, [], ◌∷◌,
}
use architect.Common.Result.{ok, err}
use architect.Common.Text.{codes}
use architect.Deployment.Models.{
  approval_denied, RolloutStep, Params, WorkflowResult, Signal, Command, Reply, World, completed,
  rolled_back, staging_stage, canary_5, rollout_100, approval, request_approval, wait_approval,
  deploy_canary, set_traffic,
}
use architect.Deployment.Workflow.{
  out_of_fuel, cancelled, new, execute, pause, do_rollback, wait_for_signal, do_requested_rollback,
  health_check, monitor, complete, verify, rollout_step, rollout, deploy, approval_gate, smoke_test,
  run,
}
use architect.Deployment.Workflow.Safety.{run-safe}
use architect.Deployment.Workflow.Gates.{safe}
use architect.Deployment.Workflow.Progress.{step_stage, total_minimum, HasCompleted, HasRolledBack}
use architect.Deployment.Workflow.Completion.{run-Ended}
use architect.Deployment.Workflow.Termination.{run_ends}

abbrev healthy : Reply
healthy = record {
  success = some true;
  passed = some true;
  should_rollback = some false;
  reason = none;
  metrics = 7;
}

-- Every activity answers well; the approval comes with its request.
abbrev approve_when_asked : List Command → List Signal
approve_when_asked (request_approval ∷ log) = approval (some (codes "approved")) ∷ []
approve_when_asked _ = []

abbrev good_world : World
good_world = record { reply = λ log. some healthy; signals = approve_when_asked }

abbrev step : ℕ → ℕ → ℕ → RolloutStep
step pct minimum interval = record {
  traffic_pct = some pct;
  min_duration_seconds = some minimum;
  health_check_interval_seconds = some interval;
}

abbrev plan : Params
plan = record {
  deployment_id = codes "d";
  rollout_steps = step 5 7 5 ∷ step 100 5 5 ∷ [];
  confidence = 50;
  first_deploy_requires_human = true;
  auto_approve_threshold = 95;
}

program : Unit {0}
unfolding execute pause do_rollback wait_for_signal do_requested_rollback health_check monitor
    complete verify rollout_step rollout deploy approval_gate smoke_test run
program = tt

abbrev good_result : WorkflowResult
good_result = record {
  deployment_id = codes "d";
  status = completed;
  rollback_reason = none;
  stages_completed = staging_stage ∷ canary_5 ∷ rollout_100 ∷ [];
}

good_run : (run good_world plan 9 new).0 ≡ ok good_result
unfolding program
good_run = refl

-- Without an approval the deployment is rolled back when the wait times out.
silent_world : World
silent_world = record { reply = λ log. some healthy; signals = λ log. [] }

silent_run :
    (run silent_world plan 9 new).0
    ≡ ok (record {
      deployment_id = codes "d";
      status = rolled_back;
      rollback_reason = some approval_denied;
      stages_completed = staging_stage ∷ [];
    })
unfolding program silent_world
silent_run = refl

-- Only the text "denied" stops a deployment: one whose approval says "deny" completes.
abbrev deny_when_asked : List Command → List Signal
deny_when_asked (request_approval ∷ log) = approval (some (codes "deny")) ∷ []
deny_when_asked _ = []

deny_run : (run (record good_world { signals = deny_when_asked }) plan 9 new).0 ≡ ok good_result
unfolding program
deny_run = refl

-- A cancellation while the workflow waits for the approval leaves it, with no rollback.
abbrev cancelled_wait : List Command → Option Reply
cancelled_wait (wait_approval ∷ log) = none
cancelled_wait log = some healthy

cancelled_run :
    (run (record good_world { reply = cancelled_wait; signals = λ log. [] }) plan 9 new).0
    ≡ err cancelled
unfolding program
cancelled_run = refl

-- Nothing looks at the reply when traffic is sent, so that a deployment completes although traffic
-- was never moved.
abbrev no_traffic : List Command → Option Reply
no_traffic (deploy_canary pct ∷ log) = some (record healthy { success = some false })
no_traffic (set_traffic pct ∷ log) = some (record healthy { success = some false })
no_traffic log = some healthy

stuck_run : (run (record good_world { reply = no_traffic }) plan 9 new).0 ≡ ok good_result
unfolding program
stuck_run = refl

run-safe_example : safe good_world plan (run good_world plan 9 new).1.log ≡ true
run-safe_example = run-safe good_world plan 9

run-Ended_example :
    HasCompleted good_world
      (staging_stage ∷ map step_stage plan.rollout_steps)
      (total_minimum plan.rollout_steps)
      good_result
      (run good_world plan 9 new).1
    ⊎ HasRolledBack
        (staging_stage ∷ map step_stage plan.rollout_steps)
        good_result
        (run good_world plan 9 new).1
run-Ended_example = run-Ended good_world plan 9 good_result good_run

run_ends_example : (run good_world plan 9 new).0 ≢ err out_of_fuel
run_ends_example =
    run_ends good_world plan 9 ((omega arith, omega arith), ((omega arith, omega arith), tt))
