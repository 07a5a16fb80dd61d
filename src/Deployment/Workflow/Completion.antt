-- ===== src/Deployment/Workflow/Completion.antt =====
-- What a deployment (workflows.py) has done when it ends.
use architect.Common.{
  ℕ, ◌+◌, ◌≤◌, ◌≡◌, refl, ◌⊎◌, inl, inr, false, ◌||◌, Option, none, some, List, [], ◌∷◌, ◌++◌, map,
  arith, ap, sym, subst, if◌then◌else◌, Bool-cases, ◌∙◌,
}
use mathlib.Core.List.{append-nil, append_assoc}
use architect.Common.Result.{Result, ok, err, Action, modify, branch, ◌>>◌}
use architect.Common.Text.{Text}
use architect.Common.Triple.{
  Triple, Keeps, Triple-bind, Triple-modify, Triple-weaken, Triple-branch, Triple-if, Triple-reads,
  Triple-pure, keeps_rules,
}
use architect.Deployment.Models.{
  DeploymentStage, completed, staging_stage, Params, World, or_else, RolloutStep, WorkflowResult,
  awaiting_approval, smoke_testing, staging, approval_denied, smoke_test_failed, run_smoke_tests,
  request_approval, wait_approval, deploy_to_staging, collect_baseline_metrics, resolve_stage,
  run_acceptance_verification, publish_completed, verifying, verification_failed,
  publish_stage_changed,
}
use architect.Deployment.Workflow.{
  Stop, Workflow, execute, do_rollback, do_requested_rollback, monitor, complete, verify, next_step,
  complete_stage, rollout_step, rollout, traffic_command, enter_stage, set_status, result_of,
  is_requested,
}
use architect.Deployment.Workflow.{
  new, run, smoke_test, approval_gate, deploy, decide, wait_for_signal, is_denied, needs_approval,
}
use architect.Deployment.Workflow.Progress.{
  slept, unrolled, healthy, step_stage, step_minimum, total_minimum, IsGoing, HasCompleted,
  HasRolledBack, Ended, Undone, Watched, awaited-IsGoing, execute-IsGoing, set_status-IsGoing,
  do_rollback-Undone, requested-Undone,
}
use architect.Deployment.Workflow.Watching.{less_time, monitor-Watched}

module _ (w : World) (p : Params) where
  over-Ended :
      (stages : List DeploymentStage) (t : ℕ) (r : Result Stop WorkflowResult) (s : Workflow)
      → Undone stages r s
      → Ended w stages t r s
  over-Ended stages t (ok r) s h = inr h
  over-Ended stages t (err e) s h = tt

  module _ (stages : List DeploymentStage) (t : ℕ) where
    complete-Ended : Triple (IsGoing w stages t) (complete w p) (Ended w stages t)
    unfolding complete
    complete-Ended =
        Triple-bind {R = λ _. IsGoing w stages t}
          (modify (set_status completed) >> execute w p publish_completed) _
          (search (keeps_rules, set_status-IsGoing, execute-IsGoing))
          (λ _.
            Triple-reads (λ s. ok (result_of p.deployment_id completed none s))
              λ s h. inl (record {
                status_eq = refl;
                reason_eq = refl;
                stages_eq = h.stages_eq;
                is_unrolled = h.is_unrolled;
                is_healthy = h.is_healthy;
                slept_le = h.slept_le;
              }))
          (λ e s h. tt)

    verify-Ended :
        stages ++ [] ≡ stages → Triple (IsGoing w stages t) (verify w p) (Ended w stages t)
    unfolding verify
    verify-Ended split =
        Triple-bind {R = λ _. IsGoing w stages t}
          (modify (set_status verifying) >> execute w p run_acceptance_verification) _
          (search (keeps_rules, set_status-IsGoing, execute-IsGoing))
          (λ verification.
            Triple-if (or_else verification.passed false) (complete w p)
              (do_rollback w p verification_failed) (λ _. complete-Ended)
              (λ _.
                Triple-weaken _ (λ s h. h) (over-Ended stages t)
                  (do_rollback-Undone w p stages stages [] t split verification_failed)))
          (λ e s h. tt)

  enter-IsGoing :
      (finished : List DeploymentStage) (t pct : ℕ)
      → Keeps (IsGoing w finished t) (modify (enter_stage pct) >> execute w p (traffic_command pct))
  enter-IsGoing finished t pct =
      Triple-modify {P' = IsGoing w finished t} (enter_stage pct)
        (execute w p (traffic_command pct))
        (λ s h. record {
          stages_eq = h.stages_eq;
          is_unrolled = h.is_unrolled;
          is_healthy = h.is_healthy;
          slept_le = h.slept_le;
        })
        (execute-IsGoing w p finished t (traffic_command pct) (ground arith) (ground arith))

  next_step-Ended :
      (step : RolloutStep) (next : Action Workflow Stop WorkflowResult)
      (stages finished : List DeploymentStage) (t u : ℕ)
      → Triple
          (IsGoing w (finished ++ step_stage step ∷ []) (t + step_minimum step))
          next
          (Ended w stages u)
      → (over : Option WorkflowResult)
      → Triple
          (Watched w stages finished (t + step_minimum step) (ok over))
          (next_step w p (step_stage step) next over)
          (Ended w stages u)
  next_step-Ended step next stages finished t u h none =
      Triple-modify {P' = IsGoing w (finished ++ step_stage step ∷ []) (t + step_minimum step)}
        (complete_stage (step_stage step)) next
        (λ s k. record {
          stages_eq = ap (λ l. l ++ step_stage step ∷ []) k.stages_eq;
          is_unrolled = k.is_unrolled;
          is_healthy = k.is_healthy;
          slept_le = k.slept_le;
        })
        h
  next_step-Ended step next stages finished t u h (some r) = Triple-pure r (λ s k. inr k)

  rollout_step-Ended :
      (fuel baseline : ℕ) (step : RolloutStep) (next : Action Workflow Stop WorkflowResult)
      (stages finished ahead : List DeploymentStage) (t u : ℕ)
      → finished ++ step_stage step ∷ ahead ≡ stages
      → Triple
          (IsGoing w (finished ++ step_stage step ∷ []) (t + step_minimum step))
          next
          (Ended w stages u)
      → Triple (IsGoing w finished t) (rollout_step w p fuel baseline step next) (Ended w stages u)
  unfolding rollout_step
  rollout_step-Ended fuel baseline step next stages finished ahead t u split h =
      let pct = or_else step.traffic_pct 100 in
      let interval = or_else step.health_check_interval_seconds 30 in
      Triple-bind {R = λ _. IsGoing w finished t}
        (modify (enter_stage pct) >> execute w p (traffic_command pct)) _
        (enter-IsGoing finished t pct)
        (λ _.
          Triple-bind {R = λ _. IsGoing w finished t}
            (execute w p (publish_stage_changed (resolve_stage pct) pct)) _
            (execute-IsGoing w p finished t (publish_stage_changed (resolve_stage pct) pct) refl
              refl)
            (λ _.
              Triple-bind (monitor w p fuel interval (step_minimum step) baseline 0)
                (next_step w p (resolve_stage pct) next)
                (Triple-weaken _ (λ s k. less_time w p (t + 0) t s (omega arith) k) (λ r s k. k)
                  (monitor-Watched w p stages finished (step_stage step ∷ ahead) split fuel interval
                    (step_minimum step) baseline 0 t))
                (next_step-Ended step next stages finished t u h) (λ e s k. tt))
            (λ e s k. tt))
        (λ e s k. tt)

  rollout-Ended :
      (fuel baseline : ℕ) (steps : List RolloutStep) (stages finished : List DeploymentStage)
      (t u : ℕ)
      → finished ++ map step_stage steps ≡ stages
      → u ≤ t + total_minimum steps
      → Triple (IsGoing w finished t) (rollout w p fuel baseline steps) (Ended w stages u)
  unfolding rollout
  rollout-Ended fuel baseline [] stages finished t u split le =
      let all : finished ≡ stages = sym (append-nil finished) ∙ split in
      Triple-weaken _
        (λ s h. less_time w p u t s (omega (arith, le)) (subst (λ l. IsGoing w l t s) all h))
        (λ r s h. h) (verify-Ended stages u (append-nil stages))
  rollout-Ended fuel baseline (step ∷ steps) stages finished t u split le =
      let next = rollout w p fuel baseline steps in
      Triple-branch is_requested (do_requested_rollback w p)
        (rollout_step w p fuel baseline step next)
        (Triple-weaken _ (λ s h. h.0) (over-Ended stages u)
          (requested-Undone w p stages finished (step_stage step ∷ map step_stage steps) t split))
        (Triple-weaken _ (λ s h. h.0) (λ r s h. h)
          (rollout_step-Ended fuel baseline step next stages finished (map step_stage steps) t u
            split
            (rollout-Ended fuel baseline steps stages (finished ++ step_stage step ∷ [])
              (t + step_minimum step) u
              (append_assoc finished (step_stage step ∷ []) (map step_stage steps) ∙ split)
              (omega (arith, le)))))

  abbrev planned : List DeploymentStage
  planned = staging_stage ∷ map step_stage p.rollout_steps

  abbrev Going : Workflow → Type 0
  Going = IsGoing w (staging_stage ∷ []) 0

  abbrev Over : Result Stop WorkflowResult → Workflow → Type 0
  Over = Ended w planned (total_minimum p.rollout_steps)

  undo-Over : (reason : Text) → Triple Going (do_rollback w p reason) Over
  undo-Over reason =
      Triple-weaken _ (λ s h. h) (over-Ended planned (total_minimum p.rollout_steps))
        (do_rollback-Undone w p planned (staging_stage ∷ []) (map step_stage p.rollout_steps) 0 refl
          reason)

  requested-Over : Triple Going (do_requested_rollback w p) Over
  requested-Over =
      Triple-weaken _ (λ s h. h) (over-Ended planned (total_minimum p.rollout_steps))
        (requested-Undone w p planned (staging_stage ∷ []) (map step_stage p.rollout_steps) 0 refl)

  deploy-Over : (fuel : ℕ) → Triple Going (deploy w p fuel) Over
  unfolding deploy
  deploy-Over fuel =
      Triple-bind {R = λ _. Going} (execute w p collect_baseline_metrics) _
        (execute-IsGoing w p (staging_stage ∷ []) 0 collect_baseline_metrics refl refl)
        (λ baseline.
          rollout-Ended fuel baseline.metrics p.rollout_steps planned (staging_stage ∷ []) 0
            (total_minimum p.rollout_steps) refl (omega arith))
        (λ e s h. tt)

  decide-Over : (fuel : ℕ) → Triple Going (decide w p fuel) Over
  decide-Over fuel =
      Triple-branch is_requested (do_requested_rollback w p)
        (branch is_denied (do_rollback w p approval_denied) (deploy w p fuel))
        (Triple-weaken _ (λ s h. h.0) (λ r s h. h) requested-Over)
        (Triple-branch is_denied (do_rollback w p approval_denied) (deploy w p fuel)
          (Triple-weaken _ (λ s h. h.0.0) (λ r s h. h) (undo-Over approval_denied))
          (Triple-weaken _ (λ s h. h.0.0) (λ r s h. h) (deploy-Over fuel)))

  wait-Going : Keeps Going (wait_for_signal w p)
  unfolding wait_for_signal
  wait-Going = record {
    at = λ s h. elim (Bool-cases (s.approval_received || s.rollback_requested)) [
      | inl e ↦ rw e h
      | inr e ↦
          rw e
            (awaited-IsGoing w p (staging_stage ∷ []) 0 0 wait_approval s refl refl (omega arith) h)
    ];
  }

  approval_gate-Over : (fuel : ℕ) → Triple Going (approval_gate w p fuel) Over
  unfolding approval_gate
  approval_gate-Over fuel =
      Triple-bind {R = λ _. Going}
        (modify (set_status awaiting_approval) >> execute w p request_approval) _
        (search (keeps_rules, set_status-IsGoing, execute-IsGoing))
        (λ _.
          Triple-bind {R = λ _. Going} (wait_for_signal w p) _ wait-Going
            (λ b.
              Triple-if b (decide w p fuel) (do_rollback w p approval_denied)
                (λ _. decide-Over fuel) (λ _. undo-Over approval_denied))
            (λ e s h. tt))
        (λ e s h. tt)

  smoke_test-Over : (fuel : ℕ) → Triple Going (smoke_test w p fuel) Over
  unfolding smoke_test
  smoke_test-Over fuel =
      Triple-bind {R = λ _. Going}
        (modify (set_status smoke_testing) >> execute w p run_smoke_tests) _
        (search (keeps_rules, set_status-IsGoing, execute-IsGoing))
        (λ smoke.
          Triple-if (or_else smoke.passed false)
            (if needs_approval p then approval_gate w p fuel else deploy w p fuel)
            (do_rollback w p smoke_test_failed)
            (λ _.
              Triple-if (needs_approval p) (approval_gate w p fuel) (deploy w p fuel)
                (λ _. approval_gate-Over fuel) (λ _. deploy-Over fuel))
            (λ _. undo-Over smoke_test_failed))
        (λ e s h. tt)

  run-Over : (fuel : ℕ) → Triple (IsGoing w [] 0) (run w p fuel) Over
  unfolding run
  run-Over fuel =
      Triple-modify {P' = IsGoing w [] 0}
        (λ s. record s { current_status = staging; current_stage = some staging_stage }) _
        (λ s h. record {
          stages_eq = h.stages_eq;
          is_unrolled = h.is_unrolled;
          is_healthy = h.is_healthy;
          slept_le = h.slept_le;
        })
        (Triple-bind {R = λ _. IsGoing w [] 0} (execute w p deploy_to_staging) _
          (execute-IsGoing w p [] 0 deploy_to_staging refl refl)
          (λ deployed.
            Triple-if (or_else deployed.success false)
              (modify (complete_stage staging_stage) >> smoke_test w p fuel)
              (do_rollback w p smoke_test_failed)
              (λ _.
                Triple-modify {P' = Going} (complete_stage staging_stage) (smoke_test w p fuel)
                  (λ s h. record {
                    stages_eq = ap (λ l. l ++ staging_stage ∷ []) h.stages_eq;
                    is_unrolled = h.is_unrolled;
                    is_healthy = h.is_healthy;
                    slept_le = h.slept_le;
                  })
                  (smoke_test-Over fuel))
              (λ _.
                Triple-weaken _ (λ s h. h) (over-Ended planned (total_minimum p.rollout_steps))
                  (do_rollback-Undone w p planned [] planned 0 refl smoke_test_failed)))
          (λ e s h. tt))

  -- A run that returns has either completed: every stage of the plan is behind, at least the sum of
  -- their minimum durations was slept, no health check asked for a rollback and none was carried out;
  -- or it was rolled back: exactly one rollback was carried out, which and whose event come last, and
  -- the stages behind are the first of the plan.
  pub run-Ended :
      (fuel : ℕ) (r : WorkflowResult)
      → (run w p fuel new).0 ≡ ok r
      → HasCompleted w
          (staging_stage ∷ map step_stage p.rollout_steps)
          (total_minimum p.rollout_steps)
          r
          (run w p fuel new).1
        ⊎ HasRolledBack (staging_stage ∷ map step_stage p.rollout_steps) r (run w p fuel new).1
  unfolding slept unrolled healthy
  run-Ended fuel r e =
      let over = (run-Over fuel).at new (record {
        stages_eq = refl;
        is_unrolled = refl;
        is_healthy = refl;
        slept_le = omega arith;
      }) in
      subst (λ o. Over o (run w p fuel new).1) e over
