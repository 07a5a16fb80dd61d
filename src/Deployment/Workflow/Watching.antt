-- ===== src/Deployment/Workflow/Watching.antt =====
-- What the health monitoring of a deployment (workflows.py) comes to.
use architect.Common.{
  ℕ, zero, suc, ◌+◌, ◌≤◌, ◌≡◌, refl, true, false, Option, none, some, List, ◌∷◌, ◌++◌, arith, sym,
  subst, if◌then◌else◌, ltb, ◌∙◌,
}
use architect.Common.Result.{ok, Action, pure, branch, raise, ◌>>=◌}
use architect.Common.Triple.{
  Triple, Triple-bind, Triple-weaken, Triple-branch, Triple-if, Triple-pure,
}
use architect.Deployment.Models.{
  DeploymentStage, Params, Command, check_rollback_criteria, collect_health_metrics, Reply, World,
  or_else, WorkflowResult, error_rate_exceeded,
}
use architect.Deployment.Workflow.{
  out_of_fuel, Stop, Workflow, execute, pause, do_rollback, returned, do_requested_rollback,
  health_check, monitor, is_requested,
}
use architect.Deployment.Workflow.Gates.{says-replied, awaited-log}
use architect.Deployment.Workflow.Progress.{
  is_rollback, should_rollback_of, unrolled, IsGoing, Watched, do_rollback-HasRolledBack,
  awaited-stages, awaited-IsGoing, execute-IsGoing, pause-IsGoing, requested-Undone,
  returned-Watched,
}

module _ (w : World) (p : Params) where
  pub less_time :
      {finished : List DeploymentStage} (u t : ℕ) (s : Workflow)
      → u ≤ t
      → IsGoing w finished t s
      → IsGoing w finished u s
  less_time u t s le h = record {
    stages_eq = h.stages_eq;
    is_unrolled = h.is_unrolled;
    is_healthy = h.is_healthy;
    slept_le = omega (arith, le, h.slept_le);
  }

  module _ (stages finished ahead : List DeploymentStage) (split : finished ++ ahead ≡ stages) where
    answered-IsGoing :
        (t : ℕ) (c : Command)
        → is_rollback c ≡ false
        → Triple (IsGoing w finished t) (execute w p c) (λ r s.
          ((s.stages_completed ≡ finished) × (unrolled s.log ≡ true))
          × ((a : Reply)
              → r ≡ ok a
              → or_else a.should_rollback false ≡ false
              → IsGoing w finished t s))
    unfolding execute unrolled
    answered-IsGoing t c forward = record {
      at = λ s h.
          let same = awaited-log w p c s in
          (
            (
              awaited-stages w p c s ∙ h.stages_eq,
              subst (λ log. unrolled log ≡ true) (sym same)
                  (ground (arith, forward, h.is_unrolled)),
            ),
            λ a e fine.
                awaited-IsGoing w p finished t t c s forward
                  (ground (arith, says-replied should_rollback_of (w.reply (c ∷ s.log)) a e, fine))
                  (omega arith) h,
          );
    }

    check-IsGoing :
        (t health baseline : ℕ) (again : Action Workflow Stop (Option WorkflowResult)) (u : ℕ)
        → Triple (IsGoing w finished t) again (Watched w stages finished u)
        → Triple
            (IsGoing w finished t)
            (execute w p (check_rollback_criteria health baseline) >>= λ verdict.
              if or_else verdict.should_rollback false
              then returned w p (do_rollback w p (or_else verdict.reason error_rate_exceeded))
              else again)
            (Watched w stages finished u)
    check-IsGoing t health baseline again u h =
        Triple-bind (execute w p (check_rollback_criteria health baseline)) _
          (answered-IsGoing t (check_rollback_criteria health baseline) refl)
          (λ verdict.
            Triple-if (or_else verdict.should_rollback false)
              (returned w p (do_rollback w p (or_else verdict.reason error_rate_exceeded))) again
              (λ _.
                Triple-weaken _ (λ s k. k.0) (λ r s k. k)
                  (Triple-bind (do_rollback w p (or_else verdict.reason error_rate_exceeded)) _
                    (do_rollback-HasRolledBack w p stages finished ahead
                      (or_else verdict.reason error_rate_exceeded) split)
                    (λ r. Triple-pure (some r) (λ s k. k)) (λ e s k. tt)))
              (λ n. Triple-weaken _ (λ s k. k.1 verdict refl n) (λ r s k. k) h))
          (λ e s k. tt)

    health_check-Watched :
        (t interval baseline u : ℕ) (again : Action Workflow Stop (Option WorkflowResult))
        → Triple (IsGoing w finished (t + interval)) again (Watched w stages finished u)
        → Triple
            (IsGoing w finished t)
            (health_check w p interval baseline again)
            (Watched w stages finished u)
    unfolding health_check
    health_check-Watched t interval baseline u again h =
        Triple-bind (pause w p interval) _ (pause-IsGoing w p finished t interval)
          (λ _.
            Triple-bind {R = λ _. IsGoing w finished (t + interval)}
              (execute w p collect_health_metrics) _
              (execute-IsGoing w p finished (t + interval) collect_health_metrics refl refl)
              (λ health. check-IsGoing (t + interval) health.metrics baseline again u h)
              (λ e s k. tt))
          (λ e s k. tt)

    pub monitor-Watched :
        (fuel interval minimum baseline elapsed t : ℕ)
        → Triple
            (IsGoing w finished (t + elapsed))
            (monitor w p fuel interval minimum baseline elapsed)
            (Watched w stages finished (t + minimum))
    unfolding monitor
    monitor-Watched zero interval minimum baseline elapsed t =
        Triple-if (ltb elapsed minimum) (raise out_of_fuel) (pure none)
          (λ _. record { at = λ s h. tt })
          (λ e.
            Triple-pure none (λ s h. less_time (t + minimum) (t + elapsed) s (ground (arith, e)) h))
    monitor-Watched (suc fuel) interval minimum baseline elapsed t =
        let again = monitor w p fuel interval minimum baseline (elapsed + interval) in
        Triple-if (ltb elapsed minimum)
          (branch is_requested (returned w p (do_requested_rollback w p))
            (health_check w p interval baseline again))
          (pure none)
          (λ _.
            Triple-branch is_requested (returned w p (do_requested_rollback w p))
              (health_check w p interval baseline again)
              (Triple-weaken _ (λ s h. h.0) (λ r s h. h)
                (returned-Watched w p stages finished ahead (t + elapsed) split
                  (do_requested_rollback w p) (t + minimum)
                  (requested-Undone w p stages finished ahead (t + elapsed) split)))
              (Triple-weaken _ (λ s h. h.0) (λ r s h. h)
                (health_check-Watched (t + elapsed) interval baseline (t + minimum) again (
                  Triple-weaken _
                    (λ s h.
                      less_time (t + (elapsed + interval)) (t + elapsed + interval) s (omega arith)
                        h)
                    (λ r s h. h)
                    (monitor-Watched fuel interval minimum baseline (elapsed + interval) t)))))
          (λ e.
            Triple-pure none (λ s h. less_time (t + minimum) (t + elapsed) s (ground (arith, e)) h))
