-- ===== src/Deployment/Workflow/Termination.antt =====
-- How long the loops of a deployment (workflows.py) run.
use architect.Common.{
  ℕ, zero, suc, ◌+◌, ◌≤◌, ◌<◌, ◌≡◌, refl, ◌≢◌, Bool, true, false, Option, none, some, List, [], ◌∷◌,
  All, arith, if◌then◌else◌, ltb, ◌||◌, Bool-cases, inl, inr,
}
use architect.Common.Result.{
  Result, ok, err, Action, pure, modify, reads, branch, raise, resume, ◌>>=◌, ◌>>◌,
}
use architect.Common.Text.{Text}
use architect.Deployment.Models.{
  Params, Command, Reply, World, or_else, RolloutStep, WorkflowResult, resolve_stage,
  publish_stage_changed, DeploymentStage, sleep, wait_approval,
}
use architect.Deployment.Workflow.{
  Stop, out_of_fuel, Workflow, new, replied, execute, pause, do_rollback, returned,
  do_requested_rollback, health_check, monitor, complete, verify, next_step, rollout_step, rollout,
  deploy, wait_for_signal, approval_gate, smoke_test, run, enter_stage, traffic_command,
  is_requested, unless_cancelled, awaited,
}

-- `m` never runs out of fuel.
pub record Ends {A : Type 0} (m : Action Workflow Stop A) : Type 0 where
  pub at : (s : Workflow) → (m s).0 ≢ err out_of_fuel

module _ {A B : Type 0} where
  Ends-resume :
      (r : Result Stop A) (f : A → Action Workflow Stop B) (s : Workflow)
      → r ≢ err out_of_fuel
      → ((a : A) → Ends (f a))
      → (resume r f s).0 ≢ err out_of_fuel
  Ends-resume (ok a) f s h k = (k a).at s
  Ends-resume (err e) f s h k = λ q. h (err_eq q)
    where
      err_eq :
          {C D : Type 0} {e e' : Stop}
          → ◌≡◌ {A = Result Stop C} (err e) (err e')
          → ◌≡◌ {A = Result Stop D} (err e) (err e')
      err_eq q = cc

  Ends-bind :
      (m : Action Workflow Stop A) (f : A → Action Workflow Stop B)
      → Ends m
      → ((a : A) → Ends (f a))
      → Ends (m >>= f)
  Ends-bind m f h k = record { at = λ s. Ends-resume (m s).0 f (m s).1 (h.at s) k }

module _ {A B : Type 0} where
  Ends-then :
      (m : Action Workflow Stop A) (n : Action Workflow Stop B) → Ends m → Ends n → Ends (m >> n)
  Ends-then m n h k = Ends-bind m (λ _. n) h (λ _. k)

module _ {A : Type 0} where
  Ends-pure : (a : A) → Ends (pure a)
  Ends-pure a = record { at = λ s q. cc }

  Ends-reads : (f : Workflow → A) → Ends (reads (λ s. ok (f s)))
  Ends-reads f = record { at = λ s q. cc }

  Ends-if :
      (b : Bool) (m n : Action Workflow Stop A)
      → (b ≡ true → Ends m)
      → (b ≡ false → Ends n)
      → Ends (if b then m else n)
  Ends-if true m n h k = h refl
  Ends-if false m n h k = k refl

  Ends-branch :
      (test : Workflow → Bool) (m n : Action Workflow Stop A)
      → Ends m
      → Ends n
      → Ends (branch test m n)
  Ends-branch test m n h k = record { at = λ s. (Ends-if (test s) m n (λ _. h) (λ _. k)).at s }

Ends-modify : (f : Workflow → Workflow) → Ends (modify f)
Ends-modify f = record { at = λ s q. cc }

ruleset ends_rules =
    (Ends-bind, Ends-then, Ends-pure, Ends-reads, Ends-if, Ends-branch, Ends-modify)

-- The fuel covers the seconds to watch, and the health checks are apart.
abbrev pub Fits : ℕ → RolloutStep → Type 0
Fits fuel step =
    (0 < or_else step.health_check_interval_seconds 30)
    × (or_else step.min_duration_seconds 300 ≤ fuel)

module _ (w : World) (p : Params) where
  execute-Ends : (c : Command) → Ends (execute w p c)
  unfolding execute
  execute-Ends c = record { at = λ s. replied_ends (w.reply (c ∷ s.log)) }
    where
      replied_ends : (o : Option Reply) → replied o ≢ err out_of_fuel
      replied_ends none q = cc
      replied_ends (some r) q = cc

  unless_cancelled-ends :
      {A : Type 0} (o : Option Reply) (a : A) → unless_cancelled o a ≢ err out_of_fuel
  unless_cancelled-ends none a q = cc
  unless_cancelled-ends (some r) a q = cc

  pause-Ends : (n : ℕ) → Ends (pause w p n)
  unfolding pause
  pause-Ends n = record { at = λ s. unless_cancelled-ends (w.reply (sleep n ∷ s.log)) tt }

  do_rollback-Ends : (reason : Text) → Ends (do_rollback w p reason)
  unfolding do_rollback
  do_rollback-Ends reason = search (ends_rules, execute-Ends) depth 12

  do_requested_rollback-Ends : Ends (do_requested_rollback w p)
  unfolding do_requested_rollback
  do_requested_rollback-Ends = search (ends_rules, do_rollback-Ends) depth 12

  health_check-Ends :
      (interval baseline : ℕ) (again : Action Workflow Stop (Option WorkflowResult))
      → Ends again
      → Ends (health_check w p interval baseline again)
  unfolding health_check
  health_check-Ends interval baseline again h =
      search (ends_rules, execute-Ends, pause-Ends, do_rollback-Ends) depth 12

  monitor-Ends :
      (fuel interval minimum baseline elapsed : ℕ)
      → 0 < interval
      → minimum ≤ fuel + elapsed
      → Ends (monitor w p fuel interval minimum baseline elapsed)
  unfolding monitor
  monitor-Ends zero interval minimum baseline elapsed apart le =
      Ends-if (ltb elapsed minimum) (raise out_of_fuel) (pure none) (λ e. ground (arith, e))
        (λ _. Ends-pure none)
  monitor-Ends (suc fuel) interval minimum baseline elapsed apart le =
      let again = monitor w p fuel interval minimum baseline (elapsed + interval) in
      Ends-if (ltb elapsed minimum)
        (branch is_requested (returned w p (do_requested_rollback w p))
          (health_check w p interval baseline again))
        (pure none)
        (λ _.
          Ends-branch is_requested (returned w p (do_requested_rollback w p))
            (health_check w p interval baseline again)
            (Ends-bind (do_requested_rollback w p) _ do_requested_rollback-Ends
              (λ r. Ends-pure (some r)))
            (health_check-Ends interval baseline again (
              monitor-Ends fuel interval minimum baseline (elapsed + interval) apart
                (omega (arith, apart, le)))))
        (λ _. Ends-pure none)

  complete-Ends : Ends (complete w p)
  unfolding complete
  complete-Ends = search (ends_rules, execute-Ends)

  verify-Ends : Ends (verify w p)
  unfolding verify
  verify-Ends = search (ends_rules, execute-Ends, complete-Ends, do_rollback-Ends)

  next_step-Ends :
      (stage : DeploymentStage) (next : Action Workflow Stop WorkflowResult)
      → Ends next
      → (over : Option WorkflowResult) → Ends (next_step w p stage next over)
  next_step-Ends stage next h none = search ends_rules
  next_step-Ends stage next h (some r) = Ends-pure r

  rollout_step-Ends :
      (fuel baseline : ℕ) (step : RolloutStep) (next : Action Workflow Stop WorkflowResult)
      → Fits fuel step
      → Ends next
      → Ends (rollout_step w p fuel baseline step next)
  unfolding rollout_step
  rollout_step-Ends fuel baseline step next fits h =
      let pct = or_else step.traffic_pct 100 in
      let interval = or_else step.health_check_interval_seconds 30 in
      let minimum = or_else step.min_duration_seconds 300 in
      Ends-bind (modify (enter_stage pct)) _ (Ends-modify (enter_stage pct)) λ _.
        Ends-bind (execute w p (traffic_command pct)) _ (execute-Ends (traffic_command pct)) λ _.
          Ends-bind (execute w p (publish_stage_changed (resolve_stage pct) pct)) _ (execute-Ends _)
            λ _.
              Ends-bind (monitor w p fuel interval minimum baseline 0) _
                (monitor-Ends fuel interval minimum baseline 0 fits.0 (omega (arith, fits.1)))
                (next_step-Ends (resolve_stage pct) next h)

  rollout-Ends :
      (fuel baseline : ℕ) (steps : List RolloutStep)
      → All (Fits fuel) steps
      → Ends (rollout w p fuel baseline steps)
  unfolding rollout
  rollout-Ends fuel baseline [] h = verify-Ends
  rollout-Ends fuel baseline (step ∷ steps) h =
      Ends-branch is_requested (do_requested_rollback w p)
        (rollout_step w p fuel baseline step (rollout w p fuel baseline steps))
        do_requested_rollback-Ends
        (rollout_step-Ends fuel baseline step (rollout w p fuel baseline steps) h.0
          (rollout-Ends fuel baseline steps h.1))

  deploy-Ends : (fuel : ℕ) → All (Fits fuel) p.rollout_steps → Ends (deploy w p fuel)
  unfolding deploy
  deploy-Ends fuel h = search (ends_rules, execute-Ends, rollout-Ends)

  wait_for_signal-Ends : Ends (wait_for_signal w p)
  unfolding wait_for_signal
  wait_for_signal-Ends = record {
    at = λ s. elim (Bool-cases (s.approval_received || s.rollback_requested)) [
      | inl e ↦ rw e (λ q. cc)
      | inr e ↦ rw e (
          let s' = awaited w p wait_approval s in
          unless_cancelled-ends (w.reply (wait_approval ∷ s.log))
            (s'.approval_received || s'.rollback_requested))
    ];
  }

  approval_gate-Ends : (fuel : ℕ) → All (Fits fuel) p.rollout_steps → Ends (approval_gate w p fuel)
  unfolding approval_gate
  approval_gate-Ends fuel h =
      search
        (
          ends_rules, execute-Ends, wait_for_signal-Ends, do_requested_rollback-Ends,
          do_rollback-Ends, deploy-Ends,
        )
        depth 12

  smoke_test-Ends : (fuel : ℕ) → All (Fits fuel) p.rollout_steps → Ends (smoke_test w p fuel)
  unfolding smoke_test
  smoke_test-Ends fuel h =
      search (ends_rules, execute-Ends, approval_gate-Ends, do_rollback-Ends, deploy-Ends) depth 12

  run-Ends : (fuel : ℕ) → All (Fits fuel) p.rollout_steps → Ends (run w p fuel)
  unfolding run
  run-Ends fuel h = search (ends_rules, execute-Ends, smoke_test-Ends, do_rollback-Ends) depth 12

  -- If the health checks of each step are some seconds apart, and the fuel is at least its minimum
  -- duration, the workflow ends: it returns, or a cancellation or an activity's error leaves it.
  pub run_ends :
      (fuel : ℕ) → All (Fits fuel) p.rollout_steps → (run w p fuel new).0 ≢ err out_of_fuel
  run_ends fuel h = (run-Ends fuel h).at new
