-- ===== src/Deployment/Workflow/Sound.antt =====
-- What the parts of a deployment (workflows.py) keep of its log.
use architect.Common.{
  ℕ, zero, suc, ◌≡◌, refl, Bool, false, Option, none, some, List, [], ◌∷◌, arith,
}
use architect.Common.Result.{modify, ◌>>◌, Action}
use architect.Common.Text.{Text}
use architect.Common.Triple.{
  Triple, Keeps, Keeps-bind, Triple-bind, Triple-weaken, Triple-branch, Keeps-pure, keeps_rules,
}
use architect.Deployment.Models.{
  DeploymentStage, DeploymentStatus, Params, Command, sleep, World, or_else, RolloutStep,
  WorkflowResult, publish_stage_changed, resolve_stage,
}
use architect.Deployment.Workflow.{
  Stop, Workflow, execute, pause, do_rollback, do_requested_rollback, health_check, monitor,
  complete, verify, rollout_step, rollout, is_requested, next_step, complete_stage, set_status,
  traffic_command, enter_stage,
}
use architect.Deployment.Workflow.Gates.{
  is_traffic, staged, smoked, opened, ready, IsSound, Grows, awaited-IsSound,
}

module _ (w : World) (p : Params) where
  abbrev pub Sound : (List Command → Bool) → Workflow → Type 0
  Sound g = IsSound w p g

  pub execute-Sound :
      (g : List Command → Bool) (c : Command)
      → Grows w p g
      → is_traffic c ≡ false
      → Keeps (Sound g) (execute w p c)
  unfolding execute
  execute-Sound g c grows quiet = record {
    at = λ s h. awaited-IsSound w p g g c s (grows c s.log h.reached) (ground arith) h;
  }

  pub pause-Sound : (g : List Command → Bool) (n : ℕ) → Grows w p g → Keeps (Sound g) (pause w p n)
  unfolding pause
  pause-Sound g n grows = record {
    at = λ s h.
        awaited-IsSound w p g g (sleep n) s (grows (sleep n) s.log h.reached) (ground arith) h;
  }

  pub set_status-Sound :
      (g : List Command → Bool) (status : DeploymentStatus)
      → Keeps {E = Stop} (Sound g) (modify (set_status status))
  set_status-Sound g status = record {
    at = λ s h. record { flags_eq = h.flags_eq; is_safe = h.is_safe; reached = h.reached };
  }

  pub do_rollback-Sound :
      (g : List Command → Bool) (reason : Text)
      → Grows w p g
      → Keeps (Sound g) (do_rollback w p reason)
  unfolding do_rollback
  do_rollback-Sound g reason grows = search (keeps_rules, execute-Sound, set_status-Sound) depth 12

  pub do_requested_rollback-Sound :
      (g : List Command → Bool) → Grows w p g → Keeps (Sound g) (do_requested_rollback w p)
  unfolding do_requested_rollback
  do_requested_rollback-Sound g grows = search (keeps_rules, do_rollback-Sound)

  pub health_check-Sound :
      (g : List Command → Bool) (interval baseline : ℕ)
      (again : Action Workflow Stop (Option WorkflowResult))
      → Grows w p g
      → Keeps (Sound g) again
      → Keeps (Sound g) (health_check w p interval baseline again)
  unfolding health_check
  health_check-Sound g interval baseline again grows h =
      search (keeps_rules, pause-Sound, execute-Sound, do_rollback-Sound) depth 12

  pub monitor-Sound :
      (g : List Command → Bool) (fuel interval minimum baseline elapsed : ℕ)
      → Grows w p g
      → Keeps (Sound g) (monitor w p fuel interval minimum baseline elapsed)
  unfolding monitor
  monitor-Sound g zero interval minimum baseline elapsed grows = search keeps_rules
  monitor-Sound g (suc fuel) interval minimum baseline elapsed grows =
      search (keeps_rules, do_requested_rollback-Sound, health_check-Sound, monitor-Sound g fuel)
        depth 12

  pub complete-Sound : (g : List Command → Bool) → Grows w p g → Keeps (Sound g) (complete w p)
  unfolding complete
  complete-Sound g grows = search (keeps_rules, execute-Sound, set_status-Sound)

  pub verify-Sound : (g : List Command → Bool) → Grows w p g → Keeps (Sound g) (verify w p)
  unfolding verify
  verify-Sound g grows =
      search (keeps_rules, execute-Sound, set_status-Sound, complete-Sound, do_rollback-Sound)

  pub ready-Grows : Grows w p (ready w p)
  unfolding staged smoked opened
  ready-Grows c log h = ground (arith, h)

  -- Traffic is sent after the test for a rollback.
  pub send-Sound :
      (pct : ℕ)
      → Triple
          (λ s. Sound (ready w p) s × (s.rollback_requested ≡ false))
          (modify (enter_stage pct) >> execute w p (traffic_command pct))
          (λ _. Sound (ready w p))
  unfolding execute
  send-Sound pct = record {
    at = λ s (h, off).
        awaited-IsSound w p (ready w p) (ready w p) (traffic_command pct) (enter_stage pct s)
          (ready-Grows (traffic_command pct) s.log h.reached) (λ _. ground (arith, h.reached, off))
          (record { flags_eq = h.flags_eq; is_safe = h.is_safe; reached = h.reached });
  }

  pub next_step-Sound :
      (stage : DeploymentStage) (next : Action Workflow Stop WorkflowResult)
      → Keeps (Sound (ready w p)) next
      → (over : Option WorkflowResult) → Keeps (Sound (ready w p)) (next_step w p stage next over)
  next_step-Sound stage next h none = record {
    at = λ s k.
        h.at (complete_stage stage s)
          (record { flags_eq = k.flags_eq; is_safe = k.is_safe; reached = k.reached });
  }
  next_step-Sound stage next h (some r) = Keeps-pure r

  pub rollout_step-Sound :
      (fuel baseline : ℕ) (step : RolloutStep) (next : Action Workflow Stop WorkflowResult)
      → Keeps (Sound (ready w p)) next
      → Triple
          (λ s. Sound (ready w p) s × (s.rollback_requested ≡ false))
          (rollout_step w p fuel baseline step next)
          (λ _. Sound (ready w p))
  unfolding rollout_step
  rollout_step-Sound fuel baseline step next h =
      let pct = or_else step.traffic_pct 100 in
      Triple-bind (modify (enter_stage pct) >> execute w p (traffic_command pct)) _ (send-Sound pct)
        (λ _.
          Keeps-bind _ _
            (execute-Sound (ready w p) (publish_stage_changed (resolve_stage pct) pct) ready-Grows
              refl)
            (λ _.
              Keeps-bind _ _ (monitor-Sound (ready w p) fuel _ _ baseline 0 ready-Grows)
                (λ over. next_step-Sound (resolve_stage pct) next h over)))
        (λ e s k. k)

  pub rollout-Sound :
      (fuel baseline : ℕ) (steps : List RolloutStep)
      → Keeps (Sound (ready w p)) (rollout w p fuel baseline steps)
  unfolding rollout
  rollout-Sound fuel baseline [] = verify-Sound (ready w p) ready-Grows
  rollout-Sound fuel baseline (step ∷ steps) =
      Triple-branch is_requested (do_requested_rollback w p)
        (rollout_step w p fuel baseline step (rollout w p fuel baseline steps))
        (Triple-weaken _ (λ s h. h.0) (λ r s h. h)
          (do_requested_rollback-Sound (ready w p) ready-Grows))
        (rollout_step-Sound fuel baseline step _ (rollout-Sound fuel baseline steps))
