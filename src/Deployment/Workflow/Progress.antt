-- ===== src/Deployment/Workflow/Progress.antt =====
-- How far a deployment (workflows.py) has come, by its log.
use architect.Common.{
  ℕ, ◌+◌, ◌≤◌, ◌≡◌, refl, ◌⊎◌, Bool, true, false, not, ◌&&◌, Option, none, some, List, [], ◌∷◌,
  ◌++◌, arith, ap, sym, subst, ◌∙◌,
}
use architect.Common.Result.{Result, ok, err, Action, modify, reads}
use architect.Common.Text.{Text}
use architect.Common.Triple.{
  Triple, Keeps, Triple-bind, Triple-modify, Triple-weaken, Triple-reads, Triple-pure,
}
use architect.Deployment.Models.{
  DeploymentStage, DeploymentStatus, completed, rolled_back, staging_stage, Params, Command, sleep,
  rollback, publish_rolled_back, check_rollback_criteria, Reply, World, or_else, RolloutStep,
  WorkflowResult, Signal, approval, rollback_request, resolve_stage, or_manual,
}
use architect.Deployment.Workflow.{
  Stop, Workflow, awaited, execute, pause, do_rollback, returned, do_requested_rollback, set_status,
  result_of, handle, handle_all,
}
use architect.Deployment.Workflow.Gates.{says, awaited-log}

abbrev pub is_rollback : Command → Bool
is_rollback (rollback reason) = true
is_rollback _ = false

abbrev pub is_check : Command → Bool
is_check (check_rollback_criteria health baseline) = true
is_check _ = false

abbrev pub should_rollback_of : Reply → Option Bool
should_rollback_of r = r.should_rollback

abbrev pub seconds : Command → ℕ
seconds (sleep n) = n
seconds _ = 0

-- The seconds slept.
unfoldable pub slept : List Command → ℕ
slept [] = 0
slept (c ∷ log) = seconds c + slept log

-- No rollback was carried out.
unfoldable pub unrolled : List Command → Bool
unrolled [] = true
unrolled (c ∷ log) = not (is_rollback c) && unrolled log

-- No health check asked for a rollback.
unfoldable pub healthy : World → List Command → Bool
healthy w [] = true
healthy w (c ∷ log) =
    not (is_check c && says should_rollback_of (w.reply (c ∷ log))) && healthy w log

abbrev pub step_stage : RolloutStep → DeploymentStage
step_stage step = resolve_stage (or_else step.traffic_pct 100)

abbrev pub step_minimum : RolloutStep → ℕ
step_minimum step = or_else step.min_duration_seconds 300

abbrev pub total_minimum : List RolloutStep → ℕ
total_minimum [] = 0
total_minimum (step ∷ steps) = step_minimum step + total_minimum steps

-- The stages in `finished` are behind, at least `t` seconds were slept, and nothing went wrong.
pub record IsGoing (w : World) (finished : List DeploymentStage) (t : ℕ) (s : Workflow)
    : Type 0 where
  pub stages_eq : s.stages_completed ≡ finished
  pub is_unrolled : unrolled s.log ≡ true
  pub is_healthy : healthy w s.log ≡ true
  pub slept_le : t ≤ slept s.log

-- All stages are behind, each was watched for its time, and nothing was rolled back.
pub record HasCompleted (w : World) (stages : List DeploymentStage) (t : ℕ) (r : WorkflowResult)
    (s : Workflow) : Type 0 where
  pub status_eq : r.status ≡ completed
  pub reason_eq : r.rollback_reason ≡ none
  pub stages_eq : r.stages_completed ≡ stages
  pub is_unrolled : unrolled s.log ≡ true
  pub is_healthy : healthy w s.log ≡ true
  pub slept_le : t ≤ slept s.log

-- The one rollback and its event come last, and the stages behind are the first of the plan.
pub record HasRolledBack (stages : List DeploymentStage) (r : WorkflowResult) (s : Workflow)
    : Type 0 where
  pub reason : Text
  pub stage : DeploymentStage
  pub before : List Command
  pub ahead : List DeploymentStage
  pub status_eq : r.status ≡ rolled_back
  pub reason_eq : r.rollback_reason ≡ some reason
  pub stages_eq : r.stages_completed ++ ahead ≡ stages
  pub log_eq : s.log ≡ publish_rolled_back reason stage ∷ rollback reason ∷ before
  pub is_unrolled : unrolled before ≡ true

abbrev pub Ended : World → List DeploymentStage → ℕ → Result Stop WorkflowResult → Workflow → Type 0
Ended w stages t (ok r) s = HasCompleted w stages t r s ⊎ HasRolledBack stages r s
Ended w stages t (err e) s = Unit

abbrev pub Undone : List DeploymentStage → Result Stop WorkflowResult → Workflow → Type 0
Undone stages (ok r) s = HasRolledBack stages r s
Undone stages (err e) s = Unit

-- What a loop may have returned.
abbrev pub Watched :
    World
    → List DeploymentStage
    → List DeploymentStage
    → ℕ
    → Result Stop (Option WorkflowResult)
    → Workflow
    → Type 0
Watched w stages finished t (ok none) s = IsGoing w finished t s
Watched w stages finished t (ok (some r)) s = HasRolledBack stages r s
Watched w stages finished t (err e) s = Unit

module _ (w : World) (p : Params) where
  handle_all-stages :
      (l : List Signal) (s : Workflow) → (handle_all l s).stages_completed ≡ s.stages_completed
  handle_all-stages [] s = refl
  handle_all-stages (approval d ∷ l) s = handle_all-stages l (handle (approval d) s)
  handle_all-stages (rollback_request d ∷ l) s = handle_all-stages l (handle (rollback_request d) s)

  pub awaited-stages :
      (c : Command) (s : Workflow) → (awaited w p c s).stages_completed ≡ s.stages_completed
  awaited-stages c s = handle_all-stages (w.signals (c ∷ s.log)) (record s { log = c ∷ s.log })

  pub awaited-IsGoing :
      (finished : List DeploymentStage) (t u : ℕ) (c : Command) (s : Workflow)
      → is_rollback c ≡ false
      → (is_check c && says should_rollback_of (w.reply (c ∷ s.log))) ≡ false
      → u ≤ seconds c + t
      → IsGoing w finished t s
      → IsGoing w finished u (awaited w p c s)
  unfolding slept unrolled healthy
  awaited-IsGoing finished t u c s forward fine le h =
      let same = awaited-log w p c s in
      record {
        stages_eq = awaited-stages c s ∙ h.stages_eq;
        is_unrolled =
            subst (λ log. unrolled log ≡ true) (sym same) (ground (arith, forward, h.is_unrolled));
        is_healthy =
            subst (λ log. healthy w log ≡ true) (sym same) (ground (arith, fine, h.is_healthy));
        slept_le = subst (λ log. u ≤ slept log) (sym same) (omega (arith, le, h.slept_le));
      }

  pub execute-IsGoing :
      (finished : List DeploymentStage) (t : ℕ) (c : Command)
      → is_rollback c ≡ false
      → is_check c ≡ false
      → Keeps (IsGoing w finished t) (execute w p c)
  unfolding execute
  execute-IsGoing finished t c forward quiet = record {
    at = λ s h. awaited-IsGoing finished t t c s forward (ground (arith, quiet)) (omega arith) h;
  }

  pub pause-IsGoing :
      (finished : List DeploymentStage) (t n : ℕ)
      → Triple (IsGoing w finished t) (pause w p n) (λ _. IsGoing w finished (t + n))
  unfolding pause
  pause-IsGoing finished t n = record {
    at = λ s h. awaited-IsGoing finished t (t + n) (sleep n) s refl refl (omega arith) h;
  }

  pub set_status-IsGoing :
      (finished : List DeploymentStage) (t : ℕ) (status : DeploymentStatus)
      → Keeps {E = Stop} (IsGoing w finished t) (modify (set_status status))
  set_status-IsGoing finished t status = record {
    at = λ s h. record {
      stages_eq = h.stages_eq;
      is_unrolled = h.is_unrolled;
      is_healthy = h.is_healthy;
      slept_le = h.slept_le;
    };
  }

  log_execute :
      (finished : List DeploymentStage) (c : Command) (log : List Command)
      → Triple
          (λ s. (s.stages_completed ≡ finished) × (s.log ≡ log))
          (execute w p c)
          (λ _ s. (s.stages_completed ≡ finished) × (s.log ≡ c ∷ log))
  unfolding execute
  log_execute finished c log = record {
    at = λ s (h, k). (awaited-stages c s ∙ h, awaited-log w p c s ∙ ap (λ l. c ∷ l) k);
  }

  -- A rollback, whichever stages were still ahead.
  rollback_from :
      (stages finished ahead : List DeploymentStage) (reason : Text) (log : List Command)
      → finished ++ ahead ≡ stages
      → unrolled log ≡ true
      → Triple
          (λ s. (s.stages_completed ≡ finished) × (s.log ≡ log))
          (do_rollback w p reason)
          (Undone stages)
  unfolding do_rollback
  rollback_from stages finished ahead reason log split clear =
      Triple-modify {P' = λ s. (s.stages_completed ≡ finished) × (s.log ≡ log)}
        (set_status rolled_back) _ (λ s h. h)
        (Triple-bind (execute w p (rollback reason)) _ (log_execute finished (rollback reason) log)
          (λ _.
            Triple-bind
              {R = λ _ s. (s.stages_completed ≡ finished) × (s.log ≡ rollback reason ∷ log)}
              (reads (λ s. ok (or_else s.current_stage staging_stage))) _
              (Triple-reads _ (λ s h. h))
              (λ stage.
                Triple-bind (execute w p (publish_rolled_back reason stage)) _
                  (log_execute finished (publish_rolled_back reason stage) (rollback reason ∷ log))
                  (λ _.
                    Triple-reads (λ s. ok (result_of p.deployment_id rolled_back (some reason) s))
                      λ s h. record {
                        reason = reason;
                        stage = stage;
                        before = log;
                        ahead = ahead;
                        status_eq = refl;
                        reason_eq = refl;
                        stages_eq = subst (λ l. l ++ ahead ≡ stages) (sym h.0) split;
                        log_eq = h.1;
                        is_unrolled = clear;
                      })
                  (λ e s h. tt))
              (λ e s h. tt))
          (λ e s h. tt))

  pub do_rollback-HasRolledBack :
      (stages finished ahead : List DeploymentStage) (reason : Text)
      → finished ++ ahead ≡ stages
      → Triple
          (λ s. (s.stages_completed ≡ finished) × (unrolled s.log ≡ true))
          (do_rollback w p reason)
          (Undone stages)
  do_rollback-HasRolledBack stages finished ahead reason split = record {
    at = λ s h. (rollback_from stages finished ahead reason s.log split h.1).at s (h.0, refl);
  }

  module _ (stages finished ahead : List DeploymentStage) (t : ℕ)
      (split : finished ++ ahead ≡ stages) where
    pub do_rollback-Undone :
        (reason : Text) → Triple (IsGoing w finished t) (do_rollback w p reason) (Undone stages)
    do_rollback-Undone reason =
        Triple-weaken _ (λ s h. (h.stages_eq, h.is_unrolled)) (λ r s h. h)
          (do_rollback-HasRolledBack stages finished ahead reason split)

    pub requested-Undone : Triple (IsGoing w finished t) (do_requested_rollback w p) (Undone stages)
    unfolding do_requested_rollback
    requested-Undone =
        Triple-bind {R = λ _. IsGoing w finished t} (reads (λ s. ok s.rollback_reason)) _
          (Triple-reads _ (λ s h. h)) (λ reason. do_rollback-Undone (or_manual reason))
          (λ e s h. tt)

    pub returned-Watched :
        (m : Action Workflow Stop WorkflowResult) (u : ℕ)
        → Triple (IsGoing w finished t) m (Undone stages)
        → Triple (IsGoing w finished t) (returned w p m) (Watched w stages finished u)
    returned-Watched m u h = Triple-bind m _ h (λ r. Triple-pure (some r) (λ s k. k)) (λ e s k. tt)
