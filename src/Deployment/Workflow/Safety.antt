-- ===== src/Deployment/Workflow/Safety.antt =====
-- When a deployment (workflows.py) may send traffic, by its log.
use architect.Common.{
  ℕ, ◌≡◌, refl, Bool, true, false, ◌&&◌, ◌||◌, Option, none, some, List, ◌∷◌, arith, ◌∙◌, sym,
  if◌then◌else◌, Bool-cases, inl, inr,
}
use architect.Common.Result.{branch, modify, ◌>>◌, Result, ok, err, Action}
use architect.Common.Text.{Text}
use architect.Common.Triple.{
  Triple, Keeps, Triple-bind, Triple-weaken, Triple-branch, Triple-modify, Triple-if, keeps_rules,
}
use architect.Deployment.Models.{
  staging, awaiting_approval, smoke_testing, smoke_test_failed, approval_denied, Params, Command,
  deploy_to_staging, run_smoke_tests, request_approval, collect_baseline_metrics, Reply, World,
  or_else, staging_stage, wait_approval,
}
use architect.Deployment.Workflow.{
  Stop, Workflow, new, execute, needs_approval, do_rollback, wait_for_signal, do_requested_rollback,
  rollout, deploy, approval_gate, smoke_test, run, is_requested, is_denied, complete_stage,
  set_status, decide, unless_cancelled, awaited,
}
use architect.Deployment.Workflow.Gates.{
  says-replied, is_traffic, gate, says, success_of, passed_of, decided, staged, smoked, opened,
  ready, safe, Grows, awaited-IsSound,
}
use architect.Deployment.Workflow.Sound.{
  rollout-Sound, Sound, execute-Sound, set_status-Sound, do_rollback-Sound,
  do_requested_rollback-Sound,
}

module _ (w : World) (p : Params) where
  abbrev always : List Command → Bool
  always _ = true

  ends : (g : List Command → Bool) (s : Workflow) → Sound w p g s → Sound w p always s
  ends g s h = record { flags_eq = h.flags_eq; is_safe = h.is_safe; reached = refl }

  finishes-Sound :
      {A : Type 0} (g : List Command → Bool) (m : Action Workflow Stop A)
      → Keeps (Sound w p g) m
      → Triple (Sound w p g) m (λ _. Sound w p always)
  finishes-Sound g m h = Triple-weaken m (λ s k. k) (λ r s k. ends g s k) h

  abbrev early : List Command → Bool
  early log = staged w p log && smoked w p log

  always-Grows : Grows w p always
  always-Grows c log h = refl

  staged-Grows : Grows w p (staged w p)
  unfolding staged
  staged-Grows c log h = ground (arith, h)

  early-Grows : Grows w p early
  unfolding staged smoked
  early-Grows c log h = ground (arith, h)

  -- The log keeps that a command was answered well.
  reply-Sound :
      (g g' : List Command → Bool) (c : Command) (key : Reply → Option Bool)
      → Grows w p g
      → is_traffic c ≡ false
      → ((log : List Command)
          → g log ≡ true
          → says key (w.reply (c ∷ log)) ≡ true
          → g' (c ∷ log) ≡ true)
      → Triple (Sound w p g) (execute w p c) (λ r s.
        Sound w p g s × ((a : Reply) → r ≡ ok a → or_else (key a) false ≡ true → Sound w p g' s))
  unfolding execute
  reply-Sound g g' c key grows quiet gains = record {
    at = λ s h. (
      awaited-IsSound w p g g c s (grows c s.log h.reached) (ground arith) h,
      λ a e said.
          awaited-IsSound w p g g' c s
            (gains s.log h.reached (says-replied key (w.reply (c ∷ s.log)) a e ∙ said))
            (ground arith) h,
    );
  }

  deploy-Sound :
      (fuel : ℕ)
      → Triple
          (λ s. Sound w p early s × (gate w p s ≡ true))
          (deploy w p fuel)
          (λ _. Sound w p always)
  unfolding deploy execute opened staged smoked
  deploy-Sound fuel =
      Triple-bind {R = λ _. Sound w p (ready w p)} (execute w p collect_baseline_metrics)
        (λ b. rollout w p fuel b.metrics p.rollout_steps)
        (record {
          at = λ s (h, open_gate).
              awaited-IsSound w p early (ready w p) collect_baseline_metrics s
                (ground (arith, h.reached, open_gate, h.flags_eq)) (ground arith) h;
        })
        (λ b. finishes-Sound (ready w p) _ (rollout-Sound w p fuel b.metrics p.rollout_steps))
        (λ e. ends (ready w p))

  abbrev Signalled : Workflow → Type 0
  Signalled s = Sound w p early s × ((s.approval_received || s.rollback_requested) ≡ true)

  undo-Sound :
      (g : List Command → Bool) (reason : Text)
      → Grows w p g
      → Triple (Sound w p g) (do_rollback w p reason) (λ _. Sound w p always)
  undo-Sound g reason grows =
      finishes-Sound g (do_rollback w p reason) (do_rollback-Sound w p g reason grows)

  decide-Sound : (fuel : ℕ) → Triple Signalled (decide w p fuel) (λ _. Sound w p always)
  decide-Sound fuel =
      Triple-branch is_requested (do_requested_rollback w p)
        (branch is_denied (do_rollback w p approval_denied) (deploy w p fuel))
        (Triple-weaken _ (λ s h. h.0.0) (λ r s. ends early s)
          (do_requested_rollback-Sound w p early early-Grows))
        (Triple-branch is_denied (do_rollback w p approval_denied) (deploy w p fuel)
          (Triple-weaken _ (λ s h. h.0.0.0) (λ r s h. h)
            (undo-Sound early approval_denied early-Grows))
          (Triple-weaken _ (λ s ((h, off), kept). (h.0, ground (arith, h.1, off, kept)))
            (λ r s h. h) (deploy-Sound fuel)))

  -- What a wait returns, unless it is cancelled.
  abbrev Woken : Result Stop Bool → Workflow → Type 0
  Woken (ok b) s = b ≡ (s.approval_received || s.rollback_requested)
  Woken (err e) s = Unit {0}

  wait_for_signal-Sound :
      Triple (Sound w p early) (wait_for_signal w p) (λ r s. Sound w p early s × Woken r s)
  unfolding wait_for_signal
  wait_for_signal-Sound = record {
    at = λ s h. elim (Bool-cases (s.approval_received || s.rollback_requested)) [
      | inl e ↦ rw e (h, sym e)
      | inr e ↦ rw e (
        awaited-IsSound w p early early wait_approval s (early-Grows wait_approval s.log h.reached)
            (ground arith) h,
        woken (w.reply (wait_approval ∷ s.log)) (awaited w p wait_approval s),
      )
    ];
  }
    where
      woken :
          (o : Option Reply) (s : Workflow)
          → Woken (unless_cancelled o (s.approval_received || s.rollback_requested)) s
      woken none s = tt
      woken (some r) s = refl

  signalled-Sound :
      (fuel : ℕ) (b : Bool)
      → Triple
          (λ s. Sound w p early s × Woken (ok b) s)
          (if b then decide w p fuel else do_rollback w p approval_denied)
          (λ _. Sound w p always)
  signalled-Sound fuel b =
      Triple-if b (decide w p fuel) (do_rollback w p approval_denied)
        (λ e. Triple-weaken _ (λ s h. (h.0, cc)) (λ r s h. h) (decide-Sound fuel))
        (λ e.
          Triple-weaken _ (λ s h. h.0) (λ r s h. h) (undo-Sound early approval_denied early-Grows))

  approval_gate-Sound :
      (fuel : ℕ) → Triple (Sound w p early) (approval_gate w p fuel) (λ _. Sound w p always)
  unfolding approval_gate
  approval_gate-Sound fuel =
      Triple-bind {R = λ _. Sound w p early}
        (modify (set_status awaiting_approval) >> execute w p request_approval) _
        (search (keeps_rules, set_status-Sound w p, execute-Sound w p, early-Grows))
        (λ _.
          Triple-bind (wait_for_signal w p) _ wait_for_signal-Sound (signalled-Sound fuel)
            (λ e s h. ends early s h.0))
        (λ e. ends early)

  smoked-early :
      (log : List Command)
      → staged w p log ≡ true
      → says passed_of (w.reply (run_smoke_tests ∷ log)) ≡ true
      → early (run_smoke_tests ∷ log) ≡ true
  unfolding staged smoked
  smoked-early log h said = ground (arith, h, said)

  deploy-staged :
      (log : List Command)
      → says success_of (w.reply (deploy_to_staging ∷ log)) ≡ true
      → staged w p (deploy_to_staging ∷ log) ≡ true
  unfolding staged
  deploy-staged log said = ground (arith, said)

  smoke_test-Sound :
      (fuel : ℕ) → Triple (Sound w p (staged w p)) (smoke_test w p fuel) (λ _. Sound w p always)
  unfolding smoke_test
  smoke_test-Sound fuel =
      Triple-bind {R = λ _. Sound w p (staged w p)} (modify (set_status smoke_testing)) _
        (set_status-Sound w p (staged w p) smoke_testing)
        (λ _.
          Triple-bind (execute w p run_smoke_tests) _
            (reply-Sound (staged w p) early run_smoke_tests passed_of staged-Grows refl
              smoked-early)
            (λ smoke.
              Triple-if (or_else smoke.passed false)
                (if needs_approval p then approval_gate w p fuel else deploy w p fuel)
                (do_rollback w p smoke_test_failed)
                (λ e.
                  Triple-weaken _ (λ s h. h.1 smoke refl e) (λ r s h. h)
                    (Triple-if (needs_approval p) (approval_gate w p fuel) (deploy w p fuel)
                      (λ _. approval_gate-Sound fuel)
                      (λ n.
                        Triple-weaken _ (λ s h. (h, ground (arith, n))) (λ r s h. h)
                          (deploy-Sound fuel))))
                (λ e.
                  Triple-weaken _ (λ s h. h.0) (λ r s h. h)
                    (undo-Sound (staged w p) smoke_test_failed staged-Grows)))
            (λ e s h. ends (staged w p) s h.0))
        (λ e. ends (staged w p))

  run-Sound : (fuel : ℕ) → Triple (Sound w p always) (run w p fuel) (λ _. Sound w p always)
  unfolding run
  run-Sound fuel =
      Triple-modify {P' = Sound w p always}
        (λ s. record s { current_status = staging; current_stage = some staging_stage }) _
        (λ s h. record { flags_eq = h.flags_eq; is_safe = h.is_safe; reached = refl })
        (Triple-bind (execute w p deploy_to_staging) _
          (reply-Sound always (staged w p) deploy_to_staging success_of always-Grows refl
            (λ log h. deploy-staged log))
          (λ deployed.
            Triple-if (or_else deployed.success false)
              (modify (complete_stage staging_stage) >> smoke_test w p fuel)
              (do_rollback w p smoke_test_failed)
              (λ e.
                Triple-modify {P' = Sound w p (staged w p)} (complete_stage staging_stage)
                  (smoke_test w p fuel)
                  (λ s h.
                    let k = h.1 deployed refl e in
                    record { flags_eq = k.flags_eq; is_safe = k.is_safe; reached = k.reached })
                  (smoke_test-Sound fuel))
              (λ e.
                Triple-weaken _ (λ s h. h.0) (λ r s h. h)
                  (undo-Sound always smoke_test_failed always-Grows)))
          (λ e s h. h.0))

  -- Whatever the activities answer and whenever signals come, the workflow sends traffic to the new
  -- version only after staging succeeded and the smoke tests passed, if the gate is needed only after
  -- a signal of approval was handled whose latest decision is not the text "denied" (so "deny" lets it
  -- through), and only as long as no rollback was requested.
  pub run-safe : (fuel : ℕ) → safe w p (run w p fuel new).1.log ≡ true
  unfolding decided safe
  run-safe fuel =
      ((run-Sound fuel).at new (record { flags_eq = refl; is_safe = refl; reached = refl })).is_safe
