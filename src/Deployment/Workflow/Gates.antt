-- ===== src/Deployment/Workflow/Gates.antt =====
-- What stands on the log of a deployment (workflows.py) before traffic is sent to it.
use architect.Common.{
  ◌≡◌, refl, Bool, true, false, not, ◌&&◌, ◌||◌, Option, none, some, List, [], ◌∷◌, arith, ap, sym,
  subst,
}
use architect.Common.Result.{Result, ok}
use architect.Common.Text.{Text, codes, text_beq}
use architect.Deployment.Models.{
  Params, Signal, approval, rollback_request, Command, deploy_to_staging, run_smoke_tests,
  collect_baseline_metrics, deploy_canary, set_traffic, Reply, World, or_else,
}
use architect.Deployment.Workflow.{
  Stop, Workflow, new, handle, handle_all, replied, awaited, needs_approval,
}

abbrev pub is_traffic : Command → Bool
is_traffic (deploy_canary pct) = true
is_traffic (set_traffic pct) = true
is_traffic _ = false

abbrev pub is_staging : Command → Bool
is_staging deploy_to_staging = true
is_staging _ = false

abbrev pub is_smoke : Command → Bool
is_smoke run_smoke_tests = true
is_smoke _ = false

abbrev pub is_baseline : Command → Bool
is_baseline collect_baseline_metrics = true
is_baseline _ = false

-- A key of the reply, if there is one.
abbrev pub says : (Reply → Option Bool) → Option Reply → Bool
says key none = false
says key (some r) = or_else (key r) false

pub says-replied :
    (key : Reply → Option Bool) (o : Option Reply) (a : Reply)
    → replied o ≡ ok a
    → says key o ≡ or_else (key a) false
says-replied key (some b) a e = ap (λ c. or_else (key c) false) (ok_eq e)
  where
    ok_eq : {b c : Reply} → ◌≡◌ {A = Result Stop Reply} (ok b) (ok c) → b ≡ c
    ok_eq e = cc
says-replied key none a e = cc

abbrev pub success_of : Reply → Option Bool
success_of r = r.success

abbrev pub passed_of : Reply → Option Bool
passed_of r = r.passed

module _ (w : World) (p : Params) where
  -- The signals handled so far, by the log alone.
  unfoldable pub decided : List Command → Workflow
  decided [] = new
  decided (c ∷ log) = handle_all (w.signals (c ∷ log)) (decided log)

  -- No approval is needed, or a signal of approval was handled and the latest decision is not the text
  -- "denied", which is all that the code looks at.
  abbrev pub gate : Workflow → Bool
  gate s =
      not (needs_approval p)
      || (s.approval_received && not (text_beq s.approval_decision (codes "denied")))

  unfoldable pub staged : List Command → Bool
  staged [] = false
  staged (c ∷ log) = (is_staging c && says success_of (w.reply (c ∷ log))) || staged log

  unfoldable pub smoked : List Command → Bool
  smoked [] = false
  smoked (c ∷ log) = (is_smoke c && says passed_of (w.reply (c ∷ log))) || smoked log

  -- The gate stood open when the baseline was collected.
  unfoldable pub opened : List Command → Bool
  opened [] = false
  opened (c ∷ log) = (is_baseline c && gate (decided log)) || opened log

  abbrev pub ready : List Command → Bool
  ready log = staged log && (smoked log && opened log)

  -- Traffic is only sent when all that holds and no rollback was requested.
  unfoldable pub safe : List Command → Bool
  safe [] = true
  safe (c ∷ log) =
      (not (is_traffic c) || (ready log && not (decided log).rollback_requested)) && safe log

  abbrev pub flags : Workflow → Bool × (Text × Bool)
  flags s = (s.approval_received, (s.approval_decision, s.rollback_requested))

  handle-flags :
      (signal : Signal) (s t : Workflow)
      → flags s ≡ flags t
      → flags (handle signal s) ≡ flags (handle signal t)
  handle-flags (approval d) s t h = ap (λ f. (true, (or_else d (codes "approved"), f.1.1))) h
  handle-flags (rollback_request r) s t h = ap (λ f. (f.0, (f.1.0, true))) h

  handle_all-flags :
      (signals : List Signal) (s t : Workflow)
      → flags s ≡ flags t
      → flags (handle_all signals s) ≡ flags (handle_all signals t)
  handle_all-flags [] s t h = h
  handle_all-flags (signal ∷ rest) s t h =
      handle_all-flags rest (handle signal s) (handle signal t) (handle-flags signal s t h)

  pub handle_all-log : (signals : List Signal) (s : Workflow) → (handle_all signals s).log ≡ s.log
  handle_all-log [] s = refl
  handle_all-log (approval d ∷ rest) s = handle_all-log rest (handle (approval d) s)
  handle_all-log (rollback_request r ∷ rest) s = handle_all-log rest (handle (rollback_request r) s)

  -- `g` is what was reached so far.
  pub record IsSound (g : List Command → Bool) (s : Workflow) : Type 0 where
    pub flags_eq : flags s ≡ flags (decided s.log)
    pub is_safe : safe s.log ≡ true
    pub reached : g s.log ≡ true

  abbrev pub Grows : (List Command → Bool) → Type 0
  Grows g = (c : Command) (log : List Command) → g log ≡ true → g (c ∷ log) ≡ true

  pub awaited-IsSound :
      (g g' : List Command → Bool) (c : Command) (s : Workflow)
      → (g' (c ∷ s.log) ≡ true)
      → (is_traffic c ≡ true → (ready s.log && not s.rollback_requested) ≡ true)
      → IsSound g s
      → IsSound g' (awaited w p c s)
  unfolding decided safe
  awaited-IsSound g g' c s hg ht h =
      let same = handle_all-log (w.signals (c ∷ s.log)) (record s { log = c ∷ s.log }) in
      let permitted : safe (c ∷ s.log) ≡ true = ground (arith, h.flags_eq, h.is_safe, ht) in
      record {
        flags_eq =
            subst (λ log. flags (awaited w p c s) ≡ flags (decided log)) (sym same)
              (handle_all-flags (w.signals (c ∷ s.log)) (record s { log = c ∷ s.log })
                (decided s.log) h.flags_eq);
        is_safe = subst (λ log. safe log ≡ true) (sym same) permitted;
        reached = subst (λ log. g' log ≡ true) (sym same) hg;
      }

  pub awaited-log : (c : Command) (s : Workflow) → (awaited w p c s).log ≡ c ∷ s.log
  awaited-log c s = handle_all-log (w.signals (c ∷ s.log)) (record s { log = c ∷ s.log })
