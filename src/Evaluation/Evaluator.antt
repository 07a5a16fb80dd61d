-- ===== src/Evaluation/Evaluator.antt =====
-- `Evaluator`, services/evaluation-engine/src/evaluation_engine/evaluator.py, and the verdict of a
-- report, models.py. A layer runs tools in a sandbox; what is run and published is put on a log, the
-- latest first, by which the surroundings answer. The texts and times of a report are left out.
pub mod Reports
use architect.Common.{
  Bool, true, false, ◌&&◌, ◌||◌, Option, none, some, List, [], ◌∷◌, map, if◌then◌else◌,
}
use architect.Common.Result.{Result, ok, err, Action, pure, ◌>>=◌, ◌>>◌}
use architect.TaskGraph.Models.{TaskId, EvalVerdict, pass, fail_soft, fail_hard}

pub data EvalLayer : Type 0 where
  compilation unit_tests integration_tests adversarial spec_compliance architecture : EvalLayer
  regression : EvalLayer

pub record LayerEvaluation : Type 0 where
  pub layer : EvalLayer
  pub verdict : EvalVerdict

pub record EvaluationReport : Type 0 where
  pub task_id : TaskId
  pub layers : List LayerEvaluation
  pub overall_verdict : EvalVerdict

abbrev pub is_hard : EvalVerdict → Bool
is_hard fail_hard = true
is_hard _ = false

abbrev pub is_soft : EvalVerdict → Bool
is_soft fail_soft = true
is_soft _ = false

-- Whether a loop over the layers returns.
abbrev pub has_verdict : (EvalVerdict → Bool) → List LayerEvaluation → Bool
has_verdict test [] = false
has_verdict test (e ∷ es) = test e.verdict || has_verdict test es

unfoldable pub compute_overall_verdict : List LayerEvaluation → EvalVerdict
compute_overall_verdict es =
    if has_verdict is_hard es then fail_hard else if has_verdict is_soft es then fail_soft else pass

pub data Entry : Type 0 where
  run_layer : EvalLayer → Entry
  layer_completed : TaskId → EvalLayer → EvalVerdict → Entry
  eval_completed : TaskId → EvalVerdict → List LayerEvaluation → Entry

-- What the layer at the head of the log gives, if it does not raise, and whether an event is refused.
pub record World : Type 0 where
  pub verdict : List Entry → Option EvalVerdict
  pub refused : List Entry → Bool

pub data Stop : Type 0 where
  layer_error publish_error : Stop

abbrev pub M : Type 0 → Type 0
M A = Action (List Entry) Stop A

abbrev pub evaluated : EvalLayer → Option EvalVerdict → Result Stop LayerEvaluation
evaluated layer none = err layer_error
evaluated layer (some v) = ok (record { layer = layer; verdict = v })

module _ (w : World) (fail_fast : Bool) where
  -- `layer.evaluate`; the evaluation is of the layer itself.
  unfoldable pub evaluate_layer : EvalLayer → M LayerEvaluation
  evaluate_layer layer log =
      (evaluated layer (w.verdict (run_layer layer ∷ log)), run_layer layer ∷ log)

  unfoldable pub publish : Entry → M (Unit {0})
  publish e log = (if w.refused (e ∷ log) then err publish_error else ok tt, e ∷ log)

  abbrev pub stops : LayerEvaluation → Bool
  stops e = fail_fast && is_hard e.verdict

  abbrev pub and_rest : LayerEvaluation → M (List LayerEvaluation) → M (List LayerEvaluation)
  and_rest e more = do es ← more; pure (e ∷ es)

  -- The loop over the layers.
  unfoldable pub run_layers : TaskId → List EvalLayer → M (List LayerEvaluation)
  run_layers task_id [] = pure []
  run_layers task_id (layer ∷ layers) =
      let more = run_layers task_id layers in
      do
        e ← evaluate_layer layer
        publish (layer_completed task_id e.layer e.verdict)
        if stops e then pure (e ∷ []) else and_rest e more

  unfoldable pub evaluate : TaskId → List EvalLayer → M EvaluationReport
  evaluate task_id layers = do
    results ← run_layers task_id layers
    publish (eval_completed task_id (compute_overall_verdict results) results)
    pure (record {
      task_id = task_id;
      layers = results;
      overall_verdict = compute_overall_verdict results;
    })
