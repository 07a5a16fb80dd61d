-- ===== src/Evaluation/Tests.antt =====
-- The evaluator on three layers.
use architect.Common.{◌≡◌, refl, true, false, Option, some, List, [], ◌∷◌}
use architect.Common.Result.{ok}
use architect.TaskGraph.Models.{EvalVerdict, pass, fail_hard}
use architect.Evaluation.Evaluator.{
  EvalLayer, compilation, unit_tests, regression, EvaluationReport, Entry, run_layer,
  eval_completed, World, compute_overall_verdict, evaluate_layer, publish, run_layers, evaluate,
}
use architect.Evaluation.Evaluator.Reports.{Ran, IsWorst, ran, evaluate-IsWorst}

-- The unit tests fail hard.
abbrev verdicts : List Entry → Option EvalVerdict
verdicts (run_layer unit_tests ∷ log) = some fail_hard
verdicts log = some pass

abbrev world : World
world = record { verdict = verdicts; refused = λ log. false }

abbrev layers : List EvalLayer
layers = compilation ∷ unit_tests ∷ regression ∷ []

abbrev report : EvaluationReport
report = record {
  task_id = 5;
  layers =
      record { layer = compilation; verdict = pass }
      ∷ record { layer = unit_tests; verdict = fail_hard }
      ∷ [];
  overall_verdict = fail_hard;
}

evaluated_fast : (evaluate world true 5 layers []).0 ≡ ok report
unfolding evaluate run_layers evaluate_layer publish compute_overall_verdict
evaluated_fast = refl

evaluate-IsWorst_example :
    Ran true layers report.layers
    × IsWorst report.overall_verdict report.layers
    × ((evaluate world true 5 layers []).1
        ≡ eval_completed 5 report.overall_verdict report.layers ∷ ran 5 report.layers [])
evaluate-IsWorst_example = evaluate-IsWorst world true 5 layers report evaluated_fast
