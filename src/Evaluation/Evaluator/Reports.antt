-- ===== src/Evaluation/Evaluator/Reports.antt =====
-- What a report of the evaluator (evaluator.py) says, and what was published.
use architect.Common.{
  ℕ, ◌≤◌, ◌≡◌, refl, sym, ap, ◌∙◌, subst, ◌⊎◌, inl, inr, Bool, true, false, Option, none, some,
  List, [], ◌∷◌, ◌++◌, All, arith, Bool-cases,
}
use architect.Common.Result.{Result, ok, err, pure}
use architect.Common.Triple.{Triple, Triple-bind, Triple-if, Triple-pure}
use architect.TaskGraph.Models.{TaskId, EvalVerdict, pass, fail_soft, fail_hard}
use architect.Evaluation.Evaluator.{
  EvalLayer, LayerEvaluation, EvaluationReport, is_hard, is_soft, has_verdict,
  compute_overall_verdict, Entry, run_layer, layer_completed, eval_completed, World, Stop,
  evaluated, evaluate_layer, publish, stops, and_rest, run_layers, evaluate,
}

-- The severity of a verdict, and the worst of a list.
abbrev pub severity : EvalVerdict → ℕ
severity pass = 0
severity fail_soft = 1
severity fail_hard = 2

abbrev pub layer_of : LayerEvaluation → EvalLayer
layer_of e = e.layer

-- The log after these layers ran, each with its event.
unfoldable pub ran : TaskId → List LayerEvaluation → List Entry → List Entry
ran task_id [] log = log
ran task_id (e ∷ es) log =
    ran task_id es (layer_completed task_id e.layer e.verdict ∷ run_layer e.layer ∷ log)

-- The layers that ran are the first of those configured; all ran, or the last one failed hard under
-- `fail_fast`; and under `fail_fast` no layer before the last failed hard.
pub data Ran (fail_fast : Bool) : List EvalLayer → List LayerEvaluation → Type 0 where
  ran_all : Ran fail_fast [] []
  ran_stop :
      (e : LayerEvaluation) (skipped : List EvalLayer)
      → fail_fast ≡ true
      → e.verdict ≡ fail_hard
      → Ran fail_fast (e.layer ∷ skipped) (e ∷ [])
  ran_next :
      (e : LayerEvaluation) (layers : List EvalLayer) (es : List LayerEvaluation)
      → (fail_fast ≡ true → e.verdict ≡ pass ⊎ e.verdict ≡ fail_soft)
      → Ran fail_fast layers es
      → Ran fail_fast (e.layer ∷ layers) (e ∷ es)

-- The overall verdict is as bad as each layer's, and is one of theirs or a pass.
pub record IsWorst (v : EvalVerdict) (es : List LayerEvaluation) : Type 0 where
  pub bounds : All (λ e. severity e.verdict ≤ severity v) es
  pub attained :
      (v ≡ pass)
      ⊎ ((before : List LayerEvaluation) × (e : LayerEvaluation) × (after : List LayerEvaluation)
          × (es ≡ before ++ e ∷ after)
          × (e.verdict ≡ v))

abbrev Found : (EvalVerdict → Bool) → List LayerEvaluation → Type 0
Found test es =
    (before : List LayerEvaluation) × (e : LayerEvaluation) × (after : List LayerEvaluation) × (es
      ≡ before ++ e ∷ after)
    × (test e.verdict ≡ true)

has_verdict-Found :
    (test : EvalVerdict → Bool) (es : List LayerEvaluation)
    → has_verdict test es ≡ true
    → Found test es
has_verdict-Found test [] h = cc
has_verdict-Found test (e ∷ es) h = elim (Bool-cases (test e.verdict)) [
  | inl this ↦ ([], e, es, refl, this)
  | inr other ↦
      let (before, x, after, split, yes_x) = has_verdict-Found test es (ground (arith, other, h)) in
      (e ∷ before, x, after, ap (λ l. e ∷ l) split, yes_x)
]

hard_eq : (v : EvalVerdict) → is_hard v ≡ true → v ≡ fail_hard
hard_eq fail_hard h = refl
hard_eq pass h = cc
hard_eq fail_soft h = cc

soft_eq : (v : EvalVerdict) → is_soft v ≡ true → v ≡ fail_soft
soft_eq fail_soft h = refl
soft_eq pass h = cc
soft_eq fail_hard h = cc

severity_le : (v : EvalVerdict) → severity v ≤ 2
severity_le pass = omega arith
severity_le fail_soft = omega arith
severity_le fail_hard = omega arith

All-le_two : (es : List LayerEvaluation) → All (λ e. severity e.verdict ≤ 2) es
All-le_two [] = tt
All-le_two (e ∷ es) = (severity_le e.verdict, All-le_two es)

severity_not_hard : (v : EvalVerdict) → is_hard v ≡ false → severity v ≤ 1
severity_not_hard pass h = omega arith
severity_not_hard fail_soft h = omega arith
severity_not_hard fail_hard h = cc

severity_pass : (v : EvalVerdict) → is_hard v ≡ false → is_soft v ≡ false → severity v ≤ 0
severity_pass pass h k = omega arith
severity_pass fail_soft h k = cc
severity_pass fail_hard h k = cc

All-le_one :
    (es : List LayerEvaluation)
    → has_verdict is_hard es ≡ false
    → All (λ e. severity e.verdict ≤ 1) es
All-le_one [] h = tt
All-le_one (e ∷ es) h =
    (severity_not_hard e.verdict (ground (arith, h)), All-le_one es (ground (arith, h)))

All-le_zero :
    (es : List LayerEvaluation)
    → has_verdict is_hard es ≡ false
    → has_verdict is_soft es ≡ false
    → All (λ e. severity e.verdict ≤ 0) es
All-le_zero [] h k = tt
All-le_zero (e ∷ es) h k = (
  severity_pass e.verdict (ground (arith, h)) (ground (arith, k)),
  All-le_zero es (ground (arith, h)) (ground (arith, k)),
)

overall_hard :
    (es : List LayerEvaluation)
    → has_verdict is_hard es ≡ true
    → compute_overall_verdict es ≡ fail_hard
unfolding compute_overall_verdict
overall_hard es h = rw h refl

overall_soft :
    (es : List LayerEvaluation)
    → has_verdict is_hard es ≡ false
    → has_verdict is_soft es ≡ true
    → compute_overall_verdict es ≡ fail_soft
unfolding compute_overall_verdict
overall_soft es h k = rw h (rw k refl)

overall_pass :
    (es : List LayerEvaluation)
    → has_verdict is_hard es ≡ false
    → has_verdict is_soft es ≡ false
    → compute_overall_verdict es ≡ pass
unfolding compute_overall_verdict
overall_pass es h k = rw h (rw k refl)

compute_overall_verdict-IsWorst :
    (es : List LayerEvaluation) → IsWorst (compute_overall_verdict es) es
compute_overall_verdict-IsWorst es = elim (Bool-cases (has_verdict is_hard es)) [
  | inl h ↦
      let (before, e, after, split, hard) = has_verdict-Found is_hard es h in
      subst (λ v. IsWorst v es) (sym (overall_hard es h))
        (record {
          bounds = All-le_two es;
          attained = inr (before, e, after, split, hard_eq e.verdict hard);
        })
  | inr h ↦ elim (Bool-cases (has_verdict is_soft es)) [
    | inl k ↦
        let (before, e, after, split, soft) = has_verdict-Found is_soft es k in
        subst (λ v. IsWorst v es) (sym (overall_soft es h k))
          (record {
            bounds = All-le_one es h;
            attained = inr (before, e, after, split, soft_eq e.verdict soft);
          })
    | inr k ↦
        subst (λ v. IsWorst v es) (sym (overall_pass es h k))
          (record { bounds = All-le_zero es h k; attained = inl refl })
  ]
]

module _ (w : World) (fail_fast : Bool) (task_id : TaskId) where
  abbrev After :
      List EvalLayer → List Entry → Result Stop (List LayerEvaluation) → List Entry → Type 0
  After layers log0 (ok es) log = Ran fail_fast layers es × (log ≡ ran task_id es log0)
  After layers log0 (err e) log = Unit

  evaluate_layer-layer :
      (layer : EvalLayer) (log0 : List Entry)
      → Triple
          (λ log. log ≡ log0)
          (evaluate_layer w fail_fast layer)
          (λ r log.
            (log ≡ run_layer layer ∷ log0) × ((e : LayerEvaluation) → r ≡ ok e → e.layer ≡ layer))
  unfolding evaluate_layer
  evaluate_layer-layer layer log0 = record {
    at = λ log same.
        (ap (λ l. run_layer layer ∷ l) same, evaluated_layer (w.verdict (run_layer layer ∷ log)));
  }
    where
      evaluated_layer :
          (o : Option EvalVerdict) (e : LayerEvaluation)
          → evaluated layer o ≡ ok e
          → e.layer ≡ layer
      evaluated_layer none e h = cc
      evaluated_layer (some v) e h = ap layer_of (sym (evaluation_eq h))
        where
          evaluation_eq :
              {a b : LayerEvaluation} → ◌≡◌ {A = Result Stop LayerEvaluation} (ok a) (ok b) → a ≡ b
          evaluation_eq h = cc

  publish-log :
      (e : Entry) (log0 : List Entry)
      → Triple (λ log. log ≡ log0) (publish w fail_fast e) (λ _ log. log ≡ e ∷ log0)
  unfolding publish
  publish-log e log0 = record { at = λ log same. ap (λ l. e ∷ l) same }

  not_hard : (v : EvalVerdict) → is_hard v ≡ false → (v ≡ pass) ⊎ (v ≡ fail_soft)
  not_hard pass h = inl refl
  not_hard fail_soft h = inr refl
  not_hard fail_hard h = cc

  and_rest-After :
      (layer : EvalLayer) (layers : List EvalLayer) (e : LayerEvaluation) (log0 : List Entry)
      → e.layer ≡ layer
      → stops w fail_fast e ≡ false
      → Triple
          (λ log. log ≡ layer_completed task_id e.layer e.verdict ∷ run_layer e.layer ∷ log0)
          (run_layers w fail_fast task_id layers)
          (After layers (layer_completed task_id e.layer e.verdict ∷ run_layer e.layer ∷ log0))
      → Triple
          (λ log. log ≡ layer_completed task_id e.layer e.verdict ∷ run_layer e.layer ∷ log0)
          (and_rest w fail_fast e (run_layers w fail_fast task_id layers))
          (After (layer ∷ layers) log0)
  unfolding ran
  and_rest-After layer layers e log0 same go h =
      Triple-bind (run_layers w fail_fast task_id layers) _ h
        (λ es. Triple-pure (e ∷ es) (λ log k. (
          subst (λ y. Ran fail_fast (y ∷ layers) (e ∷ es)) same
              (ran_next e layers es (λ fast. not_hard e.verdict (ground (arith, fast, go))) k.0),
          k.1,
        )))
        (λ x log k. tt)

  run_layers-After :
      (layers : List EvalLayer) (log0 : List Entry)
      → Triple (λ log. log ≡ log0) (run_layers w fail_fast task_id layers) (After layers log0)
  unfolding run_layers ran publish
  run_layers-After [] log0 = Triple-pure [] (λ log same. (ran_all, same))
  run_layers-After (layer ∷ layers) log0 =
      Triple-bind (evaluate_layer w fail_fast layer) _ (evaluate_layer-layer layer log0)
        (λ e.
          Triple-bind
            {R = λ _ log.
              (log ≡ layer_completed task_id e.layer e.verdict ∷ run_layer e.layer ∷ log0)
              × (e.layer ≡ layer)}
            (publish w fail_fast (layer_completed task_id e.layer e.verdict)) _
            (record {
              at = λ log h.
                  let same = h.1 e refl in
                  (
                    ap (λ l. layer_completed task_id e.layer e.verdict ∷ l)
                        (h.0 ∙ ap (λ y. run_layer y ∷ log0) (sym same)),
                    same,
                  );
            })
            (λ _.
              Triple-if (stops w fail_fast e) (pure (e ∷ []))
                (and_rest w fail_fast e (run_layers w fail_fast task_id layers))
                (λ stop. Triple-pure (e ∷ []) (λ s h. (
                  subst (λ y. Ran fail_fast (y ∷ layers) (e ∷ [])) h.1
                      (ran_stop e layers (ground (arith, stop))
                        (hard_eq e.verdict (ground (arith, stop)))),
                  h.0,
                )))
                (λ go. record {
                  at = λ s h.
                      (and_rest-After layer layers e log0 h.1 go (
                          run_layers-After layers (
                            layer_completed task_id e.layer e.verdict
                            ∷ run_layer e.layer
                            ∷ log0))).at
                        s h.0;
                }))
            (λ x s h. tt))
        (λ x s h. tt)

  abbrev Reported : List EvalLayer → Result Stop EvaluationReport → List Entry → Type 0
  Reported layers (ok r) log =
      Ran fail_fast layers r.layers
      × IsWorst r.overall_verdict r.layers
      × (log ≡ eval_completed task_id r.overall_verdict r.layers ∷ ran task_id r.layers [])
  Reported layers (err e) log = Unit

  evaluate-Reported :
      (layers : List EvalLayer)
      → Triple (λ log. log ≡ []) (evaluate w fail_fast task_id layers) (Reported layers)
  unfolding evaluate publish
  evaluate-Reported layers =
      Triple-bind (run_layers w fail_fast task_id layers) _ (run_layers-After layers [])
        (λ es.
          Triple-bind
            {R = λ _ log.
              Ran fail_fast layers es
              × (log ≡ eval_completed task_id (compute_overall_verdict es) es ∷ ran task_id es [])}
            (publish w fail_fast (eval_completed task_id (compute_overall_verdict es) es)) _
            (record {
              at = λ log h.
                  (h.0, ap (λ l. eval_completed task_id (compute_overall_verdict es) es ∷ l) h.1);
            })
            (λ _. Triple-pure _ (λ log h. (h.0, compute_overall_verdict-IsWorst es, h.1)))
            (λ x log h. tt))
        (λ x log h. tt)

  -- A report that is returned is right: the layers that ran are the first of those configured, in
  -- order; all of them ran, or the last failed hard and the rest was skipped; the overall verdict is the
  -- worst of the layers'; and one event was published after each layer and the report's after all.
  pub evaluate-IsWorst :
      (layers : List EvalLayer) (r : EvaluationReport)
      → (evaluate w fail_fast task_id layers []).0 ≡ ok r
      → Ran fail_fast layers r.layers
        × IsWorst r.overall_verdict r.layers
        × ((evaluate w fail_fast task_id layers []).1
            ≡ eval_completed task_id r.overall_verdict r.layers ∷ ran task_id r.layers [])
  evaluate-IsWorst layers r h =
      subst (λ o. Reported layers o (evaluate w fail_fast task_id layers []).1) h
        ((evaluate-Reported layers).at [] refl)
