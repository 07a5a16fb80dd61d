-- ===== src/TaskGraph/Decompose.antt =====
-- `TaskDecomposer`, services/task-graph-engine/src/task_graph_engine/decomposer.py: the deterministic
-- decomposition of a specification. `fresh` is the source of `new_task_id()` and `clock` that of
-- `utcnow()`, by the number of calls before; `k` counts those calls.
pub mod Order
mod Tests
use architect.Common.{
  ℕ, ◌+◌, Bool, true, false, Option, none, some, List, [], ◌∷◌, ◌++◌, ltb, if◌then◌else◌,
}
use architect.Common.Result.{Result, ok, err, and_then}
use architect.Common.Text.{Text, codes, text_beq, strip}
use architect.TaskGraph.Models.{
  TaskId, Time, Task, TaskInput, TaskBudget, ModelTier, tier_1, tier_2, tier_3, implement_feature,
  write_test, review_code, coder, tester, reviewer, default_task, default_budget,
}

-- A module descriptor: the keys that the decomposer reads, each of which may be missing.
pub record ModuleSpec : Type 0 where
  pub name : Option Text
  pub description : Option Text
  pub priority : Option ℕ
  pub model_tier : Option Text
  pub max_tokens : Option ℕ
  pub max_retries : Option ℕ

-- A specification, likewise.
pub record Spec : Type 0 where
  pub modules : Option (List ModuleSpec)
  pub name : Option Text
  pub description : Option Text

-- `ValueError` of the enumeration, `ValidationError` of the budget.
pub data DecomposeError : Type 0 where
  bad_model_tier : Text → DecomposeError
  bad_budget : DecomposeError

-- `d.get(key, default)`
abbrev pub get_or : {A : Type 0} → Option A → A → A
get_or none d = d
get_or (some a) d = a

-- `ModelTier(value)`
abbrev parse_tier : Text → Result DecomposeError ModelTier
parse_tier value =
    if text_beq value (codes "tier_1")
    then ok tier_1
    else if text_beq value (codes "tier_2")
    then ok tier_2
    else if text_beq value (codes "tier_3")
    then ok tier_3
    else err (bad_model_tier value)

-- `TaskBudget(max_tokens=..., max_retries=...)`; more than 10 retries are refused.
abbrev make_budget : ℕ → ℕ → Result DecomposeError TaskBudget
make_budget max_tokens max_retries =
    if ltb 10 max_retries
    then err bad_budget
    else ok (record default_budget { max_tokens = max_tokens; max_retries = max_retries })

abbrev input : Text → TaskInput
input key = record { key = key; artifact_uri = []; content_hash = [] }

abbrev implementation_task : ModuleSpec → TaskId → Time → ModelTier → TaskBudget → Task
implementation_task m id now tier budget = record (default_task id now) {
  type = implement_feature;
  agent_type = coder;
  model_tier = tier;
  priority = get_or m.priority 5;
  description = strip (
      codes "Implement module: "
      ++ (get_or m.name (codes "unnamed") ++ (codes ". " ++ get_or m.description [])));
  inputs = input (codes "spec") ∷ [];
  budget = budget;
}

abbrev tier_of : ModuleSpec → Result DecomposeError ModelTier
tier_of m = parse_tier (get_or m.model_tier (codes "tier_2"))

abbrev budget_of : ModuleSpec → Result DecomposeError TaskBudget
budget_of m = make_budget (get_or m.max_tokens 100_000) (get_or m.max_retries 3)

-- `_create_implementation_task`
unfoldable pub create_implementation_task : ModuleSpec → TaskId → Time → Result DecomposeError Task
create_implementation_task m id now =
    and_then (tier_of m)
      λ tier. and_then (budget_of m) λ budget. ok (implementation_task m id now tier budget)

-- `_create_test_task`
unfoldable pub create_test_task : Task → TaskId → Time → Task
create_test_task impl_task id now = record (default_task id now) {
  type = write_test;
  agent_type = tester;
  model_tier = tier_2;
  priority = impl_task.priority;
  description = codes "Write tests for: " ++ impl_task.description;
  dependencies = impl_task.id ∷ [];
  inputs = input (codes "implementation") ∷ [];
  budget = record default_budget { max_tokens = 50_000; max_retries = 2 };
}

-- `_create_review_task`
unfoldable pub create_review_task : Task → Task → TaskId → Time → Task
create_review_task impl_task test_task id now = record (default_task id now) {
  type = review_code;
  agent_type = reviewer;
  model_tier = tier_1;
  priority = impl_task.priority + 1;
  description = codes "Review: " ++ impl_task.description;
  dependencies = impl_task.id ∷ test_task.id ∷ [];
  inputs = input (codes "implementation") ∷ input (codes "tests") ∷ [];
  budget = record default_budget { max_tokens = 30_000; max_retries = 1 };
}

-- `if not modules:` one module with the name and the description of the whole.
abbrev whole : Spec → ModuleSpec
whole spec = record {
  name = some (get_or spec.name (codes "main"));
  description = some (get_or spec.description []);
  priority = none;
  model_tier = none;
  max_tokens = none;
  max_retries = none;
}

abbrev modules_of : Spec → List ModuleSpec → List ModuleSpec
modules_of spec [] = whole spec ∷ []
modules_of spec (m ∷ ms) = m ∷ ms

module _ (fresh : ℕ → TaskId) (clock : ℕ → Time) where
  abbrev test_of : Task → ℕ → Task
  test_of impl k = create_test_task impl (fresh (k + 1)) (clock (k + 1))

  abbrev review_of : Task → ℕ → Task
  review_of impl k = create_review_task impl (test_of impl k) (fresh (k + 2)) (clock (k + 2))

  -- The loop over the modules: what it adds to `all_tasks`.
  unfoldable pub decompose_modules : ℕ → List ModuleSpec → Result DecomposeError (List Task)
  decompose_modules k [] = ok []
  decompose_modules k (m ∷ ms) = and_then (create_implementation_task m (fresh k) (clock k)) λ impl.
      and_then (decompose_modules (k + 3) ms)
        λ rest. ok (impl ∷ test_of impl k ∷ review_of impl k ∷ rest)

  -- `_deterministic_decompose`
  unfoldable pub deterministic_decompose : ℕ → Spec → Result DecomposeError (List Task)
  unfolding decompose_modules
  deterministic_decompose k spec = decompose_modules k (modules_of spec (get_or spec.modules []))
