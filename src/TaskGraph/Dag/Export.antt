-- ===== src/TaskGraph/Dag/Export.antt =====
-- `TaskDAG.validate` and `TaskDAG.to_task_graph` (graph.py).
use architect.Common.{
  ◌≡◌, ◌∙◌, sym, ap, subst, All, not, Option, none, some, List, [], ◌∷◌, ◌++◌, arith, elem, ltb,
  length, if◌then◌else◌,
}
use architect.Common.Result.{Result, ok, and_then, and_then-eq-ok}
use architect.TaskGraph.Models.{TaskId, Task, Time, TaskGraph}
use architect.TaskGraph.DiGraph.{DiGraph}
use architect.TaskGraph.Dag.{Error, has_node, stored_task, get_execution_order, from_tasks}
use architect.TaskGraph.Dag.Ready.{IsWired}
use architect.TaskGraph.Dag.FromTasks.{ids, from_tasks-edges}
use architect.TaskGraph.Dag.Stored.{from_tasks-IsWired, from_tasks-last_with, last_with}

-- The structural problems that `validate` names.
pub data Problem : Type 0 where
  cycle_detected : List TaskId → Problem
  missing_dependency : (task_id dep_id : TaskId) → Problem
  isolated : TaskId → Problem

order_eq : {a b : List TaskId} → ◌≡◌ {A = Result Error (List TaskId)} (ok a) (ok b) → a ≡ b
order_eq e = cc

graph_eq : {a b : TaskGraph} → ◌≡◌ {A = Result Error TaskGraph} (ok a) (ok b) → a ≡ b
graph_eq e = cc

task_list_eq : {a b : List Task} → ◌≡◌ {A = Result Error (List Task)} (ok a) (ok b) → a ≡ b
task_list_eq e = cc

module _ (nx : DiGraph) where
  open nx use {Graph, nodes, node_task, topological_sort, is_acyclic, find_cycle, isolates}

  abbrev cycle_problems : Graph → List Problem
  cycle_problems g = elim (find_cycle g) [ none ↦ [] | some cycle ↦ cycle_detected cycle ∷ [] ]

  abbrev missing_of : Graph → TaskId → List TaskId → List Problem
  missing_of g task_id [] = []
  missing_of g task_id (dep_id ∷ deps) =
      let rest = missing_of g task_id deps in
      if not (has_node nx g dep_id) then missing_dependency task_id dep_id ∷ rest else rest

  -- The loop over the nodes; every node of a `TaskDAG` is put in with its task.
  abbrev missing_at : Graph → Option Task → List Problem
  missing_at g none = []
  missing_at g (some task) = missing_of g task.id task.dependencies

  abbrev missing_in : Graph → List TaskId → List Problem
  missing_in g [] = []
  missing_in g (n ∷ ns) = missing_at g (node_task g n) ++ missing_in g ns

  abbrev isolated_in : List TaskId → List Problem
  isolated_in [] = []
  isolated_in (n ∷ ns) = isolated n ∷ isolated_in ns

  unfoldable pub validate : Graph → List Problem
  validate g =
      (if is_acyclic g then [] else cycle_problems g)
      ++ missing_in g (nodes g)
      ++ (if ltb 1 (length (nodes g)) then isolated_in (isolates g) else [])

  -- `[self._graph.nodes[tid]["task"] for tid in execution_order]`
  unfoldable pub tasks_in : Graph → List TaskId → Result Error (List Task)
  tasks_in g [] = ok []
  tasks_in g (n ∷ ns) =
      and_then (stored_task nx g n) λ t. and_then (tasks_in g ns) λ ts. ok (t ∷ ts)

  unfoldable pub to_task_graph : Time → Graph → Result Error TaskGraph
  to_task_graph now g = and_then (get_execution_order nx g) λ order.
      and_then (tasks_in g order)
        λ ts. ok (record { tasks = ts; execution_order = order; created_at = now })

  stored_task-id :
      (g : Graph) (n : TaskId) (t : Task) → IsWired nx g → stored_task nx g n ≡ ok t → t.id ≡ n
  stored_task-id g n t w h = w.task_id n t (ground arith)

  tasks_in-ids :
      (g : Graph) (order : List TaskId) (ts : List Task)
      → IsWired nx g
      → tasks_in g order ≡ ok ts
      → ids ts ≡ order
  unfolding tasks_in
  tasks_in-ids g [] ts w h = sym (ap ids (task_list_eq h))
  tasks_in-ids g (n ∷ order) ts w h =
      let (t, found, h1) =
        and_then-eq-ok (stored_task nx g n) (λ t. and_then (tasks_in g order) λ ts. ok (t ∷ ts))
          h in
      let (rest, found_rest, h2) = and_then-eq-ok (tasks_in g order) (λ ts. ok (t ∷ ts)) h1 in
      let same : t ∷ rest ≡ ts = task_list_eq h2 in
      rw (← same) (cc (stored_task-id g n t w found, tasks_in-ids g order rest w found_rest))

  IsStored : Graph → Task → Type 0
  IsStored g t = node_task g t.id ≡ some t

  tasks_in-IsStored :
      (g : Graph) (order : List TaskId) (ts : List Task)
      → IsWired nx g
      → tasks_in g order ≡ ok ts
      → All (IsStored g) ts
  unfolding tasks_in IsStored
  tasks_in-IsStored g [] ts w h = subst (All (IsStored g)) (task_list_eq h) tt
  tasks_in-IsStored g (n ∷ order) ts w h =
      let (t, found, h1) =
        and_then-eq-ok (stored_task nx g n) (λ t. and_then (tasks_in g order) λ ts. ok (t ∷ ts))
          h in
      let (rest, found_rest, h2) = and_then-eq-ok (tasks_in g order) (λ ts. ok (t ∷ ts)) h1 in
      let there : node_task g n ≡ some t = ground arith in
      let this : IsStored g t = rw (stored_task-id g n t w found) there in
      subst (All (IsStored g)) (task_list_eq h2) (this, tasks_in-IsStored g order rest w found_rest)

  given-IsStored :
      (tasks ts : List Task)
      → All (IsStored (from_tasks nx tasks)) ts
      → All (λ (t : Task). last_with t.id tasks ≡ some t) ts
  unfolding IsStored
  given-IsStored tasks [] h = tt
  given-IsStored tasks (t ∷ ts) h =
      (sym (from_tasks-last_with nx tasks t.id) ∙ h.0, given-IsStored tasks ts h.1)

  -- Where the graph that is rebuilt from tasks can be exported, its snapshot lists the tasks in the
  -- execution order, it has a task of each given id and of no other, and each is, field by field, the
  -- last given task under its id.
  pub to_task_graph-from_tasks :
      (now : Time) (tasks : List Task) (exported : TaskGraph) (n : TaskId)
      → to_task_graph now (from_tasks nx tasks) ≡ ok exported
      → (ids exported.tasks ≡ exported.execution_order)
        × (elem n exported.execution_order ≡ elem n (ids tasks))
        × All (λ (t : Task). last_with t.id tasks ≡ some t) exported.tasks
  unfolding to_task_graph get_execution_order
  to_task_graph-from_tasks now tasks exported n h =
      let g = from_tasks nx tasks in
      let (order, is_order, h1) =
        and_then-eq-ok (get_execution_order nx g)
          (λ order.
            and_then (tasks_in g order)
              λ ts. ok (record { tasks = ts; execution_order = order; created_at = now }))
          h in
      let (ts, found, h2) =
        and_then-eq-ok (tasks_in g order)
          (λ ts. ok (record { tasks = ts; execution_order = order; created_at = now })) h1 in
      let sorted : topological_sort g ≡ some order = ground (arith, is_order) in
      let same : record { tasks = ts; execution_order = order; created_at = now } ≡ exported =
        graph_eq h2 in
      let kept = nx.elem-topological_sort g order n sorted in
      rw (← same) (
        tasks_in-ids g order ts (from_tasks-IsWired nx tasks) found,
        kept ∙ (from_tasks-edges nx tasks n n).0,
        given-IsStored tasks ts (tasks_in-IsStored g order ts (from_tasks-IsWired nx tasks) found),
      )
