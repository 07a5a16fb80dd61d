-- ===== src/TaskGraph/Dag.antt =====
-- `TaskDAG`, services/task-graph-engine/src/task_graph_engine/graph.py. An object is its networkx
-- graph; a method returns the new graph, or raises.
pub mod Ready
pub mod FromTasks
pub mod Ordered
pub mod Stored
pub mod Export
mod Tests
use architect.Common.{
  ℕ, Bool, false, not, none, some, List, [], ◌∷◌, length, filter, elem, subset, if◌then◌else◌,
}
use architect.Common.Sort.{sort_desc}
use architect.Common.Result.{Result, ok, err}
use architect.TaskGraph.Models.{TaskId, Task, StatusEnum}
use architect.TaskGraph.DiGraph.{DiGraph}

-- What the task graph and its scheduler raise.
pub data Error : Type 0 where
  already_exists task_not_found key_error : TaskId → Error
  invalid_transition : TaskId → StatusEnum → StatusEnum → Error
  circular_dependency : Error
  lock_timeout : Error

module _ (nx : DiGraph) where
  open nx use {
    Graph, new, add_node, add_edge, nodes, node_task, predecessors, successors, topological_sort,
  }

  -- `n in self._graph`
  abbrev pub has_node : Graph → TaskId → Bool
  has_node g n = elem n (nodes g)

  unfoldable pub add_task : Graph → Task → Result Error Graph
  add_task g t = if has_node g t.id then err (already_exists t.id) else ok (add_node g t.id t)

  unfoldable pub add_dependency : Graph → TaskId → TaskId → Result Error Graph
  add_dependency g from_task to_task =
      if not (has_node g from_task)
      then err (task_not_found from_task)
      else if not (has_node g to_task)
      then err (task_not_found to_task)
      else ok (add_edge g from_task to_task)

  unfoldable pub update_task : Graph → TaskId → Task → Result Error Graph
  update_task g task_id updated =
      if has_node g task_id then ok (add_node g task_id updated) else err (task_not_found task_id)

  -- A node with no task would be a `KeyError`.
  abbrev pub stored_task : Graph → TaskId → Result Error Task
  stored_task g task_id = elim (node_task g task_id) [
    | none ↦ err (key_error task_id)
    | some t ↦ ok t
  ]

  unfoldable pub get_task : Graph → TaskId → Result Error Task
  get_task g task_id =
      if has_node g task_id then stored_task g task_id else err (task_not_found task_id)

  unfoldable pub task_ids : Graph → List TaskId
  task_ids g = nodes g

  unfoldable pub task_count : Graph → ℕ
  task_count g = length (nodes g)

  unfoldable pub get_execution_order : Graph → Result Error (List TaskId)
  get_execution_order g = elim (topological_sort g) [
    | none ↦ err circular_dependency
    | some order ↦ ok order
  ]

  -- `self._graph.nodes[tid]["task"].priority`; every node of a `TaskDAG` is put in with its task.
  abbrev pub priority_of : Graph → TaskId → ℕ
  priority_of g tid = elim (node_task g tid) [ none ↦ 0 | some t ↦ t.priority ]

  -- The test of the loop: not completed itself, and every predecessor is.
  abbrev pub is_ready : Graph → List TaskId → TaskId → Bool
  is_ready g completed node =
      if elem node completed then false else subset (predecessors g node) completed

  unfoldable pub get_ready_tasks : Graph → List TaskId → List TaskId
  get_ready_tasks g completed = sort_desc (priority_of g) (filter (is_ready g completed) (nodes g))

  unfoldable pub get_dependents : Graph → TaskId → Result Error (List TaskId)
  get_dependents g task_id =
      if has_node g task_id then ok (successors g task_id) else err (task_not_found task_id)

  unfoldable pub get_dependencies : Graph → TaskId → Result Error (List TaskId)
  get_dependencies g task_id =
      if has_node g task_id then ok (predecessors g task_id) else err (task_not_found task_id)

  -- The first pass of `from_tasks`.
  unfoldable pub add_nodes : Graph → List Task → Graph
  add_nodes g [] = g
  add_nodes g (t ∷ ts) = add_nodes (add_node g t.id t) ts

  unfoldable pub add_edges_to : Graph → TaskId → List TaskId → Graph
  add_edges_to g task_id [] = g
  add_edges_to g task_id (dep_id ∷ deps) =
      add_edges_to (if has_node g dep_id then add_edge g dep_id task_id else g) task_id deps

  -- The second pass.
  unfoldable pub add_edges : Graph → List Task → Graph
  add_edges g [] = g
  add_edges g (t ∷ ts) = add_edges (add_edges_to g t.id t.dependencies) ts

  unfoldable pub from_tasks : List Task → Graph
  from_tasks tasks = add_edges (add_nodes new tasks) tasks
