-- ===== src/TaskGraph/Dag/Tests.antt =====
-- The export of a small task graph, and its theorem there.
use architect.Common.{◌≡◌, refl, some, All, List, [], ◌∷◌, elem}
use architect.Common.Result.{Result, ok, err}
use architect.TaskGraph.Models.{Task, TaskGraph, default_task}
use architect.TaskGraph.Dag.{
  Error, from_tasks, add_nodes, add_edges, add_edges_to, get_execution_order,
}
use architect.TaskGraph.Dag.FromTasks.{ids}
use architect.TaskGraph.Dag.Stored.{last_with}
use architect.TaskGraph.Dag.Export.{
  missing_dependency, isolated, validate, tasks_in, to_task_graph, to_task_graph-from_tasks,
}
use architect.TaskGraph.Samples.{plain}

-- The first task depends on the second, and the third on a task that is not there.
abbrev given : List Task
given =
    record (default_task 1 0) { dependencies = 2 ∷ [] }
    ∷ default_task 2 0
    ∷ record (default_task 3 0) { dependencies = 8 ∷ [] }
    ∷ []

abbrev snapshot_of : Result Error TaskGraph → TaskGraph
snapshot_of (ok g) = g
snapshot_of (err e) = record { tasks = []; execution_order = []; created_at = 0 }

abbrev snapshot : TaskGraph
snapshot = snapshot_of (to_task_graph plain 5 (from_tasks plain given))

snapshot_ok : to_task_graph plain 5 (from_tasks plain given) ≡ ok snapshot
unfolding to_task_graph tasks_in get_execution_order from_tasks add_nodes add_edges add_edges_to
snapshot_ok = refl

snapshot_order : snapshot.execution_order ≡ 2 ∷ 3 ∷ 1 ∷ []
unfolding to_task_graph tasks_in get_execution_order from_tasks add_nodes add_edges add_edges_to
snapshot_order = refl

problems : validate plain (from_tasks plain given) ≡ missing_dependency 3 8 ∷ isolated 3 ∷ []
unfolding validate from_tasks add_nodes add_edges add_edges_to
problems = refl

to_task_graph-from_tasks_example :
    (ids snapshot.tasks ≡ snapshot.execution_order)
    × (elem 3 snapshot.execution_order ≡ elem 3 (ids given))
    × All (λ (t : Task). last_with t.id given ≡ some t) snapshot.tasks
to_task_graph-from_tasks_example = to_task_graph-from_tasks plain 5 given snapshot 3 snapshot_ok
