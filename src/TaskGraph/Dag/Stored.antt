-- ===== src/TaskGraph/Dag/Stored.antt =====
-- The tasks that the graph of `TaskDAG.from_tasks` (graph.py) carries.
use architect.Common.{
  ◌≡◌, refl, sym, ◌∙◌, subst, true, Option, none, List, [], ◌∷◌, some, Option-cases, if◌then◌else◌,
  arith, All, elem, subset, Bool-cases, inl, inr, ◌==◌,
}
use architect.TaskGraph.Models.{TaskId, Task}
use architect.TaskGraph.DiGraph.{DiGraph}
use architect.TaskGraph.Dag.{add_nodes, add_edges_to, add_edges, from_tasks}
use architect.TaskGraph.Dag.Ready.{IsWired, AllTasks}
use architect.TaskGraph.Dag.FromTasks.{ids, nodes-add_edges_to, all_present}

some_eq : {A : Type 0} (a b : A) → some a ≡ some b → a ≡ b
some_eq a b e = cc

-- The last task of a list under an id, which is the one that a dict of the tasks by id would hold.
unfoldable pub last_with : TaskId → List Task → Option Task
last_with n [] = none
last_with n (t ∷ ts) = elim (last_with n ts) [
  | some later ↦ some later
  | none ↦ if t.id == n then some t else none
]

module _ (nx : DiGraph) where
  open nx use {
    Graph, new, add_node, add_edge, nodes, node_task, node_task-add_node, node_task-add_edge,
    node_task-new,
  }

  add_nodes-IsWired : (g : Graph) (ts : List Task) → IsWired nx g → IsWired nx (add_nodes nx g ts)
  unfolding add_nodes
  add_nodes-IsWired g [] w = w
  add_nodes-IsWired g (t ∷ ts) w =
      add_nodes-IsWired (add_node g t.id t) ts
        (record { task_id = λ n x e. ground (arith, node_task-add_node g t.id t n, w.task_id n x) })

  add_nodes-AllTasks :
      (P : Task → Type 0) (g : Graph) (ts : List Task)
      → AllTasks nx P g
      → All P ts
      → AllTasks nx P (add_nodes nx g ts)
  unfolding add_nodes
  add_nodes-AllTasks P g [] all h = all
  add_nodes-AllTasks P g (t ∷ ts) all h =
      add_nodes-AllTasks P (add_node g t.id t) ts
        (record {
          at = λ n x e. elim (Bool-cases (t.id == n)) [
            | inl this ↦
                let stored : some t ≡ some x =
                  sym (rw this at (node_task-add_node g t.id t n)) ∙ e in
                subst P (some_eq t x stored) h.0
            | inr other ↦ all.at n x (sym (rw other at (node_task-add_node g t.id t n)) ∙ e)
          ];
        })
        h.1

  node_task-add_edges_to :
      (g : Graph) (n m : TaskId) (deps : List TaskId)
      → elem n (nodes g) ≡ true
      → node_task (add_edges_to nx g n deps) m ≡ node_task g m
  unfolding add_edges_to
  node_task-add_edges_to g n m [] here = refl
  node_task-add_edges_to g n m (d ∷ deps) here = elim (Bool-cases (elem d (nodes g))) [
    | inl known ↦
        let kept : elem n (nodes (add_edge g d n)) ≡ true =
          rw (nx.nodes-add_edge g d n known here) here in
        rw known (
          cc (
            node_task-add_edge g d n m known here,
            node_task-add_edges_to (add_edge g d n) n m deps kept,
          ))
    | inr unknown ↦ rw unknown (node_task-add_edges_to g n m deps here)
  ]

  node_task-add_edges :
      (g : Graph) (ts : List Task) (m : TaskId)
      → subset (ids ts) (nodes g) ≡ true
      → node_task (add_edges nx g ts) m ≡ node_task g m
  unfolding add_edges
  node_task-add_edges g [] m here = refl
  node_task-add_edges g (t ∷ ts) m here =
      let first : elem t.id (nodes g) ≡ true = ground arith in
      let rest : subset (ids ts) (nodes g) ≡ true = ground arith in
      let same = nodes-add_edges_to nx g t.id t.dependencies first in
      node_task-add_edges (add_edges_to nx g t.id t.dependencies) ts m (rw same rest)
      ∙ node_task-add_edges_to g t.id m t.dependencies first

  from_tasks-node_task :
      (tasks : List Task) (n : TaskId)
      → node_task (from_tasks nx tasks) n ≡ node_task (add_nodes nx new tasks) n
  unfolding from_tasks
  from_tasks-node_task tasks n =
      node_task-add_edges (add_nodes nx new tasks) tasks n (all_present nx tasks)

  -- Each node of the rebuilt graph carries a given task, under the id of that task.
  pub from_tasks-IsWired : (tasks : List Task) → IsWired nx (from_tasks nx tasks)
  from_tasks-IsWired tasks =
      let w = add_nodes-IsWired new tasks (record { task_id = λ n t e. cc (node_task-new n) }) in
      record { task_id = λ n t e. w.task_id n t (rw (from_tasks-node_task tasks n) at e) }

  pub from_tasks-AllTasks :
      (P : Task → Type 0) (tasks : List Task) → All P tasks → AllTasks nx P (from_tasks nx tasks)
  from_tasks-AllTasks P tasks h =
      let all = add_nodes-AllTasks P new tasks (record { at = λ n t e. cc (node_task-new n) }) h in
      record { at = λ n t e. all.at n t (rw (from_tasks-node_task tasks n) at e) }

  over : Option Task → Option Task → Option Task
  over none o = o
  over (some t) o = some t

  node_task-add_nodes :
      (g : Graph) (ts : List Task) (n : TaskId)
      → node_task (add_nodes nx g ts) n ≡ over (last_with n ts) (node_task g n)
  unfolding add_nodes over last_with
  node_task-add_nodes g [] n = refl
  node_task-add_nodes g (t ∷ ts) n =
      let later = node_task-add_nodes (add_node g t.id t) ts n in
      let put = node_task-add_node g t.id t n in
      later ∙ (elim (Option-cases (last_with n ts)) [
        | inr (x, e) ↦ rw e refl
        | inl e ↦ elim (Bool-cases (t.id == n)) [
          | inl this ↦ rw (e, put, this) refl
          | inr other ↦ rw (e, put, other) refl
        ]
      ])

  -- A node of the rebuilt graph carries the last given task of its id.
  pub from_tasks-last_with :
      (tasks : List Task) (n : TaskId) → node_task (from_tasks nx tasks) n ≡ last_with n tasks
  unfolding over
  from_tasks-last_with tasks n =
      from_tasks-node_task tasks n
      ∙ node_task-add_nodes new tasks n
      ∙ (elim (Option-cases (last_with n tasks)) [
        | inl e ↦ rw (e, node_task-new n) refl
        | inr (t, e) ↦ rw e refl
      ])
