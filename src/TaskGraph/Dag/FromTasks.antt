-- ===== src/TaskGraph/Dag/FromTasks.antt =====
-- The graph that `TaskDAG.from_tasks` (graph.py) rebuilds from a list of persisted tasks.
use architect.Common.{
  ◌≡◌, refl, Bool, true, false, ◌&&◌, ◌||◌, List, [], ◌∷◌, arith, elem, subset, elem-append,
  Bool-cases, ==-refl, inl, inr, ◌==◌,
}
use architect.TaskGraph.Models.{TaskId, Task}
use architect.TaskGraph.DiGraph.{DiGraph}
use architect.TaskGraph.Dag.{has_node, add_nodes, add_edges_to, add_edges, from_tasks}

abbrev pub ids : List Task → List TaskId
ids [] = []
ids (t ∷ ts) = t.id ∷ ids ts

-- Some task `n` of the list names `u` among its dependencies.
abbrev pub names_dep : List Task → TaskId → TaskId → Bool
names_dep [] u n = false
names_dep (t ∷ ts) u n = (n == t.id && elem u t.dependencies) || names_dep ts u n

names_dep-elem : (ts : List Task) (u n : TaskId) → names_dep ts u n ≡ true → elem n (ids ts) ≡ true
names_dep-elem [] u n h = cc
names_dep-elem (t ∷ ts) u n h = ground (arith, names_dep-elem ts u n)

module _ (nx : DiGraph) where
  open nx use {
    Graph, new, add_node, add_edge, nodes, predecessors, nodes-new, nodes-add_node,
    predecessors-add_node, predecessors-add_node_new, nodes-add_edge, elem-predecessors-add_edge,
  }

  elem-add_node :
      (g : Graph) (t : Task) (m : TaskId)
      → elem m (nodes (add_node g t.id t)) ≡ ((m == t.id) || elem m (nodes g))
  elem-add_node g t m =
      rw (nodes-add_node g t.id t) (ground (arith, elem-append m (nodes g) (t.id ∷ [])))

  elem-add_nodes :
      (g : Graph) (ts : List Task) (m : TaskId)
      → elem m (nodes (add_nodes nx g ts)) ≡ (elem m (ids ts) || elem m (nodes g))
  unfolding add_nodes
  elem-add_nodes g [] m = refl
  elem-add_nodes g (t ∷ ts) m =
      ground (arith, elem-add_nodes (add_node g t.id t) ts m, elem-add_node g t m)

  -- No node of the graph has a predecessor.
  HasNoEdge : Graph → Type 0
  HasNoEdge g = (n : TaskId) → elem n (nodes g) ≡ true → predecessors g n ≡ []

  add_node-HasNoEdge : (g : Graph) (t : Task) → HasNoEdge g → HasNoEdge (add_node g t.id t)
  unfolding HasNoEdge
  add_node-HasNoEdge g t h n here = elim (Bool-cases (elem n (nodes g))) [
    | inl old ↦ rw (predecessors-add_node g t.id t n old) (h n old)
    | inr fresh ↦
        let same : n ≡ t.id = ground (arith, elem-add_node g t n) in
        rw same (predecessors-add_node_new g t.id t (rw same at fresh))
  ]

  add_nodes-HasNoEdge : (g : Graph) (ts : List Task) → HasNoEdge g → HasNoEdge (add_nodes nx g ts)
  unfolding add_nodes
  add_nodes-HasNoEdge g [] h = h
  add_nodes-HasNoEdge g (t ∷ ts) h =
      add_nodes-HasNoEdge (add_node g t.id t) ts (add_node-HasNoEdge g t h)

  -- One task's edges, over a fixed set of nodes that holds the task.
  pub nodes-add_edges_to :
      (g : Graph) (n : TaskId) (deps : List TaskId)
      → elem n (nodes g) ≡ true
      → nodes (add_edges_to nx g n deps) ≡ nodes g
  unfolding add_edges_to
  nodes-add_edges_to g n [] here = refl
  nodes-add_edges_to g n (d ∷ deps) here = elim (Bool-cases (elem d (nodes g))) [
    | inl known ↦
        let same = nodes-add_edge g d n known here in
        rw known (cc (same, nodes-add_edges_to (add_edge g d n) n deps (rw same here)))
    | inr unknown ↦ rw unknown (nodes-add_edges_to g n deps here)
  ]

  elem-add_edges_to :
      (g : Graph) (n : TaskId) (deps : List TaskId) (u m : TaskId)
      → elem n (nodes g) ≡ true
      → elem u (predecessors (add_edges_to nx g n deps) m)
        ≡ ((m == n && elem u deps && elem u (nodes g)) || elem u (predecessors g m))
  unfolding add_edges_to
  elem-add_edges_to g n [] u m here = ground arith
  elem-add_edges_to g n (d ∷ deps) u m here = elim (Bool-cases (elem d (nodes g))) [
    | inl known ↦
        let same = nodes-add_edge g d n known here in
        rw known (
          ground (
            arith,
            same,
            elem-add_edges_to (add_edge g d n) n deps u m (rw same here),
            elem-predecessors-add_edge g d n u m known here,
          ))
    | inr unknown ↦ rw unknown (ground (arith, elem-add_edges_to g n deps u m here))
  ]

  nodes-add_edges :
      (g : Graph) (ts : List Task)
      → subset (ids ts) (nodes g) ≡ true
      → nodes (add_edges nx g ts) ≡ nodes g
  unfolding add_edges
  nodes-add_edges g [] here = refl
  nodes-add_edges g (t ∷ ts) here =
      let first : elem t.id (nodes g) ≡ true = ground arith in
      let rest : subset (ids ts) (nodes g) ≡ true = ground arith in
      let same = nodes-add_edges_to g t.id t.dependencies first in
      cc (same, nodes-add_edges (add_edges_to nx g t.id t.dependencies) ts (rw same rest))

  elem-add_edges :
      (g : Graph) (ts : List Task) (u m : TaskId)
      → subset (ids ts) (nodes g) ≡ true
      → elem u (predecessors (add_edges nx g ts) m)
        ≡ ((names_dep ts u m && elem u (nodes g)) || elem u (predecessors g m))
  unfolding add_edges
  elem-add_edges g [] u m here = refl
  elem-add_edges g (t ∷ ts) u m here =
      let first : elem t.id (nodes g) ≡ true = ground arith in
      let rest : subset (ids ts) (nodes g) ≡ true = ground arith in
      let same = nodes-add_edges_to g t.id t.dependencies first in
      ground (
        arith,
        same,
        elem-add_edges_to g t.id t.dependencies u m first,
        elem-add_edges (add_edges_to nx g t.id t.dependencies) ts u m (rw same rest),
      )

  subset_ids :
      (ts : List Task) (ns : List TaskId)
      → ((m : TaskId) → elem m (ids ts) ≡ true → elem m ns ≡ true)
      → subset (ids ts) ns ≡ true
  subset_ids [] ns h = refl
  subset_ids (t ∷ ts) ns h =
      ground
        (arith, h t.id (ground (arith, ==-refl t.id)), subset_ids ts ns (λ m k. h m (ground arith)))

  pub all_present : (ts : List Task) → subset (ids ts) (nodes (add_nodes nx new ts)) ≡ true
  all_present ts =
      subset_ids ts (nodes (add_nodes nx new ts)) λ m k. ground (arith, elem-add_nodes new ts m)

  new-HasNoEdge : HasNoEdge new
  unfolding HasNoEdge
  new-HasNoEdge n here = let none_there : elem n [] ≡ true = rw nodes-new at here in cc

  -- The nodes of the rebuilt graph are the given tasks. Its edges are the dependencies between
  -- given tasks: a dependency on a task that is not given is dropped.
  pub from_tasks-edges :
      (tasks : List Task) (n u : TaskId)
      → (has_node nx (from_tasks nx tasks) n ≡ elem n (ids tasks))
        × ((elem n (ids tasks) && elem u (predecessors (from_tasks nx tasks) n))
            ≡ (names_dep tasks u n && elem u (ids tasks)))
  unfolding from_tasks HasNoEdge
  from_tasks-edges tasks n u =
      let g = add_nodes nx new tasks in
      let same = nodes-add_edges g tasks (all_present tasks) in
      let ids_of = λ (m : TaskId). elem-add_nodes new tasks m in
      (
        rw same (ground (arith, ids_of n, nodes-new)),
        ground (
          arith,
          nodes-new,
          names_dep-elem tasks u n,
          elem-add_edges g tasks u n (all_present tasks),
          ids_of u,
          ids_of n,
          add_nodes-HasNoEdge new tasks new-HasNoEdge n,
        ),
      )
