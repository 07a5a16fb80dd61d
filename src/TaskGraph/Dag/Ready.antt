-- ===== src/TaskGraph/Dag/Ready.antt =====
-- Which tasks `TaskDAG.get_ready_tasks` returns (graph.py), and in which order.
use architect.Common.{
  ℕ, zero, suc, ◌<◌, ◌≡◌, ◌≢◌, ◌↔◌, inl, inr, true, false, List, [], arith, some, filter, elem,
  subset, elem-filter, filter-elem, subset-cases,
}
use architect.Common.Sort.{sort_desc-elem, IsDescending, sort_desc-IsDescending}
use architect.TaskGraph.Models.{TaskId, Task}
use architect.TaskGraph.DiGraph.{DiGraph}
use architect.TaskGraph.Dag.{has_node, priority_of, is_ready, get_ready_tasks}

module _ (nx : DiGraph) where
  open nx use {Graph, nodes, predecessors}

  -- Every task stands under its own id.
  pub record IsWired (g : Graph) : Type 0 where
    pub task_id : (n : TaskId) (t : Task) → nx.node_task g n ≡ some t → t.id ≡ n

  -- Every task of the graph has the property.
  pub record AllTasks (P : Task → Type 0) (g : Graph) : Type 0 where
    pub at : (n : TaskId) (t : Task) → nx.node_task g n ≡ some t → P t

  -- What it means for a task to be ready.
  pub record IsReady (g : Graph) (completed : List TaskId) (n : TaskId) : Type 0 where
    pub present : has_node nx g n ≡ true
    pub not_completed : elem n completed ≡ false
    pub deps_completed : subset (predecessors g n) completed ≡ true

  elem-IsReady :
      (g : Graph) (completed : List TaskId) (n : TaskId)
      → elem n (get_ready_tasks nx g completed) ≡ true
      → IsReady g completed n
  unfolding get_ready_tasks
  elem-IsReady g completed n h =
      let e : elem n (filter (is_ready nx g completed) (nodes g)) ≡ true =
        rw (sort_desc-elem (priority_of nx g) n (filter (is_ready nx g completed) (nodes g))) at
          h in
      let (test, here) = elem-filter (is_ready nx g completed) n (nodes g) e in ground arith

  IsReady-elem :
      (g : Graph) (completed : List TaskId) (n : TaskId)
      → IsReady g completed n
      → elem n (get_ready_tasks nx g completed) ≡ true
  unfolding get_ready_tasks
  IsReady-elem g completed n r =
      rw (sort_desc-elem (priority_of nx g) n (filter (is_ready nx g completed) (nodes g)))
        (filter-elem (is_ready nx g completed) n (nodes g) r.present (ground arith))

  -- The returned tasks are exactly the tasks of the graph that are not completed and whose
  -- predecessors all are; they stand in descending priority.
  pub get_ready_tasks-IsReady :
      (g : Graph) (completed : List TaskId)
      → ((n : TaskId) → (elem n (get_ready_tasks nx g completed) ≡ true) ↔ IsReady g completed n)
        × IsDescending (priority_of nx g) (get_ready_tasks nx g completed)
  unfolding get_ready_tasks
  get_ready_tasks-IsReady g completed = (
    λ n. (elem-IsReady g completed n, IsReady-elem g completed n),
    sort_desc-IsDescending (priority_of nx g) (filter (is_ready nx g completed) (nodes g)),
  )

  -- An acyclic graph, by a rank that grows along every edge; edges join nodes of the graph.
  pub record IsAcyclic (g : Graph) : Type 0 where
    pub rank : TaskId → ℕ
    pub rank-lt :
        (u n : TaskId) → has_node nx g n ≡ true → elem u (predecessors g n) ≡ true → rank u < rank n
    pub present :
        (u n : TaskId)
        → has_node nx g n ≡ true
        → elem u (predecessors g n) ≡ true
        → has_node nx g u ≡ true

  -- From a node that is not completed, walk back to one that is ready.
  IsReady-before :
      (g : Graph) (completed : List TaskId) (a : IsAcyclic g) (fuel : ℕ) (n : TaskId)
      → a.rank n < fuel
      → has_node nx g n ≡ true
      → elem n completed ≡ false
      → (m : TaskId) × IsReady g completed m
  IsReady-before g completed a zero n lt here left = elim lt [ ]
  IsReady-before g completed a (suc fuel) n lt here left =
      elim (subset-cases (predecessors g n) completed) [
        | inl done ↦ (n, record { present = here; not_completed = left; deps_completed = done })
        | inr (u, edge, waits) ↦
            let smaller = a.rank-lt u n here edge in
            IsReady-before g completed a fuel u (omega arith) (a.present u n here edge) waits
      ]

  -- In an acyclic graph with a task that is not completed, some task is ready.
  pub get_ready_tasks-progress :
      (g : Graph) (completed : List TaskId) (n : TaskId)
      → IsAcyclic g
      → has_node nx g n ≡ true
      → elem n completed ≡ false
      → get_ready_tasks nx g completed ≢ []
  get_ready_tasks-progress g completed n a here left none_ready =
      let (m, ready) = IsReady-before g completed a (suc (a.rank n)) n (omega arith) here left in
      let found = IsReady-elem g completed m ready in
      let absent : elem m [] ≡ true = rw none_ready at found in cc
