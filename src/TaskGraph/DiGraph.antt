-- ===== src/TaskGraph/DiGraph.antt =====
-- networkx's `DiGraph` as the task graph uses it: nodes that carry a task under one attribute, in
-- insertion order. networkx is no part of the repository, so it is a parameter: its operations,
-- and the documented laws that the proofs rely on, each at arguments that the code passes.
use architect.Common.{
  ◌≡◌, Bool, true, false, ◌&&◌, ◌||◌, Option, none, some, List, [], ◌∷◌, ◌++◌, ◌==◌, elem,
  if◌then◌else◌,
}
use architect.TaskGraph.Models.{TaskId, Task}

pub record DiGraph : Type 1 where
  pub Graph : Type 0
  -- `nx.DiGraph()`
  pub new : Graph
  -- `g.add_node(n, task=t)`, and `g.nodes[n]["task"] = t` of a node that is there
  pub add_node : Graph → TaskId → Task → Graph
  pub add_edge : Graph → TaskId → TaskId → Graph
  -- `list(g.nodes)`; `n in g` looks into it
  pub nodes : Graph → List TaskId
  -- `g.nodes[n]["task"]`, if the node is there and has the attribute
  pub node_task : Graph → TaskId → Option Task
  pub predecessors : Graph → TaskId → List TaskId
  pub successors : Graph → TaskId → List TaskId
  -- `list(nx.topological_sort(g))`, `none` where it raises `NetworkXUnfeasible`
  pub topological_sort : Graph → Option (List TaskId)
  -- `nx.is_directed_acyclic_graph(g)`
  pub is_acyclic : Graph → Bool
  -- the first nodes of the edges of `nx.find_cycle(g)`, `none` where it raises `NetworkXNoCycle`
  pub find_cycle : Graph → Option (List TaskId)
  -- `list(nx.isolates(g))`
  pub isolates : Graph → List TaskId
  -- a topological order holds the nodes
  pub elem-topological_sort :
      (g : Graph) (order : List TaskId) (n : TaskId)
      → topological_sort g ≡ some order
      → elem n order ≡ elem n (nodes g)
  pub nodes-new : nodes new ≡ []
  pub node_task-new : (n : TaskId) → node_task new n ≡ none
  pub nodes-add_node :
      (g : Graph) (n : TaskId) (t : Task)
      → nodes (add_node g n t) ≡ (if elem n (nodes g) then nodes g else nodes g ++ n ∷ [])
  pub node_task-add_node :
      (g : Graph) (n : TaskId) (t : Task) (m : TaskId)
      → node_task (add_node g n t) m ≡ (if n == m then some t else node_task g m)
  -- a node that comes in has no edge, and no other edge changes
  pub predecessors-add_node :
      (g : Graph) (n : TaskId) (t : Task) (m : TaskId)
      → elem m (nodes g) ≡ true
      → predecessors (add_node g n t) m ≡ predecessors g m
  pub predecessors-add_node_new :
      (g : Graph) (n : TaskId) (t : Task)
      → elem n (nodes g) ≡ false
      → predecessors (add_node g n t) n ≡ []
  -- an edge between nodes that are there
  pub nodes-add_edge :
      (g : Graph) (u v : TaskId)
      → elem u (nodes g) ≡ true
      → elem v (nodes g) ≡ true
      → nodes (add_edge g u v) ≡ nodes g
  pub node_task-add_edge :
      (g : Graph) (u v m : TaskId)
      → elem u (nodes g) ≡ true
      → elem v (nodes g) ≡ true
      → node_task (add_edge g u v) m ≡ node_task g m
  pub elem-predecessors-add_edge :
      (g : Graph) (u v x w : TaskId)
      → elem u (nodes g) ≡ true
      → elem v (nodes g) ≡ true
      → elem x (predecessors (add_edge g u v) w)
        ≡ ((x == u) && (w == v) || elem x (predecessors g w))
