-- ===== src/TaskGraph/Dag/Ordered.antt =====
-- Lists of tasks in dependency order, and the graphs that `TaskDAG.from_tasks` (graph.py) makes of
-- them.
use architect.Common.{
  ℕ, suc, ◌+◌, ◌<◌, ◌≡◌, true, false, ◌&&◌, List, [], ◌∷◌, ◌++◌, arith, length, elem, subset,
  subset-elem, Bool-cases, inl, inr, ◌==◌, if◌then◌else◌,
}
use mathlib.Core.List.{append_assoc}
use architect.TaskGraph.Models.{TaskId, Task}
use architect.TaskGraph.DiGraph.{DiGraph}
use architect.TaskGraph.Dag.{from_tasks}
use architect.TaskGraph.Dag.Ready.{IsAcyclic}
use architect.TaskGraph.Dag.FromTasks.{ids, names_dep, from_tasks-edges}

-- Every task stands behind its dependencies, and no two have one id.
abbrev pub IsOrdered : List TaskId → List Task → Type 0
IsOrdered seen [] = Unit
IsOrdered seen (t ∷ ts) =
    (elem t.id seen ≡ false)
    × (subset t.dependencies seen ≡ true)
    × IsOrdered (seen ++ t.id ∷ []) ts

abbrev index_of : TaskId → List TaskId → ℕ
index_of n [] = 0
index_of n (x ∷ xs) = if n == x then 0 else suc (index_of n xs)

index_of-append_in :
    (n : TaskId) (xs ys : List TaskId) → elem n xs ≡ true → index_of n (xs ++ ys) < length xs
index_of-append_in n [] ys h = cc
index_of-append_in n (x ∷ xs) ys h = ground (arith, index_of-append_in n xs ys)

index_of-append_out :
    (n : TaskId) (xs ys : List TaskId)
    → elem n xs ≡ false
    → index_of n (xs ++ ys) ≡ length xs + index_of n ys
index_of-append_out n [] ys h = omega arith
index_of-append_out n (x ∷ xs) ys h = ground (arith, index_of-append_out n xs ys)

IsOrdered-rank :
    (seen : List TaskId) (ts : List Task) (u n : TaskId)
    → IsOrdered seen ts
    → names_dep ts u n ≡ true
    → index_of u (seen ++ ids ts) < index_of n (seen ++ ids ts)
IsOrdered-rank seen [] u n o h = cc
IsOrdered-rank seen (t ∷ ts) u n o h = elim (Bool-cases (n == t.id && elem u t.dependencies)) [
  | inl this ↦ ground (
    arith,
    this,
    subset-elem t.dependencies seen u,
    index_of-append_in u seen (t.id ∷ ids ts),
    index_of-append_out n seen (t.id ∷ ids ts),
  )
  | inr later ↦
      rw (← append_assoc seen (t.id ∷ []) (ids ts))
        (IsOrdered-rank (seen ++ t.id ∷ []) ts u n o.2 (ground arith))
]

-- A list in which every task stands behind its dependencies gives an acyclic graph.
pub from_tasks-IsAcyclic :
    (nx : DiGraph) (tasks : List Task) → IsOrdered [] tasks → IsAcyclic nx (from_tasks nx tasks)
from_tasks-IsAcyclic nx tasks o = record {
  rank = λ n. index_of n (ids tasks);
  rank-lt = λ u n here edge.
      let (node, edges) = from_tasks-edges nx tasks n u in
      IsOrdered-rank [] tasks u n o (ground arith);
  present = λ u n here edge.
      let (node, edges) = from_tasks-edges nx tasks n u in
      let (node_u, _) = from_tasks-edges nx tasks u u in ground arith;
}
