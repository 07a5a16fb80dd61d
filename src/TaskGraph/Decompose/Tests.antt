-- ===== src/TaskGraph/Decompose/Tests.antt =====
-- The decomposition of a small specification, and its theorem there.
use architect.Common.{ℕ, ◌≡◌, refl, none, some, List, [], All}
use architect.Common.Result.{Result, ok, err}
use architect.Common.Text.{codes}
use architect.TaskGraph.Models.{TaskId, Task}
use architect.TaskGraph.Dag.Ordered.{IsOrdered}
use architect.TaskGraph.Scheduler.Attempts.{IsFresh}
use architect.TaskGraph.Decompose.{Spec, deterministic_decompose, create_implementation_task}
use architect.TaskGraph.Decompose.Order.{deterministic_decompose-IsOrdered}

abbrev spec : Spec
spec = record { modules = none; name = some (codes "api"); description = none }

abbrev same_id : ℕ → TaskId
same_id k = k

abbrev at_zero : ℕ → ℕ
at_zero k = 0

abbrev tasks_of : {E : Type 0} → Result E (List Task) → List Task
tasks_of (ok ts) = ts
tasks_of (err e) = []

abbrev decomposed : List Task
decomposed = tasks_of (deterministic_decompose same_id at_zero 0 spec)

decomposed_ok : deterministic_decompose same_id at_zero 0 spec ≡ ok decomposed
unfolding deterministic_decompose create_implementation_task
decomposed_ok = refl

deterministic_decompose-IsOrdered_example : IsOrdered [] decomposed × All IsFresh decomposed
deterministic_decompose-IsOrdered_example =
    deterministic_decompose-IsOrdered same_id at_zero spec decomposed (λ i j e. e) decomposed_ok
