-- ===== src/TaskGraph/Decompose/Order.antt =====
-- The tasks of a deterministic decomposition (decomposer.py), their order and their state.
use architect.Common.{
  ℕ, zero, suc, subst, ◌+◌, ◌≤◌, ◌<◌, ◌≡◌, refl, false, List, [], ◌∷◌, ◌++◌, arith, All, elem,
  elem-append, ◌==◌, ==-refl,
}
use native.Mathlib.Numerals.{towards_suc}
use architect.Common.Result.{Result, ok, and_then, and_then-eq-ok}
use architect.TaskGraph.Models.{TaskId, Time, Task, ModelTier, TaskBudget}
use architect.TaskGraph.Dag.Ordered.{IsOrdered}
use architect.TaskGraph.Scheduler.Attempts.{IsFresh}
use architect.TaskGraph.Decompose.{
  ModuleSpec, Spec, DecomposeError, create_implementation_task, create_test_task,
  create_review_task, test_of, review_of, decompose_modules, deterministic_decompose, modules_of,
  get_or, implementation_task, tier_of, budget_of,
}

list_eq : (a b : List Task) → ◌≡◌ {A = Result DecomposeError (List Task)} (ok a) (ok b) → a ≡ b
list_eq a b e = cc

ok_eq : (a b : Task) → ◌≡◌ {A = Result DecomposeError Task} (ok a) (ok b) → a ≡ b
ok_eq a b e = cc

create_implementation_task-shape :
    (m : ModuleSpec) (id : TaskId) (now : Time) (t : Task)
    → create_implementation_task m id now ≡ ok t
    → (tier : ModelTier) × (budget : TaskBudget) × (implementation_task m id now tier budget ≡ t)
unfolding create_implementation_task
create_implementation_task-shape m id now t h =
    let (tier, has_tier, h1) =
      and_then-eq-ok (tier_of m)
        (λ tier. and_then (budget_of m) λ budget. ok (implementation_task m id now tier budget))
        h in
    let (budget, has_budget, h2) =
      and_then-eq-ok (budget_of m) (λ budget. ok (implementation_task m id now tier budget)) h1 in
    (tier, budget, ok_eq (implementation_task m id now tier budget) t h2)

create_implementation_task-fields :
    (m : ModuleSpec) (id : TaskId) (now : Time) (t : Task)
    → create_implementation_task m id now ≡ ok t
    → (t.id ≡ id) × (t.dependencies ≡ []) × IsFresh t
create_implementation_task-fields m id now t h =
    let (tier, budget, same) = create_implementation_task-shape m id now t h in
    subst (λ (x : Task). (x.id ≡ id) × (x.dependencies ≡ []) × IsFresh x) same
      (refl, refl, record { not_begun = refl; no_attempt = refl; no_history = refl })

-- Distinct calls of `new_task_id()` give distinct ids.
abbrev pub AreDistinct : (ℕ → TaskId) → Type 0
AreDistinct fresh = (i j : ℕ) → fresh i ≡ fresh j → i ≡ j

module _ (fresh : ℕ → TaskId) (clock : ℕ → Time) where
  -- The ids handed out from the start up to a count.
  abbrev used : ℕ → List TaskId
  used zero = []
  used (suc k) = used k ++ fresh k ∷ []

  used-fresh : AreDistinct fresh → (k n : ℕ) → k ≤ n → elem (fresh n) (used k) ≡ false
  used-fresh distinct zero n h = refl
  used-fresh distinct (suc k) n h = ground (
    arith,
    elem-append (fresh n) (used k) (fresh k ∷ []),
    used-fresh distinct k n (omega arith),
    distinct n k,
  )

  fresh-ne : AreDistinct fresh → (k n : ℕ) → k < n → (fresh n == fresh k) ≡ false
  fresh-ne distinct k n h = ground (arith, distinct n k)

  used-add_three :
      (k : ℕ)
      → used (k + 3) ≡ ((used k ++ fresh k ∷ []) ++ fresh (k + 1) ∷ []) ++ fresh (k + 2) ∷ []
  used-add_three k = simp towards_suc

  triple-IsOrdered :
      (k : ℕ) (impl : Task) (rest : List Task)
      → AreDistinct fresh
      → impl.id ≡ fresh k
      → impl.dependencies ≡ []
      → IsOrdered (used (k + 3)) rest
      → IsOrdered (used k) (impl ∷ test_of fresh clock impl k ∷ review_of fresh clock impl k ∷ rest)
  unfolding create_test_task create_review_task
  triple-IsOrdered k impl rest d is_id no_deps ordered =
      let k0 = used-fresh d k k (omega arith) in
      let k1 = used-fresh d k (k + 1) (omega arith) in
      let k2 = used-fresh d k (k + 2) (omega arith) in
      let ne1 = fresh-ne d k (k + 1) (omega arith) in
      let ne2 = fresh-ne d k (k + 2) (omega arith) in
      let ne3 = fresh-ne d (k + 1) (k + 2) (omega arith) in
      let first = used k ++ fresh k ∷ [] in
      let in_first = λ (x : TaskId). elem-append x (used k) (fresh k ∷ []) in
      let in_second = λ (x : TaskId). elem-append x first (fresh (k + 1) ∷ []) in
      rw (is_id, no_deps)
        (
          k0,
          refl,
          (
            (ground (arith, in_first (fresh (k + 1)))),
            (ground (arith, in_first (fresh k), ==-refl (fresh k))),
            (
              (ground (arith, in_second (fresh (k + 2)), in_first (fresh (k + 2)))),
              (ground (
                arith,
                in_second (fresh k),
                in_first (fresh k),
                ==-refl (fresh k),
                in_second (fresh (k + 1)),
                ==-refl (fresh (k + 1)),
              )),
              rw (used-add_three k) at ordered,
            ),
          ),
        )

  decompose_modules-IsOrdered :
      (k : ℕ) (ms : List ModuleSpec) (ts : List Task)
      → AreDistinct fresh
      → decompose_modules fresh clock k ms ≡ ok ts
      → IsOrdered (used k) ts × All IsFresh ts
  unfolding decompose_modules create_test_task create_review_task
  decompose_modules-IsOrdered k [] ts d h =
      subst (λ l. IsOrdered (used k) l × All IsFresh l) (list_eq [] ts h) (tt, tt)
  decompose_modules-IsOrdered k (m ∷ ms) ts d h =
      let (impl, made, h1) =
        and_then-eq-ok (create_implementation_task m (fresh k) (clock k))
          (λ impl.
            and_then (decompose_modules fresh clock (k + 3) ms)
              λ rest. ok (impl ∷ test_of fresh clock impl k ∷ review_of fresh clock impl k ∷ rest))
          h in
      let (rest, made_rest, h2) =
        and_then-eq-ok (decompose_modules fresh clock (k + 3) ms)
          (λ rest. ok (impl ∷ test_of fresh clock impl k ∷ review_of fresh clock impl k ∷ rest))
          h1 in
      let (is_id, no_deps, is_fresh) =
        create_implementation_task-fields m (fresh k) (clock k) impl made in
      let (ordered, all_fresh) = decompose_modules-IsOrdered (k + 3) ms rest d made_rest in
      subst (λ l. IsOrdered (used k) l × All IsFresh l)
        (list_eq (impl ∷ test_of fresh clock impl k ∷ review_of fresh clock impl k ∷ rest) ts h2)
        (
          triple-IsOrdered k impl rest d is_id no_deps ordered,
          (
            is_fresh,
            (
              record { not_begun = refl; no_attempt = refl; no_history = refl },
              (record { not_begun = refl; no_attempt = refl; no_history = refl }, all_fresh),
            ),
          ),
        )

  -- A decomposition that does not raise lists every task behind the tasks that it depends on, under
  -- ids of their own, and no task has been run.
  pub deterministic_decompose-IsOrdered :
      (spec : Spec) (tasks : List Task)
      → AreDistinct fresh
      → deterministic_decompose fresh clock 0 spec ≡ ok tasks
      → IsOrdered [] tasks × All IsFresh tasks
  unfolding deterministic_decompose
  deterministic_decompose-IsOrdered spec tasks distinct h =
      decompose_modules-IsOrdered 0 (modules_of spec (get_or spec.modules [])) tasks distinct h
