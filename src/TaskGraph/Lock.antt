-- ===== src/TaskGraph/Lock.antt =====
-- `DistributedSchedulerLock`, services/task-graph-engine/src/task_graph_engine/distributed_lock.py.
-- Redis is a service outside the repository, so it is a parameter: the commands that the lock sends
-- and their documented effect. A key that expires is a change of the store by its surroundings.
use architect.Common.{
  ℕ, zero, suc, ◌≡◌, Bool, true, false, not, ◌&&◌, ◌||◌, Option, none, some, List, [], ◌∷◌, ◌++◌,
  ◌==◌, elem, add, if◌then◌else◌,
}
use architect.TaskGraph.Models.{TaskId}

-- `_LOCK_KEY`, `_CLAIMED_PREFIX` with a task's id, `_COMPLETED_KEY`: three kinds of distinct texts.
pub data Key : Type 0 where
  lock_key completed_key : Key
  claimed_key : TaskId → Key

abbrev pub key_eq : Key → Key → Bool
key_eq lock_key lock_key = true
key_eq completed_key completed_key = true
key_eq (claimed_key a) (claimed_key b) = a == b
key_eq _ _ = false

pub record Redis : Type 1 where
  pub Store : Type 0
  -- `SET key 1 NX EX ttl`: whether it was set
  pub set_nx : Store → Key → Bool × Store
  pub delete : Store → Key → Store
  pub sadd : Store → Key → TaskId → Store
  pub smembers : Store → Key → List TaskId
  -- `SCAN MATCH architect:scheduler:claimed:*`
  pub scan_claimed : Store → List Key
  -- `EXISTS key`
  pub exists : Store → Key → Bool
  pub set_nx-result : (s : Store) (k : Key) → (set_nx s k).0 ≡ not (exists s k)
  pub exists-set_nx : (s : Store) (k j : Key) → exists (set_nx s k).1 j ≡ (key_eq k j || exists s j)
  pub exists-delete :
      (s : Store) (k j : Key) → exists (delete s k) j ≡ (not (key_eq k j) && exists s j)
  pub exists-sadd :
      (s : Store) (k j : Key) (x : TaskId) → exists (sadd s k x) j ≡ (key_eq k j || exists s j)
  pub smembers-set_nx :
      (s : Store) (k j : Key) → key_eq k j ≡ false → smembers (set_nx s k).1 j ≡ smembers s j
  pub smembers-delete :
      (s : Store) (k j : Key) → key_eq k j ≡ false → smembers (delete s k) j ≡ smembers s j
  pub elem-smembers-sadd :
      (s : Store) (k : Key) (x y : TaskId)
      → elem y (smembers (sadd s k x) k) ≡ ((y == x) || elem y (smembers s k))

-- The object: the connection, if one is configured, and the local fallback.
pub record Lock (Store : Type 0) : Type 0 where
  pub redis : Option Store
  pub local_completed : List TaskId

module _ (rd : Redis) where
  open rd use {Store, set_nx, delete, sadd, smembers, scan_claimed}

  unfoldable pub try_claim_task : Lock Store → TaskId → Bool × Lock Store
  try_claim_task lk task_id = elim lk.redis [
    | some r ↦
        let (got, r') = set_nx r (claimed_key task_id) in (got, record lk { redis = some r' })
    | none ↦ (true, lk)
  ]

  unfoldable pub mark_completed : Lock Store → TaskId → Lock Store
  mark_completed lk task_id = elim lk.redis [
    | some r ↦ record {
      redis = some (delete (sadd r completed_key task_id) (claimed_key task_id));
      local_completed = add task_id lk.local_completed;
    }
    | none ↦ record lk { local_completed = add task_id lk.local_completed }
  ]

  unfoldable pub get_completed : Lock Store → List TaskId
  get_completed lk = elim lk.redis [ some r ↦ smembers r completed_key | none ↦ lk.local_completed ]

  -- The polls of `schedule_lock` until its deadline: `SET NX`, and after each failure a sleep in
  -- which the surroundings change the store by `wait`.
  unfoldable pub acquire : ℕ → (Store → Store) → Store → Bool × Store
  acquire zero wait r = (false, r)
  acquire (suc polls) wait r =
      let (got, r') = set_nx r lock_key in
      let rest = acquire polls wait (wait r') in if got then (true, r') else rest

  delete_all : List Key → Store → Store
  delete_all [] r = r
  delete_all (k ∷ ks) r = delete_all ks (delete r k)

  unfoldable pub reset : Lock Store → Lock Store
  unfolding delete_all
  reset lk = elim lk.redis [
    | some r ↦ record {
      redis = some (delete_all (scan_claimed r ++ lock_key ∷ completed_key ∷ []) r);
      local_completed = [];
    }
    | none ↦ record lk { local_completed = [] }
  ]
