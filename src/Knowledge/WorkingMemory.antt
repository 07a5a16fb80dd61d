-- ===== src/Knowledge/WorkingMemory.antt =====
-- `WorkingMemoryStore`, services/knowledge-memory/src/knowledge_memory/working_memory.py. A method runs
-- under the store's lock, at a time in seconds; a value on a scratchpad is a number that names it. An
-- object that a method returned is changed here only through the store.
pub mod Eviction
use architect.Common.{
  ℕ, zero, suc, ◌+◌, ◌≡◌, refl, ◌↔◌, Bool, true, false, not, ◌&&◌, Option, none, some, List, [],
  ◌∷◌, ◌++◌, ◌==◌, arith, ltb, leb, length, if◌then◌else◌,
}
use architect.Common.Dict.{Eq, Dict, lookup, insert, erase}
use architect.Common.Text.{Text, text_eq}
use architect.TaskGraph.Models.{TaskId, AgentId, Time}

abbrev pub KnowledgeId : Type 0
KnowledgeId = ℕ

pub record WorkingMemory : Type 0 where
  pub task_id : TaskId
  pub agent_id : AgentId
  pub scratchpad : Dict Text ℕ
  pub context_entries : List KnowledgeId
  pub created_at : Time
  pub last_accessed : Time

-- `(str(task_id), str(agent_id))`
abbrev pub Key : Type 0
Key = TaskId × AgentId

abbrev pub key_beq : Key → Key → Bool
key_beq (a, b) (c, d) = (a == c) && (b == d)

pub key_beq_iff : (k j : Key) → (key_beq k j ≡ true) ↔ (k ≡ j)
key_beq_iff (a, b) (c, d) = ground arith

instance abbrev pub key_eq : Eq Key
key_eq = record { beq = key_beq; beq_iff = key_beq_iff }

abbrev pub Store : Type 0
Store = Dict Key WorkingMemory

abbrev pub is_some {ℓ} : {A : Type ℓ} → Option A → Bool
is_some none = false
is_some (some a) = true

abbrev pub keys : Store → List Key
keys [] = []
keys ((k, wm) ∷ store) = k ∷ keys store

abbrev pub accessed_at : Option WorkingMemory → Time
accessed_at none = 0
accessed_at (some wm) = wm.last_accessed

-- `min(keys, key=...)`: the first of the keys with the least time of access.
unfoldable pub min_key : Store → Key → List Key → Key
min_key store k [] = k
min_key store k (j ∷ js) =
    let first = min_key store k js in
    let next = min_key store j js in
    if ltb (accessed_at (lookup j store)) (accessed_at (lookup k store)) then next else first

abbrev pub evict_among : Store → List Key → Store
evict_among store [] = store
evict_among store (k ∷ ks) = erase (min_key store k ks) store

-- `_evict_oldest_unlocked`
unfoldable pub evict_oldest : Store → Store
evict_oldest store = evict_among store (keys store)

abbrev pub new_memory : Time → TaskId → AgentId → WorkingMemory
new_memory now task_id agent_id = record {
  task_id = task_id;
  agent_id = agent_id;
  scratchpad = [];
  context_entries = [];
  created_at = now;
  last_accessed = now;
}

abbrev pub make_room : ℕ → Key → Store → Store
make_room max_entries key store =
    if leb max_entries (length store) && not (is_some (lookup key store))
    then evict_oldest store
    else store

unfoldable pub create : ℕ → Time → TaskId → AgentId → Store → WorkingMemory × Store
create max_entries now task_id agent_id store =
    let key : Key = (task_id, agent_id) in
    let wm = new_memory now task_id agent_id in
    (wm, insert key wm (make_room max_entries key store))

abbrev pub touch : Time → WorkingMemory → WorkingMemory
touch now wm = record wm { last_accessed = now }

abbrev pub change :
    (WorkingMemory → WorkingMemory)
    → Key
    → Option WorkingMemory
    → Store
    → Option WorkingMemory × Store
change f key none store = (none, store)
change f key (some wm) store = (some (f wm), insert key (f wm) store)

unfoldable pub get : Time → TaskId → AgentId → Store → Option WorkingMemory × Store
get now task_id agent_id store =
    change (touch now) (task_id, agent_id) (lookup (task_id, agent_id) store) store

-- `dict.update`
abbrev pub update_all : Dict Text ℕ → Dict Text ℕ → Dict Text ℕ
update_all [] pad = pad
update_all ((k, v) ∷ updates) pad = update_all updates (insert k v pad)

-- No updates are an empty dict, and no entries an empty list.
abbrev pub updated : Dict Text ℕ → List KnowledgeId → Time → WorkingMemory → WorkingMemory
updated updates entries now wm = record wm {
  scratchpad = update_all updates wm.scratchpad;
  context_entries = wm.context_entries ++ entries;
  last_accessed = now;
}

unfoldable pub update :
    Dict Text ℕ → List KnowledgeId → Time → TaskId → AgentId → Store → Option WorkingMemory × Store
update updates entries now task_id agent_id store =
    change (updated updates entries now) (task_id, agent_id) (lookup (task_id, agent_id) store)
      store

unfoldable pub delete_entry : TaskId → AgentId → Store → Bool × Store
delete_entry task_id agent_id store =
    if is_some (lookup (task_id, agent_id) store)
    then (true, erase (task_id, agent_id) store)
    else (false, store)

abbrev pub is_expired : ℕ → Time → WorkingMemory → Bool
is_expired ttl now wm = ltb (wm.last_accessed + ttl) now

unfoldable pub expired_keys : ℕ → Time → Store → List Key
expired_keys ttl now [] = []
expired_keys ttl now ((k, wm) ∷ store) =
    let rest = expired_keys ttl now store in if is_expired ttl now wm then k ∷ rest else rest

abbrev pub erase_all : List Key → Store → Store
erase_all [] store = store
erase_all (k ∷ ks) store = erase_all ks (erase k store)

unfoldable pub evict_expired : ℕ → Time → Store → ℕ × Store
evict_expired ttl now store =
    let expired = expired_keys ttl now store in (length expired, erase_all expired store)

-- A call of one of the methods.
pub data Call : Type 0 where
  create_call get_call : Time → TaskId → AgentId → Call
  update_call : Dict Text ℕ → List KnowledgeId → Time → TaskId → AgentId → Call
  delete_call : TaskId → AgentId → Call
  evict_call : Time → Call

abbrev pub perform : ℕ → ℕ → Call → Store → Store
perform ttl max_entries (create_call now t a) store = (create max_entries now t a store).1
perform ttl max_entries (get_call now t a) store = (get now t a store).1
perform ttl max_entries (update_call pad entries now t a) store =
    (update pad entries now t a store).1
perform ttl max_entries (delete_call t a) store = (delete_entry t a store).1
perform ttl max_entries (evict_call now) store = (evict_expired ttl now store).1

-- The calls in order, the latest first.
unfoldable pub perform_all : ℕ → ℕ → List Call → Store
perform_all ttl max_entries [] = []
perform_all ttl max_entries (c ∷ cs) = perform ttl max_entries c (perform_all ttl max_entries cs)
