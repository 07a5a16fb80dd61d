-- ===== src/TaskGraph/Samples.antt =====
-- Concrete stand-ins for networkx and Redis, which show that what the model asks of them can be met,
-- and small task graphs for the tests.
use architect.Common.{
  ℕ, zero, suc, ◌≡◌, refl, Bool, true, false, not, ◌&&◌, ◌||◌, Option, none, some, List, [], ◌∷◌,
  ◌++◌, arith, ◌==◌, elem, elem-append, add, elem-add, filter, subset, length, if◌then◌else◌,
  ==-refl, take, drop, ◌-◌, All, ltb, ap, ◌∙◌,
}
use architect.TaskGraph.Models.{TaskId, Task}
use architect.TaskGraph.DiGraph.{DiGraph}
use architect.TaskGraph.Repo.{TaskRow, Database}
use architect.TaskGraph.Lock.{Key, lock_key, completed_key, claimed_key, key_eq, Redis}

pub record PlainGraph : Type 0 where
  pub ids : List TaskId
  pub tasks : TaskId → Option Task
  pub before : TaskId → List TaskId
  pub after : TaskId → List TaskId

abbrev with_node : PlainGraph → TaskId → Task → PlainGraph
with_node g n t = record {
  ids = if elem n g.ids then g.ids else g.ids ++ n ∷ [];
  tasks = λ m. if n == m then some t else g.tasks m;
  before = λ m. if m == n && not (elem n g.ids) then [] else g.before m;
  after = λ m. if m == n && not (elem n g.ids) then [] else g.after m;
}

abbrev with_edge : PlainGraph → TaskId → TaskId → PlainGraph
with_edge g u v = record g {
  before = λ m. if m == v then g.before m ++ u ∷ [] else g.before m;
  after = λ m. if m == u then g.after m ++ v ∷ [] else g.after m;
}

-- Rounds of all nodes whose predecessors are placed.
abbrev sort_rounds : ℕ → PlainGraph → List TaskId → List TaskId → Option (List TaskId)
sort_rounds zero g placed [] = some placed
sort_rounds zero g placed (n ∷ ns) = none
sort_rounds (suc fuel) g placed pending =
    let test = λ (n : TaskId). subset (g.before n) placed in
    sort_rounds fuel g (placed ++ filter test pending) (filter (λ n. not (test n)) pending)

pub before-with_edge :
    (g : PlainGraph) (u v x w : TaskId)
    → elem x ((with_edge g u v).before w) ≡ ((x == u) && (w == v) || elem x (g.before w))
before-with_edge g u v x w = ground (arith, elem-append x (g.before w) (u ∷ []))

pub before-with_node :
    (g : PlainGraph) (n : TaskId) (t : Task) (m : TaskId)
    → elem m g.ids ≡ true
    → (with_node g n t).before m ≡ g.before m
before-with_node g n t m h = ground arith

pub before-with_node_new :
    (g : PlainGraph) (n : TaskId) (t : Task)
    → elem n g.ids ≡ false
    → (with_node g n t).before n ≡ []
before-with_node_new g n t h = ground (arith, ==-refl n)

elem-filter_parts :
    (p : TaskId → Bool) (n : TaskId) (ns : List TaskId)
    → (elem n (filter p ns) || elem n (filter (λ m. not (p m)) ns)) ≡ elem n ns
elem-filter_parts p n [] = refl
elem-filter_parts p n (m ∷ ns) = ground (arith, elem-filter_parts p n ns)

pub elem-sort_rounds :
    (fuel : ℕ) (g : PlainGraph) (placed pending order : List TaskId) (n : TaskId)
    → sort_rounds fuel g placed pending ≡ some order
    → elem n order ≡ (elem n placed || elem n pending)
elem-sort_rounds zero g placed [] order n h = ground arith
elem-sort_rounds zero g placed (m ∷ ns) order n h = cc
elem-sort_rounds (suc fuel) g placed pending order n h =
    let test = λ (m : TaskId). subset (g.before m) placed in
    let next = filter (λ m. not (test m)) pending in
    let rest = elem-sort_rounds fuel g (placed ++ filter test pending) next order n h in
    ground
      (arith, rest, elem-append n placed (filter test pending), elem-filter_parts test n pending)

abbrev is_nil : List TaskId → Bool
is_nil [] = true
is_nil (n ∷ ns) = false

abbrev pub plain : DiGraph
plain = record {
  Graph = PlainGraph;
  new = record { ids = []; tasks = λ n. none; before = λ n. []; after = λ n. [] };
  add_node = with_node;
  add_edge = with_edge;
  nodes = λ g. g.ids;
  node_task = λ g n. g.tasks n;
  predecessors = λ g n. g.before n;
  successors = λ g n. g.after n;
  topological_sort = λ g. sort_rounds (length g.ids) g [] g.ids;
  is_acyclic = λ g. elim (sort_rounds (length g.ids) g [] g.ids) [ none ↦ false | some _ ↦ true ];
  find_cycle = λ g. none;
  isolates = λ g. filter (λ n. is_nil (g.before n) && is_nil (g.after n)) g.ids;
  elem-topological_sort = λ g order n h. elem-sort_rounds (length g.ids) g [] g.ids order n h;
  nodes-new = refl;
  node_task-new = λ n. refl;
  nodes-add_node = λ g n t. refl;
  node_task-add_node = λ g n t m. refl;
  predecessors-add_node = before-with_node;
  predecessors-add_node_new = before-with_node_new;
  nodes-add_edge = λ g u v h k. refl;
  node_task-add_edge = λ g u v m h k. refl;
  elem-predecessors-add_edge = λ g u v x w h k. before-with_edge g u v x w;
}

pub record PlainStore : Type 0 where
  pub keys : List Key
  pub members : Key → List TaskId

abbrev holds_key : Key → List Key → Bool
holds_key k [] = false
holds_key k (j ∷ ks) = key_eq j k || holds_key k ks

abbrev without : Key → List Key → List Key
without k [] = []
without k (j ∷ ks) = if key_eq k j then without k ks else j ∷ without k ks

abbrev claimed_only : List Key → List Key
claimed_only [] = []
claimed_only (claimed_key n ∷ ks) = claimed_key n ∷ claimed_only ks
claimed_only (_ ∷ ks) = claimed_only ks

key_eq_refl : (k : Key) → key_eq k k ≡ true
key_eq_refl lock_key = refl
key_eq_refl completed_key = refl
key_eq_refl (claimed_key n) = ==-refl n

key_eq_sym : (j k : Key) → key_eq j k ≡ key_eq k j
key_eq_sym j k = ground arith

key_eq→eq : (j k : Key) → key_eq j k ≡ true → j ≡ k
key_eq→eq j k h = ground arith

abbrev set_new : PlainStore → Key → Bool × PlainStore
set_new s k = if holds_key k s.keys then (false, s) else (true, record s { keys = k ∷ s.keys })

abbrev del : PlainStore → Key → PlainStore
del s k = record { keys = without k s.keys; members = λ j. if key_eq k j then [] else s.members j }

abbrev put : PlainStore → Key → TaskId → PlainStore
put s k x = record {
  keys = k ∷ s.keys;
  members = λ j. if key_eq k j then add x (s.members j) else s.members j;
}

pub holds_key-without :
    (k j : Key) (ks : List Key) → holds_key j (without k ks) ≡ (not (key_eq k j) && holds_key j ks)
holds_key-without k j [] = ground arith
holds_key-without k j (i ∷ ks) =
    ground
      (arith, holds_key-without k j ks, key_eq→eq i j, key_eq→eq k i, key_eq_refl k, key_eq_sym i k)

pub set_new-exists :
    (s : PlainStore) (k j : Key)
    → holds_key j (set_new s k).1.keys ≡ (key_eq k j || holds_key j s.keys)
set_new-exists s k j = ground (arith, key_eq→eq k j)

pub set_new-result : (s : PlainStore) (k : Key) → (set_new s k).0 ≡ not (holds_key k s.keys)
set_new-result s k = ground arith

pub members-set_new :
    (s : PlainStore) (k j : Key) → key_eq k j ≡ false → (set_new s k).1.members j ≡ s.members j
members-set_new s k j h = ground arith

pub members-del :
    (s : PlainStore) (k j : Key) → key_eq k j ≡ false → (del s k).members j ≡ s.members j
members-del s k j h = ground arith

pub members-put :
    (s : PlainStore) (k : Key) (x y : TaskId)
    → elem y ((put s k x).members k) ≡ ((y == x) || elem y (s.members k))
members-put s k x y = ground (arith, key_eq_refl k, elem-add y x (s.members k))

abbrev pub plain_redis : Redis
plain_redis = record {
  Store = PlainStore;
  set_nx = set_new;
  delete = del;
  sadd = put;
  smembers = λ s k. s.members k;
  scan_claimed = λ s. claimed_only s.keys;
  exists = λ s k. holds_key k s.keys;
  set_nx-result = set_new-result;
  exists-set_nx = set_new-exists;
  exists-delete = λ s k j. holds_key-without k j s.keys;
  exists-sadd = λ s k j x. refl;
  smembers-set_nx = members-set_new;
  smembers-delete = members-del;
  elem-smembers-sadd = members-put;
}

-- A database that serves every page from the table in the order of its rows.
abbrev plain_page : ℕ → ℕ → List TaskRow → List TaskRow
plain_page limit offset table = take limit (drop offset table)

pub length-drop : (b : ℕ) (xs : List TaskRow) → length (drop b xs) ≡ length xs - b
length-drop zero xs = omega arith
length-drop (suc b) [] = omega arith
length-drop (suc b) (x ∷ xs) = omega (arith, length-drop b xs)

pub length-take :
    (b : ℕ) (xs : List TaskRow) → length (take b xs) ≡ (if ltb b (length xs) then b else length xs)
length-take zero xs = ground arith
length-take (suc b) [] = ground arith
length-take (suc b) (x ∷ xs) = ground (arith, length-take b xs)

pub take-All : (P : TaskRow → Type 0) (b : ℕ) (xs : List TaskRow) → All P xs → All P (take b xs)
take-All P zero xs h = tt
take-All P (suc b) [] h = tt
take-All P (suc b) (x ∷ xs) h = (h.0, take-All P b xs h.1)

pub drop-All : (P : TaskRow → Type 0) (b : ℕ) (xs : List TaskRow) → All P xs → All P (drop b xs)
drop-All P zero xs h = h
drop-All P (suc b) [] h = tt
drop-All P (suc b) (x ∷ xs) h = drop-All P b xs h.1

pub length-plain_page :
    (limit offset : ℕ) (table : List TaskRow)
    → length (plain_page limit offset table)
      ≡ (if ltb limit (length table - offset) then limit else length table - offset)
length-plain_page limit offset table =
    length-take limit (drop offset table)
    ∙ ap (λ n. if ltb limit n then limit else n) (length-drop offset table)

abbrev pub plain_database : Database
plain_database = record {
  page = plain_page;
  length-page = length-plain_page;
  page-All = λ P limit offset table h. take-All P limit _ (drop-All P offset table h);
}
