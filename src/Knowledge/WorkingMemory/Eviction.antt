-- ===== src/Knowledge/WorkingMemory/Eviction.antt =====
-- What the working memory (working_memory.py) keeps and drops.
use architect.Common.{
  ℕ, suc, ◌≤◌, ◌<◌, ◌≡◌, ◌≢◌, refl, sym, subst, ap, ◌∙◌, ◌⊎◌, inl, inr, true, false, Option, none,
  some, List, [], ◌∷◌, All, length, arith, ltb, leb, Bool-cases,
}
use architect.Common.Dict.{
  lookup, insert, erase, lookup-insert_self, lookup-insert_ne, lookup-erase_ne,
}
use architect.TaskGraph.Models.{TaskId, AgentId, Time}
use architect.Knowledge.WorkingMemory.{
  WorkingMemory, Key, key_beq, key_beq_iff, key_eq, Store, is_some, keys, accessed_at, min_key,
  evict_among, evict_oldest, new_memory, make_room, create, change, get, update, delete_entry,
  expired_keys, erase_all, evict_expired, Call, create_call, get_call, update_call, delete_call,
  evict_call, perform_all,
}

length-insert_le :
    (k : Key) (wm : WorkingMemory) (d : Store) → length (insert k wm d) ≤ suc (length d)
length-insert_le k wm [] = omega arith
length-insert_le k wm ((j, v) ∷ d) = ground (arith, length-insert_le k wm d)

length-insert_there :
    (k : Key) (wm : WorkingMemory) (d : Store)
    → is_some (lookup k d) ≡ true
    → length (insert k wm d) ≡ length d
length-insert_there k wm [] h = cc
length-insert_there k wm ((j, v) ∷ d) h = ground (arith, h, length-insert_there k wm d)

length-erase_le : (k : Key) (d : Store) → length (erase k d) ≤ length d
length-erase_le k [] = omega arith
length-erase_le k ((j, v) ∷ d) = ground (arith, length-erase_le k d)

length-erase_there :
    (k : Key) (d : Store) → is_some (lookup k d) ≡ true → suc (length (erase k d)) ≡ length d
length-erase_there k [] h = cc
length-erase_there k ((j, v) ∷ d) h = ground (arith, h, length-erase_there k d)

length-erase_all : (ks : List Key) (d : Store) → length (erase_all ks d) ≤ length d
length-erase_all [] d = omega arith
length-erase_all (k ∷ ks) d = omega (arith, length-erase_all ks (erase k d), length-erase_le k d)

All-map : (P Q : Key → Type 0) (ks : List Key) → ((k : Key) → P k → Q k) → All P ks → All Q ks
All-map P Q [] f h = tt
All-map P Q (k ∷ ks) f h = (f k h.0, All-map P Q ks f h.1)

keys-there : (d : Store) → All (λ k. is_some (lookup k d) ≡ true) (keys d)
keys-there [] = tt
keys-there ((j, v) ∷ d) = (
  ground (arith, key_beq_iff j j),
  All-map (λ k. is_some (lookup k d) ≡ true) (λ k. is_some (lookup k ((j, v) ∷ d)) ≡ true) (keys d)
      (λ k h. ground (arith, h)) (keys-there d),
)

min_key-All :
    (P : Key → Type 0) (d : Store) (k : Key) (ks : List Key) → P k → All P ks → P (min_key d k ks)
unfolding min_key
min_key-All P d k [] p h = p
min_key-All P d k (j ∷ js) p h =
    elim (Bool-cases (ltb (accessed_at (lookup j d)) (accessed_at (lookup k d)))) [
      | inl e ↦ rw e (min_key-All P d j js h.0 h.1)
      | inr e ↦ rw e (min_key-All P d k js p h.1)
    ]

abbrev pub time_of : Store → Key → Time
time_of d k = accessed_at (lookup k d)

min_key-le_first : (d : Store) (k : Key) (ks : List Key) → time_of d (min_key d k ks) ≤ time_of d k
unfolding min_key
min_key-le_first d k [] = omega arith
min_key-le_first d k (j ∷ js) = elim (Bool-cases (ltb (time_of d j) (time_of d k))) [
  | inl e ↦ rw e (ground (arith, e, min_key-le_first d j js))
  | inr e ↦ rw e (min_key-le_first d k js)
]

min_key-le :
    (d : Store) (k : Key) (ks : List Key) → All (λ j. time_of d (min_key d k ks) ≤ time_of d j) ks
unfolding min_key
min_key-le d k [] = tt
min_key-le d k (j ∷ js) = elim (Bool-cases (ltb (time_of d j) (time_of d k))) [
  | inl e ↦
      let chosen : min_key d k (j ∷ js) ≡ min_key d j js = rw e refl in
      subst (λ m. All (λ i. time_of d m ≤ time_of d i) (j ∷ js)) (sym chosen)
        (min_key-le_first d j js, min_key-le d j js)
  | inr e ↦
      let chosen : min_key d k (j ∷ js) ≡ min_key d k js = rw e refl in
      subst (λ m. All (λ i. time_of d m ≤ time_of d i) (j ∷ js)) (sym chosen)
        (ground (arith, e, min_key-le_first d k js), min_key-le d k js)
]

lookup-All_keys :
    (P : Key → Type 0) (k : Key) (d : Store) → All P (keys d) → is_some (lookup k d) ≡ true → P k
lookup-All_keys P k [] h e = cc
lookup-All_keys P k ((j, v) ∷ d) h e = elim (Bool-cases (key_beq k j)) [
  | inl same ↦ subst P (sym ((key_beq_iff k j).0 same)) h.0
  | inr other ↦ lookup-All_keys P k d h.1 (ground (arith, other, e))
]

-- Either a key keeps what it has, or no key was accessed before it.
evict_oldest-keeps :
    (d : Store) (k : Key)
    → (lookup k (evict_oldest d) ≡ lookup k d)
      ⊎ ((j : Key) → is_some (lookup j d) ≡ true → time_of d k ≤ time_of d j)
unfolding evict_oldest
evict_oldest-keeps d k = among d (keys d) refl
  where
    among :
        (store : Store) (ks : List Key)
        → keys store ≡ ks
        → (lookup k (evict_among store ks) ≡ lookup k store)
          ⊎ ((j : Key) → is_some (lookup j store) ≡ true → time_of store k ≤ time_of store j)
    among store [] e = inl refl
    among store (i ∷ is) e = elim (Bool-cases (key_beq k (min_key store i is))) [
      | inl same ↦ inr (λ j there.
          subst (λ m. time_of store m ≤ time_of store j)
            (sym ((key_beq_iff k (min_key store i is)).0 same))
            (lookup-All_keys (λ x. time_of store (min_key store i is) ≤ time_of store x) j store
              (subst (All (λ x. time_of store (min_key store i is) ≤ time_of store x)) (sym e)
                (min_key-le_first store i is, min_key-le store i is))
              there))
      | inr other ↦ inl (
          lookup-erase_ne (min_key store i is) k store
            (λ q. ground (arith, other, q, key_beq_iff k k)))
    ]

evict_among-length :
    (store : Store) (ks : List Key)
    → All (λ k. is_some (lookup k store) ≡ true) ks
    → ks ≢ []
    → suc (length (evict_among store ks)) ≡ length store
evict_among-length store [] h ne = absurd (ne refl)
evict_among-length store (k ∷ ks) h ne =
    length-erase_there (min_key store k ks) store
      (min_key-All (λ k. is_some (lookup k store) ≡ true) store k ks h.0 h.1)

length-evict_oldest :
    (store : Store) → 0 < length store → suc (length (evict_oldest store)) ≡ length store
unfolding evict_oldest
length-evict_oldest [] h = ground (arith, h)
length-evict_oldest ((k, wm) ∷ store) h =
    evict_among-length ((k, wm) ∷ store) (keys ((k, wm) ∷ store)) (keys-there ((k, wm) ∷ store))
      (λ e. cc)

is_some-none : (o : Option WorkingMemory) → is_some o ≡ false → o ≡ none
is_some-none none h = refl
is_some-none (some wm) h = cc

make_room-cases :
    (m : ℕ) (k : Key) (store : Store)
    → ((make_room m k store ≡ store) × ((length store < m) ⊎ (is_some (lookup k store) ≡ true)))
      ⊎ ((make_room m k store ≡ evict_oldest store) × (m ≤ length store) × (lookup k store ≡ none))
make_room-cases m k store = elim (Bool-cases (is_some (lookup k store))) [
  | inl there ↦ inl (ground (arith, there), inr there)
  | inr fresh ↦ elim (Bool-cases (leb m (length store))) [
    | inl full ↦
        inr (ground (arith, fresh, full), ground (arith, full), is_some-none (lookup k store) fresh)
    | inr free ↦ inl (ground (arith, fresh, free), inl (ground (arith, free)))
  ]
]

length-create :
    (max_entries : ℕ) (now : Time) (t : TaskId) (a : AgentId) (store : Store)
    → 0 < max_entries
    → length store ≤ max_entries
    → length (create max_entries now t a store).1 ≤ max_entries
unfolding create
length-create m now t a store pos le = elim (make_room-cases m (t, a) store) [
  | inl (same, inl free) ↦
      rw same (omega (arith, length-insert_le (t, a) (new_memory now t a) store, free))
  | inl (same, inr there) ↦
      rw same (omega (arith, length-insert_there (t, a) (new_memory now t a) store there, le))
  | inr (evicted, full, fresh) ↦ rw evicted (
      omega (
        arith,
        length-insert_le (t, a) (new_memory now t a) (evict_oldest store),
        length-evict_oldest store (omega (arith, pos, full)),
        le,
      ))
]

length-change :
    (f : WorkingMemory → WorkingMemory) (k : Key) (store : Store)
    → length (change f k (lookup k store) store).1 ≡ length store
length-change f k store = by_lookup (lookup k store) refl
  where
    by_lookup :
        (o : Option WorkingMemory)
        → lookup k store ≡ o
        → length (change f k o store).1 ≡ length store
    by_lookup none e = refl
    by_lookup (some wm) e = length-insert_there k (f wm) store (rw e refl)

length-delete_entry :
    (t : TaskId) (a : AgentId) (store : Store) → length (delete_entry t a store).1 ≤ length store
unfolding delete_entry
length-delete_entry t a store = elim (Bool-cases (is_some (lookup (t, a) store))) [
  | inl e ↦ rw e (length-erase_le (t, a) store)
  | inr e ↦ rw e (omega arith)
]

-- A store with room for an entry never holds more entries than its limit, after any calls.
pub perform_all-max_entries :
    (ttl max_entries : ℕ) (cs : List Call)
    → 0 < max_entries
    → length (perform_all ttl max_entries cs) ≤ max_entries
unfolding perform_all get update evict_expired
perform_all-max_entries ttl m [] pos = omega arith
perform_all-max_entries ttl m (create_call now t a ∷ cs) pos =
    length-create m now t a (perform_all ttl m cs) pos (perform_all-max_entries ttl m cs pos)
perform_all-max_entries ttl m (get_call now t a ∷ cs) pos =
    omega
      (arith, length-change _ (t, a) (perform_all ttl m cs), perform_all-max_entries ttl m cs pos)
perform_all-max_entries ttl m (update_call pad entries now t a ∷ cs) pos =
    omega
      (arith, length-change _ (t, a) (perform_all ttl m cs), perform_all-max_entries ttl m cs pos)
perform_all-max_entries ttl m (delete_call t a ∷ cs) pos =
    omega
      (arith, length-delete_entry t a (perform_all ttl m cs), perform_all-max_entries ttl m cs pos)
perform_all-max_entries ttl m (evict_call now ∷ cs) pos =
    let store = perform_all ttl m cs in
    omega (
      arith,
      length-erase_all (expired_keys ttl now store) store,
      perform_all-max_entries ttl m cs pos,
    )

-- After a new entry is created it is there, and every other key keeps what it has, except that, if
-- the store was full and the key new, a key may be dropped before which no key was accessed.
pub create-lookup :
    (max_entries : ℕ) (now : Time) (t : TaskId) (a : AgentId) (store : Store)
    → (lookup (t, a) (create max_entries now t a store).1 ≡ some (new_memory now t a))
      × ((k : Key)
          → k ≢ (t, a)
          → (lookup k (create max_entries now t a store).1 ≡ lookup k store)
            ⊎ ((max_entries ≤ length store)
                × (lookup (t, a) store ≡ none)
                × ((j : Key)
                    → is_some (lookup j store) ≡ true
                    → time_of store k ≤ time_of store j)))
unfolding create
create-lookup m now t a store =
    let room = make_room m (t, a) store in
    (
      lookup-insert_self (t, a) (new_memory now t a) room,
      λ k apart.
          let kept = lookup-insert_ne (t, a) k (new_memory now t a) room apart in
          elim (make_room-cases m (t, a) store) [
            | inl (same, why) ↦ inl (kept ∙ ap (lookup k) same)
            | inr (evicted, full, fresh) ↦ elim (evict_oldest-keeps store k) [
              | inl same ↦ inl (kept ∙ ap (lookup k) evicted ∙ same)
              | inr oldest ↦ inr (full, fresh, oldest)
            ]
          ],
    )
