-- ===== src/Knowledge/Tests.antt =====
-- The working memory with room for two entries.
use architect.Common.{◌≤◌, ◌≡◌, ◌≢◌, refl, ◌⊎◌, true, none, some, List, [], ◌∷◌, arith, length}
use architect.Common.Dict.{lookup}
use architect.Knowledge.WorkingMemory.{
  Key, key_eq, Store, is_some, min_key, evict_oldest, new_memory, create, get, evict_expired,
  expired_keys, Call, create_call, get_call, evict_call, perform_all, keys,
}
use architect.Knowledge.WorkingMemory.Eviction.{time_of, perform_all-max_entries, create-lookup}

-- The entry of agent 1 is looked up, so that agent 2's is the oldest when agent 3's comes.
abbrev calls : List Call
calls = create_call 30 7 3 ∷ get_call 20 7 1 ∷ create_call 10 7 2 ∷ create_call 0 7 1 ∷ []

kept : keys (perform_all 3600 2 calls) ≡ (7, 1) ∷ (7, 3) ∷ []
unfolding perform_all create get evict_oldest min_key
kept = refl

after_expiry : keys (perform_all 15 2 (evict_call 40 ∷ calls)) ≡ (7, 3) ∷ []
unfolding perform_all create get evict_oldest min_key evict_expired expired_keys
after_expiry = refl

perform_all-max_entries_example : length (perform_all 3600 2 calls) ≤ 2
perform_all-max_entries_example = perform_all-max_entries 3600 2 calls (omega arith)

abbrev full : Store
full = ((7, 1), new_memory 20 7 1) ∷ ((7, 2), new_memory 10 7 2) ∷ []

create-lookup_example :
    (lookup (7, 3) (create 2 30 7 3 full).1 ≡ some (new_memory 30 7 3))
    × ((k : Key)
        → k ≢ (7, 3)
        → (lookup k (create 2 30 7 3 full).1 ≡ lookup k full)
          ⊎ ((2 ≤ length full)
              × (lookup (7, 3) full ≡ none)
              × ((j : Key) → is_some (lookup j full) ≡ true → time_of full k ≤ time_of full j)))
create-lookup_example = create-lookup 2 30 7 3 full
