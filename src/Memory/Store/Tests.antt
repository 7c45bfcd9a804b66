-- ===== src/Memory/Store/Tests.antt =====
-- Runs of a small cache, and each theorem at an input.
use feuer.Base.{
  ℕ, suc, ◌≤◌, ◌≡◌, ◌⊎◌, refl, List, [], ◌∷◌, Option, none, some, Bool, true, false, arith, length,
}
use feuer.Base.HashMap
use feuer.Memory.Retention.{sample_candidates}
use feuer.Memory.Buffer.{
  bucket_from, bucket_index, size_at, new_pool, take_idle_buffer, drain, drain_buckets,
  add_used_bytes, remove_used_bytes,
}
use feuer.Memory.Store.{
  MemoryCache, shard_capacity_for, shards_from, new_cache, insert_rounds, insert_object, get_object,
  remove_object, default_shard_count,
}
use feuer.Memory.Store.Shard.{
  MemoryEntry, MemoryCacheShard, Shared, RetentionScorer, new_shard, get_bytes, contains_entry,
  unlist, remove_entry, remove_key, add_entry, score_keys, min_by, choose, evict, try_insert,
  entry_removed,
}
use feuer.Memory.Store.Entries.{new_shard-IsSound}
use feuer.Memory.Store.Remove.{Removed, remove_entry-Removed}
use feuer.Memory.Store.Insertion.{Added, add_entry-Added, Attempt, try_insert-Attempt}
use feuer.Memory.Store.Loop.{Done, insert_rounds-Done}
use feuer.Memory.Store.Shares.{capacity_of, capacity_of-all}
use feuer.Memory.Store.Interleaving.{Call, attempt, run, step, CacheSound, run-new_cache-CacheSound}
use feuer.Memory.Store.Objects.{insert_object-get_object}

program : Unit {0}
unfolding HashMap.get HashMap.remove HashMap.insert sample_candidates bucket_from bucket_index
    size_at new_pool take_idle_buffer drain drain_buckets add_used_bytes remove_used_bytes
    shard_capacity_for shards_from new_cache insert_rounds insert_object get_object remove_object
    new_shard get_bytes contains_entry unlist remove_entry remove_key add_entry score_keys min_by
    choose evict try_insert run step capacity_of default_shard_count
program = tt

-- The longer payload is worth more.
abbrev by_length : RetentionScorer
by_length key len = len

abbrev hash : ℕ → ℕ
hash key = key

abbrev calls : List Call
calls =
    attempt by_length 1 (7 ∷ 7 ∷ []) 40
    ∷ attempt by_length 3 (8 ∷ []) 30
    ∷ attempt by_length 2 (9 ∷ []) 50
    ∷ attempt by_length 5 (5 ∷ []) 20
    ∷ []

-- Odd keys share a shard of 51 bytes: key 1 is there, key 3 does not fit, and evicts it.
abbrev filled : Option MemoryCache
filled =
    run hash (new_cache 101 2)
      (attempt by_length 1 (7 ∷ 7 ∷ []) 40 ∷ attempt by_length 2 (9 ∷ []) 50 ∷ [])

abbrev after : Option MemoryCache → MemoryCache
after none = new_cache 101 2
after (some c) = c

-- The answer, the objects under keys 3, 1 and 2, and the counts.
abbrev observed : Option (Bool × MemoryCache) → Option (Bool × List (Option (List ℕ)) × ℕ × ℕ × ℕ)
observed none = none
observed (some (answer, c)) = some (
  answer,
  get_object hash c 3 ∷ get_object hash c 1 ∷ get_object hash c 2 ∷ [],
  c.eviction_triggering_insertions,
  c.shared.buffer_pool.used_bytes,
  c.shared.metrics.entries,
)

insert-test :
    observed (insert_object hash (λ n. by_length) (after filled) 3 (8 ∷ []) 30)
    ≡ some (true, some (8 ∷ []) ∷ none ∷ some (9 ∷ []) ∷ [], 1, 80, 2)
unfolding program
insert-test = refl

capacity_of-all_example :
    (capacity_of 101 2 2 ≡ 101)
    × ((i j : ℕ) → shard_capacity_for 101 2 i ≤ suc (shard_capacity_for 101 2 j))
capacity_of-all_example = capacity_of-all 101 2 (omega arith)

run-new_cache-CacheSound_example :
    (e : MemoryCache) × (run hash (new_cache 101 2) calls ≡ some e) × CacheSound e
run-new_cache-CacheSound_example = run-new_cache-CacheSound hash 101 2 calls (omega arith)

abbrev sound_cache : (e : MemoryCache) × (run hash (new_cache 101 2) calls ≡ some e) × CacheSound e
sound_cache = run-new_cache-CacheSound hash 101 2 calls (omega arith)

insert_object-get_object_example :
    (answer : Bool) × (d : MemoryCache) × (insert_object hash
        (λ n. by_length)
        sound_cache.0
        7
        (1 ∷ 2 ∷ [])
        12
      ≡ some (answer, d))
    × (((answer ≡ true)
          × (get_object hash sound_cache.0 7 ≡ none)
          × (get_object hash d 7 ≡ some (1 ∷ 2 ∷ [])))
        ⊎ ((answer ≡ false)
            × ((old : List ℕ) × (get_object hash sound_cache.0 7 ≡ some old)
                × (get_object hash d 7 ≡ some old))))
insert_object-get_object_example =
    insert_object-get_object hash (λ n. by_length) sound_cache.0 7 (1 ∷ 2 ∷ []) 12 sound_cache.2
      (omega arith)

abbrev shared_start : Shared
shared_start = (new_cache 101 2).shared

abbrev one_entry : MemoryCacheShard
one_entry = (add_entry (new_shard 51) shared_start 1 (7 ∷ 7 ∷ []) 40).0

one_entry-Added : Added (new_shard 51) 1 (7 ∷ 7 ∷ []) 40 one_entry
one_entry-Added =
    add_entry-Added (new_shard 51) shared_start 1 (7 ∷ 7 ∷ []) 40 (new_shard-IsSound 51)
      (unfold HashMap.get in unfold new_shard in refl)

abbrev entry : MemoryEntry
entry = record { bytes = 7 ∷ 7 ∷ []; allocation_charge = 40; candidate_index = 0 }

entry-found : HashMap.get 1 one_entry.entries_by_key ≡ some entry
unfolding program
entry-found = refl

insert_rounds-Done_example :
    Done one_entry 3
      (8 ∷ [])
      30
      (insert_rounds 9 (λ n. by_length) 64 one_entry shared_start 3 (8 ∷ []) 30 false)
insert_rounds-Done_example =
    insert_rounds-Done (λ n. by_length) 64 3 (8 ∷ []) 30 (omega arith) 9 one_entry shared_start
      false one_entry-Added.sound (omega (arith, one_entry-count))
  where
    one_entry-count : length one_entry.eviction_candidates ≡ 1
    one_entry-count = unfold add_entry in unfold new_shard in refl

try_insert-Attempt_example :
    Attempt by_length 64 one_entry shared_start 3
      (8 ∷ [])
      30
      (try_insert by_length 64 one_entry shared_start 3 (8 ∷ []) 30)
try_insert-Attempt_example =
    try_insert-Attempt by_length 64 one_entry shared_start 3 (8 ∷ []) 30 one_entry-Added.sound
      (omega arith)

remove_entry-Removed_example :
    (t : MemoryCacheShard) × (remove_entry one_entry shared_start 1
      ≡ some (true, t, entry_removed shared_start 40))
    × Removed one_entry 1 entry t
remove_entry-Removed_example =
    remove_entry-Removed one_entry one_entry-Added.sound 1 entry entry-found shared_start
