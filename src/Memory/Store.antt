-- ===== src/Memory/Store.antt =====
-- feuer-memory/src/store.rs: the memory cache over its shards, which a hash of the key selects. The
-- hash is an argument. `none` is a panic, or an end of fuel in the loop. The fuel given is the number
-- of entries in the shard, and one.
pub mod Shard
pub mod Candidates
pub mod Entries
pub mod Removal
pub mod Remove
pub mod Choice
pub mod Chosen
pub mod Insertion
pub mod Loop
pub mod Shares
pub mod Books
pub mod Interleaving
pub mod Objects
pub mod Kept
mod Tests
use feuer.Base.{
  ℕ, zero, suc, ◌+◌, ◌*◌, ◌/◌, ◌%◌, max, List, [], ◌∷◌, Option, none, some, Bool, true, false, ltb,
  leb, if◌then◌else◌, length, get_elem?, set,
}
use feuer.Memory.Buffer.{new_pool}
use feuer.Memory.Store.Shard.{
  InsertResult, inserted, already_present, evicted_but_did_not_insert, MemoryCacheShard, Shared,
  RetentionScorer, get_bytes, new_shard, contains_entry, try_insert, remove_key,
}

pub record MemoryCache : Type 0 where
  pub shards : List MemoryCacheShard
  pub shared : Shared
  pub reclaim_sample_size : ℕ
  pub eviction_triggering_insertions : ℕ

unfoldable pub shard_capacity_for : ℕ → ℕ → ℕ → ℕ
shard_capacity_for total_capacity num_shards shard_index =
    total_capacity / num_shards + (if ltb shard_index (total_capacity % num_shards) then 1 else 0)

unfoldable pub default_shard_count : ℕ → ℕ
default_shard_count capacity = max (capacity / (8 * 1024 * 1024 * 1024)) 1

unfoldable pub shards_from : ℕ → ℕ → ℕ → ℕ → List MemoryCacheShard
shards_from total_capacity num_shards shard_index zero = []
shards_from total_capacity num_shards shard_index (suc k) =
    new_shard (shard_capacity_for total_capacity num_shards shard_index)
    ∷ shards_from total_capacity num_shards (suc shard_index) k

-- `with_shard_count` on a new pool, without its assertion.
unfoldable pub new_cache : ℕ → ℕ → MemoryCache
new_cache capacity num_shards = record {
  shards = shards_from capacity num_shards 0 num_shards;
  shared = record {
    buffer_pool = new_pool capacity;
    metrics = record { insertions = 0; redundant_insertions = 0; removals = 0; entries = 0 };
  };
  reclaim_sample_size = 64;
  eviction_triggering_insertions = 0;
}

unfoldable pub with_shard_count : ℕ → ℕ → Option MemoryCache
with_shard_count capacity num_shards =
    if ltb 0 num_shards then some (new_cache capacity num_shards) else none

unfoldable pub with_reclaim_sample_size : MemoryCache → ℕ → Option MemoryCache
with_reclaim_sample_size c sample_size =
    if ltb 0 sample_size then some (record c { reclaim_sample_size = sample_size }) else none

-- The answer of the loop, whether it evicted, and the state after it.
abbrev pub Insertion : Type 0
Insertion = Bool × Bool × MemoryCacheShard × Shared

-- The loop of `insert` when no other call comes between its rounds, where the code lets the shard go:
-- a round for each attempt, with the scores of its time. In Interleaving the attempts stand alone.
unfoldable pub insert_rounds :
    ℕ
    → (ℕ → RetentionScorer)
    → ℕ
    → MemoryCacheShard
    → Shared
    → ℕ
    → List ℕ
    → ℕ
    → Bool
    → Option Insertion
insert_rounds zero scores size s g key bytes charge evicted_any_entry = none
insert_rounds (suc fuel) scores size s g key bytes charge evicted_any_entry =
    elim (try_insert (scores fuel) size s g key bytes charge) [
      | none ↦ none
      | some (inserted, t, h) ↦ some (true, evicted_any_entry, t, h)
      | some (already_present, t, h) ↦ some (false, evicted_any_entry, t, h)
      | some (evicted_but_did_not_insert, t, h) ↦
          insert_rounds fuel scores size t h key bytes charge true
    ]

abbrev pub shard_index : (ℕ → ℕ) → MemoryCache → ℕ → ℕ
shard_index hash c key = hash key % length c.shards

-- The cache with a shard and what is shared put back.
abbrev pub with_shard : MemoryCache → ℕ → MemoryCacheShard → Shared → MemoryCache
with_shard c index s g = record c { shards = set c.shards index s; shared = g }

abbrev pub after_insert : MemoryCache → ℕ → Bool → MemoryCacheShard → Shared → MemoryCache
after_insert c index evicted_any_entry s g =
    let d = with_shard c index s g in
    record d {
      eviction_triggering_insertions =
          d.eviction_triggering_insertions + (if evicted_any_entry then 1 else 0);
    }

abbrev pub count_insert : MemoryCache → ℕ → Option Insertion → Option (Bool × MemoryCache)
count_insert c index none = none
count_insert c index (some (answer, evicted_any_entry, s, g)) =
    some (answer, after_insert c index evicted_any_entry s g)

unfoldable pub insert_object :
    (ℕ → ℕ) → (ℕ → RetentionScorer) → MemoryCache → ℕ → List ℕ → ℕ → Option (Bool × MemoryCache)
insert_object hash scores c key bytes charge =
    if leb (length bytes) charge
    then elim (get_elem? c.shards (shard_index hash c key)) [
      | none ↦ none
      | some s ↦ count_insert c (shard_index hash c key) (
          insert_rounds (suc (length s.eviction_candidates)) scores c.reclaim_sample_size s c.shared
            key bytes charge false)
    ]
    else none

unfoldable pub get_object : (ℕ → ℕ) → MemoryCache → ℕ → Option (List ℕ)
get_object hash c key = elim (get_elem? c.shards (shard_index hash c key)) [
  | none ↦ none
  | some s ↦ get_bytes s key
]

unfoldable pub contains_object : (ℕ → ℕ) → MemoryCache → ℕ → Bool
contains_object hash c key = elim (get_elem? c.shards (shard_index hash c key)) [
  | none ↦ false
  | some s ↦ contains_entry s key
]

abbrev pub removed_from :
    MemoryCache → ℕ → Option (Bool × MemoryCacheShard × Shared) → Option (Bool × MemoryCache)
removed_from c index none = none
removed_from c index (some (answer, s, g)) = some (answer, with_shard c index s g)

unfoldable pub remove_object : (ℕ → ℕ) → MemoryCache → ℕ → Option (Bool × MemoryCache)
remove_object hash c key = elim (get_elem? c.shards (shard_index hash c key)) [
  | none ↦ none
  | some s ↦ removed_from c (shard_index hash c key) (remove_key s c.shared key)
]
