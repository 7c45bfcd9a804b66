-- ===== src/Memory/Store/Shard.antt =====
-- feuer-memory/src/store/shard.rs: one shard of the memory cache. A call holds the shard's lock, and
-- changes the buffer pool and the metrics that the shards share. `none` is a panic. Keys, payload
-- lengths and charges are numbers, and sums of charges stay in 64 bits.
use feuer.Base.{
  ℕ, ◌+◌, ◌-◌, List, [], ◌∷◌, ◌++◌, Option, none, some, Bool, true, false, ◌&&◌, ◌||◌, ltb, leb,
  ◌==◌, if◌then◌else◌, length, get_elem?, swap_remove,
}
use feuer.Base.HashMap.{HashMap, get, remove, insert}
use feuer.Memory.Buffer.{BufferPool, add_used_bytes, remove_used_bytes}
use feuer.Memory.Retention.{sample_candidates}

-- `bytes` is the payload.
pub record MemoryEntry : Type 0 where
  pub bytes : List ℕ
  pub allocation_charge : ℕ
  pub candidate_index : ℕ

pub data InsertResult : Type 0 where
  inserted : InsertResult
  already_present : InsertResult
  evicted_but_did_not_insert : InsertResult

pub record MemoryCacheShard : Type 0 where
  pub capacity : ℕ
  pub used_bytes : ℕ
  pub entries_by_key : HashMap MemoryEntry
  pub eviction_candidates : List ℕ
  pub next_sample_start : ℕ

-- The counters, and the gauge of the entries.
pub record Counters : Type 0 where
  pub insertions : ℕ
  pub redundant_insertions : ℕ
  pub removals : ℕ
  pub entries : ℕ

-- What the shards share: the pool and the metrics.
pub record Shared : Type 0 where
  pub buffer_pool : BufferPool
  pub metrics : Counters

-- The rank of a score in the total order of floating-point numbers, from key and payload length.
abbrev pub RetentionScorer : Type 0
RetentionScorer = ℕ → ℕ → ℕ

unfoldable pub new_shard : ℕ → MemoryCacheShard
new_shard capacity = record {
  capacity = capacity;
  used_bytes = 0;
  entries_by_key = [];
  eviction_candidates = [];
  next_sample_start = 0;
}

abbrev pub payload_of : Option MemoryEntry → Option (List ℕ)
payload_of none = none
payload_of (some e) = some e.bytes

unfoldable pub get_bytes : MemoryCacheShard → ℕ → Option (List ℕ)
get_bytes s key = payload_of (get key s.entries_by_key)

unfoldable pub contains_entry : MemoryCacheShard → ℕ → Bool
contains_entry s key = elim (get key s.entries_by_key) [ none ↦ false | some e ↦ true ]

-- The entry that took the place of the removed candidate, if there is one, gets its new index.
abbrev pub reindex : HashMap MemoryEntry → ℕ → Option ℕ → Option (HashMap MemoryEntry)
reindex m index none = some m
reindex m index (some key) = elim (get key m) [
  | none ↦ none
  | some e ↦ some (insert key (record e { candidate_index = index }) m)
]

abbrev pub entry_removed : Shared → ℕ → Shared
entry_removed g bytes =
    let metrics = g.metrics in
    record {
      buffer_pool = remove_used_bytes g.buffer_pool bytes;
      metrics = record metrics { entries = metrics.entries - 1 };
    }

-- The shard without an entry that is out of the map, whose candidate is still listed.
unfoldable pub unlist :
    MemoryCacheShard
    → Shared
    → HashMap MemoryEntry
    → MemoryEntry
    → Option (Bool × MemoryCacheShard × Shared)
unlist s g m removed_entry =
    let index = removed_entry.candidate_index in
    let candidates = swap_remove s.eviction_candidates index in
    if ltb index (length s.eviction_candidates)
    then elim (reindex m index (get_elem? candidates index)) [
      | none ↦ none
      | some entries ↦ some (
        true,
        record s {
          used_bytes = s.used_bytes - removed_entry.allocation_charge;
          entries_by_key = entries;
          eviction_candidates = candidates;
        },
        entry_removed g removed_entry.allocation_charge,
      )
    ]
    else none

unfoldable pub remove_entry :
    MemoryCacheShard → Shared → ℕ → Option (Bool × MemoryCacheShard × Shared)
remove_entry s g key = elim (get key s.entries_by_key) [
  | none ↦ some (false, s, g)
  | some e ↦ unlist s g (remove key s.entries_by_key) e
]

abbrev pub count_removal : Shared → Shared
count_removal g =
    let metrics = g.metrics in
    record g { metrics = record metrics { removals = metrics.removals + 1 } }

abbrev pub counted_removal :
    Option (Bool × MemoryCacheShard × Shared) → Option (Bool × MemoryCacheShard × Shared)
counted_removal none = none
counted_removal (some (false, t, h)) = some (false, t, h)
counted_removal (some (true, t, h)) = some (true, t, count_removal h)

-- `remove`.
unfoldable pub remove_key :
    MemoryCacheShard → Shared → ℕ → Option (Bool × MemoryCacheShard × Shared)
remove_key s g key = counted_removal (remove_entry s g key)

unfoldable pub add_entry : MemoryCacheShard → Shared → ℕ → List ℕ → ℕ → MemoryCacheShard × Shared
add_entry s g key bytes charge =
    let metrics = g.metrics in
    (
      record s {
        used_bytes = s.used_bytes + charge;
        entries_by_key =
            insert key
              (record {
                bytes = bytes;
                allocation_charge = charge;
                candidate_index = length s.eviction_candidates;
              })
              s.entries_by_key;
        eviction_candidates = s.eviction_candidates ++ key ∷ [];
      },
      record {
        buffer_pool = add_used_bytes g.buffer_pool charge;
        metrics = record metrics { entries = metrics.entries + 1 };
      },
    )

-- Each sampled key with its score. Indexing the map panics on a missing key.
unfoldable pub score_keys : RetentionScorer → HashMap MemoryEntry → List ℕ → Option (List (ℕ × ℕ))
score_keys score m [] = some []
score_keys score m (key ∷ keys) = elim (get key m) [
  | none ↦ none
  | some e ↦ elim (score_keys score m keys) [
    | none ↦ none
    | some scored ↦ some ((score key (length e.bytes), key) ∷ scored)
  ]
]

-- By score, then by key.
abbrev pub before : ℕ × ℕ → ℕ × ℕ → Bool
before (score, key) (other_score, other_key) =
    ltb score other_score || ((score == other_score) && ltb key other_key)

-- `min_by`.
unfoldable pub min_by : List (ℕ × ℕ) → Option (ℕ × ℕ)
min_by [] = none
min_by (x ∷ xs) = elim (min_by xs) [ none ↦ some x | some y ↦ some (if before y x then y else x) ]

-- The key to evict, and the shard with its next sample moved on.
unfoldable pub choose : RetentionScorer → ℕ → MemoryCacheShard → Option (ℕ × MemoryCacheShard)
choose score sample_size s =
    let (next, sample) = sample_candidates s.next_sample_start s.eviction_candidates sample_size in
    elim (score_keys score s.entries_by_key sample) [
      | none ↦ none
      | some scored ↦ elim (min_by scored) [
        | none ↦ none
        | some (_, key) ↦ some (key, record s { next_sample_start = next })
      ]
    ]

abbrev pub evicted :
    Option (Bool × MemoryCacheShard × Shared) → Option (InsertResult × MemoryCacheShard × Shared)
evicted none = none
evicted (some (_, s, g)) = some (evicted_but_did_not_insert, s, g)

unfoldable pub evict :
    RetentionScorer
    → ℕ
    → MemoryCacheShard
    → Shared
    → Option (InsertResult × MemoryCacheShard × Shared)
evict score sample_size s g = elim (choose score sample_size s) [
  | none ↦ none
  | some (key, t) ↦ evicted (remove_entry t g key)
]

abbrev pub count_redundant : Shared → Shared
count_redundant g =
    let metrics = g.metrics in
    record g {
      metrics = record metrics { redundant_insertions = metrics.redundant_insertions + 1 };
    }

abbrev pub count_insertion : Shared → Shared
count_insertion g =
    let metrics = g.metrics in
    record g { metrics = record metrics { insertions = metrics.insertions + 1 } }

abbrev pub added : MemoryCacheShard × Shared → Option (InsertResult × MemoryCacheShard × Shared)
added (t, h) = some (inserted, t, count_insertion h)

unfoldable pub try_insert :
    RetentionScorer
    → ℕ
    → MemoryCacheShard
    → Shared
    → ℕ
    → List ℕ
    → ℕ
    → Option (InsertResult × MemoryCacheShard × Shared)
try_insert score sample_size s g key bytes charge =
    if contains_entry s key
    then some (already_present, s, count_redundant g)
    else if leb s.used_bytes (s.capacity - charge)
    then added (add_entry s g key bytes charge)
    else evict score sample_size s g

-- `Drop for MemoryCacheShard`: what it leaves shared.
unfoldable pub drop_shard : MemoryCacheShard → Shared → Shared
drop_shard s g =
    let metrics = g.metrics in
    record {
      buffer_pool = remove_used_bytes g.buffer_pool s.used_bytes;
      metrics = record metrics { entries = metrics.entries - length s.eviction_candidates };
    }
