-- ===== src/Cache.antt =====
-- feuer/src/cache.rs: the lookup through the tiers and the source, with feuer/src/metrics.rs for the
-- metrics that it moves. The two tiers are an interface, which Tiers fills. A call runs between the
-- waits; what other calls do to the tiers across a wait is an argument. The trace of accesses is left
-- out.
pub mod Coherence
pub mod Answers
pub mod Admission
pub mod Tiers
pub mod Config
pub mod PendingFetches
mod Tests
use feuer.Base.{
  ℕ, zero, suc, ◌+◌, ◌-◌, ◌≡◌, ◌⊎◌, List, [], ◌∷◌, Option, none, some, Bool, true, false, ltb,
  if◌then◌else◌, length, get_elem?, set,
}

-- The memory tier: `get` and `insert` of feuer-memory/src/store.rs, whose answer tells if the object
-- is new.
pub record MemoryTier : Type 1 where
  pub Memory : Type 0
  pub object_bytes : Memory → ℕ → Option (List ℕ)
  pub insert_bytes : Memory → ℕ → List ℕ → ℕ → Bool × Memory
  -- An insertion makes up no object.
  pub from_insert :
      (m : Memory) (key : ℕ) (bytes : List ℕ) (charge j : ℕ) (x : List ℕ)
      → object_bytes (insert_bytes m key bytes charge).1 j ≡ some x
      → (object_bytes m j ≡ some x) ⊎ ((j ≡ key) × (x ≡ bytes))
  -- After an insertion there is an object: the new one, or the one that was there.
  pub after_insertion :
      (m : Memory) (key : ℕ) (bytes : List ℕ) (charge : ℕ)
      → (((insert_bytes m key bytes charge).0 ≡ true)
          × (object_bytes m key ≡ none)
          × (object_bytes (insert_bytes m key bytes charge).1 key ≡ some bytes))
        ⊎ (((insert_bytes m key bytes charge).0 ≡ false)
            × ((old : List ℕ) × (object_bytes m key ≡ some old)
                × (object_bytes (insert_bytes m key bytes charge).1 key ≡ some old)))

-- The answer of a disk read: the bytes with the capacity of their buffer, if there are any, and
-- whether the caller was asked to fall through and agreed.
pub record DiskAnswer (Disk : Type 0) : Type 0 where
  pub found : Option (List ℕ × ℕ)
  pub fell_through : Bool
  pub disk : Disk

-- The disk tier: `get_with_fallthrough`, `contains` and `enqueue_if_space_available` of
-- feuer-storage/src/disk_cache.rs. `Keeps d key bytes` says that a read may give these bytes.
pub record DiskTier : Type 1 where
  pub Disk : Type 0
  pub Keeps : Disk → ℕ → List ℕ → Type 0
  pub get_with_fallthrough : Disk → ℕ → Bool → DiskAnswer Disk
  pub contains : Disk → ℕ → Bool
  pub enqueue : Disk → ℕ → List ℕ → Disk
  pub gives_kept :
      (d : Disk) (key : ℕ) (decision : Bool) (bytes : List ℕ) (capacity : ℕ)
      → (get_with_fallthrough d key decision).found ≡ some (bytes, capacity)
      → Keeps d key bytes
  pub read_keeps :
      (d : Disk) (key : ℕ) (decision : Bool) (j : ℕ) (x : List ℕ)
      → Keeps (get_with_fallthrough d key decision).disk j x
      → Keeps d j x
  pub enqueue_keeps :
      (d : Disk) (key : ℕ) (bytes : List ℕ) (j : ℕ) (x : List ℕ)
      → Keeps (enqueue d key bytes) j x
      → Keeps d j x ⊎ ((j ≡ key) × (x ≡ bytes))

pub data LookupOutcome : Type 0 where
  memory_hit disk_hit callback callback_error miss : LookupOutcome

abbrev pub outcome_index : LookupOutcome → ℕ
outcome_index memory_hit = 0
outcome_index disk_hit = 1
outcome_index callback = 2
outcome_index callback_error = 3
outcome_index miss = 4

-- Counters by index; a histogram is the number of its records.
pub record LookupMetrics : Type 0 where
  pub outcome_counts : List ℕ
  pub success_durations : List ℕ
  pub served_bytes : List ℕ
  pub disk_write_already_covered : ℕ
  pub disk_write_redundant : ℕ

abbrev pub increase_at : List ℕ → ℕ → ℕ → List ℕ
increase_at counters index n = elim (get_elem? counters index) [
  | none ↦ counters
  | some old ↦ set counters index (old + n)
]

unfoldable pub record_outcome : LookupMetrics → LookupOutcome → ℕ → LookupMetrics
record_outcome m outcome bytes =
    let index = outcome_index outcome in
    record m {
      outcome_counts = increase_at m.outcome_counts index 1;
      served_bytes = increase_at m.served_bytes index bytes;
      success_durations =
          if ltb 0 index
          then increase_at m.success_durations (index - 1) 1
          else m.success_durations;
    }

-- What a callback gives: bytes with the amount that they are charged, or its error.
pub data Fetched : Type 0 where
  fetched : List ℕ → ℕ → Fetched
  fetch_failed : ℕ → Fetched

-- `Bytes` are charged their length, an `AlignedBuffer` its capacity.
abbrev pub from_bytes : List ℕ → Fetched
from_bytes bytes = fetched bytes (length bytes)

abbrev pub from_aligned_buffer : List ℕ → ℕ → Fetched
from_aligned_buffer bytes capacity = fetched bytes capacity

pub data GetOrFetch : Type 0 where
  got : List ℕ → GetOrFetch
  callback_failed : ℕ → GetOrFetch

-- `requests` counts what the request history records, `callbacks` the callbacks invoked.
pub record CacheInner (Memory Disk : Type 0) : Type 0 where
  pub memory : Memory
  pub disk : Option Disk
  pub metrics : LookupMetrics
  pub requests : ℕ
  pub callbacks : ℕ

-- What a lookup finds, and whether the caller agreed to fall through.
pub record Lookup (Memory Disk : Type 0) : Type 0 where
  pub outcome : LookupOutcome
  pub bytes : Option (List ℕ)
  pub fell_through : Bool
  pub cache : CacheInner Memory Disk

pub record FetchResult (Memory Disk : Type 0) : Type 0 where
  pub outcome : LookupOutcome
  pub result : GetOrFetch
  pub cache : CacheInner Memory Disk

abbrev pub payload_length : Option (List ℕ) → ℕ
payload_length none = 0
payload_length (some bytes) = length bytes

abbrev pub result_length : GetOrFetch → ℕ
result_length (got bytes) = length bytes
result_length (callback_failed e) = 0

module _ (m : MemoryTier) (d : DiskTier) where
  open m use {Memory, object_bytes, insert_bytes}
  open d use {Disk}

  -- What other calls do during a wait, by the wait.
  abbrev pub Others : Type 0
  Others = ℕ → CacheInner Memory Disk → CacheInner Memory Disk

  abbrev pub insert_memory : CacheInner Memory Disk → ℕ → List ℕ → ℕ → Bool × CacheInner Memory Disk
  insert_memory c key bytes charge =
      let (answer, memory) = insert_bytes c.memory key bytes charge in
      (answer, record c { memory = memory })

  -- `decision` is what `should_fall_through` answers if it is called. The wait is for the disk.
  abbrev pub disk_lookup :
      Others → CacheInner Memory Disk → ℕ → Bool → DiskAnswer Disk → Lookup Memory Disk
  disk_lookup others c key decision answer =
      let after = others 0 (record c { disk = some answer.disk }) in
      elim answer.found [
        | none ↦ record {
          outcome = miss;
          bytes = none;
          fell_through = answer.fell_through;
          cache = after;
        }
        | some (bytes, capacity) ↦ record {
          outcome = disk_hit;
          bytes = some bytes;
          fell_through = answer.fell_through;
          cache = (insert_memory after key bytes capacity).1;
        }
      ]

  unfoldable pub lookup : Others → CacheInner Memory Disk → ℕ → Bool → Lookup Memory Disk
  lookup others c key decision = elim (object_bytes c.memory key) [
    | some bytes ↦ record {
      outcome = memory_hit;
      bytes = some bytes;
      fell_through = false;
      cache = c;
    }
    | none ↦ elim c.disk [
      | none ↦ record { outcome = miss; bytes = none; fell_through = false; cache = c }
      | some disk ↦ disk_lookup others c key decision (d.get_with_fallthrough disk key decision)
    ]
  ]

  -- What `fetch` does with fetched bytes, once the callback has answered.
  unfoldable pub admit : CacheInner Memory Disk → ℕ → List ℕ → ℕ → Bool → CacheInner Memory Disk
  admit c key bytes memory_charge fell_through = elim c.disk [
    | none ↦ (insert_memory c key bytes memory_charge).1
    | some disk ↦
        if d.contains disk key
        then (let covered = record c {
          metrics = record c.metrics {
            disk_write_already_covered = c.metrics.disk_write_already_covered + 1;
          };
        } in
            if fell_through then (insert_memory covered key bytes memory_charge).1 else covered)
        else (let (is_new, inserted) = insert_memory c key bytes memory_charge in
            if is_new
            then record inserted { disk = some (d.enqueue disk key bytes) }
            else record inserted {
              metrics = record inserted.metrics {
                disk_write_redundant = inserted.metrics.disk_write_redundant + 1;
              };
            })
  ]

  abbrev pub answered_by : CacheInner Memory Disk → ℕ → Bool → Fetched → FetchResult Memory Disk
  answered_by c key fell_through (fetch_failed e) = record {
    outcome = callback_error;
    result = callback_failed e;
    cache = c;
  }
  answered_by c key fell_through (fetched bytes memory_charge) = record {
    outcome = callback;
    result = got bytes;
    cache = admit c key bytes memory_charge fell_through;
  }

  -- The second wait is for the callback, whose answer is `answer`.
  unfoldable pub fetch :
      Others → CacheInner Memory Disk → ℕ → Bool → Fetched → FetchResult Memory Disk
  unfolding lookup
  fetch others c key decision answer =
      let found = lookup others c key decision in
      elim found.bytes [
        | some bytes ↦ record { outcome = found.outcome; result = got bytes; cache = found.cache }
        | none ↦
            answered_by (others 1 (record found.cache { callbacks = found.cache.callbacks + 1 }))
              key found.fell_through answer
      ]

  abbrev pub record_request : CacheInner Memory Disk → CacheInner Memory Disk
  record_request c = record c { requests = c.requests + 1 }

  abbrev pub measured : CacheInner Memory Disk → LookupOutcome → ℕ → CacheInner Memory Disk
  measured c outcome len = record c { metrics = record_outcome c.metrics outcome len }

  -- `get` never falls through.
  unfoldable pub get_cached :
      Others → CacheInner Memory Disk → ℕ → Option (List ℕ) × CacheInner Memory Disk
  unfolding lookup
  get_cached others c key =
      let found = lookup others (record_request c) key false in
      (found.bytes, measured found.cache found.outcome (payload_length found.bytes))

  -- `joined` is the result of the fetch that this call shares with an earlier one, if it joins one; the
  -- wait is for its end.
  unfoldable pub get_or_fetch_by_hash :
      Others
      → CacheInner Memory Disk
      → ℕ
      → Bool
      → Option (LookupOutcome × GetOrFetch)
      → Fetched
      → GetOrFetch × CacheInner Memory Disk
  unfolding fetch
  get_or_fetch_by_hash others c key decision joined answer =
      let requested = record_request c in
      elim (object_bytes requested.memory key) [
        | some bytes ↦ (got bytes, measured requested memory_hit (length bytes))
        | none ↦ elim joined [
          | some (outcome, result) ↦
              (result, measured (others 2 requested) outcome (result_length result))
          | none ↦
              let done = fetch others requested key decision answer in
              (done.result, measured done.cache done.outcome (result_length done.result))
        ]
      ]
