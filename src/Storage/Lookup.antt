-- ===== src/Storage/Lookup.antt =====
-- Lookups of feuer-storage/src/disk_cache.rs, with those of disk_cache/small_entry_buffer.rs and the
-- queue of disk_cache/write_queue.rs. What the system and other threads decide is part of the state:
-- the kernel that serves the next read, the capacity of its buffer, whether the buffer of a shard is
-- locked, whether a check for fallthrough is scheduled, and the result of a read that another caller
-- still holds. An index is a function, and so are the shards, at the keys' remainders. A lookup reads
-- the file as it was when it looked up the entry. An entry that fails its checksum leaves the index;
-- the release of its chunks and of its slot is in Storage/Allocation and Storage/Metadata.
pub mod Kept
use feuer.Base.{
  ℕ, ◌+◌, ◌%◌, ◌≡◌, List, [], ◌∷◌, ◌++◌, Option, none, some, Bool, true, false, not, ◌&&◌, ◌||◌,
  ◌==◌, leb, if◌then◌else◌, length,
}
use feuer.Storage.Io.Pieces.{bytes_from}
use feuer.Storage.Io.Writing.{Kernel, IsHonest}
use feuer.Storage.Io.DataFile.{DataFileResult, success, failure, read_payload}

pub data DiskLookupOutcome : Type 0 where
  hit absent io_error checksum_failed fallthrough : DiskLookupOutcome

pub data DiskWriteQueueOutcome : Type 0 where
  queued full closed canceled : DiskWriteQueueOutcome

pub record WriteEntry : Type 0 where
  pub key : ℕ
  pub buffer_offset : ℕ
  pub payload_len : ℕ

pub record SmallEntryBuffer : Type 0 where
  pub buffer : ℕ → ℕ
  pub entries : List WriteEntry

-- The result of a payload read, with the capacity of its buffer.
pub data ReadResult : Type 0 where
  read_bytes : List ℕ → ℕ → ReadResult
  read_failed : DiskLookupOutcome → ReadResult

-- `shared_read` is the result of a read that another caller holds, once it is set.
pub record DiskEntry : Type 0 where
  pub payload_len : ℕ
  pub payload_checksum : ℕ
  pub payload_address : ℕ
  pub shared_read : Option ReadResult

pub record DiskCacheShard : Type 0 where
  pub small_entry_buffer : SmallEntryBuffer
  pub buffer_is_locked : Bool
  pub entries_by_key : ℕ → Option DiskEntry

-- The metrics are the outcomes that were recorded, the last one first, and two gauges.
pub record DiskCache : Type 0 where
  pub shards : ℕ → DiskCacheShard
  pub shard_count : ℕ
  pub queued_writes : List (ℕ × List ℕ)
  pub is_closed : Bool
  pub file : ℕ → ℕ
  pub kernel : Kernel
  pub kernel_IsHonest : IsHonest file kernel
  pub allocated : Option ℕ
  pub fallthrough_scheduled : Bool
  pub lookups : List DiskLookupOutcome
  pub queue_outcomes : List DiskWriteQueueOutcome
  pub queued_entries : ℕ
  pub pending_bytes : ℕ

-- The newest entry of a key, which is the last one.
unfoldable pub find_last : ℕ → List WriteEntry → Option WriteEntry
find_last key [] = none
find_last key (e ∷ es) =
    let later = find_last key es in
    elim later [ some found ↦ some found | none ↦ if e.key == key then some e else none ]

abbrev pub entry : SmallEntryBuffer → ℕ → Option WriteEntry
entry b key = find_last key b.entries

abbrev pub copied : SmallEntryBuffer → Option WriteEntry → Option (List ℕ)
copied b none = none
copied b (some e) = some (bytes_from b.buffer e.buffer_offset e.payload_len)

abbrev pub get_buffered : SmallEntryBuffer → ℕ → Option (List ℕ)
get_buffered b key = copied b (entry b key)

abbrev pub is_some : {A : Type 0} → Option A → Bool
is_some none = false
is_some (some x) = true

abbrev pub shard_of : DiskCache → ℕ → DiskCacheShard
shard_of c key = c.shards (key % c.shard_count)

abbrev pub shard_contains : DiskCacheShard → ℕ → Bool
shard_contains s key =
    (not s.buffer_is_locked && is_some (entry s.small_entry_buffer key))
    || is_some (s.entries_by_key key)

unfoldable pub contains : DiskCache → ℕ → Bool
contains c key = shard_contains (shard_of c key) key

abbrev pub unlocked_bytes : DiskCacheShard → ℕ → Option (List ℕ)
unlocked_bytes s key = if s.buffer_is_locked then none else get_buffered s.small_entry_buffer key

-- `none` is a panic, which no read over such a kernel ends in.
unfoldable pub verified :
    (List ℕ → ℕ) → DiskEntry → Option (DataFileResult (List ℕ × ℕ)) → ReadResult
verified checksum e none = read_failed io_error
verified checksum e (some (failure x)) = read_failed io_error
verified checksum e (some (success (bytes, capacity))) =
    if checksum bytes == e.payload_checksum
    then read_bytes bytes capacity
    else read_failed checksum_failed

abbrev pub read_and_verify_payload : (List ℕ → ℕ) → DiskCache → DiskEntry → ReadResult
read_and_verify_payload checksum c e =
    verified checksum e (read_payload c.kernel c.allocated e.payload_address e.payload_len)

abbrev pub removed_from_index : DiskCacheShard → ℕ → DiskCacheShard
removed_from_index s key = record s {
  entries_by_key = λ j. if j == key then none else s.entries_by_key j;
}

abbrev pub remove_entry_from_index : DiskCache → ℕ → DiskCache
remove_entry_from_index c key = record c {
  shards =
      λ i. if i == key % c.shard_count then removed_from_index (c.shards i) key else c.shards i;
}

abbrev pub after_read : DiskCache → ℕ → ReadResult → DiskCache
after_read c key (read_failed checksum_failed) = remove_entry_from_index c key
after_read c key (read_failed hit) = c
after_read c key (read_failed absent) = c
after_read c key (read_failed io_error) = c
after_read c key (read_failed fallthrough) = c
after_read c key (read_bytes bytes capacity) = c

abbrev pub record_lookup : DiskCache → DiskLookupOutcome → DiskCache
record_lookup c outcome = record c { lookups = outcome ∷ c.lookups }

-- What a lookup gives, and whether its caller was asked to fall through and agreed.
pub record DiskLookup : Type 0 where
  pub found : Option (List ℕ × ℕ)
  pub fell_through : Bool
  pub disk : DiskCache

abbrev pub lookup_missed : DiskCache → Bool → DiskLookupOutcome → DiskLookup
lookup_missed c fell_through outcome = record {
  found = none;
  fell_through = fell_through;
  disk = record_lookup c outcome;
}

abbrev pub lookup_result : DiskCache → ReadResult → DiskLookup
lookup_result c (read_failed outcome) = lookup_missed c false outcome
lookup_result c (read_bytes bytes capacity) = record {
  found = some (bytes, capacity);
  fell_through = false;
  disk = record_lookup c hit;
}

unfoldable pub lookup_entry : (List ℕ → ℕ) → DiskCache → ℕ → Bool → DiskEntry → DiskLookup
lookup_entry checksum c key decision e = elim e.shared_read [
  | some result ↦ lookup_result c result
  | none ↦
      if c.fallthrough_scheduled && decision
      then lookup_missed c true fallthrough
      else (let result = read_and_verify_payload checksum c e in
          lookup_result (after_read c key result) result)
]

-- `decision` is what `should_fall_through` answers if it is called.
unfoldable pub get_with_fallthrough : (List ℕ → ℕ) → DiskCache → ℕ → Bool → DiskLookup
get_with_fallthrough checksum c key decision = elim (unlocked_bytes (shard_of c key) key) [
  | some bytes ↦ lookup_result c (read_bytes bytes (length bytes))
  | none ↦ elim ((shard_of c key).entries_by_key key) [
    | none ↦ lookup_missed c false absent
    | some e ↦ lookup_entry checksum c key decision e
  ]
]

abbrev pub max_queued_entries : ℕ
max_queued_entries = 512

abbrev pub record_queue : DiskCache → DiskWriteQueueOutcome → DiskCache
record_queue c outcome = record c { queue_outcomes = outcome ∷ c.queue_outcomes }

-- What is sent with the permit of the queue.
abbrev pub send : DiskCache → ℕ → List ℕ → DiskCache
send c key bytes = record (record_queue c queued) {
  queued_writes = c.queued_writes ++ ((key, bytes) ∷ []);
  queued_entries = c.queued_entries + 1;
  pending_bytes = c.pending_bytes + length bytes;
}

unfoldable pub enqueue_if_space_available : DiskCache → ℕ → List ℕ → DiskCache
enqueue_if_space_available c key bytes =
    if c.is_closed
    then record_queue c closed
    else if leb max_queued_entries (length c.queued_writes)
    then record_queue c full
    else send c key bytes
