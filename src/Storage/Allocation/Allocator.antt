-- ===== src/Storage/Allocation/Allocator.antt =====
-- `DiskChunkAllocator`: reservations, drops and payload holds (feuer-storage/src/allocation.rs).
use feuer.Base.{
  ℕ, ◌+◌, ◌-◌, ◌*◌, ◌/◌, ◌%◌, [], ◌∷◌, Option, none, some, true, false, ltb, leb, ◌==◌,
  if◌then◌else◌,
}
use feuer.Base.BTreeMap.{BTreeMap}
use feuer.Base.HashMap
use feuer.Base.HashMap.{HashMap}
use feuer.Storage.Allocation.{
  chunk_bytes, u64_mod, FreeChunks, Gauges, Range, ReservedChunks, release_runs, reserve_runs,
}

pub record DiskChunkAllocator : Type 0 where
  pub free : FreeChunks
  pub chunk_capacity : ℕ
  -- First chunk number to the reservation and the number of payloads that use it.
  pub payload_chunks : HashMap (ReservedChunks × ℕ)

-- A call that ends in a panic has no state to return.
pub data Outcome {ℓ} (A : Type ℓ) : Type ℓ where
  ok : A → Outcome A
  panic : Outcome A

abbrev pub checked_add : ℕ → ℕ → Option ℕ
checked_add a b = if ltb (a + b) u64_mod then some (a + b) else none

abbrev pub wrapping_sub : ℕ → ℕ → ℕ
wrapping_sub a b = (a + u64_mod - b) % u64_mod

abbrev pub div_ceil : ℕ → ℕ → ℕ
div_ceil n d = n / d + (if n % d == 0 then 0 else 1)

-- `with_metrics`, on a range of bytes.
unfoldable pub with_metrics : Range → DiskChunkAllocator
with_metrics disk_range =
    let chunk_capacity = (disk_range.end - disk_range.start) / chunk_bytes in
    record {
      free = record {
        chunk_count_by_start = (disk_range.start / chunk_bytes, chunk_capacity) ∷ [];
        metrics = record {
          free_chunks = chunk_capacity;
          allocated_chunks = 0;
          recovered_chunks = 0;
        };
      };
      chunk_capacity = chunk_capacity;
      payload_chunks = [];
    }

unfoldable pub chunk_count : ReservedChunks → ℕ
chunk_count r = r.chunk_numbers.end - r.chunk_numbers.start

unfoldable pub disk_byte_range : ReservedChunks → Range
disk_byte_range r = record {
  start = r.chunk_numbers.start * chunk_bytes;
  end = r.chunk_numbers.end * chunk_bytes;
}

-- `FreeChunks::release`.
unfoldable pub release_chunks : FreeChunks → Range → FreeChunks
release_chunks f chunks =
    let released = chunks.end - chunks.start in
    let metrics = f.metrics in
    record {
      chunk_count_by_start = release_runs f.chunk_count_by_start chunks;
      metrics = record metrics {
        free_chunks = metrics.free_chunks + released;
        allocated_chunks = metrics.allocated_chunks - released;
      };
    }

unfoldable pub sum_counts : BTreeMap ℕ → ℕ
sum_counts [] = 0
sum_counts ((start, count) ∷ m) = count + sum_counts m

-- `Drop for FreeChunks`: what is left on the gauges.
unfoldable pub drop_free : FreeChunks → Gauges
unfolding sum_counts
drop_free f =
    let metrics = f.metrics in
    record metrics { free_chunks = metrics.free_chunks - sum_counts f.chunk_count_by_start }

-- The allocator with these free runs after `count` chunks were taken from them.
abbrev pub with_reserved : DiskChunkAllocator → BTreeMap ℕ → ℕ → DiskChunkAllocator
with_reserved a runs count =
    let metrics = a.free.metrics in
    record a {
      free = record {
        chunk_count_by_start = runs;
        metrics = record metrics {
          free_chunks = metrics.free_chunks - count;
          allocated_chunks = metrics.allocated_chunks + count;
        };
      };
    }

unfoldable pub reserve_chunk_numbers :
    DiskChunkAllocator → Range → Option (ReservedChunks × DiskChunkAllocator)
reserve_chunk_numbers a chunks = elim (reserve_runs a.free.chunk_count_by_start chunks) [
  | none ↦ none
  | some runs ↦ some (
    record { chunk_numbers = chunks; recovered = false },
    with_reserved a runs (chunks.end - chunks.start),
  )
]

unfoldable pub reserve_chunks_at :
    DiskChunkAllocator → ℕ → ℕ → Option (ReservedChunks × DiskChunkAllocator)
reserve_chunks_at a first count = elim (checked_add first count) [
  | none ↦ none
  | some last ↦ reserve_chunk_numbers a (record { start = first; end = last })
]

-- `iter().find(|(_, length)| **length >= count)`: the start of the first run that is long enough.
unfoldable pub find_run : BTreeMap ℕ → ℕ → Option ℕ
find_run [] count = none
find_run ((start, length) ∷ m) count = if leb count length then some start else find_run m count

unfoldable pub reserve_chunks :
    DiskChunkAllocator → ℕ → Option (ReservedChunks × DiskChunkAllocator)
reserve_chunks a count = elim (find_run a.free.chunk_count_by_start count) [
  | none ↦ none
  | some start ↦ reserve_chunk_numbers a (record { start = start; end = start + count })
]

unfoldable pub mark_recovered :
    DiskChunkAllocator → ReservedChunks → ReservedChunks × DiskChunkAllocator
mark_recovered a r =
    let free = a.free in
    let metrics = free.metrics in
    (
      record r { recovered = true },
      record a {
        free = record free {
          metrics = record metrics { recovered_chunks = metrics.recovered_chunks + chunk_count r };
        };
      },
    )

-- `Drop for ReservedChunks`.
unfoldable pub drop_reserved : DiskChunkAllocator → ReservedChunks → DiskChunkAllocator
drop_reserved a r =
    let free = a.free in
    let metrics = free.metrics in
    let counted =
      if r.recovered
      then record metrics { recovered_chunks = metrics.recovered_chunks - chunk_count r }
      else metrics in
    record a { free = release_chunks (record free { metrics = counted }) r.chunk_numbers }

-- Inserting over a held reservation drops the old one.
unfoldable pub hold_chunks_until_payloads_released :
    DiskChunkAllocator → ReservedChunks → ℕ → DiskChunkAllocator
hold_chunks_until_payloads_released a r payload_count =
    let key = r.chunk_numbers.start in
    let held = record a {
      payload_chunks = HashMap.insert key (r, payload_count) a.payload_chunks;
    } in
    elim (HashMap.get key a.payload_chunks) [ none ↦ held | some (old, _) ↦ drop_reserved held old ]

unfoldable pub hold_chunks_for_recovered_payload :
    DiskChunkAllocator → Range → Option DiskChunkAllocator
hold_chunks_for_recovered_payload a payload_range =
    let first = payload_range.start / chunk_bytes in
    elim (HashMap.get first a.payload_chunks) [
      | some (r, payload_count) ↦
          if leb payload_range.end (disk_byte_range r).end
          then some (record a {
            payload_chunks = HashMap.insert first (r, payload_count + 1) a.payload_chunks;
          })
          else none
      | none ↦
          elim (reserve_chunks_at a first
            (wrapping_sub (div_ceil payload_range.end chunk_bytes) first)) [
              | none ↦ none
              | some (r, b) ↦
                  let (marked, c) = mark_recovered b r in
                  some (record c {
                    payload_chunks = HashMap.insert first (marked, 1) c.payload_chunks;
                  })
            ]
    ]

-- A count of zero panics: its decrement overflows, in a build that checks for it.
unfoldable pub release_payload : DiskChunkAllocator → ℕ → Outcome DiskChunkAllocator
release_payload a payload_address =
    let first = payload_address / chunk_bytes in
    elim (HashMap.get first a.payload_chunks) [
      | none ↦ panic
      | some (r, payload_count) ↦
          if payload_count == 1
          then ok (
              drop_reserved (record a { payload_chunks = HashMap.remove first a.payload_chunks }) r)
          else if payload_count == 0
          then panic
          else ok (record a {
            payload_chunks = HashMap.insert first (r, payload_count - 1) a.payload_chunks;
          })
    ]
