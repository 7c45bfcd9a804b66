-- ===== src/Storage/Layout.antt =====
-- The split of the device into shards: the number of them from `DiskCache::open` in
-- feuer-storage/src/disk_cache.rs, and shard_disk_range of feuer-storage/src/disk_cache/recovery.rs.
-- With at most 64 shards and a capacity below 2^63 bytes, the products stay in 64 bits.
pub mod Partition
mod Tests
use feuer.Base.{
  ℕ, suc, ◌+◌, ◌-◌, ◌*◌, ◌/◌, ◌^◌, min, max, Option, none, some, ltb, ◌||◌, if◌then◌else◌,
}
use feuer.Storage.Allocation.{Range, chunk_bytes}

-- The capacity in whole chunks, or `none` for `InvalidCapacity`.
unfoldable pub disk_capacity : ℕ → Option ℕ
disk_capacity capacity =
    if ltb capacity (2 * chunk_bytes) || ltb (2 ^ 63 - 1) capacity
    then none
    else some (capacity / chunk_bytes * chunk_bytes)

-- The number of shards of a whole capacity.
unfoldable pub shard_count : ℕ → ℕ
shard_count capacity = min (max ((capacity - chunk_bytes) / (128 * chunk_bytes)) 1) 64

unfoldable pub shard_disk_range : ℕ → ℕ → ℕ → Range
shard_disk_range capacity num_shards shard_index =
    let chunks_after_header = capacity / chunk_bytes - 1 in
    record {
      start = (1 + chunks_after_header * shard_index / num_shards) * chunk_bytes;
      end = (1 + chunks_after_header * (shard_index + 1) / num_shards) * chunk_bytes;
    }
