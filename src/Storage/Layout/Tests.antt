-- ===== src/Storage/Layout/Tests.antt =====
-- A device of 384 chunks and a half, as in the header's tests, and the theorem for it.
use feuer.Base.{ℕ, ◌+◌, ◌*◌, ◌≤◌, ◌≡◌, refl, some}
use feuer.Storage.Allocation.{chunk_bytes}
use feuer.Storage.Layout.{disk_capacity, shard_count, shard_disk_range}
use feuer.Storage.Layout.Partition.{Partition, shard_disk_range-Partition}

abbrev requested : ℕ
requested = 384 * chunk_bytes + 512 * 1024

abbrev capacity : ℕ
capacity = 384 * chunk_bytes

accepted-test : disk_capacity requested ≡ some capacity
unfolding disk_capacity
accepted-test = refl

shards-test :
    (shard_count capacity ≡ 2)
    × (shard_disk_range capacity 2 0 ≡ record { start = chunk_bytes; end = 192 * chunk_bytes })
    × (shard_disk_range capacity 2 1
        ≡ record { start = 192 * chunk_bytes; end = 384 * chunk_bytes })
unfolding shard_count shard_disk_range
shards-test = (refl, refl, refl)

shard_disk_range-Partition_example :
    Partition capacity (shard_count capacity)
    × (2 * chunk_bytes ≤ capacity)
    × (capacity ≤ requested)
shard_disk_range-Partition_example = shard_disk_range-Partition requested capacity accepted-test
