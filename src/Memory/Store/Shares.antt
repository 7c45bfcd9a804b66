-- ===== src/Memory/Store/Shares.antt =====
-- The split of the capacity: shard_capacity_for of feuer-memory/src/store.rs.
use native.Mathlib.Nat.{mod-lt, div-add-mod}
use feuer.Base.{
  ℕ, zero, suc, ◌+◌, ◌*◌, ◌/◌, ◌%◌, ◌≤◌, ◌<◌, ◌≡◌, ◌∙◌, arith, ltb, if◌then◌else◌, min,
}
use feuer.Memory.Store.{shard_capacity_for}

-- The capacities of the first shards.
unfoldable pub capacity_of : ℕ → ℕ → ℕ → ℕ
capacity_of total n zero = 0
capacity_of total n (suc k) = shard_capacity_for total n k + capacity_of total n k

next :
    (q r k : ℕ) → (q + (if ltb k r then 1 else 0)) + (k * q + min k r) ≡ suc k * q + min (suc k) r
next q r k = ground arith

capacity_of-eq : (total n k : ℕ) → capacity_of total n k ≡ k * (total / n) + min k (total % n)
unfolding capacity_of shard_capacity_for
capacity_of-eq total n zero = omega arith
capacity_of-eq total n (suc k) = rw (capacity_of-eq total n k) (next (total / n) (total % n) k)

whole : (total n : ℕ) → 0 < n → n * (total / n) + min n (total % n) ≡ total
whole total n h = omega (arith, mod-lt total h, div-add-mod total n)

-- For some shards, their capacities add up to that of the cache, and differ by at most one byte.
pub capacity_of-all :
    (total n : ℕ)
    → 0 < n
    → (capacity_of total n n ≡ total)
      × ((i j : ℕ) → shard_capacity_for total n i ≤ suc (shard_capacity_for total n j))
unfolding shard_capacity_for
capacity_of-all total n h = (capacity_of-eq total n n ∙ whole total n h, λ i j. ground arith)
