-- ===== src/Storage/Allocation.antt =====
-- feuer-storage/src/allocation.rs: the free chunks of a shard, reservations and payload holds.
-- The locks are held for a whole call, so a call is a function of the state. A `u64` is a number,
-- and the one addition that can leave the type is checked as in the source.
pub mod Runs
pub mod Release
pub mod Reserve
pub mod Allocator
pub mod Ownership
pub mod Grants
pub mod FirstFit
pub mod Holds
pub mod Recovered
pub mod History
pub mod Canonical
pub mod Counts
mod Tests
use feuer.Base.{
  ℕ, suc, ◌+◌, ◌-◌, ◌*◌, ◌/◌, ◌%◌, ◌^◌, ◌≤◌, ◌<◌, List, [], ◌∷◌, Option, none, some, Bool, true,
  false, ◌||◌, ltb, leb, ◌==◌, if◌then◌else◌,
}
use feuer.Base.BTreeMap
use feuer.Base.BTreeMap.{BTreeMap}

abbrev pub chunk_bytes : ℕ
chunk_bytes = 1024 * 1024

abbrev pub u64_mod : ℕ
u64_mod = 2 ^ 64

-- The gauges of `DiskMetrics` that the allocator moves: what this allocator adds to them.
pub record Gauges : Type 0 where
  pub free_chunks : ℕ
  pub allocated_chunks : ℕ
  pub recovered_chunks : ℕ

pub record FreeChunks : Type 0 where
  pub chunk_count_by_start : BTreeMap ℕ
  pub metrics : Gauges

-- A range of chunk numbers, its end not included.
pub record Range : Type 0 where
  pub start : ℕ
  pub end : ℕ

pub record ReservedChunks : Type 0 where
  pub chunk_numbers : Range
  pub recovered : Bool

unfoldable pub unwrap_or : Option ℕ → ℕ → ℕ
unwrap_or none d = d
unwrap_or (some n) d = n

-- The map after `FreeChunks::release`.
unfoldable pub release_runs : BTreeMap ℕ → Range → BTreeMap ℕ
release_runs m chunks =
    let merged = (chunks.end - chunks.start) + unwrap_or (BTreeMap.get chunks.end m) 0 in
    let rest = BTreeMap.remove chunks.end m in
    elim (BTreeMap.last_below chunks.start rest) [
      | none ↦ BTreeMap.insert chunks.start merged rest
      | some (previous, length) ↦
          if previous + length == chunks.start
          then BTreeMap.update previous (length + merged) rest
          else BTreeMap.insert chunks.start merged rest
    ]

-- The map after `reserve_chunk_numbers`, if the chunks lie in one free run.
unfoldable pub reserve_runs : BTreeMap ℕ → Range → Option (BTreeMap ℕ)
reserve_runs m chunks = elim (BTreeMap.last_at_most chunks.start m) [
  | none ↦ none
  | some (start, count) ↦
      let end = start + count in
      let kept = chunks.start - start in
      let shortened = BTreeMap.update start kept m in
      let left = if kept == 0 then BTreeMap.remove start shortened else shortened in
      let rest =
        if ltb chunks.end end then BTreeMap.insert chunks.end (end - chunks.end) left else left in
      if leb chunks.end chunks.start || ltb end chunks.end then none else some rest
]
