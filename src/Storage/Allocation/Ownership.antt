-- ===== src/Storage/Allocation/Ownership.antt =====
-- Who owns a chunk: the free map, a payload hold, or a reservation that a caller has.
use feuer.Base.{
  ℕ, suc, ◌+◌, ◌-◌, ◌≤◌, ◌<◌, ◌≡◌, ◌⊎◌, inl, inr, [], ◌∷◌, if◌then◌else◌, ltb, arith, dec_lt, max,
}
use feuer.Base.BTreeMap.{BTreeMap}
use feuer.Storage.Allocation.{Range, ReservedChunks}
use feuer.Storage.Allocation.Runs.{IsRuns, in_range, free_at, total}
use feuer.Storage.Allocation.Release.{Apart, release_runs-Released}
use feuer.Storage.Allocation.Allocator.{
  DiskChunkAllocator, chunk_count, release_chunks, drop_reserved,
}

-- What is summed over the reservations: whether one holds the chunk, its size, its size if it was
-- recovered, and whether it is empty.
abbrev pub holds : ℕ → ReservedChunks → ℕ
holds c r = in_range r.chunk_numbers.start r.chunk_numbers.end c

abbrev pub recovered_count : ReservedChunks → ℕ
recovered_count r = if r.recovered then chunk_count r else 0

abbrev pub is_empty : ReservedChunks → ℕ
is_empty r = if ltb r.chunk_numbers.start r.chunk_numbers.end then 0 else 1

-- `owned f` is the sum of `f` over all reservations. Every chunk of the shard has one owner, the
-- free map or a reservation, no other chunk has any, and the gauges say how many each side has.
pub record Owned (first : ℕ) (a : DiskChunkAllocator) (owned : (ReservedChunks → ℕ) → ℕ)
    : Type 0 where
  pub runs : IsRuns first (first + a.chunk_capacity) a.free.chunk_count_by_start
  pub owners :
      (c : ℕ)
      → free_at a.free.chunk_count_by_start c + owned (holds c)
        ≡ in_range first (first + a.chunk_capacity) c
  pub free_gauge : a.free.metrics.free_chunks ≡ total a.free.chunk_count_by_start
  pub allocated_gauge : a.free.metrics.allocated_chunks ≡ owned chunk_count
  pub recovered_gauge : a.free.metrics.recovered_chunks ≡ owned recovered_count
  pub filled : owned is_empty ≡ 0
  pub whole : total a.free.chunk_count_by_start + owned chunk_count ≡ a.chunk_capacity

pub Apart-of_taken :
    (lo hi : ℕ) (m : BTreeMap ℕ) (r : Range)
    → IsRuns lo hi m
    → r.start < r.end
    → ((c : ℕ) → r.start ≤ c → c < r.end → free_at m c ≡ 0)
    → Apart m r
unfolding free_at
Apart-of_taken lo hi [] r w k h = tt
Apart-of_taken lo hi ((s, n) ∷ m) r w k h =
    (apart, Apart-of_taken (suc (s + n)) hi m r w.3 k (λ c p q. ground (arith, h c p q)))
  where
    apart : (r.end ≤ s) ⊎ (s + n ≤ r.start)
    apart = elim (dec_lt s r.end) [
      | no p ↦ inl (omega arith)
      | yes p ↦ elim (dec_lt r.start (s + n)) [
        | no q ↦ inr (omega arith)
        | yes q ↦ absurd (ground (arith, h (max s r.start) (omega arith) (omega arith)))
      ]
    ]

module _ (first : ℕ) (a : DiskChunkAllocator) (owned rest : (ReservedChunks → ℕ) → ℕ) where
  private_range :
      (r : ReservedChunks)
      → Owned first a owned
      → ((f : ReservedChunks → ℕ) → owned f ≡ f r + rest f)
      → (r.chunk_numbers.start < r.chunk_numbers.end)
        × (first ≤ r.chunk_numbers.start)
        × (r.chunk_numbers.end ≤ first + a.chunk_capacity)
        × Apart a.free.chunk_count_by_start r.chunk_numbers
  private_range r o e =
      let k : r.chunk_numbers.start < r.chunk_numbers.end = ground (arith, o.filled, e is_empty) in
      (
        k,
        ground (arith, o.owners r.chunk_numbers.start, e (holds r.chunk_numbers.start)),
        ground (arith, o.owners (r.chunk_numbers.end - 1), e (holds (r.chunk_numbers.end - 1))),
        Apart-of_taken first (first + a.chunk_capacity) a.free.chunk_count_by_start r.chunk_numbers
            o.runs k (λ c p q. ground (arith, o.owners c, e (holds c))),
      )

  -- Dropping a reservation makes its chunks free, and changes no other owner.
  pub drop_reserved-Owned :
      (r : ReservedChunks)
      → Owned first a owned
      → ((f : ReservedChunks → ℕ) → owned f ≡ f r + rest f)
      → Owned first (drop_reserved a r) rest
  unfolding drop_reserved release_chunks chunk_count
  drop_reserved-Owned r o e =
      let (k, l, h, p) = private_range r o e in
      let v =
        release_runs-Released first (first + a.chunk_capacity) a.free.chunk_count_by_start
          r.chunk_numbers o.runs p l k h in
      record {
        runs = v.runs;
        owners = λ c. omega (arith, v.chunks c, o.owners c, e (holds c));
        free_gauge = ground (arith, v.counted, o.free_gauge);
        allocated_gauge = ground (arith, o.allocated_gauge, e chunk_count);
        recovered_gauge = ground (arith, o.recovered_gauge, e recovered_count);
        filled = ground (arith, o.filled, e is_empty);
        whole = ground (arith, o.whole, v.counted, e chunk_count);
      }
