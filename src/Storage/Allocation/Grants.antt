-- ===== src/Storage/Allocation/Grants.antt =====
-- Reservations as grants: who owns the chunks after `reserve_chunk_numbers`, `reserve_chunks_at`,
-- and `mark_recovered`.
use feuer.Base.{
  ℕ, zero, suc, ◌+◌, ◌-◌, ◌≤◌, ◌<◌, ◌≡◌, ◌⊎◌, inl, inr, Option, none, some, false, arith, refl,
  dec_lt,
}
use feuer.Storage.Allocation.{Range, ReservedChunks, u64_mod}
use feuer.Storage.Allocation.Runs.{free_at, free_at-le-one}
use feuer.Storage.Allocation.Reserve.{reserve_runs-Decided, reserve_runs-empty}
use feuer.Storage.Allocation.Ownership.{Owned, holds, is_empty, recovered_count}
use feuer.Storage.Allocation.Allocator.{
  DiskChunkAllocator, chunk_count, reserve_chunk_numbers, reserve_chunks_at, mark_recovered,
  with_reserved, checked_add,
}

-- The reservation that a successful call hands out.
abbrev pub fresh : Range → ReservedChunks
fresh r = record { chunk_numbers = r; recovered = false }

-- Every chunk of the range is in the free map.
abbrev pub AllFree : DiskChunkAllocator → Range → Type 0
AllFree a r = (c : ℕ) → r.start ≤ c → c < r.end → free_at a.free.chunk_count_by_start c ≡ 1

-- The range was free and not empty, the caller now owns it, and no other owner changed.
pub record Granted (first : ℕ) (a : DiskChunkAllocator) (owned : (ReservedChunks → ℕ) → ℕ)
    (r : Range) (b : DiskChunkAllocator) : Type 0 where
  pub filled : r.start < r.end
  pub was_free : AllFree a r
  pub owners : Owned first b (λ f. f (fresh r) + owned f)
  pub payloads : b.payload_chunks ≡ a.payload_chunks
  pub capacity : b.chunk_capacity ≡ a.chunk_capacity

abbrev pub Answer :
    ℕ
    → DiskChunkAllocator
    → ((ReservedChunks → ℕ) → ℕ)
    → Range
    → Option (ReservedChunks × DiskChunkAllocator)
    → Type 0
Answer first a owned r o =
    ((b : DiskChunkAllocator) × (o ≡ some (fresh r, b)) × Granted first a owned r b)
    ⊎ ((o ≡ none) × (r.start < r.end → ¬ AllFree a r))

refused :
    (a : DiskChunkAllocator) (s n : ℕ)
    → (s < s + n → ¬ AllFree a (record { start = s; end = s + n }))
    → (n ≡ 0) ⊎ (u64_mod ≤ s + n) ⊎ (¬ AllFree a (record { start = s; end = s + n }))
refused a s zero h = inl refl
refused a s (suc n) h = inr (inr (h (omega arith)))

module _ (first : ℕ) (a : DiskChunkAllocator) (owned : (ReservedChunks → ℕ) → ℕ)
    (o : Owned first a owned) where
  pub reserve_chunk_numbers-Answer :
      (r : Range) → Answer first a owned r (reserve_chunk_numbers a r)
  unfolding reserve_chunk_numbers
  reserve_chunk_numbers-Answer r = elim (dec_lt r.start r.end) [
    | no empty ↦ inr (
      ground (arith, reserve_runs-empty a.free.chunk_count_by_start r (omega arith)),
      λ k. absurd (empty k),
    )
    | yes k ↦
        elim (reserve_runs-Decided first (first + a.chunk_capacity) a.free.chunk_count_by_start r
          o.runs k) [
            | inr (e, c, p, q, taken) ↦
                inr (rw (e, reserve_chunk_numbers), λ k all. ground (arith, all c p q))
            | inl (m', e, v) ↦ inl (
              with_reserved a m' (r.end - r.start),
              rw (e, reserve_chunk_numbers),
              record {
                filled = k;
                was_free = λ c p q. ground (
                  arith,
                  v.chunks c,
                  free_at-le-one first (first + a.chunk_capacity) c a.free.chunk_count_by_start
                      o.runs,
                );
                owners = record {
                  runs = v.runs;
                  owners = λ c. omega (arith, v.chunks c, o.owners c);
                  free_gauge = ground (arith, v.counted, o.free_gauge);
                  allocated_gauge = unfold chunk_count in ground (arith, o.allocated_gauge);
                  recovered_gauge = ground (arith, o.recovered_gauge);
                  filled = ground (arith, o.filled);
                  whole = unfold chunk_count in ground (arith, o.whole, v.counted);
                };
                payloads = refl;
                capacity = refl;
              },
            )
          ]
  ]

  -- On a sound allocator, `reserve_chunks_at` grants exactly the chunks that are asked for. It
  -- refuses only no chunks, a range that leaves the 64 bits, and a range with a chunk that is not
  -- free.
  pub reserve_chunks_at-Answer :
      (s n : ℕ)
      → ((b : DiskChunkAllocator) × (reserve_chunks_at a s n
            ≡ some (fresh (record { start = s; end = s + n }), b))
          × Granted first a owned (record { start = s; end = s + n }) b)
        ⊎ ((reserve_chunks_at a s n ≡ none)
            × ((n ≡ 0) ⊎ (u64_mod ≤ s + n) ⊎ (¬ AllFree a (record { start = s; end = s + n }))))
  unfolding reserve_chunks_at
  reserve_chunks_at-Answer s n = elim (dec_lt (s + n) u64_mod) [
    | no over ↦ inr (ground arith, inr (inl (omega arith)))
    | yes fits ↦
        let e : checked_add s n ≡ some (s + n) = ground arith in
        elim (reserve_chunk_numbers-Answer (record { start = s; end = s + n })) [
          | inl (b, g, v) ↦ inl (b, rw (e, reserve_chunks_at) g, v)
          | inr (g, h) ↦ inr (rw (e, reserve_chunks_at) g, refused a s n h)
        ]
  ]

module _ (first : ℕ) (a : DiskChunkAllocator) (owned rest : (ReservedChunks → ℕ) → ℕ)
    (r : ReservedChunks) where
  -- `mark_recovered` moves only the gauge, by the size of the reservation.
  pub mark_recovered-Owned :
      Owned first a owned
      → r.recovered ≡ false
      → ((f : ReservedChunks → ℕ) → owned f ≡ f r + rest f)
      → Owned first (mark_recovered a r).1 (λ f. f (mark_recovered a r).0 + rest f)
  unfolding mark_recovered chunk_count
  mark_recovered-Owned o n e = record {
    runs = o.runs;
    owners = λ c. omega (arith, o.owners c, e (holds c));
    free_gauge = o.free_gauge;
    allocated_gauge = ground (arith, o.allocated_gauge, e chunk_count);
    recovered_gauge = ground (arith, o.recovered_gauge, e recovered_count);
    filled = ground (arith, o.filled, e is_empty);
    whole = ground (arith, o.whole, e chunk_count);
  }
