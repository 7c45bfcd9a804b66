-- ===== src/Memory/Tests.antt =====
-- Runs of the memory tier's parts, and each theorem at an input.
use feuer.Base.{
  ℕ, ◌+◌, ◌*◌, ◌<◌, ◌≡◌, refl, List, [], ◌∷◌, some, true, false, arith, length, get_elem?, sum,
  replicate,
}
use feuer.Memory.Retention.{sample_candidates, start_after}
use feuer.Memory.Retention.Rotation.{sample_candidates-rotates, sample_candidates-reaches_all}
use feuer.Memory.Buffer.{
  AlignedBuffer, bucket_count, bucket_from, bucket_index, size_at, allocation_capacity, new_pool,
  pool_used_bytes, take_idle_buffer, drain, drain_buckets, add_used_bytes, remove_used_bytes,
  layout, resize_for_reuse, allocate_zeroed, reuse, allocate, drop_buffer, drop_buckets, drop_pool,
}
use feuer.Memory.Buffer.Budget.{IsFitted, Balanced}
use feuer.Memory.Buffer.Charge.{Charged, add_used_bytes-Charged}
use feuer.Memory.Buffer.Allocate.{Answer, allocate-Answer}
use feuer.Memory.Buffer.Return.{Returned, drop_buffer-Returned}
use feuer.Memory.Buffer.Lifetime.{Memory, Call, IsSound, step, perform, start}
use feuer.Memory.Buffer.History.{perform-start-IsSound, drop_pool-clears}

program : Unit {0}
unfolding bucket_from bucket_index size_at allocation_capacity new_pool pool_used_bytes
    take_idle_buffer drain drain_buckets add_used_bytes remove_used_bytes resize_for_reuse layout
    allocate_zeroed reuse allocate drop_buffer drop_buckets drop_pool step perform sample_candidates
    start_after
program = tt

abbrev candidates : List ℕ
candidates = 10 ∷ 11 ∷ 12 ∷ 13 ∷ 14 ∷ []

sample-test : sample_candidates 8 candidates 3 ≡ (1, 13 ∷ 14 ∷ 10 ∷ [])
unfolding program
sample-test = refl

sample_candidates-rotates_example :
    (get_elem? (sample_candidates 8 candidates 3).1 2 ≡ some 10)
    × (length (sample_candidates 8 candidates 3).1 ≡ 3)
    × ((sample_candidates 8 candidates 3).0 ≡ 1)
sample_candidates-rotates_example =
    sample_candidates-rotates 8 candidates 3 2 (omega arith) (omega arith)

sample_candidates-reaches_all_example :
    (r : ℕ) × (i : ℕ) × (r < 2)
    × (i < 3)
    × (get_elem? (sample_candidates (start_after r 8 candidates 3) candidates 3).1 i ≡ some 12)
sample_candidates-reaches_all_example =
    sample_candidates-reaches_all 2 8 candidates 3 2 (omega arith) (omega arith)

abbrev mib : ℕ
mib = 1024 * 1024

-- Two buffers go out and come back, a charge frees the larger one, and one is reused.
abbrev calls : List Call
calls =
    Call.allocate_bytes true 5000
    ∷ Call.allocate_bytes true (100 * mib)
    ∷ Call.drop 0
    ∷ Call.drop 0
    ∷ Call.add (150 * mib)
    ∷ Call.allocate_bytes true 6000
    ∷ []

abbrev before_reuse : Memory
before_reuse = perform (start (200 * mib)) (
    Call.allocate_bytes true 5000
    ∷ Call.allocate_bytes true (100 * mib)
    ∷ Call.drop 0
    ∷ Call.drop 0
    ∷ [])

perform-test :
    (before_reuse.pool.idle_bytes ≡ 100 * mib + 32 * 1024)
    × ((perform (start (200 * mib)) calls).pool.idle_bytes ≡ 0)
    × (pool_used_bytes (perform (start (200 * mib)) calls).pool ≡ 150 * mib)
    × ((perform (start (200 * mib)) calls).out
        ≡ record { large = false; capacity = 32 * 1024; length = 6000; pooled = true } ∷ [])
unfolding program
perform-test = (refl, refl, refl, refl)

perform-start-IsSound_example : IsSound (perform (start (200 * mib)) calls)
perform-start-IsSound_example = perform-start-IsSound (200 * mib) calls

abbrev books : Balanced before_reuse.pool
books =
    (perform-start-IsSound (200 * mib) (
      Call.allocate_bytes true 5000
      ∷ Call.allocate_bytes true (100 * mib)
      ∷ Call.drop 0
      ∷ Call.drop 0
      ∷ [])).balanced

allocate-Answer_example :
    Answer (95 * mib) true before_reuse.pool (allocate true before_reuse.pool (95 * mib))
allocate-Answer_example = allocate-Answer true before_reuse.pool (95 * mib) books

add_used_bytes-Charged_example :
    Charged before_reuse.pool (150 * mib) (add_used_bytes before_reuse.pool (150 * mib))
add_used_bytes-Charged_example = add_used_bytes-Charged before_reuse.pool (150 * mib) books

abbrev buffer : AlignedBuffer
buffer = record { large = false; capacity = 4096; length = 17; pooled = true }

buffer-IsFitted : IsFitted buffer
unfolding program
buffer-IsFitted = (refl, refl)

drop_buffer-Returned_example :
    Returned before_reuse.pool buffer (drop_buffer before_reuse.pool buffer)
drop_buffer-Returned_example =
    drop_buffer-Returned before_reuse.pool buffer books buffer-IsFitted refl

drop_pool-clears_example : drop_pool (perform (start (200 * mib)) calls).pool ≡ record {
  capacity_bytes = 0;
  used_bytes = sum (perform (start (200 * mib)) calls).charges;
  idle_buffer_bytes = replicate bucket_count 0;
  used_buffer_bytes = (perform (start (200 * mib)) calls).pool.metrics.used_buffer_bytes;
}
drop_pool-clears_example = drop_pool-clears (200 * mib) calls
