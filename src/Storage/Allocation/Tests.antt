-- ===== src/Storage/Allocation/Tests.antt =====
-- Runs of the allocator, on the shard of the recovery test in feuer-storage/src/allocation.rs, and
-- each theorem at an input.
use feuer.Base.{
  ◌<◌, ℕ, ◌+◌, ◌*◌, ◌≤◌, ◌≡◌, refl, ◌⊎◌, ◌↔◌, inl, inr, List, [], ◌∷◌, some, none, true, arith,
}
use feuer.Base.BTreeMap
use feuer.Base.HashMap
use feuer.Storage.Allocation.{
  Range, ReservedChunks, chunk_bytes, release_runs, reserve_runs, u64_mod, unwrap_or,
}
use feuer.Storage.Allocation.Allocator.{
  DiskChunkAllocator, ok, panic, with_metrics, chunk_count, disk_byte_range, release_chunks,
  reserve_chunk_numbers, reserve_chunks_at, find_run, reserve_chunks, mark_recovered, drop_reserved,
  hold_chunks_until_payloads_released, hold_chunks_for_recovered_payload, release_payload,
  drop_free,
}
use feuer.Storage.Allocation.Release.{Released, release_runs-Released}
use feuer.Storage.Allocation.Grants.{fresh, AllFree, Granted, reserve_chunks_at-Answer}
use feuer.Storage.Allocation.FirstFit.{Window, reserve_chunks-first_fit}
use feuer.Storage.Allocation.Holds.{owned_by, tally}
use feuer.Storage.Allocation.Recovered.{payload_chunks_of, hold_recovered-accepts}
use feuer.Storage.Allocation.Canonical.{release-reserve}
use feuer.Storage.Allocation.Counts.{releases, releases-hold, releases-bounded}
use feuer.Storage.Allocation.History.{
  System, Call, start, run, step, IsSound, run-start-IsSound, drop_free-zero,
}

program : Unit {0}
unfolding BTreeMap.get BTreeMap.remove BTreeMap.insert BTreeMap.update BTreeMap.last_below
    BTreeMap.last_at_most HashMap.get HashMap.remove HashMap.insert release_runs reserve_runs
    unwrap_or with_metrics chunk_count disk_byte_range release_chunks reserve_chunk_numbers
    reserve_chunks_at find_run reserve_chunks mark_recovered drop_reserved
    hold_chunks_until_payloads_released hold_chunks_for_recovered_payload release_payload releases
    step run
program = tt

abbrev shard : Range
shard = record { start = chunk_bytes; end = 5 * chunk_bytes }

abbrev bytes : ℕ → ℕ → Range
bytes s e = record { start = s; end = e }

-- The chain's first chunk, then one rejected payload and two that share chunks 2 and 3.
abbrev calls : List Call
calls =
    Call.reserve_at 1 1
    ∷ Call.recover (bytes 0 4096)
    ∷ Call.recover (bytes (2 * chunk_bytes) (4 * chunk_bytes))
    ∷ Call.recover (bytes (2 * chunk_bytes + 4096) (2 * chunk_bytes + 8192))
    ∷ Call.reserve 1
    ∷ Call.drop 0
    ∷ Call.release (2 * chunk_bytes)
    ∷ []

abbrev recovered_hold : ReservedChunks
recovered_hold = record { chunk_numbers = record { start = 2; end = 4 }; recovered = true }

abbrev end_state : System
end_state = record {
  allocator = record {
    free = record {
      chunk_count_by_start = (4, 1) ∷ [];
      metrics = record { free_chunks = 1; allocated_chunks = 3; recovered_chunks = 2 };
    };
    chunk_capacity = 4;
    payload_chunks = (2, (recovered_hold, 1)) ∷ [];
  };
  out = fresh (record { start = 1; end = 2 }) ∷ [];
}

recovery_run : run (start shard) calls ≡ ok end_state
unfolding program
recovery_run = refl

run-start-IsSound_example : IsSound 1 end_state × (end_state.allocator.chunk_capacity ≡ 4)
run-start-IsSound_example = run-start-IsSound shard calls (omega arith) recovery_run

reserve_chunks-first_fit_example :
    ((s : ℕ) × (b : DiskChunkAllocator) × (reserve_chunks end_state.allocator 1
        ≡ some (fresh (record { start = s; end = s + 1 }), b))
      × Granted 1 end_state.allocator
          (owned_by end_state.allocator (λ f. tally f end_state.out))
          (record { start = s; end = s + 1 })
          b
      × ((t : ℕ) → (s ≤ t) ⊎ (¬ Window ((4, 1) ∷ []) t 1)))
    ⊎ ((reserve_chunks end_state.allocator 1 ≡ none)
        × ((◌≡◌ {A = ℕ} 1 0) ⊎ ((t : ℕ) → ¬ Window ((4, 1) ∷ []) t 1)))
reserve_chunks-first_fit_example =
    reserve_chunks-first_fit 1 end_state.allocator
      (owned_by end_state.allocator (λ f. tally f end_state.out)) 1
      (run-start-IsSound shard calls (omega arith) recovery_run).0

reserve_chunks_at-Answer_example :
    ((b : DiskChunkAllocator) × (reserve_chunks_at end_state.allocator 4 1
        ≡ some (fresh (record { start = 4; end = 5 }), b))
      × Granted 1 end_state.allocator
          (owned_by end_state.allocator (λ f. tally f end_state.out))
          (record { start = 4; end = 5 })
          b)
    ⊎ ((reserve_chunks_at end_state.allocator 4 1 ≡ none)
        × ((◌≡◌ {A = ℕ} 1 0)
            ⊎ (u64_mod ≤ 5)
            ⊎ (¬ AllFree end_state.allocator (record { start = 4; end = 5 }))))
reserve_chunks_at-Answer_example =
    reserve_chunks_at-Answer 1 end_state.allocator
      (owned_by end_state.allocator (λ f. tally f end_state.out))
      (run-start-IsSound shard calls (omega arith) recovery_run).0 4 1

hold_recovered-accepts_example :
    ((b : DiskChunkAllocator) × (hold_chunks_for_recovered_payload end_state.allocator
          (bytes (4 * chunk_bytes) (5 * chunk_bytes))
        ≡ some b))
    ↔ (((r : ReservedChunks) × (n : ℕ) × (HashMap.get 4 end_state.allocator.payload_chunks
            ≡ some (r, n))
          × (5 * chunk_bytes ≤ (disk_byte_range r).end))
        ⊎ ((HashMap.get 4 end_state.allocator.payload_chunks ≡ none)
            × AllFree end_state.allocator
                (payload_chunks_of (bytes (4 * chunk_bytes) (5 * chunk_bytes)))))
hold_recovered-accepts_example =
    hold_recovered-accepts 1 end_state.allocator (λ f. tally f end_state.out)
      (run-start-IsSound shard calls (omega arith) recovery_run).0
      (bytes (4 * chunk_bytes) (5 * chunk_bytes)) (omega arith) (omega arith)

abbrev granted : ReservedChunks
granted = fresh (record { start = 1; end = 2 })

releases-hold_example :
    releases
      (hold_chunks_until_payloads_released end_state.allocator granted 2)
      (chunk_bytes ∷ (chunk_bytes + 4096) ∷ [])
    ≡ ok (drop_reserved end_state.allocator granted)
unfolding program
releases-hold_example =
    releases-hold end_state.allocator granted refl 2 (chunk_bytes ∷ (chunk_bytes + 4096) ∷ [])
      (omega arith) (omega arith) (omega arith) refl

-- Three releases of two payloads.
releases-bounded_example :
    let left =
      releases
        (hold_chunks_until_payloads_released end_state.allocator granted 2)
        (chunk_bytes ∷ (chunk_bytes + 4096) ∷ chunk_bytes ∷ []) in
    (◌<◌ 3 2 → (b : DiskChunkAllocator) × (left ≡ ok b) × (b.free ≡ end_state.allocator.free))
    × (◌<◌ 2 3 → left ≡ panic)
unfolding program
releases-bounded_example =
    releases-bounded end_state.allocator granted refl 2
      (chunk_bytes ∷ (chunk_bytes + 4096) ∷ chunk_bytes ∷ []) (omega arith)
      (refl, (refl, (refl, tt))) (omega arith)

release-reserve_example :
    release_runs ((1, 1) ∷ (3, 2) ∷ []) (record { start = 2; end = 3 }) ≡ (1, 4) ∷ []
unfolding program
release-reserve_example =
    release-reserve 1 5 ((1, 4) ∷ []) ((1, 1) ∷ (3, 2) ∷ []) (record { start = 2; end = 3 })
      (omega arith) refl

release_runs-Released_example :
    Released 1 5
      (record { start = 2; end = 3 })
      ((1, 1) ∷ (3, 2) ∷ [])
      (release_runs ((1, 1) ∷ (3, 2) ∷ []) (record { start = 2; end = 3 }))
release_runs-Released_example =
    release_runs-Released 1 5 ((1, 1) ∷ (3, 2) ∷ []) (record { start = 2; end = 3 }) (omega arith)
      (inr (omega arith), (inl (omega arith), tt)) (omega arith) (omega arith) (omega arith)

abbrev round : List Call
round =
    Call.reserve 3 ∷ Call.hold 0 1 ∷ Call.reserve 1 ∷ Call.drop 0 ∷ Call.release chunk_bytes ∷ []

abbrev idle : System
idle = record {
  allocator = record {
    free = record {
      chunk_count_by_start = (1, 4) ∷ [];
      metrics = record { free_chunks = 4; allocated_chunks = 0; recovered_chunks = 0 };
    };
    chunk_capacity = 4;
    payload_chunks = [];
  };
  out = [];
}

round_trip : run (start shard) round ≡ ok idle
unfolding program
round_trip = refl

drop_free-zero_example :
    drop_free idle.allocator.free
    ≡ record { free_chunks = 0; allocated_chunks = 0; recovered_chunks = 0 }
drop_free-zero_example = drop_free-zero shard round (omega arith) round_trip refl refl
