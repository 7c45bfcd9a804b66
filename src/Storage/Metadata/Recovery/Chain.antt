-- ===== src/Storage/Metadata/Recovery/Chain.antt =====
-- The chain of metadata chunks that load_metadata_chain of feuer-storage/src/disk_cache/recovery.rs
-- loads.
use mathlib.Core.Path.{subst}
use feuer.Base.{
  ℕ, zero, suc, ◌+◌, ◌/◌, ◌%◌, ◌<◌, ◌≡◌, inl, inr, refl, ap, sym, ◌∙◌, List, [], ◌∷◌, Option, none,
  some, Bool, true, false, not, ◌||◌, ltb, ◌==◌, if◌then◌else◌, arith, Bool-cases,
}
use feuer.Storage.Allocation.{Range, ReservedChunks, chunk_bytes}
use feuer.Storage.Allocation.Allocator.{
  DiskChunkAllocator, reserve_chunks_at, reserve_chunk_numbers, drop_reserved, mark_recovered,
}
use feuer.Storage.Allocation.Runs.{IsRuns, total}
use feuer.Storage.Allocation.Reserve.{reserve_runs-Decided}
use feuer.Storage.Metadata.{MetadataChunk, MetadataChunks, no_chunk}
use feuer.Storage.Metadata.Pages.{decode_chunk}
use feuer.Storage.Metadata.Recovery.{
  all_zero, Round, chain_ends, chunk_loaded, link_or_none, loaded_chunk, Loaded, behind_chunk,
  load_bytes, load_reserved, load_round, load_rounds, loaded_pages, load_metadata_chain,
}
use feuer.Storage.Metadata.Recovery.Lengths.{length-decode_chunk}
use feuer.Storage.Metadata.Recovery.Linking.{
  IsLoaded, IsChain, IsOpenChain, cons-IsOpenChain, loaded-IsChain,
}

abbrev free_runs : DiskChunkAllocator → List (ℕ × ℕ)
free_runs a = a.free.chunk_count_by_start

granted :
    {A : Type 0} {B : Type 0} {a c : A} {b d : B}
    → ◌≡◌ {A = Option (A × B)} (some (a, b)) (some (c, d))
    → (a ≡ c) × (b ≡ d)
granted e = (ground (arith, e), ground (arith, e))

module _ (lo hi : ℕ) where
  reserved_numbers :
      (a b : DiskChunkAllocator) (range : Range) (r : ReservedChunks)
      → IsRuns lo hi (free_runs a)
      → range.start < range.end
      → reserve_chunk_numbers a range ≡ some (r, b)
      → (range ≡ r.chunk_numbers)
        × IsRuns lo hi (free_runs b)
        × (total (free_runs b) + range.end ≡ total (free_runs a) + range.start)
  unfolding reserve_chunk_numbers
  reserved_numbers a b range r w k e = elim (reserve_runs-Decided lo hi (free_runs a) range w k) [
    | inr x ↦ absurd (ground (arith, rw (x.0, reserve_chunk_numbers) at e))
    | inl (m, q, v) ↦
        let both = granted (rw (q, reserve_chunk_numbers) at e) in
        let runs : m ≡ free_runs b = ap free_runs both.1 in
        (
          ap (λ (x : ReservedChunks). x.chunk_numbers) both.0,
          subst (λ (x : List (ℕ × ℕ)). IsRuns lo hi x) runs v.runs,
          sym (ap (λ (x : List (ℕ × ℕ)). total x + range.end) runs) ∙ v.counted,
        )
  ]

  reserved_one :
      (a b : DiskChunkAllocator) (s : ℕ) (r : ReservedChunks)
      → IsRuns lo hi (free_runs a)
      → reserve_chunks_at a s 1 ≡ some (r, b)
      → (record { start = s; end = s + 1 } ≡ r.chunk_numbers)
        × IsRuns lo hi (free_runs b)
        × (total (free_runs b) < total (free_runs a))
  unfolding reserve_chunks_at
  reserved_one a b s r w e = elim (Bool-cases (ltb (s + 1) 18446744073709551616)) [
    | inr q ↦ absurd (ground (arith, rw (q, reserve_chunks_at) at e))
    | inl q ↦
        let (numbers, runs, count) =
          reserved_numbers a b (record { start = s; end = s + 1 }) r w (omega arith)
            (rw (q, reserve_chunks_at) at e) in
        (numbers, runs, omega (arith, count))
  ]

  -- What a round keeps: the chunk it loads, and one free chunk less.
  abbrev IsRound : DiskChunkAllocator → ℕ → Round → Type 0
  IsRound a address (chain_ends rest) = Unit
  IsRound a address (chunk_loaded rest chunk next) =
      IsLoaded address chunk
      × (chunk.next_chunk_address ≡ link_or_none next)
      × IsRuns lo hi (free_runs rest)
      × (total (free_runs rest) < total (free_runs a))

  module _ (hash : List ℕ → ℕ) (read : ℕ → Option (List ℕ)) where
    load_bytes-IsRound :
        (a b : DiskChunkAllocator) (address : ℕ) (r : ReservedChunks) (o : Option (List ℕ))
        → IsRuns lo hi (free_runs a)
        → address % chunk_bytes ≡ 0
        → reserve_chunks_at a (address / chunk_bytes) 1 ≡ some (r, b)
        → IsRound a address (load_bytes hash read b r o)
    unfolding mark_recovered
    load_bytes-IsRound a b address r none w h e = tt
    load_bytes-IsRound a b address r (some bytes) w h e =
        let (numbers, runs, count) = reserved_one a b (address / chunk_bytes) r w e in
        elim (all_zero bytes)
          as (λ (z : Bool). IsRound a address (
            if z
            then chain_ends (drop_reserved b r)
            else loaded_chunk b r (decode_chunk hash bytes))) [
              | true ↦ tt
              | false ↦ (
                record {
                  aligned = h;
                  placed = sym numbers;
                  complete = length-decode_chunk hash bytes;
                },
                refl,
                runs,
                count,
              )
            ]

    load_reserved-IsRound :
        (a : DiskChunkAllocator) (address : ℕ) (o : Option (ReservedChunks × DiskChunkAllocator))
        → IsRuns lo hi (free_runs a)
        → address % chunk_bytes ≡ 0
        → reserve_chunks_at a (address / chunk_bytes) 1 ≡ o
        → IsRound a address (load_reserved hash read a address o)
    load_reserved-IsRound a address none w h e = tt
    load_reserved-IsRound a address (some (r, b)) w h e =
        load_bytes-IsRound a b address r (read address) w h e

    load_round-IsRound :
        (a : DiskChunkAllocator) (address : ℕ)
        → IsRuns lo hi (free_runs a)
        → IsRound a address (load_round hash read a address)
    unfolding load_round
    load_round-IsRound a address w =
        let reserved = reserve_chunks_at a (address / chunk_bytes) 1 in
        elim (Bool-cases ((address == no_chunk) || not (address % chunk_bytes == 0))) [
          | inl q ↦
              subst
                (λ (z : Bool).
                  IsRound a address
                    (if z then chain_ends a else load_reserved hash read a address reserved))
                (sym q) tt
          | inr q ↦
              subst
                (λ (z : Bool).
                  IsRound a address
                    (if z then chain_ends a else load_reserved hash read a address reserved))
                (sym q) (load_reserved-IsRound a address reserved w (ground (arith, q)) refl)
        ]

    abbrev Opened : ℕ → Option Loaded → Type 0
    Opened address o =
        (l : Loaded) × (o ≡ some l) × IsOpenChain address l.loaded_chunks l.last_address

    behind-Opened :
        (address : ℕ) (chunk : MetadataChunk) (o : Option Loaded)
        → IsLoaded address chunk
        → Opened chunk.next_chunk_address o
        → Opened address (behind_chunk chunk o)
    behind-Opened address chunk o h (l, e, open_chain) = (
      record l { loaded_chunks = chunk ∷ l.loaded_chunks },
      ap (behind_chunk chunk) e,
      cons-IsOpenChain address l.last_address chunk l.loaded_chunks h open_chain,
    )

    -- The rest of the loop after a round.
    abbrev after_round : ℕ → ℕ → Round → Option Loaded
    after_round fuel address round = elim round [
      | chain_ends rest ↦
          some (record { loaded_chunks = []; allocator = rest; last_address = address })
      | chunk_loaded rest chunk next ↦ elim next [
        | none ↦
            some (record { loaded_chunks = chunk ∷ []; allocator = rest; last_address = address })
        | some link ↦ behind_chunk chunk (load_rounds hash read fuel rest link)
      ]
    ]

    after_round-Opened :
        (fuel : ℕ) (a : DiskChunkAllocator) (address : ℕ) (round : Round)
        → ((b : DiskChunkAllocator) (link : ℕ)
            → IsRuns lo hi (free_runs b)
            → total (free_runs b) < total (free_runs a)
            → Opened link (load_rounds hash read fuel b link))
        → IsRound a address round
        → Opened address (after_round fuel address round)
    after_round-Opened fuel a address (chain_ends rest) rounds r =
        (record { loaded_chunks = []; allocator = rest; last_address = address }, refl, refl)
    after_round-Opened fuel a address (chunk_loaded rest chunk none) rounds r = (
      record { loaded_chunks = chunk ∷ []; allocator = rest; last_address = address },
      refl,
      (r.0, inl refl),
    )
    after_round-Opened fuel a address (chunk_loaded rest chunk (some link)) rounds
          (loaded, next, v, k) =
        behind-Opened address chunk (load_rounds hash read fuel rest link) loaded (
          subst (λ (n : ℕ). Opened n (load_rounds hash read fuel rest link)) (sym next)
            (rounds rest link v k))

    -- The loop ends, as each round but the last takes a free chunk.
    load_rounds-Opened :
        (fuel : ℕ) (a : DiskChunkAllocator) (address : ℕ)
        → IsRuns lo hi (free_runs a)
        → total (free_runs a) < fuel
        → Opened address (load_rounds hash read fuel a address)
    unfolding load_rounds
    load_rounds-Opened zero a address w h = absurd (omega (arith, h))
    load_rounds-Opened (suc fuel) a address w h =
        after_round-Opened fuel a address (load_round hash read a address)
          (λ b link v k. load_rounds-Opened fuel b link v (omega (arith, h, k)))
          (load_round-IsRound a address w)

-- Let the runs of free chunks be sound, and let the fuel exceed the count of free chunks. Then the walk
-- over the chain ends, whatever is read. The chunks that it loads have all their slots; the first lies
-- at the address that the walk starts from, each lies where the link before it points to, with the
-- reservation of this chunk, and the last has no link.
pub load_metadata_chain-IsChain :
    (lo hi : ℕ) (hash : List ℕ → ℕ) (read : ℕ → Option (List ℕ)) (fuel : ℕ)
    (allocator : DiskChunkAllocator) (address : ℕ)
    → IsRuns lo hi allocator.free.chunk_count_by_start
    → total allocator.free.chunk_count_by_start < fuel
    → (pages : MetadataChunks) × (rest : DiskChunkAllocator) × (load_metadata_chain hash read fuel
          allocator address
        ≡ some (pages, rest))
      × IsChain address pages.chunks
unfolding load_metadata_chain
load_metadata_chain-IsChain lo hi hash read fuel allocator address w h =
    let (l, e, o) = load_rounds-Opened lo hi hash read fuel allocator address w h in
    (loaded_pages l, l.allocator, rw (e, load_metadata_chain) refl, loaded-IsChain address l o)
