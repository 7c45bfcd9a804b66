-- ===== src/Storage/Allocation/Counts.antt =====
-- The use count of a payload hold: feuer-storage/src/allocation.rs.
use feuer.Base.{ℕ, zero, suc, ◌/◌, ◌<◌, ◌≡◌, List, [], ◌∷◌, none, arith, refl, ap, ◌∙◌, length}
use feuer.Base.HashMap
use feuer.Storage.Allocation.{ReservedChunks, chunk_bytes, u64_mod}
use feuer.Storage.Allocation.Allocator.{
  DiskChunkAllocator, Outcome, ok, panic, drop_reserved, release_payload,
  hold_chunks_until_payloads_released,
}

-- The releases of several payloads, by their addresses.
unfoldable pub releases : DiskChunkAllocator → List ℕ → Outcome DiskChunkAllocator
releases a [] = ok a
releases a (address ∷ rest) = elim (release_payload a address) [
  | ok b ↦ releases b rest
  | panic ↦ panic
]

-- Every address lies in the chunk.
abbrev pub AllIn : ℕ → List ℕ → Type 0
AllIn k [] = Unit {0}
AllIn k (address ∷ rest) = (address / chunk_bytes ≡ k) × AllIn k rest

-- The allocator with `n` payloads in the reservation.
abbrev pub holding : DiskChunkAllocator → ReservedChunks → ℕ → DiskChunkAllocator
holding a r n = record a {
  payload_chunks = HashMap.insert r.chunk_numbers.start (r, n) a.payload_chunks;
}

module _ (a : DiskChunkAllocator) (r : ReservedChunks)
    (vacant : HashMap.get r.chunk_numbers.start a.payload_chunks ≡ none) where
  hold-holding : (n : ℕ) → hold_chunks_until_payloads_released a r n ≡ holding a r n
  unfolding hold_chunks_until_payloads_released
  hold-holding n = rw (vacant, hold_chunks_until_payloads_released)

  release-more :
      (n d : ℕ)
      → suc (suc n) < u64_mod
      → d / chunk_bytes ≡ r.chunk_numbers.start
      → release_payload (holding a r (suc (suc n))) d ≡ ok (holding a r (suc n))
  unfolding release_payload
  release-more n d h e = ground (
    arith,
    HashMap.get-insert_self r.chunk_numbers.start (r, suc (suc n)) a.payload_chunks,
    HashMap.insert-insert r.chunk_numbers.start (r, suc (suc n)) (r, suc n) a.payload_chunks,
  )

  release-last :
      (d : ℕ)
      → d / chunk_bytes ≡ r.chunk_numbers.start
      → release_payload (holding a r 1) d ≡ ok (drop_reserved a r)
  unfolding release_payload
  release-last d e = ground (
    arith,
    HashMap.get-insert_self r.chunk_numbers.start (r, 1) a.payload_chunks,
    HashMap.remove-insert r.chunk_numbers.start (r, 1) a.payload_chunks,
  )

  releases-holding :
      (n : ℕ) (ds : List ℕ)
      → n < u64_mod
      → AllIn r.chunk_numbers.start ds
      → ((length ds < n) → (i : ℕ) × (releases (holding a r n) ds ≡ ok (holding a r i)))
        × (0 < n → length ds ≡ n → releases (holding a r n) ds ≡ ok (drop_reserved a r))
  unfolding releases
  releases-holding n [] h all = (λ p. (n, refl), λ p q. absurd (omega arith))
  releases-holding zero (d ∷ ds) h all = (λ p. absurd (omega arith), λ p q. absurd (omega arith))
  releases-holding (suc zero) (d ∷ []) h all =
      (λ p. absurd (omega arith), λ p q. rw (release-last d all.0, releases))
  releases-holding (suc zero) (d ∷ e ∷ ds) h all =
      (λ p. absurd (omega arith), λ p q. absurd (omega arith))
  releases-holding (suc (suc n)) (d ∷ ds) h all =
      let ih = releases-holding (suc n) ds (omega arith) all.1 in
      (
        λ p. rw (release-more n d h all.0, releases) (ih.0 (omega arith)),
        λ p q. rw (release-more n d h all.0, releases) (ih.1 (omega arith) (omega arith)),
      )

  release-vacant :
      (b : DiskChunkAllocator) (d : ℕ)
      → b.payload_chunks ≡ a.payload_chunks
      → d / chunk_bytes ≡ r.chunk_numbers.start
      → release_payload b d ≡ panic
  unfolding release_payload
  release-vacant b d p e =
      let none_held : HashMap.get (d / chunk_bytes) b.payload_chunks ≡ none =
        ap (λ (k : ℕ). HashMap.get k b.payload_chunks) e
        ∙ ap (HashMap.get r.chunk_numbers.start) p
        ∙ vacant in
      rw (none_held, release_payload) refl

  dropped-payloads : (drop_reserved a r).payload_chunks ≡ a.payload_chunks
  unfolding drop_reserved
  dropped-payloads = refl

  releases-over :
      (n : ℕ) (ds : List ℕ)
      → n < u64_mod
      → AllIn r.chunk_numbers.start ds
      → 0 < n
      → n < length ds
      → releases (holding a r n) ds ≡ panic
  unfolding releases
  releases-over n [] h all p q = absurd (omega (arith, q))
  releases-over zero (d ∷ ds) h all p q = absurd (omega (arith, p))
  releases-over (suc zero) (d ∷ []) h all p q = absurd (omega (arith, q))
  releases-over (suc zero) (d ∷ e ∷ ds) h all p q =
      rw
        (
          release-last d all.0,
          releases,
          release-vacant (drop_reserved a r) e dropped-payloads all.1.0,
          releases,
        )
        refl
  releases-over (suc (suc n)) (d ∷ ds) h all p q =
      rw (release-more n d h all.0, releases)
        (releases-over (suc n) ds (omega (arith, h)) all.1 (omega arith) (omega (arith, q)))

  -- A hold of `n` payloads, `n` not zero, at a chunk where none was held: fewer than `n` releases go
  -- through and free no chunk, and more than `n` panic.
  pub releases-bounded :
      (n : ℕ) (ds : List ℕ)
      → n < u64_mod
      → AllIn r.chunk_numbers.start ds
      → 0 < n
      → ((length ds < n)
          → (b : DiskChunkAllocator) × (releases (hold_chunks_until_payloads_released a r n) ds
              ≡ ok b)
            × (b.free ≡ a.free))
        × ((n < length ds) → releases (hold_chunks_until_payloads_released a r n) ds ≡ panic)
  releases-bounded n ds h all p = (
    λ q.
        let (i, e) = (releases-holding n ds h all).0 q in
        (holding a r i, rw (hold-holding n) e, refl),
    λ q. rw (hold-holding n) (releases-over n ds h all p q),
  )

  -- The release of all `n` payloads of a hold, `n` not zero, at a chunk where none was held leaves
  -- the allocator as if the caller had dropped the reservation.
  pub releases-hold :
      (n : ℕ) (ds : List ℕ)
      → n < u64_mod
      → AllIn r.chunk_numbers.start ds
      → 0 < n
      → length ds ≡ n
      → releases (hold_chunks_until_payloads_released a r n) ds ≡ ok (drop_reserved a r)
  releases-hold n ds h all p q = rw (hold-holding n) ((releases-holding n ds h all).1 p q)
