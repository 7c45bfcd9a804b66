-- ===== src/Storage/Allocation/Recovered.antt =====
-- `hold_chunks_for_recovered_payload`: what recovery accepts, and who owns the chunks then.
use mathlib.Core.Path.{subst}
use feuer.Base.{
  ℕ, ◌+◌, ◌/◌, ◌≤◌, ◌<◌, ◌≡◌, ◌⊎◌, inl, inr, none, some, false, arith, ◌↔◌, refl, Option-cases,
  Bool-cases, leb,
}
use feuer.Base.HashMap
use feuer.Storage.Allocation.{Range, ReservedChunks, chunk_bytes, u64_mod}
use feuer.Storage.Allocation.Ownership.{Owned}
use feuer.Storage.Allocation.Grants.{fresh, AllFree, reserve_chunks_at-Answer, mark_recovered-Owned}
use feuer.Storage.Allocation.Holds.{
  Sound, owned_by, Owned-cong, recount-Sound, tally_held-insert_new,
}
use feuer.Storage.Allocation.Allocator.{
  DiskChunkAllocator, mark_recovered, hold_chunks_for_recovered_payload, div_ceil, wrapping_sub,
  disk_byte_range,
}

pub some_eq {ℓ} : {A : Type ℓ} {x y : A} → some x ≡ some y → x ≡ y
some_eq h = cc

-- The chunks that a payload's bytes reach into.
abbrev pub payload_chunks_of : Range → Range
payload_chunks_of p = record { start = p.start / chunk_bytes; end = div_ceil p.end chunk_bytes }

-- A new hold takes over the reservation that recovery was granted and marked.
recover_new :
    (first : ℕ) (a : DiskChunkAllocator) (callers : (ReservedChunks → ℕ) → ℕ) (k : ℕ)
    (x : ReservedChunks) (c : DiskChunkAllocator)
    → HashMap.get k a.payload_chunks ≡ none
    → Owned first c (λ f. f x + owned_by a callers f)
    → c.payload_chunks ≡ a.payload_chunks
    → x.recovered ≡ false
    → (let (marked, d) = mark_recovered c x in
        Sound first
          (record d { payload_chunks = HashMap.insert k (marked, 1) d.payload_chunks })
          callers)
unfolding mark_recovered
recover_new first a callers k x c e o same r =
    let marked = (mark_recovered c x).0 in
    Owned-cong first (mark_recovered c x).1 _ (λ f. f marked + owned_by a callers f) _ refl refl
      (λ f. rw same (omega (arith, tally_held-insert_new f k a.payload_chunks marked 1 e)))
      (mark_recovered-Owned first c (λ f. f x + owned_by a callers f) (owned_by a callers) x o r
        (λ f. refl))

module _ (first : ℕ) (a : DiskChunkAllocator) (callers : (ReservedChunks → ℕ) → ℕ)
    (o : Sound first a callers) (p : Range) where
  -- The allocator keeps one owner for each chunk whatever payload recovery asks for.
  pub hold_recovered-Sound :
      {b : DiskChunkAllocator}
      → hold_chunks_for_recovered_payload a p ≡ some b
      → Sound first b callers
  unfolding hold_chunks_for_recovered_payload
  hold_recovered-Sound {b} h =
      let k = p.start / chunk_bytes in
      let n = wrapping_sub (div_ceil p.end chunk_bytes) k in
      elim (Option-cases (HashMap.get k a.payload_chunks)) [
        | inr ((r, i), e) ↦ elim (Bool-cases (leb p.end (disk_byte_range r).end)) [
          | inl fits ↦
              subst (λ (x : DiskChunkAllocator). Sound first x callers)
                (some_eq (rw (e, fits, hold_chunks_for_recovered_payload) at h))
                (recount-Sound first a callers k r i (i + 1) e o)
          | inr over ↦ absurd (ground arith)
        ]
        | inl e ↦ elim (reserve_chunks_at-Answer first a (owned_by a callers) o k n) [
          | inr (g, _) ↦ absurd (ground arith)
          | inl (c, g, v) ↦
              subst (λ (x : DiskChunkAllocator). Sound first x callers)
                (some_eq (rw (e, g, hold_chunks_for_recovered_payload) at h))
                (recover_new first a callers k (fresh (record { start = k; end = k + n })) c e
                  v.owners v.payloads refl)
        ]
      ]

  -- On a sound allocator, recovery accepts a nonempty payload, not within a chunk of the 64-bit
  -- limit, exactly if it starts at the first chunk of a hold and ends within it, or if no hold
  -- starts at its first chunk and all chunks that it reaches into are free.
  pub hold_recovered-accepts :
      p.start < p.end
      → p.end + chunk_bytes < u64_mod
      → ((b : DiskChunkAllocator) × (hold_chunks_for_recovered_payload a p ≡ some b)) ↔ (
          ((r : ReservedChunks) × (n : ℕ) × (HashMap.get (p.start / chunk_bytes) a.payload_chunks
              ≡ some (r, n))
            × (p.end ≤ (disk_byte_range r).end))
          ⊎ ((HashMap.get (p.start / chunk_bytes) a.payload_chunks ≡ none)
              × AllFree a (payload_chunks_of p)))
  unfolding hold_chunks_for_recovered_payload
  hold_recovered-accepts k f =
      let s = p.start / chunk_bytes in
      let n = wrapping_sub (div_ceil p.end chunk_bytes) s in
      let whole : s + n ≡ div_ceil p.end chunk_bytes = ground arith in
      let x = fresh (record { start = s; end = s + n }) in
      let some_chunk : 0 < n = ground arith in
      elim (Option-cases (HashMap.get s a.payload_chunks)) [
        | inr ((r, i), e) ↦ (
          λ h. inl (r, i, e, ground (arith, h.1)),
          λ h. elim h [
            | inl (r', i', e', fits) ↦ (
              record a { payload_chunks = HashMap.insert s (r, i + 1) a.payload_chunks },
              ground arith,
            )
            | inr (e', _) ↦ absurd (ground arith)
          ],
        )
        | inl e ↦ elim (reserve_chunks_at-Answer first a (owned_by a callers) o s n) [
          | inl (c, g, v) ↦ (
            λ h. inr (e, rw whole at v.was_free),
            λ h. (
              record (mark_recovered c x).1 {
                payload_chunks =
                    HashMap.insert s ((mark_recovered c x).0, 1)
                      (mark_recovered c x).1.payload_chunks;
              },
              rw (e, g, hold_chunks_for_recovered_payload),
            ),
          )
          | inr (g, taken) ↦ (
            λ h. absurd (ground (arith, h.1)),
            λ h. elim h [
              | inl (r', i', e', fits) ↦ absurd (ground arith)
              | inr (e', all) ↦ (elim taken [
                | inl z ↦ absurd (omega arith)
                | inr (inl z) ↦ absurd (ground arith)
                | inr (inr z) ↦ absurd (z (rw whole all))
              ])
            ],
          )
        ]
      ]
