-- ===== src/Storage/Allocation/Holds.antt =====
-- Payload holds: what `release_payload` and the two ways to hold chunks do to the owners.
use feuer.Base.{
  ℕ, ◌+◌, ◌/◌, ◌-◌, ◌≡◌, inl, inr, List, [], ◌∷◌, none, some, arith, refl, Option-cases, Bool-cases,
  ◌==◌, ℕ_discrete,
}
use mathlib.Core.Path.{fun_ext, subst}
use feuer.Base.HashMap
use feuer.Base.HashMap.{HashMap}
use feuer.Storage.Allocation.{ReservedChunks, chunk_bytes}
use feuer.Storage.Allocation.Ownership.{Owned, drop_reserved-Owned}
use feuer.Storage.Allocation.Allocator.{
  DiskChunkAllocator, ok, drop_reserved, release_payload, hold_chunks_until_payloads_released,
}

abbrev pub Payloads : Type 0
Payloads = HashMap (ReservedChunks × ℕ)

-- The sum of `f` over the held reservations, and over a caller's.
unfoldable pub tally_held : (ReservedChunks → ℕ) → Payloads → ℕ
tally_held f [] = 0
tally_held f ((k, (r, n)) ∷ m) = f r + tally_held f m

unfoldable pub tally : (ReservedChunks → ℕ) → List ReservedChunks → ℕ
tally f [] = 0
tally f (r ∷ rs) = f r + tally f rs

module _ (f : ReservedChunks → ℕ) (k : ℕ) where
  pub tally_held-insert_new :
      (m : Payloads) (r : ReservedChunks) (n : ℕ)
      → HashMap.get k m ≡ none
      → tally_held f (HashMap.insert k (r, n) m) ≡ f r + tally_held f m
  unfolding tally_held HashMap.get HashMap.insert
  tally_held-insert_new [] r n e = refl
  tally_held-insert_new ((j, (s, i)) ∷ m) r n e = ground (arith, tally_held-insert_new m r n)

  tally_held-insert_old :
      (m : Payloads) (r : ReservedChunks) (n : ℕ) (s : ReservedChunks) (i : ℕ)
      → HashMap.get k m ≡ some (s, i)
      → tally_held f (HashMap.insert k (r, n) m) + f s ≡ f r + tally_held f m
  unfolding tally_held HashMap.get HashMap.insert
  tally_held-insert_old [] r n s i e = absurd (ground arith)
  tally_held-insert_old ((j, (t, l)) ∷ m) r n s i e = elim (ℕ_discrete j k) [
    | yes p ↦ ground arith
    | no p ↦ ground (arith, tally_held-insert_old m r n s i)
  ]

  tally_held-remove :
      (m : Payloads) (s : ReservedChunks) (i : ℕ)
      → HashMap.get k m ≡ some (s, i)
      → tally_held f m ≡ f s + tally_held f (HashMap.remove k m)
  unfolding tally_held HashMap.get HashMap.remove
  tally_held-remove [] s i e = absurd (ground arith)
  tally_held-remove ((j, (t, l)) ∷ m) s i e = elim (ℕ_discrete j k) [
    | yes p ↦ ground arith
    | no p ↦ ground (arith, tally_held-remove m s i)
  ]

pub ok_eq {ℓ} : {A : Type ℓ} {x y : A} → ok x ≡ ok y → x ≡ y
ok_eq h = cc

-- The sums over the held reservations and those of the callers.
abbrev pub owned_by : DiskChunkAllocator → ((ReservedChunks → ℕ) → ℕ) → (ReservedChunks → ℕ) → ℕ
owned_by a callers f = tally_held f a.payload_chunks + callers f

-- Every chunk has one owner, with `callers` for what the callers hold.
abbrev pub Sound : ℕ → DiskChunkAllocator → ((ReservedChunks → ℕ) → ℕ) → Type 0
Sound first a callers = Owned first a (owned_by a callers)

pub Owned-cong :
    (first : ℕ) (a b : DiskChunkAllocator) (owned owned' : (ReservedChunks → ℕ) → ℕ)
    → b.free ≡ a.free
    → b.chunk_capacity ≡ a.chunk_capacity
    → ((f : ReservedChunks → ℕ) → owned' f ≡ owned f)
    → Owned first a owned
    → Owned first b owned'
Owned-cong first a b owned owned' p q e o = rw (fun_ext e) (record {
  runs = rw (p, q) o.runs;
  owners = λ c. rw (p, q) (o.owners c);
  free_gauge = rw p o.free_gauge;
  allocated_gauge = rw p o.allocated_gauge;
  recovered_gauge = rw p o.recovered_gauge;
  filled = o.filled;
  whole = rw (p, q) o.whole;
})

module _ (first : ℕ) (a : DiskChunkAllocator) (callers : (ReservedChunks → ℕ) → ℕ) where
  -- Dropping a reservation that the allocator with other payload holds does not count.
  drop-Sound :
      (m : Payloads) (r : ReservedChunks) (rest : (ReservedChunks → ℕ) → ℕ)
      → Owned first a rest
      → ((f : ReservedChunks → ℕ) → rest f ≡ f r + (tally_held f m + callers f))
      → Sound first (drop_reserved (record a { payload_chunks = m }) r) callers
  unfolding drop_reserved
  drop-Sound m r rest o e =
      drop_reserved-Owned first (record a { payload_chunks = m }) rest
        (λ f. tally_held f m + callers f) r
        (Owned-cong first a (record a { payload_chunks = m }) rest rest refl refl (λ f. refl) o) e

  -- Handing a reservation over as a payload hold moves its chunks from the caller to the hold.
  pub hold-Sound :
      (r : ReservedChunks) (n : ℕ)
      → Sound first a (λ f. f r + callers f)
      → Sound first (hold_chunks_until_payloads_released a r n) callers
  unfolding hold_chunks_until_payloads_released
  hold-Sound r n o =
      let k = r.chunk_numbers.start in
      elim (Option-cases (HashMap.get k a.payload_chunks)) [
        | inl e ↦
            rw (e, hold_chunks_until_payloads_released)
              (Owned-cong first a _ (owned_by a (λ f. f r + callers f)) _ refl refl
                (λ f. omega (arith, tally_held-insert_new f k a.payload_chunks r n e)) o)
        | inr ((s, i), e) ↦
            rw (e, hold_chunks_until_payloads_released)
              (drop-Sound (HashMap.insert k (r, n) a.payload_chunks) s
                (owned_by a (λ f. f r + callers f)) o
                (λ f. omega (arith, tally_held-insert_old f k a.payload_chunks r n s i e)))
      ]

  -- Another use count for a held reservation changes no owner.
  pub recount-Sound :
      (k : ℕ) (r : ReservedChunks) (i n : ℕ)
      → HashMap.get k a.payload_chunks ≡ some (r, i)
      → Sound first a callers
      → Sound first (record a { payload_chunks = HashMap.insert k (r, n) a.payload_chunks }) callers
  recount-Sound k r i n e o =
      Owned-cong first a _ (owned_by a callers) _ refl refl
        (λ f. omega (arith, tally_held-insert_old f k a.payload_chunks r n r i e)) o

  -- A payload's release keeps the owners sound: the last one frees the chunks.
  pub release_payload-Sound :
      (address : ℕ) {b : DiskChunkAllocator}
      → release_payload a address ≡ ok b
      → Sound first a callers
      → Sound first b callers
  unfolding release_payload
  release_payload-Sound address {b} h o =
      let k = address / chunk_bytes in
      elim (Option-cases (HashMap.get k a.payload_chunks)) [
        | inl e ↦ absurd (ground arith)
        | inr ((r, n), e) ↦ elim (Bool-cases (n == 1)) [
          | inl last ↦
              subst (λ (x : DiskChunkAllocator). Sound first x callers)
                (ok_eq (rw (e, last, release_payload) at h))
                (drop-Sound (HashMap.remove k a.payload_chunks) r (owned_by a callers) o
                  (λ f. omega (arith, tally_held-remove f k a.payload_chunks r n e)))
          | inr more ↦ elim (Bool-cases (n == 0)) [
            | inl none_left ↦ absurd (ground (arith, rw (e, more, none_left, release_payload) at h))
            | inr some_left ↦
                subst (λ (x : DiskChunkAllocator). Sound first x callers)
                  (ok_eq (rw (e, more, some_left, release_payload) at h))
                  (recount-Sound k r n (n - 1) e o)
          ]
        ]
      ]
