-- ===== src/Memory/Buffer/Allocate.antt =====
-- What an allocation hands out.
use feuer.Base.{
  ℕ, ◌<◌, leb, ap, sym, ◌∙◌, ◌≤◌, ◌≡◌, ◌⊎◌, inl, inr, refl, List, [], ◌∷◌, Option, none, some, Bool,
  true, false, arith, get_elem?, Option-cases,
}
use feuer.Memory.Buffer.{
  layout_limit, layout, bucket_index, allocation_capacity, AlignedBuffer, BufferPool,
  take_idle_buffer, without, allocate_zeroed, reuse, hand_out, allocate, bucket_of,
}
use feuer.Memory.Buffer.Budget.{Balanced, Placed-head, without-Balanced}
use feuer.Memory.Buffer.Reuse.{IsRefused, Fits, reuse-Fits, fresh-Fits}

-- What an allocation gives, and the pool after it.
abbrev pub Answer : ℕ → Bool → BufferPool → Option AlignedBuffer × BufferPool → Type 0
Answer n granted p r =
    (((r.0 ≡ none) × IsRefused granted (allocation_capacity n))
      ⊎ ((y : AlignedBuffer) × (r.0 ≡ some y) × (y.length ≡ n) × (y.pooled ≡ true) × Fits n y))
    × ((bucket_of p (bucket_index n) ≡ []) → (layout_limit < allocation_capacity n) → r.0 ≡ none)
    × Balanced r.1
    × (r.1.idle_bytes ≤ p.idle_bytes)

-- Handing out changes none of the pool's books.
hand_out-Balanced :
    (p : BufferPool) (i n : ℕ) (o : Option AlignedBuffer)
    → Balanced p
    → Balanced (hand_out p i n o).1
hand_out-Balanced p i n none b = b
hand_out-Balanced p i n (some x) b = record {
  shape = b.shape;
  counted = b.counted;
  idle_gauges = b.idle_gauges;
  used_gauge = b.used_gauge;
  placed = b.placed;
}

-- The pool from which the buffer is handed out, and the memory for it.
pub record Source (granted : Bool) (p : BufferPool) (n : ℕ) : Type 0 where
  pub pool : BufferPool
  pub buffer : Option AlignedBuffer
  pub result : allocate granted p n ≡ hand_out pool (bucket_index n) n buffer
  pub balanced : Balanced pool
  pub same_capacity : pool.capacity ≡ p.capacity
  pub same_used : pool.used_bytes ≡ p.used_bytes
  pub same_used_buffers : pool.metrics.used_buffer_bytes ≡ p.metrics.used_buffer_bytes
  pub same_capacity_gauge : pool.metrics.capacity_bytes ≡ p.metrics.capacity_bytes
  pub less_idle : pool.idle_bytes ≤ p.idle_bytes
  pub answer :
      ((buffer ≡ none) × IsRefused granted (allocation_capacity n))
      ⊎ ((y : AlignedBuffer) × (buffer ≡ some y) × Fits n y)

module _ (granted : Bool) (p : BufferPool) (n : ℕ) (b : Balanced p) where
  fresh-Source :
      allocate granted p n
        ≡ hand_out p (bucket_index n) n (allocate_zeroed granted (allocation_capacity n))
      → Source granted p n
  fresh-Source e = record {
    pool = p;
    buffer = allocate_zeroed granted (allocation_capacity n);
    result = e;
    balanced = b;
    same_capacity = refl;
    same_used = refl;
    same_used_buffers = refl;
    same_capacity_gauge = refl;
    less_idle = omega arith;
    answer = fresh-Fits granted n;
  }

  take-none : bucket_of p (bucket_index n) ≡ [] → take_idle_buffer p (bucket_index n) ≡ none
  unfolding take_idle_buffer
  take-none e = ground arith

  fresh_eq :
      bucket_of p (bucket_index n) ≡ []
      → allocate granted p n
        ≡ hand_out p (bucket_index n) n (allocate_zeroed granted (allocation_capacity n))
  unfolding allocate
  fresh_eq e = rw (take-none e, allocate) refl

  reuse_eq :
      (x : AlignedBuffer) (rest : List AlignedBuffer)
      → get_elem? p.idle_buffers (bucket_index n) ≡ some (x ∷ rest)
      → allocate granted p n
        ≡ hand_out
            (without p (bucket_index n) x.capacity rest)
            (bucket_index n)
            n
            (reuse granted (allocation_capacity n) x)
  unfolding allocate take_idle_buffer
  reuse_eq x rest e =
      let taken : take_idle_buffer p (bucket_index n)
          ≡ some (x, without p (bucket_index n) x.capacity rest) =
        rw (take_idle_buffer, e) refl in
      rw (taken, allocate) refl

  pub allocate-Source : Source granted p n
  allocate-Source = elim (Option-cases (get_elem? p.idle_buffers (bucket_index n))) [
    | inl e ↦ fresh-Source (fresh_eq (rw (e, bucket_of) refl))
    | inr ([], e) ↦ fresh-Source (fresh_eq (rw (e, bucket_of) refl))
    | inr (x ∷ rest, e) ↦
        let head = Placed-head (bucket_index n) x rest (b.placed (bucket_index n) (x ∷ rest) e) in
        record {
          pool = without p (bucket_index n) x.capacity rest;
          buffer = reuse granted (allocation_capacity n) x;
          result = reuse_eq x rest e;
          balanced = without-Balanced p (bucket_index n) x rest b e;
          same_capacity = refl;
          same_used = refl;
          same_used_buffers = refl;
          same_capacity_gauge = refl;
          less_idle = omega arith;
          answer = reuse-Fits granted n x head.1 head.0;
        }
  ]

  refused_layout :
      bucket_of p (bucket_index n) ≡ []
      → layout_limit < allocation_capacity n
      → (allocate granted p n).0 ≡ none
  unfolding allocate_zeroed layout
  refused_layout q l =
      let no_layout : leb (allocation_capacity n) layout_limit ≡ false = ground (arith, l) in
      let no_memory : allocate_zeroed granted (allocation_capacity n) ≡ none =
        rw (no_layout, allocate_zeroed) refl in
      ap (λ (r : Option AlignedBuffer × BufferPool). r.0) (fresh_eq q)
      ∙ ap (λ (o : Option AlignedBuffer). (hand_out p (bucket_index n) n o).0) no_memory

  -- On a balanced pool, an allocation fails only if its capacity is above the limit of layouts or the
  -- system refuses memory, and without an idle buffer in its bucket it does fail above the limit.
  -- Otherwise the buffer
  -- has the length asked for, with room for it, and the capacity of its bucket, or above 64 MiB
  -- under 10% to spare. The pool stays balanced, and no idle bytes are added.
  pub allocate-Answer : Answer n granted p (allocate granted p n)
  allocate-Answer =
      let s = allocate-Source in
      rw s.result (
        elim (s.answer) [
          | inl (e, g) ↦ inl (rw e refl, g)
          | inr (y, e, f) ↦ inr (
            record y { length = n; pooled = true },
            rw e refl,
            refl,
            refl,
            record { room = f.room; bucket = f.bucket; fitted = f.fitted; spare = f.spare },
          )
        ],
        λ q l. rw (sym s.result) (refused_layout q l),
        hand_out-Balanced s.pool (bucket_index n) n s.buffer s.balanced,
        elim (s.answer) [ inl (e, g) ↦ rw e s.less_idle | inr (y, e, f) ↦ rw e s.less_idle ],
      )
