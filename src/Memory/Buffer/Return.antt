-- ===== src/Memory/Buffer/Return.antt =====
-- Drop of an aligned buffer in feuer-memory/src/buffer.rs.
use feuer.Base.{
  ◌+◌, ◌-◌, ◌≤◌, ◌<◌, ◌≡◌, ◌⊎◌, inl, inr, refl, sym, ap, ◌∙◌, List, ◌∷◌, some, true, false, arith,
  get_elem?, get_elem?-in, set, dec_lt, get_elem?-set_self, get_elem?-lt,
}
use feuer.Memory.Buffer.{
  bucket_index, AlignedBuffer, BufferPool, drop_buffer, kept, freed, bucket_of, bucket_bytes,
  decrease, gauge,
}
use feuer.Memory.Buffer.Drain.{bucket_of-some}
use feuer.Memory.Buffer.Buckets.{bucket_index-lt}
use feuer.Memory.Buffer.Budget.{IsFitted, Placed, Balanced, replaced, gauge-bucket}

-- The pool after a buffer was dropped.
pub record Returned (p : BufferPool) (b : AlignedBuffer) (q : BufferPool) : Type 0 where
  pub balanced : Balanced q
  pub capacity : q.capacity ≡ p.capacity
  pub used : q.used_bytes ≡ p.used_bytes
  pub used_buffers :
      q.metrics.used_buffer_bytes
      ≡ decrease p.metrics.used_buffer_bytes (bucket_index b.capacity) b.capacity
  pub capacity_gauge : q.metrics.capacity_bytes ≡ p.metrics.capacity_bytes
  pub choice :
      ((p.idle_bytes + b.capacity ≤ p.capacity - p.used_bytes)
        × (q.idle_bytes ≡ p.idle_bytes + b.capacity)
        × (bucket_of q (bucket_index b.capacity)
            ≡ record b { pooled = false } ∷ bucket_of p (bucket_index b.capacity)))
      ⊎ ((p.capacity - p.used_bytes < p.idle_bytes + b.capacity)
          × (q.idle_bytes ≡ p.idle_bytes)
          × (q.idle_buffers ≡ p.idle_buffers))

module _ (p : BufferPool) (b : AlignedBuffer) (e : b.pooled ≡ true) where
  drop-kept : p.idle_bytes + b.capacity ≤ p.capacity - p.used_bytes → drop_buffer p b ≡ kept p b
  unfolding drop_buffer
  drop-kept h = ground arith

  drop-freed : p.capacity - p.used_bytes < p.idle_bytes + b.capacity → drop_buffer p b ≡ freed p b
  unfolding drop_buffer
  drop-freed h = ground arith

module _ (p : BufferPool) (b : AlignedBuffer) (o : Balanced p) where
  kept-Returned :
      (bs : List AlignedBuffer)
      → get_elem? p.idle_buffers (bucket_index b.capacity) ≡ some bs
      → IsFitted b
      → p.idle_bytes + b.capacity ≤ p.capacity - p.used_bytes
      → Returned p b (kept p b)
  unfolding Placed
  kept-Returned bs at f h =
      let index = bucket_index b.capacity in
      let here : bucket_of p index ≡ bs = bucket_of-some p index bs at in
      let new = record b { pooled = false } ∷ bucket_of p index in
      let old_gauge : gauge p.metrics.idle_buffer_bytes index ≡ bucket_bytes (bucket_of p index) =
        gauge-bucket p index bs o at ∙ ap bucket_bytes (sym here) in
      record {
        balanced =
            replaced p (kept p b) index (bucket_of p index) new o (at ∙ ap some (sym here))
              (refl, f, rw here (o.placed index bs at)) refl (omega arith)
              (ap (set p.metrics.idle_buffer_bytes index) (rw old_gauge (omega arith)))
              (omega (arith, o.used_gauge));
        capacity = refl;
        used = refl;
        used_buffers = refl;
        capacity_gauge = refl;
        choice = inl (
          h,
          refl,
          bucket_of-some (kept p b) index new (
              get_elem?-set_self p.idle_buffers index new
                (get_elem?-lt p.idle_buffers index bs at)),
        );
      }

  freed-Returned : p.capacity - p.used_bytes < p.idle_bytes + b.capacity → Returned p b (freed p b)
  freed-Returned h = record {
    balanced = record {
      shape = o.shape;
      counted = o.counted;
      idle_gauges = o.idle_gauges;
      used_gauge = o.used_gauge;
      placed = o.placed;
    };
    capacity = refl;
    used = refl;
    used_buffers = refl;
    capacity_gauge = refl;
    choice = inr (h, refl, refl);
  }

-- On a balanced pool, a pooled buffer of a bucket's capacity goes back to its bucket exactly if
-- the budget, less the bytes charged to cached objects, has room for it beside the idle ones.
-- Otherwise it is freed. The pool stays balanced.
pub drop_buffer-Returned :
    (p : BufferPool) (b : AlignedBuffer)
    → Balanced p
    → IsFitted b
    → b.pooled ≡ true
    → Returned p b (drop_buffer p b)
drop_buffer-Returned p b o f e =
    let index = bucket_index b.capacity in
    let (bs, at) =
      get_elem?-in p.idle_buffers index (omega (arith, o.shape, bucket_index-lt b.capacity)) in
    elim (dec_lt (p.capacity - p.used_bytes) (p.idle_bytes + b.capacity)) [
      | yes h ↦ rw (drop-freed p b e h) (freed-Returned p b o h)
      | no h ↦ rw (drop-kept p b e (omega arith)) (kept-Returned p b o bs at f (omega arith))
    ]
