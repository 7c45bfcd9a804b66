-- ===== src/Memory/Buffer/Lifetime.antt =====
-- Any history of one pool, beside the buffers that are handed out and the charges of cached objects.
use mathlib.Core.Path.{subst}
use feuer.Base.{
  ℕ, zero, suc, ◌+◌, ◌-◌, ◌≤◌, ◌<◌, ◌≡◌, inl, inr, refl, sym, ◌∙◌, List, [], ◌∷◌, ◌==◌,
  if◌then◌else◌, Option, none, some, Bool, true, arith, length, get_elem?, remove_at, sum, map,
  sum-remove_at, length-set, Option-cases, ℕ_discrete,
}
use feuer.Memory.Buffer.{
  bucket_count, bucket_index, AlignedBuffer, BufferPool, new_pool, allocate, drop_buffer,
  add_used_bytes, remove_used_bytes, gauge, increase, decrease,
}
use feuer.Memory.Buffer.Buckets.{bucket_index-lt, size_at-set_self, size_at-set_ne}
use feuer.Memory.Buffer.Budget.{IsFitted, Balanced}
use feuer.Memory.Buffer.Allocate.{allocate-Source}
use feuer.Memory.Buffer.Return.{drop_buffer-Returned}

pub record Memory : Type 0 where
  pub pool : BufferPool
  pub out : List AlignedBuffer
  pub charges : List ℕ

-- A buffer is dropped, and a charge removed, by its place.
pub data Call : Type 0 where
  allocate_bytes : Bool → ℕ → Call
  drop : ℕ → Call
  add : ℕ → Call
  remove : ℕ → Call

abbrev pub given : Memory → Option AlignedBuffer × BufferPool → Memory
given s (none, p) = record s { pool = p }
given s (some b, p) = record s { pool = p; out = b ∷ s.out }

abbrev pub dropped : Memory → ℕ → Option AlignedBuffer → Memory
dropped s i none = s
dropped s i (some b) = record s { pool = drop_buffer s.pool b; out = remove_at i s.out }

abbrev pub removed : Memory → ℕ → Option ℕ → Memory
removed s i none = s
removed s i (some bytes) = record s {
  pool = remove_used_bytes s.pool bytes;
  charges = remove_at i s.charges;
}

unfoldable pub step : Memory → Call → Memory
step s (allocate_bytes granted n) = given s (allocate granted s.pool n)
step s (drop i) = dropped s i (get_elem? s.out i)
step s (add bytes) = record s { pool = add_used_bytes s.pool bytes; charges = bytes ∷ s.charges }
step s (remove i) = removed s i (get_elem? s.charges i)

unfoldable pub perform : Memory → List Call → Memory
perform s [] = s
perform s (c ∷ cs) = perform (step s c) cs

abbrev pub start : ℕ → Memory
start capacity = record { pool = new_pool capacity; out = []; charges = [] }

-- The bytes of a buffer in a bucket.
abbrev pub share : ℕ → AlignedBuffer → ℕ
share i b = if bucket_index b.capacity == i then b.capacity else 0

unfoldable pub AllPooled : List AlignedBuffer → Type 0
AllPooled [] = Unit
AllPooled (b ∷ bs) = IsFitted b × (b.pooled ≡ true) × AllPooled bs

-- The pool's books agree with its buffers, its idle bytes fit the budget beside the charges, and the
-- gauges count what is handed out.
pub record IsSound (s : Memory) : Type 0 where
  pub balanced : Balanced s.pool
  pub budget : s.pool.idle_bytes ≤ s.pool.capacity - s.pool.used_bytes
  pub charged_bytes : s.pool.used_bytes ≡ sum s.charges
  pub gauge_count : length s.pool.metrics.used_buffer_bytes ≡ bucket_count
  pub out_gauges :
      (i : ℕ)
      → i < bucket_count
      → gauge s.pool.metrics.used_buffer_bytes i ≡ sum (map (share i) s.out)
  pub capacity_gauge : s.pool.metrics.capacity_bytes ≡ s.pool.capacity
  pub pooled : AllPooled s.out

AllPooled-at :
    (bs : List AlignedBuffer) (i : ℕ) (b : AlignedBuffer)
    → AllPooled bs
    → get_elem? bs i ≡ some b
    → IsFitted b × (b.pooled ≡ true) × AllPooled (remove_at i bs)
unfolding AllPooled
AllPooled-at [] i b w e = absurd (ground arith)
AllPooled-at (x ∷ xs) zero b w e =
    subst (λ (y : AlignedBuffer). IsFitted y × (y.pooled ≡ true) × AllPooled xs) (same e) w
  where
    same : {a b : AlignedBuffer} → some a ≡ some b → a ≡ b
    same e = cc
AllPooled-at (x ∷ xs) (suc i) b w e =
    let (f, g, v) = AllPooled-at xs i b w.2 e in (f, g, (w.0, w.1, v))

-- A gauge vector after the entry of a buffer's bucket was moved by its bytes.
module _ (gs : List ℕ) (b : AlignedBuffer) (h : bucket_index b.capacity < length gs) where
  gauge-increase :
      (j : ℕ) → gauge (increase gs (bucket_index b.capacity) b.capacity) j ≡ gauge gs j + share j b
  gauge-increase j = elim (ℕ_discrete (bucket_index b.capacity) j) [
    | yes e ↦
        subst
          (λ (k : ℕ).
            gauge (increase gs (bucket_index b.capacity) b.capacity) k ≡ gauge gs k + share k b)
          e (size_at-set_self gs (bucket_index b.capacity) _ 0 h ∙ ground arith)
    | no e ↦ size_at-set_ne gs (bucket_index b.capacity) j _ 0 e ∙ ground arith
  ]

  gauge-decrease :
      (j : ℕ) → gauge (decrease gs (bucket_index b.capacity) b.capacity) j ≡ gauge gs j - share j b
  gauge-decrease j = elim (ℕ_discrete (bucket_index b.capacity) j) [
    | yes e ↦
        subst
          (λ (k : ℕ).
            gauge (decrease gs (bucket_index b.capacity) b.capacity) k ≡ gauge gs k - share k b)
          e (size_at-set_self gs (bucket_index b.capacity) _ 0 h ∙ ground arith)
    | no e ↦ size_at-set_ne gs (bucket_index b.capacity) j _ 0 e ∙ ground arith
  ]

module _ (s : Memory) (o : IsSound s) where
  pub allocate-IsSound : (granted : Bool) (n : ℕ) → IsSound (given s (allocate granted s.pool n))
  unfolding AllPooled
  allocate-IsSound granted n =
      let v = allocate-Source granted s.pool n o.balanced in
      let low : v.pool.idle_bytes ≤ v.pool.capacity - v.pool.used_bytes =
        rw (v.same_capacity, v.same_used) (omega (arith, v.less_idle, o.budget)) in
      rw v.result (elim (v.answer) [
        | inl (e, g) ↦ rw e (record {
          balanced = v.balanced;
          budget = low;
          charged_bytes = v.same_used ∙ o.charged_bytes;
          gauge_count = rw v.same_used_buffers o.gauge_count;
          out_gauges = rw v.same_used_buffers o.out_gauges;
          capacity_gauge = v.same_capacity_gauge ∙ o.capacity_gauge ∙ sym v.same_capacity;
          pooled = o.pooled;
        })
        | inr (b, e, f) ↦ rw e (
            let i = bucket_index n in
            let gs = v.pool.metrics.used_buffer_bytes in
            let count : length gs ≡ bucket_count = rw v.same_used_buffers o.gauge_count in
            record {
              balanced = (record {
                shape = v.balanced.shape;
                counted = v.balanced.counted;
                idle_gauges = v.balanced.idle_gauges;
                used_gauge = v.balanced.used_gauge;
                placed = v.balanced.placed;
              });
              budget = low;
              charged_bytes = v.same_used ∙ o.charged_bytes;
              gauge_count = length-set gs i _ ∙ count;
              out_gauges = λ j l. rw (sym f.bucket) (
                  gauge-increase gs b (omega (arith, count, bucket_index-lt b.capacity)) j
                  ∙ rw v.same_used_buffers (omega (arith, o.out_gauges j l)));
              capacity_gauge = v.same_capacity_gauge ∙ o.capacity_gauge ∙ sym v.same_capacity;
              pooled = (f.fitted, refl, o.pooled);
            })
      ])

  pub drop-IsSound : (i : ℕ) → IsSound (dropped s i (get_elem? s.out i))
  drop-IsSound i = elim (Option-cases (get_elem? s.out i)) [
    | inl e ↦ rw e o
    | inr (b, e) ↦ rw e (
        let (f, g, rest) = AllPooled-at s.out i b o.pooled e in
        let v = drop_buffer-Returned s.pool b o.balanced f g in
        let gs = s.pool.metrics.used_buffer_bytes in
        record {
          balanced = v.balanced;
          budget =
              rw (v.capacity, v.used)
                (elim (v.choice) [
                  | inl (h, k, _) ↦ omega arith
                  | inr (h, k, _) ↦ omega (arith, o.budget)
                ]);
          charged_bytes = v.used ∙ o.charged_bytes;
          gauge_count = rw v.used_buffers (length-set gs _ _ ∙ o.gauge_count);
          out_gauges = λ j l. rw v.used_buffers (
              gauge-decrease gs b (omega (arith, o.gauge_count, bucket_index-lt b.capacity)) j
              ∙ omega (arith, o.out_gauges j l, sum-remove_at (share j) s.out i b e));
          capacity_gauge = v.capacity_gauge ∙ o.capacity_gauge ∙ sym v.capacity;
          pooled = rest;
        })
  ]
