-- ===== src/Memory/Buffer/History.antt =====
-- Histories of one pool from its start, and its end: feuer-memory/src/buffer.rs.
use mathlib.Core.Path.{subst}
use feuer.Base.{
  ℕ, zero, suc, ◌+◌, ◌-◌, ◌≡◌, refl, sym, ap, ◌∙◌, List, [], ◌∷◌, ◌++◌, some, arith, inl, inr,
  length, get_elem?, set, replicate, sum, map, sum-remove, Option-cases,
}
use feuer.Memory.Buffer.{
  bucket_count, AlignedBuffer, Gauges, new_pool, add_used_bytes, remove_used_bytes, gauge, decrease,
  bucket_bytes, size_at, drop_pool, drop_buckets,
}
use feuer.Memory.Buffer.Budget.{Placed}
use feuer.Memory.Buffer.Charge.{add_used_bytes-Charged}
use feuer.Memory.Buffer.Lifetime.{
  Memory, Call, allocate_bytes, drop, add, remove, removed, step, perform, start, AllPooled,
  IsSound, allocate-IsSound, drop-IsSound,
}

module _ (s : Memory) (o : IsSound s) where
  add-IsSound :
      (bytes : ℕ)
      → IsSound (record s { pool = add_used_bytes s.pool bytes; charges = bytes ∷ s.charges })
  add-IsSound bytes =
      let (b, f, low, _, _) = add_used_bytes-Charged s.pool bytes o.balanced in
      record {
        balanced = b;
        budget = rw (f.capacity, f.used) low;
        charged_bytes = f.used ∙ omega (arith, o.charged_bytes);
        gauge_count = rw f.used_buffers o.gauge_count;
        out_gauges = rw f.used_buffers o.out_gauges;
        capacity_gauge = f.capacity_gauge ∙ o.capacity_gauge ∙ sym f.capacity;
        pooled = o.pooled;
      }

  remove-IsSound : (i : ℕ) → IsSound (removed s i (get_elem? s.charges i))
  unfolding remove_used_bytes
  remove-IsSound i = elim (Option-cases (get_elem? s.charges i)) [
    | inl e ↦ rw e o
    | inr (bytes, e) ↦ rw e (
        let less = sum-remove s.charges i bytes e in
        record {
          balanced = (record {
            shape = o.balanced.shape;
            counted = o.balanced.counted;
            idle_gauges = o.balanced.idle_gauges;
            used_gauge = omega (arith, o.balanced.used_gauge, o.charged_bytes, less);
            placed = o.balanced.placed;
          });
          budget = omega (arith, o.budget);
          charged_bytes = omega (arith, o.charged_bytes, less);
          gauge_count = o.gauge_count;
          out_gauges = o.out_gauges;
          capacity_gauge = o.capacity_gauge;
          pooled = o.pooled;
        })
  ]

step-IsSound : (s : Memory) (c : Call) → IsSound s → IsSound (step s c)
unfolding step
step-IsSound s (allocate_bytes granted n) o = allocate-IsSound s o granted n
step-IsSound s (drop i) o = drop-IsSound s o i
step-IsSound s (add bytes) o = add-IsSound s o bytes
step-IsSound s (remove i) o = remove-IsSound s o i

perform-IsSound : (s : Memory) (cs : List Call) → IsSound s → IsSound (perform s cs)
unfolding perform
perform-IsSound s [] o = o
perform-IsSound s (c ∷ cs) o = perform-IsSound (step s c) cs (step-IsSound s c o)

empty-replicate :
    (n i : ℕ) (bs : List AlignedBuffer) → get_elem? (replicate n []) i ≡ some bs → [] ≡ bs
empty-replicate zero i bs e = absurd (ground arith)
empty-replicate (suc n) zero bs e = cc
empty-replicate (suc n) (suc i) bs e = empty-replicate n i bs e

Placed-replicate :
    (n i : ℕ) (bs : List AlignedBuffer) → get_elem? (replicate n []) i ≡ some bs → Placed i bs
unfolding Placed
Placed-replicate n i bs e = subst (Placed i) (empty-replicate n i bs e) tt

gauge-replicate : (n i : ℕ) → gauge (replicate n 0) i ≡ 0
unfolding size_at
gauge-replicate zero i = refl
gauge-replicate (suc n) zero = refl
gauge-replicate (suc n) (suc i) = gauge-replicate n i

pub start-IsSound : (capacity : ℕ) → IsSound (start capacity)
unfolding new_pool AllPooled
start-IsSound capacity = record {
  balanced = (record {
    shape = refl;
    counted = refl;
    idle_gauges = refl;
    used_gauge = refl;
    placed = Placed-replicate bucket_count;
  });
  budget = omega arith;
  charged_bytes = refl;
  gauge_count = refl;
  out_gauges = λ i h. gauge-replicate bucket_count i;
  capacity_gauge = refl;
  pooled = tt;
}

-- After any calls on a new pool, its books are those of its idle buffers, they fit the budget beside
-- the charges, and the gauges count the idle and the handed-out bytes of each bucket.
pub perform-start-IsSound : (capacity : ℕ) (cs : List Call) → IsSound (perform (start capacity) cs)
perform-start-IsSound capacity cs = perform-IsSound (start capacity) cs (start-IsSound capacity)

-- Reading and clearing the first entry that is not yet cleared.
gauge-cleared : (n m : ℕ) (ms : List ℕ) → gauge (replicate n 0 ++ m ∷ ms) n ≡ m
unfolding size_at
gauge-cleared zero m ms = refl
gauge-cleared (suc n) m ms = gauge-cleared n m ms

set-cleared :
    (n m : ℕ) (ms : List ℕ) → set (replicate n 0 ++ m ∷ ms) n 0 ≡ replicate (suc n) 0 ++ ms
set-cleared zero m ms = refl
set-cleared (suc n) m ms = ap (◌∷◌ 0) (set-cleared n m ms)

append-nil : (ns : List ℕ) → ns ++ [] ≡ ns
append-nil [] = refl
append-nil (n ∷ ns) = ap (◌∷◌ n) (append-nil ns)

minus_self : (n : ℕ) → n - n ≡ 0
minus_self n = omega arith

Gauges-ext :
    (g : Gauges) (c u : ℕ) (is us : List ℕ)
    → g.capacity_bytes ≡ c
    → g.used_bytes ≡ u
    → g.idle_buffer_bytes ≡ is
    → g.used_buffer_bytes ≡ us
    → g ≡ record {
      capacity_bytes = c;
      used_bytes = u;
      idle_buffer_bytes = is;
      used_buffer_bytes = us;
    }
Gauges-ext g c u is us a b d e = cc

-- The gauges after the buckets from the `n`th on were dropped.
record Cleared (g h : Gauges) (n bytes : ℕ) : Type 0 where
  pub capacity : h.capacity_bytes ≡ g.capacity_bytes
  pub used : h.used_bytes ≡ g.used_bytes - bytes
  pub idle : h.idle_buffer_bytes ≡ replicate n 0
  pub used_buffers : h.used_buffer_bytes ≡ g.used_buffer_bytes

drop_buckets-Cleared :
    (xss : List (List AlignedBuffer)) (n : ℕ) (g : Gauges)
    → g.idle_buffer_bytes ≡ replicate n 0 ++ map bucket_bytes xss
    → Cleared g (drop_buckets xss n g) (length xss + n) (sum (map bucket_bytes xss))
unfolding drop_buckets
drop_buckets-Cleared [] n g e = record {
  capacity = refl;
  used = omega arith;
  idle = e ∙ append-nil (replicate n 0) ∙ ap (λ (k : ℕ). replicate k 0) (omega arith);
  used_buffers = refl;
}
drop_buckets-Cleared (bs ∷ xss) n g e =
    let now = bucket_bytes bs in
    let next : decrease g.idle_buffer_bytes n now ≡ replicate (suc n) 0 ++ map bucket_bytes xss =
      rw (e, gauge-cleared n now (map bucket_bytes xss))
        (rw (minus_self now) (set-cleared n now (map bucket_bytes xss))) in
    let v = drop_buckets-Cleared xss (suc n) _ next in
    record {
      capacity = v.capacity;
      used = v.used ∙ omega arith;
      idle = v.idle ∙ ap (λ (k : ℕ). replicate k 0) (omega arith);
      used_buffers = v.used_buffers;
    }

-- When a pool goes, after any calls, its gauges keep only the charges that are left, and what is
-- handed out.
pub drop_pool-clears :
    (capacity : ℕ) (cs : List Call)
    → drop_pool (perform (start capacity) cs).pool ≡ record {
      capacity_bytes = 0;
      used_bytes = sum (perform (start capacity) cs).charges;
      idle_buffer_bytes = replicate bucket_count 0;
      used_buffer_bytes = (perform (start capacity) cs).pool.metrics.used_buffer_bytes;
    }
unfolding drop_pool
drop_pool-clears capacity cs =
    let o = perform-start-IsSound capacity cs in
    let p = (perform (start capacity) cs).pool in
    let v = drop_buckets-Cleared p.idle_buffers 0 p.metrics o.balanced.idle_gauges in
    Gauges-ext _ 0 (sum (perform (start capacity) cs).charges) (replicate bucket_count 0)
      p.metrics.used_buffer_bytes (omega (arith, v.capacity, o.capacity_gauge))
      (v.used ∙ omega (arith, o.balanced.used_gauge, o.balanced.counted, o.charged_bytes))
      (v.idle ∙ rw o.balanced.shape refl) v.used_buffers
