-- ===== src/Memory/Buffer/Budget.antt =====
-- The books of the pool, and taking and freeing idle buffers.
use feuer.Base.{
  ℕ, zero, suc, ◌+◌, ◌≤◌, ◌<◌, ◌≡◌, refl, sym, ap, ◌∙◌, List, [], ◌∷◌, some, arith, length,
  get_elem?, set, ltb, map, sum, sum-set, map-set, get_elem?-map, get_elem?-set_self,
  get_elem?-set_ne, length-set, get_elem?-lt, ℕ_discrete,
}
use feuer.Memory.Buffer.{
  max_fixed_buffer_bytes, bucket_count, bucket_index, allocation_capacity, AlignedBuffer,
  BufferPool, without, bucket_bytes, gauge,
}
use feuer.Memory.Buffer.Buckets.{size_at-get_elem?}
use mathlib.Core.Path.{subst}

-- A pooled allocation has the capacity of its bucket, and is resizable exactly above the largest.
abbrev pub IsFitted : AlignedBuffer → Type 0
IsFitted b =
    (b.capacity ≡ allocation_capacity b.capacity)
    × (b.large ≡ ltb max_fixed_buffer_bytes b.capacity)

unfoldable pub Placed : ℕ → List AlignedBuffer → Type 0
Placed i [] = Unit
Placed i (b ∷ bs) = (bucket_index b.capacity ≡ i) × IsFitted b × Placed i bs

pub Placed-head :
    (i : ℕ) (b : AlignedBuffer) (bs : List AlignedBuffer)
    → Placed i (b ∷ bs)
    → (bucket_index b.capacity ≡ i) × IsFitted b × Placed i bs
unfolding Placed
Placed-head i b bs w = w

-- The idle bytes are those of the buffers, the gauges agree with them, and each buffer lies in the
-- bucket of its capacity.
pub record Balanced (p : BufferPool) : Type 0 where
  pub shape : length p.idle_buffers ≡ bucket_count
  pub counted : p.idle_bytes ≡ sum (map bucket_bytes p.idle_buffers)
  pub idle_gauges : p.metrics.idle_buffer_bytes ≡ map bucket_bytes p.idle_buffers
  pub used_gauge : p.metrics.used_bytes ≡ p.used_bytes + p.idle_bytes
  pub placed :
      (i : ℕ) (bs : List AlignedBuffer) → get_elem? p.idle_buffers i ≡ some bs → Placed i bs

Placed-set :
    (xss : List (List AlignedBuffer)) (i : ℕ) (new : List AlignedBuffer)
    → Placed i new
    → ((j : ℕ) (bs : List AlignedBuffer) → get_elem? xss j ≡ some bs → Placed j bs)
    → i < length xss
    → (j : ℕ) (bs : List AlignedBuffer) → get_elem? (set xss i new) j ≡ some bs
    → Placed j bs
Placed-set xss i new w old h j bs e = elim (ℕ_discrete i j) [
  | yes k ↦
      subst (λ (n : ℕ). Placed n bs) k
        (subst (Placed i)
          (same (sym (get_elem?-set_self xss i new h) ∙ ap (get_elem? (set xss i new)) k ∙ e)) w)
  | no k ↦ old j bs (sym (get_elem?-set_ne xss i j new k) ∙ e)
]
  where
    same : {a b : List AlignedBuffer} → some a ≡ some b → a ≡ b
    same e = cc

-- One bucket was replaced, and the books were changed to match.
pub replaced :
    (p q : BufferPool) (i : ℕ) (old new : List AlignedBuffer)
    → Balanced p
    → get_elem? p.idle_buffers i ≡ some old
    → Placed i new
    → q.idle_buffers ≡ set p.idle_buffers i new
    → q.idle_bytes + bucket_bytes old ≡ p.idle_bytes + bucket_bytes new
    → q.metrics.idle_buffer_bytes ≡ set p.metrics.idle_buffer_bytes i (bucket_bytes new)
    → q.metrics.used_bytes ≡ q.used_bytes + q.idle_bytes
    → Balanced q
replaced p q i old new b e w buffers bytes gauges used = record {
  shape = rw buffers (length-set p.idle_buffers i new ∙ b.shape);
  counted =
      rw (buffers, map-set bucket_bytes p.idle_buffers i new)
        (omega (
          arith,
          b.counted,
          bytes,
          sum-set (map bucket_bytes p.idle_buffers) i (bucket_bytes old) (bucket_bytes new)
              (get_elem?-map bucket_bytes p.idle_buffers i old e),
        ));
  idle_gauges = rw (gauges, buffers, b.idle_gauges, map-set bucket_bytes p.idle_buffers i new) refl;
  used_gauge = used;
  placed =
      rw buffers (Placed-set p.idle_buffers i new w b.placed (get_elem?-lt p.idle_buffers i old e));
}

pub gauge-bucket :
    (p : BufferPool) (i : ℕ) (bs : List AlignedBuffer)
    → Balanced p
    → get_elem? p.idle_buffers i ≡ some bs
    → gauge p.metrics.idle_buffer_bytes i ≡ bucket_bytes bs
gauge-bucket p i bs b e = rw b.idle_gauges (
    size_at-get_elem? (map bucket_bytes p.idle_buffers) i (bucket_bytes bs) 0
      (get_elem?-map bucket_bytes p.idle_buffers i bs e))

sum-at : (ns : List ℕ) (i n : ℕ) → get_elem? ns i ≡ some n → n ≤ sum ns
sum-at [] i n e = absurd (ground arith)
sum-at (x ∷ xs) zero n e = ground arith
sum-at (x ∷ xs) (suc i) n e = omega (arith, sum-at xs i n e)

pub bucket_bytes-le :
    (p : BufferPool) (i : ℕ) (bs : List AlignedBuffer)
    → Balanced p
    → get_elem? p.idle_buffers i ≡ some bs
    → bucket_bytes bs ≤ p.idle_bytes
bucket_bytes-le p i bs b e = rw b.counted (
    sum-at (map bucket_bytes p.idle_buffers) i (bucket_bytes bs)
      (get_elem?-map bucket_bytes p.idle_buffers i bs e))

pub without-Balanced :
    (p : BufferPool) (i : ℕ) (x : AlignedBuffer) (rest : List AlignedBuffer)
    → Balanced p
    → get_elem? p.idle_buffers i ≡ some (x ∷ rest)
    → Balanced (without p i x.capacity rest)
without-Balanced p i x rest b e =
    let fits = bucket_bytes-le p i (x ∷ rest) b e in
    replaced p (without p i x.capacity rest) i (x ∷ rest) rest b e
      (Placed-head i x rest (b.placed i (x ∷ rest) e)).2 refl (omega arith)
      (ap (set p.metrics.idle_buffer_bytes i) (omega (arith, gauge-bucket p i (x ∷ rest) b e)))
      (omega (arith, b.used_gauge))
