-- ===== src/Memory/Buffer.antt =====
-- feuer-memory/src/buffer.rs: aligned buffers, and the pool of idle ones that shares the memory
-- cache's byte budget. A call holds the pool's lock throughout. Whether the system grants memory is
-- an argument. Byte counts are those of live allocations, so their sums stay in 64 bits.
pub mod Buckets
pub mod Budget
pub mod Drain
pub mod Charge
pub mod Reuse
pub mod Allocate
pub mod Return
pub mod Lifetime
pub mod History
use feuer.Base.{
  ℕ, zero, suc, ◌+◌, ◌-◌, ◌*◌, ◌/◌, ◌%◌, List, [], ◌∷◌, Option, none, some, Bool, true, false, ◌&&◌,
  ltb, leb, ◌==◌, if◌then◌else◌, length, get_elem?, set, replicate, sum, map,
}

abbrev pub max_fixed_buffer_bytes : ℕ
max_fixed_buffer_bytes = 64 * 1024 * 1024

abbrev pub buffer_sizes : List ℕ
buffer_sizes =
    (4 * 1024)
    ∷ (32 * 1024)
    ∷ (256 * 1024)
    ∷ (512 * 1024)
    ∷ (1024 * 1024)
    ∷ (2 * 1024 * 1024)
    ∷ (3 * 1024 * 1024)
    ∷ (4 * 1024 * 1024)
    ∷ (8 * 1024 * 1024)
    ∷ (12 * 1024 * 1024)
    ∷ (16 * 1024 * 1024)
    ∷ (24 * 1024 * 1024)
    ∷ (32 * 1024 * 1024)
    ∷ max_fixed_buffer_bytes
    ∷ []

abbrev pub bucket_count : ℕ
bucket_count = length buffer_sizes + 1

-- `partition_point`: how many leading sizes are too small.
unfoldable pub bucket_from : List ℕ → ℕ → ℕ
bucket_from [] length = 0
bucket_from (size ∷ sizes) length = if ltb size length then suc (bucket_from sizes length) else 0

unfoldable pub bucket_index : ℕ → ℕ
bucket_index length = bucket_from buffer_sizes length

unfoldable pub size_at : List ℕ → ℕ → ℕ → ℕ
size_at [] index default = default
size_at (size ∷ sizes) zero default = size
size_at (size ∷ sizes) (suc index) default = size_at sizes index default

unfoldable pub allocation_capacity : ℕ → ℕ
allocation_capacity length = size_at buffer_sizes (bucket_index length) length

-- `large` is `BufferMemory::Large`; `pooled` says that the buffer refers to the pool.
pub record AlignedBuffer : Type 0 where
  pub large : Bool
  pub capacity : ℕ
  pub length : ℕ
  pub pooled : Bool

-- What the pool adds to the gauges of `MemoryMetrics`; two of them have one for each bucket.
pub record Gauges : Type 0 where
  pub capacity_bytes : ℕ
  pub used_bytes : ℕ
  pub idle_buffer_bytes : List ℕ
  pub used_buffer_bytes : List ℕ

-- The head of a bucket is the back of its vector.
pub record BufferPool : Type 0 where
  pub capacity : ℕ
  pub used_bytes : ℕ
  pub idle_bytes : ℕ
  pub idle_buffers : List (List AlignedBuffer)
  pub metrics : Gauges

-- The entry of a gauge vector, read for an update.
abbrev pub gauge : List ℕ → ℕ → ℕ
gauge gs index = size_at gs index 0

abbrev pub increase : List ℕ → ℕ → ℕ → List ℕ
increase gs index bytes = set gs index (gauge gs index + bytes)

abbrev pub decrease : List ℕ → ℕ → ℕ → List ℕ
decrease gs index bytes = set gs index (gauge gs index - bytes)

abbrev pub decrease_idle_buffer_metrics : Gauges → ℕ → ℕ → Gauges
decrease_idle_buffer_metrics g index bytes = record g {
  used_bytes = g.used_bytes - bytes;
  idle_buffer_bytes = decrease g.idle_buffer_bytes index bytes;
}

-- `new`, with metrics that no other pool has.
unfoldable pub new_pool : ℕ → BufferPool
new_pool capacity = record {
  capacity = capacity;
  used_bytes = 0;
  idle_bytes = 0;
  idle_buffers = replicate bucket_count [];
  metrics = record {
    capacity_bytes = capacity;
    used_bytes = 0;
    idle_buffer_bytes = replicate bucket_count 0;
    used_buffer_bytes = replicate bucket_count 0;
  };
}

-- `used_bytes` of the pool, the idle buffers included.
unfoldable pub pool_used_bytes : BufferPool → ℕ
pool_used_bytes p = p.used_bytes + p.idle_bytes

-- The pool without the first idle buffer of the bucket, `rest` being the others.
abbrev pub without : BufferPool → ℕ → ℕ → List AlignedBuffer → BufferPool
without p index bytes rest = record p {
  idle_bytes = p.idle_bytes - bytes;
  idle_buffers = set p.idle_buffers index rest;
  metrics = decrease_idle_buffer_metrics p.metrics index bytes;
}

unfoldable pub take_idle_buffer : BufferPool → ℕ → Option (AlignedBuffer × BufferPool)
take_idle_buffer p index = elim (get_elem? p.idle_buffers index) [
  | none ↦ none
  | some [] ↦ none
  | some (buffer ∷ rest) ↦ some (buffer, without p index buffer.capacity rest)
]

-- `while inner.idle_bytes > remaining_capacity && let Some(buffer) = take_idle_buffer(index)`. The
-- fuel is the number of rounds, one for each buffer of the bucket.
unfoldable pub drain : ℕ → ℕ → ℕ → BufferPool → BufferPool
drain zero remaining index p = p
drain (suc fuel) remaining index p = elim (ltb remaining p.idle_bytes) [
  | false ↦ p
  | true ↦ elim (take_idle_buffer p index) [
    | none ↦ p
    | some (buffer, q) ↦ drain fuel remaining index q
  ]
]

abbrev pub idle_count : BufferPool → ℕ → ℕ
idle_count p index = elim (get_elem? p.idle_buffers index) [ none ↦ 0 | some bs ↦ length bs ]

-- `for index in (0..n).rev()`.
unfoldable pub drain_buckets : ℕ → ℕ → BufferPool → BufferPool
drain_buckets zero remaining p = p
drain_buckets (suc index) remaining p =
    drain_buckets index remaining (drain (idle_count p index) remaining index p)

abbrev pub charged : BufferPool → ℕ → BufferPool
charged p bytes =
    let metrics = p.metrics in
    record p {
      used_bytes = p.used_bytes + bytes;
      metrics = record metrics { used_bytes = metrics.used_bytes + bytes };
    }

unfoldable pub add_used_bytes : BufferPool → ℕ → BufferPool
add_used_bytes p bytes =
    let q = charged p bytes in drain_buckets bucket_count (q.capacity - q.used_bytes) q

unfoldable pub remove_used_bytes : BufferPool → ℕ → BufferPool
remove_used_bytes p bytes =
    let metrics = p.metrics in
    record p {
      used_bytes = p.used_bytes - bytes;
      metrics = record metrics { used_bytes = metrics.used_bytes - bytes };
    }

-- The largest size that `Layout::from_size_align` accepts: rounded up to the alignment of 4096 it is
-- at most `isize::MAX`.
unfoldable pub layout_limit : ℕ
layout_limit = 9223372036854775807 - (4096 - 1)

-- `AlignedBuffer::layout`: whether it gives a layout, and not the error `InvalidInput`.
unfoldable pub layout : ℕ → Bool
unfolding layout_limit
layout capacity = leb capacity layout_limit

-- `resize_for_reuse`: the capacity afterwards, `granted` being the system's answer to `mremap`, which
-- is asked only for a capacity that has a layout.
unfoldable pub resize_for_reuse : Bool → ℕ → ℕ → Option ℕ
resize_for_reuse granted old_capacity new_capacity =
    let minimum_shrink_bytes = new_capacity / 10 + (if new_capacity % 10 == 0 then 0 else 1) in
    if leb new_capacity old_capacity && ltb (old_capacity - new_capacity) minimum_shrink_bytes
    then some old_capacity
    else if layout new_capacity && granted
    then some new_capacity
    else none

-- `AlignedBuffer::allocate_zeroed`. Both kinds of memory ask for the layout first.
unfoldable pub allocate_zeroed : Bool → ℕ → Option AlignedBuffer
allocate_zeroed granted length =
    if layout length && granted
    then some (record {
      large = ltb max_fixed_buffer_bytes length;
      capacity = length;
      length = length;
      pooled = false;
    })
    else none

-- The idle buffer for reuse, resized if it is large; or a fresh one.
unfoldable pub reuse : Bool → ℕ → AlignedBuffer → Option AlignedBuffer
reuse granted capacity buffer =
    if buffer.large
    then elim (resize_for_reuse granted buffer.capacity capacity) [
      | none ↦ none
      | some resized ↦ some (record buffer { capacity = resized })
    ]
    else some buffer

-- The buffer as `allocate` hands it out, counted as used.
abbrev pub hand_out : BufferPool → ℕ → ℕ → Option AlignedBuffer → Option AlignedBuffer × BufferPool
hand_out p index length none = (none, p)
hand_out p index length (some buffer) =
    let metrics = p.metrics in
    (
      some (record buffer { length = length; pooled = true }),
      record p {
        metrics = record metrics {
          used_buffer_bytes = increase metrics.used_buffer_bytes index buffer.capacity;
        };
      },
    )

-- If there is no layout or the system refuses memory, the call fails and an idle buffer that it took is gone.
unfoldable pub allocate : Bool → BufferPool → ℕ → Option AlignedBuffer × BufferPool
allocate granted p length =
    let index = bucket_index length in
    let capacity = allocation_capacity length in
    elim (take_idle_buffer p index) [
      | none ↦ hand_out p index length (allocate_zeroed granted capacity)
      | some (buffer, q) ↦ hand_out q index length (reuse granted capacity buffer)
    ]

abbrev pub bucket_of : BufferPool → ℕ → List AlignedBuffer
bucket_of p index = elim (get_elem? p.idle_buffers index) [ none ↦ [] | some bs ↦ bs ]

abbrev pub unused : Gauges → AlignedBuffer → Gauges
unused g b = record g {
  used_buffer_bytes = decrease g.used_buffer_bytes (bucket_index b.capacity) b.capacity;
}

abbrev pub freed : BufferPool → AlignedBuffer → BufferPool
freed p b = record p { metrics = unused p.metrics b }

abbrev pub kept : BufferPool → AlignedBuffer → BufferPool
kept p b =
    let index = bucket_index b.capacity in
    let metrics = unused p.metrics b in
    record p {
      idle_bytes = p.idle_bytes + b.capacity;
      idle_buffers = set p.idle_buffers index (record b { pooled = false } ∷ bucket_of p index);
      metrics = record metrics {
        used_bytes = metrics.used_bytes + b.capacity;
        idle_buffer_bytes = increase metrics.idle_buffer_bytes index b.capacity;
      };
    }

-- `Drop for AlignedBuffer`, while the pool exists: the buffer returns to its bucket if the budget
-- has room for it, and is freed otherwise.
unfoldable pub drop_buffer : BufferPool → AlignedBuffer → BufferPool
drop_buffer p b =
    if b.pooled
    then if leb (p.idle_bytes + b.capacity) (p.capacity - p.used_bytes) then kept p b else freed p b
    else p

abbrev pub bucket_bytes : List AlignedBuffer → ℕ
bucket_bytes buffers = sum (map (λ (b : AlignedBuffer). b.capacity) buffers)

-- `for index in 0..BUCKET_COUNT`, `index` being that of the first bucket of the list.
unfoldable pub drop_buckets : List (List AlignedBuffer) → ℕ → Gauges → Gauges
drop_buckets [] index g = g
drop_buckets (buffers ∷ rest) index g =
    drop_buckets rest (suc index) (decrease_idle_buffer_metrics g index (bucket_bytes buffers))

-- `Drop for BufferPool`: what stays on the gauges.
unfoldable pub drop_pool : BufferPool → Gauges
drop_pool p =
    let g = drop_buckets p.idle_buffers 0 p.metrics in
    record g { capacity_bytes = g.capacity_bytes - p.capacity }
