-- ===== src/Storage/Layout/Partition.antt =====
-- The shards' ranges on the device behind its header chunk: shard_disk_range of
-- feuer-storage/src/disk_cache/recovery.rs.
use mathlib.Core.Path.{subst}
use native.Mathlib.Nat.{le-div_iff_mul-le, zero-div, mul-div_cancel, div-mul-le_self}
use feuer.Base.{
  ℕ, zero, suc, ◌+◌, ◌-◌, ◌*◌, ◌/◌, ◌≤◌, ◌<◌, ◌≡◌, refl, sym, ap, ◌∙◌, arith, min, max, dec_lt,
  some,
}
use feuer.Storage.Allocation.{chunk_bytes}
use feuer.Storage.Layout.{disk_capacity, shard_count, shard_disk_range}

-- `k` more steps of at least `n` each way add at least `k` to the quotient.
div-steps : (a m n k : ℕ) → 0 < n → k * n ≤ m → a / n + k ≤ (a + m) / n
div-steps a m n k h le = (le-div_iff_mul-le h).1 (omega (arith, div-mul-le_self a n))

module _ (m n : ℕ) (some_shard : 0 < n) where
  none_before : m * 0 / n ≡ 0
  none_before = ap (λ (x : ℕ). x / n) (omega arith) ∙ zero-div n

  all_before : m * (n - 1 + 1) / n ≡ m
  all_before = ap (λ (x : ℕ). m * x / n) (omega arith) ∙ mul-div_cancel m some_shard

  one_more : (i k : ℕ) → k * n ≤ m → m * i / n + k ≤ m * (i + 1) / n
  one_more i k h =
      let step : m * i + m ≡ m * (i + 1) = omega arith in
      subst (λ (x : ℕ). m * i / n + k ≤ x / n) step (div-steps (m * i) m n k some_shard h)

module _ (capacity : ℕ) (n : ℕ) (some_shard : 0 < n) where
  first_start : (shard_disk_range capacity n 0).start ≡ chunk_bytes
  unfolding shard_disk_range
  first_start = omega (arith, none_before (capacity / chunk_bytes - 1) n some_shard)

  last_end :
      (shard_disk_range capacity n (n - 1)).end ≡ (1 + (capacity / chunk_bytes - 1)) * chunk_bytes
  unfolding shard_disk_range
  last_end = omega (arith, all_before (capacity / chunk_bytes - 1) n some_shard)

  meets :
      (i : ℕ) → (shard_disk_range capacity n i).end ≡ (shard_disk_range capacity n (i + 1)).start
  unfolding shard_disk_range
  meets i = refl

  size :
      (i k : ℕ)
      → k * n ≤ capacity / chunk_bytes - 1
      → (shard_disk_range capacity n i).start + k * chunk_bytes
        ≤ (shard_disk_range capacity n i).end
  unfolding shard_disk_range
  size i k h = omega (arith, one_more (capacity / chunk_bytes - 1) n some_shard i k h)

  -- Every address below the start of a shard, and behind the header, is in an earlier one.
  covered :
      (k a : ℕ)
      → chunk_bytes ≤ a
      → a < (shard_disk_range capacity n k).start
      → (i : ℕ) × (i < k)
        × ((shard_disk_range capacity n i).start ≤ a)
        × (a < (shard_disk_range capacity n i).end)
  covered zero a low h = absurd (omega (arith, first_start))
  covered (suc k) a low h = elim (dec_lt a (shard_disk_range capacity n k).start) [
    | yes before ↦ let (i, b, p, q) = covered k a low before in (i, omega arith, p, q)
    | no after ↦ (
      k,
      omega arith,
      omega arith,
      rw (meets k) (subst (λ (x : ℕ). a < (shard_disk_range capacity n x).start) (omega arith) h),
    )
  ]

-- The ranges of the shards of a device: they start behind the header chunk, each starts where the one
-- before it ends, the last ends with the device, each has the chunks of the device or at least 128 of
-- them, and every address behind the header is in one of them.
pub record Partition (capacity n : ℕ) : Type 0 where
  pub some_shard : 0 < n
  pub first : (shard_disk_range capacity n 0).start ≡ chunk_bytes
  pub adjacent :
      (i : ℕ) → (shard_disk_range capacity n i).end ≡ (shard_disk_range capacity n (i + 1)).start
  pub last : (shard_disk_range capacity n (n - 1)).end ≡ capacity
  pub large :
      (i : ℕ)
      → (shard_disk_range capacity n i).start + min (capacity / chunk_bytes - 1) 128 * chunk_bytes
        ≤ (shard_disk_range capacity n i).end
  pub whole :
      (a : ℕ)
      → chunk_bytes ≤ a
      → a < capacity
      → (i : ℕ) × (i < n)
        × ((shard_disk_range capacity n i).start ≤ a)
        × (a < (shard_disk_range capacity n i).end)

shard_count-pos : (capacity : ℕ) → 0 < shard_count capacity
unfolding shard_count
shard_count-pos capacity = omega arith

-- The chunks suffice for all shards.
shard_count-fits : (m : ℕ) → 1 ≤ m → min m 128 * shard_count ((1 + m) * chunk_bytes) ≤ m
unfolding shard_count
shard_count-fits m h = elim (dec_lt m 128) [
  | yes few ↦
      let one : min (max (((1 + m) * chunk_bytes - chunk_bytes) / (128 * chunk_bytes)) 1) 64 ≡ 1 =
        omega arith in
      rw one (omega arith)
  | no many ↦ let all : min m 128 ≡ 128 = omega arith in rw all (omega arith)
]

accepted :
    (requested capacity : ℕ)
    → disk_capacity requested ≡ some capacity
    → (2 * chunk_bytes ≤ requested) × (capacity ≡ requested / chunk_bytes * chunk_bytes)
unfolding disk_capacity
accepted requested capacity h = (ground arith, ground arith)

-- For a capacity that is accepted, the shards are a partition of the device behind its header
-- chunk, each with all its chunks or at least 128. The device has at least two chunks and not more
-- than was asked for.
pub shard_disk_range-Partition :
    (requested capacity : ℕ)
    → disk_capacity requested ≡ some capacity
    → Partition capacity (shard_count capacity)
      × (2 * chunk_bytes ≤ capacity)
      × (capacity ≤ requested)
shard_disk_range-Partition requested capacity h =
    let (enough, eq) = accepted requested capacity h in
    let m = capacity / chunk_bytes - 1 in
    let back : (1 + m) * chunk_bytes ≡ capacity = omega arith in
    let n = shard_count capacity in
    let pos = shard_count-pos capacity in
    let fits : min m 128 * n ≤ m =
      subst (λ (x : ℕ). min m 128 * shard_count x ≤ m) back (shard_count-fits m (omega arith)) in
    let end = last_end capacity n pos ∙ back in
    let next : (shard_disk_range capacity n n).start ≡ capacity =
      subst (λ (x : ℕ). (shard_disk_range capacity n x).start ≡ capacity) (omega arith)
        (sym (meets capacity n pos (n - 1)) ∙ end) in
    (
      record {
        some_shard = pos;
        first = first_start capacity n pos;
        adjacent = meets capacity n pos;
        last = end;
        large = λ i. size capacity n pos i (min m 128) fits;
        whole = λ a low high. covered capacity n pos n a low (omega arith);
      },
      omega arith,
      omega arith,
    )
