-- ===== src/Memory/Buffer/Charge.antt =====
-- Freeing idle buffers for a charge: add_used_bytes of feuer-memory/src/buffer.rs.
use mathlib.Core.Path.{subst}
use feuer.Base.{
  ℕ, zero, suc, ◌+◌, ◌-◌, ◌≤◌, ◌<◌, ◌≡◌, ◌⊎◌, inl, inr, refl, ◌∙◌, List, [], ◌∷◌, none, arith,
  length, get_elem?, dec_lt, ℕ_discrete,
}
use feuer.Memory.Buffer.{
  bucket_count, AlignedBuffer, BufferPool, drain, drain_buckets, idle_count, bucket_of, charged,
  add_used_bytes,
}
use feuer.Memory.Buffer.Budget.{Balanced}
use feuer.Memory.Buffer.Drain.{
  Frame, Frame-refl, Frame-trans, Drained, drain-Drained, drain-fits, idle-empty,
}

-- The buckets from `n` up may have lost buffers, and one has only if those above it are empty.
pub record Freed (remaining n : ℕ) (p q : BufferPool) : Type 0 where
  pub balanced : Balanced q
  pub frame : Frame p q
  pub larger_first :
      (j : ℕ) → (bucket_of q j ≡ bucket_of p j) ⊎ ((k : ℕ) → j < k → bucket_of q k ≡ [])
  pub stop : (q.idle_bytes ≤ remaining) ⊎ ((j : ℕ) → n ≤ j → bucket_of q j ≡ [])

drain-stays :
    (fuel remaining i : ℕ) (p : BufferPool)
    → p.idle_bytes ≤ remaining
    → drain fuel remaining i p ≡ p
drain-stays zero remaining i p h = unfold drain in refl
drain-stays (suc fuel) remaining i p h = drain-fits fuel remaining i p h

module _ (remaining i : ℕ) (p q : BufferPool) where
  larger_first-next :
      (r : BufferPool)
      → Drained remaining i q r
      → Freed remaining (suc i) p q
      → ((j : ℕ) → suc i ≤ j → bucket_of q j ≡ [])
      → ((j : ℕ) → j < suc i → bucket_of q j ≡ bucket_of p j)
      → (j : ℕ) → (bucket_of r j ≡ bucket_of p j) ⊎ ((k : ℕ) → j < k → bucket_of r k ≡ [])
  larger_first-next r d f above h j = elim (dec_lt j i) [
    | yes low ↦ inl (d.others j (λ e. omega arith) ∙ h j (omega arith))
    | no high ↦ inr (λ k l. d.others k (λ e. omega arith) ∙ above k (omega arith))
  ]

  stop-next :
      (r : BufferPool)
      → Drained remaining i q r
      → ((j : ℕ) → suc i ≤ j → bucket_of q j ≡ [])
      → (r.idle_bytes ≤ remaining) ⊎ ((j : ℕ) → i ≤ j → bucket_of r j ≡ [])
  stop-next r d above = elim (d.stop) [
    | inl fits ↦ inl fits
    | inr now ↦ inr (λ j l. elim (ℕ_discrete i j) [
      | yes e ↦ subst (λ (x : ℕ). bucket_of r x ≡ []) e now
      | no e ↦ d.others j e ∙ above j (omega arith)
    ])
  ]

drain_buckets-Freed :
    (n remaining : ℕ) (p q : BufferPool)
    → Freed remaining n p q
    → ((j : ℕ) → j < n → bucket_of q j ≡ bucket_of p j)
    → Freed remaining 0 p (drain_buckets n remaining q)
unfolding drain_buckets
drain_buckets-Freed zero remaining p q f h = f
drain_buckets-Freed (suc i) remaining p q f h = elim (f.stop) [
  | inl fits ↦ rw (drain-stays (idle_count q i) remaining i q fits) (
      drain_buckets-Freed i remaining p q
        (record {
          balanced = f.balanced;
          frame = f.frame;
          larger_first = f.larger_first;
          stop = inl fits;
        })
        (λ j l. h j (omega arith)))
  | inr above ↦
      let d = drain-Drained (idle_count q i) remaining i q f.balanced (ground arith) in
      let r = drain (idle_count q i) remaining i q in
      drain_buckets-Freed i remaining p r
        (record {
          balanced = d.balanced;
          frame = Frame-trans p q r f.frame d.frame;
          larger_first = larger_first-next remaining i p q r d f above h;
          stop = stop-next remaining i p q r d above;
        })
        (λ j l. d.others j (λ e. omega arith) ∙ h j (omega arith))
]

bucket_of-out : (xss : List (List AlignedBuffer)) (j : ℕ) → length xss ≤ j → get_elem? xss j ≡ none
bucket_of-out [] j h = refl
bucket_of-out (bs ∷ xss) zero h = elim h [ ]
bucket_of-out (bs ∷ xss) (suc j) h = bucket_of-out xss j (omega arith)

-- Freeing over all buckets makes the idle bytes fit, and takes the larger buffers first.
pub drain_buckets-fits :
    (remaining : ℕ) (p : BufferPool)
    → Balanced p
    → Freed remaining 0 p (drain_buckets bucket_count remaining p)
      × ((drain_buckets bucket_count remaining p).idle_bytes ≤ remaining)
drain_buckets-fits remaining p b =
    let f =
      drain_buckets-Freed bucket_count remaining p p
        (record {
          balanced = b;
          frame = Frame-refl p;
          larger_first = λ j. inl refl;
          stop =
              inr (λ j l.
                rw (bucket_of-out p.idle_buffers j (omega (arith, b.shape)), bucket_of) refl);
        })
        (λ j l. refl) in
    (
      f,
      elim (f.stop) [
        | inl fits ↦ fits
        | inr none_left ↦ omega (arith, idle-empty _ f.balanced (λ j. none_left j (omega arith)))
      ],
    )

drain_buckets-stays :
    (n remaining : ℕ) (p : BufferPool) → p.idle_bytes ≤ remaining → drain_buckets n remaining p ≡ p
unfolding drain_buckets
drain_buckets-stays zero remaining p h = refl
drain_buckets-stays (suc i) remaining p h =
    rw (drain-stays (idle_count p i) remaining i p h) (drain_buckets-stays i remaining p h)

-- The idle bytes fit what the charges leave of the capacity. No idle buffer was freed if all fit
-- already, and a bucket lost one only if all buckets of larger sizes are empty.
abbrev pub Charged : BufferPool → ℕ → BufferPool → Type 0
Charged p bytes q =
    Balanced q
    × Frame (charged p bytes) q
    × (q.idle_bytes ≤ p.capacity - (p.used_bytes + bytes))
    × ((q ≡ charged p bytes) ⊎ (p.capacity - (p.used_bytes + bytes) < p.idle_bytes))
    × ((j : ℕ) → (bucket_of q j ≡ bucket_of p j) ⊎ ((k : ℕ) → j < k → bucket_of q k ≡ []))

-- A charge on a balanced pool frees idle buffers only if they do not fit, the larger sizes first,
-- and then they fit. The pool stays balanced.
pub add_used_bytes-Charged :
    (p : BufferPool) (bytes : ℕ) → Balanced p → Charged p bytes (add_used_bytes p bytes)
unfolding add_used_bytes
add_used_bytes-Charged p bytes b =
    let remaining = p.capacity - (p.used_bytes + bytes) in
    let q = charged p bytes in
    let books : Balanced q = record {
      shape = b.shape;
      counted = b.counted;
      idle_gauges = b.idle_gauges;
      used_gauge = omega (arith, b.used_gauge);
      placed = b.placed;
    } in
    let (f, low) = drain_buckets-fits remaining q books in
    (
      f.balanced,
      f.frame,
      low,
      elim (dec_lt remaining p.idle_bytes) [
        | yes h ↦ inr h
        | no h ↦ inl (drain_buckets-stays bucket_count remaining q (omega arith))
      ],
      f.larger_first,
    )
