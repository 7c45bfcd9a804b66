-- ===== src/Memory/Buffer/Drain.antt =====
-- Freeing the idle buffers of one bucket: add_used_bytes of feuer-memory/src/buffer.rs.
use feuer.Base.{
  ℕ, zero, suc, ◌≤◌, ◌<◌, ◌≡◌, ◌≢◌, ◌⊎◌, inl, inr, refl, sym, ap, ◌∙◌, List, [], ◌∷◌, some, arith,
  length, get_elem?, map, sum, get_elem?-set_self, get_elem?-set_ne, get_elem?-lt, Option-cases,
  dec_lt,
}
use feuer.Memory.Buffer.{
  AlignedBuffer, BufferPool, take_idle_buffer, without, drain, bucket_of, bucket_bytes,
}
use feuer.Memory.Buffer.Budget.{Balanced, without-Balanced}

-- What freeing idle buffers leaves alone.
pub record Frame (p q : BufferPool) : Type 0 where
  pub capacity : q.capacity ≡ p.capacity
  pub used : q.used_bytes ≡ p.used_bytes
  pub used_buffers : q.metrics.used_buffer_bytes ≡ p.metrics.used_buffer_bytes
  pub capacity_gauge : q.metrics.capacity_bytes ≡ p.metrics.capacity_bytes
  pub idle : q.idle_bytes ≤ p.idle_bytes

pub Frame-refl : (p : BufferPool) → Frame p p
Frame-refl p = record {
  capacity = refl;
  used = refl;
  used_buffers = refl;
  capacity_gauge = refl;
  idle = omega arith;
}

pub Frame-trans : (p q r : BufferPool) → Frame p q → Frame q r → Frame p r
Frame-trans p q r f g = record {
  capacity = g.capacity ∙ f.capacity;
  used = g.used ∙ f.used;
  used_buffers = g.used_buffers ∙ f.used_buffers;
  capacity_gauge = g.capacity_gauge ∙ f.capacity_gauge;
  idle = omega (arith, f.idle, g.idle);
}

-- One bucket was drained: the other buckets stay, and it is empty unless the rest fits.
pub record Drained (remaining i : ℕ) (p q : BufferPool) : Type 0 where
  pub balanced : Balanced q
  pub frame : Frame p q
  pub others : (j : ℕ) → i ≢ j → bucket_of q j ≡ bucket_of p j
  pub stop : (q.idle_bytes ≤ remaining) ⊎ (bucket_of q i ≡ [])

bucket_of-eq :
    (p q : BufferPool) (j : ℕ)
    → get_elem? p.idle_buffers j ≡ get_elem? q.idle_buffers j
    → bucket_of p j ≡ bucket_of q j
bucket_of-eq p q j e = ground arith

pub bucket_of-some :
    (p : BufferPool) (i : ℕ) (bs : List AlignedBuffer)
    → get_elem? p.idle_buffers i ≡ some bs
    → bucket_of p i ≡ bs
bucket_of-some p i bs e = ground arith

module _ (fuel remaining i : ℕ) (p : BufferPool) where
  pub drain-fits : p.idle_bytes ≤ remaining → drain (suc fuel) remaining i p ≡ p
  unfolding drain
  drain-fits h = ground arith

  drain-empty : bucket_of p i ≡ [] → drain (suc fuel) remaining i p ≡ p
  unfolding drain take_idle_buffer
  drain-empty h = ground arith

  drain-frees :
      (x : AlignedBuffer) (rest : List AlignedBuffer)
      → remaining < p.idle_bytes
      → get_elem? p.idle_buffers i ≡ some (x ∷ rest)
      → drain (suc fuel) remaining i p ≡ drain fuel remaining i (without p i x.capacity rest)
  unfolding drain take_idle_buffer
  drain-frees x rest h e = ground arith

without-Frame :
    (p : BufferPool) (i c : ℕ) (rest : List AlignedBuffer) → Frame p (without p i c rest)
without-Frame p i c rest = record {
  capacity = refl;
  used = refl;
  used_buffers = refl;
  capacity_gauge = refl;
  idle = omega arith;
}

undrained :
    (remaining i : ℕ) (p : BufferPool)
    → Balanced p
    → (p.idle_bytes ≤ remaining) ⊎ (bucket_of p i ≡ [])
    → Drained remaining i p p
undrained remaining i p b s = record {
  balanced = b;
  frame = Frame-refl p;
  others = λ j k. refl;
  stop = s;
}

nil : (bs : List AlignedBuffer) → length bs ≤ 0 → bs ≡ []
nil [] h = refl
nil (x ∷ xs) h = elim h [ ]

pub drain-Drained :
    (fuel remaining i : ℕ) (p : BufferPool)
    → Balanced p
    → length (bucket_of p i) ≤ fuel
    → Drained remaining i p (drain fuel remaining i p)
drain-Drained zero remaining i p b h =
    unfold drain in (undrained remaining i p b (inr (nil (bucket_of p i) h)))
drain-Drained (suc fuel) remaining i p b h = elim (dec_lt remaining p.idle_bytes) [
  | no fits ↦
      rw (drain-fits fuel remaining i p (omega arith))
        (undrained remaining i p b (inl (omega arith)))
  | yes over ↦ elim (Option-cases (get_elem? p.idle_buffers i)) [
    | inl e ↦
        let none_left : bucket_of p i ≡ [] = rw (e, bucket_of) refl in
        rw (drain-empty fuel remaining i p none_left) (undrained remaining i p b (inr none_left))
    | inr ([], e) ↦
        let none_left = bucket_of-some p i [] e in
        rw (drain-empty fuel remaining i p none_left) (undrained remaining i p b (inr none_left))
    | inr (x ∷ rest, e) ↦
        let q = without p i x.capacity rest in
        let low = get_elem?-lt p.idle_buffers i (x ∷ rest) e in
        let left : bucket_of q i ≡ rest =
          bucket_of-some q i rest (get_elem?-set_self p.idle_buffers i rest low) in
        let full : bucket_of p i ≡ x ∷ rest = bucket_of-some p i (x ∷ rest) e in
        let d =
          drain-Drained fuel remaining i q (without-Balanced p i x rest b e)
            (rw left (omega (arith, rw full at h))) in
        rw (drain-frees fuel remaining i p x rest over e) (record {
          balanced = d.balanced;
          frame = Frame-trans p q _ (without-Frame p i x.capacity rest) d.frame;
          others =
              λ j k. d.others j k ∙ bucket_of-eq q p j (get_elem?-set_ne p.idle_buffers i j rest k);
          stop = d.stop;
        })
  ]
]

sum-empty :
    (xss : List (List AlignedBuffer))
    → ((j : ℕ) (bs : List AlignedBuffer) → get_elem? xss j ≡ some bs → bs ≡ [])
    → sum (map bucket_bytes xss) ≡ 0
sum-empty [] h = refl
sum-empty (bs ∷ xss) h =
    omega (arith, ap bucket_bytes (h 0 bs refl), sum-empty xss (λ j. h (suc j)))

pub idle-empty : (p : BufferPool) → Balanced p → ((j : ℕ) → bucket_of p j ≡ []) → p.idle_bytes ≡ 0
idle-empty p b h =
    b.counted ∙ sum-empty p.idle_buffers (λ j bs e. sym (bucket_of-some p j bs e) ∙ h j)
