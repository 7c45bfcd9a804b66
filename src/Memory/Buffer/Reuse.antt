-- ===== src/Memory/Buffer/Reuse.antt =====
-- What memory an allocation gets, reused or fresh.
use feuer.Base.{
  ℕ, ◌-◌, ◌*◌, ◌≤◌, ◌<◌, ◌≡◌, ◌⊎◌, inl, inr, refl, sym, ◌∙◌, none, some, Bool, true, false, arith,
  lt→ltb, ltb, leb, Bool-cases,
}
use feuer.Memory.Buffer.{
  layout_limit, layout, max_fixed_buffer_bytes, bucket_index, allocation_capacity, AlignedBuffer,
  resize_for_reuse, allocate_zeroed, reuse,
}
use feuer.Memory.Buffer.Buckets.{
  allocation_capacity-le, bucket_index-allocation_capacity, bucket_index-last,
  allocation_capacity-large, allocation_capacity-same,
}
use feuer.Memory.Buffer.Budget.{IsFitted}

-- Why there is no memory: the capacity has no layout, or the system refuses it.
abbrev pub IsRefused : Bool → ℕ → Type 0
IsRefused granted capacity = (layout_limit < capacity) ⊎ (granted ≡ false)

abbrev fresh_buffer : ℕ → AlignedBuffer
fresh_buffer capacity = record {
  large = ltb max_fixed_buffer_bytes capacity;
  capacity = capacity;
  length = capacity;
  pooled = false;
}

-- What a buffer for `n` bytes is like.
pub record Fits (n : ℕ) (b : AlignedBuffer) : Type 0 where
  pub room : n ≤ b.capacity
  pub bucket : bucket_index b.capacity ≡ bucket_index n
  pub fitted : IsFitted b
  pub spare :
      (b.capacity ≡ allocation_capacity n)
      ⊎ ((max_fixed_buffer_bytes < n) × (10 * (b.capacity - n) < n))

resize-Answer :
    (granted : Bool) (old new : ℕ)
    → ((resize_for_reuse granted old new ≡ none) × IsRefused granted new)
      ⊎ ((resize_for_reuse granted old new ≡ some old) × (new ≤ old) × (10 * (old - new) < new))
      ⊎ (resize_for_reuse granted old new ≡ some new)
unfolding resize_for_reuse layout
resize-Answer granted old new = elim (Bool-cases (leb new layout_limit)) [
  | inl l ↦ ground arith
  | inr l ↦ ground (arith, above l)
]
  where
    above : leb new layout_limit ≡ false → IsRefused granted new
    above h = inl (ground (arith, h))

large_buffer :
    (n c : ℕ) (b : AlignedBuffer)
    → max_fixed_buffer_bytes < n
    → n ≤ c
    → b.large ≡ true
    → (c ≡ n) ⊎ (10 * (c - n) < n)
    → Fits n (record b { capacity = c })
large_buffer n c b h k l s = record {
  room = k;
  bucket = elim (bucket_index-last c) [
    | inl (x, i) ↦ absurd (omega arith)
    | inr (x, i) ↦ elim (bucket_index-last n) [
      | inl (y, j) ↦ absurd (omega arith)
      | inr (y, j) ↦ i ∙ sym j
    ]
  ];
  fitted = (
    sym (allocation_capacity-large c (omega arith)),
    l ∙ sym (lt→ltb max_fixed_buffer_bytes c (omega arith)),
  );
  spare = elim s [ inl e ↦ inl (e ∙ sym (allocation_capacity-large n h)) | inr e ↦ inr (h, e) ];
}

module _ (granted : Bool) (c : ℕ) (b : AlignedBuffer) where
  reuse-fixed : b.large ≡ false → reuse granted c b ≡ some b
  unfolding reuse
  reuse-fixed h = ground arith

  reuse-none :
      b.large ≡ true → resize_for_reuse granted b.capacity c ≡ none → reuse granted c b ≡ none
  unfolding reuse
  reuse-none h e = ground arith

  reuse-some :
      (r : ℕ)
      → b.large ≡ true
      → resize_for_reuse granted b.capacity c ≡ some r
      → reuse granted c b ≡ some (record b { capacity = r })
  unfolding reuse
  reuse-some r h e = ground arith

-- Reuse of a buffer from the bucket of the length.
pub reuse-Fits :
    (granted : Bool) (n : ℕ) (b : AlignedBuffer)
    → IsFitted b
    → bucket_index b.capacity ≡ bucket_index n
    → ((reuse granted (allocation_capacity n) b ≡ none) × IsRefused granted (allocation_capacity n))
      ⊎ ((y : AlignedBuffer) × (reuse granted (allocation_capacity n) b ≡ some y) × Fits n y)
reuse-Fits granted n b f e = elim (bucket_index-last n) [
  | inl (h, i) ↦
      let (low, same) = allocation_capacity-same n b.capacity (sym e) h in
      let fixed : b.large ≡ false = f.1 ∙ ground arith in
      inr (
        b,
        reuse-fixed granted (allocation_capacity n) b fixed,
        record {
          room = omega (arith, allocation_capacity-le n, f.0);
          bucket = e;
          fitted = f;
          spare = inl (f.0 ∙ sym same);
        },
      )
  | inr (h, i) ↦ elim (bucket_index-last b.capacity) [
    | inl (k, j) ↦ absurd (omega arith)
    | inr (k, j) ↦
        let large : b.large ≡ true = f.1 ∙ lt→ltb max_fixed_buffer_bytes b.capacity k in
        let exact = allocation_capacity-large n h in
        elim (resize-Answer granted b.capacity n) [
          | inl (r, g) ↦ inl (rw exact (reuse-none granted n b large r), rw exact g)
          | inr (inl (r, x, s)) ↦ inr (
            _,
            rw exact (reuse-some granted n b b.capacity large r),
            large_buffer n b.capacity b h x large (inr s),
          )
          | inr (inr r) ↦ inr (
            _,
            rw exact (reuse-some granted n b n large r),
            large_buffer n n b h (omega arith) large (inl refl),
          )
        ]
  ]
]

fresh_buffer-Fits : (n : ℕ) → Fits n (fresh_buffer (allocation_capacity n))
fresh_buffer-Fits n = record {
  room = allocation_capacity-le n;
  bucket = bucket_index-allocation_capacity n;
  fitted = (
    sym (elim (bucket_index-last n) [
      | inl (h, i) ↦
          (allocation_capacity-same (allocation_capacity n) n (bucket_index-allocation_capacity n)
            (elim (bucket_index-last (allocation_capacity n)) [
              | inl (k, j) ↦ k
              | inr (k, j) ↦ absurd (omega (arith, bucket_index-allocation_capacity n))
            ])).1
      | inr (h, i) ↦ rw (allocation_capacity-large n h) (allocation_capacity-large n h)
    ]),
    refl,
  );
  spare = inl refl;
}

pub fresh-Fits :
    (granted : Bool) (n : ℕ)
    → ((allocate_zeroed granted (allocation_capacity n) ≡ none)
        × IsRefused granted (allocation_capacity n))
      ⊎ ((y : AlignedBuffer) × (allocate_zeroed granted (allocation_capacity n) ≡ some y)
          × Fits n y)
unfolding allocate_zeroed layout
fresh-Fits granted n = elim (Bool-cases (leb (allocation_capacity n) layout_limit)) [
  | inr l ↦ inl (rw (l, allocate_zeroed) refl, inl (ground (arith, l)))
  | inl l ↦ elim (Bool-cases granted) [
    | inr g ↦ inl (rw (l, g, allocate_zeroed) refl, inr g)
    | inl g ↦
        inr (
          fresh_buffer (allocation_capacity n),
          rw (l, g, allocate_zeroed) refl,
          fresh_buffer-Fits n,
        )
  ]
]
