-- ===== src/Memory/Buffer/Buckets.antt =====
-- The buckets of the pool: which one a length belongs to, and reading a list at an index.
use feuer.Base.{
  ℕ, zero, suc, ◌≤◌, ◌<◌, ◌≡◌, ◌⊎◌, inl, inr, ◌≢◌, refl, ap, List, [], ◌∷◌, some, arith, length,
  get_elem?, set, dec_lt,
}
use feuer.Memory.Buffer.{
  max_fixed_buffer_bytes, buffer_sizes, bucket_count, bucket_from, bucket_index, size_at,
  allocation_capacity,
}

bucket_from-le : (sizes : List ℕ) (l : ℕ) → bucket_from sizes l ≤ length sizes
unfolding bucket_from
bucket_from-le [] l = omega arith
bucket_from-le (s ∷ sizes) l = ground (arith, bucket_from-le sizes l)

pub bucket_index-lt : (l : ℕ) → bucket_index l < bucket_count
unfolding bucket_index
bucket_index-lt l = omega (arith, bucket_from-le buffer_sizes l)

pub size_at-get_elem? : (xs : List ℕ) (i v d : ℕ) → get_elem? xs i ≡ some v → size_at xs i d ≡ v
unfolding size_at
size_at-get_elem? [] i v d e = absurd (ground arith)
size_at-get_elem? (x ∷ xs) zero v d e = ground arith
size_at-get_elem? (x ∷ xs) (suc i) v d e = size_at-get_elem? xs i v d e

pub size_at-set_self : (xs : List ℕ) (i v d : ℕ) → i < length xs → size_at (set xs i v) i d ≡ v
unfolding size_at
size_at-set_self [] i v d h = elim h [ ]
size_at-set_self (x ∷ xs) zero v d h = refl
size_at-set_self (x ∷ xs) (suc i) v d h = size_at-set_self xs i v d (omega arith)

pub size_at-set_ne : (xs : List ℕ) (i j v d : ℕ) → i ≢ j → size_at (set xs i v) j d ≡ size_at xs j d
unfolding size_at
size_at-set_ne [] i j v d h = refl
size_at-set_ne (x ∷ xs) zero zero v d h = absurd (h refl)
size_at-set_ne (x ∷ xs) zero (suc j) v d h = refl
size_at-set_ne (x ∷ xs) (suc i) zero v d h = refl
size_at-set_ne (x ∷ xs) (suc i) (suc j) v d h = size_at-set_ne xs i j v d (λ e. h (ap suc e))

-- The chosen size fits, and sits in the same bucket.
size_at-le : (sizes : List ℕ) (l : ℕ) → l ≤ size_at sizes (bucket_from sizes l) l
unfolding size_at bucket_from
size_at-le [] l = omega arith
size_at-le (s ∷ sizes) l = ground (arith, size_at-le sizes l)

bucket_from-size_at :
    (sizes : List ℕ) (l : ℕ)
    → bucket_from sizes (size_at sizes (bucket_from sizes l) l) ≡ bucket_from sizes l
unfolding size_at bucket_from
bucket_from-size_at [] l = refl
bucket_from-size_at (s ∷ sizes) l = ground (arith, bucket_from-size_at sizes l, size_at-le sizes l)

-- Two lengths of a bucket below the last have one size.
size_at-in : (sizes : List ℕ) (i d e : ℕ) → i < length sizes → size_at sizes i d ≡ size_at sizes i e
unfolding size_at
size_at-in [] i d e h = elim h [ ]
size_at-in (s ∷ sizes) zero d e h = refl
size_at-in (s ∷ sizes) (suc i) d e h = size_at-in sizes i d e (omega arith)

size_at-out : (sizes : List ℕ) (d : ℕ) → size_at sizes (length sizes) d ≡ d
unfolding size_at
size_at-out [] d = refl
size_at-out (s ∷ sizes) d = size_at-out sizes d

pub allocation_capacity-le : (l : ℕ) → l ≤ allocation_capacity l
unfolding allocation_capacity bucket_index
allocation_capacity-le l = size_at-le buffer_sizes l

pub bucket_index-allocation_capacity :
    (l : ℕ) → bucket_index (allocation_capacity l) ≡ bucket_index l
unfolding allocation_capacity bucket_index
bucket_index-allocation_capacity l = bucket_from-size_at buffer_sizes l

-- The last bucket is that of the lengths above the largest fixed size.
pub bucket_index-last :
    (l : ℕ)
    → ((l ≤ max_fixed_buffer_bytes) × (bucket_index l < length buffer_sizes))
      ⊎ ((max_fixed_buffer_bytes < l) × (bucket_index l ≡ length buffer_sizes))
unfolding bucket_index bucket_from
bucket_index-last l = elim (dec_lt max_fixed_buffer_bytes l) [
  | no h ↦ inl (omega arith, ground arith)
  | yes h ↦ inr (h, ground arith)
]

pub allocation_capacity-large : (l : ℕ) → max_fixed_buffer_bytes < l → allocation_capacity l ≡ l
unfolding allocation_capacity
allocation_capacity-large l h = elim (bucket_index-last l) [
  | inl (k, i) ↦ absurd (omega arith)
  | inr (k, i) ↦ rw i (size_at-out buffer_sizes l)
]

-- Two lengths of a fixed bucket have one capacity.
pub allocation_capacity-same :
    (l k : ℕ)
    → bucket_index l ≡ bucket_index k
    → l ≤ max_fixed_buffer_bytes
    → (k ≤ max_fixed_buffer_bytes) × (allocation_capacity l ≡ allocation_capacity k)
unfolding allocation_capacity
allocation_capacity-same l k e h = elim (bucket_index-last l) [
  | inr (a, i) ↦ absurd (omega arith)
  | inl (a, i) ↦ (
    elim (bucket_index-last k) [ inl (b, j) ↦ b | inr (b, j) ↦ absurd (omega arith) ],
    rw e (size_at-in buffer_sizes (bucket_index k) l k (omega arith)),
  )
]
