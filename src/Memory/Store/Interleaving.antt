-- ===== src/Memory/Store/Interleaving.antt =====
-- Calls of any number of threads: each attempt of an insertion and each removal holds the lock of its
-- shard, so any order of them is a history.
use feuer.Base.{
  ℕ, zero, suc, ◌+◌, ◌-◌, ◌≤◌, ◌<◌, ◌≡◌, refl, sym, ap, ◌∙◌, List, [], ◌∷◌, Option, none, some,
  Bool, arith, length, get_elem?, set, sum, map, sum-set, map-set, get_elem?-map,
  get_elem?-set_self, get_elem?-set_ne, get_elem?-lt, get_elem?-in, length-set, ℕ_discrete,
}
use native.Mathlib.Nat.{mod-lt}
use mathlib.Core.Path.{subst}
use feuer.Memory.Buffer.{new_pool}
use feuer.Memory.Buffer.Budget.{Balanced}
use feuer.Memory.Buffer.History.{start-IsSound}
use feuer.Memory.Store.{
  MemoryCache, shard_index, with_shard, removed_from, new_cache, shards_from, shard_capacity_for,
}
use feuer.Memory.Store.Shard.{
  InsertResult, MemoryCacheShard, Shared, RetentionScorer, new_shard, try_insert, remove_key,
}
use feuer.Memory.Store.Entries.{IsSound, some_eq, new_shard-IsSound}
use feuer.Memory.Store.Books.{Shares, Moved, try_insert-Moved, remove_key-Moved}

-- An attempt carries the scores of its time.
pub data Call : Type 0 where
  attempt : RetentionScorer → ℕ → List ℕ → ℕ → Call
  remove : ℕ → Call

abbrev pub attempted :
    MemoryCache → ℕ → Option (InsertResult × MemoryCacheShard × Shared) → Option MemoryCache
attempted c i none = none
attempted c i (some (_, s, g)) = some (with_shard c i s g)

abbrev pub without_answer : Option (Bool × MemoryCache) → Option MemoryCache
without_answer none = none
without_answer (some (_, c)) = some c

unfoldable pub step : (ℕ → ℕ) → MemoryCache → Call → Option MemoryCache
step hash c (attempt score key bytes charge) = elim (get_elem? c.shards (shard_index hash c key)) [
  | none ↦ none
  | some s ↦
      attempted c (shard_index hash c key)
        (try_insert score c.reclaim_sample_size s c.shared key bytes charge)
]
step hash c (remove key) = elim (get_elem? c.shards (shard_index hash c key)) [
  | none ↦ none
  | some s ↦ without_answer (removed_from c (shard_index hash c key) (remove_key s c.shared key))
]

unfoldable pub run : (ℕ → ℕ) → MemoryCache → List Call → Option MemoryCache
run hash c [] = some c
run hash c (d ∷ ds) = elim (step hash c d) [ none ↦ none | some e ↦ run hash e ds ]

abbrev pub used_of : MemoryCacheShard → ℕ
used_of s = s.used_bytes

abbrev pub count_of : MemoryCacheShard → ℕ
count_of s = length s.eviction_candidates

-- Each shard is sound, the pool is balanced within its budget, and the totals are the shards' sums.
pub record CacheSound (c : MemoryCache) : Type 0 where
  pub some_shard : 0 < length c.shards
  pub some_size : 0 < c.reclaim_sample_size
  pub sound : (i : ℕ) (s : MemoryCacheShard) → get_elem? c.shards i ≡ some s → IsSound s
  pub balanced : Balanced c.shared.buffer_pool
  pub budget :
      c.shared.buffer_pool.idle_bytes
      ≤ c.shared.buffer_pool.capacity - c.shared.buffer_pool.used_bytes
  pub used : c.shared.buffer_pool.used_bytes ≡ sum (map used_of c.shards)
  pub entries : c.shared.metrics.entries ≡ sum (map count_of c.shards)

sum-at : (ns : List ℕ) (i n : ℕ) → get_elem? ns i ≡ some n → n ≤ sum ns
sum-at [] i n e = absurd (ground arith)
sum-at (x ∷ xs) zero n e = ground arith
sum-at (x ∷ xs) (suc i) n e = omega (arith, sum-at xs i n e)

module _ (c : MemoryCache) (o : CacheSound c) (i : ℕ) (s : MemoryCacheShard)
    (at : get_elem? c.shards i ≡ some s) where
  pub shard-Shares : Shares s c.shared
  shard-Shares = record {
    balanced = o.balanced;
    budget = o.budget;
    used = omega (
      arith,
      o.used,
      sum-at (map used_of c.shards) i (used_of s) (get_elem?-map used_of c.shards i s at),
    );
    entries = omega (
      arith,
      o.entries,
      sum-at (map count_of c.shards) i (count_of s) (get_elem?-map count_of c.shards i s at),
    );
  }

  summed :
      (f : MemoryCacheShard → ℕ) (t : MemoryCacheShard)
      → sum (map f (set c.shards i t)) + f s ≡ sum (map f c.shards) + f t
  summed f t =
      rw (map-set f c.shards i t)
        (sum-set (map f c.shards) i (f s) (f t) (get_elem?-map f c.shards i s at))

  IsSound-after :
      (t : MemoryCacheShard)
      → IsSound t
      → (j : ℕ) (u : MemoryCacheShard) → get_elem? (set c.shards i t) j ≡ some u
      → IsSound u
  IsSound-after t h j u e = elim (ℕ_discrete i j) [
    | yes k ↦
        subst IsSound
          (some_eq (
            sym (get_elem?-set_self c.shards i t (get_elem?-lt c.shards i s at))
            ∙ ap (get_elem? (set c.shards i t)) k
            ∙ e))
          h
    | no k ↦ o.sound j u (sym (get_elem?-set_ne c.shards i j t k) ∙ e)
  ]

  pub with_shard-CacheSound :
      (t : MemoryCacheShard) (h : Shared) → Moved s c.shared t h → CacheSound (with_shard c i t h)
  with_shard-CacheSound t h m = record {
    some_shard = omega (arith, length-set c.shards i t, o.some_shard);
    some_size = o.some_size;
    sound = IsSound-after t m.sound;
    balanced = m.balanced;
    budget = m.budget;
    used = omega (arith, m.used, o.used, summed used_of t);
    entries = omega (arith, m.entries, o.entries, summed count_of t);
  }

module _ (hash : ℕ → ℕ) (c : MemoryCache) (o : CacheSound c) where
  pub own_shard :
      (key : ℕ) → (s : MemoryCacheShard) × (get_elem? c.shards (shard_index hash c key) ≡ some s)
  own_shard key = get_elem?-in c.shards (shard_index hash c key) (mod-lt (hash key) o.some_shard)

  attempt-eq :
      (score : RetentionScorer) (key : ℕ) (bytes : List ℕ) (charge : ℕ) (s : MemoryCacheShard)
      → get_elem? c.shards (shard_index hash c key) ≡ some s
      → step hash c (attempt score key bytes charge)
        ≡ attempted c
            (shard_index hash c key)
            (try_insert score c.reclaim_sample_size s c.shared key bytes charge)
  unfolding step
  attempt-eq score key bytes charge s e = rw (e, step) refl

  remove-eq :
      (key : ℕ) (s : MemoryCacheShard)
      → get_elem? c.shards (shard_index hash c key) ≡ some s
      → step hash c (remove key)
        ≡ without_answer (removed_from c (shard_index hash c key) (remove_key s c.shared key))
  unfolding step
  remove-eq key s e = rw (e, step) refl

  step-CacheSound : (d : Call) → (e : MemoryCache) × (step hash c d ≡ some e) × CacheSound e
  step-CacheSound (attempt score key bytes charge) =
      let (s, at) = own_shard key in
      let i = shard_index hash c key in
      let (r, t, h, f, m) =
        try_insert-Moved s c.shared (o.sound i s at) (shard-Shares c o i s at) score
          c.reclaim_sample_size key bytes charge o.some_size in
      (
        with_shard c i t h,
        attempt-eq score key bytes charge s at ∙ ap (attempted c i) f,
        with_shard-CacheSound c o i s at t h m,
      )
  step-CacheSound (remove key) =
      let (s, at) = own_shard key in
      let i = shard_index hash c key in
      let (r, t, h, f, m) =
        remove_key-Moved s c.shared (o.sound i s at) (shard-Shares c o i s at) key in
      (
        with_shard c i t h,
        remove-eq key s at
            ∙ ap
                (λ (x : Option (Bool × MemoryCacheShard × Shared)).
                  without_answer (removed_from c i x))
                f,
        with_shard-CacheSound c o i s at t h m,
      )

run-CacheSound :
    (hash : ℕ → ℕ) (c : MemoryCache) (ds : List Call)
    → CacheSound c
    → (e : MemoryCache) × (run hash c ds ≡ some e) × CacheSound e
unfolding run
run-CacheSound hash c [] o = (c, refl, o)
run-CacheSound hash c (d ∷ ds) o =
    let (e, f, p) = step-CacheSound hash c o d in
    let (u, g, q) = run-CacheSound hash e ds p in (u, rw (f, run) g, q)

new_at :
    (total n start k i : ℕ) (s : MemoryCacheShard)
    → get_elem? (shards_from total n start k) i ≡ some s
    → IsSound s
unfolding shards_from
new_at total n start zero i s e = absurd (ground arith)
new_at total n start (suc k) zero s e =
    subst IsSound (some_eq e) (new_shard-IsSound (shard_capacity_for total n start))
new_at total n start (suc k) (suc i) s e = new_at total n (suc start) k i s e

length-shards_from : (total n start k : ℕ) → length (shards_from total n start k) ≡ k
unfolding shards_from
length-shards_from total n start zero = refl
length-shards_from total n start (suc k) = ap suc (length-shards_from total n (suc start) k)

sum-shards_from :
    (f : MemoryCacheShard → ℕ) (total n start k : ℕ)
    → ((capacity : ℕ) → f (new_shard capacity) ≡ 0)
    → sum (map f (shards_from total n start k)) ≡ 0
unfolding shards_from
sum-shards_from f total n start zero h = refl
sum-shards_from f total n start (suc k) h =
    omega (arith, h (shard_capacity_for total n start), sum-shards_from f total n (suc start) k h)

pub new_cache-CacheSound : (capacity n : ℕ) → 0 < n → CacheSound (new_cache capacity n)
unfolding new_cache new_shard new_pool
new_cache-CacheSound capacity n h =
    let pool = start-IsSound capacity in
    record {
      some_shard = omega (arith, length-shards_from capacity n 0 n);
      some_size = omega arith;
      sound = λ i s e. new_at capacity n 0 n i s e;
      balanced = pool.balanced;
      budget = omega arith;
      used = sym (sum-shards_from used_of capacity n 0 n (λ c. refl));
      entries = sym (sum-shards_from count_of capacity n 0 n (λ c. refl));
    }

-- On a new cache with some shards, no attempt to insert and no removal panics, in any order, for any
-- hash and scores. Afterwards the candidates of each shard are the keys of its entries, each at its
-- index; its used bytes are their charges; the pool's used bytes and the gauge of the entries are the
-- sums over the shards; and the idle buffers fit beside the charges.
pub run-new_cache-CacheSound :
    (hash : ℕ → ℕ) (capacity n : ℕ) (ds : List Call)
    → 0 < n
    → (e : MemoryCache) × (run hash (new_cache capacity n) ds ≡ some e) × CacheSound e
run-new_cache-CacheSound hash capacity n ds h =
    run-CacheSound hash (new_cache capacity n) ds (new_cache-CacheSound capacity n h)
