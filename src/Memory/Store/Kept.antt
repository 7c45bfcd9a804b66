-- ===== src/Memory/Store/Kept.antt =====
-- What an insertion leaves of the whole cache: its books, and the objects of all keys.
use feuer.Base.{
  ℕ, zero, suc, ◌≤◌, ◌≡◌, ◌⊎◌, inl, inr, refl, sym, ap, ◌∙◌, List, [], ◌∷◌, Option, none, some,
  Bool, true, false, arith, length, get_elem?, set, get_elem?-set_ne, get_elem?-set_self,
  get_elem?-lt, length-set, ◌%◌, ℕ_discrete,
}
use mathlib.Core.Path.{subst}
use feuer.Memory.Store.{
  MemoryCache, shard_index, with_shard, after_insert, count_insert, insert_rounds, insert_object,
  get_object,
}
use feuer.Memory.Store.Shard.{
  InsertResult, MemoryCacheShard, Shared, RetentionScorer, get_bytes, try_insert, inserted,
  already_present, evicted_but_did_not_insert,
}
use feuer.Memory.Store.Loop.{Stored, kept_out, stored, insert_rounds-Done}
use feuer.Memory.Store.Interleaving.{CacheSound, own_shard, shard-Shares, with_shard-CacheSound}
use feuer.Memory.Store.Entries.{some_eq, some-none}
use feuer.Memory.Store.Books.{try_insert-Moved}
use feuer.Memory.Store.Objects.{insert-eq, get_object-eq, insert_object-get_object}

set-set : {A : Type 0} → (xs : List A) (i : ℕ) (a b : A) → set (set xs i a) i b ≡ set xs i b
set-set [] i a b = refl
set-set (x ∷ xs) zero a b = refl
set-set (x ∷ xs) (suc i) a b = ap (λ (l : List _). x ∷ l) (set-set xs i a b)

-- The books of a cache whose shard is what a loop leaves.
abbrev LeavesSound : MemoryCache → ℕ → Option (Bool × Bool × MemoryCacheShard × Shared) → Type 0
LeavesSound c i none = Unit
LeavesSound c i (some (answer, any, t, h)) = CacheSound (with_shard c i t h)

LeavesSound-after :
    (c : MemoryCache) (i : ℕ) (t : MemoryCacheShard) (h : Shared)
    (r : Option (Bool × Bool × MemoryCacheShard × Shared))
    → LeavesSound (with_shard c i t h) i r
    → LeavesSound c i r
LeavesSound-after c i t h none o = tt
LeavesSound-after c i t h (some (answer, any, u, k)) o =
    subst (λ (l : List MemoryCacheShard). CacheSound (record c { shards = l; shared = k }))
      (set-set c.shards i t u) o

module _ (scores : ℕ → RetentionScorer) (i key : ℕ) (bytes : List ℕ) (charge : ℕ) where
  -- A round after which the books are right leaves them right, if the rounds behind it do.
  round-LeavesSound :
      (fuel : ℕ) (c : MemoryCache) (s : MemoryCacheShard) (any : Bool) (r : InsertResult)
      (t : MemoryCacheShard) (h : Shared)
      → try_insert (scores fuel) c.reclaim_sample_size s c.shared key bytes charge ≡ some (r, t, h)
      → CacheSound (with_shard c i t h)
      → LeavesSound c i (insert_rounds fuel scores c.reclaim_sample_size t h key bytes charge true)
      → LeavesSound c i
          (insert_rounds (suc fuel) scores c.reclaim_sample_size s c.shared key bytes charge any)
  unfolding insert_rounds
  round-LeavesSound fuel c s any inserted t h f now rest = rw (f, insert_rounds) now
  round-LeavesSound fuel c s any already_present t h f now rest = rw (f, insert_rounds) now
  round-LeavesSound fuel c s any evicted_but_did_not_insert t h f now rest =
      rw (f, insert_rounds) rest

  rounds-CacheSound :
      (fuel : ℕ) (c : MemoryCache) (s : MemoryCacheShard) (any : Bool)
      → CacheSound c
      → get_elem? c.shards i ≡ some s
      → LeavesSound c i
          (insert_rounds fuel scores c.reclaim_sample_size s c.shared key bytes charge any)
  unfolding insert_rounds
  rounds-CacheSound zero c s any o at = tt
  rounds-CacheSound (suc fuel) c s any o at =
      let (r, t, h, f, m) =
        try_insert-Moved s c.shared (o.sound i s at) (shard-Shares c o i s at) (scores fuel)
          c.reclaim_sample_size key bytes charge o.some_size in
      let now = with_shard-CacheSound c o i s at t h m in
      let there = get_elem?-set_self c.shards i t (get_elem?-lt c.shards i s at) in
      round-LeavesSound fuel c s any r t h f now
        (LeavesSound-after c i t h _ (rounds-CacheSound fuel (with_shard c i t h) t true now there))

module _ (hash : ℕ → ℕ) (scores : ℕ → RetentionScorer) (c : MemoryCache) (key : ℕ) (bytes : List ℕ)
    (charge : ℕ) where
  -- An insertion keeps the books, and makes up no object.
  pub record Kept (d : MemoryCache) : Type 0 where
    pub sound : CacheSound d
    pub from_insert :
        (j : ℕ) (x : List ℕ)
        → get_object hash d j ≡ some x
        → (get_object hash c j ≡ some x) ⊎ ((j ≡ key) × (x ≡ bytes))

  shard-objects :
      (s t : MemoryCacheShard) (d : MemoryCache)
      → CacheSound c
      → get_elem? c.shards (shard_index hash c key) ≡ some s
      → d.shards ≡ set c.shards (shard_index hash c key) t
      → ((j : ℕ) (x : List ℕ)
          → get_bytes t j ≡ some x
          → (get_bytes s j ≡ some x) ⊎ ((j ≡ key) × (x ≡ bytes)))
      → (j : ℕ) (x : List ℕ) → get_object hash d j ≡ some x
      → (get_object hash c j ≡ some x) ⊎ ((j ≡ key) × (x ≡ bytes))
  shard-objects s t d o at q h j x g =
      let i = shard_index hash c key in
      let k = shard_index hash c j in
      let same : shard_index hash d j ≡ k =
        ap (λ (l : List MemoryCacheShard). hash j % length l) q
        ∙ ap (λ (n : ℕ). hash j % n) (length-set c.shards i t) in
      elim (ℕ_discrete i k) [
        | yes e ↦
            let there : get_elem? d.shards (shard_index hash d j) ≡ some t =
              ap (get_elem? d.shards) (same ∙ sym e)
              ∙ ap (λ (l : List MemoryCacheShard). get_elem? l i) q
              ∙ get_elem?-set_self c.shards i t (get_elem?-lt c.shards i s at) in
            elim (h j x (sym (get_object-eq hash d j t there) ∙ g)) [
              | inl old ↦
                  inl (get_object-eq hash c j s (ap (get_elem? c.shards) (sym e) ∙ at) ∙ old)
              | inr new ↦ inr new
            ]
        | no n ↦
            let (u, own) = own_shard hash c o j in
            let there : get_elem? d.shards (shard_index hash d j) ≡ some u =
              ap (get_elem? d.shards) same
              ∙ ap (λ (l : List MemoryCacheShard). get_elem? l k) q
              ∙ get_elem?-set_ne c.shards i k t n
              ∙ own in
            inl (get_object-eq hash c j u own ∙ sym (get_object-eq hash d j u there) ∙ g)
      ]

  Stored-objects :
      (s t : MemoryCacheShard)
      → Stored s key bytes charge t
      → (j : ℕ) (x : List ℕ) → get_bytes t j ≡ some x
      → (get_bytes s j ≡ some x) ⊎ ((j ≡ key) × (x ≡ bytes))
  Stored-objects s t d j x b = elim (ℕ_discrete key j) [
    | yes e ↦ inr (sym e, some_eq (sym b ∙ ap (get_bytes t) (sym e) ∙ d.there))
    | no n ↦ elim (d.others j n) [
      | inl q ↦ inl (sym q ∙ b)
      | inr q ↦ absurd (some-none (sym b ∙ q))
    ]
  ]

  after_insert-CacheSound :
      (any : Bool) (i : ℕ) (t : MemoryCacheShard) (h : Shared)
      → CacheSound (with_shard c i t h)
      → CacheSound (after_insert c i any t h)
  after_insert-CacheSound any i t h o = record {
    some_shard = o.some_shard;
    some_size = o.some_size;
    sound = o.sound;
    balanced = o.balanced;
    budget = o.budget;
    used = o.used;
    entries = o.entries;
  }

  abbrev cache_of : Option (Bool × MemoryCache) → MemoryCache
  cache_of none = c
  cache_of (some (answer, d)) = d

  insert-Kept :
      (o : CacheSound c)
      → length bytes ≤ charge
      → (answer : Bool) × (d : MemoryCache) × (insert_object hash scores c key bytes charge
          ≡ some (answer, d))
        × Kept d
  insert-Kept o h =
      let (s, at) = own_shard hash c o key in
      let i = shard_index hash c key in
      let fuel = suc (length s.eviction_candidates) in
      let sound = rounds-CacheSound scores i key bytes charge fuel c s false o at in
      elim (insert_rounds-Done scores c.reclaim_sample_size key bytes charge o.some_size fuel s
        c.shared false (o.sound i s at) (omega arith)) [
          | kept_out e any g p f ↦ (
            false,
            after_insert c i any s g,
            insert-eq hash scores c key bytes charge s h at ∙ ap (count_insert c i) f,
            record {
              sound = after_insert-CacheSound any i s g (subst (LeavesSound c i) f sound);
              from_insert = shard-objects s s (after_insert c i any s g) o at refl (λ j x b. inl b);
            },
          )
          | stored any t g p f d ↦ (
            true,
            after_insert c i any t g,
            insert-eq hash scores c key bytes charge s h at ∙ ap (count_insert c i) f,
            record {
              sound = after_insert-CacheSound any i t g (subst (LeavesSound c i) f sound);
              from_insert =
                  shard-objects s t (after_insert c i any t g) o at refl
                    (λ j x b. Stored-objects s t d j x b);
            },
          )
        ]

  pair_eq :
      (r : Option (Bool × MemoryCache)) (a b : Bool) (d e : MemoryCache)
      → r ≡ some (a, d)
      → r ≡ some (b, e)
      → d ≡ e
  pair_eq r a b d e p q = ap cache_of (sym p ∙ q)

  -- On a sound cache and without other calls, an insertion whose charge covers the payload does not
  -- panic, keeps the books, and makes up no object; then the key has its old object or the new one.
  pub insert_object-Kept :
      CacheSound c
      → length bytes ≤ charge
      → (answer : Bool) × (d : MemoryCache) × (insert_object hash scores c key bytes charge
          ≡ some (answer, d))
        × Kept d
        × (((answer ≡ true) × (get_object hash c key ≡ none) × (get_object hash d key ≡ some bytes))
            ⊎ ((answer ≡ false)
                × ((old : List ℕ) × (get_object hash c key ≡ some old)
                    × (get_object hash d key ≡ some old))))
  insert_object-Kept o h =
      let (a, d, p, after) = insert_object-get_object hash scores c key bytes charge o h in
      let (b, e, q, kept) = insert-Kept o h in
      (
        a,
        d,
        p,
        subst Kept (pair_eq (insert_object hash scores c key bytes charge) b a e d q p) kept,
        after,
      )
