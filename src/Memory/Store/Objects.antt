-- ===== src/Memory/Store/Objects.antt =====
-- `insert` and `get` of the whole cache.
use feuer.Base.{
  ℕ, suc, ◌≤◌, ◌<◌, ◌≡◌, ◌⊎◌, inl, inr, refl, ap, ◌∙◌, List, none, some, Bool, true, false, arith,
  length, get_elem?, set, le→leb, lt→leb, get_elem?-set_self, get_elem?-lt, length-set,
}
use feuer.Memory.Store.{
  MemoryCache, shard_index, after_insert, count_insert, insert_rounds, insert_object, get_object,
}
use feuer.Memory.Store.Shard.{MemoryCacheShard, RetentionScorer, get_bytes, payload_of}
use feuer.Memory.Store.Loop.{kept_out, stored, insert_rounds-Done}
use feuer.Memory.Store.Interleaving.{CacheSound, own_shard}

module _ (hash : ℕ → ℕ) (c : MemoryCache) (key : ℕ) where
  pub get_object-eq :
      (s : MemoryCacheShard)
      → get_elem? c.shards (shard_index hash c key) ≡ some s
      → get_object hash c key ≡ get_bytes s key
  unfolding get_object
  get_object-eq s e = rw (e, get_object) refl

module _ (hash : ℕ → ℕ) (scores : ℕ → RetentionScorer) (c : MemoryCache) (key : ℕ) (bytes : List ℕ)
    (charge : ℕ) where
  pub insert-eq :
      (s : MemoryCacheShard)
      → length bytes ≤ charge
      → get_elem? c.shards (shard_index hash c key) ≡ some s
      → insert_object hash scores c key bytes charge
        ≡ count_insert c (shard_index hash c key) (
            insert_rounds
              (suc (length s.eviction_candidates))
              scores
              c.reclaim_sample_size
              s
              c.shared
              key
              bytes
              charge
              false)
  unfolding insert_object
  insert-eq s h e = rw (le→leb (length bytes) charge h, e, insert_object) refl

  -- An object whose charge is less than its length panics.
  insert-panics : charge < length bytes → insert_object hash scores c key bytes charge ≡ none
  unfolding insert_object
  insert-panics h = rw (lt→leb charge (length bytes) h) refl

  pub put_back :
      (s t : MemoryCacheShard) (d : MemoryCache)
      → get_elem? c.shards (shard_index hash c key) ≡ some s
      → d.shards ≡ set c.shards (shard_index hash c key) t
      → get_elem? d.shards (shard_index hash d key) ≡ some t
  put_back s t d e f =
      let i = shard_index hash c key in
      rw (f, length-set c.shards i t)
        (get_elem?-set_self c.shards i t (get_elem?-lt c.shards i s e))

  -- On a sound cache and without other calls, an insertion whose charge covers the payload ends without
  -- a panic, and then the cache has an object under the key: the one that was there, and the answer is
  -- false, or the new one, and the answer is true.
  pub insert_object-get_object :
      CacheSound c
      → length bytes ≤ charge
      → (answer : Bool) × (d : MemoryCache) × (insert_object hash scores c key bytes charge
          ≡ some (answer, d))
        × (((answer ≡ true) × (get_object hash c key ≡ none) × (get_object hash d key ≡ some bytes))
            ⊎ ((answer ≡ false)
                × ((old : List ℕ) × (get_object hash c key ≡ some old)
                    × (get_object hash d key ≡ some old))))
  unfolding get_bytes
  insert_object-get_object o h =
      let (s, at) = own_shard hash c o key in
      let i = shard_index hash c key in
      elim (insert_rounds-Done scores c.reclaim_sample_size key bytes charge o.some_size
        (suc (length s.eviction_candidates)) s c.shared false (o.sound i s at) (omega arith)) [
          | kept_out e any g p f ↦ (
            false,
            after_insert c i any s g,
            insert-eq s h at ∙ ap (count_insert c i) f,
            inr (
              refl,
              (
                e.bytes,
                get_object-eq hash c key s at ∙ ap payload_of p,
                get_object-eq hash (after_insert c i any s g) key s
                      (put_back s s (after_insert c i any s g) at refl)
                    ∙ ap payload_of p,
              ),
            ),
          )
          | stored any t g p f d ↦ (
            true,
            after_insert c i any t g,
            insert-eq s h at ∙ ap (count_insert c i) f,
            inl (
              refl,
              get_object-eq hash c key s at ∙ ap payload_of p,
              get_object-eq hash (after_insert c i any t g) key t
                    (put_back s t (after_insert c i any t g) at refl)
                  ∙ d.there,
            ),
          )
        ]
