-- ===== src/Cache/Tiers.antt =====
-- The two tiers of feuer/src/cache.rs: the memory cache of feuer-memory/src/store.rs and the disk
-- cache of feuer-storage/src/disk_cache.rs, and what callers get over them.
use feuer.Base.{ℕ, ◌≤◌, ◌≡◌, List, some, Bool, arith, length, max}
use feuer.Memory.Store.{MemoryCache, insert_object, get_object}
use feuer.Memory.Store.Shard.{RetentionScorer}
use feuer.Memory.Store.Interleaving.{CacheSound}
use feuer.Memory.Store.Kept.{insert_object-Kept}
use feuer.Storage.Lookup
use feuer.Storage.Lookup.{DiskCache}
use feuer.Storage.Lookup.Kept.{Keeps, get_with_fallthrough-IsLookup, enqueue-Keeps}
use feuer.Cache.{MemoryTier, DiskTier, CacheInner, Others}
use feuer.Cache.Coherence.{IsCoherent}
use feuer.Cache.Answers.{Request, IsServed, serve_requests, AreAnswers, serve_requests-AreAnswers}

-- A memory cache with its books in order, and the scores that the next insertion computes, which may
-- be others after each wait.
pub record SoundCache : Type 0 where
  pub cache : MemoryCache
  pub cache_CacheSound : CacheSound cache
  pub scores : ℕ → RetentionScorer

-- A charge is the length of the bytes or the capacity of the buffer around them, so it covers them.
abbrev pub covering : List ℕ → ℕ → ℕ
covering bytes charge = max (length bytes) charge

module _ (hash : ℕ → ℕ) where
  pub covered : (bytes : List ℕ) (charge : ℕ) → length bytes ≤ covering bytes charge
  covered bytes charge = ground arith

  -- The answer and the cache of the call that does not panic.
  abbrev pub insert_sound : SoundCache → ℕ → List ℕ → ℕ → Bool × SoundCache
  insert_sound m key bytes charge =
      let (answer, d, p, k, after) =
        insert_object-Kept hash m.scores m.cache key bytes (covering bytes charge)
          m.cache_CacheSound (covered bytes charge) in
      (answer, record { cache = d; cache_CacheSound = k.sound; scores = m.scores })

  pub insert_sound-insert_object :
      (m : SoundCache) (key : ℕ) (bytes : List ℕ) (charge : ℕ)
      → insert_object hash m.scores m.cache key bytes (covering bytes charge)
        ≡ some ((insert_sound m key bytes charge).0, (insert_sound m key bytes charge).1.cache)
  insert_sound-insert_object m key bytes charge =
      let (answer, d, p, k, after) =
        insert_object-Kept hash m.scores m.cache key bytes (covering bytes charge)
          m.cache_CacheSound (covered bytes charge) in
      p

  abbrev pub memory_tier : MemoryTier
  memory_tier = record {
    Memory = SoundCache;
    object_bytes = λ m key. get_object hash m.cache key;
    insert_bytes = insert_sound;
    from_insert = λ m key bytes charge j x e.
        let (answer, d, p, k, after) =
          insert_object-Kept hash m.scores m.cache key bytes (covering bytes charge)
            m.cache_CacheSound (covered bytes charge) in
        k.from_insert j x e;
    after_insertion = λ m key bytes charge.
        let (answer, d, p, k, after) =
          insert_object-Kept hash m.scores m.cache key bytes (covering bytes charge)
            m.cache_CacheSound (covered bytes charge) in
        after;
  }

module _ (checksum : List ℕ → ℕ) where
  abbrev pub disk_tier : DiskTier
  disk_tier = record {
    Disk = DiskCache;
    Keeps = Keeps checksum;
    get_with_fallthrough = λ d key decision.
        let l = Lookup.get_with_fallthrough checksum d key decision in
        record { found = l.found; fell_through = l.fell_through; disk = l.disk };
    contains = Lookup.contains;
    enqueue = Lookup.enqueue_if_space_available;
    gives_kept = λ d key decision bytes capacity e.
        (get_with_fallthrough-IsLookup checksum d key decision).gives bytes capacity e;
    read_keeps =
        λ d key decision j x k. (get_with_fallthrough-IsLookup checksum d key decision).keeps j x k;
    enqueue_keeps = enqueue-Keeps checksum;
  }

module _ (hash : ℕ → ℕ) (checksum : List ℕ → ℕ) where
  -- Let the memory cache and the disk cache, with its queue, its buffers, its file and the reads that
  -- are shared, hold nothing but objects of the source, let the source give its objects or fail, and let
  -- other calls leave nothing else in the caches. Then calls are answered as the source would: a fetch
  -- with the object or an error of a callback, a lookup with the object or with nothing.
  pub serve_caches-AreAnswers :
      (source : ℕ → List ℕ) (others : ℕ → Others (memory_tier hash) (disk_tier checksum))
      (c : CacheInner SoundCache DiskCache) (rs : List Request)
      → ((n i : ℕ) (e : CacheInner SoundCache DiskCache)
          → IsCoherent (memory_tier hash) (disk_tier checksum) source e
          → IsCoherent (memory_tier hash) (disk_tier checksum) source (others n i e))
      → IsCoherent (memory_tier hash) (disk_tier checksum) source c
      → IsServed source rs
      → AreAnswers source rs (serve_requests (memory_tier hash) (disk_tier checksum) others c rs)
  serve_caches-AreAnswers source others c rs =
      serve_requests-AreAnswers (memory_tier hash) (disk_tier checksum) source others c rs
