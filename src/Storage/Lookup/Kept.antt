-- ===== src/Storage/Lookup/Kept.antt =====
-- What lookups and queued writes leave of the objects that a disk cache holds.
use mathlib.Core.Path.{subst}
use feuer.Base.{
  ℕ, ◌%◌, ◌≡◌, ◌⊎◌, inl, inr, refl, sym, ap, ◌∙◌, List, [], ◌∷◌, ◌++◌, Option, none, some, Bool,
  true, false, ◌&&◌, ◌==◌, if◌then◌else◌, ==_iff, leb, arith, length, Bool-cases, Option-cases,
}
use feuer.Storage.Io.Pieces.{bytes_from}
use feuer.Storage.Io.DataFile.Contents.{read_payload-exact}
use feuer.Storage.Lookup.{
  DiskLookupOutcome, hit, absent, io_error, checksum_failed, fallthrough, read_bytes, read_failed,
  DiskEntry, DiskCacheShard, DiskCache, get_buffered, shard_of, unlocked_bytes, verified,
  read_and_verify_payload, remove_entry_from_index, after_read, lookup_missed, lookup_result,
  lookup_entry, get_with_fallthrough, max_queued_entries, record_queue, send, DiskWriteQueueOutcome,
  closed, full, enqueue_if_space_available,
}

none-some : {A : Type 0} {x : A} → none ≡ some x → ⊥
none-some h = ground arith

abbrev pub Queued : ℕ → List ℕ → List (ℕ × List ℕ) → Type 0
Queued j x [] = ⊥
Queued j x ((key, bytes) ∷ q) = ((j ≡ key) × (x ≡ bytes)) ⊎ Queued j x q

Queued-append :
    (j : ℕ) (x : List ℕ) (q : List (ℕ × List ℕ)) (key : ℕ) (bytes : List ℕ)
    → Queued j x (q ++ ((key, bytes) ∷ []))
    → Queued j x q ⊎ ((j ≡ key) × (x ≡ bytes))
Queued-append j x [] key bytes (inl h) = inr h
Queued-append j x [] key bytes (inr h) = elim h [ ]
Queued-append j x (p ∷ q) key bytes (inl h) = inl (inl h)
Queued-append j x (p ∷ q) key bytes (inr h) = elim (Queued-append j x q key bytes h) [
  | inl a ↦ inl (inr a)
  | inr a ↦ inr a
]

module _ (checksum : List ℕ → ℕ) where
  -- Bytes that a cache has for a key: in its queue, its buffer, a read that callers share, or the file,
  -- where they have the checksum of the entry.
  pub data Keeps (c : DiskCache) (j : ℕ) (x : List ℕ) : Type 0 where
    in_queue : Queued j x c.queued_writes → Keeps c j x
    in_buffer : get_buffered (shard_of c j).small_entry_buffer j ≡ some x → Keeps c j x
    in_read :
        (e : DiskEntry) (capacity : ℕ)
        → (shard_of c j).entries_by_key j ≡ some e
        → e.shared_read ≡ some (read_bytes x capacity)
        → Keeps c j x
    in_file :
        (e : DiskEntry)
        → (shard_of c j).entries_by_key j ≡ some e
        → x ≡ bytes_from c.file e.payload_address e.payload_len
        → checksum x ≡ e.payload_checksum
        → Keeps c j x

  -- A cache with the queue, the buffers and the file of another and no other index entries.
  record Within (d c : DiskCache) : Type 0 where
    queue : d.queued_writes ≡ c.queued_writes
    buffers :
        (j : ℕ)
        → get_buffered (shard_of d j).small_entry_buffer j
          ≡ get_buffered (shard_of c j).small_entry_buffer j
    entries :
        (j : ℕ) (e : DiskEntry)
        → (shard_of d j).entries_by_key j ≡ some e
        → (shard_of c j).entries_by_key j ≡ some e
    file : d.file ≡ c.file

  Within-Keeps : (d c : DiskCache) → Within d c → (j : ℕ) (x : List ℕ) → Keeps d j x → Keeps c j x
  Within-Keeps d c w j x (in_queue q) = in_queue (rw w.queue at q)
  Within-Keeps d c w j x (in_buffer q) = in_buffer (sym (w.buffers j) ∙ q)
  Within-Keeps d c w j x (in_read e capacity p q) = in_read e capacity (w.entries j e p) q
  Within-Keeps d c w j x (in_file e p q r) =
      in_file e (w.entries j e p)
        (q ∙ ap (λ (f : ℕ → ℕ). bytes_from f e.payload_address e.payload_len) w.file) r

  Within-same :
      (c : DiskCache) (lookups : List DiskLookupOutcome) → Within (record c { lookups = lookups }) c
  Within-same c lookups = record {
    queue = refl;
    buffers = λ j. refl;
    entries = λ j e h. h;
    file = refl;
  }

  removed-buffers :
      (c : DiskCache) (key j : ℕ)
      → get_buffered (shard_of (remove_entry_from_index c key) j).small_entry_buffer j
        ≡ get_buffered (shard_of c j).small_entry_buffer j
  removed-buffers c key j = elim (Bool-cases ((j % c.shard_count) == (key % c.shard_count))) [
    | inl e ↦ rw e refl
    | inr e ↦ rw e refl
  ]

  removed-entries :
      (c : DiskCache) (key j : ℕ) (e : DiskEntry)
      → (shard_of (remove_entry_from_index c key) j).entries_by_key j ≡ some e
      → (shard_of c j).entries_by_key j ≡ some e
  removed-entries c key j e h = elim (Bool-cases ((j % c.shard_count) == (key % c.shard_count))) [
    | inl q ↦ elim (Bool-cases (j == key)) [
      | inl k ↦ absurd (none-some (rw (q, k) at h))
      | inr k ↦ rw (q, k) at h
    ]
    | inr q ↦ rw q at h
  ]

  Within-removed : (c : DiskCache) (key : ℕ) → Within (remove_entry_from_index c key) c
  Within-removed c key = record {
    queue = refl;
    buffers = removed-buffers c key;
    entries = removed-entries c key;
    file = refl;
  }

  -- What a lookup answers is kept, and it adds nothing.
  pub record IsLookup (c : DiskCache) (key : ℕ) (found : Option (List ℕ × ℕ)) (d : DiskCache)
      : Type 0 where
    pub gives : (bytes : List ℕ) (capacity : ℕ) → found ≡ some (bytes, capacity) → Keeps c key bytes
    pub keeps : (j : ℕ) (x : List ℕ) → Keeps d j x → Keeps c j x

  missed-IsLookup :
      (c d : DiskCache) (key : ℕ) (fell_through : Bool) (outcome : DiskLookupOutcome)
      → Within d c
      → (let l = lookup_missed d fell_through outcome in IsLookup c key l.found l.disk)
  missed-IsLookup c d key fell_through outcome w = record {
    gives = λ bytes capacity h. absurd (none-some h);
    keeps = λ j x h.
        Within-Keeps d c w j x
          (Within-Keeps (record d { lookups = outcome ∷ d.lookups }) d (Within-same d _) j x h);
  }

  some_pair :
      (a b : List ℕ) (m n : ℕ)
      → (let left : Option (List ℕ × ℕ) = some (a, m) in
          let right : Option (List ℕ × ℕ) = some (b, n) in left ≡ right → a ≡ b)
  some_pair a b m n h = ground arith

  found-IsLookup :
      (c : DiskCache) (key : ℕ) (bytes : List ℕ) (capacity : ℕ)
      → Keeps c key bytes
      → (let l = lookup_result c (read_bytes bytes capacity) in IsLookup c key l.found l.disk)
  found-IsLookup c key bytes capacity k = record {
    gives = λ b n h. subst (Keeps c key) (some_pair bytes b capacity n h) k;
    keeps =
        λ j x h. Within-Keeps (record c { lookups = hit ∷ c.lookups }) c (Within-same c _) j x h;
  }

  after_read-IsLookup :
      (c : DiskCache) (key : ℕ) (outcome : DiskLookupOutcome)
      → (let l = lookup_result (after_read c key (read_failed outcome)) (read_failed outcome) in
          IsLookup c key l.found l.disk)
  after_read-IsLookup c key hit = missed-IsLookup c c key false hit (Within-same c _)
  after_read-IsLookup c key absent = missed-IsLookup c c key false absent (Within-same c _)
  after_read-IsLookup c key io_error = missed-IsLookup c c key false io_error (Within-same c _)
  after_read-IsLookup c key fallthrough =
      missed-IsLookup c c key false fallthrough (Within-same c _)
  after_read-IsLookup c key checksum_failed =
      missed-IsLookup c (remove_entry_from_index c key) key false checksum_failed
        (Within-removed c key)

  read-IsLookup :
      (c : DiskCache) (key : ℕ) (e : DiskEntry)
      → (shard_of c key).entries_by_key key ≡ some e
      → (let result = read_and_verify_payload checksum c e in
          let l = lookup_result (after_read c key result) result in IsLookup c key l.found l.disk)
  unfolding verified
  read-IsLookup c key e p =
      elim (read_payload-exact c.kernel c.file c.allocated e.payload_address e.payload_len
        c.kernel_IsHonest) [
          | inl (x, q) ↦ rw (q, verified) (after_read-IsLookup c key io_error)
          | inr (capacity, a, q) ↦
              let bytes = bytes_from c.file e.payload_address e.payload_len in
              elim (Bool-cases (checksum bytes == e.payload_checksum)) [
                | inl s ↦
                    rw (q, verified, s)
                      (found-IsLookup c key bytes capacity (in_file e p refl ((==_iff _ _).0 s)))
                | inr s ↦ rw (q, verified, s) (after_read-IsLookup c key checksum_failed)
              ]
        ]

  entry-IsLookup :
      (c : DiskCache) (key : ℕ) (decision : Bool) (e : DiskEntry)
      → (shard_of c key).entries_by_key key ≡ some e
      → (let l = lookup_entry checksum c key decision e in IsLookup c key l.found l.disk)
  unfolding lookup_entry
  entry-IsLookup c key decision e p = elim (Option-cases e.shared_read) [
    | inl q ↦ elim (Bool-cases (c.fallthrough_scheduled && decision)) [
      | inl f ↦ rw (q, f, lookup_entry) (missed-IsLookup c c key true fallthrough (Within-same c _))
      | inr f ↦ rw (q, f, lookup_entry) (read-IsLookup c key e p)
    ]
    | inr (read_bytes bytes capacity, q) ↦
        rw (q, lookup_entry) (found-IsLookup c key bytes capacity (in_read e capacity p q))
    | inr (read_failed outcome, q) ↦
        rw (q, lookup_entry) (missed-IsLookup c c key false outcome (Within-same c _))
  ]

  unlocked-buffered :
      (s : DiskCacheShard) (key : ℕ) (bytes : List ℕ)
      → unlocked_bytes s key ≡ some bytes
      → get_buffered s.small_entry_buffer key ≡ some bytes
  unlocked-buffered s key bytes h = elim (Bool-cases s.buffer_is_locked) [
    | inl l ↦ absurd (none-some (rw l at h))
    | inr l ↦ rw l at h
  ]

  -- What a lookup gives is in the cache, and a lookup, which may remove an entry, adds nothing to it.
  pub get_with_fallthrough-IsLookup :
      (c : DiskCache) (key : ℕ) (decision : Bool)
      → (let l = get_with_fallthrough checksum c key decision in IsLookup c key l.found l.disk)
  unfolding get_with_fallthrough
  get_with_fallthrough-IsLookup c key decision =
      elim (Option-cases (unlocked_bytes (shard_of c key) key)) [
        | inr (bytes, q) ↦
            rw (q, get_with_fallthrough)
              (found-IsLookup c key bytes (length bytes)
                (in_buffer (unlocked-buffered (shard_of c key) key bytes q)))
        | inl q ↦ elim (Option-cases ((shard_of c key).entries_by_key key)) [
          | inl p ↦
              rw (q, p, get_with_fallthrough)
                (missed-IsLookup c c key false absent (Within-same c _))
          | inr (e, p) ↦ rw (q, p, get_with_fallthrough) (entry-IsLookup c key decision e p)
        ]
      ]

  sent-Keeps :
      (c : DiskCache) (key : ℕ) (bytes : List ℕ) (j : ℕ) (x : List ℕ)
      → Keeps (send c key bytes) j x
      → Keeps c j x ⊎ ((j ≡ key) × (x ≡ bytes))
  sent-Keeps c key bytes j x (in_queue h) = elim (Queued-append j x c.queued_writes key bytes h) [
    | inl old ↦ inl (in_queue old)
    | inr new ↦ inr new
  ]
  sent-Keeps c key bytes j x (in_buffer h) = inl (in_buffer h)
  sent-Keeps c key bytes j x (in_read e n p h) = inl (in_read e n p h)
  sent-Keeps c key bytes j x (in_file e p h s) = inl (in_file e p h s)

  unsent-Within :
      (c : DiskCache) (outcome : DiskWriteQueueOutcome) → Within (record_queue c outcome) c
  unsent-Within c outcome = record {
    queue = refl;
    buffers = λ j. refl;
    entries = λ j e h. h;
    file = refl;
  }

  enqueue-cases :
      (c : DiskCache) (key : ℕ) (bytes : List ℕ)
      → ((outcome : DiskWriteQueueOutcome) × (enqueue_if_space_available c key bytes
            ≡ record_queue c outcome))
        ⊎ (enqueue_if_space_available c key bytes ≡ send c key bytes)
  unfolding enqueue_if_space_available
  enqueue-cases c key bytes = elim (Bool-cases c.is_closed) [
    | inl e ↦ inl (closed, ap (λ (b : Bool). if b then record_queue c closed else rest) e)
    | inr e ↦ elim (Bool-cases is_full) [
      | inl f ↦ inl (
        full,
        ap (λ (b : Bool). if b then record_queue c closed else rest) e
            ∙ ap (λ (b : Bool). if b then record_queue c full else send c key bytes) f,
      )
      | inr f ↦ inr (
          ap (λ (b : Bool). if b then record_queue c closed else rest) e
          ∙ ap (λ (b : Bool). if b then record_queue c full else send c key bytes) f)
    ]
  ]
    where
      is_full : Bool
      is_full = leb max_queued_entries (length c.queued_writes)

      rest : DiskCache
      rest = if is_full then record_queue c full else send c key bytes

  -- A write that is queued adds nothing but its object.
  pub enqueue-Keeps :
      (c : DiskCache) (key : ℕ) (bytes : List ℕ) (j : ℕ) (x : List ℕ)
      → Keeps (enqueue_if_space_available c key bytes) j x
      → Keeps c j x ⊎ ((j ≡ key) × (x ≡ bytes))
  enqueue-Keeps c key bytes j x h = elim (enqueue-cases c key bytes) [
    | inl (outcome, e) ↦ inl (
        Within-Keeps (record_queue c outcome) c (unsent-Within c outcome) j x
          (subst (λ (d : DiskCache). Keeps d j x) e h))
    | inr e ↦ sent-Keeps c key bytes j x (subst (λ (d : DiskCache). Keeps d j x) e h)
  ]
