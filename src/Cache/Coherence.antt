-- ===== src/Cache/Coherence.antt =====
-- Tiers that hold nothing but objects, and what the functions of feuer/src/cache.rs leave of that and
-- answer. Objects do not change: `source key` is the object.
use mathlib.Core.Path.{subst}
use feuer.Base.{
  ℕ, ◌+◌, ◌≡◌, inl, inr, ap, sym, ◌∙◌, List, Option, none, some, Bool, false, Bool-cases,
  Option-cases,
}
use feuer.Cache.{
  MemoryTier, DiskTier, LookupOutcome, Fetched, fetched, fetch_failed, GetOrFetch, got,
  callback_failed, CacheInner, Others, disk_lookup, lookup, admit, answered_by, fetch,
  record_request, get_cached, get_or_fetch_by_hash,
}

-- A result is the object, or an error of a callback.
abbrev pub IsAnswer : List ℕ → GetOrFetch → Type 0
IsAnswer object (got bytes) = bytes ≡ object
IsAnswer object (callback_failed e) = Unit

-- A callback gives the object or fails.
abbrev pub IsFetched : List ℕ → Fetched → Type 0
IsFetched object (fetched bytes charge) = bytes ≡ object
IsFetched object (fetch_failed e) = Unit

abbrev pub IsJoined : List ℕ → Option (LookupOutcome × GetOrFetch) → Type 0
IsJoined object none = Unit
IsJoined object (some (outcome, result)) = IsAnswer object result

abbrev pub IsFound : List ℕ → Option (List ℕ) → Type 0
IsFound object none = Unit
IsFound object (some bytes) = bytes ≡ object

module _ (m : MemoryTier) (d : DiskTier) (source : ℕ → List ℕ) where
  open m use {Memory, object_bytes, insert_bytes}
  open d use {Disk, Keeps}

  abbrev pub DiskCoherent : Option Disk → Type 0
  DiskCoherent none = Unit
  DiskCoherent (some disk) = (j : ℕ) (x : List ℕ) → Keeps disk j x → x ≡ source j

  -- The tiers hold nothing but objects.
  pub record IsCoherent (c : CacheInner Memory Disk) : Type 0 where
    pub in_memory : (j : ℕ) (x : List ℕ) → object_bytes c.memory j ≡ some x → x ≡ source j
    pub on_disk : DiskCoherent c.disk

  inserted-IsCoherent :
      (memory : Memory) (key : ℕ) (bytes : List ℕ) (charge : ℕ)
      → bytes ≡ source key
      → ((j : ℕ) (x : List ℕ) → object_bytes memory j ≡ some x → x ≡ source j)
      → (j : ℕ) (x : List ℕ) → object_bytes (insert_bytes memory key bytes charge).1 j ≡ some x
      → x ≡ source j
  inserted-IsCoherent memory key bytes charge b h j x e =
      elim (m.from_insert memory key bytes charge j x e) [
        | inl old ↦ h j x old
        | inr (k, q) ↦ q ∙ b ∙ ap source (sym k)
      ]

  enqueued-IsCoherent :
      (disk : Disk) (key : ℕ) (bytes : List ℕ)
      → bytes ≡ source key
      → DiskCoherent (some disk)
      → DiskCoherent (some (d.enqueue disk key bytes))
  enqueued-IsCoherent disk key bytes b h j x e = elim (d.enqueue_keeps disk key bytes j x e) [
    | inl old ↦ h j x old
    | inr (k, q) ↦ q ∙ b ∙ ap source (sym k)
  ]

  module _ (others : Others m d)
      (peaceful : (i : ℕ) (c : CacheInner Memory Disk)
        → IsCoherent c
        → IsCoherent (others i c)) where
    disk_lookup-IsCoherent :
        (c : CacheInner Memory Disk) (disk : Disk) (key : ℕ) (decision : Bool)
        → c.disk ≡ some disk
        → IsCoherent c
        → (let l =
              disk_lookup m d others c key decision (d.get_with_fallthrough disk key decision) in
            IsCoherent l.cache × IsFound (source key) l.bytes)
    disk_lookup-IsCoherent c disk key decision e h =
        let a = d.get_with_fallthrough disk key decision in
        let held : DiskCoherent (some disk) =
          subst (λ (o : Option Disk). DiskCoherent o) e h.on_disk in
        let after : IsCoherent (others 0 (record c { disk = some a.disk })) =
          peaceful 0 (record c { disk = some a.disk })
            (record {
              in_memory = h.in_memory;
              on_disk = λ j x k. held j x (d.read_keeps disk key decision j x k);
            }) in
        elim (Option-cases a.found) [
          | inl q ↦ rw q (after, tt)
          | inr ((bytes, capacity), q) ↦
              let right = held key bytes (d.gives_kept disk key decision bytes capacity q) in
              rw q (
                record {
                  in_memory =
                      inserted-IsCoherent (others 0 (record c { disk = some a.disk })).memory key
                        bytes capacity right after.in_memory;
                  on_disk = after.on_disk;
                },
                right,
              )
        ]

    lookup-IsCoherent :
        (c : CacheInner Memory Disk) (key : ℕ) (decision : Bool)
        → IsCoherent c
        → (let l = lookup m d others c key decision in
            IsCoherent l.cache × IsFound (source key) l.bytes)
    unfolding lookup
    lookup-IsCoherent c key decision h = elim (Option-cases (object_bytes c.memory key)) [
      | inr (bytes, e) ↦ rw (e, lookup) (h, h.in_memory key bytes e)
      | inl e ↦ elim (Option-cases c.disk) [
        | inl q ↦ rw (e, q, lookup) (h, tt)
        | inr (disk, q) ↦ rw (e, q, lookup) (disk_lookup-IsCoherent c disk key decision q h)
      ]
    ]

  admit-IsCoherent :
      (c : CacheInner Memory Disk) (key : ℕ) (bytes : List ℕ) (charge : ℕ) (fell_through : Bool)
      → bytes ≡ source key
      → IsCoherent c
      → IsCoherent (admit m d c key bytes charge fell_through)
  unfolding admit
  admit-IsCoherent c key bytes charge fell_through b h =
      let memory : (j : ℕ) (x : List ℕ)
          → object_bytes (insert_bytes c.memory key bytes charge).1 j ≡ some x
          → x ≡ source j =
        inserted-IsCoherent c.memory key bytes charge b h.in_memory in
      elim (Option-cases c.disk) [
        | inl q ↦ rw (q, admit) (record { in_memory = memory; on_disk = h.on_disk })
        | inr (disk, q) ↦ elim (Bool-cases (d.contains disk key)) [
          | inl there ↦ elim (Bool-cases fell_through) [
            | inl f ↦ rw (q, there, f, admit) (record { in_memory = memory; on_disk = h.on_disk })
            | inr f ↦
                rw (q, there, f, admit) (record { in_memory = h.in_memory; on_disk = h.on_disk })
          ]
          | inr absent ↦ elim (Bool-cases (insert_bytes c.memory key bytes charge).0) [
            | inl f ↦
                rw (q, absent, f, admit)
                  (record {
                    in_memory = memory;
                    on_disk =
                        enqueued-IsCoherent disk key bytes b
                          (subst (λ (o : Option Disk). DiskCoherent o) q h.on_disk);
                  })
            | inr f ↦ rw (q, absent, f, admit) (record { in_memory = memory; on_disk = h.on_disk })
          ]
        ]
      ]

  answered_by-IsCoherent :
      (c : CacheInner Memory Disk) (key : ℕ) (fell_through : Bool) (answer : Fetched)
      → IsFetched (source key) answer
      → IsCoherent c
      → (let r = answered_by m d c key fell_through answer in
          IsCoherent r.cache × IsAnswer (source key) r.result)
  answered_by-IsCoherent c key fell_through (fetched bytes charge) b h =
      (admit-IsCoherent c key bytes charge fell_through b h, b)
  answered_by-IsCoherent c key fell_through (fetch_failed e) b h = (h, tt)

  module _ (others : Others m d)
      (peaceful : (i : ℕ) (c : CacheInner Memory Disk)
        → IsCoherent c
        → IsCoherent (others i c)) where
    fetch-IsCoherent :
        (c : CacheInner Memory Disk) (key : ℕ) (decision : Bool) (answer : Fetched)
        → IsFetched (source key) answer
        → IsCoherent c
        → (let r = fetch m d others c key decision answer in
            IsCoherent r.cache × IsAnswer (source key) r.result)
    unfolding fetch
    fetch-IsCoherent c key decision answer b h =
        let l = lookup m d others c key decision in
        let (after, found) = lookup-IsCoherent others peaceful c key decision h in
        elim (Option-cases l.bytes) [
          | inr (bytes, q) ↦ rw (q, fetch) (after, rw q at found)
          | inl q ↦
              rw (q, fetch)
                (answered_by-IsCoherent
                  (others 1 (record l.cache { callbacks = l.cache.callbacks + 1 })) key
                  l.fell_through answer b
                  (peaceful 1 (record l.cache { callbacks = l.cache.callbacks + 1 })
                    (record { in_memory = after.in_memory; on_disk = after.on_disk })))
        ]

    pub get_cached-IsCoherent :
        (c : CacheInner Memory Disk) (key : ℕ)
        → IsCoherent c
        → IsCoherent (get_cached m d others c key).1
          × IsFound (source key) (get_cached m d others c key).0
    unfolding get_cached
    get_cached-IsCoherent c key h =
        let (after, found) =
          lookup-IsCoherent others peaceful (record_request m d c) key false
            (record { in_memory = h.in_memory; on_disk = h.on_disk }) in
        (record { in_memory = after.in_memory; on_disk = after.on_disk }, found)

    pub get_or_fetch-IsCoherent :
        (c : CacheInner Memory Disk) (key : ℕ) (decision : Bool)
        (joined : Option (LookupOutcome × GetOrFetch)) (answer : Fetched)
        → IsJoined (source key) joined
        → IsFetched (source key) answer
        → IsCoherent c
        → (let r = get_or_fetch_by_hash m d others c key decision joined answer in
            IsCoherent r.1 × IsAnswer (source key) r.0)
    unfolding get_or_fetch_by_hash
    get_or_fetch-IsCoherent c key decision joined answer j b h =
        let requested = record_request m d c in
        let start : IsCoherent requested = record {
          in_memory = h.in_memory;
          on_disk = h.on_disk;
        } in
        elim (Option-cases (object_bytes requested.memory key)) [
          | inr (bytes, q) ↦
              rw (q, get_or_fetch_by_hash)
                (record { in_memory = h.in_memory; on_disk = h.on_disk }, h.in_memory key bytes q)
          | inl q ↦ elim (Option-cases joined) [
            | inr ((outcome, result), e) ↦
                let after = peaceful 2 requested start in
                rw (q, e, get_or_fetch_by_hash)
                  (
                    record { in_memory = after.in_memory; on_disk = after.on_disk },
                    subst (λ (o : Option (LookupOutcome × GetOrFetch)). IsJoined (source key) o) e
                        j,
                  )
            | inl e ↦
                let (after, right) = fetch-IsCoherent requested key decision answer b start in
                rw (q, e, get_or_fetch_by_hash)
                  (record { in_memory = after.in_memory; on_disk = after.on_disk }, right)
          ]
        ]
