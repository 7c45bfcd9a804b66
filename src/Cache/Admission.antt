-- ===== src/Cache/Admission.antt =====
-- When `fetch` of feuer/src/cache.rs calls back, and what it leaves in memory, without other calls.
use mathlib.Core.Path.{subst}
use feuer.Base.{
  ℕ, ◌+◌, ◌≡◌, ◌⊎◌, inl, inr, refl, ap, sym, ◌∙◌, List, Option, none, some, Bool, true, false,
  arith, Bool-cases, Option-cases,
}
use feuer.Cache.{
  MemoryTier, DiskTier, callback, memory_hit, Fetched, fetched, fetch_failed, got, CacheInner,
  Lookup, FetchResult, Others, miss, disk_lookup, lookup, admit, answered_by, fetch,
}

module _ (m : MemoryTier) (d : DiskTier) where
  open m use {Memory, object_bytes, insert_bytes}
  open d use {Disk}

  abbrev pub alone : Others m d
  alone i c = c

  abbrev pub InMemory : CacheInner Memory Disk → ℕ → Type 0
  InMemory c key = (x : List ℕ) × (object_bytes c.memory key ≡ some x)

  abbrev pub found_on_disk : Option Disk → ℕ → Bool → Option (List ℕ × ℕ)
  found_on_disk none key decision = none
  found_on_disk (some disk) key decision = (d.get_with_fallthrough disk key decision).found

  abbrev pub IsCovered : Option Disk → ℕ → Type 0
  IsCovered none key = ⊥
  IsCovered (some disk) key = d.contains disk key ≡ true

  inserted-InMemory :
      (memory : Memory) (key : ℕ) (bytes : List ℕ) (charge : ℕ)
      → (x : List ℕ) × (object_bytes (insert_bytes memory key bytes charge).1 key ≡ some x)
  inserted-InMemory memory key bytes charge = elim (m.after_insertion memory key bytes charge) [
    | inl (a, b, e) ↦ (bytes, e)
    | inr (a, (old, b, e)) ↦ (old, e)
  ]

  admit-InMemory :
      (c : CacheInner Memory Disk) (key : ℕ) (bytes : List ℕ) (charge : ℕ) (fell_through : Bool)
      → InMemory (admit m d c key bytes charge fell_through) key
        ⊎ IsCovered (admit m d c key bytes charge fell_through).disk key
  unfolding admit
  admit-InMemory c key bytes charge fell_through =
      let there = inserted-InMemory c.memory key bytes charge in
      elim (Option-cases c.disk) [
        | inl q ↦ inl (rw (q, admit) there)
        | inr (disk, q) ↦ elim (Bool-cases (d.contains disk key)) [
          | inl covered ↦ elim (Bool-cases fell_through) [
            | inl f ↦ inl (rw (q, covered, f, admit) there)
            | inr f ↦ inr (
                rw (q, covered, f, admit)
                  (subst (λ (o : Option Disk). IsCovered o key) (sym q) covered))
          ]
          | inr absent ↦ elim (Bool-cases (insert_bytes c.memory key bytes charge).0) [
            | inl f ↦ inl (rw (q, absent, f, admit) there)
            | inr f ↦ inl (rw (q, absent, f, admit) there)
          ]
        ]
      ]

  admit-callbacks :
      (c : CacheInner Memory Disk) (key : ℕ) (bytes : List ℕ) (charge : ℕ) (fell_through : Bool)
      → (admit m d c key bytes charge fell_through).callbacks ≡ c.callbacks
  unfolding admit
  admit-callbacks c key bytes charge fell_through = elim (Option-cases c.disk) [
    | inl q ↦ rw (q, admit) refl
    | inr (disk, q) ↦ elim (Bool-cases (d.contains disk key)) [
      | inl covered ↦ elim (Bool-cases fell_through) [
        | inl f ↦ rw (q, covered, f, admit) refl
        | inr f ↦ rw (q, covered, f, admit) refl
      ]
      | inr absent ↦ elim (Bool-cases (insert_bytes c.memory key bytes charge).0) [
        | inl f ↦ rw (q, absent, f, admit) refl
        | inr f ↦ rw (q, absent, f, admit) refl
      ]
    ]
  ]

  -- How a fetch ends.
  pub record IsFetch (c : CacheInner Memory Disk) (key : ℕ) (decision : Bool)
      (r : FetchResult Memory Disk) : Type 0 where
    pub calls :
        ((r.cache.callbacks ≡ c.callbacks)
          × (InMemory c key
              ⊎ ((b : List ℕ) × (n : ℕ) × (found_on_disk c.disk key decision ≡ some (b, n)))))
        ⊎ ((r.cache.callbacks ≡ c.callbacks + 1)
            × (object_bytes c.memory key ≡ none)
            × (found_on_disk c.disk key decision ≡ none))
    pub admits :
        (bytes : List ℕ)
        → r.result ≡ got bytes
        → InMemory r.cache key ⊎ ((r.outcome ≡ callback) × IsCovered r.cache.disk key)

  answered-IsFetch :
      (c before : CacheInner Memory Disk) (key : ℕ) (decision fell_through : Bool)
      (answer : Fetched)
      → before.callbacks ≡ c.callbacks + 1
      → object_bytes c.memory key ≡ none
      → found_on_disk c.disk key decision ≡ none
      → IsFetch c key decision (answered_by m d before key fell_through answer)
  answered-IsFetch c before key decision fell_through (fetched bytes charge) n e f = record {
    calls = inr (admit-callbacks before key bytes charge fell_through ∙ n, e, f);
    admits = λ b q. elim (admit-InMemory before key bytes charge fell_through) [
      | inl x ↦ inl x
      | inr x ↦ inr (refl, x)
    ];
  }
  answered-IsFetch c before key decision fell_through (fetch_failed x) n e f = record {
    calls = inr (n, e, f);
    admits = λ b q. absurd (ground arith);
  }

  abbrev finish :
      CacheInner Memory Disk → ℕ → Fetched → Lookup Memory Disk → FetchResult Memory Disk
  finish c key answer found = elim found.bytes [
    | some bytes ↦ record { outcome = found.outcome; result = got bytes; cache = found.cache }
    | none ↦
        answered_by m d (record found.cache { callbacks = found.cache.callbacks + 1 }) key
          found.fell_through answer
  ]

  fetch-finish :
      (c : CacheInner Memory Disk) (key : ℕ) (decision : Bool) (answer : Fetched)
      (l : Lookup Memory Disk)
      → lookup m d alone c key decision ≡ l
      → IsFetch c key decision (finish c key answer l)
      → IsFetch c key decision (fetch m d alone c key decision answer)
  unfolding fetch
  fetch-finish c key decision answer l e h =
      subst (λ (k : Lookup Memory Disk). IsFetch c key decision (finish c key answer k)) (sym e) h

  lookup-hit :
      (c : CacheInner Memory Disk) (key : ℕ) (decision : Bool) (bytes : List ℕ)
      → object_bytes c.memory key ≡ some bytes
      → lookup m d alone c key decision
        ≡ record { outcome = memory_hit; bytes = some bytes; fell_through = false; cache = c }
  unfolding lookup
  lookup-hit c key decision bytes e = rw (e, lookup) refl

  abbrev from_disk : CacheInner Memory Disk → ℕ → Bool → Option Disk → Lookup Memory Disk
  from_disk c key decision none = record {
    outcome = miss;
    bytes = none;
    fell_through = false;
    cache = c;
  }
  from_disk c key decision (some disk) =
      disk_lookup m d alone c key decision (d.get_with_fallthrough disk key decision)

  lookup-no_disk :
      (c : CacheInner Memory Disk) (key : ℕ) (decision : Bool)
      → object_bytes c.memory key ≡ none
      → c.disk ≡ none
      → lookup m d alone c key decision
        ≡ record { outcome = miss; bytes = none; fell_through = false; cache = c }
  unfolding lookup
  lookup-no_disk c key decision e q = rw (e, lookup) (ap (from_disk c key decision) q)

  lookup-disk :
      (c : CacheInner Memory Disk) (key : ℕ) (decision : Bool) (disk : Disk)
      → object_bytes c.memory key ≡ none
      → c.disk ≡ some disk
      → lookup m d alone c key decision
        ≡ disk_lookup m d alone c key decision (d.get_with_fallthrough disk key decision)
  unfolding lookup
  lookup-disk c key decision disk e q = rw (e, lookup) (ap (from_disk c key decision) q)

  -- Without other calls, a fetch invokes its callback once if neither tier answers, and not at all if
  -- one does. If it gives bytes, the object is in memory afterwards, or the bytes came from the
  -- callback and the disk has an entry for it.
  pub fetch-IsFetch :
      (c : CacheInner Memory Disk) (key : ℕ) (decision : Bool) (answer : Fetched)
      → IsFetch c key decision (fetch m d alone c key decision answer)
  fetch-IsFetch c key decision answer = elim (Option-cases (object_bytes c.memory key)) [
    | inr (bytes, e) ↦
        fetch-finish c key decision answer _ (lookup-hit c key decision bytes e)
          (record { calls = inl (refl, inl (bytes, e)); admits = λ b q. inl (bytes, e) })
    | inl e ↦ elim (Option-cases c.disk) [
      | inl q ↦ fetch-finish c key decision answer _ (lookup-no_disk c key decision e q) (
          answered-IsFetch c (record c { callbacks = c.callbacks + 1 }) key decision false answer
            refl e (ap (λ (o : Option Disk). found_on_disk o key decision) q))
      | inr (disk, q) ↦
          let a = d.get_with_fallthrough disk key decision in
          let here = ap (λ (o : Option Disk). found_on_disk o key decision) q in
          fetch-finish c key decision answer _ (lookup-disk c key decision disk e q)
            (elim (Option-cases a.found) [
              | inl n ↦ rw n (
                  answered-IsFetch c (record c { disk = some a.disk; callbacks = c.callbacks + 1 })
                    key decision a.fell_through answer refl e (here ∙ n))
              | inr ((bytes, capacity), n) ↦ rw n (record {
                calls = inl (refl, inr (bytes, capacity, here ∙ n));
                admits = λ b p. inl (inserted-InMemory c.memory key bytes capacity);
              })
            ])
    ]
  ]
