-- ===== src/Memory/Store/Books.antt =====
-- What a call on one shard does to the bytes and the entries that the shards share.
use mathlib.Core.Path.{subst}
use feuer.Base.{
  ℕ, ◌+◌, ◌-◌, ◌≤◌, ◌<◌, ◌≡◌, inl, inr, refl, ap, ◌∙◌, List, none, some, Bool, true, false, arith,
  length, Option-cases,
}
use feuer.Base.HashMap.{get}
use feuer.Memory.Buffer.{remove_used_bytes}
use feuer.Memory.Buffer.Budget.{Balanced}
use feuer.Memory.Buffer.Charge.{add_used_bytes-Charged}
use feuer.Memory.Store.Shard.{
  MemoryEntry, InsertResult, MemoryCacheShard, Shared, RetentionScorer, try_insert, remove_entry,
  remove_key, entry_removed, add_entry, count_insertion, count_removal, counted_removal,
}
use feuer.Memory.Store.Entries.{IsSound}
use feuer.Memory.Store.Remove.{Removed, remove_entry-Removed}
use feuer.Memory.Store.Insertion.{present, fitted, reclaimed, add_entry-Added, try_insert-Attempt}

-- The pool is balanced, its idle bytes fit, and both totals contain the shard's.
pub record Shares (s : MemoryCacheShard) (g : Shared) : Type 0 where
  pub balanced : Balanced g.buffer_pool
  pub budget : g.buffer_pool.idle_bytes ≤ g.buffer_pool.capacity - g.buffer_pool.used_bytes
  pub used : s.used_bytes ≤ g.buffer_pool.used_bytes
  pub entries : length s.eviction_candidates ≤ g.metrics.entries

-- The totals moved with the shard's.
pub record Moved (s : MemoryCacheShard) (g : Shared) (t : MemoryCacheShard) (h : Shared)
    : Type 0 where
  pub sound : IsSound t
  pub balanced : Balanced h.buffer_pool
  pub budget : h.buffer_pool.idle_bytes ≤ h.buffer_pool.capacity - h.buffer_pool.used_bytes
  pub used : h.buffer_pool.used_bytes + s.used_bytes ≡ g.buffer_pool.used_bytes + t.used_bytes
  pub entries :
      h.metrics.entries + length s.eviction_candidates
      ≡ g.metrics.entries + length t.eviction_candidates
  pub capacity : t.capacity ≡ s.capacity

module _ (s : MemoryCacheShard) (g : Shared) (o : IsSound s) (b : Shares s g) where
  Moved-refl : Moved s g s g
  Moved-refl = record {
    sound = o;
    balanced = b.balanced;
    budget = b.budget;
    used = omega arith;
    entries = omega arith;
    capacity = refl;
  }

  Moved-removed :
      (u t : MemoryCacheShard) (key : ℕ) (e : MemoryEntry)
      → Removed u key e t
      → u.used_bytes ≡ s.used_bytes
      → u.capacity ≡ s.capacity
      → length u.eviction_candidates ≡ length s.eviction_candidates
      → Moved s g t (entry_removed g e.allocation_charge)
  unfolding remove_used_bytes
  Moved-removed u t key e r p q n = record {
    sound = r.sound;
    balanced = (record {
      shape = b.balanced.shape;
      counted = b.balanced.counted;
      idle_gauges = b.balanced.idle_gauges;
      used_gauge = omega (arith, b.balanced.used_gauge, b.used, r.charge);
      placed = b.balanced.placed;
    });
    budget = omega (arith, b.budget);
    used = omega (arith, b.used, r.charge);
    entries = omega (arith, b.entries, r.count);
    capacity = r.capacity ∙ q;
  }

  Moved-added :
      (key : ℕ) (bytes : List ℕ) (charge : ℕ)
      → get key s.entries_by_key ≡ none
      → Moved s g
          (add_entry s g key bytes charge).0
          (count_insertion (add_entry s g key bytes charge).1)
  unfolding add_entry
  Moved-added key bytes charge fresh =
      let (q, f, low, _, _) = add_used_bytes-Charged g.buffer_pool charge b.balanced in
      let a = add_entry-Added s g key bytes charge o fresh in
      record {
        sound = a.sound;
        balanced = q;
        budget = rw (f.capacity, f.used) low;
        used = omega (arith, f.used);
        entries = omega (arith, a.count);
        capacity = refl;
      }

  -- An attempt to insert.
  pub try_insert-Moved :
      (score : RetentionScorer) (size : ℕ) (key : ℕ) (bytes : List ℕ) (charge : ℕ)
      → 0 < size
      → (r : InsertResult) × (t : MemoryCacheShard) × (h : Shared) × (try_insert score size s g key
            bytes charge
          ≡ some (r, t, h))
        × Moved s g t h
  try_insert-Moved score size key bytes charge k =
      elim (try_insert-Attempt score size s g key bytes charge o k) [
        | present e p f ↦ (
          _,
          s,
          _,
          f,
          record {
            sound = o;
            balanced = b.balanced;
            budget = b.budget;
            used = omega arith;
            entries = omega arith;
            capacity = refl;
          },
        )
        | fitted t h p low q f a ↦ (
          _,
          t,
          _,
          f,
          subst (λ (x : MemoryCacheShard × Shared). Moved s g x.0 (count_insertion x.1)) q
              (Moved-added key bytes charge p),
        )
        | reclaimed p high v ↦ (
          _,
          v.shard,
          _,
          v.result,
          Moved-removed _ v.shard v.victim v.chosen.entry v.removed refl refl refl,
        )
      ]

  absent : (key : ℕ) → get key s.entries_by_key ≡ none → remove_entry s g key ≡ some (false, s, g)
  unfolding remove_entry
  absent key e = rw (e, remove_entry) refl

  -- A removal.
  pub remove_key-Moved :
      (key : ℕ)
      → (r : Bool) × (t : MemoryCacheShard) × (h : Shared) × (remove_key s g key ≡ some (r, t, h))
        × Moved s g t h
  unfolding remove_key
  remove_key-Moved key = elim (Option-cases (get key s.entries_by_key)) [
    | inl e ↦ (false, s, g, ap counted_removal (absent key e), Moved-refl)
    | inr (e, f) ↦
        let (t, p, r) = remove_entry-Removed s o key e f g in
        let m = Moved-removed s t key e r refl refl refl in
        (
          true,
          t,
          count_removal (entry_removed g e.allocation_charge),
          ap counted_removal p,
          record {
            sound = m.sound;
            balanced = m.balanced;
            budget = m.budget;
            used = m.used;
            entries = m.entries;
            capacity = m.capacity;
          },
        )
  ]
