-- ===== src/Memory/Store/Insertion.antt =====
-- What one attempt to insert does.
use feuer.Base.{
  ℕ, suc, ◌+◌, ◌-◌, ◌≤◌, ◌<◌, ◌≡◌, ◌≢◌, inl, inr, refl, ap, List, [], ◌∷◌, Option, none, some, Bool,
  true, false, arith, le→leb, lt→leb, length, get_elem?-lt, length-append, Option-cases, dec_lt,
}
use feuer.Base.HashMap.{HashMap, get, total, get-insert_self, get-insert_ne, total-insert}
use feuer.Memory.Retention.{sample_candidates}
use feuer.Memory.Store.Shard.{
  MemoryEntry, InsertResult, inserted, already_present, evicted_but_did_not_insert,
  MemoryCacheShard, Shared, RetentionScorer, get_bytes, payload_of, contains_entry, entry_removed,
  remove_entry, add_entry, choose, evict, try_insert, count_redundant, count_insertion, added,
}
use feuer.Memory.Store.Entries.{IsSound, charge_of, Indexed-insert}
use feuer.Memory.Store.Remove.{Removed, remove_entry-Removed}
use feuer.Memory.Store.Chosen.{Chosen, choose-Chosen}

-- The shard after a new entry was added.
pub record Added (s : MemoryCacheShard) (key : ℕ) (bytes : List ℕ) (charge : ℕ)
    (t : MemoryCacheShard) : Type 0 where
  pub sound : IsSound t
  pub there : get_bytes t key ≡ some bytes
  pub others : (j : ℕ) → key ≢ j → get_bytes t j ≡ get_bytes s j
  pub usage_charged : t.used_bytes ≡ s.used_bytes + charge
  pub capacity : t.capacity ≡ s.capacity
  pub count : length t.eviction_candidates ≡ suc (length s.eviction_candidates)

pub add_entry-Added :
    (s : MemoryCacheShard) (g : Shared) (key : ℕ) (bytes : List ℕ) (charge : ℕ)
    → IsSound s
    → get key s.entries_by_key ≡ none
    → Added s key bytes charge (add_entry s g key bytes charge).0
unfolding add_entry get_bytes
add_entry-Added s g key bytes charge o fresh =
    let new : MemoryEntry = record {
      bytes = bytes;
      allocation_charge = charge;
      candidate_index = length s.eviction_candidates;
    } in
    record {
      sound = record {
        index = Indexed-insert s.entries_by_key s.eviction_candidates o.index key new fresh refl;
        used = omega (arith, o.used, total-insert charge_of key new s.entries_by_key fresh);
      };
      there = ap payload_of (get-insert_self key new s.entries_by_key);
      others = λ j n. ap payload_of (get-insert_ne key j new s.entries_by_key n);
      usage_charged = refl;
      capacity = refl;
      count = omega (arith, length-append s.eviction_candidates (key ∷ []));
    }

-- An entry of a map whose charges are not zero.
charged_entry :
    (m : HashMap MemoryEntry)
    → 0 < total charge_of m
    → (k : ℕ) × (e : MemoryEntry) × (get k m ≡ some e)
unfolding total get
charged_entry [] h = absurd (ground arith)
charged_entry ((k, e) ∷ m) h = (k, e, ground arith)

has_candidate :
    (s : MemoryCacheShard) → IsSound s → 0 < s.used_bytes → 0 < length s.eviction_candidates
has_candidate s o h =
    let (k, e, p) = charged_entry s.entries_by_key (omega (arith, o.used)) in
    omega (arith, get_elem?-lt s.eviction_candidates e.candidate_index k (o.index.indexed k e p))

-- The shard from which the victim is removed: only its next sample has moved.
abbrev pub resampled : MemoryCacheShard → ℕ → MemoryCacheShard
resampled s size = record s {
  next_sample_start = (sample_candidates s.next_sample_start s.eviction_candidates size).0;
}

pub record Evicted (score : RetentionScorer) (size : ℕ) (s : MemoryCacheShard) (g : Shared)
    (r : Option (InsertResult × MemoryCacheShard × Shared)) : Type 0 where
  pub victim : ℕ
  pub chosen : Chosen score size s victim
  pub shard : MemoryCacheShard
  pub removed : Removed (resampled s size) victim chosen.entry shard
  pub result :
      r ≡ some (evicted_but_did_not_insert, shard, entry_removed g chosen.entry.allocation_charge)

evict-eq :
    (score : RetentionScorer) (size : ℕ) (s u : MemoryCacheShard) (g h : Shared) (key : ℕ)
    (t : MemoryCacheShard) (b : Bool)
    → choose score size s ≡ some (key, u)
    → remove_entry u g key ≡ some (b, t, h)
    → evict score size s g ≡ some (evicted_but_did_not_insert, t, h)
unfolding evict
evict-eq score size s u g h key t b e f = rw (evict, e, f) refl

pub evict-Evicted :
    (score : RetentionScorer) (size : ℕ) (s : MemoryCacheShard) (g : Shared)
    → IsSound s
    → 0 < s.used_bytes
    → 0 < size
    → Evicted score size s g (evict score size s g)
evict-Evicted score size s g o h k =
    let (victim, e, c) = choose-Chosen score size s o (has_candidate s o h) k in
    let moved : IsSound (resampled s size) = record { index = o.index; used = o.used } in
    let (t, f, r) = remove_entry-Removed (resampled s size) moved victim c.entry c.found g in
    record {
      victim = victim;
      chosen = c;
      shard = t;
      removed = r;
      result = evict-eq score size s _ g _ victim t true e f;
    }

-- What one attempt gives: the key is there, or the object is added, or a victim is removed.
pub data Attempt (score : RetentionScorer) (size : ℕ) (s : MemoryCacheShard) (g : Shared) (key : ℕ)
    (bytes : List ℕ) (charge : ℕ) (r : Option (InsertResult × MemoryCacheShard × Shared))
    : Type 0 where
  present :
      (e : MemoryEntry)
      → get key s.entries_by_key ≡ some e
      → r ≡ some (already_present, s, count_redundant g)
      → Attempt score size s g key bytes charge r
  fitted :
      (t : MemoryCacheShard) (h : Shared)
      → get key s.entries_by_key ≡ none
      → s.used_bytes ≤ s.capacity - charge
      → add_entry s g key bytes charge ≡ (t, h)
      → r ≡ some (inserted, t, count_insertion h)
      → Added s key bytes charge t
      → Attempt score size s g key bytes charge r
  reclaimed :
      get key s.entries_by_key ≡ none
      → s.capacity - charge < s.used_bytes
      → Evicted score size s g r
      → Attempt score size s g key bytes charge r

module _ (score : RetentionScorer) (size : ℕ) (s : MemoryCacheShard) (g : Shared) (key : ℕ)
    (bytes : List ℕ) (charge : ℕ) where
  contains-none : get key s.entries_by_key ≡ none → contains_entry s key ≡ false
  unfolding contains_entry
  contains-none p = rw (p, contains_entry) refl

  contains-some :
      (e : MemoryEntry) → get key s.entries_by_key ≡ some e → contains_entry s key ≡ true
  unfolding contains_entry
  contains-some e p = rw (p, contains_entry) refl

  present-eq :
      (e : MemoryEntry)
      → get key s.entries_by_key ≡ some e
      → try_insert score size s g key bytes charge ≡ some (already_present, s, count_redundant g)
  unfolding try_insert
  present-eq e p = rw (contains-some e p) refl

  added-eq :
      get key s.entries_by_key ≡ none
      → s.used_bytes ≤ s.capacity - charge
      → try_insert score size s g key bytes charge ≡ added (add_entry s g key bytes charge)
  unfolding try_insert
  added-eq p k = rw (contains-none p, le→leb s.used_bytes (s.capacity - charge) k) refl

  reclaimed-eq :
      get key s.entries_by_key ≡ none
      → s.capacity - charge < s.used_bytes
      → try_insert score size s g key bytes charge ≡ evict score size s g
  unfolding try_insert
  reclaimed-eq p k = rw (contains-none p, lt→leb (s.capacity - charge) s.used_bytes k) refl

  -- On a sound shard, with samples that are not empty, an attempt does not panic: it finds the
  -- key; or it adds the object if the charge fits; or it removes the lowest of the sample, by
  -- score and then by key, of which there is one.
  pub try_insert-Attempt :
      IsSound s
      → 0 < size
      → Attempt score size s g key bytes charge (try_insert score size s g key bytes charge)
  try_insert-Attempt o k = elim (Option-cases (get key s.entries_by_key)) [
    | inr (e, p) ↦ present e p (present-eq e p)
    | inl p ↦ elim (dec_lt (s.capacity - charge) s.used_bytes) [
      | no n ↦
          let (t, h) = add_entry s g key bytes charge in
          fitted t h p (omega arith) refl (added-eq p (omega arith))
            (add_entry-Added s g key bytes charge o p)
      | yes y ↦
          reclaimed p y (rw (reclaimed-eq p y) (evict-Evicted score size s g o (omega arith) k))
    ]
  ]
