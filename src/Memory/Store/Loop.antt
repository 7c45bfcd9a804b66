-- ===== src/Memory/Store/Loop.antt =====
-- The loop of `insert` in feuer-memory/src/store.rs.
use feuer.Base.{
  ℕ, zero, suc, ◌-◌, ◌≤◌, ◌<◌, ◌≡◌, ◌≢◌, ◌⊎◌, inl, inr, refl, sym, ap, ◌∙◌, List, Option, none,
  some, Bool, true, false, arith, length, max, ℕ_discrete,
}
use feuer.Base.HashMap.{get}
use feuer.Memory.Store.{insert_rounds, Insertion}
use feuer.Memory.Store.Shard.{
  MemoryEntry, inserted, already_present, evicted_but_did_not_insert, MemoryCacheShard, Shared,
  RetentionScorer, get_bytes, payload_of, try_insert,
}
use feuer.Memory.Store.Entries.{IsSound, some-none}
use feuer.Memory.Store.Remove.{Removed}
use feuer.Memory.Store.Insertion.{Added, present, fitted, reclaimed, resampled, try_insert-Attempt}

-- The shard after an object was inserted: the object is there, every other one is as before or was
-- evicted, and only an object that is larger than the shard takes the usage over its capacity.
pub record Stored (s : MemoryCacheShard) (key : ℕ) (bytes : List ℕ) (charge : ℕ)
    (t : MemoryCacheShard) : Type 0 where
  pub sound : IsSound t
  pub there : get_bytes t key ≡ some bytes
  pub others : (j : ℕ) → key ≢ j → (get_bytes t j ≡ get_bytes s j) ⊎ (get_bytes t j ≡ none)
  pub bounded : t.used_bytes ≤ max s.capacity charge
  pub capacity : t.capacity ≡ s.capacity

-- Either the key was there, and the shard is as it was; or the object was inserted.
pub data Done (s : MemoryCacheShard) (key : ℕ) (bytes : List ℕ) (charge : ℕ) (r : Option Insertion)
    : Type 0 where
  kept_out :
      (e : MemoryEntry) (any : Bool) (h : Shared)
      → get key s.entries_by_key ≡ some e
      → r ≡ some (false, any, s, h)
      → Done s key bytes charge r
  stored :
      (any : Bool) (t : MemoryCacheShard) (h : Shared)
      → get key s.entries_by_key ≡ none
      → r ≡ some (true, any, t, h)
      → Stored s key bytes charge t
      → Done s key bytes charge r

Stored-now :
    (s t : MemoryCacheShard) (key : ℕ) (bytes : List ℕ) (charge : ℕ)
    → s.used_bytes ≤ s.capacity - charge
    → Added s key bytes charge t
    → Stored s key bytes charge t
Stored-now s t key bytes charge h a = record {
  sound = a.sound;
  there = a.there;
  others = λ j n. inl (a.others j n);
  bounded = omega (arith, a.usage_charged);
  capacity = a.capacity;
}

payload-none : (o : Option MemoryEntry) → payload_of o ≡ none → o ≡ none
payload-none none h = refl
payload-none (some e) h = absurd (some-none h)

module _ (scores : ℕ → RetentionScorer) (size : ℕ) (key : ℕ) (bytes : List ℕ) (charge : ℕ)
    (k : 0 < size) where
  module _ (s t : MemoryCacheShard) (victim : ℕ) (e : MemoryEntry)
      (r : Removed (resampled s size) victim e t) (there : get victim s.entries_by_key ≡ some e)
      (fresh : get key s.entries_by_key ≡ none) where
    still_fresh : get key t.entries_by_key ≡ none
    unfolding get_bytes
    still_fresh =
        let other : victim ≢ key =
          λ f. some-none (sym there ∙ ap (λ (j : ℕ). get j s.entries_by_key) f ∙ fresh) in
        payload-none (get key t.entries_by_key) (r.others key other ∙ ap payload_of fresh)

    Stored-after :
        (u : MemoryCacheShard) → Stored t key bytes charge u → Stored s key bytes charge u
    unfolding get_bytes
    Stored-after u d = record {
      sound = d.sound;
      there = d.there;
      others = λ j n. elim (d.others j n) [
        | inr g ↦ inr g
        | inl g ↦ elim (ℕ_discrete victim j) [
          | yes f ↦
              inr (g ∙ ap payload_of (ap (λ (i : ℕ). get i t.entries_by_key) (sym f) ∙ r.gone))
          | no f ↦ inl (g ∙ r.others j f)
        ]
      ];
      bounded = omega (arith, d.bounded, r.capacity);
      capacity = d.capacity ∙ r.capacity;
    }

  module _ (fuel : ℕ) (s : MemoryCacheShard) (g : Shared) (any : Bool) (t : MemoryCacheShard)
      (h : Shared) where
    rounds-stop :
        try_insert (scores fuel) size s g key bytes charge ≡ some (already_present, t, h)
        → insert_rounds (suc fuel) scores size s g key bytes charge any ≡ some (false, any, t, h)
    unfolding insert_rounds
    rounds-stop e = rw (e, insert_rounds) refl

    rounds-insert :
        try_insert (scores fuel) size s g key bytes charge ≡ some (inserted, t, h)
        → insert_rounds (suc fuel) scores size s g key bytes charge any ≡ some (true, any, t, h)
    unfolding insert_rounds
    rounds-insert e = rw (e, insert_rounds) refl

    rounds-more :
        try_insert (scores fuel) size s g key bytes charge ≡ some (evicted_but_did_not_insert, t, h)
        → insert_rounds (suc fuel) scores size s g key bytes charge any
          ≡ insert_rounds fuel scores size t h key bytes charge true
    unfolding insert_rounds
    rounds-more e = rw (e, insert_rounds) refl

  -- On a sound shard, with samples that are not empty, fuel above the number of entries, and no other
  -- call between the rounds, the loop ends without a panic. A key that is there stays as it is.
  -- Otherwise the object is inserted, every other one is as before or was evicted, and only an object
  -- larger than the shard takes the usage over its capacity.
  pub insert_rounds-Done :
      (fuel : ℕ) (s : MemoryCacheShard) (g : Shared) (any : Bool)
      → IsSound s
      → length s.eviction_candidates < fuel
      → Done s key bytes charge (insert_rounds fuel scores size s g key bytes charge any)
  insert_rounds-Done zero s g any o h = elim h [ ]
  insert_rounds-Done (suc fuel) s g any o h =
      elim (try_insert-Attempt (scores fuel) size s g key bytes charge o k) [
        | present e p f ↦ kept_out e any _ p (rounds-stop fuel s g any s _ f)
        | fitted t u p low _ f a ↦
            stored any t _ p (rounds-insert fuel s g any t _ f)
              (Stored-now s t key bytes charge low a)
        | reclaimed p high v ↦
            let e = v.chosen.entry in
            let fresh = still_fresh s v.shard v.victim e v.removed v.chosen.found p in
            rw (rounds-more fuel s g any v.shard _ v.result)
              (elim (insert_rounds-Done fuel v.shard _ true v.removed.sound
                (omega (arith, v.removed.count))) [
                  | kept_out c b u q f ↦ absurd (some-none (sym q ∙ fresh))
                  | stored b t u q f d ↦
                      stored b t u p f
                        (Stored-after s v.shard v.victim e v.removed v.chosen.found p t d)
                ])
      ]
