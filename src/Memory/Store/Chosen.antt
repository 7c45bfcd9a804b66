-- ===== src/Memory/Store/Chosen.antt =====
-- The choice of the entry to evict: try_insert of feuer-memory/src/store/shard.rs.
use feuer.Base.{
  ℕ, ◌<◌, ◌≡◌, refl, sym, ap, ◌∙◌, List, some, false, arith, min, length, get_elem?, get_elem?-lt,
}
use feuer.Base.HashMap.{get}
use feuer.Memory.Retention.{sample_candidates}
use feuer.Memory.Retention.Rotation.{sample_candidates-rotates}
use feuer.Memory.Store.Shard.{
  MemoryEntry, MemoryCacheShard, RetentionScorer, score_keys, before, min_by, choose,
}
use feuer.Memory.Store.Entries.{IsSound, some_eq}
use feuer.Memory.Store.Choice.{score_keys-Scored, nonempty-Lowest}

-- The chosen key is in the map and in the sample, and no sampled entry comes before it.
pub record Chosen (score : RetentionScorer) (size : ℕ) (s : MemoryCacheShard) (key : ℕ)
    : Type 0 where
  pub entry : MemoryEntry
  pub found : get key s.entries_by_key ≡ some entry
  pub place : ℕ
  pub sampled :
      get_elem? (sample_candidates s.next_sample_start s.eviction_candidates size).1 place
      ≡ some key
  pub lowest :
      (i k : ℕ) (e : MemoryEntry)
      → get_elem? (sample_candidates s.next_sample_start s.eviction_candidates size).1 i ≡ some k
      → get k s.entries_by_key ≡ some e
      → before (score k (length e.bytes), k) (score key (length entry.bytes), key) ≡ false

module _ (score : RetentionScorer) (size : ℕ) (s : MemoryCacheShard) where
  abbrev sample : List ℕ
  sample = (sample_candidates s.next_sample_start s.eviction_candidates size).1

  choose-eq :
      (xs : List (ℕ × ℕ)) (y : ℕ × ℕ)
      → score_keys score s.entries_by_key sample ≡ some xs
      → min_by xs ≡ some y
      → choose score size s
        ≡ some (
          y.1,
          record s {
            next_sample_start =
                (sample_candidates s.next_sample_start s.eviction_candidates size).0;
          },
        )
  unfolding choose
  choose-eq xs y e f = rw (choose, e, f) refl

  module _ (o : IsSound s) (some_candidate : 0 < length s.eviction_candidates)
      (some_size : 0 < size) where
    sampled_entry :
        (i k : ℕ)
        → get_elem? sample i ≡ some k
        → (e : MemoryEntry) × (get k s.entries_by_key ≡ some e)
    sampled_entry i k h =
        let first =
          sample_candidates-rotates s.next_sample_start s.eviction_candidates size 0 some_candidate
            (omega arith) in
        let low : i < min (length s.eviction_candidates) size =
          omega (arith, get_elem?-lt sample i k h, first.1) in
        let r =
          sample_candidates-rotates s.next_sample_start s.eviction_candidates size i some_candidate
            low in
        let (e, p, _) = o.index.listed _ k (sym (r.0) ∙ h) in (e, p)

    -- On a sound shard with a candidate, the choice does not panic.
    pub choose-Chosen :
        (key : ℕ) × (choose score size s
          ≡ some (
            key,
            record s {
              next_sample_start =
                  (sample_candidates s.next_sample_start s.eviction_candidates size).0;
            },
          ))
        × Chosen score size s key
    choose-Chosen =
        let (xs, e, r) = score_keys-Scored score s.entries_by_key sample sampled_entry in
        let first =
          sample_candidates-rotates s.next_sample_start s.eviction_candidates size 0 some_candidate
            (omega arith) in
        let (y, f, l) = nonempty-Lowest xs (omega (arith, r.same_length, first.1)) in
        let at = r.key l.place y l.listed in
        let (entry, found) = sampled_entry l.place y.1 at in
        let itself : y ≡ (score y.1 (length entry.bytes), y.1) =
          some_eq (sym l.listed ∙ r.scores l.place y.1 entry at found) in
        (
          y.1,
          choose-eq xs y e f,
          record {
            entry = entry;
            found = found;
            place = l.place;
            sampled = at;
            lowest = λ i k c h p.
                ap (before (score k (length c.bytes), k)) (sym itself)
                ∙ l.lowest i (score k (length c.bytes), k) (r.scores i k c h p);
          },
        )
