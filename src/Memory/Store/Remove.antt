-- ===== src/Memory/Store/Remove.antt =====
-- `remove_entry` on an entry that is there.
use feuer.Base.{
  ℕ, suc, ◌+◌, ◌-◌, ◌<◌, ◌≡◌, ◌≢◌, ◌⊎◌, inl, inr, refl, sym, ap, ◌∙◌, Option, none, some, true,
  arith, lt→ltb, dec_lt, ℕ_discrete, length, get_elem?, get_elem?-in, swap_remove,
}
use feuer.Base.HashMap.{
  HashMap, get, remove, insert, total, get-insert_self, get-insert_ne, get-remove_self,
  get-remove_ne, total-replace, total-remove,
}
use feuer.Memory.Store.Shard.{
  MemoryEntry, MemoryCacheShard, Shared, reindex, unlist, remove_entry, entry_removed,
}
use feuer.Memory.Store.Candidates.{
  length-swap_remove, get_elem?-swap_remove_self, get_elem?-swap_remove_ge,
}
use feuer.Memory.Store.Shard.{get_bytes, payload_of}
use feuer.Memory.Store.Entries.{Indexed, IsSound, charge_of, some_eq, some-none}
use feuer.Memory.Store.Removal.{removed-lt, Indexed-remove_last, Indexed-move_last}

-- The shard after the entry of a key was removed.
pub record Removed (s : MemoryCacheShard) (key : ℕ) (e : MemoryEntry) (t : MemoryCacheShard)
    : Type 0 where
  pub sound : IsSound t
  pub gone : get key t.entries_by_key ≡ none
  pub others : (j : ℕ) → key ≢ j → get_bytes t j ≡ get_bytes s j
  pub charge : t.used_bytes + e.allocation_charge ≡ s.used_bytes
  pub capacity : t.capacity ≡ s.capacity
  pub count : suc (length t.eviction_candidates) ≡ length s.eviction_candidates

-- The same map as far as payloads and charges go.
record Reindexed (m : HashMap MemoryEntry) (index : ℕ) (at : Option ℕ) (m' : HashMap MemoryEntry)
    : Type 0 where
  pub result : reindex m index at ≡ some m'
  pub missing : (j : ℕ) → get j m ≡ none → get j m' ≡ none
  pub payload :
      (j : ℕ)
      → (get j m' ≡ get j m)
        ⊎ ((f : MemoryEntry) × (get j m ≡ some f)
            × (get j m' ≡ some (record f { candidate_index = index })))
  pub charges : total charge_of m' ≡ total charge_of m

module _ (m : HashMap MemoryEntry) (index : ℕ) where
  Reindexed-none : Reindexed m index none m
  Reindexed-none = record {
    result = refl;
    missing = λ j h. h;
    payload = λ j. inl refl;
    charges = refl;
  }

  Reindexed-some :
      (l : ℕ) (f : MemoryEntry)
      → get l m ≡ some f
      → Reindexed m index (some l) (insert l (record f { candidate_index = index }) m)
  Reindexed-some l f e =
      let new = record f { candidate_index = index } in
      record {
        result = rw (reindex, e) refl;
        missing = λ j h.
            get-insert_ne l j new m (λ g. some-none (sym e ∙ ap (λ (i : ℕ). get i m) g ∙ h)) ∙ h;
        payload = λ j. elim (ℕ_discrete l j) [
          | yes g ↦ inr (
            f,
            ap (λ (i : ℕ). get i m) (sym g) ∙ e,
            ap (λ (i : ℕ). get i (insert l new m)) (sym g) ∙ get-insert_self l new m,
          )
          | no g ↦ inl (get-insert_ne l j new m g)
        ];
        charges = omega (arith, total-replace charge_of l new f m e);
      }

unlist-some :
    (s : MemoryCacheShard) (g : Shared) (m m' : HashMap MemoryEntry) (e : MemoryEntry)
    → e.candidate_index < length s.eviction_candidates
    → reindex m e.candidate_index
        (get_elem? (swap_remove s.eviction_candidates e.candidate_index) e.candidate_index)
      ≡ some m'
    → unlist s g m e
      ≡ some (
        true,
        record s {
          used_bytes = s.used_bytes - e.allocation_charge;
          entries_by_key = m';
          eviction_candidates = swap_remove s.eviction_candidates e.candidate_index;
        },
        entry_removed g e.allocation_charge,
      )
unfolding unlist
unlist-some s g m m' e h r = rw (lt→ltb e.candidate_index (length s.eviction_candidates) h, r) refl

module _ (s : MemoryCacheShard) (o : IsSound s) (key : ℕ) (old : MemoryEntry)
    (found : get key s.entries_by_key ≡ some old) where
  reindexed :
      (m' : HashMap MemoryEntry) × Reindexed
        (remove key s.entries_by_key)
        old.candidate_index
        (get_elem? (swap_remove s.eviction_candidates old.candidate_index) old.candidate_index)
        m'
      × Indexed m' (swap_remove s.eviction_candidates old.candidate_index)
      × (suc (length (swap_remove s.eviction_candidates old.candidate_index))
          ≡ length s.eviction_candidates)
  reindexed =
      let m = s.entries_by_key in
      let cs = s.eviction_candidates in
      let i = old.candidate_index in
      let low = removed-lt m cs o.index key old found in
      let (l, last) = get_elem?-in cs (length cs - 1) (omega arith) in
      let size : suc (length (swap_remove cs i)) ≡ length cs =
        omega (arith, length-swap_remove cs i l low last) in
      elim (dec_lt i (length cs - 1)) [
        | no h ↦ (
          remove key m,
          rw (get_elem?-swap_remove_ge cs i l low last i (omega arith))
              (Reindexed-none (remove key m) i),
          Indexed-remove_last m cs o.index key old found l last (omega arith),
          size,
        )
        | yes h ↦
            let (f, there, place) = o.index.listed (length cs - 1) l last in
            let other : key ≢ l = λ g. omega (
              arith,
              place,
              ap (λ (x : MemoryEntry). x.candidate_index)
                  (some_eq (sym found ∙ ap (λ (j : ℕ). get j m) g ∙ there)),
            ) in
            (
              insert l (record f { candidate_index = i }) (remove key m),
              rw (get_elem?-swap_remove_self cs i l low last h)
                  (Reindexed-some (remove key m) i l f (get-remove_ne key l m other ∙ there)),
              Indexed-move_last m cs o.index key old found l last f h there place,
              size,
            )
      ]

  found_entry : (g : Shared) → remove_entry s g key ≡ unlist s g (remove key s.entries_by_key) old
  unfolding remove_entry
  found_entry g = rw (found, remove_entry) refl

  -- On a sound shard, removing a key that is there takes out its entry and one candidate, keeps
  -- the objects of all other keys, and takes off its charge. The shard stays sound.
  pub remove_entry-Removed :
      (g : Shared)
      → (t : MemoryCacheShard) × (remove_entry s g key
          ≡ some (true, t, entry_removed g old.allocation_charge))
        × Removed s key old t
  unfolding get_bytes
  remove_entry-Removed g =
      let (m', r, x, size) = reindexed in
      let used = total-remove charge_of key old s.entries_by_key found in
      let t : MemoryCacheShard = record s {
        used_bytes = s.used_bytes - old.allocation_charge;
        entries_by_key = m';
        eviction_candidates = swap_remove s.eviction_candidates old.candidate_index;
      } in
      (
        t,
        found_entry g
            ∙ unlist-some s g (remove key s.entries_by_key) m' old
                (removed-lt s.entries_by_key s.eviction_candidates o.index key old found) r.result,
        record {
          sound = record { index = x; used = omega (arith, used, o.used, r.charges) };
          gone = r.missing key (get-remove_self key s.entries_by_key o.index.distinct);
          others = λ j n. elim (r.payload j) [
            | inl e ↦ ap payload_of (e ∙ get-remove_ne key j s.entries_by_key n)
            | inr (f, e, h) ↦
                ap payload_of h
                ∙ sym (ap payload_of e)
                ∙ ap payload_of (get-remove_ne key j s.entries_by_key n)
          ];
          charge = omega (arith, used, o.used);
          capacity = refl;
          count = size;
        },
      )
