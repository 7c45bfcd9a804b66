-- ===== src/Memory/Store/Removal.antt =====
-- Removing an entry, and moving the last candidate to its place.
use feuer.Base.{
  ℕ, ◌-◌, ◌<◌, ◌≡◌, ◌≢◌, sym, ap, ◌∙◌, List, some, arith, ℕ_discrete, length, get_elem?,
  get_elem?-lt, swap_remove,
}
use feuer.Base.HashMap.{
  HashMap, get, remove, insert, get-insert_self, get-insert_ne, get-remove_self, get-remove_ne,
  Distinct-remove, Distinct-insert,
}
use feuer.Memory.Store.Shard.{MemoryEntry}
use feuer.Memory.Store.Candidates.{
  length-swap_remove, get_elem?-swap_remove_self, get_elem?-swap_remove_ne,
}
use feuer.Memory.Store.Entries.{Indexed, some_eq, some-none, same_key}

module _ (m : HashMap MemoryEntry) (cs : List ℕ) (o : Indexed m cs) (key : ℕ) (old : MemoryEntry)
    (found : get key m ≡ some old) where
  pub removed-lt : old.candidate_index < length cs
  removed-lt = get_elem?-lt cs old.candidate_index key (o.indexed key old found)

  other_key : (i k : ℕ) → get_elem? cs i ≡ some k → old.candidate_index ≢ i → key ≢ k
  other_key i k h n f =
      let (e, p, q) = o.listed i k h in
      n (
        ap (λ (x : MemoryEntry). x.candidate_index)
          (some_eq (sym found ∙ ap (λ (j : ℕ). get j m) f ∙ p))
        ∙ q)

  -- What is still in the map was there before, under another key.
  pub still :
      (k : ℕ) (e : MemoryEntry) → get k (remove key m) ≡ some e → (key ≢ k) × (get k m ≡ some e)
  still k e h =
      let other : key ≢ k = λ f.
        some-none (
          sym h
          ∙ ap (λ (j : ℕ). get j (remove key m)) (sym f)
          ∙ get-remove_self key m o.distinct) in
      (other, sym (get-remove_ne key k m other) ∙ h)

  module _ (l : ℕ) (last : get_elem? cs (length cs - 1) ≡ some l) where
    in_place :
        (i k : ℕ)
        → old.candidate_index ≢ i
        → get_elem? (swap_remove cs old.candidate_index) i ≡ some k
        → (i < length cs - 1) × (get_elem? cs i ≡ some k)
    in_place i k n h =
        let low : i < length cs - 1 = omega (
          arith,
          get_elem?-lt (swap_remove cs old.candidate_index) i k h,
          length-swap_remove cs old.candidate_index l removed-lt last,
        ) in
        (low, sym (get_elem?-swap_remove_ne cs old.candidate_index l removed-lt last i low n) ∙ h)

    still_at :
        (k : ℕ) (e : MemoryEntry)
        → get k m ≡ some e
        → key ≢ k
        → l ≢ k
        → get_elem? (swap_remove cs old.candidate_index) e.candidate_index ≡ some k
    still_at k e p n u =
        let at = o.indexed k e p in
        let away : old.candidate_index ≢ e.candidate_index =
          λ f. n (same_key m cs o key k old e found p f) in
        let inner : (length cs - 1) ≢ e.candidate_index =
          λ f. u (some_eq (sym last ∙ ap (get_elem? cs) f ∙ at)) in
        get_elem?-swap_remove_ne cs old.candidate_index l removed-lt last e.candidate_index
          (omega (arith, get_elem?-lt cs e.candidate_index k at)) away
        ∙ at

    -- The removed candidate was the last one.
    pub Indexed-remove_last :
        old.candidate_index ≡ length cs - 1
        → Indexed (remove key m) (swap_remove cs old.candidate_index)
    Indexed-remove_last at_last = record {
      distinct = Distinct-remove key m o.distinct;
      listed = λ i k h.
          let low : i < length cs - 1 = omega (
            arith,
            get_elem?-lt (swap_remove cs old.candidate_index) i k h,
            length-swap_remove cs old.candidate_index l removed-lt last,
          ) in
          let n : old.candidate_index ≢ i = λ f. omega arith in
          let (_, at) = in_place i k n h in
          let (e, p, q) = o.listed i k at in (e, get-remove_ne key k m (other_key i k at n) ∙ p, q);
      indexed = λ k e h.
          let (n, p) = still k e h in
          let eq : l ≡ key =
            some_eq (sym last ∙ ap (get_elem? cs) (sym at_last) ∙ o.indexed key old found) in
          still_at k e p n (λ f. n (sym eq ∙ f));
    }

    -- Another candidate was the last one, and gets the place.
    pub Indexed-move_last :
        (f : MemoryEntry)
        → old.candidate_index < length cs - 1
        → get l m ≡ some f
        → f.candidate_index ≡ length cs - 1
        → Indexed
            (insert l (record f { candidate_index = old.candidate_index }) (remove key m))
            (swap_remove cs old.candidate_index)
    Indexed-move_last f inner there place =
        let i0 = old.candidate_index in
        let new = record f { candidate_index = i0 } in
        let m' = insert l new (remove key m) in
        let here = get_elem?-swap_remove_self cs i0 l removed-lt last inner in
        record {
          distinct = Distinct-insert l new (remove key m) (Distinct-remove key m o.distinct);
          listed = λ i k h. elim (ℕ_discrete i0 i) [
            | yes e ↦
                let same : l ≡ k = some_eq (sym here ∙ ap (get_elem? (swap_remove cs i0)) e ∙ h) in
                (new, ap (λ (j : ℕ). get j m') (sym same) ∙ get-insert_self l new (remove key m), e)
            | no n ↦
                let (low, at) = in_place i k n h in
                let (e, p, q) = o.listed i k at in
                let u : l ≢ k = λ g. omega (
                  arith,
                  place,
                  q,
                  ap (λ (x : MemoryEntry). x.candidate_index)
                      (some_eq (sym there ∙ ap (λ (j : ℕ). get j m) g ∙ p)),
                ) in
                (
                  e,
                  get-insert_ne l k new (remove key m) u
                      ∙ get-remove_ne key k m (other_key i k at n)
                      ∙ p,
                  q,
                )
          ];
          indexed = λ k e h. elim (ℕ_discrete l k) [
            | yes g ↦
                let same : new ≡ e =
                  some_eq
                    (sym (get-insert_self l new (remove key m)) ∙ ap (λ (j : ℕ). get j m') g ∙ h) in
                ap (λ (x : MemoryEntry). get_elem? (swap_remove cs i0) x.candidate_index) (sym same)
                ∙ here
                ∙ ap some g
            | no u ↦
                let (n, p) = still k e (sym (get-insert_ne l k new (remove key m) u) ∙ h) in
                still_at k e p n u
          ];
        }
