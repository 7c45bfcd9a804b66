-- ===== src/Memory/Store/Entries.antt =====
-- How the entries of a shard and its candidates belong together: add_entry of
-- feuer-memory/src/store/shard.rs.
use feuer.Base.{
  ℕ, ◌≤◌, ◌≡◌, refl, sym, ap, ◌∙◌, List, [], ◌∷◌, ◌++◌, none, some, arith, dec_lt, ℕ_discrete,
  length, get_elem?, get_elem?-lt, length-append,
}
use feuer.Base.HashMap.{
  HashMap, get, insert, Distinct, total, get-insert_self, get-insert_ne, Distinct-insert,
}
use feuer.Memory.Store.Shard.{MemoryEntry, MemoryCacheShard, new_shard}
use feuer.Memory.Store.Candidates.{get_elem?-snoc, get_elem?-snoc_lt}

abbrev pub charge_of : MemoryEntry → ℕ
charge_of e = e.allocation_charge

-- Every candidate is the key of an entry that has its place, and every entry is listed there.
pub record Indexed (m : HashMap MemoryEntry) (cs : List ℕ) : Type 0 where
  pub distinct : Distinct m
  pub listed :
      (i k : ℕ)
      → get_elem? cs i ≡ some k
      → (e : MemoryEntry) × (get k m ≡ some e) × (e.candidate_index ≡ i)
  pub indexed :
      (k : ℕ) (e : MemoryEntry) → get k m ≡ some e → get_elem? cs e.candidate_index ≡ some k

-- Besides, the used bytes are the charges.
pub record IsSound (s : MemoryCacheShard) : Type 0 where
  pub index : Indexed s.entries_by_key s.eviction_candidates
  pub used : s.used_bytes ≡ total charge_of s.entries_by_key

pub some_eq {ℓ} : {A : Type ℓ} {a b : A} → some a ≡ some b → a ≡ b
some_eq e = cc

pub some-none {ℓ} : {A : Type ℓ} {a : A} → ¬ (some a ≡ none)
some-none e = ground arith

pub new_shard-IsSound : (capacity : ℕ) → IsSound (new_shard capacity)
unfolding new_shard get Distinct total
new_shard-IsSound capacity = record {
  index = (record {
    distinct = tt;
    listed = λ i k h. absurd (some-none (sym h));
    indexed = λ k e h. absurd (some-none (sym h));
  });
  used = refl;
}

module _ (m : HashMap MemoryEntry) (cs : List ℕ) (o : Indexed m cs) where
  -- The index of an entry decides its key.
  pub same_key :
      (k j : ℕ) (e f : MemoryEntry)
      → get k m ≡ some e
      → get j m ≡ some f
      → e.candidate_index ≡ f.candidate_index
      → k ≡ j
  same_key k j e f p q h = some_eq (sym (o.indexed k e p) ∙ ap (get_elem? cs) h ∙ o.indexed j f q)

  at_end :
      (key i k : ℕ)
      → length cs ≤ i
      → get_elem? (cs ++ key ∷ []) i ≡ some k
      → (i ≡ length cs) × (key ≡ k)
  at_end key i k high h =
      let e : i ≡ length cs =
        omega (arith, get_elem?-lt (cs ++ key ∷ []) i k h, length-append cs (key ∷ [])) in
      (e, some_eq (sym (get_elem?-snoc cs key) ∙ ap (get_elem? (cs ++ key ∷ [])) (sym e) ∙ h))

  -- A new entry at the end of the candidates.
  pub Indexed-insert :
      (key : ℕ) (new : MemoryEntry)
      → get key m ≡ none
      → new.candidate_index ≡ length cs
      → Indexed (insert key new m) (cs ++ key ∷ [])
  Indexed-insert key new fresh last = record {
    distinct = Distinct-insert key new m o.distinct;
    listed = λ i k h. elim (dec_lt i (length cs)) [
      | yes low ↦
          let (e, p, q) = o.listed i k (sym (get_elem?-snoc_lt cs key i low) ∙ h) in
          (
            e,
            get-insert_ne key k new m
                  (λ f. some-none (sym p ∙ ap (λ (j : ℕ). get j m) (sym f) ∙ fresh))
                ∙ p,
            q,
          )
      | no high ↦
          let (e, f) = at_end key i k (omega arith) h in
          (
            new,
            ap (λ (j : ℕ). get j (insert key new m)) (sym f) ∙ get-insert_self key new m,
            last ∙ sym e,
          )
    ];
    indexed = λ k e h. elim (ℕ_discrete key k) [
      | yes f ↦
          let g : new ≡ e =
            some_eq
              (sym (get-insert_self key new m) ∙ ap (λ (j : ℕ). get j (insert key new m)) f ∙ h) in
          ap (λ (x : MemoryEntry). get_elem? (cs ++ key ∷ []) x.candidate_index) (sym g)
          ∙ ap (get_elem? (cs ++ key ∷ [])) last
          ∙ get_elem?-snoc cs key
          ∙ ap some f
      | no f ↦
          let p = o.indexed k e (sym (get-insert_ne key k new m f) ∙ h) in
          get_elem?-snoc_lt cs key e.candidate_index (get_elem?-lt cs e.candidate_index k p) ∙ p
    ];
  }
