-- ===== src/Storage/Metadata/Changes.antt =====
-- Storing and freeing entry metadata.
use mathlib.Core.Path.{subst}
use feuer.Base.{
  ℕ, zero, suc, ◌+◌, ◌-◌, ◌<◌, ◌≡◌, ◌≢◌, ◌⊎◌, inl, inr, refl, sym, ap, ◌∙◌, List, [], ◌∷◌, Option,
  none, some, arith, length, get_elem?, set, drop, sum, map, sum-set, map-set, get_elem?-map,
  get_elem?-set_self, get_elem?-set_ne, get_elem?-lt, get_elem?-drop, length-set, ℕ_discrete,
  dec_lt,
}
use feuer.Storage.Metadata.{
  EntryMetadata, EntryMetadataLocation, MetadataChunk, MetadataChunks, find_slot, write_entry,
  read_entry, stored_at, store_entry_metadata,
}
use feuer.Storage.Metadata.Slots.{First, free_of-take}
use feuer.Storage.Metadata.Search.{free_in, Startable, find_slot-Found}

-- The free slots are counted, and there is none before the start of the search.
pub record IsSound (m : MetadataChunks) : Type 0 where
  pub counted : m.free_slot_count ≡ sum (map free_in m.chunks)
  pub full_before :
      (k : ℕ) (c : MetadataChunk)
      → k < m.free_slot_search_start.chunk_index
      → get_elem? m.chunks k ≡ some c
      → free_in c ≡ 0
  pub start_in :
      (c : MetadataChunk)
      → get_elem? m.chunks m.free_slot_search_start.chunk_index ≡ some c
      → Startable c m.free_slot_search_start.entry_index
  pub start_valid :
      (m.free_slot_search_start.chunk_index < length m.chunks)
      ⊎ ((m.free_slot_search_start.chunk_index ≡ 0) × (m.free_slot_search_start.entry_index ≡ 0))

-- The location is free, and every slot before it is taken.
pub record FirstSlot (chunks : List MetadataChunk) (l : EntryMetadataLocation) : Type 0 where
  pub chunk : MetadataChunk
  pub listed : get_elem? chunks l.chunk_index ≡ some chunk
  pub first : First chunk.entries l.entry_index
  pub earlier :
      (k : ℕ) (c : MetadataChunk) → k < l.chunk_index → get_elem? chunks k ≡ some c → free_in c ≡ 0

pub some_eq {ℓ} : {A : Type ℓ} {a b : A} → some a ≡ some b → a ≡ b
some_eq e = cc

sum-drop :
    (cs : List MetadataChunk) (k : ℕ)
    → ((j : ℕ) (c : MetadataChunk) → j < k → get_elem? cs j ≡ some c → free_in c ≡ 0)
    → sum (map free_in (drop k cs)) ≡ sum (map free_in cs)
sum-drop cs zero h = refl
sum-drop [] (suc k) h = refl
sum-drop (c ∷ cs) (suc k) h =
    omega (arith, h 0 c (omega arith) refl, sum-drop cs k (λ j d b. h (suc j) d (omega arith)))

abbrev pub entry_of : ℕ → Option MetadataChunk → Option (Option EntryMetadata)
entry_of e o = elim o [ none ↦ none | some c ↦ get_elem? c.entries e ]

-- The chunks with one entry written.
module _ (cs : List MetadataChunk) (l : EntryMetadataLocation) (c : MetadataChunk)
    (at : get_elem? cs l.chunk_index ≡ some c) (v : Option EntryMetadata) where
  abbrev pub written : MetadataChunk
  written = record c { entries = set c.entries l.entry_index v }

  pub write_eq : write_entry cs l v ≡ set cs l.chunk_index written
  write_eq = rw (at, write_entry) refl

  pub write_length : length (write_entry cs l v) ≡ length cs
  write_length = rw write_eq (length-set cs l.chunk_index written)

  pub write_self : get_elem? (write_entry cs l v) l.chunk_index ≡ some written
  write_self =
      rw write_eq (get_elem?-set_self cs l.chunk_index written (get_elem?-lt cs l.chunk_index c at))

  pub write_other : (k : ℕ) → l.chunk_index ≢ k → get_elem? (write_entry cs l v) k ≡ get_elem? cs k
  write_other k h = rw write_eq (get_elem?-set_ne cs l.chunk_index k written h)

  pub write_sum :
      sum (map free_in (write_entry cs l v)) + free_in c ≡ sum (map free_in cs) + free_in written
  write_sum =
      rw (write_eq, map-set free_in cs l.chunk_index written)
        (sum-set (map free_in cs) l.chunk_index (free_in c) (free_in written)
          (get_elem?-map free_in cs l.chunk_index c at))

  pub elsewhere :
      (j : EntryMetadataLocation)
      → (l.chunk_index ≢ j.chunk_index) ⊎ (l.entry_index ≢ j.entry_index)
      → read_entry (write_entry cs l v) j ≡ read_entry cs j
  elsewhere j h = elim (ℕ_discrete l.chunk_index j.chunk_index) [
    | no n ↦ rw (read_entry, write_other j.chunk_index n) refl
    | yes e ↦ elim h [
      | inl n ↦ absurd (n e)
      | inr n ↦
          let there : get_elem? (write_entry cs l v) j.chunk_index ≡ some written =
            ap (get_elem? (write_entry cs l v)) (sym e) ∙ write_self in
          let unwritten : get_elem? cs j.chunk_index ≡ some c = ap (get_elem? cs) (sym e) ∙ at in
          ap (entry_of j.entry_index) there
          ∙ get_elem?-set_ne c.entries l.entry_index j.entry_index v n
          ∙ sym (ap (entry_of j.entry_index) unwritten)
    ]
  ]

module _ (m : MetadataChunks) (o : IsSound m) where
  first_slot :
      0 < m.free_slot_count
      → (l : EntryMetadataLocation) × (find_slot
            (drop m.free_slot_search_start.chunk_index m.chunks)
            m.free_slot_search_start
          ≡ some l)
        × FirstSlot m.chunks l
  first_slot pos =
      let start = m.free_slot_search_start in
      let s = start.chunk_index in
      let (l, e, f) =
        find_slot-Found (drop s m.chunks) start
          (λ c h.
            o.start_in c
              (ap (get_elem? m.chunks) (omega arith) ∙ sym (get_elem?-drop m.chunks s 0) ∙ h))
          (omega (arith, o.counted, sum-drop m.chunks s o.full_before)) in
      (
        l,
        e,
        record {
          chunk = f.chunk;
          listed =
              ap (get_elem? m.chunks) f.at ∙ sym (get_elem?-drop m.chunks s f.offset) ∙ f.listed;
          first = f.first;
          earlier = λ k c h g. elim (dec_lt k s) [
            | yes b ↦ o.full_before k c b g
            | no b ↦
                f.earlier (k - s) c (omega (arith, f.at))
                  (get_elem?-drop m.chunks s (k - s) ∙ ap (get_elem? m.chunks) (omega arith) ∙ g)
          ];
        },
      )

  store-eq :
      (x : EntryMetadata) (l : EntryMetadataLocation)
      → find_slot (drop m.free_slot_search_start.chunk_index m.chunks) m.free_slot_search_start
        ≡ some l
      → store_entry_metadata m x ≡ some (l, stored_at m x l)
  unfolding store_entry_metadata
  store-eq x l e = rw (e, store_entry_metadata) refl

  stored-IsSound :
      (x : EntryMetadata) (l : EntryMetadataLocation)
      → 0 < m.free_slot_count
      → FirstSlot m.chunks l
      → IsSound (stored_at m x l)
  stored-IsSound x l pos f =
      let w = write_sum m.chunks l f.chunk f.listed (some x) in
      let one = free_of-take f.chunk.entries l.entry_index x f.first.free in
      record {
        counted = omega (arith, o.counted, w, one);
        full_before = λ k c h g.
            f.earlier k c h
              (sym (write_other m.chunks l f.chunk f.listed (some x) k (λ e. omega arith)) ∙ g);
        start_in = λ c g.
            subst (λ (d : MetadataChunk). Startable d l.entry_index)
              (some_eq (sym (write_self m.chunks l f.chunk f.listed (some x)) ∙ g))
              (
                omega (
                  arith,
                  length-set f.chunk.entries l.entry_index (some x),
                  get_elem?-lt f.chunk.entries l.entry_index none f.first.free,
                ),
                λ j h e. f.first.full_below j h (
                    sym
                      (get_elem?-set_ne f.chunk.entries l.entry_index j (some x) (λ k. omega arith))
                    ∙ e),
              );
        start_valid = inl (
            omega (
              arith,
              write_length m.chunks l f.chunk f.listed (some x),
              get_elem?-lt m.chunks l.chunk_index f.chunk f.listed,
            ));
      }

  -- With sound books and a free slot, storing does not panic. It takes the first free slot, reads
  -- back there, and changes no other location. The count of the free slots falls by one, and the
  -- books stay sound.
  pub store_entry_metadata-FirstSlot :
      (x : EntryMetadata)
      → 0 < m.free_slot_count
      → (l : EntryMetadataLocation) × (n : MetadataChunks) × (store_entry_metadata m x
          ≡ some (l, n))
        × FirstSlot m.chunks l
        × IsSound n
        × (read_entry n.chunks l ≡ some (some x))
        × ((j : EntryMetadataLocation)
            → (l.chunk_index ≢ j.chunk_index) ⊎ (l.entry_index ≢ j.entry_index)
            → read_entry n.chunks j ≡ read_entry m.chunks j)
        × (suc n.free_slot_count ≡ m.free_slot_count)
  store_entry_metadata-FirstSlot x pos =
      let (l, e, f) = first_slot pos in
      (
        l,
        stored_at m x l,
        store-eq x l e,
        f,
        stored-IsSound x l pos f,
        rw (read_entry, write_self m.chunks l f.chunk f.listed (some x))
            (get_elem?-set_self f.chunk.entries l.entry_index (some x)
              (get_elem?-lt f.chunk.entries l.entry_index none f.first.free)),
        elsewhere m.chunks l f.chunk f.listed (some x),
        omega arith,
      )
