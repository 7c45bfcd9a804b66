-- ===== src/Storage/Metadata/Freeing.antt =====
-- Freeing a slot.
use mathlib.Core.Path.{subst}
use feuer.Base.{
  ℕ, suc, ◌+◌, ◌≤◌, ◌<◌, ◌≡◌, ◌≢◌, ◌⊎◌, inl, inr, refl, sym, ap, ◌∙◌, none, some, arith, length,
  get_elem?, set, sum, map, get_elem?-set_self, get_elem?-set_ne, get_elem?-lt, length-set,
  Option-cases,
}
use feuer.Storage.Metadata.{
  EntryMetadata, EntryMetadataLocation, MetadataChunk, MetadataChunks, write_entry, read_entry,
  min_location, free_entry_metadata, mark_page_dirty,
}
use feuer.Storage.Metadata.Slots.{Full, free_of-clear, free_of-Full}
use feuer.Storage.Metadata.Search.{free_in, Startable}
use feuer.Storage.Metadata.Changes.{
  IsSound, some_eq, write_self, write_length, write_other, write_sum, elsewhere, entry_of,
}

-- The state after a slot was freed.
abbrev pub freed_at : MetadataChunks → EntryMetadataLocation → MetadataChunks
freed_at m l =
    mark_page_dirty
      (record m {
        chunks = write_entry m.chunks l none;
        free_slot_search_start = min_location m.free_slot_search_start l;
        free_slot_count = m.free_slot_count + 1;
      })
      l

min_location-cases :
    (a l : EntryMetadataLocation)
    → ((min_location a l ≡ l)
        × ((l.chunk_index < a.chunk_index)
            ⊎ ((l.chunk_index ≡ a.chunk_index) × (l.entry_index < a.entry_index))))
      ⊎ ((min_location a l ≡ a)
          × ((a.chunk_index < l.chunk_index)
              ⊎ ((l.chunk_index ≡ a.chunk_index) × (a.entry_index ≤ l.entry_index))))
unfolding min_location
min_location-cases a l = ground arith

module _ (m : MetadataChunks) (o : IsSound m) (l : EntryMetadataLocation) (x : EntryMetadata)
    (live : read_entry m.chunks l ≡ some (some x)) where
  owner :
      (c : MetadataChunk) × (get_elem? m.chunks l.chunk_index ≡ some c)
      × (get_elem? c.entries l.entry_index ≡ some (some x))
  owner = elim (Option-cases (get_elem? m.chunks l.chunk_index)) [
    | inl e ↦ absurd (ground arith)
    | inr (c, e) ↦ (c, e, sym (ap (entry_of l.entry_index) e) ∙ live)
  ]

  free-eq : free_entry_metadata m l ≡ some (freed_at m l)
  unfolding free_entry_metadata
  free-eq = rw (live, free_entry_metadata) refl

  earlier-Full :
      (c : MetadataChunk)
      → get_elem? m.chunks l.chunk_index ≡ some c
      → ((l.chunk_index < m.free_slot_search_start.chunk_index)
          ⊎ ((l.chunk_index ≡ m.free_slot_search_start.chunk_index)
              × (l.entry_index < m.free_slot_search_start.entry_index)))
      → Full c.entries l.entry_index
  earlier-Full c at (inl h) =
      free_of-Full c.entries l.entry_index (o.full_before l.chunk_index c h at)
  earlier-Full c at (inr (e, h)) =
      λ j k g. (o.start_in c (ap (get_elem? m.chunks) (sym e) ∙ at)).1 j (omega arith) g

  keep-Full :
      (c : MetadataChunk) (n : ℕ)
      → n ≤ l.entry_index
      → Full c.entries n
      → Full (set c.entries l.entry_index none) n
  keep-Full c n h f j k e =
      f j k (sym (get_elem?-set_ne c.entries l.entry_index j none (λ g. omega arith)) ∙ e)

  unfull :
      (k : ℕ) (c : MetadataChunk)
      → l.chunk_index ≢ k
      → k < m.free_slot_search_start.chunk_index
      → get_elem? (write_entry m.chunks l none) k ≡ some c
      → free_in c ≡ 0
  unfull k c n h e = o.full_before k c h (sym (write_other m.chunks l owner.0 owner.1 none k n) ∙ e)

  start_here :
      Full owner.0.entries l.entry_index
      → (c : MetadataChunk) → get_elem? (write_entry m.chunks l none) l.chunk_index ≡ some c
      → Startable c l.entry_index
  start_here f c e =
      let (d, at, taken) = owner in
      subst (λ (u : MetadataChunk). Startable u l.entry_index)
        (some_eq (sym (write_self m.chunks l d at none) ∙ e))
        (
          omega (
            arith,
            length-set d.entries l.entry_index none,
            get_elem?-lt d.entries l.entry_index (some x) taken,
          ),
          keep-Full d l.entry_index (omega arith) f,
        )

  start_kept :
      ((m.free_slot_search_start.chunk_index < l.chunk_index)
        ⊎ ((l.chunk_index ≡ m.free_slot_search_start.chunk_index)
            × (m.free_slot_search_start.entry_index ≤ l.entry_index)))
      → (c : MetadataChunk)
      → get_elem? (write_entry m.chunks l none) m.free_slot_search_start.chunk_index ≡ some c
      → Startable c m.free_slot_search_start.entry_index
  start_kept (inl h) c e = o.start_in c (
      sym (
        write_other m.chunks l owner.0 owner.1 none m.free_slot_search_start.chunk_index
          (λ g. omega arith))
      ∙ e)
  start_kept (inr (g, h)) c e =
      let (d, at, taken) = owner in
      let old = o.start_in d (ap (get_elem? m.chunks) (sym g) ∙ at) in
      subst (λ (u : MetadataChunk). Startable u m.free_slot_search_start.entry_index)
        (some_eq (
          sym (write_self m.chunks l d at none)
          ∙ ap (get_elem? (write_entry m.chunks l none)) g
          ∙ e))
        (
          omega (arith, length-set d.entries l.entry_index none, old.0),
          keep-Full d m.free_slot_search_start.entry_index h old.1,
        )

  freed-counted : (freed_at m l).free_slot_count ≡ sum (map free_in (freed_at m l).chunks)
  freed-counted =
      let (d, at, taken) = owner in
      omega (
        arith,
        o.counted,
        write_sum m.chunks l d at none,
        free_of-clear d.entries l.entry_index x taken,
      )

  same_length : length (write_entry m.chunks l none) ≡ length m.chunks
  same_length = write_length m.chunks l owner.0 owner.1 none

  freed-IsSound : IsSound (freed_at m l)
  freed-IsSound = elim (min_location-cases m.free_slot_search_start l) [
    | inl (e, h) ↦ rw e (record {
      counted = freed-counted;
      full_before = λ k c b g. unfull k c (λ f. omega arith) (ground arith) g;
      start_in = λ c g. start_here (earlier-Full owner.0 owner.1 h) c g;
      start_valid =
          inl (omega (arith, same_length, get_elem?-lt m.chunks l.chunk_index owner.0 owner.1));
    })
    | inr (e, h) ↦ rw e (record {
      counted = freed-counted;
      full_before = λ k c b g. unfull k c (λ f. ground arith) b g;
      start_in = λ c g. start_kept h c g;
      start_valid = rw same_length o.start_valid;
    })
  ]

  -- With sound books, freeing a taken slot does not panic. The slot is free afterwards, no other
  -- location changes, the count of the free slots grows by one, and the books stay sound.
  pub free_entry_metadata-IsSound :
      (n : MetadataChunks) × (free_entry_metadata m l ≡ some n)
      × IsSound n
      × (read_entry n.chunks l ≡ some none)
      × ((j : EntryMetadataLocation)
          → (l.chunk_index ≢ j.chunk_index) ⊎ (l.entry_index ≢ j.entry_index)
          → read_entry n.chunks j ≡ read_entry m.chunks j)
      × (n.free_slot_count ≡ suc m.free_slot_count)
  free_entry_metadata-IsSound =
      let (d, at, taken) = owner in
      (
        freed_at m l,
        free-eq,
        freed-IsSound,
        ap (entry_of l.entry_index) (write_self m.chunks l d at none)
            ∙ get_elem?-set_self d.entries l.entry_index none
                (get_elem?-lt d.entries l.entry_index (some x) taken),
        elsewhere m.chunks l d at none,
        omega arith,
      )
