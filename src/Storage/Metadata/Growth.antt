-- ===== src/Storage/Metadata/Growth.antt =====
-- Making room for more entries, and counting after recovery.
use mathlib.Core.Path.{subst}
use feuer.Base.{
  ℕ, zero, suc, ◌+◌, ◌-◌, ◌≤◌, ◌<◌, ◌≡◌, ◌⊎◌, inl, inr, refl, sym, ap, ◌∙◌, List, [], ◌∷◌, ◌++◌,
  Option, none, some, true, arith, length, get_elem?, set, sum, map, replicate, get_elem?-set_self,
  get_elem?-set_ne, get_elem?-lt, length-set, length-append, sum-set, map-set, get_elem?-map,
  Option-cases, ℕ_discrete, dec_lt, ltb, lt→ltb, Bool-cases,
}
use feuer.Storage.Allocation.{ReservedChunks}
use feuer.Storage.Allocation.Allocator.{DiskChunkAllocator, reserve_chunks, disk_byte_range}
use feuer.Storage.Metadata.{
  EntryMetadata, MetadataChunk, MetadataChunks, free_of, link_last, set_last_chunk_link, push_chunk,
  ensure_free_slots, reset_free_slots, entries_per_metadata_chunk, no_chunk,
}
use feuer.Storage.Metadata.Slots.{Full, free_of-replicate}
use feuer.Storage.Metadata.Search.{free_in, Startable}
use feuer.Storage.Metadata.Changes.{IsSound, some_eq}

-- The count and the start of the search are right after recovery, whatever the chunks hold.
pub reset_free_slots-IsSound : (m : MetadataChunks) → IsSound (reset_free_slots m)
unfolding reset_free_slots
reset_free_slots-IsSound m = record {
  counted = refl;
  full_before = λ k c h. absurd (omega arith);
  start_in = λ c h. (omega arith, λ j g. absurd (omega arith));
  start_valid = inr (refl, refl);
}

-- Linking changes the entries of no chunk.
link-entries :
    (cs : List MetadataChunk) (address i : ℕ) (c : MetadataChunk)
    → get_elem? (link_last cs address) i ≡ some c
    → (d : MetadataChunk) × (get_elem? cs i ≡ some d) × (d.entries ≡ c.entries)
link-entries cs address i c h = elim (Option-cases (get_elem? cs (length cs - 1))) [
  | inl e ↦ (c, rw (e, link_last) at h, refl)
  | inr (last, e) ↦
      let new = record last { next_chunk_address = address } in
      let g : get_elem? (set cs (length cs - 1) new) i ≡ some c = rw (e, link_last) at h in
      elim (ℕ_discrete (length cs - 1) i) [
        | no n ↦ (c, sym (get_elem?-set_ne cs (length cs - 1) i new n) ∙ g, refl)
        | yes k ↦
            let same : new ≡ c = some_eq (
              sym
                (get_elem?-set_self cs (length cs - 1) new (get_elem?-lt cs (length cs - 1) last e))
              ∙ ap (get_elem? (set cs (length cs - 1) new)) k
              ∙ g) in
            (last, ap (get_elem? cs) (sym k) ∙ e, ap (λ (x : MetadataChunk). x.entries) same)
      ]
]

link-length : (cs : List MetadataChunk) (address : ℕ) → length (link_last cs address) ≡ length cs
link-length cs address = elim (Option-cases (get_elem? cs (length cs - 1))) [
  | inl e ↦ rw (e, link_last) refl
  | inr (last, e) ↦ rw (e, link_last) (length-set cs (length cs - 1) _)
]

link-sum :
    (cs : List MetadataChunk) (address : ℕ)
    → sum (map free_in (link_last cs address)) ≡ sum (map free_in cs)
link-sum cs address = elim (Option-cases (get_elem? cs (length cs - 1))) [
  | inl e ↦ rw (e, link_last) refl
  | inr (last, e) ↦
      let new = record last { next_chunk_address = address } in
      rw (e, link_last, map-set free_in cs (length cs - 1) new)
        (omega (
          arith,
          sum-set (map free_in cs) (length cs - 1) (free_in last) (free_in last)
              (get_elem?-map free_in cs (length cs - 1) last e),
        ))
]

snoc-cases :
    (cs : List MetadataChunk) (x : MetadataChunk) (i : ℕ) (c : MetadataChunk)
    → get_elem? (cs ++ x ∷ []) i ≡ some c
    → (get_elem? cs i ≡ some c) ⊎ ((i ≡ length cs) × (x ≡ c))
snoc-cases [] x zero c h = inr (refl, some_eq h)
snoc-cases [] x (suc i) c h = absurd (ground arith)
snoc-cases (d ∷ cs) x zero c h = inl h
snoc-cases (d ∷ cs) x (suc i) c h = elim (snoc-cases cs x i c h) [
  | inl e ↦ inl e
  | inr (e, f) ↦ inr (ap suc e, f)
]

snoc-sum :
    (cs : List MetadataChunk) (x : MetadataChunk)
    → sum (map free_in (cs ++ x ∷ [])) ≡ sum (map free_in cs) + free_in x
snoc-sum [] x = omega arith
snoc-sum (d ∷ cs) x = omega (arith, snoc-sum cs x)

snoc-left :
    (cs : List MetadataChunk) (x : MetadataChunk) (i : ℕ)
    → i < length cs
    → get_elem? (cs ++ x ∷ []) i ≡ get_elem? cs i
snoc-left [] x i h = elim h [ ]
snoc-left (d ∷ cs) x zero h = refl
snoc-left (d ∷ cs) x (suc i) h = snoc-left cs x i (omega arith)

module _ (m : MetadataChunks) (o : IsSound m) where
  linked-IsSound : (address : ℕ) → IsSound (record m { chunks = link_last m.chunks address })
  linked-IsSound address = record {
    counted = o.counted ∙ sym (link-sum m.chunks address);
    full_before = λ k c h g.
        let (d, at, e) = link-entries m.chunks address k c g in
        ap free_of (sym e) ∙ o.full_before k d h at;
    start_in = λ c g.
        let (d, at, e) = link-entries m.chunks address m.free_slot_search_start.chunk_index c g in
        subst
          (λ (es : List (Option EntryMetadata)).
            (m.free_slot_search_start.entry_index ≤ length es)
            × Full es m.free_slot_search_start.entry_index)
          e (o.start_in d at);
    start_valid = rw (link-length m.chunks address) o.start_valid;
  }

  link-IsSound : (address : ℕ) → IsSound (set_last_chunk_link m address)
  unfolding set_last_chunk_link
  link-IsSound address = elim (Bool-cases (ltb 0 (length m.chunks))) [
    | inr e ↦ rw e o
    | inl e ↦
        let p = linked-IsSound address in
        rw e (record {
          counted = p.counted;
          full_before = p.full_before;
          start_in = p.start_in;
          start_valid = p.start_valid;
        })
  ]

  push-IsSound : (reserved : ReservedChunks) → IsSound (push_chunk m reserved)
  push-IsSound reserved =
      let new : MetadataChunk = record {
        reserved_chunk = reserved;
        entries = replicate entries_per_metadata_chunk none;
        next_chunk_address = no_chunk;
        needs_full_write = true;
      } in
      let size : free_in new ≡ entries_per_metadata_chunk =
        free_of-replicate EntryMetadata entries_per_metadata_chunk in
      record {
        counted = omega (arith, o.counted, snoc-sum m.chunks new, size);
        full_before = λ k c h g. elim (snoc-cases m.chunks new k c g) [
          | inl e ↦ o.full_before k c h e
          | inr (e, f) ↦ absurd (ground (arith, o.start_valid))
        ];
        start_in = λ c g. elim (snoc-cases m.chunks new m.free_slot_search_start.chunk_index c g) [
          | inl e ↦ o.start_in c e
          | inr (e, f) ↦ at_start c (ground (arith, o.start_valid))
        ];
        start_valid = inl (ground (arith, o.start_valid, length-append m.chunks (new ∷ [])));
      }
    where
      at_start :
          (c : MetadataChunk)
          → m.free_slot_search_start.entry_index ≡ 0
          → Startable c m.free_slot_search_start.entry_index
      at_start c e = (omega arith, λ j h. absurd (omega arith))

module _ (m : MetadataChunks) (o : IsSound m) where
  ensure-grow :
      (count : ℕ) (a : DiskChunkAllocator) (r : ReservedChunks) (b : DiskChunkAllocator)
      → m.free_slot_count < count
      → reserve_chunks a 1 ≡ some (r, b)
      → ensure_free_slots m count a
        ≡ some (push_chunk (set_last_chunk_link m (disk_byte_range r).start) r, b)
  unfolding ensure_free_slots
  ensure-grow count a r b h e = rw (lt→ltb m.free_slot_count count h, e, ensure_free_slots) refl

  ensure-refuse :
      (count : ℕ) (a : DiskChunkAllocator)
      → m.free_slot_count < count
      → reserve_chunks a 1 ≡ none
      → ensure_free_slots m count a ≡ none
  unfolding ensure_free_slots
  ensure-refuse count a h e = rw (lt→ltb m.free_slot_count count h, e, ensure_free_slots) refl

  ensure-enough :
      (count : ℕ) (a : DiskChunkAllocator)
      → count ≤ m.free_slot_count
      → ensure_free_slots m count a ≡ some (m, a)
  unfolding ensure_free_slots
  ensure-enough count a h = ground arith

  -- With sound books, for at most a chunk's worth of slots, the call fails only if there are too
  -- few and the allocator has no chunk. Otherwise there are enough slots, and the books stay
  -- sound.
  pub ensure_free_slots-IsSound :
      (count : ℕ) (a : DiskChunkAllocator)
      → count ≤ entries_per_metadata_chunk
      → ((ensure_free_slots m count a ≡ none)
          × (m.free_slot_count < count)
          × (reserve_chunks a 1 ≡ none))
        ⊎ ((n : MetadataChunks) × (b : DiskChunkAllocator) × (ensure_free_slots m count a
              ≡ some (n, b))
            × IsSound n
            × (count ≤ n.free_slot_count))
  ensure_free_slots-IsSound count a h = elim (dec_lt m.free_slot_count count) [
    | no enough ↦ inr (m, a, ensure-enough count a (omega arith), o, omega arith)
    | yes few ↦ elim (Option-cases (reserve_chunks a 1)) [
      | inl e ↦ inl (ensure-refuse count a few e, few, e)
      | inr ((r, b), e) ↦ inr (
        _,
        b,
        ensure-grow count a r b few e,
        push-IsSound (set_last_chunk_link m (disk_byte_range r).start)
            (link-IsSound m o (disk_byte_range r).start) r,
        omega arith,
      )
    ]
  ]
