-- ===== src/Storage/Metadata/Search.antt =====
-- The search for the first free slot.
use feuer.Base.{
  ℕ, zero, suc, ◌+◌, ◌≤◌, ◌<◌, ◌≡◌, inl, inr, refl, sym, ◌∙◌, List, [], ◌∷◌, none, some, arith,
  length, get_elem?, drop, sum, map, le→leb,
}
use feuer.Storage.Metadata.{EntryMetadataLocation, MetadataChunk, find_slot, position_none, free_of}
use feuer.Storage.Metadata.Slots.{Full, First, position_none-First, free_of-drop, First-drop}

abbrev pub free_in : MetadataChunk → ℕ
free_in c = free_of c.entries

-- The search can start in this chunk at this entry.
abbrev pub Startable : MetadataChunk → ℕ → Type 0
Startable c e = (e ≤ length c.entries) × Full c.entries e

-- The location is the first free slot of the chunks, which are numbered from `base` on.
pub record Found (cs : List MetadataChunk) (base : ℕ) (location : EntryMetadataLocation)
    : Type 0 where
  pub chunk : MetadataChunk
  pub offset : ℕ
  pub at : location.chunk_index ≡ base + offset
  pub listed : get_elem? cs offset ≡ some chunk
  pub first : First chunk.entries location.entry_index
  pub earlier : (k : ℕ) (c : MetadataChunk) → k < offset → get_elem? cs k ≡ some c → free_in c ≡ 0

Found-here :
    (c : MetadataChunk) (cs : List MetadataChunk) (base i : ℕ)
    → First c.entries i
    → Found (c ∷ cs) base (record { chunk_index = base; entry_index = i })
Found-here c cs base i f = record {
  chunk = c;
  offset = 0;
  at = omega arith;
  listed = refl;
  first = f;
  earlier = λ k d h. absurd (omega arith);
}

Found-later :
    (c : MetadataChunk) (cs : List MetadataChunk) (base : ℕ) (l : EntryMetadataLocation)
    → free_in c ≡ 0
    → Found cs (base + 1) l
    → Found (c ∷ cs) base l
Found-later c cs base l z f = record {
  chunk = f.chunk;
  offset = suc f.offset;
  at = omega (arith, f.at);
  listed = f.listed;
  first = f.first;
  earlier = below;
}
  where
    same : {a b : MetadataChunk} → some a ≡ some b → a ≡ b
    same e = cc

    below :
        (k : ℕ) (d : MetadataChunk)
        → k < suc f.offset
        → get_elem? (c ∷ cs) k ≡ some d
        → free_in d ≡ 0
    below zero d h e = rw⁻¹ (same e) z
    below (suc k) d h e = f.earlier k d (omega arith) e

module _ (c : MetadataChunk) (cs : List MetadataChunk) (start : EntryMetadataLocation)
    (ok : start.entry_index ≤ length c.entries) where
  find-here :
      (i : ℕ)
      → position_none (drop start.entry_index c.entries) ≡ some i
      → find_slot (c ∷ cs) start ≡ some (record start { entry_index = start.entry_index + i })
  unfolding find_slot
  find-here i e = rw (le→leb start.entry_index (length c.entries) ok, e, find_slot) refl

  find-later :
      position_none (drop start.entry_index c.entries) ≡ none
      → find_slot (c ∷ cs) start
        ≡ find_slot cs (record { chunk_index = start.chunk_index + 1; entry_index = 0 })
  unfolding find_slot
  find-later e = rw (le→leb start.entry_index (length c.entries) ok, e, find_slot) refl

-- With a free slot, the search finds the first one.
pub find_slot-Found :
    (cs : List MetadataChunk) (start : EntryMetadataLocation)
    → ((c : MetadataChunk) → get_elem? cs 0 ≡ some c → Startable c start.entry_index)
    → 0 < sum (map free_in cs)
    → (l : EntryMetadataLocation) × (find_slot cs start ≡ some l) × Found cs start.chunk_index l
find_slot-Found [] start h pos = elim pos [ ]
find_slot-Found (c ∷ cs) start h pos =
    let (ok, full) = h c refl in
    let same = free_of-drop c.entries start.entry_index full in
    elim (position_none-First (drop start.entry_index c.entries)) [
      | inr (i, e, f) ↦ (
        _,
        find-here c cs start ok i e,
        Found-here c cs start.chunk_index (start.entry_index + i)
            (First-drop c.entries start.entry_index i full f),
      )
      | inl (e, z) ↦
          let next : EntryMetadataLocation = record {
            chunk_index = start.chunk_index + 1;
            entry_index = 0;
          } in
          let (l, p, f) =
            find_slot-Found cs next (λ d g. (omega arith, λ j b. absurd (omega arith)))
              (omega arith) in
          (l, find-later c cs start ok e ∙ p, Found-later c cs start.chunk_index l (sym same ∙ z) f)
    ]
