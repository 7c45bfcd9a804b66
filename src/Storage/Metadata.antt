-- ===== src/Storage/Metadata.antt =====
-- feuer-storage/src/disk_cache/metadata.rs: the slots for entry metadata, in chunks. A call holds the
-- metadata mutex. `none` is a panic. The sizes are those of
-- feuer-storage/src/disk_cache/page_format.rs.
pub mod Slots
pub mod Search
pub mod Changes
pub mod Freeing
pub mod Growth
pub mod Pages
pub mod Recovery
mod Tests
use feuer.Base.{
  ℕ, zero, suc, ◌+◌, ◌-◌, ◌*◌, ◌/◌, List, [], ◌∷◌, ◌++◌, Option, none, some, Bool, true, false,
  ◌&&◌, ◌||◌, ltb, leb, ◌==◌, if◌then◌else◌, length, get_elem?, set, drop, replicate, map, sum,
}
use feuer.Storage.Allocation.{ReservedChunks, chunk_bytes}
use feuer.Storage.Allocation.Allocator.{DiskChunkAllocator, reserve_chunks, disk_byte_range}

abbrev pub entries_per_metadata_page : ℕ
entries_per_metadata_page = (4096 - 32) / 40

abbrev pub entry_metadata_pages_per_chunk : ℕ
entry_metadata_pages_per_chunk = chunk_bytes / 4096 - 1

unfoldable pub entries_per_metadata_chunk : ℕ
entries_per_metadata_chunk = entry_metadata_pages_per_chunk * entries_per_metadata_page

abbrev pub no_chunk : ℕ
no_chunk = 18446744073709551615

pub record EntryMetadata : Type 0 where
  pub key : ℕ
  pub payload_len : ℕ
  pub payload_address : ℕ
  pub payload_checksum : ℕ

pub record EntryMetadataLocation : Type 0 where
  pub chunk_index : ℕ
  pub entry_index : ℕ

pub record MetadataPageLocation : Type 0 where
  pub page_chunk_index : ℕ
  pub page_index : ℕ

pub record MetadataChunk : Type 0 where
  pub reserved_chunk : ReservedChunks
  pub entries : List (Option EntryMetadata)
  pub next_chunk_address : ℕ
  pub needs_full_write : Bool

-- The dirty pages are in order, without duplicates.
pub record MetadataChunks : Type 0 where
  pub chunks : List MetadataChunk
  pub dirty_pages : List MetadataPageLocation
  pub free_slot_search_start : EntryMetadataLocation
  pub free_slot_count : ℕ

-- `BTreeSet::insert`, in the order of the fields.
unfoldable pub insert_page :
    MetadataPageLocation → List MetadataPageLocation → List MetadataPageLocation
insert_page p [] = p ∷ []
insert_page p (q ∷ qs) =
    let rest = insert_page p qs in
    if ltb p.page_chunk_index q.page_chunk_index
      || ((p.page_chunk_index == q.page_chunk_index) && ltb p.page_index q.page_index)
    then p ∷ q ∷ qs
    else if (p.page_chunk_index == q.page_chunk_index) && (p.page_index == q.page_index)
    then q ∷ qs
    else q ∷ rest

abbrev pub mark_page_dirty : MetadataChunks → EntryMetadataLocation → MetadataChunks
mark_page_dirty m location = record m {
  dirty_pages =
      insert_page
        (record {
          page_chunk_index = location.chunk_index;
          page_index = location.entry_index / entries_per_metadata_page;
        })
        m.dirty_pages;
}

abbrev pub mark_link_page_dirty : MetadataChunks → ℕ → MetadataChunks
mark_link_page_dirty m chunk_index = record m {
  dirty_pages =
      insert_page
        (record { page_chunk_index = chunk_index; page_index = entry_metadata_pages_per_chunk })
        m.dirty_pages;
}

-- `iter().position(Option::is_none)`.
unfoldable pub position_none {ℓ} : {A : Type ℓ} → List (Option A) → Option ℕ
position_none [] = none
position_none (none ∷ es) = some 0
position_none (some e ∷ es) = elim (position_none es) [ none ↦ none | some i ↦ some (suc i) ]

-- The loop of `store_entry_metadata`, over the chunks from the start's on.
unfoldable pub find_slot : List MetadataChunk → EntryMetadataLocation → Option EntryMetadataLocation
find_slot [] start = none
find_slot (chunk ∷ chunks) start = elim (leb start.entry_index (length chunk.entries)) [
  | false ↦ none
  | true ↦ elim (position_none (drop start.entry_index chunk.entries)) [
    | some offset ↦ some (record start { entry_index = start.entry_index + offset })
    | none ↦ find_slot chunks (record { chunk_index = start.chunk_index + 1; entry_index = 0 })
  ]
]

abbrev pub write_entry :
    List MetadataChunk → EntryMetadataLocation → Option EntryMetadata → List MetadataChunk
write_entry chunks location entry = elim (get_elem? chunks location.chunk_index) [
  | none ↦ chunks
  | some chunk ↦
      set chunks location.chunk_index
        (record chunk { entries = set chunk.entries location.entry_index entry })
]

-- The entry at a location, if there is such a location.
abbrev pub read_entry : List MetadataChunk → EntryMetadataLocation → Option (Option EntryMetadata)
read_entry chunks location = elim (get_elem? chunks location.chunk_index) [
  | none ↦ none
  | some chunk ↦ get_elem? chunk.entries location.entry_index
]

abbrev pub stored_at : MetadataChunks → EntryMetadata → EntryMetadataLocation → MetadataChunks
stored_at m entry location =
    mark_page_dirty
      (record m {
        chunks = write_entry m.chunks location (some entry);
        free_slot_search_start = location;
        free_slot_count = m.free_slot_count - 1;
      })
      location

unfoldable pub store_entry_metadata :
    MetadataChunks → EntryMetadata → Option (EntryMetadataLocation × MetadataChunks)
store_entry_metadata m entry =
    let start = m.free_slot_search_start in
    elim (find_slot (drop start.chunk_index m.chunks) start) [
      | none ↦ none
      | some location ↦ some (location, stored_at m entry location)
    ]

unfoldable pub min_location : EntryMetadataLocation → EntryMetadataLocation → EntryMetadataLocation
min_location a b =
    if ltb b.chunk_index a.chunk_index
      || ((b.chunk_index == a.chunk_index) && ltb b.entry_index a.entry_index)
    then b
    else a

unfoldable pub free_entry_metadata : MetadataChunks → EntryMetadataLocation → Option MetadataChunks
free_entry_metadata m location = elim (read_entry m.chunks location) [
  | none ↦ none
  | some none ↦ none
  | some (some entry) ↦ some (
      mark_page_dirty
        (record m {
          chunks = write_entry m.chunks location none;
          free_slot_search_start = min_location m.free_slot_search_start location;
          free_slot_count = m.free_slot_count + 1;
        })
        location)
]

abbrev pub link_last : List MetadataChunk → ℕ → List MetadataChunk
link_last chunks address = elim (get_elem? chunks (length chunks - 1)) [
  | none ↦ chunks
  | some last ↦ set chunks (length chunks - 1) (record last { next_chunk_address = address })
]

unfoldable pub set_last_chunk_link : MetadataChunks → ℕ → MetadataChunks
set_last_chunk_link m address =
    if ltb 0 (length m.chunks)
    then mark_link_page_dirty (record m { chunks = link_last m.chunks address })
        (length m.chunks - 1)
    else m

-- A new chunk without entries, at the end of the chain.
abbrev pub push_chunk : MetadataChunks → ReservedChunks → MetadataChunks
push_chunk m reserved =
    let new : MetadataChunk = record {
      reserved_chunk = reserved;
      entries = replicate entries_per_metadata_chunk none;
      next_chunk_address = no_chunk;
      needs_full_write = true;
    } in
    mark_link_page_dirty
      (record m {
        chunks = m.chunks ++ new ∷ [];
        free_slot_count = m.free_slot_count + entries_per_metadata_chunk;
      })
      (length m.chunks)

-- `none` is here the code's `None`: no chunk is free.
unfoldable pub ensure_free_slots :
    MetadataChunks → ℕ → DiskChunkAllocator → Option (MetadataChunks × DiskChunkAllocator)
ensure_free_slots m count allocator =
    if ltb m.free_slot_count count
    then elim (reserve_chunks allocator 1) [
      | none ↦ none
      | some (reserved, rest) ↦
          some (push_chunk (set_last_chunk_link m (disk_byte_range reserved).start) reserved, rest)
    ]
    else some (m, allocator)

unfoldable pub free_of {ℓ} : {A : Type ℓ} → List (Option A) → ℕ
free_of [] = 0
free_of (none ∷ es) = suc (free_of es)
free_of (some e ∷ es) = free_of es

unfoldable pub reset_free_slots : MetadataChunks → MetadataChunks
reset_free_slots m = record m {
  free_slot_search_start = record { chunk_index = 0; entry_index = 0 };
  free_slot_count = sum (map (λ (c : MetadataChunk). free_of c.entries) m.chunks);
}
