-- ===== src/Storage/Metadata/Recovery.antt =====
-- load_metadata_chain of feuer-storage/src/disk_cache/recovery.rs: the chunks of metadata that are
-- found from an address on. `read` gives the bytes of the chunk at an address, or nothing if that
-- fails. `none` is a loop whose fuel is used up.
pub mod Lengths
pub mod Linking
pub mod Chain
use feuer.Base.{
  ℕ, zero, suc, ◌/◌, ◌%◌, List, [], ◌∷◌, Option, none, some, Bool, true, false, not, ◌&&◌, ◌||◌,
  ◌==◌, if◌then◌else◌,
}
use feuer.Storage.Allocation.{ReservedChunks, chunk_bytes}
use feuer.Storage.Allocation.Allocator.{
  DiskChunkAllocator, reserve_chunks_at, drop_reserved, mark_recovered,
}
use feuer.Storage.Metadata.{
  EntryMetadata, MetadataChunk, MetadataChunks, no_chunk, set_last_chunk_link,
}
use feuer.Storage.Metadata.Pages.{decode_chunk}

abbrev pub all_zero : List ℕ → Bool
all_zero [] = true
all_zero (b ∷ bs) = let rest = all_zero bs in (b == 0) && rest

-- A round of the loop: it breaks, or it loads a chunk, with the link if its page is valid.
pub data Round : Type 0 where
  chain_ends : DiskChunkAllocator → Round
  chunk_loaded : DiskChunkAllocator → MetadataChunk → Option ℕ → Round

abbrev pub link_or_none : Option ℕ → ℕ
link_or_none none = no_chunk
link_or_none (some address) = address

abbrev pub loaded_chunk :
    DiskChunkAllocator → ReservedChunks → List (Option EntryMetadata) × Option ℕ → Round
loaded_chunk allocator reserved_chunk (entries, next_chunk_address) =
    let (marked, counted) = mark_recovered allocator reserved_chunk in
    chunk_loaded counted
      (record {
        reserved_chunk = marked;
        entries = entries;
        next_chunk_address = link_or_none next_chunk_address;
        needs_full_write = false;
      })
      next_chunk_address

-- The chunks that are loaded, the allocator and the address at the end of the loop.
pub record Loaded : Type 0 where
  pub loaded_chunks : List MetadataChunk
  pub allocator : DiskChunkAllocator
  pub last_address : ℕ

abbrev pub behind_chunk : MetadataChunk → Option Loaded → Option Loaded
behind_chunk chunk none = none
behind_chunk chunk (some l) = some (record l { loaded_chunks = chunk ∷ l.loaded_chunks })

module _ (hash : List ℕ → ℕ) (read : ℕ → Option (List ℕ)) where
  -- A reservation that is not kept is dropped.
  abbrev pub load_bytes : DiskChunkAllocator → ReservedChunks → Option (List ℕ) → Round
  load_bytes rest reserved_chunk none = chain_ends (drop_reserved rest reserved_chunk)
  load_bytes rest reserved_chunk (some bytes) =
      if all_zero bytes
      then chain_ends (drop_reserved rest reserved_chunk)
      else loaded_chunk rest reserved_chunk (decode_chunk hash bytes)

  abbrev pub load_reserved :
      DiskChunkAllocator → ℕ → Option (ReservedChunks × DiskChunkAllocator) → Round
  load_reserved allocator address none = chain_ends allocator
  load_reserved allocator address (some (reserved_chunk, rest)) =
      load_bytes rest reserved_chunk (read address)

  unfoldable pub load_round : DiskChunkAllocator → ℕ → Round
  load_round allocator address =
      if (address == no_chunk) || not (address % chunk_bytes == 0)
      then chain_ends allocator
      else load_reserved allocator address (reserve_chunks_at allocator (address / chunk_bytes) 1)

  unfoldable pub load_rounds : ℕ → DiskChunkAllocator → ℕ → Option Loaded
  load_rounds zero allocator address = none
  load_rounds (suc fuel) allocator address = elim (load_round allocator address) [
    | chain_ends rest ↦
        some (record { loaded_chunks = []; allocator = rest; last_address = address })
    | chunk_loaded rest chunk next ↦ elim next [
      | none ↦
          some (record { loaded_chunks = chunk ∷ []; allocator = rest; last_address = address })
      | some link ↦ behind_chunk chunk (load_rounds fuel rest link)
    ]
  ]

-- The pages of the shard afterwards; the link of a chain that does not end is cut.
abbrev pub loaded_pages : Loaded → MetadataChunks
loaded_pages l =
    let pages : MetadataChunks = record {
      chunks = l.loaded_chunks;
      dirty_pages = [];
      free_slot_search_start = record { chunk_index = 0; entry_index = 0 };
      free_slot_count = 0;
    } in
    if l.last_address == no_chunk then pages else set_last_chunk_link pages no_chunk

unfoldable pub load_metadata_chain :
    (List ℕ → ℕ)
    → (ℕ → Option (List ℕ))
    → ℕ
    → DiskChunkAllocator
    → ℕ
    → Option (MetadataChunks × DiskChunkAllocator)
load_metadata_chain hash read fuel allocator address =
    elim (load_rounds hash read fuel allocator address) [
      | none ↦ none
      | some l ↦ some (loaded_pages l, l.allocator)
    ]
