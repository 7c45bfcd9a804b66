-- ===== src/Storage/Metadata/Tests.antt =====
-- Slots stored and freed in a chunk of three, and each theorem at an input.
use feuer.Base.{
  true, zero, sum, length, replicate, length-replicate, List, ◌==◌, if◌then◌else◌, ℕ, suc, ◌*◌, ◌≤◌,
  ◌<◌, ◌≡◌, ◌≢◌, ◌⊎◌, refl, [], ◌∷◌, Option, none, some, false, arith,
}
use feuer.Storage.Allocation.{chunk_bytes}
use feuer.Storage.Allocation.Allocator.{DiskChunkAllocator, with_metrics, reserve_chunks}
use feuer.Storage.Metadata.{
  EntryMetadata, EntryMetadataLocation, MetadataChunk, MetadataChunks, insert_page, position_none,
  find_slot, read_entry, store_entry_metadata, min_location, free_entry_metadata,
  set_last_chunk_link, ensure_free_slots, free_of, reset_free_slots, entries_per_metadata_chunk,
}
use feuer.Storage.Metadata.Pages.{encode_chunk, decode_chunk}
use feuer.Storage.Metadata.Pages.RoundTrip.{AllStorable, IsStorableChunk, decode_chunk-encode_chunk}
use feuer.Storage.Metadata.Recovery.{load_metadata_chain}
use feuer.Storage.Metadata.Recovery.Linking.{IsChain}
use feuer.Storage.Metadata.Recovery.Chain.{load_metadata_chain-IsChain}
use feuer.Storage.Allocation.Runs.{IsRuns, total}
use feuer.Storage.Metadata.Changes.{IsSound, FirstSlot, store_entry_metadata-FirstSlot}
use feuer.Storage.Metadata.Freeing.{free_entry_metadata-IsSound}
use feuer.Storage.Metadata.Growth.{reset_free_slots-IsSound, ensure_free_slots-IsSound}

program : Unit {0}
unfolding insert_page position_none find_slot store_entry_metadata min_location free_entry_metadata
    set_last_chunk_link free_of reset_free_slots
program = tt

abbrev entry : ℕ → EntryMetadata
entry key = record {
  key = key;
  payload_len = 100;
  payload_address = 2 * chunk_bytes;
  payload_checksum = 9;
}

abbrev recovered : MetadataChunks
recovered = reset_free_slots (record {
  chunks =
      record {
        reserved_chunk = record { chunk_numbers = record { start = 1; end = 2 }; recovered = true };
        entries = some (entry 1) ∷ none ∷ some (entry 3) ∷ [];
        next_chunk_address = 0;
        needs_full_write = false;
      }
      ∷ [];
  dirty_pages = [];
  free_slot_search_start = record { chunk_index = 5; entry_index = 5 };
  free_slot_count = 7;
})

abbrev at : ℕ → EntryMetadataLocation
at i = record { chunk_index = 0; entry_index = i }

abbrev place : Option (EntryMetadataLocation × MetadataChunks) → Option EntryMetadataLocation
place none = none
place (some (l, m)) = some l

store-test : place (store_entry_metadata recovered (entry 2)) ≡ some (at 1)
unfolding program
store-test = refl

one_free : 0 < recovered.free_slot_count
unfolding program
one_free = omega arith

store_entry_metadata-FirstSlot_example :
    (l : EntryMetadataLocation) × (n : MetadataChunks) × (store_entry_metadata recovered (entry 2)
      ≡ some (l, n))
    × FirstSlot recovered.chunks l
    × IsSound n
    × (read_entry n.chunks l ≡ some (some (entry 2)))
    × ((j : EntryMetadataLocation)
        → (l.chunk_index ≢ j.chunk_index) ⊎ (l.entry_index ≢ j.entry_index)
        → read_entry n.chunks j ≡ read_entry recovered.chunks j)
    × (suc n.free_slot_count ≡ recovered.free_slot_count)
store_entry_metadata-FirstSlot_example =
    store_entry_metadata-FirstSlot recovered (reset_free_slots-IsSound _) (entry 2) one_free

third_taken : read_entry recovered.chunks (at 2) ≡ some (some (entry 3))
unfolding program
third_taken = refl

free_entry_metadata-IsSound_example :
    (n : MetadataChunks) × (free_entry_metadata recovered (at 2) ≡ some n)
    × IsSound n
    × (read_entry n.chunks (at 2) ≡ some none)
    × ((j : EntryMetadataLocation)
        → (0 ≢ j.chunk_index) ⊎ (2 ≢ j.entry_index)
        → read_entry n.chunks j ≡ read_entry recovered.chunks j)
    × (n.free_slot_count ≡ suc recovered.free_slot_count)
free_entry_metadata-IsSound_example =
    free_entry_metadata-IsSound recovered (reset_free_slots-IsSound _) (at 2) (entry 3) third_taken

abbrev allocator : DiskChunkAllocator
allocator = with_metrics (record { start = chunk_bytes; end = 9 * chunk_bytes })

enough : 256 ≤ entries_per_metadata_chunk
unfolding entries_per_metadata_chunk
enough = omega arith

ensure_free_slots-IsSound_example :
    ((ensure_free_slots recovered 256 allocator ≡ none)
      × (recovered.free_slot_count < 256)
      × (reserve_chunks allocator 1 ≡ none))
    ⊎ ((n : MetadataChunks) × (b : DiskChunkAllocator) × (ensure_free_slots recovered 256 allocator
          ≡ some (n, b))
        × IsSound n
        × (256 ≤ n.free_slot_count))
ensure_free_slots-IsSound_example =
    ensure_free_slots-IsSound recovered (reset_free_slots-IsSound _) 256 allocator enough

-- A chunk whose first slot is used.
abbrev one_entry : MetadataChunk
one_entry = record {
  reserved_chunk = record { chunk_numbers = record { start = 1; end = 2 }; recovered = true };
  entries = some (entry 1) ∷ replicate 25754 none;
  next_chunk_address = 3 * chunk_bytes;
  needs_full_write = true;
}

unused-AllStorable : (n : ℕ) → AllStorable (replicate n none)
unused-AllStorable zero = tt
unused-AllStorable (suc n) = (tt, unused-AllStorable n)

one_entry-IsStorableChunk : IsStorableChunk one_entry
unfolding entries_per_metadata_chunk
one_entry-IsStorableChunk = record {
  complete = omega (arith, length-replicate {A = Option EntryMetadata} 25754 none);
  slots_fit = (
    record {
      key_fits = omega arith;
      payload_len_fits = omega arith;
      payload_address_fits = omega arith;
      payload_address_positive = omega arith;
      payload_checksum_fits = omega arith;
    },
    unused-AllStorable 25754,
  );
  link_fits = omega arith;
}

-- With the sum of the bytes for their hash.
decode_chunk-encode_chunk_example :
    (bytes : List ℕ) × (encode_chunk sum one_entry ≡ some bytes)
    × (length bytes ≡ chunk_bytes)
    × (decode_chunk sum bytes ≡ (one_entry.entries, some (3 * chunk_bytes)))
decode_chunk-encode_chunk_example =
    decode_chunk-encode_chunk sum one_entry one_entry-IsStorableChunk

-- A device whose chunk 1 has one entry and a link to chunk 3, which cannot be read.
abbrev read_one : ℕ → Option (List ℕ)
read_one address = if address == chunk_bytes then encode_chunk sum one_entry else none

abbrev nine_chunks : DiskChunkAllocator
unfolding with_metrics
nine_chunks = with_metrics (record { start = 1 * chunk_bytes; end = 10 * chunk_bytes })

nine_chunks-IsRuns : IsRuns 1 10 nine_chunks.free.chunk_count_by_start
unfolding with_metrics
nine_chunks-IsRuns = (omega arith, omega arith, omega arith, tt)

nine_free : total nine_chunks.free.chunk_count_by_start < 10
unfolding with_metrics total
nine_free = omega arith

load_metadata_chain-IsChain_example :
    (pages : MetadataChunks) × (rest : DiskChunkAllocator) × (load_metadata_chain sum read_one 10
        nine_chunks chunk_bytes
      ≡ some (pages, rest))
    × IsChain chunk_bytes pages.chunks
load_metadata_chain-IsChain_example =
    load_metadata_chain-IsChain 1 10 sum read_one 10 nine_chunks chunk_bytes nine_chunks-IsRuns
      nine_free
