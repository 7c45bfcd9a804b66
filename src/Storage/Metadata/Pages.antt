-- ===== src/Storage/Metadata/Pages.antt =====
-- feuer-storage/src/disk_cache/page_format.rs, with MetadataChunk::encode_page of metadata.rs and the
-- decoding of a chunk in recovery.rs beside it. `hash` is the XxHash64 of bytes with the seed 0.
-- `none` is a panic of the encoder.
pub mod Bytes
pub mod Entries
pub mod Validation
pub mod RoundTrip
use feuer.Base.{
  ℕ, zero, suc, ◌+◌, ◌-◌, ◌*◌, ◌/◌, ◌%◌, List, [], ◌∷◌, ◌++◌, Option, none, some, Bool, not, ◌||◌,
  ltb, ◌==◌, if◌then◌else◌, length, take, drop, replicate, map,
}
use feuer.Storage.Io.DataFile.Opening.{same_bytes}
use feuer.Storage.Metadata.{
  entries_per_metadata_page, entry_metadata_pages_per_chunk, EntryMetadata, MetadataChunk,
}

abbrev pub metadata_page_bytes : ℕ
metadata_page_bytes = 4096

abbrev pub page_header_bytes : ℕ
page_header_bytes = 32

abbrev pub entry_metadata_bytes : ℕ
entry_metadata_bytes = 40

unfoldable pub page_content_bytes : ℕ
page_content_bytes =
    (metadata_page_bytes - page_header_bytes) / entry_metadata_bytes * entry_metadata_bytes

-- "FEUDES15" and "FEUNXT15".
unfoldable pub entry_metadata_page_tag : List ℕ
entry_metadata_page_tag = b'F' ∷ b'E' ∷ b'U' ∷ b'D' ∷ b'E' ∷ b'S' ∷ b'1' ∷ b'5' ∷ []

unfoldable pub next_chunk_page_tag : List ℕ
next_chunk_page_tag = b'F' ∷ b'E' ∷ b'U' ∷ b'N' ∷ b'X' ∷ b'T' ∷ b'1' ∷ b'5' ∷ []

-- `to_le_bytes` of an integer with so many bytes, and `from_le_bytes`.
abbrev pub to_le_bytes : ℕ → ℕ → List ℕ
to_le_bytes zero n = []
to_le_bytes (suc width) n = n % 256 ∷ to_le_bytes width (n / 256)

abbrev pub from_le_bytes : List ℕ → ℕ
from_le_bytes [] = 0
from_le_bytes (b ∷ bs) = b + 256 * from_le_bytes bs

abbrev pub concat {ℓ} : {A : Type ℓ} → List (List A) → List A
concat [] = []
concat (x ∷ xs) = x ++ concat xs

-- `as_chunks`: so many chunks of a size.
abbrev pub as_chunks : ℕ → ℕ → List ℕ → List (List ℕ)
as_chunks size zero bytes = []
as_chunks size (suc n) bytes = take size bytes ∷ as_chunks size n (drop size bytes)

-- The page behind its checksum.
unfoldable pub checked_bytes : List ℕ → ℕ → List ℕ → List ℕ
checked_bytes page_tag entry_count contents =
    replicate 8 0
    ++ (to_le_bytes 8 entry_count
        ++ (page_tag
            ++ (contents
                ++ replicate (metadata_page_bytes - page_header_bytes - length contents) 0)))

unfoldable pub encode_entry_metadata : EntryMetadata → List ℕ
encode_entry_metadata entry =
    to_le_bytes 16 entry.key
    ++ (to_le_bytes 8 entry.payload_len
        ++ (to_le_bytes 8 entry.payload_address ++ to_le_bytes 8 entry.payload_checksum))

unfoldable pub unused_entry_metadata : List ℕ
unused_entry_metadata = replicate entry_metadata_bytes 0

abbrev pub encode_slot : Option EntryMetadata → List ℕ
encode_slot none = unused_entry_metadata
encode_slot (some entry) = encode_entry_metadata entry

abbrev pub read_u64 : List ℕ → ℕ → ℕ
read_u64 bytes offset = from_le_bytes (take 8 (drop offset bytes))

unfoldable pub decode_entry_metadata : List ℕ → Option EntryMetadata
decode_entry_metadata bytes =
    if same_bytes bytes unused_entry_metadata
    then none
    else some (record {
      key = from_le_bytes (take 16 bytes);
      payload_len = read_u64 bytes 16;
      payload_address = read_u64 bytes 24;
      payload_checksum = read_u64 bytes 32;
    })

abbrev pub put_before : Option (List ℕ) → Option (List ℕ) → Option (List ℕ)
put_before none pages = none
put_before (some page) none = none
put_before (some page) (some pages) = some (page ++ pages)

-- The slots in the contents of a page; an invalid page holds no entries.
abbrev pub valid_slots : Option (List ℕ) → List (List ℕ)
valid_slots none = replicate entries_per_metadata_page unused_entry_metadata
valid_slots (some contents) =
    as_chunks entry_metadata_bytes entries_per_metadata_page (take page_content_bytes contents)

abbrev pub valid_link : Option (List ℕ) → Option ℕ
valid_link none = none
valid_link (some contents) = some (read_u64 contents 0)

module _ (hash : List ℕ → ℕ) where
  unfoldable pub encode_page : List ℕ → ℕ → List ℕ → Option (List ℕ)
  encode_page page_tag entry_count contents =
      if ltb page_content_bytes (length contents)
      then none
      else (let checked = checked_bytes page_tag entry_count contents in
          some (to_le_bytes 8 (hash checked) ++ checked))

  unfoldable pub validate_page : List ℕ → List ℕ → Option (List ℕ)
  validate_page page page_tag =
      if not (same_bytes (take 8 (drop 24 page)) page_tag)
        || not (same_bytes (take 8 page) (to_le_bytes 8 (hash (drop 8 page))))
      then none
      else some (drop page_header_bytes page)

  -- The page with the first of these slots.
  abbrev pub encode_entry_page : List (Option EntryMetadata) → Option (List ℕ)
  encode_entry_page slots =
      if ltb (length slots) entries_per_metadata_page
      then none
      else encode_page entry_metadata_page_tag entries_per_metadata_page
          (concat (map encode_slot (take entries_per_metadata_page slots)))

  -- `MetadataChunk::encode_page`.
  unfoldable pub encode_chunk_page : MetadataChunk → ℕ → Option (List ℕ)
  encode_chunk_page chunk page_index =
      if page_index == entry_metadata_pages_per_chunk
      then encode_page next_chunk_page_tag 1 (to_le_bytes 8 chunk.next_chunk_address)
      else encode_entry_page (drop (page_index * entries_per_metadata_page) chunk.entries)

  -- The pages of a chunk that is written in full, `count` of them from a first one.
  abbrev pub encode_pages : MetadataChunk → ℕ → ℕ → Option (List ℕ)
  encode_pages chunk first_page zero = some []
  encode_pages chunk first_page (suc count) =
      put_before (encode_chunk_page chunk first_page) (encode_pages chunk (suc first_page) count)

  unfoldable pub encode_chunk : MetadataChunk → Option (List ℕ)
  encode_chunk chunk = encode_pages chunk 0 (suc entry_metadata_pages_per_chunk)

  unfoldable pub page_slots : List ℕ → List (List ℕ)
  page_slots page = valid_slots (validate_page page entry_metadata_page_tag)

  unfoldable pub decode_entries : List (List ℕ) → List (Option EntryMetadata)
  decode_entries pages = map decode_entry_metadata (concat (map page_slots pages))

  unfoldable pub decode_link : List ℕ → Option ℕ
  decode_link link_page = valid_link (validate_page link_page next_chunk_page_tag)

  -- The entries and the link of a chunk that is read back.
  unfoldable pub decode_chunk : List ℕ → List (Option EntryMetadata) × Option ℕ
  decode_chunk bytes =
      let boundary = entry_metadata_pages_per_chunk * metadata_page_bytes in
      (
        decode_entries
            (as_chunks metadata_page_bytes entry_metadata_pages_per_chunk (take boundary bytes)),
        decode_link (drop boundary bytes),
      )
