-- ===== src/Storage/Metadata/Pages/Entries.antt =====
-- The metadata of one entry in feuer-storage/src/disk_cache/page_format.rs and recovery.rs.
use feuer.Base.{
  ℕ, ◌<◌, ◌≡◌, inl, inr, refl, ap, sym, ◌∙◌, List, ◌++◌, Option, none, some, false, arith, length,
  take, drop, length-append, Bool-cases,
}
use feuer.Storage.Io.DataFile.Opening.{same_bytes, same_bytes→eq}
use feuer.Storage.Metadata.{EntryMetadata}
use feuer.Storage.Metadata.Pages.{
  to_le_bytes, from_le_bytes, read_u64, encode_entry_metadata, unused_entry_metadata, encode_slot,
  decode_entry_metadata,
}
use feuer.Storage.Metadata.Pages.Bytes.{
  byte_limit, length-to_le_bytes, from_le_bytes-to_le_bytes, take-append, drop-past, drop-append,
  take-all, same_bytes_self,
}

-- The fields fit their bytes, and the payload is not at the beginning of the device, where the
-- header is.
pub record IsStorable (entry : EntryMetadata) : Type 0 where
  pub key_fits : entry.key < byte_limit 16
  pub payload_len_fits : entry.payload_len < byte_limit 8
  pub payload_address_fits : entry.payload_address < byte_limit 8
  pub payload_address_positive : 0 < entry.payload_address
  pub payload_checksum_fits : entry.payload_checksum < byte_limit 8

abbrev pub IsStorableSlot : Option EntryMetadata → Type 0
IsStorableSlot none = Unit
IsStorableSlot (some entry) = IsStorable entry

-- Four integers behind each other.
module _ (a b c d : ℕ) where
  abbrev last_two : List ℕ
  last_two = to_le_bytes 8 c ++ to_le_bytes 8 d

  abbrev last_three : List ℕ
  last_three = to_le_bytes 8 b ++ last_two

  abbrev four : List ℕ
  four = to_le_bytes 16 a ++ last_three

  read_next :
      (rest : List ℕ) (n : ℕ)
      → n < byte_limit 8
      → from_le_bytes (take 8 (to_le_bytes 8 n ++ rest)) ≡ n
  read_next rest n h =
      ap from_le_bytes (take-append (to_le_bytes 8 n) rest 8 (length-to_le_bytes 8 n))
      ∙ from_le_bytes-to_le_bytes 8 n h

  -- What lies at an offset decides what is read there.
  read_at_offset :
      (offset : ℕ) (behind : List ℕ)
      → drop offset four ≡ behind
      → read_u64 four offset ≡ from_le_bytes (take 8 behind)
  read_at_offset offset behind e = ap (λ (l : List ℕ). from_le_bytes (take 8 l)) e

  first : a < byte_limit 16 → from_le_bytes (take 16 four) ≡ a
  first h =
      ap from_le_bytes (take-append (to_le_bytes 16 a) last_three 16 (length-to_le_bytes 16 a))
      ∙ from_le_bytes-to_le_bytes 16 a h

  second : b < byte_limit 8 → read_u64 four 16 ≡ b
  second h =
      read_at_offset 16 last_three
        (drop-append (to_le_bytes 16 a) last_three 16 (length-to_le_bytes 16 a))
      ∙ read_next last_two b h

  third : c < byte_limit 8 → read_u64 four 24 ≡ c
  third h =
      read_at_offset 24 last_two (
        drop-past (to_le_bytes 16 a) last_three 16 8 (length-to_le_bytes 16 a)
        ∙ drop-append (to_le_bytes 8 b) last_two 8 (length-to_le_bytes 8 b))
      ∙ read_next (to_le_bytes 8 d) c h

  fourth : d < byte_limit 8 → read_u64 four 32 ≡ d
  fourth h =
      read_at_offset 32 (to_le_bytes 8 d) (
        drop-past (to_le_bytes 16 a) last_three 16 16 (length-to_le_bytes 16 a)
        ∙ drop-past (to_le_bytes 8 b) last_two 8 8 (length-to_le_bytes 8 b)
        ∙ drop-append (to_le_bytes 8 c) (to_le_bytes 8 d) 8 (length-to_le_bytes 8 c))
      ∙ ap from_le_bytes (take-all (to_le_bytes 8 d) 8 (length-to_le_bytes 8 d))
      ∙ from_le_bytes-to_le_bytes 8 d h

  length-four : length four ≡ 40
  length-four = omega (
    arith,
    length-append (to_le_bytes 16 a) (to_le_bytes 8 b ++ (to_le_bytes 8 c ++ to_le_bytes 8 d)),
    length-append (to_le_bytes 8 b) (to_le_bytes 8 c ++ to_le_bytes 8 d),
    length-append (to_le_bytes 8 c) (to_le_bytes 8 d),
    length-to_le_bytes 16 a,
    length-to_le_bytes 8 b,
    length-to_le_bytes 8 c,
    length-to_le_bytes 8 d,
  )

pub length-encode_slot : (slot : Option EntryMetadata) → length (encode_slot slot) ≡ 40
unfolding encode_entry_metadata unused_entry_metadata
length-encode_slot none = refl
length-encode_slot (some entry) =
    length-four entry.key entry.payload_len entry.payload_address entry.payload_checksum

encode-used :
    (entry : EntryMetadata)
    → IsStorable entry
    → same_bytes (encode_entry_metadata entry) unused_entry_metadata ≡ false
unfolding encode_entry_metadata unused_entry_metadata
encode-used entry h =
    elim (Bool-cases (same_bytes (encode_entry_metadata entry) unused_entry_metadata)) [
      | inr e ↦ e
      | inl e ↦
          let zero_address : read_u64 unused_entry_metadata 24 ≡ entry.payload_address =
            sym (
              ap (λ (l : List ℕ). read_u64 l 24)
                (same_bytes→eq (encode_entry_metadata entry) unused_entry_metadata e))
            ∙ third entry.key entry.payload_len entry.payload_address entry.payload_checksum
                h.payload_address_fits in
          absurd (omega (arith, zero_address, h.payload_address_positive))
    ]

abbrev read_fields : List ℕ → EntryMetadata
read_fields bytes = record {
  key = from_le_bytes (take 16 bytes);
  payload_len = read_u64 bytes 16;
  payload_address = read_u64 bytes 24;
  payload_checksum = read_u64 bytes 32;
}

same_entry :
    (e f : EntryMetadata)
    → e.key ≡ f.key
    → e.payload_len ≡ f.payload_len
    → e.payload_address ≡ f.payload_address
    → e.payload_checksum ≡ f.payload_checksum
    → e ≡ f
same_entry e f p q r t = ground (arith, p, q, r, t)

pub decode-encode_slot :
    (slot : Option EntryMetadata)
    → IsStorableSlot slot
    → decode_entry_metadata (encode_slot slot) ≡ slot
unfolding decode_entry_metadata encode_entry_metadata
decode-encode_slot none h = rw (same_bytes_self unused_entry_metadata) refl
decode-encode_slot (some entry) h = rw (encode-used entry h) (
    ap some (
      same_entry (read_fields (encode_entry_metadata entry)) entry
        (first entry.key entry.payload_len entry.payload_address entry.payload_checksum h.key_fits)
        (second entry.key entry.payload_len entry.payload_address entry.payload_checksum
          h.payload_len_fits)
        (third entry.key entry.payload_len entry.payload_address entry.payload_checksum
          h.payload_address_fits)
        (fourth entry.key entry.payload_len entry.payload_address entry.payload_checksum
          h.payload_checksum_fits)))
