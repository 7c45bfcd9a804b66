-- ===== src/Storage/Metadata/Pages/RoundTrip.antt =====
-- A chunk of feuer-storage/src/disk_cache/metadata.rs, written in full and read back.
use feuer.Base.{
  ℕ, zero, suc, ◌+◌, ◌*◌, ◌≤◌, ◌<◌, ◌≡◌, refl, ap, sym, ◌∙◌, List, [], ◌∷◌, ◌++◌, Option, none,
  some, Bool, if◌then◌else◌, ==_true, ==_false, arith, length, take, drop, map, length-append,
  length-take, length-drop,
}
use feuer.Storage.Allocation.{chunk_bytes}
use feuer.Storage.Metadata.{
  EntryMetadata, MetadataChunk, entries_per_metadata_chunk, entries_per_metadata_page,
  entry_metadata_pages_per_chunk,
}
use feuer.Storage.Metadata.Pages.{
  to_le_bytes, from_le_bytes, concat, as_chunks, encode_slot, decode_entry_metadata,
  page_content_bytes, entry_metadata_page_tag, next_chunk_page_tag, encode_page, encode_chunk_page,
  encode_entry_page, put_before, encode_pages, encode_chunk, page_slots, valid_slots, valid_link,
  decode_entries, decode_link, decode_chunk,
}
use feuer.Storage.Metadata.Pages.Bytes.{
  byte_limit, length-to_le_bytes, from_le_bytes-to_le_bytes, take-append, drop-append, drop-drop,
  append_assoc, AllSized, length-concat, as_chunks-concat,
}
use feuer.Storage.Metadata.Pages.Entries.{IsStorableSlot, length-encode_slot, decode-encode_slot}
use feuer.Storage.Metadata.Pages.Validation.{
  not_longer, padding, encoded, encode-encoded, validate-encoded, length-encoded,
}

abbrev pub AllStorable : List (Option EntryMetadata) → Type 0
AllStorable [] = Unit
AllStorable (slot ∷ slots) = IsStorableSlot slot × AllStorable slots

-- A chunk has all its slots, and what it holds fits its bytes.
pub record IsStorableChunk (chunk : MetadataChunk) : Type 0 where
  pub complete : length chunk.entries ≡ entries_per_metadata_chunk
  pub slots_fit : AllStorable chunk.entries
  pub link_fits : chunk.next_chunk_address < byte_limit 8

append_nil : (xs : List ℕ) → xs ++ [] ≡ xs
append_nil [] = refl
append_nil (x ∷ xs) = ap (λ (l : List ℕ). x ∷ l) (append_nil xs)

slots-AllSized : (slots : List (Option EntryMetadata)) → AllSized 40 (map encode_slot slots)
slots-AllSized [] = tt
slots-AllSized (s ∷ slots) = (length-encode_slot s, slots-AllSized slots)

length-slots : (slots : List (Option EntryMetadata)) → length (map encode_slot slots) ≡ length slots
length-slots [] = refl
length-slots (s ∷ slots) = ap suc (length-slots slots)

decoded-slots :
    (slots : List (Option EntryMetadata))
    → AllStorable slots
    → map decode_entry_metadata (map encode_slot slots) ≡ slots
decoded-slots [] h = refl
decoded-slots (s ∷ slots) h =
    ap (λ (d : Option EntryMetadata). d ∷ map decode_entry_metadata (map encode_slot slots))
      (decode-encode_slot s h.0)
    ∙ ap (λ (l : List (Option EntryMetadata)). s ∷ l) (decoded-slots slots h.1)

-- Pieces are found again in front of a rest, also if the rest is cut off before.
found_pieces :
    (size : ℕ) (xs : List (List ℕ)) (rest : List ℕ) (n total : ℕ)
    → AllSized size xs
    → length xs ≡ n
    → length (concat xs) ≡ total
    → as_chunks size n (take total (concat xs ++ rest)) ≡ xs
found_pieces size xs rest n total h e l =
    ap (as_chunks size n) (take-append (concat xs) rest total l ∙ sym (append_nil (concat xs)))
    ∙ as_chunks-concat size xs [] n h e

take-drop-slots :
    (slots : List (Option EntryMetadata)) (n : ℕ)
    → map encode_slot (take n slots) ++ map encode_slot (drop n slots) ≡ map encode_slot slots
take-drop-slots slots zero = refl
take-drop-slots [] (suc n) = refl
take-drop-slots (s ∷ slots) (suc n) =
    ap (λ (l : List (List ℕ)). encode_slot s ∷ l) (take-drop-slots slots n)

both : {A B : Type 0} {a c : A} {b d : B} → a ≡ c → b ≡ d → ◌≡◌ {A = A × B} (a, b) (c, d)
both p q = ground (arith, p, q)

entry_tag_length : length entry_metadata_page_tag ≡ 8
unfolding entry_metadata_page_tag
entry_tag_length = refl

link_tag_length : length next_chunk_page_tag ≡ 8
unfolding next_chunk_page_tag
link_tag_length = refl

module _ (hash : List ℕ → ℕ) where
  -- The contents of the page with the first slots.
  abbrev contents_of : List (Option EntryMetadata) → List ℕ
  contents_of slots = concat (map encode_slot (take entries_per_metadata_page slots))

  abbrev page_of : List (Option EntryMetadata) → List ℕ
  page_of slots =
      encoded hash entry_metadata_page_tag entry_tag_length entries_per_metadata_page
        (contents_of slots)

  abbrev link_of : ℕ → List ℕ
  link_of address = encoded hash next_chunk_page_tag link_tag_length 1 (to_le_bytes 8 address)

  abbrev pages_of : List (Option EntryMetadata) → ℕ → List (List ℕ)
  pages_of slots zero = []
  pages_of slots (suc n) = page_of slots ∷ pages_of (drop entries_per_metadata_page slots) n

  length-pages : (n : ℕ) (slots : List (Option EntryMetadata)) → length (pages_of slots n) ≡ n
  length-pages zero slots = refl
  length-pages (suc n) slots = ap suc (length-pages n (drop entries_per_metadata_page slots))

  length-contents :
      (slots : List (Option EntryMetadata))
      → entries_per_metadata_page ≤ length slots
      → length (contents_of slots) ≡ page_content_bytes
  unfolding page_content_bytes
  length-contents slots h =
      length-concat 40 (map encode_slot (take entries_per_metadata_page slots))
        (slots-AllSized (take entries_per_metadata_page slots))
      ∙ omega (
        arith,
        h,
        length-slots (take entries_per_metadata_page slots),
        length-take entries_per_metadata_page slots,
      )

  page-slots :
      (slots : List (Option EntryMetadata))
      → entries_per_metadata_page ≤ length slots
      → page_slots hash (page_of slots) ≡ map encode_slot (take entries_per_metadata_page slots)
  unfolding page_slots
  page-slots slots h =
      ap valid_slots (
        validate-encoded hash entry_metadata_page_tag entry_tag_length entries_per_metadata_page
          (contents_of slots))
      ∙ found_pieces 40 (map encode_slot (take entries_per_metadata_page slots))
          (padding hash entry_metadata_page_tag entry_tag_length entries_per_metadata_page
            (contents_of slots))
          entries_per_metadata_page page_content_bytes
          (slots-AllSized (take entries_per_metadata_page slots))
          (omega (
            arith,
            h,
            length-slots (take entries_per_metadata_page slots),
            length-take entries_per_metadata_page slots,
          ))
          (length-contents slots h)

  link-decoded :
      (address : ℕ) → address < byte_limit 8 → decode_link hash (link_of address) ≡ some address
  unfolding decode_link
  link-decoded address h =
      ap valid_link
        (validate-encoded hash next_chunk_page_tag link_tag_length 1 (to_le_bytes 8 address))
      ∙ ap (λ (l : List ℕ). some (from_le_bytes l))
          (take-append (to_le_bytes 8 address)
            (padding hash next_chunk_page_tag link_tag_length 1 (to_le_bytes 8 address)) 8
            (length-to_le_bytes 8 address))
      ∙ ap some (from_le_bytes-to_le_bytes 8 address h)

  pages-AllSized :
      (n : ℕ) (slots : List (Option EntryMetadata))
      → n * entries_per_metadata_page ≤ length slots
      → AllSized 4096 (pages_of slots n)
  pages-AllSized zero slots h = tt
  pages-AllSized (suc n) slots h = (
    length-encoded hash entry_metadata_page_tag entry_tag_length entries_per_metadata_page
        (contents_of slots) (omega (arith, length-contents slots (omega (arith, h)))),
    pages-AllSized n (drop entries_per_metadata_page slots)
        (omega (arith, h, length-drop entries_per_metadata_page slots)),
  )

  pages-slots :
      (n : ℕ) (slots : List (Option EntryMetadata))
      → n * entries_per_metadata_page ≡ length slots
      → concat (map (page_slots hash) (pages_of slots n)) ≡ map encode_slot slots
  pages-slots zero [] h = refl
  pages-slots zero (s ∷ slots) h = absurd (omega (arith, h))
  pages-slots (suc n) slots h =
      ap
        (λ (l : List (List ℕ)).
          l ++ concat (map (page_slots hash) (pages_of (drop entries_per_metadata_page slots) n)))
        (page-slots slots (omega (arith, h)))
      ∙ ap (λ (l : List (List ℕ)). map encode_slot (take entries_per_metadata_page slots) ++ l)
          (pages-slots n (drop entries_per_metadata_page slots)
            (omega (arith, h, length-drop entries_per_metadata_page slots)))
      ∙ take-drop-slots slots entries_per_metadata_page

  entry-page :
      (slots : List (Option EntryMetadata))
      → entries_per_metadata_page ≤ length slots
      → encode_entry_page hash slots ≡ some (page_of slots)
  entry-page slots h =
      ap
        (λ (b : Bool).
          if b
          then none
          else encode_page hash entry_metadata_page_tag entries_per_metadata_page
              (contents_of slots))
        (not_longer h)
      ∙ encode-encoded hash entry_metadata_page_tag entry_tag_length entries_per_metadata_page
          (contents_of slots) (omega (arith, length-contents slots h))

  module _ (chunk : MetadataChunk) where
    page-encoded :
        (i : ℕ) (slots : List (Option EntryMetadata))
        → i < entry_metadata_pages_per_chunk
        → drop (i * entries_per_metadata_page) chunk.entries ≡ slots
        → entries_per_metadata_page ≤ length slots
        → encode_chunk_page hash chunk i ≡ some (page_of slots)
    unfolding encode_chunk_page
    page-encoded i slots h e l =
        ap
          (λ (b : Bool).
            if b
            then link
            else encode_entry_page hash (drop (i * entries_per_metadata_page) chunk.entries))
          (==_false i entry_metadata_pages_per_chunk (λ q. absurd (omega (arith, q, h))))
        ∙ ap (encode_entry_page hash) e
        ∙ entry-page slots l
      where
        link : Option (List ℕ)
        link = encode_page hash next_chunk_page_tag 1 (to_le_bytes 8 chunk.next_chunk_address)

    link-encoded :
        (i : ℕ)
        → i ≡ entry_metadata_pages_per_chunk
        → encode_chunk_page hash chunk i ≡ some (link_of chunk.next_chunk_address)
    unfolding encode_chunk_page page_content_bytes
    link-encoded i h =
        ap
          (λ (b : Bool).
            if b
            then encode_page hash next_chunk_page_tag 1 (to_le_bytes 8 chunk.next_chunk_address)
            else encode_entry_page hash (drop (i * entries_per_metadata_page) chunk.entries))
          (==_true i entry_metadata_pages_per_chunk h)
        ∙ encode-encoded hash next_chunk_page_tag link_tag_length 1
            (to_le_bytes 8 chunk.next_chunk_address)
            (omega (arith, length-to_le_bytes 8 chunk.next_chunk_address))

    pages-encoded :
        (n first : ℕ) (slots : List (Option EntryMetadata))
        → first + n ≡ entry_metadata_pages_per_chunk
        → drop (first * entries_per_metadata_page) chunk.entries ≡ slots
        → n * entries_per_metadata_page ≡ length slots
        → encode_pages hash chunk first (suc n)
          ≡ some (concat (pages_of slots n) ++ link_of chunk.next_chunk_address)
    pages-encoded zero first slots h e l =
        ap (λ (o : Option (List ℕ)). put_before o (some [])) (link-encoded first (omega (arith, h)))
        ∙ ap some (append_nil (link_of chunk.next_chunk_address))
    pages-encoded (suc n) first slots h e l =
        let next : suc first * entries_per_metadata_page
            ≡ first * entries_per_metadata_page + entries_per_metadata_page =
          omega arith in
        let rest =
          pages-encoded n (suc first) (drop entries_per_metadata_page slots) (omega (arith, h))
            (ap (λ (j : ℕ). drop j chunk.entries) next
              ∙ drop-drop (first * entries_per_metadata_page) entries_per_metadata_page
                  chunk.entries
              ∙ ap (drop entries_per_metadata_page) e)
            (omega (arith, l, length-drop entries_per_metadata_page slots)) in
        ap (λ (o : Option (List ℕ)). put_before o (encode_pages hash chunk (suc first) (suc n)))
          (page-encoded first slots (omega (arith, h)) e (omega (arith, l)))
        ∙ ap (put_before (some (page_of slots))) rest
        ∙ ap some (
            sym (
              append_assoc (page_of slots)
                (concat (pages_of (drop entries_per_metadata_page slots) n))
                (link_of chunk.next_chunk_address)))

  -- What is decoded from `n` pages of entries and one with the link.
  abbrev decoded : ℕ → List ℕ → List (Option EntryMetadata) × Option ℕ
  decoded n bytes = (
    decode_entries hash (as_chunks 4096 n (take (n * 4096) bytes)),
    decode_link hash (drop (n * 4096) bytes),
  )

  -- The same with any number of pages of entries.
  pages-decoded :
      (chunk : MetadataChunk) (n : ℕ)
      → n ≡ entry_metadata_pages_per_chunk
      → n * entries_per_metadata_page ≡ length chunk.entries
      → AllStorable chunk.entries
      → chunk.next_chunk_address < byte_limit 8
      → (bytes : List ℕ) × (encode_pages hash chunk 0 (suc n) ≡ some bytes)
        × (length bytes ≡ suc n * 4096)
        × (decoded n bytes ≡ (chunk.entries, some chunk.next_chunk_address))
  unfolding decode_entries page_content_bytes
  pages-decoded chunk n e total fit f =
      let pages = pages_of chunk.entries n in
      let link = link_of chunk.next_chunk_address in
      let sized = pages-AllSized n chunk.entries (omega (arith, total)) in
      let long : length (concat pages) ≡ n * 4096 =
        length-concat 4096 pages sized ∙ ap (λ (k : ℕ). k * 4096) (length-pages n chunk.entries) in
      let link_long : length link ≡ 4096 =
        length-encoded hash next_chunk_page_tag link_tag_length 1
          (to_le_bytes 8 chunk.next_chunk_address)
          (omega (arith, length-to_le_bytes 8 chunk.next_chunk_address)) in
      let first : decode_entries hash (as_chunks 4096 n (take (n * 4096) (concat pages ++ link)))
          ≡ chunk.entries =
        ap (decode_entries hash)
          (found_pieces 4096 pages link n (n * 4096) sized (length-pages n chunk.entries) long)
        ∙ ap (map decode_entry_metadata) (pages-slots n chunk.entries total)
        ∙ decoded-slots chunk.entries fit in
      let second : decode_link hash (drop (n * 4096) (concat pages ++ link))
          ≡ some chunk.next_chunk_address =
        ap (decode_link hash) (drop-append (concat pages) link (n * 4096) long)
        ∙ link-decoded chunk.next_chunk_address f in
      (
        concat pages ++ link,
        pages-encoded chunk n 0 chunk.entries (omega (arith, e)) refl total,
        length-append (concat pages) link ∙ omega (arith, long, link_long),
        both first second,
      )

  -- A chunk that has all its slots, and whose entries and link fit their bytes, is encoded without a
  -- panic into the bytes of a chunk, and what is decoded from them is its slots and its link.
  pub decode_chunk-encode_chunk :
      (chunk : MetadataChunk)
      → IsStorableChunk chunk
      → (bytes : List ℕ) × (encode_chunk hash chunk ≡ some bytes)
        × (length bytes ≡ chunk_bytes)
        × (decode_chunk hash bytes ≡ (chunk.entries, some chunk.next_chunk_address))
  unfolding encode_chunk decode_chunk entries_per_metadata_chunk
  decode_chunk-encode_chunk chunk h =
      pages-decoded chunk entry_metadata_pages_per_chunk refl (sym h.complete) h.slots_fit
        h.link_fits
