-- ===== src/Storage/Metadata/Recovery/Lengths.antt =====
-- How many slots a chunk has that feuer-storage/src/disk_cache/recovery.rs decodes.
use feuer.Base.{
  ℕ, zero, suc, ◌*◌, ◌≡◌, refl, ap, ◌∙◌, List, [], ◌∷◌, Option, none, some, arith, length, map,
  drop, take, length-append, length-replicate,
}
use feuer.Storage.Metadata.{
  entries_per_metadata_chunk, entries_per_metadata_page, entry_metadata_pages_per_chunk,
}
use feuer.Storage.Metadata.Pages.{
  metadata_page_bytes, concat, as_chunks, valid_slots, page_slots, decode_entries, decode_chunk,
  decode_entry_metadata, page_content_bytes, unused_entry_metadata,
}

length-as_chunks : (size n : ℕ) (bytes : List ℕ) → length (as_chunks size n bytes) ≡ n
length-as_chunks size zero bytes = refl
length-as_chunks size (suc n) bytes = ap suc (length-as_chunks size n (drop size bytes))

length-valid_slots : (o : Option (List ℕ)) → length (valid_slots o) ≡ entries_per_metadata_page
length-valid_slots none =
    length-replicate {A = List ℕ} entries_per_metadata_page unused_entry_metadata
length-valid_slots (some contents) =
    length-as_chunks 40 entries_per_metadata_page (take page_content_bytes contents)

length-map {ℓ κ} :
    {A : Type ℓ} {B : Type κ} (f : A → B) (xs : List A) → length (map f xs) ≡ length xs
length-map f [] = refl
length-map f (x ∷ xs) = ap suc (length-map f xs)

length-pages :
    (hash : List ℕ → ℕ) (pages : List (List ℕ))
    → length (concat (map (page_slots hash) pages)) ≡ length pages * entries_per_metadata_page
unfolding page_slots
length-pages hash [] = omega arith
length-pages hash (p ∷ pages) =
    length-append (page_slots hash p) (concat (map (page_slots hash) pages))
    ∙ omega (arith, length-pages hash pages, length-valid_slots _)

-- However damaged its bytes are, a chunk has all its slots.
pub length-decode_chunk :
    (hash : List ℕ → ℕ) (bytes : List ℕ)
    → length (decode_chunk hash bytes).0 ≡ entries_per_metadata_chunk
unfolding decode_chunk decode_entries entries_per_metadata_chunk
length-decode_chunk hash bytes =
    let entry_pages = take (entry_metadata_pages_per_chunk * metadata_page_bytes) bytes in
    let pages = as_chunks metadata_page_bytes entry_metadata_pages_per_chunk entry_pages in
    length-map decode_entry_metadata (concat (map (page_slots hash) pages))
    ∙ length-pages hash pages
    ∙ ap (λ (n : ℕ). n * entries_per_metadata_page)
        (length-as_chunks metadata_page_bytes entry_metadata_pages_per_chunk entry_pages)
