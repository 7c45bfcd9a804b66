-- ===== src/Storage/Metadata/Pages/Validation.antt =====
-- A page that feuer-storage/src/disk_cache/page_format.rs encodes is valid, under its tag only.
use feuer.Base.{
  ℕ, ◌-◌, ◌≤◌, ◌≡◌, refl, ap, ◌∙◌, List, ◌++◌, none, some, Bool, true, false, not, ◌||◌, ltb, arith,
  length, take, drop, replicate, length-append, length-replicate, if◌then◌else◌,
}
use feuer.Storage.Io.DataFile.Opening.{same_bytes}
use feuer.Storage.Metadata.Pages.{
  to_le_bytes, metadata_page_bytes, page_header_bytes, page_content_bytes, checked_bytes,
  encode_page, validate_page,
}
use feuer.Storage.Metadata.Pages.Bytes.{
  length-to_le_bytes, take-append, drop-past, drop-append, same_bytes_self,
}

pub not_longer : {n limit : ℕ} → n ≤ limit → ltb limit n ≡ false
not_longer h = ground (arith, h)

valid_if :
    (a b : Bool) (page : List ℕ)
    → a ≡ true
    → b ≡ true
    → (if not a || not b then none else some page) ≡ some page
valid_if a b page p q = rw (p, q) refl

module _ (hash : List ℕ → ℕ) (page_tag : List ℕ) (tag_length : length page_tag ≡ 8)
    (entry_count : ℕ) (contents : List ℕ) where
  abbrev pub padding : List ℕ
  padding = replicate (metadata_page_bytes - page_header_bytes - length contents) 0

  abbrev behind_tag : List ℕ
  behind_tag = contents ++ padding

  abbrev behind_count : List ℕ
  behind_count = page_tag ++ behind_tag

  abbrev behind_zeros : List ℕ
  behind_zeros = to_le_bytes 8 entry_count ++ behind_count

  abbrev checked : List ℕ
  checked = replicate 8 0 ++ behind_zeros

  abbrev checksum : List ℕ
  checksum = to_le_bytes 8 (hash checked)

  abbrev pub encoded : List ℕ
  encoded = checksum ++ checked

  checksum_length : length checksum ≡ 8
  checksum_length = length-to_le_bytes 8 (hash checked)

  count_length : length (to_le_bytes 8 entry_count) ≡ 8
  count_length = length-to_le_bytes 8 entry_count

  pub encode-encoded :
      length contents ≤ page_content_bytes
      → encode_page hash page_tag entry_count contents ≡ some encoded
  unfolding encode_page checked_bytes
  encode-encoded h = ap (λ (b : Bool). if b then none else some encoded) (not_longer h)

  at_tag : drop 24 encoded ≡ behind_count
  at_tag =
      drop-past checksum checked 8 16 checksum_length
      ∙ drop-past (replicate 8 0) behind_zeros 8 8 refl
      ∙ drop-append (to_le_bytes 8 entry_count) behind_count 8 count_length

  at_contents : drop 32 encoded ≡ behind_tag
  at_contents =
      drop-past checksum checked 8 24 checksum_length
      ∙ drop-past (replicate 8 0) behind_zeros 8 16 refl
      ∙ drop-past (to_le_bytes 8 entry_count) behind_count 8 8 count_length
      ∙ drop-append page_tag behind_tag 8 tag_length

  right_tag : take 8 (drop 24 encoded) ≡ page_tag
  right_tag = ap (take 8) at_tag ∙ take-append page_tag behind_tag 8 tag_length

  right_checksum : same_bytes (take 8 encoded) (to_le_bytes 8 (hash (drop 8 encoded))) ≡ true
  right_checksum =
      ap (λ (l : List ℕ). same_bytes l (to_le_bytes 8 (hash (drop 8 encoded))))
        (take-append checksum checked 8 checksum_length)
      ∙ ap (λ (l : List ℕ). same_bytes checksum (to_le_bytes 8 (hash l)))
          (drop-append checksum checked 8 checksum_length)
      ∙ same_bytes_self checksum

  pub validate-encoded : validate_page hash encoded page_tag ≡ some (contents ++ padding)
  unfolding validate_page
  validate-encoded =
      valid_if (same_bytes (take 8 (drop 24 encoded)) page_tag)
        (same_bytes (take 8 encoded) (to_le_bytes 8 (hash (drop 8 encoded)))) (drop 32 encoded)
        (ap (λ (l : List ℕ). same_bytes l page_tag) right_tag ∙ same_bytes_self page_tag)
        right_checksum
      ∙ ap some at_contents

  pub length-encoded : length contents ≤ page_content_bytes → length encoded ≡ 4096
  unfolding page_content_bytes
  length-encoded h = omega (
    arith,
    h,
    length-append checksum checked,
    checksum_length,
    length-append (replicate 8 0) behind_zeros,
    length-append (to_le_bytes 8 entry_count) behind_count,
    count_length,
    length-append page_tag behind_tag,
    tag_length,
    length-append contents padding,
    length-replicate {A = ℕ} (metadata_page_bytes - page_header_bytes - length contents) 0,
  )
