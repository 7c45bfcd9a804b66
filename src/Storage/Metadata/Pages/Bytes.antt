-- ===== src/Storage/Metadata/Pages/Bytes.antt =====
-- Integers and sequences of bytes in the pages of feuer-storage/src/disk_cache/page_format.rs.
use mathlib.Core.Path.{subst}
use feuer.Base.{
  ℕ, zero, suc, ◌+◌, ◌*◌, ◌/◌, ◌<◌, ◌≡◌, refl, ap, sym, ◌∙◌, List, [], ◌∷◌, ◌++◌, true, arith,
  length, take, drop, length-append,
}
use feuer.Storage.Io.DataFile.Opening.{same_bytes}
use feuer.Storage.Metadata.Pages.{to_le_bytes, from_le_bytes, concat, as_chunks}

pub same_bytes_self : (xs : List ℕ) → same_bytes xs xs ≡ true
same_bytes_self [] = refl
same_bytes_self (x ∷ xs) = ground (arith, same_bytes_self xs)

-- What an integer of so many bytes is below.
abbrev pub byte_limit : ℕ → ℕ
byte_limit zero = 1
byte_limit (suc width) = 256 * byte_limit width

pub length-to_le_bytes : (width n : ℕ) → length (to_le_bytes width n) ≡ width
length-to_le_bytes zero n = refl
length-to_le_bytes (suc width) n = omega (arith, length-to_le_bytes width (n / 256))

pub from_le_bytes-to_le_bytes :
    (width n : ℕ) → n < byte_limit width → from_le_bytes (to_le_bytes width n) ≡ n
from_le_bytes-to_le_bytes zero n h = omega (arith, h)
from_le_bytes-to_le_bytes (suc width) n h =
    omega (arith, from_le_bytes-to_le_bytes width (n / 256) (omega (arith, h)))

module _ {ℓ} {A : Type ℓ} where
  take-own : (xs ys : List A) → take (length xs) (xs ++ ys) ≡ xs
  take-own [] ys = refl
  take-own (x ∷ xs) ys = ap (λ (l : List A). x ∷ l) (take-own xs ys)

  -- The first part, of a known length.
  pub take-append : (xs ys : List A) (n : ℕ) → length xs ≡ n → take n (xs ++ ys) ≡ xs
  take-append xs ys n h = subst (λ (k : ℕ). take k (xs ++ ys) ≡ xs) h (take-own xs ys)

  drop-own : (xs ys : List A) (k : ℕ) → drop (length xs + k) (xs ++ ys) ≡ drop k ys
  drop-own [] ys k = ap (λ (j : ℕ). drop j ys) (omega arith)
  drop-own (x ∷ xs) ys k =
      let next : suc (length xs) + k ≡ suc (length xs + k) = omega arith in
      ap (λ (j : ℕ). drop j (x ∷ (xs ++ ys))) next ∙ drop-own xs ys k

  -- What lies behind a first part of a known length.
  pub drop-past : (xs ys : List A) (n k : ℕ) → length xs ≡ n → drop (n + k) (xs ++ ys) ≡ drop k ys
  drop-past xs ys n k h =
      subst (λ (j : ℕ). drop (j + k) (xs ++ ys) ≡ drop k ys) h (drop-own xs ys k)

  pub drop-append : (xs ys : List A) (n : ℕ) → length xs ≡ n → drop n (xs ++ ys) ≡ ys
  drop-append xs ys n h = ap (λ (j : ℕ). drop j (xs ++ ys)) (omega arith) ∙ drop-past xs ys n 0 h

  drop_nil : (n : ℕ) → ◌≡◌ {A = List A} (drop n []) []
  drop_nil zero = refl
  drop_nil (suc n) = refl

  pub drop-drop : (m k : ℕ) (xs : List A) → drop (m + k) xs ≡ drop k (drop m xs)
  drop-drop zero k xs = let same : zero + k ≡ k = omega arith in ap (λ (j : ℕ). drop j xs) same
  drop-drop (suc m) k [] = drop_nil (suc m + k) ∙ sym (drop_nil k)
  drop-drop (suc m) k (x ∷ xs) =
      let next : suc m + k ≡ suc (m + k) = omega arith in
      ap (λ (j : ℕ). drop j (x ∷ xs)) next ∙ drop-drop m k xs

  pub take-all : (xs : List A) (n : ℕ) → length xs ≡ n → take n xs ≡ xs
  take-all xs n h = subst (λ (k : ℕ). take k xs ≡ xs) h (own xs)
    where
      own : (zs : List A) → take (length zs) zs ≡ zs
      own [] = refl
      own (z ∷ zs) = ap (λ (l : List A). z ∷ l) (own zs)

  pub append_assoc : (xs ys zs : List A) → (xs ++ ys) ++ zs ≡ xs ++ (ys ++ zs)
  append_assoc [] ys zs = refl
  append_assoc (x ∷ xs) ys zs = ap (λ (l : List A). x ∷ l) (append_assoc xs ys zs)

-- Each has the size.
abbrev pub AllSized : ℕ → List (List ℕ) → Type 0
AllSized size [] = Unit
AllSized size (x ∷ xs) = (length x ≡ size) × AllSized size xs

pub length-concat :
    (size : ℕ) (xs : List (List ℕ)) → AllSized size xs → length (concat xs) ≡ length xs * size
length-concat size [] h = omega arith
length-concat size (x ∷ xs) h =
    length-append x (concat xs) ∙ one _ _ (length xs) size (length-concat size xs h.1) h.0
  where
    one : (a b n s : ℕ) → b ≡ n * s → a ≡ s → a + b ≡ suc n * s
    one a b n s p q = omega (arith, p, q)

-- Pieces of one size, put behind each other, are found again, whatever follows them.
pub as_chunks-concat :
    (size : ℕ) (xs : List (List ℕ)) (rest : List ℕ) (n : ℕ)
    → AllSized size xs
    → length xs ≡ n
    → as_chunks size n (concat xs ++ rest) ≡ xs
as_chunks-concat size [] rest zero h e = refl
as_chunks-concat size [] rest (suc n) h e = absurd (omega (arith, e))
as_chunks-concat size (x ∷ xs) rest zero h e = absurd (omega (arith, e))
as_chunks-concat size (x ∷ xs) rest (suc n) h e =
    let there = append_assoc x (concat xs) rest in
    let first : take size ((x ++ concat xs) ++ rest) ≡ x =
      ap (take size) there ∙ take-append x (concat xs ++ rest) size h.0 in
    let behind : drop size ((x ++ concat xs) ++ rest) ≡ concat xs ++ rest =
      ap (drop size) there ∙ drop-append x (concat xs ++ rest) size h.0 in
    ap (λ (l : List ℕ). l ∷ as_chunks size n (drop size ((x ++ concat xs) ++ rest))) first
    ∙ ap (λ (l : List ℕ). x ∷ as_chunks size n l) behind
    ∙ ap (λ (l : List (List ℕ)). x ∷ l) (as_chunks-concat size xs rest n h.1 (omega (arith, e)))
