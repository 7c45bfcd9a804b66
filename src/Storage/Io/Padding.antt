-- ===== src/Storage/Io/Padding.antt =====
-- The buffers of a write, `IoBuffers::from_write_bytes` of feuer-storage/src/uring.rs: an aligned
-- part of the bytes themselves, and a copy of the rest with zeros behind it.
use feuer.Base.{
  ℕ, zero, suc, ◌+◌, ◌-◌, ◌%◌, ◌≤◌, ◌<◌, ◌≡◌, ◌⊎◌, inl, inr, refl, ap, sym, ◌∙◌, List, [], ◌∷◌,
  ◌++◌, some, Bool, true, arith, length, take, drop, replicate, length-append, length-drop,
  length-take, length-replicate, get_elem?-drop, get_elem?-take, get_elem?-ge, dec_lt, Bool-cases,
  ltb, leb, ◌==◌, ◌&&◌, min,
}
use feuer.Storage.Io.{
  ok, err, out_of_memory, Bytes, IoBuffers, write, from_write_bytes, aligned_length_of, copied,
  direct_io_alignment_bytes,
}
use feuer.Storage.Io.Transfers.{byte_at, or_zero}

byte_at-zeros : (n i : ℕ) → byte_at (replicate n 0) i ≡ 0
byte_at-zeros zero i = refl
byte_at-zeros (suc n) zero = refl
byte_at-zeros (suc n) (suc i) = byte_at-zeros n i

pub byte_at-padded : (xs : List ℕ) (n i : ℕ) → byte_at (xs ++ replicate n 0) i ≡ byte_at xs i
byte_at-padded [] n i = byte_at-zeros n i
byte_at-padded (x ∷ xs) n zero = refl
byte_at-padded (x ∷ xs) n (suc i) = byte_at-padded xs n i

take-drop : (n : ℕ) (xs ys : List ℕ) → take n xs ++ (drop n xs ++ ys) ≡ xs ++ ys
take-drop zero xs ys = refl
take-drop (suc n) [] ys = refl
take-drop (suc n) (x ∷ xs) ys = ap (λ (l : List ℕ). x ∷ l) (take-drop n xs ys)

pub byte_at-end : (xs : List ℕ) (i : ℕ) → length xs ≤ i → byte_at xs i ≡ 0
byte_at-end xs i h = ap or_zero (get_elem?-ge xs i h)

pub byte_at-take : (n : ℕ) (xs : List ℕ) (i : ℕ) → i < n → byte_at (take n xs) i ≡ byte_at xs i
byte_at-take n xs i h = ap or_zero (get_elem?-take xs n i h)

pub byte_at-drop : (n : ℕ) (xs : List ℕ) (i : ℕ) → byte_at (drop n xs) i ≡ byte_at xs (n + i)
byte_at-drop n xs i = ap or_zero (get_elem?-drop xs n i)

-- The part of the bytes that a request from `start` on carries, bytes behind their end read as zero.
pub byte_at-slice :
    (xs : List ℕ) (start len i : ℕ)
    → i < len
    → (let end = min (start + len) (length xs) in
        byte_at (take (end - min start end) (drop (min start end) xs)) i ≡ byte_at xs (start + i))
byte_at-slice xs start len i h = elim (dec_lt (start + i) (length xs)) [
  | yes p ↦
      let begin : min start (min (start + len) (length xs)) ≡ start = omega arith in
      byte_at-take _ (drop (min start (min (start + len) (length xs))) xs) i (omega arith)
      ∙ byte_at-drop (min start (min (start + len) (length xs))) xs i
      ∙ ap (λ (s : ℕ). byte_at xs (s + i)) begin
  | no p ↦
      byte_at-end _ i (
        omega (
          arith,
          length-take (min (start + len) (length xs) - min start (min (start + len) (length xs)))
              (drop (min start (min (start + len) (length xs))) xs),
          length-drop (min start (min (start + len) (length xs))) xs,
        ))
      ∙ sym (byte_at-end xs (start + i) (omega arith))
]

-- Buffers of `len` bytes, with the bytes of `content` and then zeros.
pub record IsPadded (len : ℕ) (content : List ℕ) (buffers : IoBuffers) : Type 0 where
  pub prefix : List ℕ
  pub tail : List ℕ
  pub are_write : buffers ≡ write prefix tail
  pub fill : length prefix + length tail ≡ len
  pub same : prefix ++ tail ≡ content ++ replicate (len - length content) 0

no_bytes : (xs : List ℕ) → length xs ≡ 0 → xs ≡ []
no_bytes [] h = refl
no_bytes (x ∷ xs) h = absurd (omega arith)

-- The aligned part lies in the bytes.
aligned-le : (bytes : Bytes) → aligned_length_of bytes ≤ length bytes.content
aligned-le bytes = ground arith

module _ (len : ℕ) (c : List ℕ) (n : ℕ) (fits : length c ≤ len) (inside : n ≤ length c) where
  copied-IsPadded : IsPadded len c (write (take n c) (copied (len - n) (drop n c)))
  copied-IsPadded = record {
    prefix = take n c;
    tail = copied (len - n) (drop n c);
    are_write = refl;
    fill = omega (
      arith,
      length-take n c,
      length-append (drop n c) (replicate (len - n - length (drop n c)) 0),
      length-drop n c,
      length-replicate {A = ℕ} (len - n - length (drop n c)) 0,
    );
    same =
        take-drop n c (replicate (len - n - length (drop n c)) 0)
        ∙ ap (λ (k : ℕ). c ++ replicate k 0) (omega (arith, length-drop n c));
  }

  whole-IsPadded : len - n ≡ 0 → IsPadded len c (write (take n c) [])
  whole-IsPadded z = record {
    prefix = take n c;
    tail = [];
    are_write = refl;
    fill = omega (arith, length-take n c);
    same =
        ap (λ (l : List ℕ). take n c ++ l)
          (sym (
            no_bytes (drop n c ++ replicate (len - length c) 0) (
              omega (
                arith,
                length-append (drop n c) (replicate (len - length c) 0),
                length-drop n c,
                length-replicate {A = ℕ} (len - length c) 0,
              ))))
        ∙ take-drop n c (replicate (len - length c) 0);
  }

-- For an aligned length that the bytes fit, the buffers hold the bytes and then zeros, unless the
-- system has no memory for the copy.
pub from_write_bytes-IsPadded :
    (granted : Bool) (len : ℕ) (bytes : Bytes)
    → length bytes.content ≤ len
    → len % direct_io_alignment_bytes ≡ 0
    → ((buffers : IoBuffers) × (from_write_bytes granted len bytes ≡ some (ok buffers))
        × IsPadded len bytes.content buffers)
      ⊎ (from_write_bytes granted len bytes ≡ some (err out_of_memory))
unfolding from_write_bytes
from_write_bytes-IsPadded granted len bytes h k =
    let n = aligned_length_of bytes in
    let inside : n ≤ length bytes.content = aligned-le bytes in
    let checked : (leb (length bytes.content) len && (len % direct_io_alignment_bytes == 0))
        ≡ true =
      ground arith in
    elim (Bool-cases (ltb 0 (len - n))) [
      | inl e ↦ elim (Bool-cases granted) [
        | inl g ↦ inl (
          write (take n bytes.content) (copied (len - n) (drop n bytes.content)),
          rw (checked, e, g, from_write_bytes) refl,
          copied-IsPadded len bytes.content n h inside,
        )
        | inr g ↦ inr (rw (checked, e, g, from_write_bytes) refl)
      ]
      | inr e ↦ inl (
        write (take n bytes.content) [],
        rw (checked, e, from_write_bytes) refl,
        whole-IsPadded len bytes.content n h inside (ground arith),
      )
    ]
