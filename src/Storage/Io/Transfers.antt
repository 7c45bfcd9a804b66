-- ===== src/Storage/Io/Transfers.antt =====
-- What the kernel does with an entry of feuer-storage/src/uring.rs, as the manual of io_uring says:
-- a parameter of the proofs. A read moves bytes of the file into the buffer, a write moves bytes of
-- its lists into the file.
use feuer.Base.{
  ℕ, zero, suc, ◌+◌, ◌-◌, ◌≤◌, ◌<◌, ◌≡◌, ◌⊎◌, refl, ap, sym, ◌∙◌, List, [], ◌∷◌, ◌++◌, Option, none,
  some, arith, length, drop, get_elem?, min, ◌==◌, if◌then◌else◌,
}
use feuer.Storage.Io.{
  ℤ, pos, IoBuffers, read, write, IoRequest, Entry, into_buffer, from_lists, iovecs, remaining,
  file_offset,
}

abbrev pub or_zero : Option ℕ → ℕ
or_zero none = 0
or_zero (some b) = b

-- Behind the end stand zeros.
abbrev pub byte_at : List ℕ → ℕ → ℕ
byte_at bytes i = or_zero (get_elem? bytes i)

abbrev pub joined : List (List ℕ) → List ℕ
joined [] = []
joined (bytes ∷ buffers) = bytes ++ joined buffers

-- Where an entry's bytes go, how many they are, and what they are.
abbrev pub target : Entry → ℕ
target e = elim e.transfer [ into_buffer start len ↦ start | from_lists lists ↦ e.offset ]

abbrev pub size : Entry → ℕ
size e = elim e.transfer [ into_buffer start len ↦ len | from_lists lists ↦ length (joined lists) ]

abbrev pub moved_byte : (ℕ → ℕ) → Entry → ℕ → ℕ
moved_byte file e i = elim e.transfer [
  | into_buffer start len ↦ file (e.offset + i)
  | from_lists lists ↦ byte_at (joined lists) i
]

-- A completion: the result, and the memory that the entry's bytes go to, before and after. A result
-- of `n` bytes has moved the first `n`. Whatever the result, only the entry's range may change.
pub record Completed (file : ℕ → ℕ) (e : Entry) (result : ℤ) (before after : ℕ → ℕ) : Type 0 where
  pub outside : (x : ℕ) → (x < target e) ⊎ (target e + size e ≤ x) → after x ≡ before x
  pub bounded : (n : ℕ) → result ≡ pos n → n ≤ size e
  pub moved : (n i : ℕ) → result ≡ pos n → i < n → after (target e + i) ≡ moved_byte file e i

-- The same of a request.
abbrev pub place : IoRequest → ℕ
place r = elim r.buffers [ read len ↦ r.range_start | write bytes tail ↦ file_offset r ]

abbrev pub byte : (ℕ → ℕ) → IoRequest → ℕ → ℕ
byte file r i = elim r.buffers [
  | read len ↦ file (file_offset r + i)
  | write bytes tail ↦ byte_at (bytes ++ tail) (r.range_start + i)
]

abbrev pub IsHeld : IoBuffers → ℕ → Type 0
IsHeld (read len) end = end ≤ len
IsHeld (write bytes tail) end = length bytes + length tail ≡ end

-- The rest of a request lies in its buffers and in the file.
pub record IsValid (r : IoRequest) : Type 0 where
  pub ordered : r.range_start ≤ r.range_end
  pub in_file : remaining r ≤ r.file_end_offset
  pub in_buffers : IsHeld r.buffers r.range_end

drop-append :
    (n : ℕ) (xs ys : List ℕ)
    → drop n (xs ++ ys) ≡ drop (min n (length xs)) xs ++ drop (n - min n (length xs)) ys
drop-append zero xs ys = ground arith
drop-append (suc n) [] ys = ground arith
drop-append (suc n) (x ∷ xs) ys = ground (arith, drop-append n xs ys)

skip_empty :
    (left : List ℕ) (rest : List (List ℕ))
    → joined (if length left == 0 then rest else left ∷ rest) ≡ left ++ joined rest
skip_empty [] rest = refl
skip_empty (b ∷ bs) rest = ground arith

-- The lists that the kernel gets are what is left of the buffers.
pub joined-iovecs :
    (buffers : List (List ℕ)) (skip : ℕ) → joined (iovecs buffers skip) ≡ drop skip (joined buffers)
unfolding iovecs
joined-iovecs [] zero = refl
joined-iovecs [] (suc n) = refl
joined-iovecs (b ∷ bs) skip =
    let s = min skip (length b) in
    skip_empty (drop s b) (iovecs bs (skip - s))
    ∙ ap (λ (l : List ℕ). drop s b ++ l) (joined-iovecs bs (skip - s))
    ∙ sym (drop-append skip b (joined bs))
