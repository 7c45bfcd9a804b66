-- ===== src/Storage/Io/Pieces.antt =====
-- Bytes of a memory as a list.
use feuer.Base.{
  ℕ, zero, suc, ◌+◌, ◌-◌, ◌≤◌, ◌<◌, ◌≡◌, refl, ap, ◌∙◌, List, [], ◌∷◌, arith, length, take, drop,
}
use feuer.Storage.Io.Transfers.{byte_at}

unfoldable pub bytes_from : (ℕ → ℕ) → ℕ → ℕ → List ℕ
bytes_from memory start zero = []
bytes_from memory start (suc n) = memory start ∷ bytes_from memory (start + 1) n

pub length-bytes_from : (m : ℕ → ℕ) (start n : ℕ) → length (bytes_from m start n) ≡ n
unfolding bytes_from
length-bytes_from m start zero = refl
length-bytes_from m start (suc n) = ap suc (length-bytes_from m (start + 1) n)

-- Two memories that agree on a stretch have the same bytes there.
pub bytes_from-cong :
    (m k : ℕ → ℕ) (a b n : ℕ)
    → ((i : ℕ) → i < n → m (a + i) ≡ k (b + i))
    → bytes_from m a n ≡ bytes_from k b n
unfolding bytes_from
bytes_from-cong m k a b zero h = refl
bytes_from-cong m k a b (suc n) h =
    ap (λ (x : ℕ). x ∷ bytes_from m (a + 1) n)
      (ap m (omega arith) ∙ h 0 (omega arith) ∙ ap k (omega arith))
    ∙ ap (λ (l : List ℕ). k b ∷ l)
        (bytes_from-cong m k (a + 1) (b + 1) n
          (λ i p. ap m (omega arith) ∙ h (suc i) (omega arith) ∙ ap k (omega arith)))

dropped :
    (m : ℕ → ℕ) (s start n k : ℕ)
    → n ≡ s + k
    → drop s (bytes_from m start n) ≡ bytes_from m (start + s) k
unfolding bytes_from
dropped m zero start n k e =
    ap (λ (t : ℕ). bytes_from m t n) (omega arith)
    ∙ ap (λ (t : ℕ). bytes_from m (start + 0) t) (omega arith)
dropped m (suc s) start zero k e = absurd (omega arith)
dropped m (suc s) start (suc n) k e =
    dropped m s (start + 1) n k (omega arith) ∙ ap (λ (t : ℕ). bytes_from m t k) (omega arith)

taken : (m : ℕ → ℕ) (start k n : ℕ) → k ≤ n → take k (bytes_from m start n) ≡ bytes_from m start k
unfolding bytes_from
taken m start zero n h = refl
taken m start (suc k) zero h = absurd (omega arith)
taken m start (suc k) (suc n) h =
    ap (λ (l : List ℕ). m start ∷ l) (taken m (start + 1) k n (omega arith))

-- A slice is the bytes of its part of the memory.
pub slice-bytes_from :
    (m : ℕ → ℕ) (start skip n all : ℕ)
    → skip + n ≤ all
    → take n (drop skip (bytes_from m start all)) ≡ bytes_from m (start + skip) n
slice-bytes_from m start skip n all h =
    ap (take n) (dropped m skip start all (all - skip) (omega arith))
    ∙ taken m (start + skip) n (all - skip) (omega arith)

-- A memory that holds a list holds it byte for byte.
pub bytes_from-list :
    (m : ℕ → ℕ) (start : ℕ) (xs : List ℕ)
    → ((i : ℕ) → i < length xs → m (start + i) ≡ byte_at xs i)
    → bytes_from m start (length xs) ≡ xs
unfolding bytes_from
bytes_from-list m start [] h = refl
bytes_from-list m start (x ∷ xs) h =
    ap (λ (y : ℕ). y ∷ bytes_from m (start + 1) (length xs))
      (ap m (omega arith) ∙ h 0 (omega arith))
    ∙ ap (λ (l : List ℕ). x ∷ l)
        (bytes_from-list m (start + 1) xs (λ i p. ap m (omega arith) ∙ h (suc i) (omega arith)))
