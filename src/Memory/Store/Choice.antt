-- ===== src/Memory/Store/Choice.antt =====
-- Scores and their order in a sample: try_insert of feuer-memory/src/store/shard.rs.
use feuer.Base.{
  if◌then◌else◌, ℕ, zero, suc, ◌<◌, ◌≡◌, inl, inr, refl, sym, ap, ◌∙◌, List, [], ◌∷◌, some, true,
  false, arith, length, get_elem?, Bool-cases,
}
use feuer.Base.HashMap.{HashMap, get}
use feuer.Memory.Store.Shard.{MemoryEntry, RetentionScorer, score_keys, before, min_by}
use feuer.Memory.Store.Entries.{some_eq, some-none}

before_asym : (x y : ℕ × ℕ) → before x y ≡ true → before y x ≡ false
before_asym (s, k) (t, j) h = ground arith

before_trans : (x y z : ℕ × ℕ) → before z y ≡ false → before y x ≡ false → before z x ≡ false
before_trans (s, k) (t, j) (u, i) g h = ground arith

pub record Lowest (xs : List (ℕ × ℕ)) (y : ℕ × ℕ) : Type 0 where
  pub place : ℕ
  pub listed : get_elem? xs place ≡ some y
  pub lowest : (j : ℕ) (x : ℕ × ℕ) → get_elem? xs j ≡ some x → before x y ≡ false

Lowest-one : (x : ℕ × ℕ) → Lowest (x ∷ []) x
Lowest-one x = record { place = 0; listed = refl; lowest = one }
  where
    one : (j : ℕ) (z : ℕ × ℕ) → get_elem? (x ∷ []) j ≡ some z → before z x ≡ false
    one zero z e = ground arith
    one (suc j) z e = absurd (ground arith)

Lowest-keep :
    (x y : ℕ × ℕ) (xs : List (ℕ × ℕ)) → Lowest xs y → before y x ≡ true → Lowest (x ∷ xs) y
Lowest-keep x y xs l h = record { place = suc l.place; listed = l.listed; lowest = all }
  where
    all : (j : ℕ) (z : ℕ × ℕ) → get_elem? (x ∷ xs) j ≡ some z → before z y ≡ false
    all zero z e = rw⁻¹ (some_eq e) (before_asym y x h)
    all (suc j) z e = l.lowest j z e

Lowest-new :
    (x y : ℕ × ℕ) (xs : List (ℕ × ℕ)) → Lowest xs y → before y x ≡ false → Lowest (x ∷ xs) x
Lowest-new x y xs l h = record { place = 0; listed = refl; lowest = all }
  where
    all : (j : ℕ) (z : ℕ × ℕ) → get_elem? (x ∷ xs) j ≡ some z → before z x ≡ false
    all zero z e = rw⁻¹ (some_eq e) (ground arith)
    all (suc j) z e = before_trans x y z (l.lowest j z e) h

min_by-cons :
    (x y : ℕ × ℕ) (xs : List (ℕ × ℕ))
    → min_by xs ≡ some y
    → min_by (x ∷ xs) ≡ some (if before y x then y else x)
unfolding min_by
min_by-cons x y xs e = rw (e, min_by) refl

min_by-Lowest :
    (x : ℕ × ℕ) (xs : List (ℕ × ℕ)) → (y : ℕ × ℕ) × (min_by (x ∷ xs) ≡ some y) × Lowest (x ∷ xs) y
min_by-Lowest x [] = (x, unfold min_by in refl, Lowest-one x)
min_by-Lowest x (z ∷ xs) =
    let (y, e, l) = min_by-Lowest z xs in
    elim (Bool-cases (before y x)) [
      | inl h ↦ (y, rw h at (min_by-cons x y (z ∷ xs) e), Lowest-keep x y (z ∷ xs) l h)
      | inr h ↦ (x, rw h at (min_by-cons x y (z ∷ xs) e), Lowest-new x y (z ∷ xs) l h)
    ]

-- Every key of the sample is scored at its place.
pub record Scored (score : RetentionScorer) (m : HashMap MemoryEntry) (keys : List ℕ)
    (xs : List (ℕ × ℕ)) : Type 0 where
  pub same_length : length xs ≡ length keys
  pub key : (i : ℕ) (x : ℕ × ℕ) → get_elem? xs i ≡ some x → get_elem? keys i ≡ some x.1
  pub scores :
      (i k : ℕ) (e : MemoryEntry)
      → get_elem? keys i ≡ some k
      → get k m ≡ some e
      → get_elem? xs i ≡ some (score k (length e.bytes), k)

Scored-cons :
    (score : RetentionScorer) (m : HashMap MemoryEntry) (k : ℕ) (e : MemoryEntry) (keys : List ℕ)
    (xs : List (ℕ × ℕ))
    → get k m ≡ some e
    → Scored score m keys xs
    → Scored score m (k ∷ keys) ((score k (length e.bytes), k) ∷ xs)
Scored-cons score m k e keys xs h r = record {
  same_length = ap suc r.same_length;
  key = at;
  scores = scored;
}
  where
    at :
        (i : ℕ) (x : ℕ × ℕ)
        → get_elem? ((score k (length e.bytes), k) ∷ xs) i ≡ some x
        → get_elem? (k ∷ keys) i ≡ some x.1
    at zero x p = ap some (ap (λ (y : ℕ × ℕ). y.1) (some_eq p))
    at (suc i) x p = r.key i x p

    scored :
        (i j : ℕ) (f : MemoryEntry)
        → get_elem? (k ∷ keys) i ≡ some j
        → get j m ≡ some f
        → get_elem? ((score k (length e.bytes), k) ∷ xs) i ≡ some (score j (length f.bytes), j)
    scored zero j f p q =
        let g = some_eq p in
        let same : e ≡ f = some_eq (sym h ∙ ap (λ (n : ℕ). get n m) g ∙ q) in
        ap (λ (n : ℕ). some (score n (length e.bytes), n)) g
        ∙ ap (λ (x : MemoryEntry). some (score j (length x.bytes), j)) same
    scored (suc i) j f p q = r.scores i j f p q

score_keys-cons :
    (score : RetentionScorer) (m : HashMap MemoryEntry) (k : ℕ) (e : MemoryEntry) (keys : List ℕ)
    (xs : List (ℕ × ℕ))
    → get k m ≡ some e
    → score_keys score m keys ≡ some xs
    → score_keys score m (k ∷ keys) ≡ some ((score k (length e.bytes), k) ∷ xs)
unfolding score_keys
score_keys-cons score m k e keys xs h g = rw (score_keys, h, g) refl

pub score_keys-Scored :
    (score : RetentionScorer) (m : HashMap MemoryEntry) (keys : List ℕ)
    → ((i k : ℕ) → get_elem? keys i ≡ some k → (e : MemoryEntry) × (get k m ≡ some e))
    → (xs : List (ℕ × ℕ)) × (score_keys score m keys ≡ some xs) × Scored score m keys xs
unfolding score_keys
score_keys-Scored score m [] h = (
  [],
  refl,
  record {
    same_length = refl;
    key = λ i x p. absurd (some-none (sym p));
    scores = λ i k e p q. absurd (some-none (sym p));
  },
)
score_keys-Scored score m (k ∷ keys) h =
    let (e, p) = h 0 k refl in
    let (xs, q, r) = score_keys-Scored score m keys (λ i. h (suc i)) in
    (_, score_keys-cons score m k e keys xs p q, Scored-cons score m k e keys xs p r)

pub nonempty-Lowest :
    (xs : List (ℕ × ℕ)) → 0 < length xs → (y : ℕ × ℕ) × (min_by xs ≡ some y) × Lowest xs y
nonempty-Lowest [] h = elim h [ ]
nonempty-Lowest (x ∷ xs) h = min_by-Lowest x xs
