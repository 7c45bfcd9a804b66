-- ===== src/Base/HashMap.antt =====
-- A hash map with integer keys, as an association list. Its order is never read.
use feuer.Base.{
  ℕ_discrete, refl, sym, ◌∙◌, ap, ==_true, ==_false, ◌+◌, ℕ, ◌≡◌, ◌≢◌, List, [], ◌∷◌, Option, none,
  some, ◌==◌, if◌then◌else◌, arith,
}

abbrev pub HashMap {ℓ} : Type ℓ → Type ℓ
HashMap V = List (ℕ × V)

module _ {ℓ} {V : Type ℓ} where
  unfoldable pub get : ℕ → HashMap V → Option V
  get k [] = none
  get k ((j, v) ∷ m) = if j == k then some v else get k m

  unfoldable pub remove : ℕ → HashMap V → HashMap V
  remove k [] = []
  remove k ((j, v) ∷ m) = if j == k then m else (j, v) ∷ remove k m

  -- Replaces the value of a key that is there.
  unfoldable pub insert : ℕ → V → HashMap V → HashMap V
  insert k v [] = (k, v) ∷ []
  insert k v ((j, w) ∷ m) = if j == k then (k, v) ∷ m else (j, w) ∷ insert k v m

  pub get-insert_self : (k : ℕ) (v : V) (m : HashMap V) → get k (insert k v m) ≡ some v
  unfolding get insert
  get-insert_self k v [] = ground arith
  get-insert_self k v ((j, w) ∷ m) = ground (arith, get-insert_self k v m)

  pub get-insert_ne : (k j : ℕ) (v : V) (m : HashMap V) → k ≢ j → get j (insert k v m) ≡ get j m
  unfolding get insert
  get-insert_ne k j v [] h = ground arith
  get-insert_ne k j v ((i, w) ∷ m) h = ground (arith, get-insert_ne k j v m)

  pub insert-insert : (k : ℕ) (v w : V) (m : HashMap V) → insert k w (insert k v m) ≡ insert k w m
  unfolding insert
  insert-insert k v w [] = ground arith
  insert-insert k v w ((i, u) ∷ m) = ground (arith, insert-insert k v w m)

  pub remove-insert : (k : ℕ) (v : V) (m : HashMap V) → get k m ≡ none → remove k (insert k v m) ≡ m
  unfolding get insert remove
  remove-insert k v [] h = ground arith
  remove-insert k v ((i, u) ∷ m) h = ground (arith, remove-insert k v m)

  -- No key is there twice.
  unfoldable pub Distinct : HashMap V → Type ℓ
  Distinct [] = Unit
  Distinct ((k, v) ∷ m) = (get k m ≡ none) × Distinct m

  pub get-remove_ne : (k j : ℕ) (m : HashMap V) → k ≢ j → get j (remove k m) ≡ get j m
  unfolding get remove
  get-remove_ne k j [] h = refl
  get-remove_ne k j ((i, w) ∷ m) h = ground (arith, get-remove_ne k j m)

  pub get-remove_self : (k : ℕ) (m : HashMap V) → Distinct m → get k (remove k m) ≡ none
  unfolding get remove Distinct
  get-remove_self k [] d = refl
  get-remove_self k ((i, w) ∷ m) d = elim (ℕ_discrete i k) [
    | yes e ↦ rw (==_true i k e) (sym (ap (λ (j : ℕ). get j m) e) ∙ d.0)
    | no e ↦ rw (==_false i k e, get, ==_false i k e) (get-remove_self k m d.1)
  ]

  pub Distinct-remove : (k : ℕ) (m : HashMap V) → Distinct m → Distinct (remove k m)
  unfolding remove Distinct
  Distinct-remove k [] d = tt
  Distinct-remove k ((i, w) ∷ m) d = elim (ℕ_discrete i k) [
    | yes e ↦ rw (==_true i k e) d.1
    | no e ↦
        rw (==_false i k e) (get-remove_ne k i m (λ f. e (sym f)) ∙ d.0, Distinct-remove k m d.1)
  ]

  pub Distinct-insert : (k : ℕ) (v : V) (m : HashMap V) → Distinct m → Distinct (insert k v m)
  unfolding insert Distinct
  Distinct-insert k v [] d = (unfold get in refl, tt)
  Distinct-insert k v ((i, w) ∷ m) d = elim (ℕ_discrete i k) [
    | yes e ↦ rw (==_true i k e) (sym (ap (λ (j : ℕ). get j m) e) ∙ d.0, d.1)
    | no e ↦
        rw (==_false i k e)
          (get-insert_ne k i v m (λ f. e (sym f)) ∙ d.0, Distinct-insert k v m d.1)
  ]

  -- What the values of a map add up to.
  unfoldable pub total : (V → ℕ) → HashMap V → ℕ
  total f [] = 0
  total f ((k, v) ∷ m) = f v + total f m

  pub total-insert :
      (f : V → ℕ) (k : ℕ) (v : V) (m : HashMap V)
      → get k m ≡ none
      → total f (insert k v m) ≡ f v + total f m
  unfolding get insert total
  total-insert f k v [] h = refl
  total-insert f k v ((i, w) ∷ m) h = ground (arith, total-insert f k v m)

  pub total-replace :
      (f : V → ℕ) (k : ℕ) (v w : V) (m : HashMap V)
      → get k m ≡ some w
      → total f (insert k v m) + f w ≡ f v + total f m
  unfolding get insert total
  total-replace f k v w [] h = absurd (ground arith)
  total-replace f k v w ((i, u) ∷ m) h = ground (arith, total-replace f k v w m)

  pub total-remove :
      (f : V → ℕ) (k : ℕ) (v : V) (m : HashMap V)
      → get k m ≡ some v
      → total f m ≡ f v + total f (remove k m)
  unfolding get remove total
  total-remove f k v [] h = absurd (ground arith)
  total-remove f k v ((i, u) ∷ m) h = ground (arith, total-remove f k v m)
