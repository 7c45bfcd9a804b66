-- ===== src/Storage/Metadata/Slots.antt =====
-- Free slots of one list of entries.
use mathlib.Core.Path.{subst}
use feuer.Base.{
  ℕ, zero, suc, ◌+◌, ◌<◌, ◌≡◌, ◌≢◌, ◌⊎◌, inl, inr, refl, ap, List, [], ◌∷◌, Option, none, some,
  arith, get_elem?, set, drop, replicate,
}
use feuer.Storage.Metadata.{position_none, free_of}

module _ {ℓ} {A : Type ℓ} where
  -- No entry below the index is free.
  abbrev pub Full : List (Option A) → ℕ → Type ℓ
  Full es e = (j : ℕ) → j < e → get_elem? es j ≢ some none

  pub record First (es : List (Option A)) (i : ℕ) : Type ℓ where
    pub free : get_elem? es i ≡ some none
    pub full_below : Full es i

  First-suc : (x : A) (es : List (Option A)) (i : ℕ) → First es i → First (some x ∷ es) (suc i)
  First-suc x es i f = record { free = f.free; full_below = all }
    where
      all : Full (some x ∷ es) (suc i)
      all zero h e = ground arith
      all (suc j) h e = f.full_below j (omega arith) e

  pub position_none-First :
      (es : List (Option A))
      → ((position_none es ≡ none) × (free_of es ≡ 0))
        ⊎ ((i : ℕ) × (position_none es ≡ some i) × First es i)
  unfolding position_none free_of
  position_none-First [] = inl (refl, refl)
  position_none-First (none ∷ es) =
      inr (0, refl, record { free = refl; full_below = λ j h. absurd (omega arith) })
  position_none-First (some x ∷ es) = elim (position_none-First es) [
    | inl (e, f) ↦ inl (rw e refl, f)
    | inr (i, e, f) ↦ inr (suc i, rw e refl, First-suc x es i f)
  ]

  pub free_of-drop : (es : List (Option A)) (e : ℕ) → Full es e → free_of (drop e es) ≡ free_of es
  unfolding free_of
  free_of-drop es zero h = refl
  free_of-drop [] (suc e) h = refl
  free_of-drop (none ∷ es) (suc e) h = absurd (h 0 (omega arith) refl)
  free_of-drop (some x ∷ es) (suc e) h = free_of-drop es e (λ j k. h (suc j) (omega arith))

  -- The first free slot behind a full part is the first of all.
  pub First-drop :
      (es : List (Option A)) (e i : ℕ) → Full es e → First (drop e es) i → First es (e + i)
  First-drop es zero i h f = subst (First es) (omega arith) f
  First-drop [] (suc e) i h f = absurd (ground (arith, f.free))
  First-drop (none ∷ es) (suc e) i h f = absurd (h 0 (omega arith) refl)
  First-drop (some x ∷ es) (suc e) i h f =
      subst (First (some x ∷ es)) (omega arith)
        (First-suc x es (e + i) (First-drop es e i (λ j k. h (suc j) (omega arith)) f))

  pub free_of-take :
      (es : List (Option A)) (i : ℕ) (x : A)
      → get_elem? es i ≡ some none
      → suc (free_of (set es i (some x))) ≡ free_of es
  unfolding free_of
  free_of-take [] i x e = absurd (ground arith)
  free_of-take (none ∷ es) zero x e = refl
  free_of-take (some y ∷ es) zero x e = absurd (ground arith)
  free_of-take (none ∷ es) (suc i) x e = ap suc (free_of-take es i x e)
  free_of-take (some y ∷ es) (suc i) x e = free_of-take es i x e

  pub free_of-clear :
      (es : List (Option A)) (i : ℕ) (x : A)
      → get_elem? es i ≡ some (some x)
      → free_of (set es i none) ≡ suc (free_of es)
  unfolding free_of
  free_of-clear [] i x e = absurd (ground arith)
  free_of-clear (none ∷ es) zero x e = absurd (ground arith)
  free_of-clear (some y ∷ es) zero x e = refl
  free_of-clear (none ∷ es) (suc i) x e = ap suc (free_of-clear es i x e)
  free_of-clear (some y ∷ es) (suc i) x e = free_of-clear es i x e

  -- Without a free slot, every part is full.
  pub free_of-Full : (es : List (Option A)) (e : ℕ) → free_of es ≡ 0 → Full es e
  unfolding free_of
  free_of-Full [] e z j h f = absurd (ground arith)
  free_of-Full (none ∷ es) e z j h f = absurd (omega arith)
  free_of-Full (some x ∷ es) e z zero h f = ground arith
  free_of-Full (some x ∷ es) e z (suc j) h f = free_of-Full es (suc j) z j (omega arith) f

pub free_of-replicate {ℓ} : (A : Type ℓ) (n : ℕ) → free_of (replicate {A = Option A} n none) ≡ n
unfolding free_of
free_of-replicate A zero = refl
free_of-replicate A (suc n) = ap suc (free_of-replicate A n)
