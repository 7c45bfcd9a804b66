-- ===== src/Base/BTreeMap.antt =====
-- The standard library's ordered map with integer keys, as a list of entries by rising key: the
-- operations that the disk tier calls. `last_below` is `range(..k).next_back()`, `last_at_most` is
-- `range(..=k).next_back()`, and `update` writes through the reference that a lookup returned.
use feuer.Base.{ℕ, List, [], ◌∷◌, Option, none, some, ltb, leb, ◌==◌, if◌then◌else◌}

abbrev pub BTreeMap {ℓ} : Type ℓ → Type ℓ
BTreeMap V = List (ℕ × V)

module _ {ℓ} {V : Type ℓ} where
  unfoldable pub get : ℕ → BTreeMap V → Option V
  get k [] = none
  get k ((j, v) ∷ m) = if j == k then some v else get k m

  unfoldable pub remove : ℕ → BTreeMap V → BTreeMap V
  remove k [] = []
  remove k ((j, v) ∷ m) = if j == k then m else (j, v) ∷ remove k m

  unfoldable pub insert : ℕ → V → BTreeMap V → BTreeMap V
  insert k v [] = (k, v) ∷ []
  insert k v ((j, w) ∷ m) =
      if ltb k j then (k, v) ∷ (j, w) ∷ m else if j == k then (k, v) ∷ m else (j, w) ∷ insert k v m

  unfoldable pub update : ℕ → V → BTreeMap V → BTreeMap V
  update k v [] = []
  update k v ((j, w) ∷ m) = if j == k then (k, v) ∷ m else (j, w) ∷ update k v m

  or_else : Option (ℕ × V) → ℕ × V → Option (ℕ × V)
  or_else none e = some e
  or_else (some f) e = some f

  unfoldable pub last_below : ℕ → BTreeMap V → Option (ℕ × V)
  unfolding or_else
  last_below k [] = none
  last_below k ((j, v) ∷ m) = if ltb j k then or_else (last_below k m) (j, v) else none

  unfoldable pub last_at_most : ℕ → BTreeMap V → Option (ℕ × V)
  unfolding or_else
  last_at_most k [] = none
  last_at_most k ((j, v) ∷ m) = if leb j k then or_else (last_at_most k m) (j, v) else none
