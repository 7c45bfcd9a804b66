-- ===== src/Memory/Store/Candidates.antt =====
-- Removing from the candidates by moving the last one, and adding one.
use feuer.Base.{
  ℕ, zero, suc, ◌-◌, ◌≤◌, ◌<◌, ◌≡◌, ◌≢◌, refl, ◌∙◌, List, [], ◌∷◌, ◌++◌, none, some, arith, lt→ltb,
  length, get_elem?, set, take, swap_remove, length-take, length-set, get_elem?-take,
  get_elem?-set_self, get_elem?-set_ne, get_elem?-ge,
}

module _ (xs : List ℕ) (i l : ℕ) (low : i < length xs)
    (last : get_elem? xs (length xs - 1) ≡ some l) where
  swap_remove-eq : swap_remove xs i ≡ take (length xs - 1) (set xs i l)
  swap_remove-eq = rw (swap_remove, last, lt→ltb i (length xs) low) refl

  pub length-swap_remove : length (swap_remove xs i) ≡ length xs - 1
  length-swap_remove =
      rw swap_remove-eq (omega (arith, length-take (length xs - 1) (set xs i l), length-set xs i l))

  pub get_elem?-swap_remove_self : i < length xs - 1 → get_elem? (swap_remove xs i) i ≡ some l
  get_elem?-swap_remove_self h =
      rw swap_remove-eq
        (get_elem?-take (set xs i l) (length xs - 1) i h ∙ get_elem?-set_self xs i l low)

  pub get_elem?-swap_remove_ne :
      (j : ℕ) → j < length xs - 1 → i ≢ j → get_elem? (swap_remove xs i) j ≡ get_elem? xs j
  get_elem?-swap_remove_ne j h k =
      rw swap_remove-eq
        (get_elem?-take (set xs i l) (length xs - 1) j h ∙ get_elem?-set_ne xs i j l k)

  pub get_elem?-swap_remove_ge : (j : ℕ) → length xs - 1 ≤ j → get_elem? (swap_remove xs i) j ≡ none
  get_elem?-swap_remove_ge j h =
      get_elem?-ge (swap_remove xs i) j (omega (arith, length-swap_remove))

pub get_elem?-snoc : (xs : List ℕ) (x : ℕ) → get_elem? (xs ++ x ∷ []) (length xs) ≡ some x
get_elem?-snoc [] x = refl
get_elem?-snoc (y ∷ ys) x = get_elem?-snoc ys x

pub get_elem?-snoc_lt :
    (xs : List ℕ) (x i : ℕ) → i < length xs → get_elem? (xs ++ x ∷ []) i ≡ get_elem? xs i
get_elem?-snoc_lt [] x i h = elim h [ ]
get_elem?-snoc_lt (y ∷ ys) x zero h = refl
get_elem?-snoc_lt (y ∷ ys) x (suc i) h = get_elem?-snoc_lt ys x i (omega arith)
