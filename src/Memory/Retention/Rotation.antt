-- ===== src/Memory/Retention/Rotation.antt =====
-- Single and repeated samples of feuer-memory/src/retention.rs.
use feuer.Base.{
  ℕ, zero, suc, ◌+◌, ◌-◌, ◌*◌, ◌%◌, ◌≤◌, ◌<◌, ◌≡◌, refl, sym, ◌∙◌, ap, min, max, List, [], ◌∷◌,
  ◌++◌, arith, length, take, drop, get_elem?, get_elem?-take, get_elem?-drop, length-append,
  length-take, length-drop, dec_lt, lt→ltb,
}
use native.Mathlib.Nat.{suc-add, mod-eq_of_lt, mod-eq-sub-mod, mod-lt, mod-add-mod}
use feuer.Memory.Retention.{sample_candidates, start_after}

mod-wrap : (n x : ℕ) → n ≤ x → x < n + n → x % n ≡ x - n
mod-wrap n x h k = mod-eq-sub-mod h ∙ mod-eq_of_lt (omega arith)

-- Every candidate lies some way behind any start.
distance : (start n j : ℕ) → j < n → (d : ℕ) × (d < n) × ((start + d) % n ≡ j)
distance start n j h =
    let s = start % n in
    let low : s < n = mod-lt start (omega arith) in
    elim (dec_lt j s) [
      | no above ↦ (
        j - s,
        omega arith,
        sym (mod-add-mod start n (j - s)) ∙ ap (λ (x : ℕ). x % n) (omega arith) ∙ mod-eq_of_lt h,
      )
      | yes below ↦ (
        j + n - s,
        omega arith,
        sym (mod-add-mod start n (j + n - s))
            ∙ mod-wrap n (s + (j + n - s)) (omega arith) (omega arith)
            ∙ omega arith,
      )
    ]

positive : (k size d : ℕ) → d < k * size → 0 < size
positive k zero d h = absurd (omega arith)
positive k (suc size) d h = omega arith

module _ {ℓ} {A : Type ℓ} where
  get_elem?-append_left :
      (xs ys : List A) (i : ℕ) → i < length xs → get_elem? (xs ++ ys) i ≡ get_elem? xs i
  get_elem?-append_left [] ys i h = elim h [ ]
  get_elem?-append_left (x ∷ xs) ys zero h = refl
  get_elem?-append_left (x ∷ xs) ys (suc i) h = get_elem?-append_left xs ys i (omega arith)

  get_elem?-append_right :
      (xs ys : List A) (i : ℕ) → get_elem? (xs ++ ys) (length xs + i) ≡ get_elem? ys i
  get_elem?-append_right [] ys i = ground arith
  get_elem?-append_right (x ∷ xs) ys i = rw suc-add (get_elem?-append_right xs ys i)

  -- An entry behind the first list, by its place in both.
  get_elem?-append :
      (xs ys : List A) (i : ℕ)
      → length xs ≤ i
      → get_elem? (xs ++ ys) i ≡ get_elem? ys (i - length xs)
  get_elem?-append xs ys i h =
      let e : i ≡ length xs + (i - length xs) = omega arith in
      rw e (rw (get_elem?-append_right xs ys (i - length xs)) (ap (get_elem? ys) (omega arith)))

  rotated :
      (cs : List A) (s i : ℕ)
      → s < length cs
      → i < length cs
      → get_elem? (drop s cs ++ take s cs) i ≡ get_elem? cs ((s + i) % length cs)
  rotated cs s i p q = elim (dec_lt (s + i) (length cs)) [
    | yes low ↦
        get_elem?-append_left (drop s cs) (take s cs) i (omega (arith, length-drop s cs))
        ∙ get_elem?-drop cs s i
        ∙ ap (get_elem? cs) (sym (mod-eq_of_lt low))
    | no high ↦
        get_elem?-append (drop s cs) (take s cs) i (omega (arith, length-drop s cs))
        ∙ get_elem?-take cs s (i - length (drop s cs)) (omega (arith, length-drop s cs))
        ∙ ap (get_elem? cs) (
            omega (arith, length-drop s cs)
            ∙ sym (mod-wrap (length cs) (s + i) (omega arith) (omega arith)))
  ]

  -- With candidates and a sample that is not empty, the sample starts at `start`, goes up and
  -- round the end, and holds as many candidates as there are, or `size`. The next sample starts
  -- behind its last candidate.
  pub sample_candidates-rotates :
      (start : ℕ) (cs : List A) (size i : ℕ)
      → 0 < length cs
      → i < min (length cs) size
      → (get_elem? (sample_candidates start cs size).1 i ≡ get_elem? cs ((start + i) % length cs))
        × (length (sample_candidates start cs size).1 ≡ min (length cs) size)
        × ((sample_candidates start cs size).0 ≡ (start + min (length cs) size) % length cs)
  unfolding sample_candidates
  sample_candidates-rotates start cs size i k h =
      let n = length cs in
      let s = start % n in
      let one : max n 1 ≡ n = omega arith in
      let low : s < n = mod-lt start k in
      let all : length (drop s cs ++ take s cs) ≡ n =
        omega (arith, length-append (drop s cs) (take s cs), length-drop s cs, length-take s cs) in
      (
        rw one (
            get_elem?-take (drop s cs ++ take s cs) size i (omega arith)
            ∙ rotated cs s i low (omega arith)
            ∙ ap (get_elem? cs) (mod-add-mod start n i)),
        rw one (length-take size (drop s cs ++ take s cs) ∙ omega arith),
        rw (lt→ltb 0 n k, one) (mod-add-mod start n (min n size)),
      )

  reached :
      (k start : ℕ) (cs : List A) (size j d : ℕ)
      → 0 < length cs
      → d < length cs
      → d < k * size
      → (start + d) % length cs ≡ j
      → (r : ℕ) × (i : ℕ) × (r < k)
        × (i < min (length cs) size)
        × ((start_after r start cs size + i) % length cs ≡ j)
  unfolding start_after
  reached zero start cs size j d p l h e = absurd (omega arith)
  reached (suc k) start cs size j d p l h e = elim (dec_lt d size) [
    | yes now ↦ (0, d, omega arith, omega arith, e)
    | no later ↦
        let n = length cs in
        let pos : 0 < size = positive (suc k) size d h in
        let next = (sample_candidates start cs size).0 in
        let moved : next ≡ (start + size) % n =
          (sample_candidates-rotates start cs size 0 p (omega arith)).2
          ∙ ap (λ (x : ℕ). (start + x) % n) (omega arith) in
        let closer : (next + (d - size)) % n ≡ j =
          ap (λ (x : ℕ). (x + (d - size)) % n) moved
          ∙ mod-add-mod (start + size) n (d - size)
          ∙ ap (λ (x : ℕ). x % n) (omega arith)
          ∙ e in
        let (r, i, a, b, c) =
          reached k next cs size j (d - size) p (omega arith) (omega arith) closer in
        (suc r, i, omega arith, b, c)
  ]

  -- Over unchanged candidates, `k` samples of `size` reach every candidate once `k * size` is at
  -- least their number, from any start.
  pub sample_candidates-reaches_all :
      (k start : ℕ) (cs : List A) (size j : ℕ)
      → j < length cs
      → length cs ≤ k * size
      → (r : ℕ) × (i : ℕ) × (r < k)
        × (i < min (length cs) size)
        × (get_elem? (sample_candidates (start_after r start cs size) cs size).1 i ≡ get_elem? cs j)
  sample_candidates-reaches_all k start cs size j h b =
      let (d, low, e) = distance start (length cs) j h in
      let (r, i, a, l, f) = reached k start cs size j d (omega arith) low (omega arith) e in
      let round =
        sample_candidates-rotates (start_after r start cs size) cs size i (omega arith) l in
      (r, i, a, l, round.0 ∙ ap (get_elem? cs) f)
