-- ===== src/Cache/Config/Names.antt =====
-- What file names feuer/src/cache.rs accepts.
use feuer.Base.{
  ℕ, ◌≡◌, ◌⊎◌, Bool, ◌||◌, suc, zero, inl, inr, refl, ap, sym, ◌∙◌, List, [], ◌∷◌, ◌++◌, some, true,
  false, ◌==◌, arith, ==_iff, get_elem?, Bool-cases,
}
use feuer.Storage.Io.DataFile.Opening.{reserved_prefix, same_bytes, same_bytes→eq}
use feuer.Cache.Config.{starts_with, has_separator, has_nul, is_single_component, is_file_name}

-- What is wrong with a file name: it is empty, "." or "..", it has a separator or a NUL byte, or it has
-- the reserved prefix.
abbrev pub IsWrongName : List ℕ → Type 0
IsWrongName name =
    (name ≡ [])
    ⊎ (name ≡ b'.' ∷ [])
    ⊎ (name ≡ b'.' ∷ b'.' ∷ [])
    ⊎ ((i : ℕ) × (get_elem? name i ≡ some b'/'))
    ⊎ ((i : ℕ) × (get_elem? name i ≡ some 0))
    ⊎ ((rest : List ℕ) × (name ≡ reserved_prefix ++ rest))

pub starts_with-append : (p xs : List ℕ) → starts_with (p ++ xs) p ≡ true
starts_with-append [] [] = refl
starts_with-append [] (x ∷ xs) = refl
starts_with-append (c ∷ cs) xs = ground (arith, starts_with-append cs xs)

pub starts_with-rest :
    (name p : List ℕ) → starts_with name p ≡ true → (rest : List ℕ) × (name ≡ p ++ rest)
starts_with-rest name [] h = (name, refl)
starts_with-rest [] (p ∷ ps) h = absurd (ground arith)
starts_with-rest (c ∷ cs) (p ∷ ps) h = elim (Bool-cases (c == p)) [
  | inr n ↦ absurd (ground (arith, h, n))
  | inl e ↦
      let (rest, q) = starts_with-rest cs ps (ground (arith, h, e)) in
      (rest, ap (λ (d : ℕ). d ∷ cs) ((==_iff c p).0 e) ∙ ap (λ (l : List ℕ). p ∷ l) q)
]

module _ (x : ℕ) (has : List ℕ → Bool) (nothing : has [] ≡ false)
    (first : (c : ℕ) (cs : List ℕ) → has (c ∷ cs) ≡ ((c == x) || has cs)) where
  -- A test for a byte, by its recursion, and where the byte is.
  has-index : (name : List ℕ) → has name ≡ true → (i : ℕ) × (get_elem? name i ≡ some x)
  has-index [] h = absurd (ground (arith, h, nothing))
  has-index (c ∷ cs) h = elim (Bool-cases (c == x)) [
    | inl e ↦ (0, ap some ((==_iff c x).0 e))
    | inr n ↦ let (i, q) = has-index cs (ground (arith, h, first c cs, n)) in (suc i, q)
  ]

  index-has : (name : List ℕ) (i : ℕ) → get_elem? name i ≡ some x → has name ≡ true
  index-has [] i q = absurd (ground (arith, q))
  index-has (c ∷ cs) zero q =
      let e : (c == x) ≡ true = ground (arith, q) in ground (arith, first c cs, e)
  index-has (c ∷ cs) (suc i) q = ground (arith, first c cs, index-has cs i q)

same_bytes-eq : (xs ys : List ℕ) → xs ≡ ys → same_bytes xs ys ≡ true
same_bytes-eq xs ys e = ap (same_bytes xs) (sym e) ∙ own xs
  where
    own : (zs : List ℕ) → same_bytes zs zs ≡ true
    own [] = refl
    own (z ∷ zs) = ground (arith, own zs)

pub refused-IsWrongName : (name : List ℕ) → is_file_name name ≡ false → IsWrongName name
unfolding is_file_name is_single_component
refused-IsWrongName name h = elim (Bool-cases (same_bytes name [])) [
  | inl e ↦ inl (same_bytes→eq name [] e)
  | inr a ↦ elim (Bool-cases (same_bytes name (b'.' ∷ []))) [
    | inl e ↦ inr (inl (same_bytes→eq name (b'.' ∷ []) e))
    | inr b ↦ elim (Bool-cases (same_bytes name (b'.' ∷ b'.' ∷ []))) [
      | inl e ↦ inr (inr (inl (same_bytes→eq name (b'.' ∷ b'.' ∷ []) e)))
      | inr c ↦ elim (Bool-cases (has_separator name)) [
        | inl e ↦ inr (inr (inr (inl (has-index b'/' has_separator refl (λ x xs. refl) name e))))
        | inr d ↦ elim (Bool-cases (has_nul name)) [
          | inl e ↦ inr (inr (inr (inr (inl (has-index 0 has_nul refl (λ x xs. refl) name e)))))
          | inr f ↦ elim (Bool-cases (starts_with name reserved_prefix)) [
            | inl e ↦ inr (inr (inr (inr (inr (starts_with-rest name reserved_prefix e)))))
            | inr g ↦
                absurd
                  (ground (arith, rw (a, b, c, d, f, g, is_file_name, is_single_component) at h))
          ]
        ]
      ]
    ]
  ]
]

pub accepted-name : (name : List ℕ) → is_file_name name ≡ true → IsWrongName name → ⊥
unfolding is_file_name is_single_component
accepted-name name h (inl e) = absurd (ground (arith, h, same_bytes-eq name [] e))
accepted-name name h (inr (inl e)) = absurd (ground (arith, h, same_bytes-eq name (b'.' ∷ []) e))
accepted-name name h (inr (inr (inl e))) =
    absurd (ground (arith, h, same_bytes-eq name (b'.' ∷ b'.' ∷ []) e))
accepted-name name h (inr (inr (inr (inl (i, e))))) =
    absurd (ground (arith, h, index-has b'/' has_separator refl (λ x xs. refl) name i e))
accepted-name name h (inr (inr (inr (inr (inl (i, e)))))) =
    absurd (ground (arith, h, index-has 0 has_nul refl (λ x xs. refl) name i e))
accepted-name name h (inr (inr (inr (inr (inr (rest, e)))))) =
    let reserved : starts_with name reserved_prefix ≡ true =
      ap (λ (l : List ℕ). starts_with l reserved_prefix) e
      ∙ starts_with-append reserved_prefix rest in
    absurd (ground (arith, h, reserved))
