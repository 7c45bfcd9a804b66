-- ===== src/Storage/Allocation/Reserve.antt =====
-- `reserve_chunk_numbers` on the free map: feuer-storage/src/allocation.rs.
use feuer.Base.{
  ℕ, suc, ◌+◌, ◌-◌, ◌≤◌, ◌<◌, ◌≡◌, ◌⊎◌, inl, inr, [], ◌∷◌, Option, none, some, arith, refl, dec_lt,
  ℕ_discrete, Option-cases,
}
use mathlib.Core.Option
use feuer.Base.BTreeMap
use feuer.Base.BTreeMap.{BTreeMap}
use feuer.Storage.Allocation.{Range, reserve_runs}
use feuer.Storage.Allocation.Runs.{
  IsRuns, in_range, free_at, total, IsRuns-mono, free_at_below, insert_first,
}

last_at_most_absent :
    (lo hi k : ℕ) (m : BTreeMap ℕ) → IsRuns lo hi m → k < lo → BTreeMap.last_at_most k m ≡ none
unfolding BTreeMap.last_at_most
last_at_most_absent lo hi k [] r h = refl
last_at_most_absent lo hi k ((s, n) ∷ m) r h = ground arith

last_at_most-ge :
    (lo hi k : ℕ) (m : BTreeMap ℕ) (p l : ℕ)
    → IsRuns lo hi m
    → BTreeMap.last_at_most k m ≡ some (p, l)
    → lo ≤ p
unfolding BTreeMap.last_at_most
last_at_most-ge lo hi k [] p l r h = absurd (ground arith)
last_at_most-ge lo hi k ((s, n) ∷ m) p l r h = elim (Option-cases (BTreeMap.last_at_most k m)) [
  | inl e ↦ ground arith
  | inr ((q, i), e) ↦ ground (arith, last_at_most-ge (suc (s + n)) hi k m q i r.3 e)
]

last_at_most-le :
    (k : ℕ) (m : BTreeMap ℕ) (p l : ℕ) → BTreeMap.last_at_most k m ≡ some (p, l) → p ≤ k
unfolding BTreeMap.last_at_most
last_at_most-le k [] p l h = absurd (ground arith)
last_at_most-le k ((s, n) ∷ m) p l h = elim (Option-cases (BTreeMap.last_at_most k m)) [
  | inl e ↦ ground arith
  | inr ((q, i), e) ↦ ground (arith, last_at_most-le k m q i e)
]

pub reserve_runs-empty : (m : BTreeMap ℕ) (r : Range) → r.end ≤ r.start → reserve_runs m r ≡ none
unfolding reserve_runs
reserve_runs-empty m r h = ground arith

-- A run that ends before the range is passed over.
reserve_runs-cons :
    (s n hi : ℕ) (m : BTreeMap ℕ) (r : Range)
    → IsRuns (suc (s + n)) hi m
    → s + n < r.start
    → r.start < r.end
    → reserve_runs ((s, n) ∷ m) r ≡ Option.map (◌∷◌ (s, n)) (reserve_runs m r)
unfolding reserve_runs BTreeMap.remove BTreeMap.insert BTreeMap.update BTreeMap.last_at_most
reserve_runs-cons s n hi m r w h k = elim (Option-cases (BTreeMap.last_at_most r.start m)) [
  | inl e ↦ ground arith
  | inr ((p, l), e) ↦
      ground
        (arith, last_at_most-ge (suc (s + n)) hi r.start m p l w e, last_at_most-le r.start m p l e)
]

-- What a successful reservation makes of the map.
pub record Reserved (lo hi : ℕ) (r : Range) (m m' : BTreeMap ℕ) : Type 0 where
  pub runs : IsRuns lo hi m'
  pub chunks : (c : ℕ) → free_at m' c + in_range r.start r.end c ≡ free_at m c
  pub counted : total m' + r.end ≡ total m + r.start

-- The two ends of a reservation: it is granted, or some chunk of the range is not free.
abbrev pub Decided : ℕ → ℕ → Range → BTreeMap ℕ → Option (BTreeMap ℕ) → Type 0
Decided lo hi r m o =
    ((m' : BTreeMap ℕ) × (o ≡ some m') × Reserved lo hi r m m')
    ⊎ ((o ≡ none) × (c : ℕ) × (r.start ≤ c) × (c < r.end) × (free_at m c ≡ 0))

-- The first run holds the range.
take_from_run :
    (lo s n hi : ℕ) (m : BTreeMap ℕ) (r : Range)
    → IsRuns lo hi ((s, n) ∷ m)
    → s ≤ r.start
    → r.start < r.end
    → r.end ≤ s + n
    → (m' : BTreeMap ℕ) × (reserve_runs ((s, n) ∷ m) r ≡ some m') × Reserved lo hi r ((s, n) ∷ m) m'
unfolding reserve_runs BTreeMap.remove BTreeMap.insert BTreeMap.update BTreeMap.last_at_most free_at
    total
take_from_run lo s n hi m r w a k b =
    let above = last_at_most_absent (suc (s + n)) hi r.start m w.3 (omega arith) in
    elim (ℕ_discrete s r.start) [
      | yes here ↦ elim (ℕ_discrete r.end (s + n)) [
        | yes whole ↦ (
          m,
          ground (arith, above),
          record {
            runs = IsRuns-mono (suc (s + n)) lo hi m (omega arith) w.3;
            chunks = λ c. ground arith;
            counted = omega arith;
          },
        )
        | no more ↦ (
          (r.end, s + n - r.end) ∷ m,
          ground (arith, above, insert_first (suc (s + n)) hi r.end (s + n - r.end) m w.3),
          record {
            runs = (
              omega arith,
              omega arith,
              omega arith,
              IsRuns-mono (suc (s + n)) _ hi m (omega arith) w.3,
            );
            chunks = λ c. ground arith;
            counted = omega arith;
          },
        )
      ]
      | no later ↦ elim (ℕ_discrete r.end (s + n)) [
        | yes whole ↦ (
          (s, r.start - s) ∷ m,
          ground (arith, above),
          record {
            runs =
                (w.0, omega arith, omega arith, IsRuns-mono (suc (s + n)) _ hi m (omega arith) w.3);
            chunks = λ c. ground arith;
            counted = omega arith;
          },
        )
        | no more ↦ (
          (s, r.start - s) ∷ (r.end, s + n - r.end) ∷ m,
          ground (arith, above, insert_first (suc (s + n)) hi r.end (s + n - r.end) m w.3),
          record {
            runs = (
              w.0,
              omega arith,
              omega arith,
              (
                omega arith,
                omega arith,
                omega arith,
                IsRuns-mono (suc (s + n)) _ hi m (omega arith) w.3,
              ),
            );
            chunks = λ c. ground arith;
            counted = omega arith;
          },
        )
      ]
    ]

pub reserve_runs-Decided :
    (lo hi : ℕ) (m : BTreeMap ℕ) (r : Range)
    → IsRuns lo hi m
    → r.start < r.end
    → Decided lo hi r m (reserve_runs m r)
unfolding free_at total
reserve_runs-Decided lo hi [] r w k =
    inr (unfold reserve_runs BTreeMap.last_at_most in refl, r.start, omega arith, k, refl)
reserve_runs-Decided lo hi ((s, n) ∷ m) r w k = elim (dec_lt (s + n) r.start) [
  | yes gap ↦ elim (reserve_runs-Decided (suc (s + n)) hi m r w.3 k) [
    | inl (m', e, v) ↦ inl (
      (s, n) ∷ m',
      rw (reserve_runs-cons s n hi m r w.3 gap k, e),
      record {
        runs = (w.0, w.1, w.2, v.runs);
        chunks = λ c. omega (arith, v.chunks c);
        counted = omega (arith, v.counted);
      },
    )
    | inr (e, c, a, b, f) ↦
        inr (rw (reserve_runs-cons s n hi m r w.3 gap k, e), c, a, b, ground arith)
  ]
  | no near ↦ elim (dec_lt r.start s) [
    | yes before ↦ inr (
      unfold reserve_runs BTreeMap.last_at_most in ground arith,
      r.start,
      omega arith,
      k,
      ground (arith, free_at_below (suc (s + n)) hi r.start m w.3),
    )
    | no inside ↦ elim (dec_lt (s + n) r.end) [
      | yes over ↦ inr (
        unfold reserve_runs BTreeMap.last_at_most in
            ground (arith, last_at_most_absent (suc (s + n)) hi r.start m w.3),
        s + n,
        omega arith,
        over,
        ground (arith, free_at_below (suc (s + n)) hi (s + n) m w.3),
      )
      | no fits ↦ inl (take_from_run lo s n hi m r w (omega arith) k (omega arith))
    ]
  ]
]
