-- ===== src/Storage/Allocation/Canonical.antt =====
-- The form of a free map, and reservations followed by releases: feuer-storage/src/allocation.rs.
use mathlib.Core.Path.{◌≡◌, refl, sym, ap, ◌∙◌}
use feuer.Base.{ℕ, suc, ◌+◌, ◌-◌, ◌≤◌, ◌<◌, inl, inr, [], ◌∷◌, some, arith, dec_lt}
use feuer.Base.BTreeMap.{BTreeMap}
use feuer.Storage.Allocation.{Range, reserve_runs, release_runs}
use feuer.Storage.Allocation.Runs.{IsRuns, free_at, free_at_below, free_at_above, free_at-le-one}
use feuer.Storage.Allocation.Release.{Apart, release_runs-Released}
use feuer.Storage.Allocation.Reserve.{Reserved, reserve_runs-Decided, reserve_runs-empty}
use feuer.Storage.Allocation.Ownership.{Apart-of_taken}
use feuer.Storage.Allocation.Recovered.{some_eq}

-- Two maps with the same free chunks: neither starts, nor ends its first run, before the other.
same_first :
    (lo hi s n t l : ℕ) (m m' : BTreeMap ℕ)
    → IsRuns lo hi ((s, n) ∷ m)
    → IsRuns lo hi ((t, l) ∷ m')
    → ((c : ℕ) → free_at ((s, n) ∷ m) c ≡ free_at ((t, l) ∷ m') c)
    → (t ≤ s) × (s ≤ t → s + n ≤ t + l)
unfolding free_at
same_first lo hi s n t l m m' w v h = (
  ground (arith, h s, free_at_below (suc (t + l)) hi s m' v.3),
  λ p. ground (arith, h (t + l), free_at_below (suc (t + l)) hi (t + l) m' v.3),
)

-- A well-formed map is determined by its free chunks.
pub IsRuns-unique :
    (lo hi : ℕ) (m m' : BTreeMap ℕ)
    → IsRuns lo hi m
    → IsRuns lo hi m'
    → ((c : ℕ) → free_at m c ≡ free_at m' c)
    → m ≡ m'
unfolding free_at
IsRuns-unique lo hi [] [] w v h = refl
IsRuns-unique lo hi [] ((t, l) ∷ m') w v h = absurd (ground (arith, h t))
IsRuns-unique lo hi ((s, n) ∷ m) [] w v h = absurd (ground (arith, h s))
IsRuns-unique lo hi ((s, n) ∷ m) ((t, l) ∷ m') w v h =
    let below = same_first lo hi s n t l m m' w v h in
    let above = same_first lo hi t l s n m' m v w (λ c. sym (h c)) in
    let starts : s ≡ t = omega arith in
    let lengths : n ≡ l = omega arith in
    let rest =
      IsRuns-unique (suc (s + n)) hi m m' w.3 (rw (starts, lengths) v.3)
        (λ c. ground (arith, h c)) in
    cc

-- On a well-formed free map, releasing what a reservation of the map took restores it, run for
-- run.
pub release-reserve :
    (lo hi : ℕ) (m m' : BTreeMap ℕ) (r : Range)
    → IsRuns lo hi m
    → reserve_runs m r ≡ some m'
    → release_runs m' r ≡ m
release-reserve lo hi m m' r w e = elim (dec_lt r.start r.end) [
  | no empty ↦ absurd (ground (arith, reserve_runs-empty m r (omega arith)))
  | yes k ↦ elim (reserve_runs-Decided lo hi m r w k) [
    | inr (e', _, _, _, _) ↦ absurd (ground arith)
    | inl (m₁, e', g) ↦
        let v : Reserved lo hi r m m' = rw (some_eq (sym e ∙ e')) g in
        let taken : (c : ℕ) → r.start ≤ c → c < r.end → free_at m' c ≡ 0 =
          λ c p q. ground (arith, v.chunks c, free_at-le-one lo hi c m w) in
        let low : lo ≤ r.start =
          ground (arith, v.chunks r.start, free_at_below lo hi r.start m w) in
        let high : r.end ≤ hi =
          ground (arith, v.chunks (r.end - 1), free_at_above lo hi (r.end - 1) m w) in
        let u =
          release_runs-Released lo hi m' r v.runs (Apart-of_taken lo hi m' r v.runs k taken) low k
            high in
        IsRuns-unique lo hi (release_runs m' r) m u.runs w
          (λ c. omega (arith, u.chunks c, v.chunks c))
  ]
]

-- And to reserve what was just released.
pub reserve-release :
    (lo hi : ℕ) (m : BTreeMap ℕ) (r : Range)
    → IsRuns lo hi m
    → Apart m r
    → lo ≤ r.start
    → r.start < r.end
    → r.end ≤ hi
    → reserve_runs (release_runs m r) r ≡ some m
reserve-release lo hi m r w a l k h =
    let u = release_runs-Released lo hi m r w a l k h in
    elim (reserve_runs-Decided lo hi (release_runs m r) r u.runs k) [
      | inr (e, c, p, q, z) ↦ absurd (ground (arith, u.chunks c))
      | inl (m₁, e, v) ↦
          rw e (
            ap some
              (IsRuns-unique lo hi m₁ m v.runs w (λ c. omega (arith, u.chunks c, v.chunks c))))
    ]
