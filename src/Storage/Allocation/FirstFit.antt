-- ===== src/Storage/Allocation/FirstFit.antt =====
-- `reserve_chunks` and its search of the free map: feuer-storage/src/allocation.rs.
use feuer.Base.{
  ℕ, suc, ◌+◌, ◌≤◌, ◌<◌, ◌≡◌, ◌⊎◌, inl, inr, [], ◌∷◌, none, some, arith, dec_lt, dec_le, ℕ_discrete,
  Option-cases,
}
use feuer.Base.BTreeMap.{BTreeMap}
use feuer.Storage.Allocation.{Range, ReservedChunks}
use feuer.Storage.Allocation.Runs.{IsRuns, free_at, free_at_below}
use feuer.Storage.Allocation.Ownership.{Owned}
use feuer.Storage.Allocation.Grants.{fresh, Granted, reserve_chunk_numbers-Answer}
use feuer.Storage.Allocation.Allocator.{DiskChunkAllocator, find_run, reserve_chunks}

-- `n` chunks from `s` on are free.
abbrev pub Window : BTreeMap ℕ → ℕ → ℕ → Type 0
Window m s n = (c : ℕ) → s ≤ c → c < s + n → free_at m c ≡ 1

-- A window lies in the first run or after it.
Window-cases :
    (lo hi s l : ℕ) (m : BTreeMap ℕ) (t n : ℕ)
    → IsRuns lo hi ((s, l) ∷ m)
    → 0 < n
    → Window ((s, l) ∷ m) t n
    → ((s ≤ t) × (n ≤ l)) ⊎ ((s + l < t) × Window m t n)
unfolding free_at
Window-cases lo hi s l m t n w k h = elim (dec_lt (s + l) t) [
  | yes after ↦ inr (after, λ c p q. ground (arith, h c p q))
  | no inside ↦
      let from : s ≤ t =
        ground (arith, h t (omega arith) (omega arith), free_at_below (suc (s + l)) hi t m w.3) in
      inl (
        from,
        (elim (dec_le n l) [
          | yes p ↦ p
          | no p ↦ absurd (
              ground (
                arith,
                h (s + l) (omega arith) (omega arith),
                free_at_below (suc (s + l)) hi (s + l) m w.3,
              ))
        ]),
      )
]

find_run-none :
    (lo hi n : ℕ) (m : BTreeMap ℕ) (t : ℕ)
    → IsRuns lo hi m
    → 0 < n
    → find_run m n ≡ none
    → ¬ Window m t n
unfolding find_run
find_run-none lo hi n [] t w k e h =
    absurd (unfold free_at in ground (arith, h t (omega arith) (omega arith)))
find_run-none lo hi n ((s, l) ∷ m) t w k e h = elim (Window-cases lo hi s l m t n w k h) [
  | inl (p, q) ↦ absurd (ground arith)
  | inr (p, q) ↦ find_run-none (suc (s + l)) hi n m t w.3 k (ground arith) q
]

find_run-first :
    (lo hi n : ℕ) (m : BTreeMap ℕ) (s t : ℕ)
    → IsRuns lo hi m
    → 0 < n
    → find_run m n ≡ some s
    → Window m t n
    → s ≤ t
unfolding find_run
find_run-first lo hi n [] s t w k e h = absurd (ground arith)
find_run-first lo hi n ((r, l) ∷ m) s t w k e h = elim (Window-cases lo hi r l m t n w k h) [
  | inl (p, q) ↦ ground arith
  | inr (p, q) ↦ elim (dec_le n l) [
    | yes fits ↦ ground arith
    | no small ↦ find_run-first (suc (r + l)) hi n m s t w.3 k (ground arith) q
  ]
]

find_run-Window :
    (lo hi n : ℕ) (m : BTreeMap ℕ) (s : ℕ)
    → IsRuns lo hi m
    → find_run m n ≡ some s
    → (lo ≤ s) × Window m s n
unfolding find_run free_at
find_run-Window lo hi n [] s w e = absurd (ground arith)
find_run-Window lo hi n ((r, l) ∷ m) s w e = elim (dec_le n l) [
  | yes fits ↦ (ground arith, λ c p q. ground (arith, free_at_below (suc (r + l)) hi c m w.3))
  | no small ↦
      let ih = find_run-Window (suc (r + l)) hi n m s w.3 (ground arith) in
      (omega arith, λ c p q. ground (arith, ih.1 c p q))
]

-- `reserve_chunks` on a sound allocator. Granted: the lowest window of `count` free chunks now
-- belongs to the caller. Refused: `count` is zero, or there is no such window.
pub reserve_chunks-first_fit :
    (first : ℕ) (a : DiskChunkAllocator) (owned : (ReservedChunks → ℕ) → ℕ) (count : ℕ)
    → Owned first a owned
    → ((s : ℕ) × (b : DiskChunkAllocator) × (reserve_chunks a count
          ≡ some (fresh (record { start = s; end = s + count }), b))
        × Granted first a owned (record { start = s; end = s + count }) b
        × ((t : ℕ) → (s ≤ t) ⊎ (¬ Window a.free.chunk_count_by_start t count)))
      ⊎ ((reserve_chunks a count ≡ none)
          × ((count ≡ 0) ⊎ ((t : ℕ) → ¬ Window a.free.chunk_count_by_start t count)))
unfolding reserve_chunks
reserve_chunks-first_fit first a owned count o =
    let m = a.free.chunk_count_by_start in
    let hi = first + a.chunk_capacity in
    elim (Option-cases (find_run m count)) [
      | inl e ↦ inr (
        rw (e, reserve_chunks),
        elim (ℕ_discrete count 0) [
          | yes z ↦ inl z
          | no k ↦ inr (λ t. find_run-none first hi count m t o.runs (omega arith) e)
        ],
      )
      | inr (s, e) ↦
          let r : Range = record { start = s; end = s + count } in
          elim (reserve_chunk_numbers-Answer first a owned o r) [
            | inl (b, g, v) ↦ inl (
              s,
              b,
              rw (e, reserve_chunks) g,
              v,
              λ t. elim (dec_le s t) [
                | yes p ↦ inl p
                | no p ↦ inr λ h.
                    p (find_run-first first hi count m s t o.runs (ground (arith, v.filled)) e h)
              ],
            )
            | inr (g, none_free) ↦ inr (
              rw (e, reserve_chunks) g,
              elim (ℕ_discrete count 0) [
                | yes z ↦ inl z
                | no k ↦
                    absurd (none_free (omega arith) (find_run-Window first hi count m s o.runs e).1)
              ],
            )
          ]
    ]
