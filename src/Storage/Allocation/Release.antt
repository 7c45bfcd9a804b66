-- ===== src/Storage/Allocation/Release.antt =====
-- `FreeChunks::release` on the free map: feuer-storage/src/allocation.rs.
use feuer.Base.{
  ℕ, suc, ◌+◌, ◌-◌, ◌≤◌, ◌<◌, ◌≡◌, ◌⊎◌, inl, inr, [], ◌∷◌, Option, none, some, arith, refl, dec_lt,
  Option-cases,
}
use feuer.Base.BTreeMap
use feuer.Base.BTreeMap.{BTreeMap}
use feuer.Storage.Allocation.{Range, release_runs, unwrap_or}
use feuer.Storage.Allocation.Runs.{
  IsRuns, in_range, free_at, total, IsRuns-mono, insert_first, update_first,
}

-- No run meets the range.
abbrev pub Apart : BTreeMap ℕ → Range → Type 0
Apart [] r = Unit {0}
Apart ((s, n) ∷ m) r = ((r.end ≤ s) ⊎ (s + n ≤ r.start)) × Apart m r

last_below_absent :
    (lo hi k : ℕ) (m : BTreeMap ℕ) → IsRuns lo hi m → k ≤ lo → BTreeMap.last_below k m ≡ none
unfolding BTreeMap.last_below
last_below_absent lo hi k [] r h = refl
last_below_absent lo hi k ((s, n) ∷ m) r h = ground arith

get_absent : (lo hi k : ℕ) (m : BTreeMap ℕ) → IsRuns lo hi m → k < lo → BTreeMap.get k m ≡ none
unfolding BTreeMap.get
get_absent lo hi k [] r h = refl
get_absent lo hi k ((s, n) ∷ m) r h = ground (arith, get_absent (suc (s + n)) hi k m r.3)

remove_absent : (lo hi k : ℕ) (m : BTreeMap ℕ) → IsRuns lo hi m → k < lo → BTreeMap.remove k m ≡ m
unfolding BTreeMap.remove
remove_absent lo hi k [] r h = refl
remove_absent lo hi k ((s, n) ∷ m) r h = ground (arith, remove_absent (suc (s + n)) hi k m r.3)

remove-IsRuns : (lo hi k : ℕ) (m : BTreeMap ℕ) → IsRuns lo hi m → IsRuns lo hi (BTreeMap.remove k m)
unfolding BTreeMap.remove
remove-IsRuns lo hi k [] r = tt
remove-IsRuns lo hi k ((s, n) ∷ m) r = ground (
  arith,
  IsRuns-mono (suc (s + n)) lo hi m (omega arith) r.3,
  remove-IsRuns (suc (s + n)) hi k m r.3,
)

last_below-ge :
    (lo hi k : ℕ) (m : BTreeMap ℕ) (p l : ℕ)
    → IsRuns lo hi m
    → BTreeMap.last_below k m ≡ some (p, l)
    → lo ≤ p
unfolding BTreeMap.last_below
last_below-ge lo hi k [] p l r h = absurd (ground arith)
last_below-ge lo hi k ((s, n) ∷ m) p l r h = elim (Option-cases (BTreeMap.last_below k m)) [
  | inl e ↦ ground arith
  | inr ((q, i), e) ↦ ground (arith, last_below-ge (suc (s + n)) hi k m q i r.3 e)
]

-- A run that ends before the range is passed over.
release_runs-cons :
    (s n hi : ℕ) (m : BTreeMap ℕ) (r : Range)
    → IsRuns (suc (s + n)) hi m
    → s + n < r.start
    → r.start < r.end
    → release_runs ((s, n) ∷ m) r ≡ (s, n) ∷ release_runs m r
unfolding release_runs BTreeMap.get BTreeMap.remove BTreeMap.insert BTreeMap.update
    BTreeMap.last_below
release_runs-cons s n hi m r w h k =
    elim (Option-cases (BTreeMap.last_below r.start (BTreeMap.remove r.end m))) [
      | inl e ↦ ground arith
      | inr ((p, l), e) ↦ ground (
        arith,
        last_below-ge (suc (s + n)) hi r.start (BTreeMap.remove r.end m) p l
            (remove-IsRuns (suc (s + n)) hi r.end m w) e,
      )
    ]

-- What is inserted when no run ends where the range starts.
release_runs-insert :
    (m rest : BTreeMap ℕ) (r : Range) (o : Option ℕ)
    → BTreeMap.get r.end m ≡ o
    → BTreeMap.remove r.end m ≡ rest
    → BTreeMap.last_below r.start rest ≡ none
    → release_runs m r ≡ BTreeMap.insert r.start ((r.end - r.start) + unwrap_or o 0) rest
unfolding release_runs
release_runs-insert m rest r o e f g = ground arith

release_runs-update :
    (m rest : BTreeMap ℕ) (r : Range) (o : Option ℕ) (p l : ℕ)
    → BTreeMap.get r.end m ≡ o
    → BTreeMap.remove r.end m ≡ rest
    → BTreeMap.last_below r.start rest ≡ some (p, l)
    → p + l ≡ r.start
    → release_runs m r ≡ BTreeMap.update p (l + ((r.end - r.start) + unwrap_or o 0)) rest
unfolding release_runs
release_runs-update m rest r o p l e f g h = ground arith

-- What `release` makes of the map: well formed, with the released chunks added, and no others.
pub record Released (lo hi : ℕ) (r : Range) (m m' : BTreeMap ℕ) : Type 0 where
  pub runs : IsRuns lo hi m'
  pub chunks : (c : ℕ) → free_at m' c ≡ free_at m c + in_range r.start r.end c
  pub counted : total m' + r.start ≡ total m + r.end

-- What `release` takes out of the runs after the range's start, and what it leaves of them.
record Neighbour (hi : ℕ) (r : Range) (m rest : BTreeMap ℕ) (o : Option ℕ) : Type 0 where
  found : BTreeMap.get r.end m ≡ o
  left : BTreeMap.remove r.end m ≡ rest
  first : BTreeMap.last_below r.start rest ≡ none
  runs : IsRuns (suc (r.end + unwrap_or o 0)) hi rest
  fits : r.end + unwrap_or o 0 ≤ hi
  counted : total m ≡ unwrap_or o 0 + total rest
  chunks : (c : ℕ) → free_at m c ≡ in_range r.end (r.end + unwrap_or o 0) c + free_at rest c

neighbour :
    (hi : ℕ) (r : Range) (m : BTreeMap ℕ)
    → IsRuns r.start hi m
    → Apart m r
    → r.start < r.end
    → r.end ≤ hi
    → (rest : BTreeMap ℕ) × (o : Option ℕ) × Neighbour hi r m rest o
unfolding BTreeMap.get BTreeMap.remove BTreeMap.last_below free_at total unwrap_or
neighbour hi r [] w a k f = (
  [],
  none,
  record {
    found = refl;
    left = refl;
    first = refl;
    runs = tt;
    fits = omega arith;
    counted = refl;
    chunks = λ c. ground arith;
  },
)
neighbour hi r ((s, n) ∷ m) w (inr p, a) k f = absurd (omega arith)
neighbour hi r ((s, n) ∷ m) w (inl p, a) k f = elim (dec_lt r.end s) [
  | yes gap ↦ (
    (s, n) ∷ m,
    none,
    record {
      found = ground (arith, get_absent (suc (s + n)) hi r.end m w.3);
      left = ground (arith, remove_absent (suc (s + n)) hi r.end m w.3);
      first = ground arith;
      runs = (omega arith, w.1, w.2, w.3);
      fits = omega arith;
      counted = omega arith;
      chunks = λ c. ground arith;
    },
  )
  | no meets ↦ (
    m,
    some n,
    record {
      found = ground arith;
      left = ground arith;
      first = last_below_absent (suc (s + n)) hi r.start m w.3 (omega arith);
      runs = IsRuns-mono (suc (s + n)) (suc (r.end + n)) hi m (omega arith) w.3;
      fits = omega arith;
      counted = omega arith;
      chunks = λ c. ground arith;
    },
  )
]

-- No run ends where the range starts: the range, joined with its right neighbour, goes first.
insert_run :
    (lo hi : ℕ) (r : Range) (m : BTreeMap ℕ)
    → IsRuns r.start hi m
    → Apart m r
    → lo ≤ r.start
    → r.start < r.end
    → r.end ≤ hi
    → Released lo hi r m (release_runs m r)
unfolding free_at total
insert_run lo hi r m w a l k f =
    let (rest, o, b) = neighbour hi r m w a k f in
    rw
      (
        release_runs-insert m rest r o b.found b.left b.first,
        insert_first (suc (r.end + unwrap_or o 0)) hi r.start (r.end - r.start + unwrap_or o 0) rest
            b.runs (omega arith),
      )
      (record {
        runs = (
          l,
          omega arith,
          omega arith,
          IsRuns-mono (suc (r.end + unwrap_or o 0)) _ hi rest (omega arith) b.runs,
        );
        chunks = λ c. ground (arith, b.chunks c);
        counted = omega arith;
      })

-- The run that ends where the range starts takes it up, and its right neighbour.
extend_run :
    (lo s n hi : ℕ) (m : BTreeMap ℕ) (r : Range)
    → IsRuns lo hi ((s, n) ∷ m)
    → Apart m r
    → s + n ≡ r.start
    → r.start < r.end
    → r.end ≤ hi
    → Released lo hi r ((s, n) ∷ m) (release_runs ((s, n) ∷ m) r)
unfolding free_at total
extend_run lo s n hi m r w a e k f =
    let (rest, o, b) =
      neighbour hi r m (IsRuns-mono (suc (s + n)) r.start hi m (omega arith) w.3) a k f in
    rw
      (
        release_runs-update ((s, n) ∷ m) ((s, n) ∷ rest) r o s n
            (unfold BTreeMap.get in ground (arith, b.found))
            (unfold BTreeMap.remove in ground (arith, b.left))
            (unfold BTreeMap.last_below in ground (arith, b.first)) e,
        update_first s n (n + (r.end - r.start + unwrap_or o 0)) rest,
      )
      (record {
        runs = (
          w.0,
          omega arith,
          omega arith,
          IsRuns-mono (suc (r.end + unwrap_or o 0)) _ hi rest (omega arith) b.runs,
        );
        chunks = λ c. ground (arith, b.chunks c);
        counted = omega arith;
      })

-- On a well-formed free map, releasing a nonempty range inside the shard that meets no run keeps
-- the map well formed and frees exactly these chunks.
pub release_runs-Released :
    (lo hi : ℕ) (m : BTreeMap ℕ) (r : Range)
    → IsRuns lo hi m
    → Apart m r
    → lo ≤ r.start
    → r.start < r.end
    → r.end ≤ hi
    → Released lo hi r m (release_runs m r)
unfolding free_at total
release_runs-Released lo hi [] r w a l k f = insert_run lo hi r [] tt a l k f
release_runs-Released lo hi ((s, n) ∷ m) r w (inl before, a) l k f =
    insert_run lo hi r ((s, n) ∷ m) (omega arith, w.1, w.2, w.3) (inl before, a) l k f
release_runs-Released lo hi ((s, n) ∷ m) r w (inr after, a) l k f = elim (dec_lt (s + n) r.start) [
  | yes gap ↦
      let ih = release_runs-Released (suc (s + n)) hi m r w.3 a gap k f in
      rw (release_runs-cons s n hi m r w.3 gap k) (record {
        runs = (w.0, w.1, w.2, ih.runs);
        chunks = λ c. omega (arith, ih.chunks c);
        counted = omega (arith, ih.counted);
      })
  | no meets ↦ extend_run lo s n hi m r w a (omega arith) k f
]
