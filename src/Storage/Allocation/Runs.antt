-- ===== src/Storage/Allocation/Runs.antt =====
-- The well-formed free maps: runs that are not empty, rise, and are never adjacent; and how often
-- a chunk number lies in a map.
use feuer.Base.{ℕ, suc, ◌+◌, ◌≤◌, ◌<◌, ◌≡◌, [], ◌∷◌, ◌&&◌, ltb, leb, if◌then◌else◌, arith, refl}
use feuer.Base.BTreeMap
use feuer.Base.BTreeMap.{BTreeMap}

-- Runs from `lo` on that end by `hi`; between two runs there is a chunk that is not free.
abbrev pub IsRuns : ℕ → ℕ → BTreeMap ℕ → Type 0
IsRuns lo hi [] = Unit {0}
IsRuns lo hi ((s, n) ∷ m) = (lo ≤ s) × (0 < n) × (s + n ≤ hi) × IsRuns (suc (s + n)) hi m

-- 1 if the chunk lies in the range, else 0.
abbrev pub in_range : ℕ → ℕ → ℕ → ℕ
in_range a b c = if leb a c && ltb c b then 1 else 0

-- How many runs hold the chunk.
unfoldable pub free_at : BTreeMap ℕ → ℕ → ℕ
free_at [] c = 0
free_at ((s, n) ∷ m) c = in_range s (s + n) c + free_at m c

unfoldable pub total : BTreeMap ℕ → ℕ
total [] = 0
total ((s, n) ∷ m) = n + total m

pub IsRuns-mono : (lo lo' hi : ℕ) (m : BTreeMap ℕ) → lo' ≤ lo → IsRuns lo hi m → IsRuns lo' hi m
IsRuns-mono lo lo' hi [] h r = tt
IsRuns-mono lo lo' hi ((s, n) ∷ m) h r = (omega arith, r.1, r.2, r.3)

pub free_at_below : (lo hi c : ℕ) (m : BTreeMap ℕ) → IsRuns lo hi m → c < lo → free_at m c ≡ 0
unfolding free_at
free_at_below lo hi c [] r h = refl
free_at_below lo hi c ((s, n) ∷ m) r h = ground (arith, free_at_below (suc (s + n)) hi c m r.3)

pub free_at_above : (lo hi c : ℕ) (m : BTreeMap ℕ) → IsRuns lo hi m → hi ≤ c → free_at m c ≡ 0
unfolding free_at
free_at_above lo hi c [] r h = refl
free_at_above lo hi c ((s, n) ∷ m) r h = ground (arith, free_at_above (suc (s + n)) hi c m r.3)

pub free_at-le-one : (lo hi c : ℕ) (m : BTreeMap ℕ) → IsRuns lo hi m → free_at m c ≤ 1
unfolding free_at
free_at-le-one lo hi c [] r = omega arith
free_at-le-one lo hi c ((s, n) ∷ m) r =
    ground (arith, free_at-le-one (suc (s + n)) hi c m r.3, free_at_below (suc (s + n)) hi c m r.3)

pub insert_first :
    (lo hi k v : ℕ) (m : BTreeMap ℕ) → IsRuns lo hi m → k < lo → BTreeMap.insert k v m ≡ (k, v) ∷ m
unfolding BTreeMap.insert
insert_first lo hi k v [] r h = refl
insert_first lo hi k v ((s, n) ∷ m) r h = ground arith

pub update_first : (k v w : ℕ) (m : BTreeMap ℕ) → BTreeMap.update k w ((k, v) ∷ m) ≡ (k, w) ∷ m
unfolding BTreeMap.update
update_first k v w m = ground arith
