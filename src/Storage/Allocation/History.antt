-- ===== src/Storage/Allocation/History.antt =====
-- Any history of calls on one shard's allocator, beside the reservations that its callers hold.
use mathlib.Core.Path.{subst}
use feuer.Base.{
  ℕ, zero, suc, ◌+◌, ◌-◌, ◌/◌, ◌≤◌, ◌≡◌, ◌⊎◌, inl, inr, List, [], ◌∷◌, Option, none, some, arith,
  refl, ◌∙◌, Option-cases, get_elem?, remove_at,
}
use feuer.Base.BTreeMap.{BTreeMap}
use feuer.Storage.Allocation.{Range, ReservedChunks, chunk_bytes}
use feuer.Storage.Allocation.Runs.{free_at, total}
use feuer.Storage.Allocation.Ownership.{drop_reserved-Owned}
use feuer.Storage.Allocation.Grants.{fresh, Granted, reserve_chunks_at-Answer}
use feuer.Storage.Allocation.FirstFit.{reserve_chunks-first_fit}
use feuer.Storage.Allocation.Holds.{
  Sound, owned_by, tally, tally_held, Owned-cong, hold-Sound, release_payload-Sound, ok_eq,
}
use feuer.Storage.Allocation.Recovered.{hold_recovered-Sound}
use feuer.Storage.Allocation.Allocator.{
  DiskChunkAllocator, Outcome, ok, panic, with_metrics, drop_reserved, release_payload,
  reserve_chunks, reserve_chunks_at, reserve_chunk_numbers, mark_recovered,
  hold_chunks_until_payloads_released, hold_chunks_for_recovered_payload, sum_counts, drop_free,
}

pub record System : Type 0 where
  pub allocator : DiskChunkAllocator
  pub out : List ReservedChunks

-- A caller drops or hands over one of its reservations, by its place among them.
pub data Call : Type 0 where
  reserve : ℕ → Call
  reserve_at : ℕ → ℕ → Call
  drop : ℕ → Call
  hold : ℕ → ℕ → Call
  recover : Range → Call
  release : ℕ → Call

abbrev granted : System → Option (ReservedChunks × DiskChunkAllocator) → System
granted s none = s
granted s (some (r, a)) = record { allocator = a; out = r ∷ s.out }

abbrev given_up :
    System → ℕ → (ReservedChunks → DiskChunkAllocator) → Option ReservedChunks → System
given_up s i act none = s
given_up s i act (some r) = record { allocator = act r; out = remove_at i s.out }

abbrev accepted : System → Option DiskChunkAllocator → System
accepted s none = s
accepted s (some a) = record s { allocator = a }

abbrev released : System → Outcome DiskChunkAllocator → Outcome System
released s (ok a) = ok (record s { allocator = a })
released s panic = panic

unfoldable pub step : System → Call → Outcome System
step s (reserve count) = ok (granted s (reserve_chunks s.allocator count))
step s (reserve_at first count) = ok (granted s (reserve_chunks_at s.allocator first count))
step s (drop i) = ok (given_up s i (drop_reserved s.allocator) (get_elem? s.out i))
step s (hold i count) = ok (
    given_up s i (λ r. hold_chunks_until_payloads_released s.allocator r count) (get_elem? s.out i))
step s (recover p) = ok (accepted s (hold_chunks_for_recovered_payload s.allocator p))
step s (release address) = released s (release_payload s.allocator address)

unfoldable pub run : System → List Call → Outcome System
run s [] = ok s
run s (c ∷ cs) = elim (step s c) [ ok t ↦ run t cs | panic ↦ panic ]

-- A new allocator, and no reservations.
abbrev pub start : Range → System
start disk_range = record { allocator = with_metrics disk_range; out = [] }

abbrev pub IsSound : ℕ → System → Type 0
IsSound first s = Sound first s.allocator (λ f. tally f s.out)

tally-remove_at :
    (f : ReservedChunks → ℕ) (i : ℕ) (rs : List ReservedChunks) (r : ReservedChunks)
    → get_elem? rs i ≡ some r
    → tally f rs ≡ f r + tally f (remove_at i rs)
unfolding tally
tally-remove_at f i [] r e = absurd (ground arith)
tally-remove_at f zero (x ∷ xs) r e = ground arith
tally-remove_at f (suc i) (x ∷ xs) r e = ground (arith, tally-remove_at f i xs r e)

Outcome-cases {ℓ} : {A : Type ℓ} (o : Outcome A) → (o ≡ panic) ⊎ ((a : A) × (o ≡ ok a))
Outcome-cases panic = inl refl
Outcome-cases (ok a) = inr (a, refl)

Granted-IsSound :
    (first : ℕ) (s : System) (r : Range) (a : DiskChunkAllocator)
    → Granted first s.allocator (owned_by s.allocator (λ f. tally f s.out)) r a
    → IsSound first (record { allocator = a; out = fresh r ∷ s.out })
unfolding tally
Granted-IsSound first s r a g =
    Owned-cong first a a _ _ refl refl (λ f. rw g.payloads (omega arith)) g.owners

given_up-parts :
    (first : ℕ) (s : System) (i : ℕ) (r : ReservedChunks)
    → get_elem? s.out i ≡ some r
    → IsSound first s
    → Sound first s.allocator (λ f. f r + tally f (remove_at i s.out))
given_up-parts first s i r e o =
    Owned-cong first s.allocator s.allocator _ _ refl refl
      (λ f. omega (arith, tally-remove_at f i s.out r e)) o

module _ (first : ℕ) (s : System) (o : IsSound first s) where
  drop-IsSound :
      (i : ℕ) → IsSound first (given_up s i (drop_reserved s.allocator) (get_elem? s.out i))
  drop-IsSound i = elim (Option-cases (get_elem? s.out i)) [
    | inl e ↦ rw e o
    | inr (r, e) ↦ rw e (
        unfold drop_reserved in
        (drop_reserved-Owned first s.allocator (owned_by s.allocator (λ f. tally f s.out))
          (owned_by s.allocator (λ f. tally f (remove_at i s.out))) r o
          (λ f. omega (arith, tally-remove_at f i s.out r e))))
  ]

  hold-IsSound :
      (i n : ℕ)
      → IsSound first (
          given_up s i
            (λ r. hold_chunks_until_payloads_released s.allocator r n)
            (get_elem? s.out i))
  hold-IsSound i n = elim (Option-cases (get_elem? s.out i)) [
    | inl e ↦ rw e o
    | inr (r, e) ↦ rw e (
        hold-Sound first s.allocator (λ f. tally f (remove_at i s.out)) r n
          (given_up-parts first s i r e o))
  ]

  Granted-step :
      (r : Range) (o' : Option (ReservedChunks × DiskChunkAllocator))
      → ((b : DiskChunkAllocator) × (o' ≡ some (fresh r, b))
          × Granted first s.allocator (owned_by s.allocator (λ f. tally f s.out)) r b)
        ⊎ (o' ≡ none)
      → IsSound first (granted s o')
  Granted-step r o' (inl (b, e, g)) = rw e (Granted-IsSound first s r b g)
  Granted-step r o' (inr e) = rw e o

-- Every call that returns keeps each chunk with one owner, and the gauges right.
pub step-IsSound :
    (first : ℕ) (s : System) (c : Call) {t : System}
    → IsSound first s
    → step s c ≡ ok t
    → IsSound first t
unfolding step
step-IsSound first s (reserve n) {t} o h =
    subst (IsSound first) (ok_eq h)
      (elim (reserve_chunks-first_fit first s.allocator (owned_by s.allocator (λ f. tally f s.out))
        n o) [
          | inl (p, b, e, g, _) ↦ Granted-step first s o _ _ (inl (b, e, g))
          | inr (e, _) ↦ Granted-step first s o (record { start = 0; end = 0 }) _ (inr e)
        ])
step-IsSound first s (reserve_at k n) {t} o h =
    subst (IsSound first) (ok_eq h)
      (elim (reserve_chunks_at-Answer first s.allocator (owned_by s.allocator (λ f. tally f s.out))
        o k n) [
          | inl (b, e, g) ↦ Granted-step first s o _ _ (inl (b, e, g))
          | inr (e, _) ↦ Granted-step first s o (record { start = 0; end = 0 }) _ (inr e)
        ])
step-IsSound first s (drop i) {t} o h = subst (IsSound first) (ok_eq h) (drop-IsSound first s o i)
step-IsSound first s (hold i n) {t} o h =
    subst (IsSound first) (ok_eq h) (hold-IsSound first s o i n)
step-IsSound first s (recover p) {t} o h =
    subst (IsSound first) (ok_eq h)
      (elim (Option-cases (hold_chunks_for_recovered_payload s.allocator p)) [
        | inl e ↦ rw e o
        | inr (b, e) ↦ rw e (hold_recovered-Sound first s.allocator (λ f. tally f s.out) o p e)
      ])
step-IsSound first s (release d) {t} o h = elim (Outcome-cases (release_payload s.allocator d)) [
  | inl e ↦ absurd (ground arith)
  | inr (b, e) ↦
      subst (IsSound first) (ok_eq (rw e at h))
        (release_payload-Sound first s.allocator (λ f. tally f s.out) d e o)
]

run-IsSound :
    (first : ℕ) (s : System) (cs : List Call) {t : System}
    → IsSound first s
    → run s cs ≡ ok t
    → IsSound first t
unfolding run
run-IsSound first s [] o h = subst (IsSound first) (ok_eq h) o
run-IsSound first s (c ∷ cs) o h = elim (Outcome-cases (step s c)) [
  | inl e ↦ absurd (ground arith)
  | inr (u, e) ↦ run-IsSound first u cs (step-IsSound first s c o e) (rw (e, run) at h)
]

pub start-IsSound :
    (r : Range) → r.start + chunk_bytes ≤ r.end → IsSound (r.start / chunk_bytes) (start r)
unfolding with_metrics tally tally_held free_at total
start-IsSound r h = record {
  runs = (omega arith, omega arith, omega arith, tt);
  owners = λ c. ground arith;
  free_gauge = ground arith;
  allocated_gauge = ground arith;
  recovered_gauge = ground arith;
  filled = ground arith;
  whole = ground arith;
}

step-capacity :
    (s : System) (c : Call) {t : System}
    → step s c ≡ ok t
    → t.allocator.chunk_capacity ≡ s.allocator.chunk_capacity
unfolding step reserve_chunks reserve_chunks_at reserve_chunk_numbers drop_reserved release_payload
    hold_chunks_until_payloads_released hold_chunks_for_recovered_payload mark_recovered
step-capacity s (reserve n) h = ground arith
step-capacity s (reserve_at k n) h = ground arith
step-capacity s (drop i) h = ground arith
step-capacity s (hold i n) h = ground arith
step-capacity s (recover p) h = ground arith
step-capacity s (release d) h = ground arith

run-capacity :
    (s : System) (cs : List Call) {t : System}
    → run s cs ≡ ok t
    → t.allocator.chunk_capacity ≡ s.allocator.chunk_capacity
unfolding run
run-capacity s [] h = ground arith
run-capacity s (c ∷ cs) h = elim (Outcome-cases (step s c)) [
  | inl e ↦ absurd (ground arith)
  | inr (u, e) ↦ run-capacity u cs (rw (e, run) at h) ∙ step-capacity s c e
]

-- After any calls on a new allocator that do not panic: each chunk of the shard is free or has
-- exactly one reservation, held or with a caller, chunks outside have none, no two free runs
-- touch, and the gauges count the free, the reserved and the recovered chunks.
pub run-start-IsSound :
    (r : Range) (cs : List Call) {t : System}
    → r.start + chunk_bytes ≤ r.end
    → run (start r) cs ≡ ok t
    → IsSound (r.start / chunk_bytes) t
      × (t.allocator.chunk_capacity ≡ (r.end - r.start) / chunk_bytes)
run-start-IsSound r cs h e = (
  run-IsSound (r.start / chunk_bytes) (start r) cs (start-IsSound r h) e,
  run-capacity (start r) cs e ∙ (unfold with_metrics in refl),
)

sum_counts-total : (m : BTreeMap ℕ) → sum_counts m ≡ total m
unfolding sum_counts total
sum_counts-total [] = refl
sum_counts-total ((s, n) ∷ m) = omega (arith, sum_counts-total m)

-- After any calls on a new allocator that do not panic, and that leave no reservation, dropping
-- the allocator leaves nothing on the shared gauges.
pub drop_free-zero :
    (r : Range) (cs : List Call) {t : System}
    → r.start + chunk_bytes ≤ r.end
    → run (start r) cs ≡ ok t
    → t.out ≡ []
    → t.allocator.payload_chunks ≡ []
    → drop_free t.allocator.free
      ≡ record { free_chunks = 0; allocated_chunks = 0; recovered_chunks = 0 }
unfolding drop_free tally tally_held
drop_free-zero r cs {t} h e p q =
    let o = (run-start-IsSound r cs h e).0 in
    ground (
      arith,
      sum_counts-total t.allocator.free.chunk_count_by_start,
      o.free_gauge,
      o.allocated_gauge,
      o.recovered_gauge,
    )
