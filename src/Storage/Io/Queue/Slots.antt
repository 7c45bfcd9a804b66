-- ===== src/Storage/Io/Queue/Slots.antt =====
-- The slots of `IoQueue` (feuer-storage/src/uring.rs) against the entries in the ring and in the
-- kernel: a slot in use has one entry.
use feuer.Base.{
  ℕ, zero, suc, ◌+◌, ◌≤◌, ◌<◌, ◌≡◌, refl, ap, List, [], ◌∷◌, ◌++◌, Option, none, some, arith,
  length, get_elem?, set, remove_at, ◌==◌, if◌then◌else◌, get_elem?-set_self, get_elem?-set_ne,
  length-set, lt→ltb, ℕ_discrete,
}
use feuer.Storage.Io.{IoRequest, Entry, submission_entry}
use feuer.Storage.Io.Queue.{IoQueue, user_datas, queue_request_for_submission}

abbrev pub occurrences : ℕ → List ℕ → ℕ
occurrences i [] = 0
occurrences i (x ∷ xs) = (if x == i then 1 else 0) + occurrences i xs

pub occurrences-append :
    (i : ℕ) (xs ys : List ℕ) → occurrences i (xs ++ ys) ≡ occurrences i xs + occurrences i ys
occurrences-append i [] ys = omega arith
occurrences-append i (x ∷ xs) ys = omega (arith, occurrences-append i xs ys)

pub occurrences-remove_at :
    (i : ℕ) (xs : List ℕ) (place x : ℕ)
    → get_elem? xs place ≡ some x
    → occurrences i xs ≡ (if x == i then 1 else 0) + occurrences i (remove_at place xs)
occurrences-remove_at i [] place x e = absurd (ground arith)
occurrences-remove_at i (y ∷ ys) zero x e = ground arith
occurrences-remove_at i (y ∷ ys) (suc place) x e =
    omega (arith, occurrences-remove_at i ys place x e)

abbrev pub occupied : Option (Option IoRequest) → ℕ
occupied none = 0
occupied (some none) = 0
occupied (some (some r)) = 1

abbrev pub active_count : List (Option IoRequest) → ℕ
active_count [] = 0
active_count (none ∷ slots) = active_count slots
active_count (some r ∷ slots) = suc (active_count slots)

abbrev shifted : List ℕ → List ℕ
shifted [] = []
shifted (zero ∷ xs) = shifted xs
shifted (suc n ∷ xs) = n ∷ shifted xs

occurrences-shifted : (i : ℕ) (xs : List ℕ) → occurrences i (shifted xs) ≡ occurrences (suc i) xs
occurrences-shifted i [] = refl
occurrences-shifted i (zero ∷ xs) = ground (arith, occurrences-shifted i xs)
occurrences-shifted i (suc n ∷ xs) = ground (arith, occurrences-shifted i xs)

length-shifted : (xs : List ℕ) → length xs ≡ occurrences 0 xs + length (shifted xs)
length-shifted [] = refl
length-shifted (zero ∷ xs) = ground (arith, length-shifted xs)
length-shifted (suc n ∷ xs) = ground (arith, length-shifted xs)

-- A list of slot numbers with at most one for each slot in use is no longer than those are many.
pub length-le-active_count :
    (slots : List (Option IoRequest)) (xs : List ℕ)
    → ((i : ℕ) → occurrences i xs ≤ occupied (get_elem? slots i))
    → length xs ≤ active_count slots
length-le-active_count [] [] h = omega arith
length-le-active_count [] (x ∷ xs) h = absurd (ground (arith, h x))
length-le-active_count (none ∷ slots) xs h = omega (
  arith,
  length-shifted xs,
  h 0,
  length-le-active_count slots (shifted xs)
      (λ i. omega (arith, occurrences-shifted i xs, h (suc i))),
)
length-le-active_count (some r ∷ slots) xs h = omega (
  arith,
  length-shifted xs,
  h 0,
  length-le-active_count slots (shifted xs)
      (λ i. omega (arith, occurrences-shifted i xs, h (suc i))),
)

active_count-lt :
    (slots : List (Option IoRequest)) (i : ℕ)
    → get_elem? slots i ≡ some none
    → active_count slots < length slots
active_count-lt [] i e = absurd (ground arith)
active_count-lt (none ∷ slots) i e = omega (arith, active_count-le slots)
  where
    active_count-le : (xs : List (Option IoRequest)) → active_count xs ≤ length xs
    active_count-le [] = omega arith
    active_count-le (none ∷ xs) = omega (arith, active_count-le xs)
    active_count-le (some r ∷ xs) = omega (arith, active_count-le xs)
active_count-lt (some r ∷ slots) zero e = absurd (ground arith)
active_count-lt (some r ∷ slots) (suc i) e = omega (arith, active_count-lt slots i e)

pub user_datas-append :
    (xs ys : List Entry) → user_datas (xs ++ ys) ≡ user_datas xs ++ user_datas ys
user_datas-append [] ys = refl
user_datas-append (x ∷ xs) ys = ap (λ (l : List ℕ). x.user_data ∷ l) (user_datas-append xs ys)

pub length-user_datas : (xs : List Entry) → length (user_datas xs) ≡ length xs
length-user_datas [] = refl
length-user_datas (x ∷ xs) = ap suc (length-user_datas xs)

abbrev pub held : IoQueue → ℕ → ℕ
held q i = occurrences i (user_datas q.submission) + occurrences i q.in_kernel

-- Each slot in use has one entry in the ring or in the kernel, and no other has any.
pub record Balanced (q : IoQueue) : Type 0 where
  pub sized : q.ring_size ≡ length q.requests
  pub one_each : (i : ℕ) → held q i ≡ occupied (get_elem? q.requests i)

abbrev pub with_slot : IoQueue → ℕ → Option IoRequest → IoQueue
with_slot q index slot = record q { requests = set q.requests index slot }

pub occupied-set :
    (slots : List (Option IoRequest)) (index i : ℕ) (slot : Option IoRequest)
    → index < length slots
    → occupied (get_elem? (set slots index slot) i)
      ≡ (if index == i then occupied (some slot) else occupied (get_elem? slots i))
occupied-set slots index i slot h = elim (ℕ_discrete index i) [
  | yes e ↦ ground (arith, get_elem?-set_self slots index slot h)
  | no e ↦ ground (arith, get_elem?-set_ne slots index i slot e)
]

-- A slot without an entry can be given one: the ring has room for it.
pub queue_request-Balanced :
    (q : IoQueue) (request : IoRequest) (index : ℕ)
    → index < length q.requests
    → Balanced (with_slot q index none)
    → (let queued = record q {
      requests = set q.requests index (some request);
      submission = q.submission ++ submission_entry request index ∷ [];
    } in
        (queue_request_for_submission q request index ≡ some queued) × Balanced queued)
unfolding queue_request_for_submission submission_entry
queue_request-Balanced q request index h b =
    let cleared = set q.requests index none in
    let room : length q.submission < q.ring_size = omega (
      arith,
      b.sized,
      length-user_datas q.submission,
      length-le-active_count cleared (user_datas q.submission) (λ i. omega (arith, b.one_each i)),
      active_count-lt cleared index (get_elem?-set_self q.requests index none h),
      length-set q.requests index none,
    ) in
    (
      rw (lt→ltb (length q.submission) q.ring_size room, queue_request_for_submission) refl,
      record {
        sized = omega (
          arith,
          b.sized,
          length-set q.requests index none,
          length-set q.requests index (some request),
        );
        one_each = λ i. omega (
          arith,
          b.one_each i,
          occupied-set q.requests index i none h,
          occupied-set q.requests index i (some request) h,
          ap (occurrences i) (user_datas-append q.submission (submission_entry request index ∷ [])),
          occurrences-append i (user_datas q.submission) (index ∷ []),
          here i,
        );
      },
    )
  where
    here :
        (i : ℕ)
        → occurrences i (index ∷ []) + (if index == i then 0 else occupied (get_elem? q.requests i))
          ≡ (if index == i then 1 else occupied (get_elem? q.requests i))
    here i = ground arith
