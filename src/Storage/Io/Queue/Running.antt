-- ===== src/Storage/Io/Queue/Running.antt =====
-- The life of an `IoQueue` (feuer-storage/src/uring.rs): arrivals in the channel and rounds of the
-- thread, in any order.
use mathlib.Core.Path.{subst}
use feuer.Base.{
  ℕ, zero, suc, ◌+◌, ◌≡◌, inl, inr, refl, ap, sym, List, [], ◌∷◌, ◌++◌, Option, none, some, Bool,
  false, not, ◌&&◌, arith, length, get_elem?, take, drop, replicate, ltb, length-replicate,
  length-append, Bool-cases,
}
use feuer.Storage.Io.{ℤ, IoError, IoRequest, Entry}
use feuer.Storage.Io.Queue.{
  IoQueue, WriteRateLimit, new_queue, any_active, accept, user_datas, queue_requests_for_submission,
  Submit, accepted, interrupted, would_block, submit_failed, submitted, Round, finished, again,
  stopped, process_round, leaked_replies, leak_requests, drop_queue,
}
use feuer.Storage.Io.Queue.Slots.{
  occurrences, occurrences-append, occupied, Balanced, length-le-active_count, active_count,
  length-user_datas,
}
use feuer.Storage.Io.Queue.Rounds.{
  is_reply, in_channel, in_slots, in_replies, places, IsKept, IsKept-trans,
  handle_completions-IsKept,
}
use feuer.Storage.Io.Queue.Filling.{fill_slots-IsFilled}

pub data Event : Type 0 where
  arrive : IoRequest → Event
  round :
      (spacing clock : ℕ → ℕ) (is_closed : ℕ → Bool) (disconnected : Bool)
      (completions : List (ℕ × ℤ)) (submit : Submit)
      → Event

-- The thread goes on, has returned, or has ended with an error and dropped its queue; then come the
-- events that are left.
pub data Run : Type 0 where
  running : IoQueue → Run
  ended : IoQueue → List Event → Run
  broken : IoError → IoQueue → List Event → Run

unfoldable pub run : List Event → IoQueue → Option Run
run [] q = some (running q)
run (arrive r ∷ es) q = run es (record q { receiver = q.receiver ++ r ∷ [] })
run (round spacing clock is_closed disconnected completions submit ∷ es) q =
    elim (process_round spacing clock is_closed disconnected completions submit q) [
      | none ↦ none
      | some (finished q') ↦ some (ended q' es)
      | some (again wait q') ↦ run es q'
      | some (stopped e q') ↦ some (broken e (drop_queue q') es)
    ]

-- The requests of caller `id` among the events.
abbrev pub arrivals : ℕ → List Event → ℕ
arrivals id [] = 0
arrivals id (arrive r ∷ es) = is_reply id r + arrivals id es
arrivals id (round spacing clock is_closed disconnected completions submit ∷ es) = arrivals id es

-- The caller never goes away.
abbrev pub Waits : ℕ → List Event → Type 0
Waits id [] = Unit
Waits id (arrive r ∷ es) = Waits id es
Waits id (round spacing clock is_closed disconnected completions submit ∷ es) =
    (is_closed id ≡ false) × Waits id es

-- While the thread runs, each slot in use has one entry in the ring or in the kernel, and the caller
-- is in the channel, in a slot or answered, as often as it asked. A thread that has returned leaves
-- nothing in the ring, the kernel, the channel and the slots. One that has ended with an error
-- leaves no slot.
abbrev pub IsSoundRun : ℕ → ℕ → Run → Type 0
IsSoundRun id asked (running q) = Balanced q × (places id q ≡ asked)
IsSoundRun id asked (ended q rest) =
    (q.submission ≡ [])
    × (q.in_kernel ≡ [])
    × (q.receiver ≡ [])
    × (any_active q.requests ≡ false)
    × (in_replies id q.replies + arrivals id rest ≡ asked)
IsSoundRun id asked (broken e q rest) =
    (any_active q.requests ≡ false)
    × (in_channel id q.receiver + in_replies id q.replies + arrivals id rest ≡ asked)

in_channel-append :
    (id : ℕ) (xs ys : List IoRequest)
    → in_channel id (xs ++ ys) ≡ in_channel id xs + in_channel id ys
in_channel-append id [] ys = omega arith
in_channel-append id (x ∷ xs) ys = omega (arith, in_channel-append id xs ys)

in_replies-append :
    (id : ℕ) (xs ys : List (ℕ × Option IoError))
    → in_replies id (xs ++ ys) ≡ in_replies id xs + in_replies id ys
in_replies-append id [] ys = omega arith
in_replies-append id ((r, e) ∷ xs) ys = omega (arith, in_replies-append id xs ys)

in_replies-leaked :
    (id : ℕ) (slots : List (Option IoRequest))
    → in_replies id (leaked_replies slots) ≡ in_slots id slots
unfolding leaked_replies
in_replies-leaked id [] = refl
in_replies-leaked id (none ∷ slots) = omega (arith, in_replies-leaked id slots)
in_replies-leaked id (some r ∷ slots) = omega (arith, in_replies-leaked id slots)

idle-slots :
    (id : ℕ) (slots : List (Option IoRequest)) → any_active slots ≡ false → in_slots id slots ≡ 0
idle-slots id [] h = refl
idle-slots id (none ∷ slots) h = omega (arith, idle-slots id slots h)
idle-slots id (some r ∷ slots) h = absurd (ground arith)

idle-count : (slots : List (Option IoRequest)) → any_active slots ≡ false → active_count slots ≡ 0
idle-count [] h = refl
idle-count (none ∷ slots) h = idle-count slots h
idle-count (some r ∷ slots) h = absurd (ground arith)

-- Without a slot in use nothing is in the ring or in the kernel.
drained :
    (q : IoQueue)
    → Balanced q
    → any_active q.requests ≡ false
    → (q.submission ≡ []) × (q.in_kernel ≡ [])
drained q b h =
    let total = length-le-active_count q.requests (user_datas q.submission ++ q.in_kernel) (λ i.
      omega (arith, b.one_each i, occurrences-append i (user_datas q.submission) q.in_kernel)) in
    (
      no_entries q.submission (
          omega (
            arith,
            total,
            length-append (user_datas q.submission) q.in_kernel,
            length-user_datas q.submission,
            idle-count q.requests h,
          )),
      no_slots q.in_kernel (
          omega (
            arith,
            total,
            length-append (user_datas q.submission) q.in_kernel,
            idle-count q.requests h,
          )),
    )
  where
    no_entries : (xs : List Entry) → length xs ≡ 0 → xs ≡ []
    no_entries [] e = refl
    no_entries (x ∷ xs) e = absurd (omega arith)

    no_slots : (xs : List ℕ) → length xs ≡ 0 → xs ≡ []
    no_slots [] e = refl
    no_slots (x ∷ xs) e = absurd (omega arith)

occurrences-split :
    (i n : ℕ) (xs : List Entry)
    → occurrences i (user_datas (take n xs)) + occurrences i (user_datas (drop n xs))
      ≡ occurrences i (user_datas xs)
occurrences-split i zero xs = omega arith
occurrences-split i (suc n) [] = omega arith
occurrences-split i (suc n) (x ∷ xs) = omega (arith, occurrences-split i n xs)

accept-IsKept : (id n : ℕ) (q : IoQueue) → Balanced q → IsKept id q (accept n q)
accept-IsKept id n q b = record {
  balanced = record {
    sized = b.sized;
    one_each = λ i. omega (
      arith,
      b.one_each i,
      occurrences-split i n q.submission,
      occurrences-append i (user_datas (take n q.submission)) q.in_kernel,
    );
  };
  accounted = refl;
}

new_queue-Balanced : (n : ℕ) (limit : Option WriteRateLimit) → Balanced (new_queue n limit)
unfolding new_queue
new_queue-Balanced n limit = record {
  sized = sym (length-replicate {A = Option IoRequest} n none);
  one_each = λ i. sym (no_slot_used n i);
}
  where
    no_slot_used : (n i : ℕ) → occupied (get_elem? (replicate n none) i) ≡ 0
    no_slot_used zero i = refl
    no_slot_used (suc n) zero = refl
    no_slot_used (suc n) (suc i) = no_slot_used n i

places-new_queue : (id n : ℕ) (limit : Option WriteRateLimit) → places id (new_queue n limit) ≡ 0
unfolding new_queue
places-new_queue id n limit = omega (arith, none_used n)
  where
    none_used : (n : ℕ) → in_slots id (replicate n none) ≡ 0
    none_used zero = refl
    none_used (suc n) = omega (arith, none_used n)

dropped :
    (id : ℕ) (q : IoQueue)
    → (any_active (drop_queue q).requests ≡ false)
      × (in_channel id (drop_queue q).receiver + in_replies id (drop_queue q).replies ≡ places id q)
unfolding drop_queue leak_requests
dropped id q = elim (Bool-cases (any_active q.requests)) [
  | inl a ↦ rw a (
    refl,
    omega (
      arith,
      in_replies-append id (leaked_replies q.requests) q.replies,
      in_replies-leaked id q.requests,
    ),
  )
  | inr a ↦ rw a (a, omega (arith, idle-slots id q.requests a))
]

-- How a round ends: the books are right, and it returns only if nothing is left.
abbrev EndsWell : ℕ → IoQueue → Round → Type 0
EndsWell id q (finished q') = IsKept id q q' × (any_active q'.requests ≡ false) × (q'.receiver ≡ [])
EndsWell id q (again wait q') = IsKept id q q'
EndsWell id q (stopped e q') = IsKept id q q'

submitted-EndsWell :
    (id : ℕ) (submit : Submit) (wait : ℤ) (p q : IoQueue)
    → IsKept id p q
    → EndsWell id p (submitted submit wait q)
submitted-EndsWell id (accepted n) wait p q k =
    elim (Bool-cases (ltb 0 (length (accept n q).submission))) [
      | inl a ↦ rw a (IsKept-trans id p q (accept n q) k (accept-IsKept id n q k.balanced))
      | inr a ↦ rw a (IsKept-trans id p q (accept n q) k (accept-IsKept id n q k.balanced))
    ]
submitted-EndsWell id interrupted wait p q k = k
submitted-EndsWell id would_block wait p q k = k
submitted-EndsWell id (submit_failed e) wait p q k = k

process_round-EndsWell :
    (id : ℕ) (spacing clock : ℕ → ℕ) (is_closed : ℕ → Bool) (disconnected : Bool)
    (completions : List (ℕ × ℤ)) (submit : Submit) (q : IoQueue)
    → is_closed id ≡ false
    → Balanced q
    → (r : Round) × (process_round spacing clock is_closed disconnected completions submit q
        ≡ some r)
      × EndsWell id q r
unfolding process_round queue_requests_for_submission
process_round-EndsWell id spacing clock is_closed disconnected completions submit q o b =
    let (a, h, k) = handle_completions-IsKept id completions is_closed q b in
    let (w, c, f, filled) =
      fill_slots-IsFilled id spacing clock is_closed o (length a.requests) 0 a (omega arith)
        k.balanced (λ j p. absurd (omega arith)) in
    let all = IsKept-trans id q a c k filled.accounted in
    elim (Bool-cases
      (disconnected && not (ltb 0 (length c.receiver)) && not (any_active c.requests))) [
        | inl t ↦ (
          finished c,
          rw (h, f, t, process_round, queue_requests_for_submission) refl,
          (all, ground arith, nothing c.receiver (ground arith)),
        )
        | inr t ↦ (
          submitted submit w c,
          rw (h, f, t, process_round, queue_requests_for_submission) refl,
          submitted-EndsWell id submit w q c all,
        )
      ]
  where
    nothing : (rs : List IoRequest) → ltb 0 (length rs) ≡ false → rs ≡ []
    nothing [] e = refl
    nothing (r ∷ rs) e = absurd (ground arith)

run-IsSoundRun :
    (id : ℕ) (es : List Event) (q : IoQueue)
    → Waits id es
    → Balanced q
    → (r : Run) × (run es q ≡ some r) × IsSoundRun id (places id q + arrivals id es) r
unfolding run
run-IsSoundRun id [] q w b = (running q, refl, (b, omega arith))
run-IsSoundRun id (arrive x ∷ es) q w b =
    let (r, e, s) =
      run-IsSoundRun id es (record q { receiver = q.receiver ++ x ∷ [] }) w
        (record { sized = b.sized; one_each = b.one_each }) in
    (
      r,
      e,
      subst (λ (n : ℕ). IsSoundRun id n r) (omega (arith, in_channel-append id q.receiver (x ∷ [])))
          s,
    )
run-IsSoundRun id (round spacing clock is_closed disconnected completions submit ∷ es) q (o, w) b =
    let (end, e, k) =
      process_round-EndsWell id spacing clock is_closed disconnected completions submit q o b in
    from end e k (run-IsSoundRun id es)
  where
    from :
        (end : Round)
        → process_round spacing clock is_closed disconnected completions submit q ≡ some end
        → EndsWell id q end
        → ((q' : IoQueue)
            → Waits id es
            → Balanced q'
            → (r : Run) × (run es q' ≡ some r) × IsSoundRun id (places id q' + arrivals id es) r)
        → (r : Run) × (run (round spacing clock is_closed disconnected completions submit ∷ es) q
            ≡ some r)
          × IsSoundRun id (places id q + arrivals id es) r
    from (finished q') e (k, a, c) ih =
        let (s, t) = drained q' k.balanced a in
        (
          ended q' es,
          rw (e, run) refl,
          (
            s,
            t,
            c,
            a,
            omega (arith, k.accounted, idle-slots id q'.requests a, ap (in_channel id) c),
          ),
        )
    from (again wait q') e k ih =
        let (r, h, s) = ih q' w k.balanced in
        (r, rw (e, run) h, subst (λ (n : ℕ). IsSoundRun id n r) (omega (arith, k.accounted)) s)
    from (stopped x q') e k ih =
        let (a, c) = dropped id q' in
        (broken x (drop_queue q') es, rw (e, run) refl, (a, omega (arith, k.accounted, c)))

-- Let a caller that never goes away make requests. A new queue of any size, through any arrivals and
-- rounds, never panics. While it runs, each slot in use has exactly one entry in the ring or in the
-- kernel, and each request of the caller is in the channel, in a slot or answered, once. If the
-- thread returns, nothing is left in the ring, the kernel, the channel and the slots, and each
-- request that came has been answered once. If it ends with an error, each request is answered or
-- still in the channel.
pub run-new_queue-IsSoundRun :
    (id : ℕ) (es : List Event) (max_in_flight : ℕ) (limit : Option WriteRateLimit)
    → Waits id es
    → (r : Run) × (run es (new_queue max_in_flight limit) ≡ some r)
      × IsSoundRun id (arrivals id es) r
run-new_queue-IsSoundRun id es n limit w =
    let (r, e, s) = run-IsSoundRun id es (new_queue n limit) w (new_queue-Balanced n limit) in
    (r, e, subst (λ (k : ℕ). IsSoundRun id k r) (omega (arith, places-new_queue id n limit)) s)
