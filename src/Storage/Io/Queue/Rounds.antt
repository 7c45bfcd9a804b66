-- ===== src/Storage/Io/Queue/Rounds.antt =====
-- The rounds of `IoQueue` (feuer-storage/src/uring.rs): no panic, and where each request is.
use feuer.Base.{
  ℕ, zero, suc, ◌+◌, ◌≤◌, ◌<◌, ◌≡◌, inl, inr, refl, ◌∙◌, List, [], ◌∷◌, Option, none, some, Bool,
  arith, length, get_elem?, set, remove_at, ◌==◌, if◌then◌else◌, length-set, get_elem?-lt,
  Option-cases,
}
use feuer.Storage.Io.{
  ℤ, IoError, IoRequest, next_of, Next, resubmit, answer, apply_completion_result,
}
use feuer.Storage.Io.Queue.{IoQueue, user_datas, handle_io_completion, handle_completions}
use feuer.Storage.Io.Queue.Slots.{
  occurrences, occurrences-remove_at, occupied, Balanced, with_slot, queue_request-Balanced,
  occupied-set,
}

abbrev pub is_reply : ℕ → IoRequest → ℕ
is_reply id r = if r.reply == id then 1 else 0

abbrev pub in_channel : ℕ → List IoRequest → ℕ
in_channel id [] = 0
in_channel id (r ∷ rs) = is_reply id r + in_channel id rs

abbrev pub in_slot : ℕ → Option IoRequest → ℕ
in_slot id none = 0
in_slot id (some r) = is_reply id r

abbrev pub in_slots : ℕ → List (Option IoRequest) → ℕ
in_slots id [] = 0
in_slots id (slot ∷ slots) = in_slot id slot + in_slots id slots

abbrev pub in_replies : ℕ → List (ℕ × Option IoError) → ℕ
in_replies id [] = 0
in_replies id ((reply, e) ∷ rs) = (if reply == id then 1 else 0) + in_replies id rs

-- How often the caller `id` is in the channel, in the slots and among those answered.
abbrev pub places : ℕ → IoQueue → ℕ
places id q = in_channel id q.receiver + in_slots id q.requests + in_replies id q.replies

pub in_slots-set :
    (id : ℕ) (slots : List (Option IoRequest)) (i : ℕ) (old new : Option IoRequest)
    → get_elem? slots i ≡ some old
    → in_slots id (set slots i new) + in_slot id old ≡ in_slots id slots + in_slot id new
in_slots-set id [] i old new e = absurd (ground arith)
in_slots-set id (x ∷ xs) zero old new e = ground arith
in_slots-set id (x ∷ xs) (suc i) old new e = omega (arith, in_slots-set id xs i old new e)

-- A request that goes on keeps its caller.
next_of-reply :
    (r left : IoRequest) (result : ℤ) (c : Bool)
    → next_of r result c ≡ resubmit left
    → left.reply ≡ r.reply
unfolding next_of apply_completion_result
next_of-reply r left result c e = ground arith

-- The kernel's entry for slot `index` is done: the slot is left without an entry.
completed-Balanced :
    (q : IoQueue) (place index : ℕ)
    → Balanced q
    → get_elem? q.in_kernel place ≡ some index
    → ((r : IoRequest) × (get_elem? q.requests index ≡ some (some r)))
      × Balanced (with_slot (record q { in_kernel = remove_at place q.in_kernel }) index none)
completed-Balanced q place index b e =
    let one : 1 ≤ occupied (get_elem? q.requests index) =
      ground (arith, b.one_each index, occurrences-remove_at index q.in_kernel place index e) in
    let (r, here) = slot_of (get_elem? q.requests index) one in
    (
      (r, here),
      record {
        sized = omega (arith, b.sized, length-set q.requests index none);
        one_each = λ i. rest i here;
      },
    )
  where
    slot_of :
        (s : Option (Option IoRequest)) → 1 ≤ occupied s → (r : IoRequest) × (s ≡ some (some r))
    slot_of none h = absurd (omega arith)
    slot_of (some none) h = absurd (omega arith)
    slot_of (some (some r)) h = (r, refl)

    rest :
        (i : ℕ) {r : IoRequest}
        → get_elem? q.requests index ≡ some (some r)
        → occurrences i (user_datas q.submission) + occurrences i (remove_at place q.in_kernel)
          ≡ occupied (get_elem? (set q.requests index none) i)
    rest i {r} here = ground (
      arith,
      b.one_each i,
      occurrences-remove_at i q.in_kernel place index e,
      occupied-set q.requests index i none (get_elem?-lt q.requests index (some r) here),
    )

-- What an operation leaves: the counts of entries, the caller's places, and the rest of the channel.
pub record IsKept (id : ℕ) (q q' : IoQueue) : Type 0 where
  pub balanced : Balanced q'
  pub accounted : places id q' ≡ places id q

pub IsKept-trans : (id : ℕ) (a b c : IoQueue) → IsKept id a b → IsKept id b c → IsKept id a c
IsKept-trans id a b c h k = record { balanced = k.balanced; accounted = k.accounted ∙ h.accounted }

-- A completion never panics, and its request stays in its slot or is answered.
handle-IsKept :
    (id : ℕ) (q : IoQueue) (place index : ℕ) (result : ℤ) (is_closed : ℕ → Bool)
    → Balanced q
    → get_elem? q.in_kernel place ≡ some index
    → (q' : IoQueue) × (handle_io_completion
          (record q { in_kernel = remove_at place q.in_kernel })
          index
          result
          is_closed
        ≡ some q')
      × IsKept id q q'
unfolding handle_io_completion
handle-IsKept id q place index result is_closed b e =
    let taken = record q { in_kernel = remove_at place q.in_kernel } in
    let ((r, here), cleared) = completed-Balanced q place index b e in
    let inside = get_elem?-lt q.requests index (some r) here in
    from r here inside cleared (next_of r result (is_closed r.reply)) refl
  where
    from :
        (r : IoRequest)
        → get_elem? q.requests index ≡ some (some r)
        → index < length q.requests
        → Balanced (with_slot (record q { in_kernel = remove_at place q.in_kernel }) index none)
        → (n : Next) → next_of r result (is_closed r.reply) ≡ n
        → (q' : IoQueue) × (handle_io_completion
              (record q { in_kernel = remove_at place q.in_kernel })
              index
              result
              is_closed
            ≡ some q')
          × IsKept id q q'
    from r here inside cleared (answer last x) n = (
      record q {
        in_kernel = remove_at place q.in_kernel;
        requests = set q.requests index none;
        replies = (r.reply, x) ∷ q.replies;
      },
      rw (here, n, handle_io_completion) refl,
      record {
        balanced = record { sized = cleared.sized; one_each = cleared.one_each };
        accounted = omega (arith, in_slots-set id q.requests index (some r) none here);
      },
    )
    from r here inside cleared (resubmit left) n =
        let taken = record q { in_kernel = remove_at place q.in_kernel } in
        let (p, balanced) = queue_request-Balanced taken left index inside cleared in
        (
          _,
          rw (here, n, handle_io_completion) p,
          record {
            balanced = balanced;
            accounted = ground (
              arith,
              in_slots-set id q.requests index (some r) (some left) here,
              next_of-reply r left result (is_closed r.reply) n,
            );
          },
        )

pub handle_completions-IsKept :
    (id : ℕ) (cs : List (ℕ × ℤ)) (is_closed : ℕ → Bool) (q : IoQueue)
    → Balanced q
    → (q' : IoQueue) × (handle_completions cs is_closed q ≡ some q') × IsKept id q q'
unfolding handle_completions
handle_completions-IsKept id [] is_closed q b = (q, refl, record { balanced = b; accounted = refl })
handle_completions-IsKept id ((place, result) ∷ cs) is_closed q b =
    elim (Option-cases (get_elem? q.in_kernel place)) [
      | inl e ↦ rw (e, handle_completions) (handle_completions-IsKept id cs is_closed q b)
      | inr (index, e) ↦
          let (q', h, k) = handle-IsKept id q place index result is_closed b e in
          let (q'', h', k') = handle_completions-IsKept id cs is_closed q' k.balanced in
          (q'', rw (e, h, handle_completions) h', IsKept-trans id q q' q'' k k')
    ]
