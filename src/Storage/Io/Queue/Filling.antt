-- ===== src/Storage/Io/Queue/Filling.antt =====
-- `queue_requests_for_submission` of feuer-storage/src/uring.rs.
use feuer.Base.{
  ℕ, zero, suc, ◌+◌, ◌<◌, ◌≡◌, ◌⊎◌, inl, inr, refl, ap, sym, ◌∙◌, List, [], ◌∷◌, Option, none, some,
  Bool, false, arith, length, get_elem?, set, ltb, get_elem?-in, get_elem?-set_self,
  get_elem?-set_ne, length-set, ℕ_discrete, get_elem?-lt, Bool-cases, Option-cases,
}
use feuer.Storage.Io.{ℤ, IoRequest, remaining}
use feuer.Storage.Io.Queue.{
  IoQueue, WriteRateLimit, queue_request_for_submission, any_active, next_request, fill_slots,
  write_must_wait, recorded, until_wakeup, one_millisecond,
}
use feuer.Storage.Io.Queue.Slots.{
  Balanced, with_slot, occupied, queue_request-Balanced, occupied-set,
}
use feuer.Storage.Io.Queue.Rounds.{is_reply, in_channel, in_slots-set, IsKept, IsKept-trans}

-- Of the callers that wait, only the chosen request's leaves the channel.
next_request-none :
    (id : ℕ) (is_closed : ℕ → Bool) (rs : List IoRequest)
    → is_closed id ≡ false
    → next_request is_closed rs ≡ none
    → in_channel id rs ≡ 0
unfolding next_request
next_request-none id is_closed [] o e = refl
next_request-none id is_closed (r ∷ rs) o e = elim (Bool-cases (is_closed r.reply)) [
  | inl c ↦ ground (arith, next_request-none id is_closed rs o (rw (c, next_request) at e))
  | inr c ↦ absurd (ground arith)
]

next_request-some :
    (id : ℕ) (is_closed : ℕ → Bool) (rs : List IoRequest) (chosen : IoRequest)
    (rest : List IoRequest)
    → is_closed id ≡ false
    → next_request is_closed rs ≡ some (chosen, rest)
    → in_channel id rs ≡ is_reply id chosen + in_channel id rest
unfolding next_request
next_request-some id is_closed [] chosen rest o e = absurd (ground arith)
next_request-some id is_closed (r ∷ rs) chosen rest o e = elim (Bool-cases (is_closed r.reply)) [
  | inl c ↦
      ground (arith, next_request-some id is_closed rs chosen rest o (rw (c, next_request) at e))
  | inr c ↦ ground arith
]

-- What the loop leaves: the books are right, and if it did not stop for the rate limit the channel is
-- empty or each slot is in use.
pub record IsFilled (id : ℕ) (q : IoQueue) (wait : ℤ) (q' : IoQueue) : Type 0 where
  pub accounted : IsKept id q q'
  pub busy :
      wait ≡ until_wakeup
      → (q'.receiver ≡ [])
        ⊎ ((j : ℕ) → j < length q'.requests → occupied (get_elem? q'.requests j) ≡ 1)

module _ (id : ℕ) (spacing clock : ℕ → ℕ) (is_closed : ℕ → Bool) (o : is_closed id ≡ false) where
  -- A request moves from the channel into a free slot.
  admit-IsKept :
      (q : IoQueue) (index : ℕ) (request : IoRequest) (rest : List IoRequest)
      (limit : Option WriteRateLimit)
      → Balanced q
      → get_elem? q.requests index ≡ some none
      → next_request is_closed q.receiver ≡ some (request, rest)
      → (q' : IoQueue) × (queue_request_for_submission
            (record q { receiver = rest; write_rate_limit = limit })
            request
            index
          ≡ some q')
        × IsKept id q q'
        × (q'.requests ≡ set q.requests index (some request))
  admit-IsKept q index request rest limit b free e =
      let inside = get_elem?-lt q.requests index none free in
      let moved = record q { receiver = rest; write_rate_limit = limit } in
      let cleared : Balanced (with_slot moved index none) = record {
        sized = omega (arith, b.sized, length-set q.requests index none);
        one_each = λ i. ground (arith, b.one_each i, occupied-set q.requests index i none inside);
      } in
      let (p, balanced) = queue_request-Balanced moved request index inside cleared in
      (
        _,
        p,
        record {
          balanced = balanced;
          accounted = omega (
            arith,
            in_slots-set id q.requests index none (some request) free,
            next_request-some id is_closed q.receiver request rest o e,
          );
        },
        refl,
      )

  here_used :
      (r : IoRequest) (slots : List (Option IoRequest)) (index : ℕ)
      → get_elem? slots index ≡ some (some r)
      → ((j : ℕ) → j < index → occupied (get_elem? slots j) ≡ 1)
      → (j : ℕ) → j < index + 1
      → occupied (get_elem? slots j) ≡ 1
  here_used r slots index here u j h = elim (ℕ_discrete j index) [
    | yes q ↦ ground arith
    | no q ↦ u j (omega arith)
  ]

  idle :
      (q : IoQueue) (receiver : List IoRequest) (w : ℤ)
      → Balanced q
      → in_channel id receiver ≡ in_channel id q.receiver
      → (w ≡ until_wakeup → receiver ≡ [])
      → IsFilled id q w (record q { receiver = receiver })
  idle q receiver w b same h = record {
    accounted = record {
      balanced = record { sized = b.sized; one_each = b.one_each };
      accounted = omega (arith, same);
    };
    busy = λ p. inl (h p);
  }

  abbrev pub Fills : ℕ → ℕ → IoQueue → Type 0
  Fills n index q =
      (wait : ℤ) × (q' : IoQueue) × (fill_slots spacing clock is_closed n index q ≡ some (wait, q'))
      × IsFilled id q wait q'

  no_requests : (rs : List IoRequest) → ltb 0 (length rs) ≡ false → rs ≡ []
  no_requests [] e = refl
  no_requests (r ∷ rs) e = absurd (ground arith)

  then_filled :
      (n : ℕ) (a b : IoQueue)
      → IsKept id a b
      → (w : ℤ) (c : IoQueue) → IsFilled id b w c
      → IsFilled id a w c
  then_filled n a b k w c f = record {
    accounted = IsKept-trans id a b c k f.accounted;
    busy = f.busy;
  }

  after_set :
      (slots : List (Option IoRequest)) (index : ℕ) (r : IoRequest)
      → index < length slots
      → ((j : ℕ) → j < index → occupied (get_elem? slots j) ≡ 1)
      → (j : ℕ) → j < index + 1
      → occupied (get_elem? (set slots index (some r)) j) ≡ 1
  after_set slots index r inside u =
      here_used r (set slots index (some r)) index (get_elem?-set_self slots index (some r) inside)
        (λ j h.
          ap occupied (get_elem?-set_ne slots index j (some r) (λ e. absurd (omega arith))) ∙ u j h)

  fill_free :
      (n index : ℕ) (q : IoQueue)
      → suc n + index ≡ length q.requests
      → Balanced q
      → ((j : ℕ) → j < index → occupied (get_elem? q.requests j) ≡ 1)
      → ((q' : IoQueue)
          → n + (index + 1) ≡ length q'.requests
          → Balanced q'
          → ((j : ℕ) → j < index + 1 → occupied (get_elem? q'.requests j) ≡ 1)
          → Fills n (index + 1) q')
      → get_elem? q.requests index ≡ some none
      → Fills (suc n) index q
  unfolding fill_slots
  fill_free n index q e b used ih here = elim (Bool-cases (ltb 0 (length q.receiver))) [
    | inr empty ↦ (
      until_wakeup,
      q,
      rw (here, empty, fill_slots) refl,
      idle q q.receiver until_wakeup b refl (λ p. no_requests q.receiver empty),
    )
    | inl more ↦
        elim (Bool-cases
          (write_must_wait q.write_rate_limit (any_active q.requests) (clock index))) [
            | inl paced ↦ (
              one_millisecond,
              q,
              rw (here, more, paced, fill_slots) refl,
              idle q q.receiver one_millisecond b refl (λ p. absurd (ground arith)),
            )
            | inr free ↦ elim (Option-cases (next_request is_closed q.receiver)) [
              | inl none_left ↦ (
                until_wakeup,
                record q { receiver = [] },
                rw (here, more, free, none_left, fill_slots) refl,
                idle q [] until_wakeup b
                    (sym (next_request-none id is_closed q.receiver o none_left)) (λ p. refl),
              )
              | inr ((request, rest), found) ↦
                  let limit =
                    recorded spacing q.write_rate_limit (remaining request) (clock index) in
                  let (q', pushed, k, slots) =
                    admit-IsKept q index request rest limit b here found in
                  let inside = get_elem?-lt q.requests index none here in
                  let (w, q'', filled, f) =
                    ih q'
                      (omega (arith, ap length slots, length-set q.requests index (some request)))
                      k.balanced
                      (λ j h. rw slots (after_set q.requests index request inside used j h)) in
                  (
                    w,
                    q'',
                    rw (here, more, free, found, pushed, fill_slots) filled,
                    then_filled n q q' k w q'' f,
                  )
            ]
          ]
  ]

  pub fill_slots-IsFilled :
      (n index : ℕ) (q : IoQueue)
      → n + index ≡ length q.requests
      → Balanced q
      → ((j : ℕ) → j < index → occupied (get_elem? q.requests j) ≡ 1)
      → Fills n index q
  unfolding fill_slots
  fill_slots-IsFilled zero index q e b used = (
    until_wakeup,
    q,
    refl,
    record {
      accounted = record { balanced = b; accounted = refl };
      busy = λ w. inr (λ j h. used j (omega arith));
    },
  )
  fill_slots-IsFilled (suc n) index q e b used =
      let (slot, here) = get_elem?-in q.requests index (omega arith) in
      elim (Option-cases slot) [
        | inl free ↦
            fill_free n index q e b used (fill_slots-IsFilled n (index + 1)) (rw free at here)
        | inr (r, full) ↦
            let active = rw full at here in
            let (w, q', filled, f) =
              fill_slots-IsFilled n (index + 1) q (omega arith) b
                (here_used r q.requests index active used) in
            (w, q', rw (active, fill_slots) filled, f)
      ]
