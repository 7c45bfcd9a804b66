-- ===== src/Storage/Io/Queue.antt =====
-- `IoQueue` of feuer-storage/src/uring.rs: the thread that moves requests from the channel into the
-- ring and answers them. `submission` holds the entries that the kernel has not taken, and
-- `in_kernel` the `user_data` of those that it has taken and not completed. The kernel chooses what it
-- takes and completes. `none` is a panic.
pub mod Slots
pub mod Rounds
pub mod Filling
pub mod Running
use feuer.Base.{
  ℕ, zero, suc, ◌+◌, ◌-◌, List, [], ◌∷◌, ◌++◌, Option, none, some, Bool, true, false, ◌&&◌, not,
  ltb, leb, ◌==◌, if◌then◌else◌, length, get_elem?, set, take, drop, replicate, map, remove_at,
}
use feuer.Storage.Io.{
  ℤ, pos, negsuc, IoError, broken_pipe, IoRequest, remaining, Entry, submission_entry, next_of,
  resubmit, answer,
}
use feuer.Storage.WriteAdmission.{ReadQueueWaiters, must_wait, record_write}

-- `WriteRateLimit`, with what `spacing` the rate asks for between writes.
pub record WriteRateLimit : Type 0 where
  pub waiters : ReadQueueWaiters
  pub next_write_at : ℕ

pub record IoQueue : Type 0 where
  pub ring_size : ℕ
  pub submission : List Entry
  pub in_kernel : List ℕ
  pub receiver : List IoRequest
  pub requests : List (Option IoRequest)
  pub write_rate_limit : Option WriteRateLimit
  pub replies : List (ℕ × Option IoError)

-- The queue of `IoQueueHandle::new`.
unfoldable pub new_queue : ℕ → Option WriteRateLimit → IoQueue
new_queue max_in_flight limit = record {
  ring_size = max_in_flight;
  submission = [];
  in_kernel = [];
  receiver = [];
  requests = replicate max_in_flight none;
  write_rate_limit = limit;
  replies = [];
}

unfoldable pub queue_request_for_submission : IoQueue → IoRequest → ℕ → Option IoQueue
queue_request_for_submission q request index =
    if ltb (length q.submission) q.ring_size
    then some (record q {
      requests = set q.requests index (some request);
      submission = q.submission ++ submission_entry request index ∷ [];
    })
    else none

-- A completion of the entry of slot `index`, for a caller that may have gone.
unfoldable pub handle_io_completion : IoQueue → ℕ → ℤ → (ℕ → Bool) → Option IoQueue
handle_io_completion q index result is_closed = elim (get_elem? q.requests index) [
  | none ↦ none
  | some none ↦ none
  | some (some request) ↦ elim (next_of request result (is_closed request.reply)) [
    | resubmit left ↦ queue_request_for_submission q left index
    | answer last e ↦ some (record q {
      requests = set q.requests index none;
      replies = (request.reply, e) ∷ q.replies;
    })
  ]
]

-- The first request whose caller waits, and the requests behind it.
unfoldable pub next_request : (ℕ → Bool) → List IoRequest → Option (IoRequest × List IoRequest)
next_request is_closed [] = none
next_request is_closed (r ∷ rs) =
    let rest = next_request is_closed rs in if is_closed r.reply then rest else some (r, rs)

abbrev pub is_some {ℓ} : {A : Type ℓ} → Option A → Bool
is_some none = false
is_some (some x) = true

abbrev pub any_active : List (Option IoRequest) → Bool
any_active [] = false
any_active (none ∷ slots) = any_active slots
any_active (some r ∷ slots) = true

abbrev pub write_must_wait : Option WriteRateLimit → Bool → ℕ → Bool
write_must_wait none active now = false
write_must_wait (some limit) active now = must_wait limit.waiters limit.next_write_at active now

abbrev pub recorded : (ℕ → ℕ) → Option WriteRateLimit → ℕ → ℕ → Option WriteRateLimit
recorded spacing none bytes now = none
recorded spacing (some limit) bytes now =
    some (record limit { next_write_at = record_write spacing bytes now })

-- A wait of -1 is for a completion or a wakeup, and one of 1 is for a millisecond at most.
abbrev pub until_wakeup : ℤ
until_wakeup = negsuc 0

abbrev pub one_millisecond : ℤ
one_millisecond = pos 1

-- The loop of `queue_requests_for_submission` over the last `n` slots. `clock` gives the instant at
-- which the loop is at a slot.
unfoldable pub fill_slots : (ℕ → ℕ) → (ℕ → ℕ) → (ℕ → Bool) → ℕ → ℕ → IoQueue → Option (ℤ × IoQueue)
fill_slots spacing clock is_closed zero index q = some (until_wakeup, q)
fill_slots spacing clock is_closed (suc n) index q = elim (get_elem? q.requests index) [
  | none ↦ none
  | some (some active) ↦ fill_slots spacing clock is_closed n (index + 1) q
  | some none ↦ elim (ltb 0 (length q.receiver)) [
    | false ↦ some (until_wakeup, q)
    | true ↦ elim (write_must_wait q.write_rate_limit (any_active q.requests) (clock index)) [
      | true ↦ some (one_millisecond, q)
      | false ↦ elim (next_request is_closed q.receiver) [
        | none ↦ some (until_wakeup, record q { receiver = [] })
        | some (request, rest) ↦
            elim (queue_request_for_submission
              (record q {
                receiver = rest;
                write_rate_limit =
                    recorded spacing q.write_rate_limit (remaining request) (clock index);
              })
              request index) [
                | none ↦ none
                | some queued ↦ fill_slots spacing clock is_closed n (index + 1) queued
              ]
      ]
    ]
  ]
]

unfoldable pub queue_requests_for_submission :
    (ℕ → ℕ) → (ℕ → ℕ) → (ℕ → Bool) → IoQueue → Option (ℤ × IoQueue)
queue_requests_for_submission spacing clock is_closed q =
    fill_slots spacing clock is_closed (length q.requests) 0 q

-- The replies of `leak_requests`: each request in a slot gets the error.
unfoldable pub leaked_replies : List (Option IoRequest) → List (ℕ × Option IoError)
leaked_replies [] = []
leaked_replies (none ∷ slots) = leaked_replies slots
leaked_replies (some r ∷ slots) = (r.reply, some broken_pipe) ∷ leaked_replies slots

-- The slots stay in memory for good; the queue has none.
unfoldable pub leak_requests : IoQueue → IoQueue
leak_requests q = record q { requests = []; replies = leaked_replies q.requests ++ q.replies }

unfoldable pub drop_queue : IoQueue → IoQueue
unfolding leak_requests
drop_queue q = if any_active q.requests then leak_requests q else q

-- What `submit` answers: the kernel has taken some entries, in order, or the call failed.
pub data Submit : Type 0 where
  accepted : ℕ → Submit
  interrupted would_block : Submit
  submit_failed : IoError → Submit

abbrev pub user_datas : List Entry → List ℕ
user_datas [] = []
user_datas (e ∷ es) = e.user_data ∷ user_datas es

abbrev pub accept : ℕ → IoQueue → IoQueue
accept count q = record q {
  submission = drop count q.submission;
  in_kernel = user_datas (take count q.submission) ++ q.in_kernel;
}

-- How a round of the loop ends: in a return, in the next round, after a wait or not.
pub data Round : Type 0 where
  finished : IoQueue → Round
  again : Option ℤ → IoQueue → Round
  stopped : IoError → IoQueue → Round

abbrev pub submitted : Submit → ℤ → IoQueue → Round
submitted (accepted count) wait q =
    if ltb 0 (length (accept count q).submission)
    then again none (accept count q)
    else again (some wait) (accept count q)
submitted interrupted wait q = again none q
submitted would_block wait q = again (some one_millisecond) q
submitted (submit_failed e) wait q = stopped e q

-- The completions that the ring has, each by its place among the entries in the kernel.
unfoldable pub handle_completions : List (ℕ × ℤ) → (ℕ → Bool) → IoQueue → Option IoQueue
handle_completions [] is_closed q = some q
handle_completions ((place, result) ∷ cs) is_closed q = elim (get_elem? q.in_kernel place) [
  | none ↦ handle_completions cs is_closed q
  | some index ↦
      elim (handle_io_completion (record q { in_kernel = remove_at place q.in_kernel }) index result
        is_closed) [ none ↦ none | some handled ↦ handle_completions cs is_closed handled ]
]

-- One round of `process_requests_with_submit`. `disconnected` tells if the sender is gone.
unfoldable pub process_round :
    (ℕ → ℕ) → (ℕ → ℕ) → (ℕ → Bool) → Bool → List (ℕ × ℤ) → Submit → IoQueue → Option Round
process_round spacing clock is_closed disconnected completions submit q =
    elim (handle_completions completions is_closed q) [
      | none ↦ none
      | some handled ↦ elim (queue_requests_for_submission spacing clock is_closed handled) [
        | none ↦ none
        | some (wait, filled) ↦ some (
            if disconnected
              && not (ltb 0 (length filled.receiver))
              && not (any_active filled.requests)
            then finished filled
            else submitted submit wait filled)
      ]
    ]
