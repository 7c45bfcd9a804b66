-- ===== src/Storage/Io/Serving.antt =====
-- A request of feuer-storage/src/uring.rs from its first submission to its answer, over the
-- completions of `IoQueue::handle_io_completion`, for a caller that waits.
use mathlib.Core.List.{append-nil}
use feuer.Base.{
  ℕ, suc, ◌+◌, ◌-◌, ◌*◌, ◌≤◌, ◌<◌, ◌≡◌, ◌⊎◌, inl, inr, refl, ap, sym, ◌∙◌, List, [], ◌∷◌, ◌++◌,
  Option, none, some, Bool, true, false, arith, length, length-append, length-drop, get_elem?-drop,
  dec_lt, Bool-cases, ltb, ◌&&◌, ◌||◌, not, ◌==◌, ◌%◌, if◌then◌else◌,
}
use feuer.Storage.Io.{
  eintr, ℤ, pos, negsuc, IoError, os, incomplete_io_error, IoBuffers, read, write, IoRequest,
  submission_entry, remaining, file_offset, next_of, Next, resubmit, answer,
  apply_completion_result, direct_io_alignment_bytes, iovecs, transfer_of,
}
use feuer.Storage.Io.Transfers.{
  target, size, moved_byte, Completed, place, byte, byte_at, or_zero, IsValid, IsHeld, joined,
  joined-iovecs,
}

left_of :
    (b t : List ℕ) (start : ℕ)
    → length (joined (iovecs (b ∷ t ∷ []) start)) ≡ length b + length t - start
left_of b t start =
    ap length (joined-iovecs (b ∷ t ∷ []) start)
    ∙ length-drop start (b ++ (t ++ []))
    ∙ ground (arith, length-append b (t ++ []), length-append {0} t [])

size_of :
    (buffers : IoBuffers) (offset start end k : ℕ)
    → IsHeld buffers end
    → size (record { offset = offset; transfer = transfer_of buffers start end; user_data = k })
      ≡ end - start
size_of (read len) offset start end k h = refl
size_of (write b t) offset start end k h = omega (arith, left_of b t start)

-- The kernel is given the rest of the request.
pub size-entry : (r : IoRequest) (k : ℕ) → IsValid r → size (submission_entry r k) ≡ remaining r
unfolding submission_entry
size-entry r k v = size_of r.buffers (file_offset r) r.range_start r.range_end k v.in_buffers

pub target-entry : (r : IoRequest) (k : ℕ) → target (submission_entry r k) ≡ place r
unfolding submission_entry
target-entry r k = target_of r.buffers (file_offset r) r.range_start r.range_end
  where
    target_of :
        (buffers : IoBuffers) (offset start end : ℕ)
        → target
            (record { offset = offset; transfer = transfer_of buffers start end; user_data = k })
          ≡ elim buffers [ read len ↦ start | write b t ↦ offset ]
    target_of (read len) offset start end = refl
    target_of (write b t) offset start end = refl

byte_of :
    (file : ℕ → ℕ) (buffers : IoBuffers) (offset start end k i : ℕ)
    → moved_byte file
        (record { offset = offset; transfer = transfer_of buffers start end; user_data = k })
        i
      ≡ elim buffers [ read len ↦ file (offset + i) | write b t ↦ byte_at (b ++ t) (start + i) ]
byte_of file (read len) offset start end k i = refl
byte_of file (write b t) offset start end k i =
    ap (λ (l : List ℕ). byte_at l i) (joined-iovecs (b ∷ t ∷ []) start)
    ∙ ap or_zero (get_elem?-drop (b ++ (t ++ [])) start i)
    ∙ ap (λ (l : List ℕ). byte_at (b ++ l) (start + i)) (append-nil t)

pub moved-entry :
    (file : ℕ → ℕ) (r : IoRequest) (k i : ℕ)
    → moved_byte file (submission_entry r k) i ≡ byte file r i
unfolding submission_entry
moved-entry file r k i = byte_of file r.buffers (file_offset r) r.range_start r.range_end k i

pub record Completion : Type 0 where
  pub result : ℤ
  pub after : ℕ → ℕ

pub data Served : Type 0 where
  answered : Option IoError → Served
  waiting : Served

-- The completions of one request, each after the submission of what the one before has left.
unfoldable pub serve : IoRequest → (ℕ → ℕ) → List Completion → Served × (ℕ → ℕ)
serve r memory [] = (waiting, memory)
serve r memory (c ∷ cs) = elim (next_of r c.result false) [
  | answer last e ↦ (answered e, c.after)
  | resubmit left ↦ serve left c.after cs
]

-- The kernel keeps to what its manual says, at each completion.
abbrev pub AllCompleted : (ℕ → ℕ) → IoRequest → (ℕ → ℕ) → List Completion → Type 0
AllCompleted file r memory [] = Unit
AllCompleted file r memory (c ∷ cs) =
    Completed file (submission_entry r 0) c.result memory c.after
    × (elim (next_of r c.result false) [
      | answer last e ↦ Unit
      | resubmit left ↦ AllCompleted file left c.after cs
    ])

abbrev pub advance : IoRequest → ℕ → IoRequest
advance r n = record r { range_start = r.range_start + n }

advance-IsValid : (r : IoRequest) (n : ℕ) → IsValid r → n ≤ remaining r → IsValid (advance r n)
advance-IsValid r n v h = record {
  ordered = omega (arith, v.ordered);
  in_file = omega (arith, v.in_file);
  in_buffers = v.in_buffers;
}

place-advance :
    (r : IoRequest) (n : ℕ) → IsValid r → n ≤ remaining r → place (advance r n) ≡ place r + n
place-advance r n v h = ground (arith, v.ordered, v.in_file)

byte_eq :
    (file : ℕ → ℕ) (buffers : IoBuffers) (a b c d : ℕ)
    → a ≡ b
    → c ≡ d
    → ◌≡◌ {A = ℕ}
        (elim buffers [ read len ↦ file a | write bytes tail ↦ byte_at (bytes ++ tail) c ])
        (elim buffers [ read len ↦ file b | write bytes tail ↦ byte_at (bytes ++ tail) d ])
byte_eq file (read len) a b c d e f = ap file e
byte_eq file (write bytes tail) a b c d e f = ap (byte_at (bytes ++ tail)) f

byte-advance :
    (file : ℕ → ℕ) (r : IoRequest) (n i : ℕ)
    → IsValid r
    → n ≤ remaining r
    → byte file (advance r n) i ≡ byte file r (n + i)
byte-advance file r n i v h =
    byte_eq file r.buffers _ _ _ _ (omega (arith, v.ordered, v.in_file)) (omega arith)

-- The request goes on if bytes are left.
abbrev pub proceed : IoRequest → Next
proceed r = if ltb 0 (remaining r) then resubmit r else answer r none

pub advance-zero : (r : IoRequest) → advance r 0 ≡ r
advance-zero r = ap (λ (s : ℕ). record r { range_start = s }) (omega arith)

and_true : (b : Bool) → (b && true) ≡ b
and_true true = refl
and_true false = refl

-- A completion ends the request with an error, or moves it on by the bytes of its result.
pub next_of-cases :
    (r : IoRequest) (result : ℤ)
    → ((e : IoError) × (next_of r result false ≡ answer r (some e)))
      ⊎ ((n : ℕ) × (next_of r result false ≡ proceed (advance r n)) × ((n ≡ 0) ⊎ (result ≡ pos n)))
unfolding next_of apply_completion_result
next_of-cases r (negsuc n) = elim (Bool-cases (suc n == eintr)) [
  | inl e ↦ inr (
    0,
    rw (e, next_of) (rw (and_true (ltb 0 (remaining r))) (ap proceed (sym (advance-zero r)))),
    inl refl,
  )
  | inr e ↦ inl (os (suc n), rw (e, next_of) refl)
]
next_of-cases r (pos n) = elim (Bool-cases ((n == 0) || not (n % direct_io_alignment_bytes == 0))) [
  | inl e ↦ inl (incomplete_io_error r.buffers, rw (e, next_of) refl)
  | inr e ↦ inr (n, rw (e, and_true (ltb 0 (remaining (advance r n))), next_of) refl, inr refl)
]

-- What an answered request has done to the memory `after`, from the memory `before`.
pub record Moved (file : ℕ → ℕ) (r : IoRequest) (before after : ℕ → ℕ) (outcome : Served)
    : Type 0 where
  pub outside : (x : ℕ) → (x < place r) ⊎ (place r + remaining r ≤ x) → after x ≡ before x
  pub inside :
      outcome ≡ answered none → (i : ℕ) → i < remaining r → after (place r + i) ≡ byte file r i

module _ (file : ℕ → ℕ) where
  fits_in :
      (r : IoRequest) (n : ℕ) (result : ℤ) (before mid : ℕ → ℕ)
      → IsValid r
      → Completed file (submission_entry r 0) result before mid
      → (n ≡ 0) ⊎ (result ≡ pos n)
      → n ≤ remaining r
  fits_in r n result before mid v c b = elim b [
    | inl z ↦ omega arith
    | inr q ↦ rw (size-entry r 0 v) at (c.bounded n q)
  ]

  -- One completion, and then what is left of the request.
  move_on :
      (r : IoRequest) (n : ℕ) (result : ℤ) (before mid after : ℕ → ℕ) (outcome : Served)
      → IsValid r
      → Completed file (submission_entry r 0) result before mid
      → (n ≡ 0) ⊎ (result ≡ pos n)
      → Moved file (advance r n) mid after outcome
      → Moved file r before after outcome
  move_on r n result before mid after outcome v c b m = record {
    outside = λ x h.
        m.outside x (elim h [
          | inl p ↦ inl (omega (arith, place-advance r n v fits, v.ordered, fits))
          | inr p ↦ inr (omega (arith, place-advance r n v fits, v.ordered, fits))
        ])
        ∙ c.outside x (elim h [
          | inl p ↦ inl (omega (arith, target-entry r 0, size-entry r 0 v))
          | inr p ↦ inr (omega (arith, target-entry r 0, size-entry r 0 v))
        ]);
    inside = λ e i h. elim (dec_lt i n) [
      | yes p ↦ elim b [ inl z ↦ absurd (omega arith) | inr q ↦ early i p q ]
      | no p ↦ late e i (omega arith) h
    ];
  }
    where
      fits : n ≤ remaining r
      fits = fits_in r n result before mid v c b

      early : (i : ℕ) → i < n → result ≡ pos n → after (place r + i) ≡ byte file r i
      early i p q =
          m.outside (place r + i) (inl (omega (arith, place-advance r n v fits)))
          ∙ ap (λ (t : ℕ). mid (t + i)) (sym (target-entry r 0))
          ∙ c.moved n i q p
          ∙ moved-entry file r 0 i

      late :
          outcome ≡ answered none
          → (i : ℕ) → n ≤ i
          → i < remaining r
          → after (place r + i) ≡ byte file r i
      late e i p h =
          ap after (omega (arith, place-advance r n v fits))
          ∙ m.inside e (i - n) (omega arith)
          ∙ byte-advance file r n (i - n) v fits
          ∙ ap (byte file r) (omega arith)

  ended :
      (r : IoRequest) (n : ℕ) (mid : ℕ → ℕ) (outcome : Served)
      → remaining (advance r n) ≡ 0
      → Moved file (advance r n) mid mid outcome
  ended r n mid outcome z = record { outside = λ x h. refl; inside = λ e i h. absurd (omega arith) }

  failed :
      (r : IoRequest) (memory : ℕ → ℕ) (c : Completion)
      → IsValid r
      → Completed file (submission_entry r 0) c.result memory c.after
      → (e : IoError) → Moved file r memory c.after (answered (some e))
  failed r memory c v h e = record {
    outside = λ x p. h.outside x (elim p [
      | inl q ↦ inl (omega (arith, target-entry r 0))
      | inr q ↦ inr (omega (arith, target-entry r 0, size-entry r 0 v))
    ]);
    inside = λ q. absurd (ground arith);
  }

  -- Let the kernel keep to its manual for a request whose rest is valid. Outside the range that the
  -- rest covers the memory stays, and a request that is answered without an error has moved all bytes.
  pub serve-Moved :
      (r : IoRequest) (memory : ℕ → ℕ) (cs : List Completion)
      → IsValid r
      → AllCompleted file r memory cs
      → Moved file r memory (serve r memory cs).1 (serve r memory cs).0
  unfolding serve
  serve-Moved r memory [] v h = record {
    outside = λ x p. refl;
    inside = λ e. absurd (ground arith);
  }
  serve-Moved r memory (c ∷ cs) v h = elim (next_of-cases r c.result) [
    | inl (e, q) ↦ rw (q, serve) (failed r memory c v h.0 e)
    | inr (n, q, b) ↦ elim (Bool-cases (ltb 0 (remaining (advance r n)))) [
      | inl t ↦
          rw (q, t, serve)
            (move_on r n c.result memory c.after (serve (advance r n) c.after cs).1
              (serve (advance r n) c.after cs).0 v h.0 b
              (serve-Moved (advance r n) c.after cs
                (advance-IsValid r n v (fits_in r n c.result memory c.after v h.0 b))
                (rw (q, t) at h.1)))
      | inr t ↦
          rw (q, t, serve)
            (move_on r n c.result memory c.after c.after (answered none) v h.0 b
              (ended r n c.after (answered none) (ground arith)))
    ]
  ]

abbrev pub is_interruption : ℤ → Bool
is_interruption (pos n) = false
is_interruption (negsuc n) = suc n == eintr

-- The completions that are not interruptions.
abbrev pub results : List Completion → ℕ
results [] = 0
results (c ∷ cs) = (if is_interruption c.result then 0 else 1) + results cs

step_of :
    (r : IoRequest) (result : ℤ)
    → ((last : IoRequest) × (e : Option IoError) × (next_of r result false ≡ answer last e))
      ⊎ ((left : IoRequest) × (next_of r result false ≡ resubmit left)
          × (0 < remaining left)
          × (remaining left + (if is_interruption result then 0 else 1) * direct_io_alignment_bytes
              ≤ remaining r))
unfolding next_of apply_completion_result
step_of r (negsuc n) = elim (Bool-cases (suc n == eintr)) [
  | inr e ↦ inl (r, some (os (suc n)), rw (e, next_of) refl)
  | inl e ↦ elim (Bool-cases (ltb 0 (remaining r))) [
    | inl t ↦ inr (r, rw (e, next_of) (rw t refl), ground arith, ground arith)
    | inr t ↦ inl (r, none, rw (e, next_of) (rw t refl))
  ]
]
step_of r (pos n) = elim (Bool-cases ((n == 0) || not (n % direct_io_alignment_bytes == 0))) [
  | inl e ↦ inl (r, some (incomplete_io_error r.buffers), rw (e, next_of) refl)
  | inr e ↦ elim (Bool-cases (ltb 0 (remaining (advance r n)))) [
    | inl t ↦ inr (advance r n, rw (e, t, next_of) refl, ground arith, ground arith)
    | inr t ↦ inl (advance r n, none, rw (e, t, next_of) refl)
  ]
]

-- A request that still waits has had fewer results than it has pages.
serve-waiting :
    (r : IoRequest) (memory : ℕ → ℕ) (cs : List Completion)
    → 0 < remaining r
    → (serve r memory cs).0 ≡ waiting
    → results cs * direct_io_alignment_bytes < remaining r
unfolding serve
serve-waiting r memory [] p w = omega arith
serve-waiting r memory (c ∷ cs) p w = elim (step_of r c.result) [
  | inl (last, e, q) ↦ absurd (ground arith)
  | inr (left, q, more, less) ↦
      omega (arith, less, serve-waiting left c.after cs more (rw (q, serve) at w))
]

-- A request with bytes left is answered once it has had as many results, other than interruptions,
-- as it has bytes left in units of 4096, whatever the results are.
pub serve-answers :
    (r : IoRequest) (memory : ℕ → ℕ) (cs : List Completion)
    → 0 < remaining r
    → remaining r ≤ results cs * direct_io_alignment_bytes
    → (e : Option IoError) × ((serve r memory cs).0 ≡ answered e)
serve-answers r memory cs p h = from (serve r memory cs).0 refl
  where
    from :
        (s : Served)
        → (serve r memory cs).0 ≡ s
        → (e : Option IoError) × ((serve r memory cs).0 ≡ answered e)
    from (answered e) q = (e, q)
    from waiting q = absurd (omega (arith, serve-waiting r memory cs p q))
