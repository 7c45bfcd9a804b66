-- ===== src/Storage/Io/Writing.antt =====
-- `WriteQueue::write_padded` of feuer-storage/src/uring.rs, over the completions that `kernel` makes
-- for each request. `granted` tells if the system has memory for a copy.
use feuer.Base.{
  ℕ, zero, suc, ◌+◌, ◌-◌, ◌*◌, ◌/◌, ◌%◌, ◌≤◌, ◌<◌, ◌≡◌, ◌⊎◌, inl, inr, refl, ap, sym, ◌∙◌, List,
  ◌++◌, Option, none, some, Bool, arith, length, take, drop, dec_lt, Option-cases, min, length-take,
  replicate,
}
use feuer.Storage.Io.{
  IoError, ok, err, broken_pipe, Bytes, slice, IoBuffers, write, IoRequest, from_write_bytes,
  new_request, direct_io_alignment_bytes, max_io_request_bytes,
}
use feuer.Storage.Io.Transfers.{byte_at, IsValid, place}
use feuer.Storage.Io.Serving.{
  Completion, Served, answered, waiting, serve, AllCompleted, serve-Moved,
}
use feuer.Storage.Io.Padding.{from_write_bytes-IsPadded, byte_at-padded, byte_at-slice}

abbrev pub Kernel : Type 0
Kernel = IoRequest → (ℕ → ℕ) → List Completion

-- A kernel that keeps to its manual. For reads `file` is the file that it reads from.
abbrev pub IsHonest : (ℕ → ℕ) → Kernel → Type 0
IsHonest file kernel =
    (r : IoRequest) (memory : ℕ → ℕ) → AllCompleted file r memory (kernel r memory)

abbrev pub request_count : ℕ → ℕ
request_count len = (len + (max_io_request_bytes - 1)) / max_io_request_bytes

-- The file afterwards, and the error if there is one.
pub data Write : Type 0 where
  written : (ℕ → ℕ) → Write
  failed : IoError → (ℕ → ℕ) → Write
  panic : Write

-- The reply of the queue: a request without an answer is one that the stopped queue drops.
abbrev pub error_of : Served → Option IoError
error_of (answered e) = e
error_of waiting = some broken_pipe

unfoldable pub write_requests : Kernel → (ℕ → Bool) → ℕ → ℕ → ℕ → ℕ → Bytes → (ℕ → ℕ) → Write
write_requests kernel granted zero start offset len bytes file = written file
write_requests kernel granted (suc n) start offset len bytes file =
    let request_length = min (len - start) max_io_request_bytes in
    let end = min (start + request_length) (length bytes.content) in
    elim (from_write_bytes (granted start) request_length (slice bytes (min start end) end)) [
      | none ↦ panic
      | some (err e) ↦ failed e file
      | some (ok buffers) ↦ elim (new_request (offset + start) buffers 0 request_length start) [
        | none ↦ panic
        | some r ↦ elim (error_of (serve r file (kernel r file)).0) [
          | some e ↦ failed e (serve r file (kernel r file)).1
          | none ↦
              write_requests kernel granted n (start + max_io_request_bytes) offset len bytes
                (serve r file (kernel r file)).1
        ]
      ]
    ]

unfoldable pub write_padded : Kernel → (ℕ → Bool) → ℕ → ℕ → Bytes → (ℕ → ℕ) → Write
write_padded kernel granted offset len bytes file =
    write_requests kernel granted (request_count len) 0 offset len bytes file

-- What a write does to the file: from `start` on it holds the bytes and zeros behind them, and
-- nothing outside the range changes.
abbrev pub IsWritten : ℕ → ℕ → ℕ → List ℕ → (ℕ → ℕ) → Write → Type 0
IsWritten offset start len content file (written after) =
    ((x : ℕ) → (x < offset + start) ⊎ (offset + len ≤ x) → after x ≡ file x)
    × ((i : ℕ) → start ≤ i → i < len → after (offset + i) ≡ byte_at content i)
IsWritten offset start len content file (failed e after) =
    (x : ℕ) → (x < offset + start) ⊎ (offset + len ≤ x) → after x ≡ file x
IsWritten offset start len content file panic = ⊥

abbrev request_of : ℕ → IoBuffers → ℕ → ℕ → IoRequest
request_of offset buffers len reply = record {
  file_end_offset = offset + len;
  buffers = buffers;
  range_start = 0;
  range_end = len;
  reply = reply;
}

new_request-eq :
    (offset : ℕ) (bytes tail : List ℕ) (len reply : ℕ)
    → offset % direct_io_alignment_bytes ≡ 0
    → len % direct_io_alignment_bytes ≡ 0
    → 0 < len
    → len ≤ max_io_request_bytes
    → new_request offset (write bytes tail) 0 len reply
      ≡ some (request_of offset (write bytes tail) len reply)
unfolding new_request
new_request-eq offset bytes tail len reply a b c d = ground arith

-- One request of the loop: the bytes from `start` on, and zeros behind their end.
record Part (at start len : ℕ) (content : List ℕ) (before after : ℕ → ℕ) (outcome : Served)
    : Type 0 where
  outside : (x : ℕ) → (x < at) ⊎ (at + len ≤ x) → after x ≡ before x
  inside :
      outcome ≡ answered none → (i : ℕ) → i < len → after (at + i) ≡ byte_at content (start + i)

abbrev part_of : ℕ → ℕ → List ℕ → List ℕ
part_of start len content =
    let end = min (start + len) (length content) in
    take (end - min start end) (drop (min start end) content)

zero_more : (i : ℕ) → 0 + i ≡ i
zero_more i = omega arith

request-IsValid :
    (at len reply : ℕ) (prefix tail : List ℕ)
    → length prefix + length tail ≡ len
    → IsValid (request_of at (write prefix tail) len reply)
request-IsValid at len reply prefix tail h = record {
  ordered = omega arith;
  in_file = omega arith;
  in_buffers = h;
}

module _ (kernel : Kernel) (read_file : ℕ → ℕ) (honest : IsHonest read_file kernel) where
  one_request :
      (at start len : ℕ) (content prefix tail : List ℕ)
      → length prefix + length tail ≡ len
      → prefix ++ tail
        ≡ part_of start len content ++ replicate (len - length (part_of start len content)) 0
      → (memory : ℕ → ℕ)
      → (let r = request_of at (write prefix tail) len start in
          let done = serve r memory (kernel r memory) in
          Part at start len content memory done.1 done.0)
  one_request at start len content prefix tail fill same memory =
      let r = request_of at (write prefix tail) len start in
      let m =
        serve-Moved read_file r memory (kernel r memory)
          (request-IsValid at len start prefix tail fill) (honest r memory) in
      let here : place r ≡ at = omega arith in
      record {
        outside =
            λ x h. m.outside x (elim h [ inl p ↦ inl (omega arith) | inr p ↦ inr (omega arith) ]);
        inside = λ e i h.
            ap (λ (t : ℕ). (serve r memory (kernel r memory)).1 (t + i)) (sym here)
            ∙ m.inside e i (omega arith)
            ∙ ap (λ (l : List ℕ). byte_at l (0 + i)) same
            ∙ ap
                (byte_at (
                  part_of start len content
                  ++ replicate (len - length (part_of start len content)) 0))
                (zero_more i)
            ∙ byte_at-padded (part_of start len content) (len - length (part_of start len content))
                i
            ∙ byte_at-slice content start len i h;
      }

extend :
    (offset start next len : ℕ) (content : List ℕ) (file mid : ℕ → ℕ) (w : Write)
    → start ≤ next
    → ((x : ℕ) → (x < offset + start) ⊎ (offset + len ≤ x) → mid x ≡ file x)
    → ((i : ℕ) → start ≤ i → i < next → i < len → mid (offset + i) ≡ byte_at content i)
    → IsWritten offset next len content mid w
    → IsWritten offset start len content file w
extend offset start next len content file mid (written after) le o i (o', i') = (
  λ x h. o' x (elim h [ inl p ↦ inl (omega arith) | inr p ↦ inr p ]) ∙ o x h,
  λ k a b. elim (dec_lt k next) [
    | yes p ↦ o' (offset + k) (inl (omega arith)) ∙ i k a p b
    | no p ↦ i' k (omega arith) b
  ],
)
extend offset start next len content file mid (failed e after) le o i w =
    λ x h. w x (elim h [ inl p ↦ inl (omega arith) | inr p ↦ inr p ]) ∙ o x h
extend offset start next len content file mid panic le o i w = w

module _ (kernel : Kernel) (read_file : ℕ → ℕ) (honest : IsHonest read_file kernel)
    (granted : ℕ → Bool) (offset len : ℕ) (bytes : Bytes)
    (aligned : offset % direct_io_alignment_bytes ≡ 0)
    (whole : len % direct_io_alignment_bytes ≡ 0) where
  success : (o : Served) → error_of o ≡ none → o ≡ answered none
  success (answered none) e = refl
  success (answered (some x)) e = absurd (ground arith)
  success waiting e = absurd (ground arith)

  write_requests-IsWritten :
      (n start : ℕ) (file : ℕ → ℕ)
      → start % direct_io_alignment_bytes ≡ 0
      → len ≤ start + n * max_io_request_bytes
      → n * max_io_request_bytes + start < len + max_io_request_bytes
      → IsWritten offset start len bytes.content file
          (write_requests kernel granted n start offset len bytes file)
  unfolding write_requests
  write_requests-IsWritten zero start file a b c = (λ x h. refl, λ i p q. absurd (omega arith))
  write_requests-IsWritten (suc n) start file a b c =
      let rl = min (len - start) max_io_request_bytes in
      let end = min (start + rl) (length bytes.content) in
      let part : Bytes = slice bytes (min start end) end in
      let more : start < len = omega arith in
      let full : rl % direct_io_alignment_bytes ≡ 0 = omega arith in
      elim (from_write_bytes-IsPadded (granted start) rl part
        (omega (arith, length-take (end - min start end) (drop (min start end) bytes.content)))
        full) [
          | inr e ↦ rw (e, write_requests) (λ x h. refl)
          | inl (buffers, e, p) ↦
              let e' : from_write_bytes (granted start) rl part
                  ≡ some (ok (write p.prefix p.tail)) =
                rw p.are_write at e in
              let r = request_of (offset + start) (write p.prefix p.tail) rl start in
              let sent =
                new_request-eq (offset + start) p.prefix p.tail rl start (omega arith) full
                  (omega arith) (omega arith) in
              let done = serve r file (kernel r file) in
              let o =
                one_request kernel read_file honest (offset + start) start rl bytes.content p.prefix
                  p.tail p.fill p.same file in
              elim (Option-cases (error_of done.0)) [
                | inr (failure, q) ↦
                    rw (e', sent, q, write_requests)
                      (λ x h. o.outside x (elim h [ inl z ↦ inl z | inr z ↦ inr (omega arith) ]))
                | inl q ↦
                    rw (e', sent, q, write_requests)
                      (extend offset start (start + max_io_request_bytes) len bytes.content file
                        done.1 _ (omega arith)
                        (λ x h. o.outside x (elim h [ inl z ↦ inl z | inr z ↦ inr (omega arith) ]))
                        (λ i z y w.
                          ap done.1 (omega arith)
                          ∙ o.inside (success done.0 q) (i - start) (omega arith)
                          ∙ ap (byte_at bytes.content) (omega arith))
                        (write_requests-IsWritten n (start + max_io_request_bytes) done.1
                          (omega arith) (omega arith) (omega arith)))
              ]
        ]

-- Let the kernel keep to its manual, and let the offset and the length be multiples of 4096. A
-- padded write does not panic. If it succeeds the range holds the bytes, cut at its length, and
-- zeros behind them. Whatever comes of it, nothing outside the range changes.
pub write_padded-IsWritten :
    (kernel : Kernel) (read_file : ℕ → ℕ) (granted : ℕ → Bool) (offset len : ℕ) (bytes : Bytes)
    (file : ℕ → ℕ)
    → IsHonest read_file kernel
    → offset % direct_io_alignment_bytes ≡ 0
    → len % direct_io_alignment_bytes ≡ 0
    → IsWritten offset 0 len bytes.content file (write_padded kernel granted offset len bytes file)
unfolding write_padded
write_padded-IsWritten kernel read_file granted offset len bytes file honest a w =
    write_requests-IsWritten kernel read_file honest granted offset len bytes a w
      (request_count len) 0 file (omega arith) (omega arith) (omega arith)
