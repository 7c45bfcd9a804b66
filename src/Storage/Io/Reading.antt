-- ===== src/Storage/Io/Reading.antt =====
-- `ReadQueue::read` of feuer-storage/src/uring.rs. Its requests fill disjoint ranges of one buffer;
-- here they are served one after the other. `allocated` is the answer of the buffer pool.
use feuer.Base.{
  ℕ, zero, suc, ◌+◌, ◌-◌, ◌*◌, ◌%◌, ◌≤◌, ◌<◌, ◌≡◌, ◌⊎◌, inl, inr, refl, ap, ◌∙◌, List, Option, none,
  some, arith, dec_lt, min, ◌%◌,
}
use feuer.Storage.Io.{
  IoError, IoResult, ok, err, out_of_memory, read, IoRequest, new_request,
  direct_io_alignment_bytes, max_io_request_bytes,
}
use feuer.Storage.Io.Transfers.{IsValid}
use feuer.Storage.Io.Serving.{Served, answered, waiting, serve, serve-Moved}
use feuer.Storage.Io.Writing.{Kernel, IsHonest, request_count, error_of}
use feuer.Storage.Io.Pieces.{bytes_from, bytes_from-cong}

-- The first error of the replies, and the buffer. `panicked` is a failed assertion.
pub data Replies : Type 0 where
  replies : Option IoError → (ℕ → ℕ) → Replies
  panicked : Replies

abbrev pub first_error : Option IoError → Replies → Replies
first_error none rest = rest
first_error (some e) (replies e' buffer) = replies (some e) buffer
first_error (some e) panicked = panicked

unfoldable pub read_requests : Kernel → ℕ → ℕ → ℕ → ℕ → (ℕ → ℕ) → Replies
read_requests kernel zero start offset len buffer = replies none buffer
read_requests kernel (suc n) start offset len buffer =
    let end = min (start + max_io_request_bytes) len in
    elim (new_request (offset + start) (read len) start end start) [
      | none ↦ panicked
      | some r ↦ first_error (error_of (serve r buffer (kernel r buffer)).0) (
          read_requests kernel n (start + max_io_request_bytes) offset len
            (serve r buffer (kernel r buffer)).1)
    ]

-- `none` is a panic. The result is the bytes and the capacity of their buffer, which is new.
unfoldable pub read_bytes : Kernel → Option ℕ → ℕ → ℕ → Option (IoResult (List ℕ × ℕ))
read_bytes kernel none offset len = some (err out_of_memory)
read_bytes kernel (some capacity) offset len =
    elim (read_requests kernel (request_count len) 0 offset len (λ i. 0)) [
      | panicked ↦ none
      | replies (some e) buffer ↦ some (err e)
      | replies none buffer ↦ some (ok (bytes_from buffer 0 len, capacity))
    ]

abbrev HasRead : (ℕ → ℕ) → ℕ → ℕ → ℕ → (ℕ → ℕ) → Replies → Type 0
HasRead file offset start len buffer (replies e after) =
    ((i : ℕ) → i < start → after i ≡ buffer i)
    × (e ≡ none → (i : ℕ) → start ≤ i → i < len → after i ≡ file (offset + i))
HasRead file offset start len buffer panicked = ⊥

abbrev request_of : ℕ → ℕ → ℕ → ℕ → IoRequest
request_of offset len start end = record {
  file_end_offset = offset + start + (end - start);
  buffers = read len;
  range_start = start;
  range_end = end;
  reply = start;
}

module _ (kernel : Kernel) (file : ℕ → ℕ) (honest : IsHonest file kernel) (offset len : ℕ)
    (aligned : offset % direct_io_alignment_bytes ≡ 0)
    (whole : len % direct_io_alignment_bytes ≡ 0) where
  sent :
      (start : ℕ)
      → start % direct_io_alignment_bytes ≡ 0
      → start < len
      → (let end = min (start + max_io_request_bytes) len in
          new_request (offset + start) (read len) start end start
          ≡ some (request_of offset len start end))
  unfolding new_request
  sent start a h = ground arith

  step :
      (start : ℕ) (buffer : ℕ → ℕ) (rest : Replies) (o : Served) (mid : ℕ → ℕ)
      → ((i : ℕ) → i < start → mid i ≡ buffer i)
      → (o ≡ answered none
          → (i : ℕ) → start ≤ i
          → i < start + max_io_request_bytes
          → i < len
          → mid i ≡ file (offset + i))
      → HasRead file offset (start + max_io_request_bytes) len mid rest
      → HasRead file offset start len buffer (first_error (error_of o) rest)
  step start buffer (replies e after) (answered none) mid before inside (below, above) = (
    λ i p. below i (omega arith) ∙ before i p,
    λ q i p w. elim (dec_lt i (start + max_io_request_bytes)) [
      | yes t ↦ below i t ∙ inside refl i p t w
      | no t ↦ above q i (omega arith) w
    ],
  )
  step start buffer (replies e after) (answered (some x)) mid before inside (below, above) =
      (λ i p. below i (omega arith) ∙ before i p, λ q. absurd (ground arith))
  step start buffer (replies e after) waiting mid before inside (below, above) =
      (λ i p. below i (omega arith) ∙ before i p, λ q. absurd (ground arith))
  step start buffer panicked (answered none) mid before inside h = h
  step start buffer panicked (answered (some x)) mid before inside h = h
  step start buffer panicked waiting mid before inside h = h

  read_requests-HasRead :
      (n start : ℕ) (buffer : ℕ → ℕ)
      → start % direct_io_alignment_bytes ≡ 0
      → len ≤ start + n * max_io_request_bytes
      → n * max_io_request_bytes + start < len + max_io_request_bytes
      → HasRead file offset start len buffer (read_requests kernel n start offset len buffer)
  unfolding read_requests
  read_requests-HasRead zero start buffer a b c = (λ i h. refl, λ e i p q. absurd (omega arith))
  read_requests-HasRead (suc n) start buffer a b c =
      let end = min (start + max_io_request_bytes) len in
      let r = request_of offset len start end in
      let more : start < len = omega arith in
      let done = serve r buffer (kernel r buffer) in
      let valid : IsValid r = record {
        ordered = omega arith;
        in_file = omega arith;
        in_buffers = omega arith;
      } in
      let m = serve-Moved file r buffer (kernel r buffer) valid (honest r buffer) in
      rw (sent start a more, read_requests)
        (step start buffer (read_requests kernel n (start + max_io_request_bytes) offset len done.1)
          done.0 done.1 (λ i h. m.outside i (inl (omega arith)))
          (λ e i p q w.
            ap done.1 (omega arith) ∙ m.inside e (i - start) (omega arith) ∙ ap file (omega arith))
          (read_requests-HasRead n (start + max_io_request_bytes) done.1 (omega arith) (omega arith)
            (omega arith)))

-- Let the kernel keep to its manual over the file, and let the offset and the length be multiples of
-- 4096. A read does not panic, and if it succeeds it gives the file's bytes.
pub read_bytes-exact :
    (kernel : Kernel) (file : ℕ → ℕ) (allocated : Option ℕ) (offset len : ℕ)
    → IsHonest file kernel
    → offset % direct_io_alignment_bytes ≡ 0
    → len % direct_io_alignment_bytes ≡ 0
    → ((e : IoError) × (read_bytes kernel allocated offset len ≡ some (err e)))
      ⊎ ((capacity : ℕ) × (allocated ≡ some capacity)
          × (read_bytes kernel allocated offset len
              ≡ some (ok (bytes_from file offset len, capacity))))
unfolding read_bytes
read_bytes-exact kernel file none offset len honest a w = inl (out_of_memory, refl)
read_bytes-exact kernel file (some capacity) offset len honest a w =
    from (read_requests kernel (request_count len) 0 offset len (λ i. 0)) refl (
      read_requests-HasRead kernel file honest offset len a w (request_count len) 0 (λ i. 0)
        (omega arith) (omega arith) (omega arith))
  where
    from :
        (r : Replies)
        → read_requests kernel (request_count len) 0 offset len (λ i. 0) ≡ r
        → HasRead file offset 0 len (λ i. 0) r
        → ((e : IoError) × (read_bytes kernel (some capacity) offset len ≡ some (err e)))
          ⊎ ((c : ℕ) × (some capacity ≡ some c)
              × (read_bytes kernel (some capacity) offset len
                  ≡ some (ok (bytes_from file offset len, c))))
    from (replies none after) e (below, above) = inr (
      capacity,
      refl,
      rw (e, read_bytes)
          (ap (λ (l : List ℕ). some (ok (l, capacity)))
            (bytes_from-cong after file 0 offset len
              (λ i p. ap after (omega arith) ∙ above refl i (omega arith) p))),
    )
    from (replies (some x) after) e h = inl (x, rw (e, read_bytes) refl)
    from panicked e h = absurd h
