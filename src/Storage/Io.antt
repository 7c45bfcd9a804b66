-- ===== src/Storage/Io.antt =====
-- feuer-storage/src/uring.rs: the requests of direct I/O, their completions, and the splitting of
-- reads and writes into requests. The kernel is a parameter: a file, a read's buffer and a write's
-- data are bytes by position, and a request's completions come with the memory after each of them.
pub mod Transfers
pub mod Serving
pub mod Padding
pub mod Pieces
pub mod Writing
pub mod Reading
pub mod DataFile
pub mod Queue
mod Tests
use feuer.Base.{
  ℕ, zero, suc, ◌+◌, ◌-◌, ◌*◌, ◌/◌, ◌%◌, List, [], ◌∷◌, ◌++◌, Option, none, some, Bool, true, false,
  ◌&&◌, ◌||◌, not, ltb, leb, ◌==◌, if◌then◌else◌, length, take, drop, replicate, min,
}

abbrev pub direct_io_alignment_bytes : ℕ
direct_io_alignment_bytes = 4096

abbrev pub max_io_request_bytes : ℕ
max_io_request_bytes = 1024 * 1024

abbrev pub max_in_flight_reads : ℕ
max_in_flight_reads = 64

abbrev pub max_in_flight_writes : ℕ
max_in_flight_writes = 8

-- `i32`: `negsuc n` is -(n + 1).
pub data ℤ : Type 0 where
  pos : ℕ → ℤ
  negsuc : ℕ → ℤ

-- `io::Error`, by its kind. `os n` has the error number `n`.
pub data IoError : Type 0 where
  os : ℕ → IoError
  unexpected_eof write_zero broken_pipe out_of_memory unsupported : IoError

pub data IoResult {ℓ} (A : Type ℓ) : Type ℓ where
  ok : A → IoResult A
  err : IoError → IoResult A

-- `Bytes`: the address of the first byte, and the bytes.
pub record Bytes : Type 0 where
  pub address : ℕ
  pub content : List ℕ

-- `Bytes::slice`, for bounds in the bytes.
abbrev pub slice : Bytes → ℕ → ℕ → Bytes
slice bytes start end = record {
  address = bytes.address + start;
  content = take (end - start) (drop start bytes.content);
}

-- A read's buffer is shared, so only its length stands here.
pub data IoBuffers : Type 0 where
  read : ℕ → IoBuffers
  write : List ℕ → List ℕ → IoBuffers

abbrev pub aligned_length_of : Bytes → ℕ
aligned_length_of bytes =
    if bytes.address % direct_io_alignment_bytes == 0
    then length bytes.content / direct_io_alignment_bytes * direct_io_alignment_bytes
    else 0

-- The rest of the bytes, with zeros behind them.
abbrev pub copied : ℕ → List ℕ → List ℕ
copied length_left rest = rest ++ replicate (length_left - length rest) 0

-- `from_write_bytes`. `none` is a panic. `granted` tells if the system has memory for the copy.
unfoldable pub from_write_bytes : Bool → ℕ → Bytes → Option (IoResult IoBuffers)
from_write_bytes granted len bytes =
    if leb (length bytes.content) len && (len % direct_io_alignment_bytes == 0)
    then some (
        if ltb 0 (len - aligned_length_of bytes)
        then if granted
          then ok (
              write (take (aligned_length_of bytes) bytes.content) (
                copied (len - aligned_length_of bytes)
                  (drop (aligned_length_of bytes) bytes.content)))
          else err out_of_memory
        else ok (write (take (aligned_length_of bytes) bytes.content) []))
    else none

-- The loop of `submission_entry` over a write's buffers: the bytes left of each, if there are any.
unfoldable pub iovecs : List (List ℕ) → ℕ → List (List ℕ)
iovecs [] bytes_to_skip = []
iovecs (bytes ∷ buffers) bytes_to_skip =
    let skip = min bytes_to_skip (length bytes) in
    let rest = iovecs buffers (bytes_to_skip - skip) in
    if length (drop skip bytes) == 0 then rest else drop skip bytes ∷ rest

pub record IoRequest : Type 0 where
  pub file_end_offset : ℕ
  pub buffers : IoBuffers
  pub range_start : ℕ
  pub range_end : ℕ
  pub reply : ℕ

abbrev pub remaining : IoRequest → ℕ
remaining r = r.range_end - r.range_start

abbrev pub file_offset : IoRequest → ℕ
file_offset r = r.file_end_offset - remaining r

abbrev pub range_fits : IoBuffers → ℕ → Bool
range_fits (read buffer_length) end = leb end buffer_length
range_fits (write bytes tail) end = true

-- `IoRequest::new`. `none` is a panic.
unfoldable pub new_request : ℕ → IoBuffers → ℕ → ℕ → ℕ → Option IoRequest
new_request offset buffers start end reply =
    if (offset % direct_io_alignment_bytes == 0)
      && (start % direct_io_alignment_bytes == 0)
      && ((end - start) % direct_io_alignment_bytes == 0)
      && range_fits buffers end
      && ltb 0 (end - start)
      && leb (end - start) max_io_request_bytes
    then some (record {
      file_end_offset = offset + (end - start);
      buffers = buffers;
      range_start = start;
      range_end = end;
      reply = reply;
    })
    else none

-- What the kernel is given: a place in the buffer and its length, or a list of byte strings.
pub data Transfer : Type 0 where
  into_buffer : ℕ → ℕ → Transfer
  from_lists : List (List ℕ) → Transfer

pub record Entry : Type 0 where
  pub offset : ℕ
  pub transfer : Transfer
  pub user_data : ℕ

abbrev pub transfer_of : IoBuffers → ℕ → ℕ → Transfer
transfer_of (read buffer_length) start end = into_buffer start (end - start)
transfer_of (write bytes tail) start end = from_lists (iovecs (bytes ∷ tail ∷ []) start)

unfoldable pub submission_entry : IoRequest → ℕ → Entry
submission_entry r request_index = record {
  offset = file_offset r;
  transfer = transfer_of r.buffers r.range_start r.range_end;
  user_data = request_index;
}

abbrev pub incomplete_io_error : IoBuffers → IoError
incomplete_io_error (read buffer_length) = unexpected_eof
incomplete_io_error (write bytes tail) = write_zero

abbrev pub eintr : ℕ
eintr = 4

-- The error of a write carries more than its kind, for its message.
unfoldable pub apply_completion_result : IoRequest → ℤ → IoResult IoRequest
apply_completion_result r (negsuc n) = if suc n == eintr then ok r else err (os (suc n))
apply_completion_result r (pos n) =
    if (n == 0) || not (n % direct_io_alignment_bytes == 0)
    then err (incomplete_io_error r.buffers)
    else ok (record r { range_start = r.range_start + n })

-- What `handle_io_completion` does with the request.
pub data Next : Type 0 where
  resubmit : IoRequest → Next
  answer : IoRequest → Option IoError → Next

unfoldable pub next_of : IoRequest → ℤ → Bool → Next
next_of r result is_closed = elim (apply_completion_result r result) [
  | err e ↦ answer r (some e)
  | ok advanced ↦
      if ltb 0 (remaining advanced) && not is_closed
      then resubmit advanced
      else answer advanced none
]
