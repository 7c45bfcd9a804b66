-- ===== src/Storage/Io/Tests.antt =====
-- Tests of feuer-storage/src/uring.rs and feuer-storage/src/file.rs, and the properties at concrete
-- inputs.
use feuer.Base.{
  ℕ, ◌+◌, ◌-◌, ◌%◌, ◌≤◌, ◌<◌, ◌≡◌, ◌⊎◌, refl, ap, List, [], ◌∷◌, Option, none, some, Bool, true,
  false, ◌&&◌, arith, ltb, leb, if◌then◌else◌,
}
use feuer.Storage.Io.{
  ℤ, pos, negsuc, IoError, ok, Bytes, read, IoRequest, Entry, submission_entry, next_of, Next,
  resubmit, answer, new_request, from_write_bytes, iovecs, apply_completion_result,
}
use feuer.Storage.Io.Transfers.{Completed, target, size, moved_byte}
use feuer.Storage.Io.Serving.{Completion, answered, serve, AllCompleted, serve-answers}
use feuer.Storage.Io.Writing.{
  Kernel, IsHonest, IsWritten, write_padded, write_requests, write_padded-IsWritten,
}
use feuer.Storage.Io.Pieces.{bytes_from}
use feuer.Storage.Io.DataFile.{
  DataFileError, success, failure, io, read_range, read_payload, read_at, write_padded_at,
  check_range_fits_file, range_exceeds_capacity, u64_limit,
}
use feuer.Storage.Io.DataFile.Contents.{read_payload-write_padded_at, read_at-Answer}
use feuer.Storage.Io.DataFile.Opening.{System, open_file_state}
use feuer.Storage.Io.DataFile.Steps.{DoesSteps, steps, open_file_state-DoesSteps}
use feuer.Storage.Io.Queue.{new_queue, accepted}
use feuer.Storage.Io.Queue.Running.{
  Event, arrive, round, Run, run, IsSoundRun, run-new_queue-IsSoundRun,
}

-- A kernel that moves a whole entry at once.
abbrev moved_to : (ℕ → ℕ) → Entry → (ℕ → ℕ) → ℕ → ℕ
moved_to file e memory x =
    if leb (target e) x && ltb x (target e + size e)
    then moved_byte file e (x - target e)
    else memory x

abbrev whole : (ℕ → ℕ) → Kernel
whole file r memory =
    record {
      result = pos (size (submission_entry r 0));
      after = moved_to file (submission_entry r 0) memory;
    }
    ∷ []

whole-Completed :
    (file : ℕ → ℕ) (e : Entry) (memory : ℕ → ℕ)
    → Completed file e (pos (size e)) memory (moved_to file e memory)
whole-Completed file e memory = record {
  outside = λ x h. ground arith;
  bounded = λ n h. omega (arith, same n h);
  moved = λ n i h p. within i (omega (arith, same n h));
}
  where
    number : ℤ → ℕ
    number (pos n) = n
    number (negsuc n) = 0

    same : (n : ℕ) → pos (size e) ≡ pos n → size e ≡ n
    same n h = ap number h

    inside :
        (i : ℕ)
        → i < size e
        → (leb (target e) (target e + i) && ltb (target e + i) (target e + size e)) ≡ true
    inside i p = ground arith

    within : (i : ℕ) → i < size e → moved_to file e memory (target e + i) ≡ moved_byte file e i
    within i p = rw (inside i p) (ap (moved_byte file e) (omega arith))

abbrev Rest : (ℕ → ℕ) → (ℕ → ℕ) → Next → Type 0
Rest file memory (answer last e) = Unit
Rest file memory (resubmit left) = AllCompleted file left memory []

whole-IsHonest : (file : ℕ → ℕ) → IsHonest file (whole file)
whole-IsHonest file r memory = (
  whole-Completed file (submission_entry r 0) memory,
  rest (next_of r (pos (size (submission_entry r 0))) false),
)
  where
    rest : (n : Next) → Rest file (moved_to file (submission_entry r 0) memory) n
    rest (answer last e) = tt
    rest (resubmit left) = tt

abbrev blank : ℕ → ℕ
blank x = 0

abbrev three_bytes : Bytes
three_bytes = record { address = 5; content = 7 ∷ 8 ∷ 9 ∷ [] }

abbrev granted : ℕ → Bool
granted start = true

abbrev file_of : Option (Option DataFileError × (ℕ → ℕ)) → ℕ → ℕ
file_of none = blank
file_of (some (e, f)) = f

abbrev after_write : ℕ → ℕ
after_write = file_of (write_padded_at (whole blank) granted 8192 4096 4096 three_bytes blank)

write_succeeds :
    write_padded_at (whole blank) granted 8192 4096 4096 three_bytes blank
    ≡ some (none, after_write)
unfolding write_padded_at write_padded write_requests check_range_fits_file from_write_bytes
    new_request serve next_of apply_completion_result submission_entry iovecs
write_succeeds = refl

write_padded-IsWritten_example :
    IsWritten 4096 0 4096
      (7 ∷ 8 ∷ 9 ∷ [])
      blank
      (write_padded (whole blank) granted 4096 4096 three_bytes blank)
write_padded-IsWritten_example =
    write_padded-IsWritten (whole blank) blank granted 4096 4096 three_bytes blank
      (whole-IsHonest blank) refl refl

read_payload-write_padded_at_example :
    ((e : IoError) × (read_payload (whole after_write) (some 4096) 4096 3
        ≡ some (failure (io read_range e))))
    ⊎ ((buffer : ℕ) × (read_payload (whole after_write) (some 4096) 4096 3
          ≡ some (success (7 ∷ 8 ∷ 9 ∷ [], buffer))))
read_payload-write_padded_at_example =
    read_payload-write_padded_at (whole blank) (whole after_write) granted (some 4096) 8192 4096
      4096 three_bytes blank after_write (whole-IsHonest blank) (whole-IsHonest after_write) refl
      refl (omega arith) write_succeeds

abbrev pattern_file : ℕ → ℕ
pattern_file x = x % 256

read_at-Answer_example :
    ((4096 < 4090 + 4) ⊎ (u64_limit ≤ 4090 + 4))
      × (read_at (whole pattern_file) (some 4096) 4096 4090 4
          ≡ some (failure (range_exceeds_capacity read_range 4090 4 4096)))
    ⊎ ((4090 + 4 ≤ 4096)
        × (4090 + 4 < u64_limit)
        × (((e : IoError) × (read_at (whole pattern_file) (some 4096) 4096 4090 4
                ≡ some (failure (io read_range e))))
            ⊎ (read_at (whole pattern_file) (some 4096) 4096 4090 4
                ≡ some (success (bytes_from pattern_file 4090 4)))))
read_at-Answer_example =
    read_at-Answer (whole pattern_file) pattern_file (some 4096) 4096 4090 4
      (whole-IsHonest pattern_file)

abbrev two_pages : IoRequest
two_pages = record {
  file_end_offset = 8192;
  buffers = read 8192;
  range_start = 0;
  range_end = 8192;
  reply = 1;
}

abbrev interrupted_once : List Completion
interrupted_once =
    record { result = pos 4096; after = blank }
    ∷ record { result = negsuc 3; after = blank }
    ∷ record { result = pos 4096; after = blank }
    ∷ []

two_pages_served : (serve two_pages blank interrupted_once).0 ≡ answered none
unfolding serve next_of apply_completion_result
two_pages_served = refl

serve-answers_example :
    (e : Option IoError) × ((serve two_pages blank interrupted_once).0 ≡ answered e)
serve-answers_example = serve-answers two_pages blank interrupted_once (omega arith) (omega arith)

abbrev working : System
working = record {
  created_directory = none;
  opened_lock_file = none;
  locked = ok true;
  opened_data_file = none;
  is_regular = ok true;
  statx = ok (record { reports_alignment = true; memory_alignment = 512; offset_alignment = 512 });
  created_queues = none;
  resized = none;
}

open_file_state-DoesSteps_example :
    DoesSteps (steps working false 8192) (open_file_state working false 8192)
open_file_state-DoesSteps_example = open_file_state-DoesSteps working false 8192

abbrev no_caller_gone : ℕ → Bool
no_caller_gone id = false

abbrev one_read : List Event
one_read =
    arrive two_pages
    ∷ round (λ b. b) (λ i. i) no_caller_gone false [] (accepted 1)
    ∷ round (λ b. b) (λ i. i) no_caller_gone true ((0, pos 8192) ∷ []) (accepted 0)
    ∷ []

run-new_queue-IsSoundRun_example :
    (r : Run) × (run one_read (new_queue 64 none) ≡ some r) × IsSoundRun 1 1 r
run-new_queue-IsSoundRun_example = run-new_queue-IsSoundRun 1 one_read 64 none (refl, (refl, tt))
