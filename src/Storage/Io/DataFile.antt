-- ===== src/Storage/Io/DataFile.antt =====
-- feuer-storage/src/file.rs, with the errors of feuer-storage/src/error.rs, less their paths. What
-- the system answers when a file is opened is a parameter.
pub mod Contents
pub mod Opening
pub mod Steps
use feuer.Base.{
  ℕ, zero, suc, ◌+◌, ◌-◌, ◌*◌, ◌/◌, ◌%◌, List, [], ◌∷◌, ◌++◌, Option, none, some, Bool, true, false,
  not, ◌&&◌, ◌||◌, ltb, leb, ◌==◌, if◌then◌else◌, length, take, drop, max,
}
use feuer.Storage.Io.{IoError, IoResult, ok, err, unsupported, Bytes, direct_io_alignment_bytes}
use feuer.Storage.Io.Writing.{Kernel, Write, written, failed, panic, write_padded}
use feuer.Storage.Io.Reading.{read_bytes}

pub data IoOperation : Type 0 where
  create_directory open_lock_file lock_file open_data_file inspect_data_file resize_data_file
        sync_data_file read_range write_range :
      IoOperation

pub data DataFileErrorKind : Type 0 where
  invalid_configuration is_already_open exceeds_capacity is_io is_task : DataFileErrorKind

pub data DataFileError : Type 0 where
  invalid_capacity already_open invalid_data_file : DataFileError
  range_exceeds_capacity : IoOperation → (offset length capacity : ℕ) → DataFileError
  length_overflow : IoOperation → ℕ → DataFileError
  io : IoOperation → IoError → DataFileError
  runtime_unavailable : DataFileError
  task : IoOperation → DataFileError

unfoldable pub kind : DataFileError → DataFileErrorKind
kind invalid_capacity = invalid_configuration
kind invalid_data_file = invalid_configuration
kind already_open = is_already_open
kind (range_exceeds_capacity operation offset len capacity) = exceeds_capacity
kind (length_overflow operation len) = exceeds_capacity
kind (io operation e) = is_io
kind runtime_unavailable = is_task
kind (task operation) = is_task

abbrev pub u64_limit : ℕ
u64_limit = 18446744073709551616

abbrev pub i64_max : ℕ
i64_max = 9223372036854775807

abbrev pub payload_disk_bytes : ℕ → ℕ
payload_disk_bytes len =
    (max len 1 + (direct_io_alignment_bytes - 1))
    / direct_io_alignment_bytes
    * direct_io_alignment_bytes

-- The error, if there is one.
unfoldable pub check_range_fits_file : IoOperation → ℕ → ℕ → ℕ → Option DataFileError
check_range_fits_file operation offset len capacity =
    if leb u64_limit (offset + len) || ltb capacity (offset + len)
    then some (range_exceeds_capacity operation offset len capacity)
    else none

pub data DataFileResult {ℓ} (A : Type ℓ) : Type ℓ where
  success : A → DataFileResult A
  failure : DataFileError → DataFileResult A

-- The result's bytes and the capacity of their buffer. `none` is a panic.
abbrev pub with_io_error :
    ℕ → ℕ → Option (IoResult (List ℕ × ℕ)) → Option (DataFileResult (List ℕ × ℕ))
with_io_error padding len none = none
with_io_error padding len (some (err e)) = some (failure (io read_range e))
with_io_error padding len (some (ok (bytes, capacity))) =
    some (success (take len (drop padding bytes), capacity))

unfoldable pub read_slice : Kernel → Option ℕ → ℕ → ℕ → Option (DataFileResult (List ℕ × ℕ))
read_slice kernel allocated offset len =
    let padding = offset % direct_io_alignment_bytes in
    with_io_error padding len
      (read_bytes kernel allocated (offset - padding) (payload_disk_bytes (padding + len)))

unfoldable pub read_payload : Kernel → Option ℕ → ℕ → ℕ → Option (DataFileResult (List ℕ × ℕ))
unfolding read_slice
read_payload kernel allocated address len = read_slice kernel allocated address len

abbrev pub bytes_of : Option (DataFileResult (List ℕ × ℕ)) → Option (DataFileResult (List ℕ))
bytes_of none = none
bytes_of (some (failure e)) = some (failure e)
bytes_of (some (success (bytes, capacity))) = some (success bytes)

unfoldable pub read_at : Kernel → Option ℕ → ℕ → ℕ → ℕ → Option (DataFileResult (List ℕ))
unfolding read_slice check_range_fits_file
read_at kernel allocated capacity offset len =
    elim (check_range_fits_file read_range offset len capacity) [
      | some e ↦ some (failure e)
      | none ↦
          if len == 0 then some (success []) else bytes_of (read_slice kernel allocated offset len)
    ]

-- The error, if there is one, and the file afterwards.
abbrev pub as_result : Write → Option (Option DataFileError × (ℕ → ℕ))
as_result (written file) = some (none, file)
as_result (failed e file) = some (some (io write_range e), file)
as_result panic = none

unfoldable pub write_padded_at :
    Kernel → (ℕ → Bool) → ℕ → ℕ → ℕ → Bytes → (ℕ → ℕ) → Option (Option DataFileError × (ℕ → ℕ))
unfolding check_range_fits_file
write_padded_at kernel granted capacity offset len bytes file =
    elim (check_range_fits_file write_range offset len capacity) [
      | some e ↦ some (some e, file)
      | none ↦ as_result (write_padded kernel granted offset len bytes file)
    ]

unfoldable pub write_at :
    Kernel → (ℕ → Bool) → ℕ → ℕ → Bytes → (ℕ → ℕ) → Option (Option DataFileError × (ℕ → ℕ))
unfolding write_padded_at
write_at kernel granted capacity offset bytes file =
    if (offset % direct_io_alignment_bytes == 0)
      && (length bytes.content % direct_io_alignment_bytes == 0)
    then write_padded_at kernel granted capacity offset (length bytes.content) bytes file
    else none
