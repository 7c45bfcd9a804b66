-- ===== src/Storage/Io/DataFile/Opening.antt =====
-- `open_file_state` of feuer-storage/src/file.rs: what it does to the disk, in order, over the answers
-- of the system. A file name is a list of bytes.
use feuer.Base.{
  ℕ, ◌%◌, ◌≡◌, ◌≢◌, inl, inr, refl, ap, sym, ◌∙◌, List, [], ◌∷◌, ◌++◌, Option, none, some, Bool,
  true, false, not, arith, length, length-append, ◌&&◌, ◌||◌, ltb, ◌==◌, if◌then◌else◌, Bool-cases,
}
use feuer.Storage.Io.{IoError, IoResult, ok, err, unsupported, direct_io_alignment_bytes}
use feuer.Storage.Io.DataFile.{
  IoOperation, create_directory, open_lock_file, lock_file, open_data_file, inspect_data_file,
  resize_data_file, DataFileError, invalid_capacity, already_open, invalid_data_file, io, i64_max,
}

-- `statx`: whether it reports alignments, and the alignments of memory and of offsets.
pub record Statx : Type 0 where
  pub reports_alignment : Bool
  pub memory_alignment : ℕ
  pub offset_alignment : ℕ

-- What the system answers to each call: an error, or the call's result.
pub record System : Type 0 where
  pub created_directory : Option IoError
  pub opened_lock_file : Option IoError
  pub locked : IoResult Bool
  pub opened_data_file : Option IoError
  pub is_regular : IoResult Bool
  pub statx : IoResult Statx
  pub created_queues : Option IoError
  pub resized : Option IoError

abbrev pub is_multiple_of : ℕ → ℕ → Bool
is_multiple_of a b = if b == 0 then a == 0 else a % b == 0

unfoldable pub check_direct_io_alignment : IoResult Statx → Option IoError
check_direct_io_alignment (err e) = some e
check_direct_io_alignment (ok stat) =
    if not stat.reports_alignment
      || not (is_multiple_of direct_io_alignment_bytes stat.memory_alignment)
      || not (is_multiple_of direct_io_alignment_bytes stat.offset_alignment)
    then some unsupported
    else none

pub data Effect : Type 0 where
  directory_created lock_file_opened file_locked data_file_opened queues_created file_resized :
      Effect

-- What has succeeded, and the error that ended the opening.
pub record Opening : Type 0 where
  pub effects : List Effect
  pub error : Option DataFileError

-- A `?` that may end the opening: an effect if it goes well, or a check.
abbrev pub effect : Effect → Option DataFileError → Opening → Opening
effect done none rest = record { effects = done ∷ rest.effects; error = rest.error }
effect done (some e) rest = record { effects = []; error = some e }

abbrev pub check : Option DataFileError → Opening → Opening
check none rest = rest
check (some e) rest = record { effects = []; error = some e }

abbrev pub io_error : IoOperation → Option IoError → Option DataFileError
io_error operation none = none
io_error operation (some e) = some (io operation e)

abbrev pub lock_error : IoResult Bool → Option DataFileError
lock_error (err e) = some (io lock_file e)
lock_error (ok true) = none
lock_error (ok false) = some already_open

abbrev pub regular_error : IoResult Bool → Option DataFileError
regular_error (err e) = some (io inspect_data_file e)
regular_error (ok true) = none
regular_error (ok false) = some invalid_data_file

abbrev pub capacity_error : ℕ → Option DataFileError
capacity_error capacity =
    if (capacity == 0) || ltb i64_max capacity || not (capacity % direct_io_alignment_bytes == 0)
    then some invalid_capacity
    else none

-- Queues that are given are not created.
abbrev pub queues_error : Bool → Option IoError → Option DataFileError
queues_error true created = none
queues_error false created = io_error open_data_file created

unfoldable pub open_file_state : System → Bool → ℕ → Opening
unfolding check_direct_io_alignment
open_file_state system has_queues capacity = check (capacity_error capacity) (
    effect directory_created (io_error create_directory system.created_directory) (
      effect lock_file_opened (io_error open_lock_file system.opened_lock_file) (
        effect file_locked (lock_error system.locked) (
          effect data_file_opened (io_error open_data_file system.opened_data_file) (
            check (regular_error system.is_regular) (
              check (io_error inspect_data_file (check_direct_io_alignment system.statx)) (
                effect queues_created (queues_error has_queues system.created_queues) (
                  effect file_resized (io_error resize_data_file system.resized)
                    (record { effects = []; error = none })))))))))

-- "data", ".feuer.lock", ".feuer." and ".lock".
abbrev pub data_file_name : List ℕ
data_file_name = b'd' ∷ b'a' ∷ b't' ∷ b'a' ∷ []

abbrev pub lock_suffix : List ℕ
lock_suffix = b'.' ∷ b'l' ∷ b'o' ∷ b'c' ∷ b'k' ∷ []

abbrev pub reserved_prefix : List ℕ
reserved_prefix = b'.' ∷ b'f' ∷ b'e' ∷ b'u' ∷ b'e' ∷ b'r' ∷ b'.' ∷ []

abbrev pub lock_file_name : List ℕ
lock_file_name = b'.' ∷ b'f' ∷ b'e' ∷ b'u' ∷ b'e' ∷ b'r' ∷ lock_suffix

abbrev pub same_bytes : List ℕ → List ℕ → Bool
same_bytes [] [] = true
same_bytes [] (y ∷ ys) = false
same_bytes (x ∷ xs) [] = false
same_bytes (x ∷ xs) (y ∷ ys) = let rest = same_bytes xs ys in (x == y) && rest

unfoldable pub lock_name : List ℕ → List ℕ
lock_name file_name =
    if same_bytes file_name data_file_name
    then lock_file_name
    else reserved_prefix ++ (file_name ++ lock_suffix)

pub same_bytes→eq : (xs ys : List ℕ) → same_bytes xs ys ≡ true → xs ≡ ys
same_bytes→eq [] [] h = refl
same_bytes→eq [] (y ∷ ys) h = absurd (ground arith)
same_bytes→eq (x ∷ xs) [] h = absurd (ground arith)
same_bytes→eq (x ∷ xs) (y ∷ ys) h = ground (arith, same_bytes→eq xs ys)

append_cancel : (xs ys zs : List ℕ) → xs ++ zs ≡ ys ++ zs → xs ≡ ys
append_cancel [] [] zs h = refl
append_cancel [] (y ∷ ys) zs h = absurd (omega (arith, ap length h, length-append ys zs))
append_cancel (x ∷ xs) [] zs h = absurd (omega (arith, ap length h, length-append xs zs))
append_cancel (x ∷ xs) (y ∷ ys) zs h =
    ground (arith, append_cancel xs ys zs (tail_eq x y (xs ++ zs) (ys ++ zs) h))
  where
    tail_eq : (a b : ℕ) (l m : List ℕ) → a ∷ l ≡ b ∷ m → l ≡ m
    tail_eq a b l m e = cc

not_default : (b : List ℕ) → lock_file_name ≢ reserved_prefix ++ (b ++ lock_suffix)
not_default b h = absurd (omega (arith, ap length h, length-append b lock_suffix))

-- Files with different names in one directory have different lock files.
pub lock_name-injective : (a b : List ℕ) → lock_name a ≡ lock_name b → a ≡ b
unfolding lock_name
lock_name-injective a b h = elim (Bool-cases (same_bytes a data_file_name)) [
  | inl x ↦ elim (Bool-cases (same_bytes b data_file_name)) [
    | inl y ↦ same_bytes→eq a data_file_name x ∙ sym (same_bytes→eq b data_file_name y)
    | inr y ↦ absurd (not_default b (rw (x, y, lock_name) at h))
  ]
  | inr x ↦ elim (Bool-cases (same_bytes b data_file_name)) [
    | inl y ↦ absurd (not_default a (sym (rw (x, y, lock_name) at h)))
    | inr y ↦ append_cancel a b lock_suffix (tails (rw (x, y, lock_name) at h))
  ]
]
  where
    tails :
        reserved_prefix ++ (a ++ lock_suffix) ≡ reserved_prefix ++ (b ++ lock_suffix)
        → a ++ lock_suffix ≡ b ++ lock_suffix
    tails e = cc
