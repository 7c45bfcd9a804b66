-- ===== src/Storage/Io/DataFile/Steps.antt =====
-- `open_file_state` of feuer-storage/src/file.rs against the answers of the system: which step ends it.
use feuer.Base.{
  ℕ, ◌%◌, ◌≤◌, ◌<◌, ◌≡◌, ◌≢◌, ◌⊎◌, inl, inr, refl, ap, sym, List, [], ◌∷◌, Option, none, some, Bool,
  true, false, not, ◌||◌, ltb, ◌==◌, if◌then◌else◌, arith, Bool-cases,
}
use feuer.Storage.Io.{IoError, IoResult, ok, err, unsupported, direct_io_alignment_bytes}
use feuer.Storage.Io.DataFile.{
  IoOperation, create_directory, open_lock_file, lock_file, open_data_file, inspect_data_file,
  resize_data_file, DataFileError, invalid_capacity, already_open, invalid_data_file, io, i64_max,
}
use feuer.Storage.Io.DataFile.Opening.{
  Statx, System, is_multiple_of, check_direct_io_alignment, Effect, directory_created,
  lock_file_opened, file_locked, data_file_opened, queues_created, file_resized, Opening, effect,
  check, io_error, lock_error, regular_error, capacity_error, queues_error, open_file_state,
}

-- A step: what it does, the answers with which it succeeds, and those with which it fails with an error.
pub record Step : Type 1 where
  pub does : Option Effect
  pub Succeeds : Type 0
  pub FailsWith : DataFileError → Type 0

abbrev pub preceded : Option Effect → Opening → Opening
preceded none o = o
preceded (some x) o = record { effects = x ∷ o.effects; error = o.error }

-- The steps are done in order, up to the first that fails, whose error is the result.
abbrev pub DoesSteps : List Step → Opening → Type 0
DoesSteps [] o = o ≡ record { effects = []; error = none }
DoesSteps (s ∷ steps) o =
    (s.Succeeds × (rest : Opening) × DoesSteps steps rest × (o ≡ preceded s.does rest))
    ⊎ ((e : DataFileError) × s.FailsWith e × (o ≡ record { effects = []; error = some e }))

-- A call whose answer is an error or nothing.
abbrev call_step : Effect → IoOperation → Option IoError → Step
call_step x operation answer = record {
  does = some x;
  Succeeds = answer ≡ none;
  FailsWith = λ e. (f : IoError) × (answer ≡ some f) × (e ≡ io operation f);
}

-- A call that answers yes, or no for an error of its own.
abbrev question_step : Option Effect → IoOperation → DataFileError → IoResult Bool → Step
question_step x operation refusal answer = record {
  does = x;
  Succeeds = answer ≡ ok true;
  FailsWith = λ e.
      ((answer ≡ ok false) × (e ≡ refusal))
      ⊎ ((f : IoError) × (answer ≡ err f) × (e ≡ io operation f));
}

-- The alignment divides 4096.
abbrev pub Divides : ℕ → Type 0
Divides alignment = (0 < alignment) × (direct_io_alignment_bytes % alignment ≡ 0)

abbrev IsDirect : Statx → Type 0
IsDirect stat =
    (stat.reports_alignment ≡ true) × Divides stat.memory_alignment × Divides stat.offset_alignment

abbrev capacity_step : ℕ → Step
capacity_step capacity = record {
  does = none;
  Succeeds = (0 < capacity) × (capacity ≤ i64_max) × (capacity % direct_io_alignment_bytes ≡ 0);
  FailsWith = λ e.
      ((capacity ≡ 0) ⊎ (i64_max < capacity) ⊎ (capacity % direct_io_alignment_bytes ≢ 0))
      × (e ≡ invalid_capacity);
}

abbrev statx_step : IoResult Statx → Step
statx_step answer = record {
  does = none;
  Succeeds = (stat : Statx) × (answer ≡ ok stat) × IsDirect stat;
  FailsWith = λ e.
      ((f : IoError) × (answer ≡ err f) × (e ≡ io inspect_data_file f))
      ⊎ ((stat : Statx) × (answer ≡ ok stat)
          × (IsDirect stat → ⊥)
          × (e ≡ io inspect_data_file unsupported));
}

-- Queues that are given are not created.
abbrev queues_step : Bool → Option IoError → Step
queues_step has_queues created = record {
  does = some queues_created;
  Succeeds = (has_queues ≡ true) ⊎ (created ≡ none);
  FailsWith =
      λ e. (has_queues ≡ false) × ((f : IoError) × (created ≡ some f) × (e ≡ io open_data_file f));
}

abbrev pub steps : System → Bool → ℕ → List Step
steps system has_queues capacity =
    capacity_step capacity
    ∷ call_step directory_created create_directory system.created_directory
    ∷ call_step lock_file_opened open_lock_file system.opened_lock_file
    ∷ question_step (some file_locked) lock_file already_open system.locked
    ∷ call_step data_file_opened open_data_file system.opened_data_file
    ∷ question_step none inspect_data_file invalid_data_file system.is_regular
    ∷ statx_step system.statx
    ∷ queues_step has_queues system.created_queues
    ∷ call_step file_resized resize_data_file system.resized
    ∷ []

-- The error that the code computes for a step is that of the answers.
abbrev IsAnswered : Step → Option DataFileError → Type 0
IsAnswered s none = s.Succeeds
IsAnswered s (some e) = s.FailsWith e

effect-DoesSteps :
    (s : Step) (x : Effect) (o : Option DataFileError) (rest : Opening) (others : List Step)
    → s.does ≡ some x
    → IsAnswered s o
    → DoesSteps others rest
    → DoesSteps (s ∷ others) (effect x o rest)
effect-DoesSteps s x none rest others q a d =
    inl (a, rest, d, ap (λ (y : Option Effect). preceded y rest) (sym q))
effect-DoesSteps s x (some e) rest others q a d = inr (e, a, refl)

check-DoesSteps :
    (s : Step) (o : Option DataFileError) (rest : Opening) (others : List Step)
    → s.does ≡ none
    → IsAnswered s o
    → DoesSteps others rest
    → DoesSteps (s ∷ others) (check o rest)
check-DoesSteps s none rest others q a d =
    inl (a, rest, d, ap (λ (y : Option Effect). preceded y rest) (sym q))
check-DoesSteps s (some e) rest others q a d = inr (e, a, refl)

call-IsAnswered :
    (x : Effect) (operation : IoOperation) (answer : Option IoError)
    → IsAnswered (call_step x operation answer) (io_error operation answer)
call-IsAnswered x operation none = refl
call-IsAnswered x operation (some f) = (f, refl, refl)

lock-IsAnswered :
    (answer : IoResult Bool)
    → IsAnswered
        (question_step (some file_locked) lock_file already_open answer)
        (lock_error answer)
lock-IsAnswered (err f) = inr (f, refl, refl)
lock-IsAnswered (ok true) = refl
lock-IsAnswered (ok false) = inl (refl, refl)

regular-IsAnswered :
    (answer : IoResult Bool)
    → IsAnswered
        (question_step none inspect_data_file invalid_data_file answer)
        (regular_error answer)
regular-IsAnswered (err f) = inr (f, refl, refl)
regular-IsAnswered (ok true) = refl
regular-IsAnswered (ok false) = inl (refl, refl)

capacity-IsAnswered : (capacity : ℕ) → IsAnswered (capacity_step capacity) (capacity_error capacity)
capacity-IsAnswered capacity = elim (Bool-cases (capacity == 0)) [
  | inl z ↦ rw (z, capacity_error, IsAnswered) (inl (ground (arith, z)), refl)
  | inr z ↦ elim (Bool-cases (ltb i64_max capacity)) [
    | inl l ↦ rw (z, l, capacity_error, IsAnswered) (inr (inl (ground (arith, l))), refl)
    | inr l ↦ elim (Bool-cases (capacity % direct_io_alignment_bytes == 0)) [
      | inl m ↦
          rw (z, l, m, capacity_error, IsAnswered)
            (ground (arith, z), ground (arith, l), ground (arith, m))
      | inr m ↦
          rw (z, l, m, capacity_error, IsAnswered)
            (inr (inr (λ q. absurd (ground (arith, m, q)))), refl)
    ]
  ]
]

multiple-Divides : (a : ℕ) → is_multiple_of direct_io_alignment_bytes a ≡ true → Divides a
multiple-Divides a h = elim (Bool-cases (a == 0)) [
  | inl z ↦ absurd (ground (arith, rw z at h))
  | inr z ↦
      let m : (direct_io_alignment_bytes % a == 0) ≡ true = rw z at h in
      (ground (arith, z), ground (arith, m))
]

Divides-multiple : (a : ℕ) → Divides a → is_multiple_of direct_io_alignment_bytes a ≡ true
Divides-multiple a (p, q) =
    let z : (a == 0) ≡ false = ground (arith, p) in
    let m : (direct_io_alignment_bytes % a == 0) ≡ true = ground (arith, q) in
    rw (z, m, is_multiple_of) refl

alignment-IsAnswered :
    (stat : Statx) (a b c : Bool)
    → stat.reports_alignment ≡ a
    → is_multiple_of direct_io_alignment_bytes stat.memory_alignment ≡ b
    → is_multiple_of direct_io_alignment_bytes stat.offset_alignment ≡ c
    → IsAnswered
        (statx_step (ok stat))
        (io_error inspect_data_file (if not a || not b || not c then some unsupported else none))
alignment-IsAnswered stat false b c p q r =
    inr (stat, refl, λ d. absurd (ground (arith, p, d.0)), refl)
alignment-IsAnswered stat true false c p q r =
    inr (
      stat,
      refl,
      λ d. absurd (ground (arith, q, Divides-multiple stat.memory_alignment d.1)),
      refl,
    )
alignment-IsAnswered stat true true false p q r =
    inr (
      stat,
      refl,
      λ d. absurd (ground (arith, r, Divides-multiple stat.offset_alignment d.2)),
      refl,
    )
alignment-IsAnswered stat true true true p q r = (
  stat,
  refl,
  (p, multiple-Divides stat.memory_alignment q, multiple-Divides stat.offset_alignment r),
)

statx-IsAnswered :
    (answer : IoResult Statx)
    → IsAnswered (statx_step answer) (io_error inspect_data_file (check_direct_io_alignment answer))
unfolding check_direct_io_alignment
statx-IsAnswered (err f) = inl (f, refl, refl)
statx-IsAnswered (ok stat) = alignment-IsAnswered stat _ _ _ refl refl refl

queues-IsAnswered :
    (has_queues : Bool) (created : Option IoError)
    → IsAnswered (queues_step has_queues created) (queues_error has_queues created)
queues-IsAnswered true created = inl refl
queues-IsAnswered false none = inr refl
queues-IsAnswered false (some f) = (refl, (f, refl, refl))

-- An opening with the steps that it does.
record Part (others : List Step) : Type 1 where
  opening : Opening
  done : DoesSteps others opening

abbrev effect_part :
    (s : Step) (x : Effect) (e : Option DataFileError) (others : List Step)
    → Part others
    → s.does ≡ some x
    → IsAnswered s e
    → Part (s ∷ others)
effect_part s x e others p q a = record {
  opening = effect x e p.opening;
  done = effect-DoesSteps s x e p.opening others q a p.done;
}

abbrev check_part :
    (s : Step) (e : Option DataFileError) (others : List Step)
    → Part others
    → s.does ≡ none
    → IsAnswered s e
    → Part (s ∷ others)
check_part s e others p q a = record {
  opening = check e p.opening;
  done = check-DoesSteps s e p.opening others q a p.done;
}

-- Opening a file does its steps in order up to the first that fails, and reports that step's error:
-- a capacity that is positive, a multiple of 4096 and at most the limit; the directory; the lock file;
-- the lock, which nobody else has; the data file, which is regular and allows direct input and output
-- at 4096 bytes; the queues, unless they are given; the resizing. `steps` has the answers of the
-- system with which each succeeds or fails.
pub open_file_state-DoesSteps :
    (system : System) (has_queues : Bool) (capacity : ℕ)
    → DoesSteps (steps system has_queues capacity) (open_file_state system has_queues capacity)
unfolding open_file_state
open_file_state-DoesSteps system has_queues capacity =
    let nothing : Part [] = record {
      opening = record { effects = []; error = none };
      done = refl;
    } in
    let resize =
      effect_part (call_step file_resized resize_data_file system.resized) (file_resized)
        (io_error resize_data_file system.resized) _ nothing refl
        (call-IsAnswered file_resized resize_data_file system.resized) in
    let queues =
      effect_part (queues_step has_queues system.created_queues) (queues_created)
        (queues_error has_queues system.created_queues) _ resize refl
        (queues-IsAnswered has_queues system.created_queues) in
    let aligned =
      check_part (statx_step system.statx)
        (io_error inspect_data_file (check_direct_io_alignment system.statx)) _ queues refl
        (statx-IsAnswered system.statx) in
    let regular =
      check_part (question_step none inspect_data_file invalid_data_file system.is_regular)
        (regular_error system.is_regular) _ aligned refl (regular-IsAnswered system.is_regular) in
    let data_file =
      effect_part (call_step data_file_opened open_data_file system.opened_data_file)
        (data_file_opened) (io_error open_data_file system.opened_data_file) _ regular refl
        (call-IsAnswered data_file_opened open_data_file system.opened_data_file) in
    let lock =
      effect_part (question_step (some file_locked) lock_file already_open system.locked)
        (file_locked) (lock_error system.locked) _ data_file refl (lock-IsAnswered system.locked) in
    let lock_open =
      effect_part (call_step lock_file_opened open_lock_file system.opened_lock_file)
        (lock_file_opened) (io_error open_lock_file system.opened_lock_file) _ lock refl
        (call-IsAnswered lock_file_opened open_lock_file system.opened_lock_file) in
    let directory =
      effect_part (call_step directory_created create_directory system.created_directory)
        (directory_created) (io_error create_directory system.created_directory) _ lock_open refl
        (call-IsAnswered directory_created create_directory system.created_directory) in
    let whole =
      check_part (capacity_step capacity) (capacity_error capacity) _ directory refl
        (capacity-IsAnswered capacity) in
    whole.done
