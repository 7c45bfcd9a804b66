-- ===== src/Cache/Config.antt =====
-- The builder of feuer/src/cache.rs, the values of feuer/src/config.rs, and the numeric settings of
-- feuer-utils/src/config.rs. A name is a list of bytes. `parse` reads a number with its suffix, as
-- the bytesize library does. `usize` has 64 bits. The error of a setting in the environment is
-- `none`: its text is left out.
pub mod Names
pub mod Refusals
use mathlib.Core.Path.{subst}
use feuer.Base.{
  ℕ, ◌<◌, ◌≡◌, ◌≢◌, ◌⊎◌, inl, inr, refl, ap, sym, ◌∙◌, List, [], ◌∷◌, ◌++◌, Option, none, some,
  Bool, true, false, not, ◌&&◌, ◌||◌, ltb, ◌==◌, if◌then◌else◌, arith, ==_iff, Bool-cases,
  Option-cases,
}
use feuer.Storage.Io.DataFile.Opening.{
  reserved_prefix, lock_name, lock_name-injective, lock_suffix, data_file_name, same_bytes,
}

pub data CacheConfigError : Type 0 where
  invalid_file_name invalid_memory_capacity invalid_reclaim_sample_size
        invalid_access_count_half_life invalid_history_entry_limit :
      CacheConfigError

pub record CacheConfig : Type 0 where
  pub directory : List ℕ
  pub file_name : List ℕ
  pub payload_version : ℕ
  pub disk_capacity : ℕ
  pub memory_capacity : ℕ
  pub access_count_half_life : ℕ
  pub history_entry_limit : ℕ
  pub reclaim_sample_size : ℕ

-- The fields of `CacheBuilder` that the configuration is resolved from.
pub record CacheBuilder : Type 0 where
  pub directory : List ℕ
  pub file_name : List ℕ
  pub disk_capacity : ℕ
  pub memory_capacity : ℕ
  pub payload_version : ℕ
  pub access_count_half_life : Option ℕ
  pub history_entry_limit : Option ℕ
  pub reclaim_sample_size : Option ℕ

-- The environment's values of FEUER_RECLAIM_SAMPLE_SIZE, FEUER_ACCESS_COUNT_HALF_LIFE and
-- FEUER_HISTORY_ENTRY_LIMIT.
pub record Environment : Type 0 where
  pub sample_size_setting : Option (List ℕ)
  pub half_life_setting : Option (List ℕ)
  pub entry_limit_setting : Option (List ℕ)

-- "feuer_cache" and "data".
unfoldable pub builder : CacheBuilder
builder = record {
  directory = b'f' ∷ b'e' ∷ b'u' ∷ b'e' ∷ b'r' ∷ b'_' ∷ b'c' ∷ b'a' ∷ b'c' ∷ b'h' ∷ b'e' ∷ [];
  file_name = data_file_name;
  disk_capacity = 0;
  memory_capacity = 0;
  payload_version = 0;
  access_count_half_life = none;
  history_entry_limit = none;
  reclaim_sample_size = none;
}

abbrev pub number_limit : ℕ
number_limit = 18446744073709551616

unfoldable pub parse_config_number : (List ℕ → Option ℕ) → List ℕ → ℕ → Option ℕ
parse_config_number parse value minimum = elim (parse value) [
  | none ↦ none
  | some number ↦
      if ltb number minimum then none else if ltb number number_limit then some number else none
]

unfoldable pub read_env_number : (List ℕ → Option ℕ) → Option (List ℕ) → ℕ → ℕ → Option ℕ
read_env_number parse none default minimum = some default
read_env_number parse (some value) default minimum = parse_config_number parse value minimum

-- `Path::file_name` gives a name back exactly if it is one normal component.
abbrev pub has_separator : List ℕ → Bool
has_separator [] = false
has_separator (c ∷ cs) = let rest = has_separator cs in (c == b'/') || rest

unfoldable pub is_single_component : List ℕ → Bool
is_single_component name =
    not (same_bytes name [])
    && not (same_bytes name (b'.' ∷ []))
    && not (same_bytes name (b'.' ∷ b'.' ∷ []))
    && not (has_separator name)

abbrev pub has_nul : List ℕ → Bool
has_nul [] = false
has_nul (c ∷ cs) = let rest = has_nul cs in (c == 0) || rest

abbrev pub starts_with : List ℕ → List ℕ → Bool
starts_with name [] = true
starts_with [] (p ∷ ps) = false
starts_with (c ∷ cs) (p ∷ ps) = let rest = starts_with cs ps in (c == p) && rest

unfoldable pub is_file_name : List ℕ → Bool
unfolding is_single_component
is_file_name name =
    is_single_component name && not (has_nul name) && not (starts_with name reserved_prefix)

abbrev pub explicit_or_env : (List ℕ → Option ℕ) → Option ℕ → Option (List ℕ) → ℕ → Option ℕ
explicit_or_env parse (some n) setting default = some n
explicit_or_env parse none setting default = read_env_number parse setting default 1

pub data Resolved : Type 0 where
  resolved : CacheConfig → Resolved
  refused : CacheConfigError → Resolved

-- `NonZeroU64::new(half_life)` and `NonZeroUsize::new(history_limit)` stand in the final record.
abbrev pub nonzero : ℕ → Option ℕ
nonzero n = if n == 0 then none else some n

abbrev pub config_of : CacheBuilder → ℕ → ℕ → ℕ → CacheConfig
config_of b sample_size half_life history_limit = record {
  directory = b.directory;
  file_name = b.file_name;
  payload_version = b.payload_version;
  disk_capacity = b.disk_capacity;
  memory_capacity = b.memory_capacity;
  access_count_half_life = half_life;
  history_entry_limit = history_limit;
  reclaim_sample_size = sample_size;
}

abbrev pub finish_config : CacheBuilder → ℕ → ℕ → ℕ → Resolved
finish_config b sample_size half_life history_limit = elim (nonzero half_life) [
  | none ↦ refused invalid_access_count_half_life
  | some h ↦ elim (nonzero history_limit) [
    | none ↦ refused invalid_history_entry_limit
    | some l ↦ resolved (config_of b sample_size h l)
  ]
]

unfoldable pub resolve_config : (List ℕ → Option ℕ) → Environment → CacheBuilder → Resolved
resolve_config parse env b =
    if b.memory_capacity == 0
    then refused invalid_memory_capacity
    else if not (is_file_name b.file_name)
    then refused invalid_file_name
    else (elim (explicit_or_env parse b.reclaim_sample_size env.sample_size_setting 64) [
      | none ↦ refused invalid_reclaim_sample_size
      | some sample_size ↦
          if sample_size == 0
          then refused invalid_reclaim_sample_size
          else (elim (explicit_or_env parse b.access_count_half_life env.half_life_setting 262144) [
            | none ↦ refused invalid_access_count_half_life
            | some half_life ↦
                elim (explicit_or_env parse b.history_entry_limit env.entry_limit_setting 2000000) [
                  | none ↦ refused invalid_history_entry_limit
                  | some history_limit ↦ finish_config b sample_size half_life history_limit
                ]
          ])
    ])
