-- ===== src/Cache/Tests.antt =====
-- Tests of feuer/src/cache.rs and the files beside it, and the properties at concrete inputs. The
-- tiers of the first tests are maps: the memory map keeps the first object of a key, as
-- feuer-memory/src/store.rs does, and the disk map falls through whenever the caller agrees. The tiers
-- of the properties are those of Tiers.
use feuer.Base.{
  ℕ, ◌≡◌, ◌≢◌, ◌⊎◌, inl, inr, refl, ap, sym, ◌∙◌, List, [], ◌∷◌, Option, none, some, Bool, true,
  false, arith, length, sum, ◌==◌, ==_iff, get_elem?, ◌%◌, Bool-cases, if◌then◌else◌, ℕ_discrete,
  Option-cases,
}
use feuer.Base.HashMap
use feuer.Base.HashMap.{HashMap}
use feuer.Cache.{
  MemoryTier, DiskTier, LookupMetrics, from_bytes, fetch_failed, CacheInner, got, callback_failed,
  callback, get_cached, get_or_fetch_by_hash, admit,
}
use feuer.Cache.Tiers.{SoundCache, memory_tier, disk_tier, serve_caches-AreAnswers}
use feuer.Memory.Store.{
  MemoryCache, shard_index, new_cache, shards_from, shard_capacity_for, get_object,
}
use feuer.Memory.Store.Objects.{get_object-eq}
use feuer.Memory.Store.Entries.{some_eq, some-none}
use feuer.Memory.Store.Shard.{new_shard, get_bytes}
use feuer.Memory.Store.Interleaving.{new_cache-CacheSound}
use feuer.Storage.Io.Pieces.{bytes_from}
use feuer.Storage.Lookup.{
  get_with_fallthrough, lookup_entry, enqueue_if_space_available, DiskCache, DiskCacheShard,
  DiskEntry, find_last,
}
use feuer.Storage.Lookup.Kept.{Keeps, in_queue, in_buffer, in_read, in_file}
use feuer.Cache.Answers.{Request, get_request, fetch_request, serve_requests, AreAnswers}
use feuer.Cache.Admission.{alone}
use feuer.Cache.Config.{
  CacheBuilder, Environment, CacheConfig, builder, resolve_config, resolved, refused,
  invalid_memory_capacity, config_of, is_file_name, is_single_component, read_env_number,
  parse_config_number,
}
use feuer.Cache.PendingFetches.{
  empty_registry, Registry, join, after_calls, Call, join_call, remove_call, drop_call, after_call,
}
use feuer.Storage.Io.DataFile.Opening.{lock_name, same_bytes}
use feuer.Cache.Config.Refusals.{IsRight, resolve_config-IsRight, resolve_config-separate}
use feuer.Cache.PendingFetches.Sharing.{IsShared, join-after_calls}

abbrev inserted : Option (List ℕ) → HashMap (List ℕ) → ℕ → List ℕ → Bool × HashMap (List ℕ)
inserted (some old) m key bytes = (false, m)
inserted none m key bytes = (true, HashMap.insert key bytes m)

abbrev insert_first : HashMap (List ℕ) → ℕ → List ℕ → ℕ → Bool × HashMap (List ℕ)
insert_first m key bytes charge = inserted (HashMap.get key m) m key bytes

from_insertion :
    (m : HashMap (List ℕ)) (key : ℕ) (bytes : List ℕ) (j : ℕ) (x : List ℕ)
    → HashMap.get j (HashMap.insert key bytes m) ≡ some x
    → (HashMap.get j m ≡ some x) ⊎ ((j ≡ key) × (x ≡ bytes))
from_insertion m key bytes j x e = elim (ℕ_discrete key j) [
  | no n ↦ inl (sym (HashMap.get-insert_ne key j bytes m n) ∙ e)
  | yes q ↦
      let same : some bytes ≡ some x =
        sym (HashMap.get-insert_self key bytes m)
        ∙ ap (λ (i : ℕ). HashMap.get i (HashMap.insert key bytes m)) q
        ∙ e in
      inr (sym q, ground arith)
]

abbrev map_memory : MemoryTier
map_memory = record {
  Memory = HashMap (List ℕ);
  object_bytes = λ m key. HashMap.get key m;
  insert_bytes = insert_first;
  from_insert = λ m key bytes charge j x e. elim (Option-cases (HashMap.get key m)) [
    | inr (old, q) ↦ inl (rw q at e)
    | inl q ↦ from_insertion m key bytes j x (rw q at e)
  ];
  after_insertion = λ m key bytes charge. elim (Option-cases (HashMap.get key m)) [
    | inr (old, q) ↦ inr (rw q refl, (old, q, rw (q, q) refl))
    | inl q ↦ inl (rw q refl, q, rw q (HashMap.get-insert_self key bytes m))
  ];
}

abbrev read_answer : Option (List ℕ) → Bool → Option (List ℕ × ℕ)
read_answer none decision = none
read_answer (some bytes) true = none
read_answer (some bytes) false = some (bytes, length bytes)

read_answer-some :
    (o : Option (List ℕ)) (decision : Bool) (bytes : List ℕ) (capacity : ℕ)
    → read_answer o decision ≡ some (bytes, capacity)
    → o ≡ some bytes
read_answer-some none decision bytes capacity e = absurd (ground arith)
read_answer-some (some b) true bytes capacity e = absurd (ground arith)
read_answer-some (some b) false bytes capacity e = ground arith

abbrev is_there : Option (List ℕ) → Bool
is_there none = false
is_there (some bytes) = true

abbrev map_disk : DiskTier
map_disk = record {
  Disk = HashMap (List ℕ);
  Keeps = λ d key bytes. HashMap.get key d ≡ some bytes;
  get_with_fallthrough = λ d key decision. record {
    found = read_answer (HashMap.get key d) decision;
    fell_through = decision;
    disk = d;
  };
  contains = λ d key. is_there (HashMap.get key d);
  enqueue = λ d key bytes. HashMap.insert key bytes d;
  gives_kept = λ d key decision bytes capacity e.
      read_answer-some (HashMap.get key d) decision bytes capacity e;
  read_keeps = λ d key decision j x k. k;
  enqueue_keeps = λ d key bytes j x k. from_insertion d key bytes j x k;
}

-- The object of a key is the key, twice.
abbrev source : ℕ → List ℕ
source key = key ∷ key ∷ []

abbrev no_metrics : LookupMetrics
no_metrics = record {
  outcome_counts = 0 ∷ 0 ∷ 0 ∷ 0 ∷ 0 ∷ [];
  success_durations = 0 ∷ 0 ∷ [];
  served_bytes = 0 ∷ 0 ∷ 0 ∷ [];
  disk_write_already_covered = 0;
  disk_write_redundant = 0;
}

-- Object 1 is in memory and object 2 on the disk.
abbrev two_objects : CacheInner (HashMap (List ℕ)) (HashMap (List ℕ))
two_objects = record {
  memory = (1, source 1) ∷ [];
  disk = some ((2, source 2) ∷ []);
  metrics = no_metrics;
  requests = 0;
  callbacks = 0;
}

-- A hit of each tier, a lookup that misses, and a fetch that fails, one that the callback answers,
-- and one that falls through to it.
abbrev requests : List Request
requests =
    get_request 1
    ∷ get_request 3
    ∷ fetch_request 2 false none (fetch_failed 7)
    ∷ fetch_request 3 false none (fetch_failed 7)
    ∷ fetch_request 3 false none (from_bytes (source 3))
    ∷ fetch_request 4 true (some (callback, got (source 4))) (fetch_failed 7)
    ∷ []

serve_requests_test :
    serve_requests map_memory map_disk (λ n. alone map_memory map_disk) two_objects requests
    ≡ some (got (source 1))
      ∷ none
      ∷ some (got (source 2))
      ∷ some (callback_failed 7)
      ∷ some (got (source 3))
      ∷ some (got (source 4))
      ∷ []
unfolding serve_requests HashMap.get HashMap.insert get_cached get_or_fetch_by_hash admit
serve_requests_test = refl

-- A real memory cache of one shard without objects, and a disk cache of one shard with object 2 in its
-- buffer and an entry for object 5, which no caller reads. The kernel completes nothing.
abbrev empty_cache : MemoryCache
empty_cache = new_cache 100 1

abbrev hash : ℕ → ℕ
hash key = key

abbrev checksum : List ℕ → ℕ
checksum bytes = sum bytes

one : (j : ℕ) → j % 1 ≡ 0
one j = omega arith

only_shard :
    (j : ℕ) → get_elem? empty_cache.shards (shard_index hash empty_cache j) ≡ some (new_shard 100)
unfolding new_cache shards_from shard_capacity_for
only_shard j = rw (one j) refl

empty_cache-objects : (j : ℕ) (x : List ℕ) → get_object hash empty_cache j ≡ some x → x ≡ source j
unfolding new_cache shards_from new_shard get_bytes HashMap.get
empty_cache-objects j x e =
    absurd
      (some-none (sym (sym (get_object-eq hash empty_cache j (new_shard 100) (only_shard j)) ∙ e)))

abbrev sound_cache : SoundCache
sound_cache = record {
  cache = empty_cache;
  cache_CacheSound = new_cache-CacheSound 100 1 (omega arith);
  scores = λ round key charge. 0;
}

abbrev entry_of_5 : DiskEntry
entry_of_5 = record {
  payload_len = 2;
  payload_checksum = 10;
  payload_address = 4096;
  shared_read = none;
}

abbrev disk_shard : DiskCacheShard
disk_shard = record {
  small_entry_buffer = record {
    buffer = λ i. 2;
    entries = record { key = 2; buffer_offset = 0; payload_len = 2 } ∷ [];
  };
  buffer_is_locked = false;
  entries_by_key = λ key. if key == 5 then some entry_of_5 else none;
}

abbrev disk_cache : DiskCache
disk_cache = record {
  shards = λ i. disk_shard;
  shard_count = 1;
  queued_writes = [];
  is_closed = false;
  file = λ i. 5;
  kernel = λ r m. [];
  kernel_IsHonest = λ r m. tt;
  allocated = some 4096;
  fallthrough_scheduled = true;
  lookups = [];
  queue_outcomes = [];
  queued_entries = 0;
  pending_bytes = 0;
}

only_entry :
    (j : ℕ) (e : DiskEntry) → disk_shard.entries_by_key j ≡ some e → (j ≡ 5) × (e ≡ entry_of_5)
only_entry j e p = elim (Bool-cases (j == 5)) [
  | inl q ↦ ((==_iff j 5).0 q, sym (some_eq (rw q at p)))
  | inr q ↦ absurd (some-none (sym (rw q at p)))
]

-- Object 2 is read from the buffer; object 5 is left to the callback if the caller agrees, and its write
-- is queued.
lookup_buffered : (get_with_fallthrough checksum disk_cache 2 true).found ≡ some (source 2, 2)
unfolding get_with_fallthrough find_last bytes_from
lookup_buffered = refl

lookup_fallthrough : (get_with_fallthrough checksum disk_cache 5 true).fell_through ≡ true
unfolding get_with_fallthrough lookup_entry find_last
lookup_fallthrough = refl

queued_5 : (enqueue_if_space_available disk_cache 5 (source 5)).queued_writes ≡ (5, source 5) ∷ []
unfolding enqueue_if_space_available
queued_5 = refl

disk_cache-objects : (j : ℕ) (x : List ℕ) → Keeps checksum disk_cache j x → x ≡ source j
unfolding bytes_from find_last
disk_cache-objects j x (in_queue h) = elim h [ ]
disk_cache-objects j x (in_buffer h) = elim (Bool-cases (2 == j)) [
  | inl q ↦ sym (some_eq (rw q at h)) ∙ ap source ((==_iff 2 j).0 q)
  | inr q ↦ absurd (some-none (sym (rw q at h)))
]
disk_cache-objects j x (in_read e n p h) =
    absurd (some-none (sym h ∙ ap (λ (i : DiskEntry). i.shared_read) (only_entry j e p).1))
disk_cache-objects j x (in_file e p h s) =
    h
    ∙ ap (λ (i : DiskEntry). bytes_from disk_cache.file i.payload_address i.payload_len)
        (only_entry j e p).1
    ∙ ap source (sym (only_entry j e p).0)

abbrev caches : CacheInner SoundCache DiskCache
caches = record {
  memory = sound_cache;
  disk = some disk_cache;
  metrics = no_metrics;
  requests = 0;
  callbacks = 0;
}

serve_caches-AreAnswers_example : AreAnswers source requests (
    serve_requests
      (memory_tier hash)
      (disk_tier checksum)
      (λ n. alone (memory_tier hash) (disk_tier checksum))
      caches
      requests)
serve_caches-AreAnswers_example =
    serve_caches-AreAnswers hash checksum source
      (λ n. alone (memory_tier hash) (disk_tier checksum)) caches requests (λ n i e h. h)
      (record { in_memory = empty_cache-objects; on_disk = disk_cache-objects })
      (tt, tt, (tt, tt, (tt, refl, (refl, tt, tt))))

-- "8" and nothing else is a number.
abbrev parse : List ℕ → Option ℕ
parse value = if same_bytes value (b'8' ∷ []) then some 8 else none

abbrev settings : Environment
settings = record {
  sample_size_setting = some (b'8' ∷ []);
  half_life_setting = none;
  entry_limit_setting = none;
}

abbrev with_memory : CacheBuilder
unfolding builder
with_memory = record builder { memory_capacity = 4096 }

abbrev with_memory_config : CacheConfig
with_memory_config = config_of with_memory 8 262144 2000000

resolve_config_test : resolve_config parse settings with_memory ≡ resolved with_memory_config
unfolding resolve_config builder is_file_name is_single_component read_env_number
    parse_config_number
resolve_config_test = refl

no_memory_test : resolve_config parse settings builder ≡ refused invalid_memory_capacity
unfolding resolve_config builder
no_memory_test = refl

resolve_config-IsRight_example :
    IsRight parse settings with_memory (resolve_config parse settings with_memory)
resolve_config-IsRight_example = resolve_config-IsRight parse settings with_memory

resolve_config-separate_example :
    let name = with_memory_config.file_name in
    (name ≢ lock_name (b'a' ∷ [])) × (name ≢ b'a' ∷ [] → lock_name name ≢ lock_name (b'a' ∷ []))
resolve_config-separate_example =
    resolve_config-separate parse settings with_memory with_memory_config (b'a' ∷ [])
      resolve_config_test

-- A fetch of object 5 that one caller started.
abbrev one_fetch : Registry
unfolding join empty_registry
one_fetch = (join empty_registry 5).1

one_fetch-IsShared : IsShared one_fetch 5 0
unfolding join empty_registry HashMap.get HashMap.insert
one_fetch-IsShared = record { owners = 0; registered = refl; owned = refl; older = omega arith }

-- A second caller joins it and leaves, and another fetch comes and goes.
abbrev other_calls : List Call
other_calls = join_call 5 ∷ join_call 6 ∷ drop_call 0 ∷ remove_call 1 ∷ drop_call 1 ∷ []

join-after_calls_example : (join (after_calls one_fetch other_calls) 5).0 ≡ 0
unfolding join empty_registry HashMap.get HashMap.insert after_call
join-after_calls_example = join-after_calls one_fetch 5 0 other_calls one_fetch-IsShared (
  tt,
  (
    tt,
    (
      inr (record { key = 5; owners = 2 }, refl, omega arith),
      (λ e. absurd (ground arith), (inl (λ e. absurd (ground arith)), tt)),
    ),
  ),
)
