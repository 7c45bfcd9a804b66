-- ===== src/Lib.antt =====
-- Feuer, a tiered cache for immutable objects: what its tiers, the lookup
-- through them, and the input and output of its disk tier promise.
--
-- The program. A lookup goes to the memory tier (feuer-memory), then to the disk tier (feuer-storage),
-- then to the source, with a request history (feuer-historian) that the retention scores read. The
-- memory tier keeps objects in shards under locks, and shares one byte budget between cached objects
-- and idle aligned buffers. The disk tier splits a device into shards of 1 MiB chunks; an allocator for
-- each shard hands out runs of free chunks, and holds the chunks of payloads until the last payload in
-- them is released. Both tiers choose what to evict from a rotating sample.
--
-- What models what.
-- - Base: the names that all files share. Base/Tests has Boolean tests, Base/Lists lists over native
--   numbers, Base/BTreeMap and Base/HashMap what the code uses of the two standard maps.
-- - Memory/Retention: sample_candidates of feuer-memory/src/retention.rs; its proofs in Rotation.
-- - Memory/Buffer: feuer-memory/src/buffer.rs, a BufferPool record with the idle buffers of each bucket,
--   the byte counts and the gauges. allocate, drop_buffer (Drop for AlignedBuffer), add_used_bytes,
--   remove_used_bytes and drop_pool are the pool's operations. Buckets has the sizes, Budget the
--   balance of the books, Drain and Charge the freeing of idle buffers, Reuse and Allocate what is
--   handed out, Return what comes back, Lifetime and History any sequence of calls.
-- - Memory/Store: feuer-memory/src/store.rs, with Memory/Store/Shard for store/shard.rs. A shard is a
--   record as in the code; what the shards share, the pool and the metrics, is passed along. Entries,
--   Removal and Remove tie entries and candidates together, Choice and Chosen say what is evicted,
--   Insertion is one attempt, Loop the loop of insert, Books the shared totals, Interleaving any order of
--   attempts and removals by threads, Objects insert and get of the whole cache, Kept what an insertion
--   leaves of it, Shares the split of the capacity.
-- - Storage/Allocation: feuer-storage/src/allocation.rs. The free map of FreeChunks is a sorted map from
--   the start of a run to its length; Storage/Allocation/Allocator has every operation of
--   DiskChunkAllocator and ReservedChunks. Runs, Release and Reserve are about the free map, Canonical
--   is about its form, Ownership, Grants, Holds, Recovered and FirstFit are about single calls,
--   Counts about the payloads of a hold, History about any sequence of calls.
-- - Storage/Layout: the capacity and the number of shards of DiskCache::open in
--   feuer-storage/src/disk_cache.rs, and shard_disk_range of disk_cache/recovery.rs beside it.
-- - Storage/Metadata: the slots of feuer-storage/src/disk_cache/metadata.rs. MetadataChunks has the chunks
--   with their entries, the dirty pages, the start of the search and the count of free slots. Slots and
--   Search are about the search, Changes about storing, Freeing and Growth about the calls they name.
-- - Storage/Metadata/Pages: feuer-storage/src/disk_cache/page_format.rs with the encoding of a chunk in
--   metadata.rs and its decoding in recovery.rs. Bytes is about integers and pieces of bytes, Entries
--   about one entry, Validation about one page, RoundTrip about a chunk.
-- - Storage/Metadata/Recovery: load_metadata_chain of recovery.rs, with the read of a chunk as a
--   parameter. Lengths and Linking are about the chunks that it makes, Chain is about the walk.
-- - Storage/Io: feuer-storage/src/uring.rs. IoRequest and its functions are those of the code; Transfers says
--   what the kernel does with an entry; Serving follows one request over its completions; Padding is
--   about the buffers of a write, Writing has write_padded, Reading has ReadQueue::read, Pieces is
--   about bytes as lists.
-- - Storage/Io/Queue: IoQueue of the same file, with its slots, ring and channel. Slots ties slots to
--   entries, Rounds and Filling are about completions and admissions, Running about any sequence of
--   arrivals and rounds.
-- - Storage/Io/DataFile: feuer-storage/src/file.rs and the errors of feuer-storage/src/error.rs. Contents
--   is about reads and writes, Opening has open_file_state over the answers of the system, and
--   Steps the steps that it does.
-- - Storage/Lookup: the lookups of feuer-storage/src/disk_cache.rs, with the small-entry buffer and the queue
--   of writes that stand beside it. Lookup/Kept is about the bytes that a cache has for a key.
-- - Cache: feuer/src/cache.rs over two tiers that are an interface, with the lookup metrics of
--   feuer/src/metrics.rs. get_cached is Cache::get, get_or_fetch_by_hash is what both get_or_fetch
--   functions call, admit is the end of fetch. Answers compares any calls with the source alone, on top
--   of Coherence; Admission is about one fetch; Tiers fills the interface with the memory cache of
--   Memory/Store and the disk cache of Storage/Lookup. Cache/Config has resolve_config, with
--   feuer/src/config.rs and feuer-utils/src/config.rs, and its proofs in Names and Refusals.
--   Cache/PendingFetches is feuer/src/cache/pending_fetches.rs, and Sharing is about any calls of it.
-- - Storage/WriteAdmission: feuer-storage/src/uring/write_admission.rs, with its proofs in Pacing.
--
-- How it is modelled. A call that holds a lock for its whole body is one step from state to state, and
-- calls of several threads are sequences of such steps. The loop of insert lets its lock go between
-- rounds: Loop, Objects and the tiers take an insertion without other calls between its rounds, and
-- Interleaving takes its attempts in any order with those of others. The last owner of a fetch leaves and takes it
-- out of the registry in one step. A panic is a value (Outcome or none). Numbers
-- are naturals; where 64 bits limit what the code accepts (checked additions, chunk numbers), the limit
-- is written out, as is the limit of memory layouts; and sums of live bytes or chunks are taken to fit, as they count memory and disk
-- space that exists. Subtraction stops at 0.
--
-- Bounds and fuel. The walk over the metadata chunks has a fuel above the number of free chunks: each
-- round but the last takes one. Freeing idle buffers of a bucket has the number of its buffers as fuel,
-- which the loop cannot exceed. The loop of insert has the number of entries in the shard, and one: each
-- round but the last evicts one.
--
-- Parameters. The hash that selects a shard; the scores, as ranks in the total order of floating-point
-- numbers, which may differ between rounds; the checksum; whether the system grants an allocation;
-- the time that a write of some bytes takes at the limited rate; the kernel's part of input and output,
-- which completes the entries it has in any order, with any results, and for a result of some bytes has
-- moved these bytes, and changes nothing outside an entry's range; the answers of the system calls that
-- open a file; the order in which the requests of one read complete is taken as the order in which
-- they were sent, as they fill disjoint ranges of the buffer.
--
-- Not modelled. Bytes and addresses of buffers, and the system calls behind them; registration of
-- metrics; floating-point scores and request counts; eviction from the disk tier and the recovery of
-- its index from the loaded metadata; its writer and the packing of small entries; the admission of reads; the
-- wait of the I/O thread for events, with its errors; the access trace;
-- opening a cache; and the tools.
pub mod Base
pub mod Cache
pub mod Memory
pub mod Storage
