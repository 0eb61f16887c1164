-- ===== src/Lib.antt =====
-- alchemy is a storage engine that keeps the hot fields of records in a cache in front of a
-- table storage. A record has an id, and a lock word that holds the id or, while the record is cached,
-- the index of its cache entry. The files stand for these parts of the program:
--
-- - Rid, Oid, Oid/*: record ids and errors (src/attribute_cache/mod.rs, src/error.rs), and the lock
--   word `LockedOid` with its guards (src/attribute_cache/clock_cache/oid.rs). Each method is a
--   function of the words that it loads and finds. Oid/Threads runs any number of threads on one
--   word, one access at a time: `Pc` says between which two accesses a thread stands, `Move` is an
--   access, and `Reach` the states that some interleaving leads to.
-- - NodeMeta, NodeMeta/*: the word of a cache entry (src/attribute_cache/clock_cache/node_meta.rs).
-- - Clock, Clock/*: the cache below the schema (src/attribute_cache/clock_cache/cache_inner.rs):
--   `CacheInner` with the clock hand, `probe`, `evict`, `probe_and_replace_rng`, `insert`, `read`.
-- - Query, Query/*: fields and update queries (src/query.rs).
-- - Schema, Schema/*: the traits `Schema` and `Tuple` (src/attribute_cache/mod.rs,
--   src/macro_utils/src/tuple.rs) as a record, with
--   the laws that the cache relies on.
-- - ClockCache, ClockCache/*: the cache with schema and storage
--   (src/attribute_cache/clock_cache/mod.rs), `QueryValue` (src/attribute_cache/mod.rs) and
--   `alloc_rid` (src/storage/oid_array.rs). `view` is the tuple that a record has, wherever its
--   newest fields are; `Kept` says that a call changes no view.
-- - FieldItem, FieldItem/*: the schema of words in src/utils/test_gen.rs.
-- - Alloc, Alloc/*: the allocators of src/utils/obj_alloc.rs on memory addressed by word. `Owner`
--   says who owns a slot of a `HeapArray`: the heap, a list of a thread, or a caller; `Reach` is the states
--   that calls of any threads lead to. Alloc/Race runs `alloc` of `ArrayAllocator` by any number of
--   threads, one access to the shared memory at a time; `dealloc` is one step there.
-- - Table, Table/*: `DbTable`, its builder, and `InsertonlyTable` (src/table.rs). The index
--   (src/index/mod.rs), which calls libraries, is a parameter with the law of a map. In Table/Sessions, `Run` is the
--   states that sequences of calls of a table lead to, with the allocator of its lock words
--   (src/storage/oid_array.rs), and the rows that a client expects.
-- - Logger, Logger/*: the logger (src/log/mod.rs), its offsets and the bytes in its buffers and file.
-- - Mmap, Mmap/*: the mapping of files (src/utils/mmap.rs). The calls of the operating system are
--   the parameter `Os`, a record of functions of a state of the system.
-- - PmHeap, PmHeap/*: the heap of frames (src/storage/pm_heap.rs), each a mapped file.
-- - Task, Task/*: futures, `block_on` and the executor (src/async_task/mod.rs), with the futures of
--   src/async_task/prefetcher.rs and src/async_task/task_switcher.rs. A future is its poll; a queue of
--   `n` slots is polled round and round, and `Takes` says how many polls a future is pending for.
-- - Metric, Metric/*: the recorders of a thread and their sums (src/metric/src).
-- - Tpcc, Tpcc/*: of the TPC-C benchmark (src/benchmark/src/tpcc), the keys of the tables (tables.rs),
--   the transactions `new_order` and `delivery` (query/new_order.rs, query/delivery.rs) on tables that are
--   maps from keys to rows, where what a range scan finds is a parameter, the
--   choice of transactions (config.rs), the results of a run (txn_result.rs), and the names of
--   customers (src/benchmark/src/utils.rs). What a lock attempt meets is the argument `busy`, and a
--   draw is an argument.
-- - Map: hash maps as lists of entries, for Metric and PmHeap.
-- - Backoff: src/utils/backoff.rs.
-- - Tests: the theorems listed below that have hypotheses, at concrete inputs.
-- - Base, Base/*: numbers, tests, families of cells, bits and lists.
--
-- A table asks its index for a record id, takes the guard of the record's word, and calls the cache;
-- the cache moves records between its entries and the storage under the write guards of both records.
--
-- Numbers are natural numbers with the wrap-around of machine words written out. Random draws, weak
-- exchanges that fail for no reason, and what other threads write between a load and an exchange are
-- arguments. Outside Oid/Threads and Alloc/Race one call runs at a time. A spinning loop takes a number of rounds, and a
-- theorem says how many are enough; the loops over fields, entries and probes are structural, and two
-- rounds are enough for `append`, since an arena that has just been taken has room.
--
-- The executor is given rounds of its loop; as many as `n` for each poll of a task are enough.
--
-- Not modelled: the prefetch instruction and the non-temporal copies; the indexes, which call
-- libraries; the macros, but for the body of `update` that they give a tuple; of src/benchmark, the micro benchmark, loading, the schemas, the random inputs and
-- the transactions `payment`, `order_status` and `stock_level`. Debug assertions are left out, as in a release
-- build.
pub mod Base
pub mod Rid
pub mod Oid
pub mod NodeMeta
pub mod Clock
pub mod Query
pub mod Schema
pub mod ClockCache
pub mod FieldItem
pub mod Alloc
pub mod Table
pub mod Logger
pub mod Backoff
pub mod Tests
pub mod Task
pub mod Metric
pub mod Map
pub mod Mmap
pub mod PmHeap
pub mod Tpcc
