-- ===== src/Table/Sessions.antt =====
-- Sequences of calls of a table (src/table.rs) with the heap of its lock words (src/storage/oid_array.rs), on which
-- `insert` allocates. The lock words of the records are those of the cache; of the heap's memory
-- only the free slots matter.
pub mod Words
pub mod Agree
pub mod Opened
pub mod Inserted
pub mod Refine
pub mod Rows
use alchemy.Base.{
  ◌≢◌, ℕ, suc, ◌/◌, ◌^◌, ◌<◌, ◌≤◌, ◌≡◌, Bool, true, false, Option, none, some, Result, put,
  get_elem?,
}
use alchemy.Rid.{Rid, TransactionError, sentinel}
use alchemy.Oid.{from_rid, has_lock, write_locked, read_unlock, write_unlock}
use alchemy.Query.{Field, FieldsMeta}
use alchemy.Schema.{Schema}
use alchemy.Clock.{Chance}
use alchemy.ClockCache.{ClockCache, QueryValue, get_value_mut, set_word}
use alchemy.Alloc.{Memory}
use alchemy.Alloc.Heap.{HeapArray, Outcome, append, capacity}
use alchemy.Alloc.Slots.Reached.{Reach}
use alchemy.Table.{
  DbIndex, DbTable, DbTableBuilder, build, insert, read, read_and_promote, read_oid, write_oid,
}

-- A table with the heap of its lock words.
pub record Session (I : DbIndex) (S : Schema) : Type 0 where
  pub table : DbTable I S
  pub heap : HeapArray
  pub words : Memory

module _ {I : DbIndex} {S : Schema} where
  abbrev pub with_table : Session I S → DbTable I S → Session I S
  with_table s t = record s { table = t }

  abbrev pub with_cache : Session I S → ClockCache S → Session I S
  with_cache s c = record s { table = record s.table { cache = c } }

  -- The states that calls lead to from a new table with an empty index, and the tuples that its client
  -- expects under the keys: those that were inserted last, with the fields that were written since. The client reads and
  -- writes the record that the index has under a key.
  pub data Run (proper : Field → Type 0) : Session I S → (ℕ → Option S.Tuple) → Type 0 where
    opened :
        (node_size tuple_size : ℕ) (zeroed : S.Cached) (oids : ℕ → ℕ) (storage : ℕ → S.Tuple)
        (b : DbTableBuilder I S) {t : DbTable I S} {h : HeapArray} {m : Memory}
        → build node_size tuple_size zeroed oids storage b ≡ some t
        → t.cache.mem.inner.capacity ≢ 0
        → ((key : ℕ) → I.get t.index key ≡ none)
        → Reach h m (λ _. false)
        → capacity h ≤ sentinel
        → Run proper (record { table = t; heap = h; words = m }) (λ _. none)
    inserted :
        (fuel thread_id index rounds : ℕ) (spurious : ℕ → Bool) (chance : ℕ → Chance)
        (tuple : S.Tuple) (rid : Rid) {s : Session I S} {spec : ℕ → Option S.Tuple}
        {t : DbTable I S} {h : HeapArray} {m : Memory}
        → Run proper s spec
        → append fuel thread_id (from_rid 0) s.heap s.words ≡ some (Outcome.done index h m)
        → spurious (suc rounds) ≡ false
        → insert (some index) (suc (suc rounds)) spurious chance tuple s.table ≡ some (rid, t)
        → Run proper
            (record { table = t; heap = h; words = m })
            (put spec (S.key tuple) (some tuple))
    read_guard :
        (key val : ℕ) (spurious : Bool) (r : Result Rid TransactionError) {s : Session I S}
        {spec : ℕ → Option S.Tuple} {t : DbTable I S}
        → Run proper s spec
        → read_oid key val spurious s.table ≡ (r, t)
        → Run proper (with_table s t) spec
    write_guard :
        (key val : ℕ) (spurious : Bool) (r : Result Rid TransactionError) {s : Session I S}
        {spec : ℕ → Option S.Tuple} {t : DbTable I S}
        → Run proper s spec
        → write_oid key val spurious s.table ≡ (r, t)
        → Run proper (with_table s t) spec
    drop_read :
        (rid : Rid) {s : Session I S} {spec : ℕ → Option S.Tuple}
        → Run proper s spec
        → has_lock (s.table.cache.mem.oids rid) ≡ true
        → write_locked (s.table.cache.mem.oids rid) ≡ false
        → Run proper
            (with_cache s (set_word s.table.cache rid (read_unlock (s.table.cache.mem.oids rid))))
            spec
    drop_write :
        (rid : Rid) {s : Session I S} {spec : ℕ → Option S.Tuple}
        → Run proper s spec
        → write_locked (s.table.cache.mem.oids rid) ≡ true
        → Run proper
            (with_cache s (set_word s.table.cache rid (write_unlock (s.table.cache.mem.oids rid))))
            spec
    reads :
        (roll : Bool) (key : ℕ) (rid : Rid) (query : FieldsMeta) (q : QueryValue) {s : Session I S}
        {spec : ℕ → Option S.Tuple} {t : DbTable I S}
        → Run proper s spec
        → I.get s.table.index key ≡ some rid
        → read roll rid query s.table ≡ (q, t)
        → Run proper (with_table s t) spec
    promotes :
        (roll0 roll ref_roll : Bool) (chance : ℕ → Chance) (key : ℕ) (rid : Rid)
        (query : FieldsMeta) (q : QueryValue) {s : Session I S} {spec : ℕ → Option S.Tuple}
        {t : DbTable I S}
        → Run proper s spec
        → I.get s.table.index key ≡ some rid
        → read_and_promote roll0 roll ref_roll chance rid query s.table ≡ (q, t)
        → Run proper (with_table s t) spec
    writes :
        (roll0 roll ref_roll : Bool) (chance : ℕ → Chance) (key : ℕ) (rid : Rid)
        (query : FieldsMeta) (q : QueryValue) (i : ℕ) (f : Field) (v : S.Value) (tuple : S.Tuple)
        {s : Session I S} {spec : ℕ → Option S.Tuple} {t : DbTable I S} {c : ClockCache S}
        → Run proper s spec
        → I.get s.table.index key ≡ some rid
        → read_and_promote roll0 roll ref_roll chance rid query s.table ≡ (q, t)
        → get_elem? query i ≡ some f
        → proper f
        → get_value_mut t.cache q f v ≡ some c
        → spec key ≡ some tuple
        → Run proper (with_cache (with_table s t) c) (put spec key (some (S.store_tuple tuple f v)))
