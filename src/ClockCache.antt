-- ===== src/ClockCache.antt =====
-- The cache with the schema and the table storage: src/attribute_cache/clock_cache/mod.rs, `QueryValue` of
-- src/attribute_cache/mod.rs, and `alloc_rid` of src/storage/oid_array.rs. A reference to an entry
-- is its index, a reference to a tuple in the storage is its record id, and a guard is the record
-- id whose word it holds. Only the running call moves between two of its steps.
pub mod View
pub mod Kept
pub mod Leave
pub mod Reads
pub mod Contract
pub mod Fresh
pub mod Insert
pub mod Values
use alchemy.Base.{
  is_some, ℕ, Bool, ◌==◌, if◌then◌else◌, Option, none, some, Result, ok, err, put, ltb,
}
use alchemy.Rid.{Rid, TransactionError}
use alchemy.Oid.{from_rid, to_rid, store_rid, write_loop, write_unlock, try_read, try_write}
use alchemy.Query.{Field, FieldsMeta}
use alchemy.Schema.{Schema, matches}
use alchemy.Clock.{
  ClockNode, CacheInner, Mem, Chance, node, set_entry, set_ref_rng, probe_and_replace_rng, reset,
}
use alchemy.Clock as Inner

-- `ClockCache`: the inner cache with the lock words, and the storage.
pub record ClockCache (S : Schema) : Type 0 where
  pub mem : Mem S.Cached
  pub storage : ℕ → S.Tuple

-- `QueryValue`: the cached item and the tuple that a query found, where it did.
pub record QueryValue : Type 0 where
  pub field : Option ℕ
  pub tuple : Option Rid

abbrev pub query_value : Option ℕ → Option Rid → QueryValue
query_value field tuple = record { field = field; tuple = tuple }

-- The address that `get_value` and `get_value_mut` choose: a field of a cached item or of a
-- tuple; `none` is the failed `expect`.
unfoldable pub address :
    (S : Schema) → QueryValue → Field → Option (Result (ℕ × Field) (Rid × Field))
address S q f = elim (S.to_cached_field f) [
  | none ↦ elim q.tuple [ none ↦ none | some rid ↦ some (err (rid, f)) ]
  | some g ↦ elim q.field [
    | none ↦ elim q.tuple [ none ↦ none | some rid ↦ some (err (rid, f)) ]
    | some i ↦ some (ok (i, g))
  ]
]

-- What a query finds once its record is in the cache: the tuple comes along unless every field of the
-- query is cached.
unfoldable pub found_in_cache : (S : Schema) → FieldsMeta → ℕ → ClockCache S → QueryValue
unfolding matches
found_in_cache S query i s =
    if matches S query
    then query_value (some i) none
    else query_value (some i) (some (s.mem.inner.entries i).rid)

-- `QueryValue::cached_hit` and `QueryValue::has_field`.
unfoldable pub cached_hit : QueryValue → Bool
cached_hit q = is_some q.field

-- `QueryValue::has_tuple`.
unfoldable pub has_tuple : QueryValue → Bool
has_tuple q = is_some q.tuple

module _ {S : Schema} where
  -- `QueryValue::get_value`, with the read through the reference that it returns.
  unfoldable pub get_value : ClockCache S → QueryValue → Field → Option S.Value
  unfolding address
  get_value s q f = elim (address S q f) [
    | none ↦ none
    | some (ok (i, g)) ↦ some (S.load_cached (s.mem.inner.entries i).val g)
    | some (err (rid, g)) ↦ some (S.load_tuple (s.storage rid) g)
  ]

  -- `QueryValue::get_value_mut`, with a write through the reference that it returns.
  unfoldable pub get_value_mut : ClockCache S → QueryValue → Field → S.Value → Option (ClockCache S)
  unfolding address
  get_value_mut s q f v = elim (address S q f) [
    | none ↦ none
    | some (ok (i, g)) ↦
        let entry = s.mem.inner.entries i in
        let entry' = record entry { val = S.store_cached entry.val g v } in
        some (record s { mem = record s.mem { inner = set_entry s.mem.inner i entry' } })
    | some (err (rid, g)) ↦
        some (record s { storage = put s.storage rid (S.store_tuple (s.storage rid) g v) })
  ]

  abbrev pub set_word : ClockCache S → Rid → ℕ → ClockCache S
  set_word s rid word = record s { mem = record s.mem { oids = put s.mem.oids rid word } }

  -- `OidArray::alloc_rid`, from what `HeapArray::append` returns: `none` is the failed `expect`, or
  -- a loop of `write` that has not returned in the rounds given.
  unfoldable pub alloc_rid :
      (appended : Option ℕ) (rounds : ℕ) (spurious : ℕ → Bool)
      → ClockCache S
      → Option (Rid × ClockCache S)
  unfolding from_rid
  alloc_rid none rounds spurious s = none
  alloc_rid (some rid) rounds spurious s =
      let oid = from_rid 0 in
      elim (write_loop rounds (λ _. oid) spurious oid) [
        | none ↦ none
        | some word ↦ some (rid, set_word s rid (store_rid rid word))
      ]

  -- The evicted item goes back to its tuple, and its guard is dropped.
  unfoldable pub write_back_evicted :
      Option (ClockNode S.Cached × Rid) → ClockCache S → ClockCache S
  write_back_evicted none s = s
  write_back_evicted (some (old, e)) s =
      let s' = record s {
        storage = put s.storage old.rid (S.write_back old.val (s.storage old.rid));
      } in
      set_word s' e (write_unlock (s'.mem.oids e))

  -- The end of `insert`, from what the inner cache evicts; `none` is its failed assertion.
  unfoldable pub finish_insert :
      (rid : Rid) (val : S.Tuple)
      → ClockCache S
      → Option (Option (ClockNode S.Cached × Rid) × Mem S.Cached)
      → Option (Rid × ClockCache S)
  unfolding write_back_evicted
  finish_insert rid val s none = none
  finish_insert rid val s (some (evicted, mem)) =
      let s' = write_back_evicted evicted (record s { mem = mem }) in
      some (rid, record s' { storage = put s'.storage rid val })

  -- `insert` with the record allocated.
  unfoldable pub insert_at :
      (chance : ℕ → Chance) (val : S.Tuple)
      → Option (Rid × ClockCache S)
      → Option (Rid × ClockCache S)
  unfolding Inner.insert finish_insert
  insert_at chance val none = none
  insert_at chance val (some (rid, s)) =
      finish_insert rid val s (Inner.insert rid (S.to_cached val) chance s.mem)

  -- `ClockCache::insert`: the record id, whose write guard the caller gets.
  unfoldable pub insert :
      (appended : Option ℕ) (rounds : ℕ) (spurious : ℕ → Bool) (chance : ℕ → Chance)
      → S.Tuple
      → ClockCache S
      → Option (Rid × ClockCache S)
  unfolding alloc_rid insert_at
  insert appended rounds spurious chance val s =
      insert_at chance val (alloc_rid appended rounds spurious s)

  -- The match on what the inner cache finds, which `read` and `read_and_promote` begin with.
  unfoldable pub after_read :
      FieldsMeta
      → ClockCache S
      → (miss : Rid → ClockCache S → QueryValue × ClockCache S) → Result ℕ Rid × Mem S.Cached
      → QueryValue × ClockCache S
  unfolding found_in_cache
  after_read query s miss (ok i, mem) =
      let s' : ClockCache S = record s { mem = mem } in (found_in_cache S query i s', s')
  after_read query s miss (err rid, mem) = miss rid (record s { mem = mem })

  -- `ClockCache::read`, with the dice for the reference bit.
  unfoldable pub read :
      (roll : Bool) (oid : Rid) → FieldsMeta → ClockCache S → QueryValue × ClockCache S
  unfolding Inner.read after_read
  read roll oid query s =
      after_read query s (λ rid s'. (query_value none (some rid), s')) (Inner.read roll oid s.mem)

  -- The end of `read_and_promote`: what the probes gave.
  unfoldable pub after_probe :
      (ref_roll : Bool) (tuple_rid : Rid)
      → FieldsMeta
      → ClockCache S
      → Option (ℕ × Option (ClockNode S.Cached × Rid)) × Mem S.Cached
      → QueryValue × ClockCache S
  unfolding write_back_evicted found_in_cache set_ref_rng
  after_probe ref_roll tuple_rid query s (none, mem) =
      (query_value none (some tuple_rid), record s { mem = mem })
  after_probe ref_roll tuple_rid query s (some (new_loc, evicted), mem) =
      let entry = set_ref_rng ref_roll (mem.inner.entries new_loc) in
      let mem' = record mem { inner = set_entry mem.inner new_loc entry } in
      let s' = write_back_evicted evicted (record s { mem = mem' }) in
      (found_in_cache S query new_loc s', s')

  -- The rest of `read_and_promote` after a miss.
  unfoldable pub promote :
      (roll ref_roll : Bool) (chance : ℕ → Chance) (oid tuple_rid : Rid)
      → FieldsMeta
      → ClockCache S
      → QueryValue × ClockCache S
  unfolding probe_and_replace_rng after_probe
  promote roll ref_roll chance oid tuple_rid query s =
      if s.mem.inner.probe_len == 0
      then (query_value none (some tuple_rid), s)
      else let new_node = node (S.to_cached (s.storage tuple_rid)) tuple_rid in
        after_probe ref_roll tuple_rid query s
          (probe_and_replace_rng roll new_node tuple_rid oid chance s.mem)

  -- `ClockCache::read_and_promote`, with the dice for the reference bit of an entry that is found, for the
  -- probes, and for the reference bit of the new entry.
  unfoldable pub read_and_promote :
      (roll0 roll ref_roll : Bool) (chance : ℕ → Chance) (oid : Rid)
      → FieldsMeta
      → ClockCache S
      → QueryValue × ClockCache S
  unfolding Inner.read after_read promote
  read_and_promote roll0 roll ref_roll chance oid query s =
      after_read query s
        (λ rid s'. promote roll ref_roll chance oid (to_rid (s'.mem.oids oid)) query s')
        (Inner.read roll0 oid s.mem)

  -- `ClockCache::read_lock`, and `read_lock_sync`: `val` is the word that is loaded, the exchange
  -- finds what the memory holds.
  unfoldable pub read_lock :
      (rid : Rid) (val : ℕ) (spurious : Bool)
      → ClockCache S
      → Result (Unit {0}) TransactionError × ClockCache S
  unfolding try_read
  read_lock rid val spurious s =
      let (verdict, word) = try_read val (s.mem.oids rid) spurious in (verdict, set_word s rid word)

  -- `ClockCache::write_lock`, and `write_lock_sync`.
  unfoldable pub write_lock :
      (rid : Rid) (val : ℕ) (spurious : Bool)
      → ClockCache S
      → Result (Unit {0}) TransactionError × ClockCache S
  unfolding try_write
  write_lock rid val spurious s =
      let (verdict, word) = try_write val (s.mem.oids rid) spurious in
      (verdict, set_word s rid word)

  -- `ClockCache::reset`: `OidArray::reset` clears the words. The links that the heap then writes into
  -- them, while no record exists, are left out.
  unfoldable pub reset_cache : (words : ℕ) → ClockCache S → ClockCache S
  unfolding reset
  reset_cache words s = record s {
    mem = record { inner = reset s.mem.inner; oids = λ r. if ltb r words then 0 else s.mem.oids r };
  }
