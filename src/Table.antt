-- ===== src/Table.antt =====
-- Tables: `DbTable` and its builder in src/table.rs. The index is behind the trait `DbIndex` of
-- src/index/mod.rs, whose implementations call libraries; it is a parameter here.
pub mod Rows
pub mod Builder
pub mod Range
pub mod Locks
pub mod Pages
pub mod Sessions
use alchemy.Base.{ℕ, ◌/◌, Bool, Option, none, some, Result, ok, err}
use alchemy.Rid.{Rid, TransactionError, index_not_found}
use alchemy.Query.{FieldsMeta}
use alchemy.Schema.{Schema}
use alchemy.Clock.{CacheInner, Mem, Chance}
use alchemy.Clock as Inner
use alchemy.ClockCache.{ClockCache, QueryValue, read_lock, write_lock, reset_cache}
use alchemy.ClockCache as Cache

-- What a table calls of `DbIndex`.
pub record DbIndex : Type 1 where
  pub Index : Type 0
  pub with_capacity : ℕ → Index
  pub new : Index
  pub get : Index → ℕ → Option Rid
  pub insert : Index → ℕ → Rid → Index

-- `DbTable`.
pub record DbTable (I : DbIndex) (S : Schema) : Type 0 where
  pub cache : ClockCache S
  pub index : I.Index

-- `DbTableBuilder`, less the probability of a probe and the metrics.
pub record DbTableBuilder (I : DbIndex) (S : Schema) : Type 0 where
  pub cache_size : Option ℕ
  pub storage_size : Option ℕ
  pub probe_len : Option ℕ
  pub index : Option I.Index
  pub schema : Option (Unit {0})

-- The record whose guard was taken, or the error of the lock.
abbrev pub guard_of : Result (Unit {0}) TransactionError → Rid → Result Rid TransactionError
guard_of (ok _) rid = ok rid
guard_of (err e) rid = err e

module _ {I : DbIndex} {S : Schema} where
  -- `DbTableBuilder::new`.
  abbrev pub new_builder : DbTableBuilder I S
  new_builder = record {
    cache_size = none;
    storage_size = none;
    probe_len = none;
    index = none;
    schema = none;
  }

  -- `DbTableBuilder::build`, with the sizes of a node and of a tuple in bytes, and what the
  -- fresh memory holds; `none` is a failed `expect` or assertion.
  unfoldable pub build :
      (node_size tuple_size : ℕ) (zeroed : S.Cached) (oids : ℕ → ℕ) (storage : ℕ → S.Tuple)
      → DbTableBuilder I S
      → Option (DbTable I S)
  unfolding Inner.new
  build node_size tuple_size zeroed oids storage b = elim b.cache_size [
    | none ↦ none
    | some cache_size ↦
        let probe : ℕ = elim b.probe_len [ none ↦ 6 | some n ↦ n ] in
        elim b.storage_size [
          | none ↦ none
          | some storage_size ↦
              let index : I.Index = elim b.index [
                | none ↦ I.with_capacity (storage_size / tuple_size)
                | some i ↦ i
              ] in
              elim b.schema [
                | none ↦ none
                | some _ ↦ elim (Inner.new cache_size probe node_size zeroed) [
                  | none ↦ none
                  | some inner ↦ some (record {
                    cache = record {
                      mem = record { inner = inner; oids = oids };
                      storage = storage;
                    };
                    index = index;
                  })
                ]
              ]
        ]
  ]

  -- `DbTable::reset`.
  unfoldable pub reset_table : (words : ℕ) → DbTable I S → DbTable I S
  unfolding reset_cache
  reset_table words t = record { cache = reset_cache words t.cache; index = I.new }

  -- `DbTable::insert`.
  unfoldable pub insert :
      (appended : Option ℕ) (rounds : ℕ) (spurious : ℕ → Bool) (chance : ℕ → Chance)
      → S.Tuple
      → DbTable I S
      → Option (Rid × DbTable I S)
  unfolding Cache.insert
  insert appended rounds spurious chance tuple t =
      let key = S.key tuple in
      elim (Cache.insert appended rounds spurious chance tuple t.cache) [
        | none ↦ none
        | some (rid, cache) ↦ some (rid, record { cache = cache; index = I.insert t.index key rid })
      ]

  -- `DbTable::read`.
  unfoldable pub read :
      (roll : Bool) (oid : Rid) → FieldsMeta → DbTable I S → QueryValue × DbTable I S
  unfolding Cache.read
  read roll oid query t =
      let (q, cache) = Cache.read roll oid query t.cache in (q, record t { cache = cache })

  -- `DbTable::read_and_promote`.
  unfoldable pub read_and_promote :
      (roll0 roll ref_roll : Bool) (chance : ℕ → Chance) (oid : Rid)
      → FieldsMeta
      → DbTable I S
      → QueryValue × DbTable I S
  unfolding Cache.read_and_promote
  read_and_promote roll0 roll ref_roll chance oid query t =
      let (q, cache) = Cache.read_and_promote roll0 roll ref_roll chance oid query t.cache in
      (q, record t { cache = cache })

  -- `DbTable::read_oid`, and `read_oid_sync`: the record whose read guard is taken.
  unfoldable pub read_oid :
      (key val : ℕ) (spurious : Bool) → DbTable I S → Result Rid TransactionError × DbTable I S
  unfolding read_lock
  read_oid key val spurious t = elim (I.get t.index key) [
    | none ↦ (err index_not_found, t)
    | some idx ↦
        let (verdict, cache) = read_lock idx val spurious t.cache in
        (guard_of verdict idx, record t { cache = cache })
  ]

  -- `DbTable::write_oid`, and `write_oid_sync`.
  unfoldable pub write_oid :
      (key val : ℕ) (spurious : Bool) → DbTable I S → Result Rid TransactionError × DbTable I S
  unfolding write_lock
  write_oid key val spurious t = elim (I.get t.index key) [
    | none ↦ (err index_not_found, t)
    | some idx ↦
        let (verdict, cache) = write_lock idx val spurious t.cache in
        (guard_of verdict idx, record t { cache = cache })
  ]

  -- `DbTable::lock_rid_r`.
  unfoldable pub lock_rid_r :
      (rid val : ℕ) (spurious : Bool)
      → DbTable I S
      → Result (Unit {0}) TransactionError × DbTable I S
  unfolding read_lock
  lock_rid_r rid val spurious t =
      let (verdict, cache) = read_lock rid val spurious t.cache in
      (verdict, record t { cache = cache })

  -- `DbTable::lock_rid_w`.
  unfoldable pub lock_rid_w :
      (rid val : ℕ) (spurious : Bool)
      → DbTable I S
      → Result (Unit {0}) TransactionError × DbTable I S
  unfolding write_lock
  lock_rid_w rid val spurious t =
      let (verdict, cache) = write_lock rid val spurious t.cache in
      (verdict, record t { cache = cache })
