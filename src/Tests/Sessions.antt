-- ===== src/Tests/Sessions.antt =====
-- A table with the heap of its lock words at concrete inputs.
use alchemy.Base.{ℕ, ◌+◌, ◌<◌, ◌≡◌, ◌≢◌, refl, arith, Bool, true, false, Option, none, some, put}
use alchemy.Rid.{Rid}
use alchemy.Oid.{from_rid}
use alchemy.Alloc.{Memory, new, link, alloc, alloc_tls, pop}
use alchemy.Alloc.Heap.{
  HeapArray, Outcome, new_heap, append, append_loop, get_tls_allocator, new_arena, ptr_to_index,
  index_to_ptr, capacity,
}
use alchemy.Alloc.Slots.Reached.{Reach, start, appended, append-fresh}
use alchemy.Tests.Cache.{schema, laws, chance, query}
use alchemy.Tests.Storage.{function_index, function_index-laws, table}
use alchemy.FieldItem.Laws.{IsWordField}
use alchemy.Clock.{Chance}
use alchemy.Query.{field}
use alchemy.ClockCache.{get_value}
use alchemy.Clock as Clock
use alchemy.Table.{DbTable, DbTableBuilder, build}
use alchemy.Table as Table
use alchemy.Table.Rows.{row}
use alchemy.Table.Sessions.{Session, Run, opened, inserted}
use alchemy.Table.Sessions.Rows.{row-Run, insert-Run, get_value-Run}

abbrev pair_of : Option (HeapArray × Memory) → HeapArray × Memory
pair_of (some x) = x
pair_of none = (
  record {
    arena_len = 0;
    elem_size = 0;
    elem_align = 0;
    heap = record { cap = 0; start = 0; size = 0; list_node = 0 };
    tls_mapping = λ _. none;
  },
  λ _. 0,
)

-- Two arenas of two lock words at address 64.
abbrev made : HeapArray × Memory
made = pair_of (new_heap 2 8 8 2 64 (λ _. 0))

made_heap : new_heap 2 8 8 2 64 (λ _. 0) ≡ some made
unfolding new_heap new link
made_heap = refl

abbrev heap_of : Option (Outcome ℕ) → ℕ × HeapArray × Memory
heap_of (some (Outcome.done index h m)) = (index, h, m)
heap_of _ = (99, made.0, made.1)

abbrev first : ℕ × HeapArray × Memory
first = heap_of (append 2 7 0 made.0 made.1)

first_append : append 2 7 0 made.0 made.1 ≡ some (Outcome.done first.0 first.1 first.2)
unfolding new_heap new link append append_loop get_tls_allocator new_arena alloc alloc_tls pop
    ptr_to_index
first_append = refl

-- Another thread.
abbrev second : ℕ × HeapArray × Memory
second = heap_of (append 2 8 5 first.1 first.2)

second_append : append 2 8 5 first.1 first.2 ≡ some (Outcome.done second.0 second.1 second.2)
unfolding new_heap new link append append_loop get_tls_allocator new_arena alloc alloc_tls pop
    ptr_to_index
second_append = refl

made-Reach : Reach made.0 made.1 (λ _. false)
made-Reach = start 2 8 8 2 64 (λ _. 0) (omega arith) (omega arith) (omega arith) made_heap

append-fresh_example :
    (put (λ _. false) first.0 true second.0 ≡ false)
    × (second.0 < capacity first.1)
    × (second.2 (index_to_ptr first.1 second.0) ≡ 5)
    × ((i : ℕ)
        → put (λ _. false) first.0 true i ≡ true
        → second.2 (index_to_ptr first.1 i) ≡ first.2 (index_to_ptr first.1 i))
append-fresh_example =
    append-fresh first.1 second.1 first.2 second.2 (put (λ _. false) first.0 true) 2 8 5 second.0
      (appended 2 7 0 first.0 made-Reach first_append) second_append

-- A builder of a cache of one slot, with an index that is given.
abbrev builder : DbTableBuilder function_index schema
builder = record {
  cache_size = some 16;
  storage_size = some 1024;
  probe_len = some 4;
  index = some (λ _. none);
  schema = some tt;
}

abbrev table_of : Option (DbTable function_index schema) → DbTable function_index schema
table_of (some t) = t
table_of none = table

abbrev new_table : DbTable function_index schema
new_table = table_of (build 16 64 (λ _. 0) (λ _. 0) (λ _ _. 0) builder)

new_table_built : build 16 64 (λ _. 0) (λ _. 0) (λ _ _. 0) builder ≡ some new_table
unfolding build Clock.new Clock.new_cap
new_table_built = refl

abbrev empty_session : Session function_index schema
empty_session = record { table = new_table; heap = made.0; words = made.1 }

opened_run : Run IsWordField empty_session (λ _. none)
unfolding build Clock.new Clock.new_cap new_heap new link capacity
opened_run =
    opened 16 64 (λ _. 0) (λ _. 0) (λ _ _. 0) builder new_table_built (omega arith) (λ key. refl)
      made-Reach (omega arith)

append_zero : append 2 7 (from_rid 0) made.0 made.1 ≡ some (Outcome.done first.0 first.1 first.2)
unfolding from_rid
append_zero = first_append

-- The tuple 30, 31, ... under the key 30.
abbrev tuple_30 : ℕ → ℕ
tuple_30 k = 30 + k

insert-Run_example :
    (t : DbTable function_index schema) × (Table.insert
        (some first.0)
        2
        (λ _. false)
        chance
        tuple_30
        new_table
      ≡ some (first.0, t))
    × (row t 30 ≡ some tuple_30)
    × ((key : ℕ) → 30 ≢ key → row t key ≡ row new_table key)
insert-Run_example =
    insert-Run function_index-laws laws empty_session (λ _. none) 2 7 first.0 0 (λ _. false) chance
      tuple_30 first.1 first.2 opened_run append_zero refl

abbrev entry_of : Option (Rid × DbTable function_index schema) → Rid × DbTable function_index schema
entry_of (some x) = x
entry_of none = (99, new_table)

abbrev inserted_table : Rid × DbTable function_index schema
inserted_table = entry_of (Table.insert (some first.0) 2 (λ _. false) chance tuple_30 new_table)

some-entry :
    (o : Option (Rid × DbTable function_index schema)) (x : Rid × DbTable function_index schema)
    → o ≡ some x
    → o ≡ some (entry_of o)
some-entry (some y) x e = refl
some-entry none x e = cc (e)

was_inserted :
    Table.insert (some first.0) 2 (λ _. false) chance tuple_30 new_table ≡ some inserted_table
was_inserted = some-entry _ _ insert-Run_example.1

abbrev session : Session function_index schema
session = record { table = inserted_table.1; heap = first.1; words = first.2 }

session_run : Run IsWordField session (put (λ _. none) 30 (some tuple_30))
session_run =
    inserted 2 7 first.0 0 (λ _. false) chance tuple_30 inserted_table.0 opened_run append_zero refl
      was_inserted

row-Run_example : row session.table 30 ≡ some tuple_30
row-Run_example =
    row-Run function_index-laws laws session (put (λ _. none) 30 (some tuple_30)) session_run 30

indexed : function_index.get session.table.index 30 ≡ some first.0
unfolding Table.insert alchemy.Oid.write_loop alchemy.Oid.is_rid append new_heap
    alchemy.Oid.store_rid
indexed = refl

get_value-Run_example :
    (tuple : ℕ → ℕ) × (put (λ _. none) 30 (some tuple_30) 30 ≡ some tuple)
    × ((roll : Bool)
        → get_value
            (Table.read roll first.0 query session.table).1.cache
            (Table.read roll first.0 query session.table).0
            (field 24 32)
          ≡ some (schema.load_tuple tuple (field 24 32)))
    × ((roll0 roll ref_roll : Bool) (chances : ℕ → Chance)
        → (let (q, t) =
              Table.read_and_promote roll0 roll ref_roll chances first.0 query session.table in
            get_value t.cache q (field 24 32) ≡ some (schema.load_tuple tuple (field 24 32))))
get_value-Run_example =
    get_value-Run function_index-laws laws session (put (λ _. none) 30 (some tuple_30)) 30 first.0
      query 0 (field 24 32) session_run indexed refl (refl, refl)
