-- ===== src/Tests/Storage.antt =====
-- The allocators and the tables at concrete inputs.
use alchemy.Base.{
  ℕ, ◌+◌, ◌≤◌, ◌≡◌, arith, true, Option, none, some, [], ◌∷◌, ◌++◌, if◌then◌else◌, is_some, put,
  ◌==◌,
}
use alchemy.Rid.{Rid}
use alchemy.Alloc.{Memory, ArrayAllocator, new}
use alchemy.Alloc.FreeList.{down_from, alloc_all, alloc_all-new}
use alchemy.Alloc.Heap.{HeapArray, append}
use alchemy.Alloc.Append.{append-ends}
use alchemy.Table.{DbIndex, DbTable}
use alchemy.Table.Rows.{IndexLaws}
use alchemy.Table.Pages.{InsertonlyTable, contents, insert, insert-contents, get_tls_page}
use alchemy.Tests.Cache.{schema, cache}

-- Four blocks of 16 bytes at address 64.
alloc_all-new_example :
    (a : ArrayAllocator) × (m' : Memory) × (new 4 64 16 8 (λ _. 0) ≡ some (a, m'))
    × ((alloc_all 5 a m').0 ≡ down_from 4)
alloc_all-new_example = alloc_all-new 4 64 16 8 (λ _. 0) (omega arith) (omega arith) (omega arith)

abbrev two_free : ArrayAllocator
two_free = record { cap = 4; start = 64; size = 16; list_node = 80 }

abbrev links : Memory
links a = if a == 80 then 64 else 0

abbrev heap : HeapArray
heap = record {
  arena_len = 2;
  elem_size = 8;
  elem_align = 8;
  heap = two_free;
  tls_mapping = λ _. none;
}

append-ends_example : is_some (append 2 7 5 heap links) ≡ true
append-ends_example = append-ends 7 5 heap links (omega arith, omega arith)

-- An index that is a function.
abbrev pub function_index : DbIndex
function_index = record {
  Index = ℕ → Option Rid;
  with_capacity = λ _ _. none;
  new = λ _. none;
  get = λ index key. index key;
  insert = λ index key rid. put index key (some rid);
}

pub function_index-laws : IndexLaws function_index
function_index-laws = record {
  get-insert_self = λ index key rid. ground arith;
  get-insert_other = λ index key key' rid ne. ground arith;
}

abbrev pub table : DbTable function_index schema
table = record { cache = cache; index = λ key. if key == 10 then some 1 else none }

-- A page of two tuples that is full.
abbrev full_page : InsertonlyTable ℕ
full_page = record {
  storage = two_free;
  links = links;
  tls_page = some (record { next = 2; cells = λ i. 10 + i });
  copied = [];
}

insert-contents_example :
    (t' : InsertonlyTable ℕ) × (insert 2 0 12 full_page ≡ some t')
    × (contents 2 0 t' ≡ contents 2 0 full_page ++ (12 ∷ []))
    × ((get_tls_page 0 t').next ≤ 2)
unfolding get_tls_page
insert-contents_example =
    insert-contents 2 0 12 full_page (omega arith) (omega arith) (λ e. λ z. absurd (omega arith))
