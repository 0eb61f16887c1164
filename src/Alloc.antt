-- ===== src/Alloc.antt =====
-- The allocators of src/utils/obj_alloc.rs. Memory is the family of its words by address; a free block
-- holds the address of the next one, and 0 is the null pointer. Here only the running call moves between two
-- of its steps, so the strong exchange of `alloc` succeeds, and the loop of `dealloc` ends in its first round
-- whose weak exchange does not fail for no reason. Alloc/Race lets other threads move in between.
pub mod FreeList
pub mod Heap
pub mod Append
pub mod Oids
pub mod Race
pub mod Chain
pub mod Owners
pub mod Pop
pub mod Grow
pub mod Slots
use alchemy.Base.{
  ℕ, zero, suc, ◌+◌, ◌-◌, ◌*◌, ◌/◌, ◌%◌, ◌^◌, bit_and, Bool, true, false, ◌&&◌, Option, none, some,
  Result, ok, err, put, leb, ◌==◌, if◌then◌else◌,
}
use alchemy.Rid.{SystemError, array_allocator_out_of_memory}

abbrev pub Memory : Type 0
Memory = ℕ → ℕ

-- `align_up`.
unfoldable pub align_up : (size align : ℕ) → ℕ
align_up size align = bit_and (size + align - 1) (2 ^ 64 - 1 - (align - 1))

-- `ArrayAllocator`, with the size of its objects in bytes.
pub record ArrayAllocator : Type 0 where
  pub cap : ℕ
  pub start : ℕ
  pub size : ℕ
  pub list_node : ℕ

-- The loop of `ArrayAllocator::new` after a number of rounds: the memory, and the node that the next
-- block will hold.
unfoldable pub link : (cap addr size : ℕ) → Memory → Memory × ℕ
link zero addr size m = (m, 0)
link (suc i) addr size m =
    let (m', node_n) = link i addr size m in
    let block_start = addr + i * size in (put m' block_start node_n, block_start)

-- `ArrayAllocator::new`, with the size and the alignment of the objects; `none` is a failed assertion.
unfoldable pub new : (cap addr size align : ℕ) → Memory → Option (ArrayAllocator × Memory)
unfolding link
new cap addr size align m =
    if leb 8 size && leb 8 align
    then (let (m', new_node) = link cap addr size m in
        some (record { cap = cap; start = addr; size = size; list_node = new_node }, m'))
    else none

-- `ArrayAllocator::reset`.
unfoldable pub reset : ArrayAllocator → Memory → ArrayAllocator × Memory
unfolding link
reset a m =
    let (m', new_node) = link a.cap a.start a.size m in (record a { list_node = new_node }, m')

-- `ArrayAllocator::alloc`: the index and the address of the block.
unfoldable pub alloc : ArrayAllocator → Memory → Result (ℕ × ℕ) SystemError × ArrayAllocator
alloc a m =
    if a.list_node == 0
    then (err array_allocator_out_of_memory, a)
    else let node = a.list_node in
      (ok ((node - a.start) / a.size, node), record a { list_node = m node })

-- `ArrayAllocator::get_by_index`: the address.
unfoldable pub get_by_index : ArrayAllocator → ℕ → ℕ
get_by_index a index = a.start + index * a.size

-- `ArrayAllocator::dealloc`.
unfoldable pub dealloc : ArrayAllocator → (ptr : ℕ) → Memory → ArrayAllocator × Memory
dealloc a ptr m = (record a { list_node = ptr }, put m ptr a.list_node)

-- `TlsFreeList::pop`, on the head of the list.
unfoldable pub pop : (head : ℕ) → Memory → Option ℕ × ℕ
pop head m = if head == 0 then (none, head) else (some head, m head)

-- `TlsFreeList::insert`.
unfoldable pub insert : (head ptr : ℕ) → Memory → ℕ × Memory
insert head ptr m = (ptr, put m ptr head)

-- `TlsAllocator`.
pub record TlsAllocator : Type 0 where
  pub arena : ArrayAllocator
  pub free_list : ℕ

-- `TlsAllocator::new`.
abbrev pub new_tls : ArrayAllocator → TlsAllocator
new_tls arena = record { arena = arena; free_list = 0 }

-- `TlsAllocator::alloc`.
unfoldable pub alloc_tls : TlsAllocator → Memory → Result ℕ SystemError × TlsAllocator
unfolding pop alloc
alloc_tls t m =
    let (popped, head) = pop t.free_list m in
    elim popped [
      | some ptr ↦ (ok ptr, record t { free_list = head })
      | none ↦
          let (allocated, arena) = alloc t.arena m in
          (elim allocated [ ok (index, ptr) ↦ ok ptr | err e ↦ err e ], record t { arena = arena })
    ]

-- `TlsAllocator::update_arena`.
abbrev pub update_arena : TlsAllocator → ArrayAllocator → TlsAllocator
update_arena t arena = record t { arena = arena }

-- `TlsAllocator::dealloc`.
unfoldable pub dealloc_tls : TlsAllocator → (ptr : ℕ) → Memory → TlsAllocator × Memory
unfolding insert
dealloc_tls t ptr m =
    let (head, m') = insert t.free_list ptr m in (record t { free_list = head }, m')
