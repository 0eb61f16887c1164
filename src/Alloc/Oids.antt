-- ===== src/Alloc/Oids.antt =====
-- `OidArray` of src/storage/oid_array.rs: a heap of lock words of 8 bytes, in arenas of 64.
use alchemy.Base.{
  ℕ, ◌+◌, ◌-◌, ◌*◌, ◌/◌, ◌%◌, ◌^◌, ◌≤◌, ◌<◌, ◌≡◌, arith, Option, ltb, if◌then◌else◌, bit_and-field,
}
use alchemy.Alloc.{Memory, align_up}
use alchemy.Alloc.Heap.{HeapArray, new_heap, capacity}

-- `OidArray::ARENA_SIZE`.
abbrev pub arena_size : ℕ
arena_size = 64 * 8

-- The size in bytes that `OidArray::new` takes for a number of records.
unfoldable pub oid_array_size : ℕ → ℕ
unfolding align_up
oid_array_size cap = align_up (cap * 8 + arena_size * 128) arena_size

-- `OidArray::new`, with the address of the zeroed memory that it gets.
unfoldable pub new_oid_array : (cap ptr : ℕ) → Memory → Option (HeapArray × Memory)
unfolding oid_array_size new_heap
new_oid_array cap ptr m = new_heap 64 8 8 (oid_array_size cap / arena_size) ptr m

-- `OidArray::reset`.
unfoldable pub reset_oid_array : HeapArray → Memory → Option (HeapArray × Memory)
unfolding capacity new_heap
reset_oid_array h m =
    let size : ℕ = capacity h * 8 in
    let ptr : ℕ = h.heap.start in
    new_heap 64 8 8 (size / arena_size) ptr
      (λ a. if ltb a ptr then m a else if ltb a (ptr + size) then 0 else m a)

-- The memory that `OidArray::new` takes is a whole number of arenas, and they have room for the
-- records asked for, if the size fits 63 bits.
pub oid_array_size-room :
    (cap : ℕ)
    → cap * 8 < 2 ^ 63
    → (oid_array_size cap % arena_size ≡ 0) × (cap ≤ oid_array_size cap / arena_size * 64)
unfolding oid_array_size align_up
oid_array_size-room cap small =
    ground (arith, bit_and-field 55 9 (cap * 8 + arena_size * 128 + arena_size - 1))
