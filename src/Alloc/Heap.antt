-- ===== src/Alloc/Heap.antt =====
-- `HeapArray` of src/utils/obj_alloc.rs: each thread allocates from an arena of its own, and takes a
-- new arena from the heap when that is empty.
use alchemy.Base.{
  ℕ, zero, suc, ◌+◌, ◌-◌, ◌*◌, ◌/◌, ◌%◌, ◌^◌, ◌<◌, ◌≡◌, ap, ◌∙◌, arith, Option, none, some, ok, err,
  put,
}
use native.Mathlib.Nat.{mul-div_cancel}
use alchemy.Rid.{SystemError}
use alchemy.Alloc.{
  Memory, ArrayAllocator, TlsAllocator, new, alloc, alloc_tls, dealloc_tls, new_tls, update_arena,
}

-- `HeapArray`, with the size of an element in bytes; `arena_len` is its parameter `N`.
pub record HeapArray : Type 0 where
  pub arena_len : ℕ
  pub elem_size : ℕ
  pub elem_align : ℕ
  pub heap : ArrayAllocator
  pub tls_mapping : ℕ → Option TlsAllocator

-- How a method that allocates ends: the failed assertion of `ArrayAllocator::new` is `panic`.
pub data Outcome (A : Type 0) : Type 0 where
  done : A → HeapArray → Memory → Outcome A
  failed : SystemError → HeapArray → Memory → Outcome A
  panic : Outcome A

-- `HeapArray::new`.
unfoldable pub new_heap :
    (arena_len elem_size elem_align arena_cnt ptr : ℕ) → Memory → Option (HeapArray × Memory)
unfolding new
new_heap arena_len elem_size elem_align arena_cnt ptr m =
    elim (new arena_cnt ptr (arena_len * elem_size) elem_align m) [
      | none ↦ none
      | some (heap, m') ↦ some (
        record {
          arena_len = arena_len;
          elem_size = elem_size;
          elem_align = elem_align;
          heap = heap;
          tls_mapping = λ _. none;
        },
        m',
      )
    ]

-- `HeapArray::new_arena`.
unfoldable pub new_arena : HeapArray → Memory → Outcome ArrayAllocator
unfolding alloc new
new_arena h m =
    let (block, heap) = alloc h.heap m in
    elim block [
      | err e ↦ Outcome.failed e (record h { heap = heap }) m
      | ok (index, ptr) ↦
          elim (new (h.arena_len * h.elem_size / h.elem_size) ptr h.elem_size h.elem_align m) [
            | none ↦ Outcome.panic
            | some (arena, m') ↦ Outcome.done arena (record h { heap = heap }) m'
          ]
    ]

-- `HeapArray::get_tls_allocator`, for the running thread.
unfoldable pub get_tls_allocator : (thread_id : ℕ) → HeapArray → Memory → Outcome TlsAllocator
unfolding new_arena
get_tls_allocator thread_id h m = elim (h.tls_mapping thread_id) [
  | some t ↦ Outcome.done t h m
  | none ↦ elim (new_arena h m) [
    | Outcome.panic ↦ Outcome.panic
    | Outcome.failed e h' m' ↦ Outcome.failed e h' m'
    | Outcome.done arena h' m' ↦
        Outcome.done (new_tls arena)
          (record h' { tls_mapping = put h'.tls_mapping thread_id (some (new_tls arena)) }) m'
  ]
]

-- `HeapArray::ptr_to_index`.
unfoldable pub ptr_to_index : HeapArray → ℕ → ℕ
ptr_to_index h ptr = (ptr - h.heap.start) / h.elem_size % 2 ^ 32

-- `HeapArray::index_to_ptr`.
unfoldable pub index_to_ptr : HeapArray → ℕ → ℕ
index_to_ptr h index = h.heap.start + index * h.elem_size

-- `HeapArray::capacity`.
unfoldable pub capacity : HeapArray → ℕ
capacity h = h.heap.cap * h.arena_len

abbrev pub set_tls : HeapArray → ℕ → TlsAllocator → HeapArray
set_tls h thread_id t = record h { tls_mapping = put h.tls_mapping thread_id (some t) }

-- The loop of `HeapArray::append`, for a number of rounds; `none` if they do not end it. The item is
-- written as one word.
unfoldable pub append_loop :
    ℕ → (thread_id item : ℕ) → TlsAllocator → HeapArray → Memory → Option (Outcome ℕ)
unfolding alloc_tls new_arena ptr_to_index
append_loop zero thread_id item t h m = none
append_loop (suc fuel) thread_id item t h m =
    let (allocated, t') = alloc_tls t m in
    let h' = set_tls h thread_id t' in
    elim allocated [
      | ok ptr ↦ some (Outcome.done (ptr_to_index h' ptr) h' (put m ptr item))
      | err _ ↦ elim (new_arena h' m) [
        | Outcome.panic ↦ some Outcome.panic
        | Outcome.failed e h'' m' ↦ some (Outcome.failed e h'' m')
        | Outcome.done arena h'' m' ↦ append_loop fuel thread_id item (update_arena t' arena) h'' m'
      ]
    ]

-- `HeapArray::append`.
unfoldable pub append : (fuel thread_id item : ℕ) → HeapArray → Memory → Option (Outcome ℕ)
unfolding get_tls_allocator append_loop
append fuel thread_id item h m = elim (get_tls_allocator thread_id h m) [
  | Outcome.panic ↦ some Outcome.panic
  | Outcome.failed e h' m' ↦ some (Outcome.failed e h' m')
  | Outcome.done t h' m' ↦ append_loop fuel thread_id item t h' m'
]

-- `HeapArray::delete`.
unfoldable pub delete : (thread_id idx : ℕ) → HeapArray → Memory → Outcome (Unit {0})
unfolding get_tls_allocator dealloc_tls index_to_ptr
delete thread_id idx h m = elim (get_tls_allocator thread_id h m) [
  | Outcome.done t h' m' ↦
      let (t', m'') = dealloc_tls t (index_to_ptr h idx) m' in
      Outcome.done tt (set_tls h' thread_id t') m''
  | Outcome.failed e h' m' ↦ Outcome.panic
  | Outcome.panic ↦ Outcome.panic
]

-- An index goes to its address and back, when an element has a size and the index fits 32 bits.
pub ptr_to_index-index_to_ptr :
    (h : HeapArray) (index : ℕ)
    → 0 < h.elem_size
    → index < 2 ^ 32
    → ptr_to_index h (index_to_ptr h index) ≡ index
unfolding ptr_to_index index_to_ptr
ptr_to_index-index_to_ptr h index pos small =
    ap (λ x. x / h.elem_size % 2 ^ 32) (omega arith)
    ∙ ap (λ x. x % 2 ^ 32) (mul-div_cancel index pos)
    ∙ omega arith
