-- ===== src/Alloc/Append.antt =====
-- `append` of src/utils/obj_alloc.rs ends.
use alchemy.Base.{
  ℕ, zero, suc, ◌-◌, ◌*◌, ◌/◌, ◌<◌, ◌≡◌, ◌≢◌, refl, arith, true, Option, none, some, Result, ok,
  err, is_some, leb, ◌&&◌, inl, inr, ◌⊎◌, Bool-cases, put, ==-ne,
}
use native.Mathlib.Nat.{mul-div_cancel}
use alchemy.Rid.{SystemError}
use alchemy.Alloc.{
  Memory, ArrayAllocator, TlsAllocator, new, alloc, alloc_tls, link, pop, update_arena, new_tls,
}
use alchemy.Alloc.Heap.{HeapArray, Outcome, new_arena, append_loop, append, get_tls_allocator}

-- The shape of a heap: elements have a size, and an arena holds at least one.
abbrev pub HasSizes : HeapArray → Type 0
HasSizes h = (0 < h.elem_size) × (0 < h.arena_len)

-- An arena with room, and the shape kept.
abbrev HasRoom : Outcome ArrayAllocator → Type 0
HasRoom (Outcome.done arena h m) = (arena.list_node ≢ 0) × HasSizes h
HasRoom (Outcome.failed e h m) = Unit {0}
HasRoom Outcome.panic = Unit {0}

link-some : (cap addr size : ℕ) (m : Memory) → 0 < cap → 0 < addr → (link cap addr size m).1 ≢ 0
unfolding link
link-some zero addr size m h k = absurd (omega arith)
link-some (suc i) addr size m h k = λ e. omega arith

new-some :
    (cap addr size align : ℕ) (m : Memory) (a : ArrayAllocator) (m' : Memory)
    → 0 < cap
    → 0 < addr
    → new cap addr size align m ≡ some (a, m')
    → a.list_node ≢ 0
unfolding new
new-some cap addr size align m a m' h k e = elim (Bool-cases (leb 8 size && leb 8 align)) [
  | inl fits ↦ λ z. link-some cap addr size m h k (ground (arith, e, fits, z))
  | inr not_fits ↦ absurd (ground (arith, e, not_fits))
]

alloc-some :
    (a a' : ArrayAllocator) (m : Memory) (index ptr : ℕ)
    → alloc a m ≡ (ok (index, ptr), a')
    → 0 < ptr
unfolding alloc
alloc-some a a' m index ptr e = ground arith

alloc-ok :
    (a : ArrayAllocator) (m : Memory) → a.list_node ≢ 0 → (x : ℕ × ℕ) × ((alloc a m).0 ≡ ok x)
unfolding alloc
alloc-ok a m h = (((a.list_node - a.start) / a.size, a.list_node), rw (==-ne a.list_node 0 h) refl)

new_arena-HasRoom :
    (h : HeapArray) (m : Memory) → 0 < h.elem_size → 0 < h.arena_len → HasRoom (new_arena h m)
unfolding new_arena
new_arena-HasRoom h m pos len = on (alloc h.heap m) refl
  where
    arena_of :
        (ptr : ℕ)
        → 0 < ptr
        → (heap : ArrayAllocator) → (made : Option (ArrayAllocator × Memory))
        → new (h.arena_len * h.elem_size / h.elem_size) ptr h.elem_size h.elem_align m ≡ made
        → HasRoom (elim made [
          | none ↦ Outcome.panic
          | some (arena, m') ↦ Outcome.done arena (record h { heap = heap }) m'
        ])
    arena_of ptr some_ptr heap none e = tt
    arena_of ptr some_ptr heap (some (arena, m')) e = (
      new-some _ ptr h.elem_size h.elem_align m arena m'
          (omega (arith, mul-div_cancel h.arena_len pos)) some_ptr e,
      (pos, len),
    )

    on :
        (out : Result (ℕ × ℕ) SystemError × ArrayAllocator)
        → alloc h.heap m ≡ out
        → HasRoom (elim out.0 [
          | err e ↦ Outcome.failed e (record h { heap = out.1 }) m
          | ok (index, ptr) ↦
              elim (new (h.arena_len * h.elem_size / h.elem_size) ptr h.elem_size h.elem_align m) [
                | none ↦ Outcome.panic
                | some (arena, m') ↦ Outcome.done arena (record h { heap = out.1 }) m'
              ]
        ])
    on (err e, heap) is = tt
    on (ok (index, ptr), heap) is = arena_of ptr (alloc-some h.heap heap m index ptr is) heap _ refl

-- A thread's allocator that fails has an empty free list.
alloc_tls-empty :
    (t : TlsAllocator) (m : Memory) (e : SystemError)
    → (alloc_tls t m).0 ≡ err e
    → (alloc_tls t m).1.free_list ≡ 0
unfolding alloc_tls pop
alloc_tls-empty t m e h = ground arith

-- With an arena that has room and an empty free list it does not fail.
alloc_tls-ok :
    (t : TlsAllocator) (m : Memory)
    → t.free_list ≡ 0
    → t.arena.list_node ≢ 0
    → (ptr : ℕ) × ((alloc_tls t m).0 ≡ ok ptr)
unfolding alloc_tls pop
alloc_tls-ok t m empty room =
    let (x, e) = alloc-ok t.arena m room in (x.1, rw (empty, alloc_tls) (rw (e, alloc_tls) refl))

module _ (thread_id item : ℕ) where
  one_round :
      (fuel : ℕ) (t : TlsAllocator) (h : HeapArray) (m : Memory) (ptr : ℕ)
      → (alloc_tls t m).0 ≡ ok ptr
      → is_some (append_loop (suc fuel) thread_id item t h m) ≡ true
  unfolding append_loop
  one_round fuel t h m ptr e = rw (e, append_loop) refl

  two_rounds :
      (t : TlsAllocator) (h : HeapArray) (m : Memory) (e : SystemError)
      → 0 < h.elem_size
      → 0 < h.arena_len
      → (alloc_tls t m).0 ≡ err e
      → is_some (append_loop 2 thread_id item t h m) ≡ true
  unfolding append_loop
  two_rounds t h m e pos len fails =
      rw (fails, append_loop) (after (new_arena h' m) (new_arena-HasRoom h' m pos len))
    where
      t' : TlsAllocator
      t' = (alloc_tls t m).1

      h' : HeapArray
      h' = record h { tls_mapping = put h.tls_mapping thread_id (some t') }

      after :
          (out : Outcome ArrayAllocator)
          → HasRoom out
          → is_some (elim out as (λ _. Option (Outcome ℕ)) [
            | Outcome.panic ↦ some Outcome.panic
            | Outcome.failed e h'' m' ↦ some (Outcome.failed e h'' m')
            | Outcome.done arena h'' m' ↦
                append_loop 1 thread_id item (update_arena t' arena) h'' m'
          ])
            ≡ true
      after Outcome.panic room = refl
      after (Outcome.failed e h'' m') room = refl
      after (Outcome.done arena h'' m') room =
          let (ptr, is) =
            alloc_tls-ok (update_arena t' arena) m' (alloc_tls-empty t m e fails) room.0 in
          one_round zero (update_arena t' arena) h'' m' ptr is

Result-cases : {A E : Type 0} (r : Result A E) → ((a : A) × (r ≡ ok a)) ⊎ ((e : E) × (r ≡ err e))
Result-cases (ok a) = inl (a, refl)
Result-cases (err e) = inr (e, refl)

loop-ends :
    (thread_id item : ℕ) (t : TlsAllocator) (h : HeapArray) (m : Memory)
    → HasSizes h
    → is_some (append_loop 2 thread_id item t h m) ≡ true
loop-ends thread_id item t h m sizes = elim (Result-cases (alloc_tls t m).0) [
  | inl (ptr, e) ↦ one_round thread_id item 1 t h m ptr e
  | inr (e, fails) ↦ two_rounds thread_id item t h m e sizes.0 sizes.1 fails
]

-- The elements have a size and an arena holds at least one. Then the loop of `append` ends
-- within two rounds, with an index, an error or a failed assertion, whatever the free lists
-- hold.
pub append-ends :
    (thread_id item : ℕ) (h : HeapArray) (m : Memory)
    → HasSizes h
    → is_some (append 2 thread_id item h m) ≡ true
unfolding append get_tls_allocator new_arena
append-ends thread_id item h m sizes = on (h.tls_mapping thread_id) refl
  where
    after :
        (out : Outcome ArrayAllocator)
        → HasRoom out
        → is_some
            (elim (elim out as (λ _. Outcome TlsAllocator) [
              | Outcome.panic ↦ Outcome.panic
              | Outcome.failed e h' m' ↦ Outcome.failed e h' m'
              | Outcome.done arena h' m' ↦
                  Outcome.done
                    (new_tls arena)
                    (record h' {
                      tls_mapping = put h'.tls_mapping thread_id (some (new_tls arena));
                    })
                    m'
            ])
              as (λ _. Option (Outcome ℕ)) [
                | Outcome.panic ↦ some Outcome.panic
                | Outcome.failed e h' m' ↦ some (Outcome.failed e h' m')
                | Outcome.done t h' m' ↦ append_loop 2 thread_id item t h' m'
              ])
          ≡ true
    after Outcome.panic room = refl
    after (Outcome.failed e h' m') room = refl
    after (Outcome.done arena h' m') room = loop-ends thread_id item (new_tls arena) _ m' room.1

    on :
        (mapped : Option TlsAllocator)
        → h.tls_mapping thread_id ≡ mapped
        → is_some (append 2 thread_id item h m) ≡ true
    on (some t) e = rw (e, append) (loop-ends thread_id item t h m sizes)
    on none e = rw (e, append) (after (new_arena h m) (new_arena-HasRoom h m sizes.0 sizes.1))
