-- ===== src/Alloc/Slots/Rounds.antt =====
-- The loop of `append` in src/utils/obj_alloc.rs and the owners of the slots.
use mathlib.Core.Path.{subst}
use alchemy.Base.{
  ℕ, zero, suc, ◌≡◌, ◌≢◌, refl, sym, Option, some, Result, ok, err, put, ℕ_discrete, inl, inr,
}
use alchemy.Rid.{SystemError, array_allocator_out_of_memory}
use alchemy.Alloc.{Memory, ArrayAllocator, TlsAllocator, alloc_tls, update_arena}
use alchemy.Alloc.Heap.{HeapArray, Outcome, set_tls, new_arena, append_loop, ptr_to_index}
use alchemy.Alloc.Chain.{Chain-pop}
use alchemy.Alloc.Owners.{
  Owner, taken, in_arena, in_list, Mine, Owned, Grown, set_tls-Owned, moved-Chain, other-Chain,
}
use alchemy.Alloc.Pop.{alloc_tls-list, alloc_tls-arena, alloc_tls-none}
use alchemy.Alloc.Grow.{
  new_arena-cases, arena_words, arena_of, heap_after, given, given-arena, grow-Mine, grow-Grown,
  node,
}
use alchemy.Alloc.Slots.{Grown-trans, Ends, Grown-Ends, take-Appended}

-- A block of the heap as an arena of the thread, after which the lists that the thread has stay.
unfoldable pub ArenaTaken : HeapArray → Memory → (ℕ → Owner) → (thread_id : ℕ) → Type 0
ArenaTaken h m own thread_id =
    (own' : ℕ → Owner) × Grown h m own (heap_after h m) (arena_words h m) own'
    × ((t : TlsAllocator)
        → Mine h m own thread_id t
        → Mine (heap_after h m) (arena_words h m) own' thread_id (update_arena t (arena_of h m)))

pub new_arena-ArenaTaken :
    (h : HeapArray) (m : Memory) (own : ℕ → Owner) (thread_id : ℕ)
    → Owned h m own
    → node h m ≢ 0
    → ArenaTaken h m own thread_id
unfolding ArenaTaken
new_arena-ArenaTaken h m own thread_id c some_node =
    let (s0, at, block, rest) =
      Chain-pop h.heap.start h.elem_size m (node h m) some_node c.blocks in
    (
      given h m own c thread_id s0 at block rest,
      grow-Grown h m own c thread_id s0 at block rest,
      λ t mine. (
        given-arena h m own c thread_id s0 at block rest,
        (grow-Mine h m own c thread_id s0 at block rest thread_id t mine).1,
      ),
    )

-- An allocator with empty lists.
abbrev pub no_slots : TlsAllocator
no_slots = record { arena = record { cap = 0; start = 0; size = 0; list_node = 0 }; free_list = 0 }

module _ (thread_id : ℕ) where
  pub set_tls-Grown :
      (h : HeapArray) (m : Memory) (own : ℕ → Owner) (t : TlsAllocator)
      → Owned h m own
      → Mine h m own thread_id t
      → Grown h m own (set_tls h thread_id t) m own
  set_tls-Grown h m own t c mine = record {
    owned = set_tls-Owned h thread_id m own t c mine;
    shape = (refl, refl, refl);
    same = λ _. refl;
    words = λ _ _. refl;
  }

module _ (thread_id item : ℕ) where
  unfoldable from_arena : ℕ → TlsAllocator → Outcome ArrayAllocator → Option (Outcome ℕ)
  from_arena fuel t out = elim out as (λ _. Option (Outcome ℕ)) [
    | Outcome.panic ↦ some Outcome.panic
    | Outcome.failed e h m ↦ some (Outcome.failed e h m)
    | Outcome.done arena h m ↦ append_loop fuel thread_id item (update_arena t arena) h m
  ]

  unfoldable after_alloc :
      ℕ → HeapArray → Memory → Result ℕ SystemError × TlsAllocator → Option (Outcome ℕ)
  unfolding from_arena
  after_alloc fuel h m out = elim out.0 as (λ _. Option (Outcome ℕ)) [
    | ok ptr ↦ some (
        Outcome.done (ptr_to_index (set_tls h thread_id out.1) ptr) (set_tls h thread_id out.1)
          (put m ptr item))
    | err e ↦ from_arena fuel out.1 (new_arena (set_tls h thread_id out.1) m)
  ]

  append_loop-suc :
      (fuel : ℕ) (t : TlsAllocator) (h : HeapArray) (m : Memory)
      → append_loop (suc fuel) thread_id item t h m ≡ after_alloc fuel h m (alloc_tls t m)
  unfolding append_loop from_arena after_alloc
  append_loop-suc fuel t h m = refl

  -- The first slot of the arena, or of the free list.
  arena_slot :
      (h : HeapArray) (m : Memory) (own : ℕ → Owner) (t : TlsAllocator)
      → Owned h m own
      → Mine h m own thread_id t
      → t.arena.list_node ≢ 0
      → (fuel : ℕ)
      → Ends h m own item (
          after_alloc fuel h m (
            ok t.arena.list_node,
            record t { arena = record t.arena { list_node = m t.arena.list_node } },
          ))
  unfolding after_alloc
  arena_slot h m own t c (arena, list) ne fuel =
      let (x, at, ours, rest) = Chain-pop h.heap.start h.elem_size m t.arena.list_node ne arena in
      (
        put own x taken,
        take-Appended thread_id item h m own x t.arena.list_node _ c at (inl ours) (
          moved-Chain h thread_id m own c.some_size x item taken (m t.arena.list_node)
              (in_arena thread_id) rest,
          moved-Chain h thread_id m own c.some_size x item taken t.free_list (in_list thread_id) (
              other-Chain h thread_id m own c.some_size x item taken t.free_list (in_list thread_id)
                (λ z. cc (z, ours)) list),
        ),
      )

  list_slot :
      (h : HeapArray) (m : Memory) (own : ℕ → Owner) (t : TlsAllocator)
      → Owned h m own
      → Mine h m own thread_id t
      → t.free_list ≢ 0
      → (fuel : ℕ)
      → Ends h m own item
          (after_alloc fuel h m (ok t.free_list, record t { free_list = m t.free_list }))
  unfolding after_alloc
  list_slot h m own t c (arena, list) ne fuel =
      let (x, at, ours, rest) = Chain-pop h.heap.start h.elem_size m t.free_list ne list in
      (
        put own x taken,
        take-Appended thread_id item h m own x t.free_list _ c at (inr ours) (
          moved-Chain h thread_id m own c.some_size x item taken t.arena.list_node
              (in_arena thread_id)
              (other-Chain h thread_id m own c.some_size x item taken t.arena.list_node
                (in_arena thread_id) (λ z. cc (z, ours)) arena),
          moved-Chain h thread_id m own c.some_size x item taken (m t.free_list) (in_list thread_id)
              rest,
        ),
      )

  -- A round that finds the lists of the thread empty.
  next_arena :
      (fuel : ℕ)
      → ((t : TlsAllocator) (h : HeapArray) (m : Memory) (own : ℕ → Owner)
          → Owned h m own
          → Mine h m own thread_id t
          → Ends h m own item (append_loop fuel thread_id item t h m))
      → (t : TlsAllocator) (h : HeapArray) (m : Memory) (own : ℕ → Owner) → Owned h m own
      → Mine h m own thread_id t
      → Ends h m own item (after_alloc fuel h m (err array_allocator_out_of_memory, t))
  unfolding after_alloc from_arena ArenaTaken
  next_arena fuel rest t h m own c mine =
      let h1 = set_tls h thread_id t in
      let g = set_tls-Grown thread_id h m own t c mine in
      elim (new_arena-cases h1 m c.some_size) [
        | inl (empty, e) ↦ subst (λ x. Ends h m own item (from_arena fuel t x)) (sym e) (own, g)
        | inr (ne, inl e) ↦ subst (λ x. Ends h m own item (from_arena fuel t x)) (sym e) tt
        | inr (ne, inr e) ↦
            let (own', grown, mines) = new_arena-ArenaTaken h1 m own thread_id g.owned ne in
            subst (λ x. Ends h m own item (from_arena fuel t x)) (sym e)
              (Grown-Ends item _ (Grown-trans g grown) (
                rest (update_arena t (arena_of h1 m)) (heap_after h1 m) (arena_words h1 m) own'
                  grown.owned (mines t mine)))
      ]

  -- The loop of `append`, for any number of rounds.
  pub loop-Ends :
      (fuel : ℕ) (t : TlsAllocator) (h : HeapArray) (m : Memory) (own : ℕ → Owner)
      → Owned h m own
      → Mine h m own thread_id t
      → Ends h m own item (append_loop fuel thread_id item t h m)
  unfolding append_loop
  loop-Ends zero t h m own c mine = tt
  loop-Ends (suc fuel) t h m own c mine =
      subst (Ends h m own item) (sym (append_loop-suc fuel t h m))
        (elim (ℕ_discrete t.free_list 0) [
          | no ne ↦
              subst (λ x. Ends h m own item (after_alloc fuel h m x)) (sym (alloc_tls-list t m ne))
                (list_slot h m own t c mine ne fuel)
          | yes empty ↦ elim (ℕ_discrete t.arena.list_node 0) [
            | no ne ↦
                subst (λ x. Ends h m own item (after_alloc fuel h m x))
                  (sym (alloc_tls-arena t m empty ne)) (arena_slot h m own t c mine ne fuel)
            | yes full ↦
                subst (λ x. Ends h m own item (after_alloc fuel h m x))
                  (sym (alloc_tls-none t m empty full))
                  (next_arena fuel (loop-Ends fuel) t h m own c mine)
          ]
        ])
