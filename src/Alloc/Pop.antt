-- ===== src/Alloc/Pop.antt =====
-- How the allocators of src/utils/obj_alloc.rs pop a block from their lists.
use alchemy.Base.{
  ℕ, ◌-◌, ◌/◌, ◌≡◌, ◌≢◌, refl, ap, ◌∙◌, Option, none, some, Result, ok, err, ==-ne, ==_iff, if_true,
  if_false,
}
use alchemy.Rid.{SystemError, array_allocator_out_of_memory}
use alchemy.Alloc.{Memory, ArrayAllocator, TlsAllocator, alloc_tls, pop, alloc}

pop-some : (head : ℕ) (m : Memory) → head ≢ 0 → pop head m ≡ (some head, m head)
unfolding pop
pop-some head m ne = if_false _ _ (==-ne head 0 ne)

pop-none : (head : ℕ) (m : Memory) → head ≡ 0 → pop head m ≡ (none, head)
unfolding pop
pop-none head m e = if_true _ _ ((==_iff head 0).1 e)

pub alloc-some :
    (a : ArrayAllocator) (m : Memory)
    → a.list_node ≢ 0
    → alloc a m
      ≡ (ok ((a.list_node - a.start) / a.size, a.list_node), record a { list_node = m a.list_node })
unfolding alloc
alloc-some a m ne = if_false _ _ (==-ne a.list_node 0 ne)

pub alloc-none :
    (a : ArrayAllocator) (m : Memory)
    → a.list_node ≡ 0
    → alloc a m ≡ (err array_allocator_out_of_memory, a)
unfolding alloc
alloc-none a m e = if_true _ _ ((==_iff a.list_node 0).1 e)

module _ (t : TlsAllocator) (m : Memory) where
  unfoldable from_arena :
      Result (ℕ × ℕ) SystemError × ArrayAllocator → Result ℕ SystemError × TlsAllocator
  from_arena out = (
    elim out.0 as (λ _. Result ℕ SystemError) [ ok (index, ptr) ↦ ok ptr | err e ↦ err e ],
    record t { arena = out.1 },
  )

  unfoldable from_list : Option ℕ × ℕ → Result ℕ SystemError × TlsAllocator
  unfolding from_arena
  from_list out = elim out.0 as (λ _. Result ℕ SystemError × TlsAllocator) [
    | some ptr ↦ (ok ptr, record t { free_list = out.1 })
    | none ↦ from_arena (alloc t.arena m)
  ]

  from_list-alloc_tls : alloc_tls t m ≡ from_list (pop t.free_list m)
  unfolding alloc_tls from_list from_arena
  from_list-alloc_tls = refl

  pub alloc_tls-list :
      t.free_list ≢ 0 → alloc_tls t m ≡ (ok t.free_list, record t { free_list = m t.free_list })
  unfolding from_list
  alloc_tls-list ne = from_list-alloc_tls ∙ ap from_list (pop-some t.free_list m ne)

  pub alloc_tls-arena :
      t.free_list ≡ 0
      → t.arena.list_node ≢ 0
      → alloc_tls t m ≡ (
        ok t.arena.list_node,
        record t { arena = record t.arena { list_node = m t.arena.list_node } },
      )
  unfolding from_list from_arena
  alloc_tls-arena e ne =
      from_list-alloc_tls
      ∙ ap from_list (pop-none t.free_list m e)
      ∙ ap from_arena (alloc-some t.arena m ne)

  pub alloc_tls-none :
      t.free_list ≡ 0
      → t.arena.list_node ≡ 0
      → alloc_tls t m ≡ (err array_allocator_out_of_memory, t)
  unfolding from_list from_arena
  alloc_tls-none e z =
      from_list-alloc_tls
      ∙ ap from_list (pop-none t.free_list m e)
      ∙ ap from_arena (alloc-none t.arena m z)
