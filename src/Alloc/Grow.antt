-- ===== src/Alloc/Grow.antt =====
-- A block of the heap becomes the arena of a thread: `new_arena` of src/utils/obj_alloc.rs.
use mathlib.Core.Path.{subst}
use native.Mathlib.Nat.{mul-div_cancel, mul-le-mul_right}
use alchemy.Base.{
  ℕ, ◌+◌, ◌-◌, ◌*◌, ◌/◌, ◌≤◌, ◌<◌, ◌≡◌, ◌≢◌, refl, sym, ap, ◌∙◌, arith, none, some, Result, ok, err,
  if◌then◌else◌, if_true, if_false, ℕ_discrete, dec_lt, ltb, leb, ◌&&◌, ◌⊎◌, inl, inr, Bool-cases,
}
use alchemy.Rid.{SystemError, array_allocator_out_of_memory}
use alchemy.Alloc.{Memory, ArrayAllocator, TlsAllocator, link, new}
use alchemy.Alloc.Heap.{HeapArray, Outcome, new_arena}
use alchemy.Alloc.Chain.{Chain, Chain-frame, link-Chain}
use alchemy.Alloc.Owners.{
  Owner, pool, in_arena, in_list, is_taken, Mine, IsBlock, Owned, address_of, Grown,
}
use alchemy.Alloc.Pop.{alloc-some, alloc-none}

blocks_apart : (n i k j l : ℕ) → i ≢ k → j < n → l < n → i * n + j ≢ k * n + l
blocks_apart n i k j l ne a b e = elim (dec_lt i k) [
  | yes lt ↦ absurd (omega (arith, e, a, b, mul-le-mul_right n lt))
  | no ge ↦
      let below : k < i = omega (arith, ge, ne) in
      absurd (omega (arith, e, a, b, mul-le-mul_right n below))
]

-- A block of the heap as the arena of a thread.
module _ (h : HeapArray) (m : Memory) where
  abbrev pub node : ℕ
  node = h.heap.list_node

  abbrev pub arena_words : Memory
  arena_words = (link h.arena_len node h.elem_size m).0

  abbrev pub arena_of : ArrayAllocator
  arena_of = record {
    cap = h.arena_len;
    start = node;
    size = h.elem_size;
    list_node = (link h.arena_len node h.elem_size m).1;
  }

  abbrev pub heap_after : HeapArray
  heap_after = record h { heap = record h.heap { list_node = m node } }

  unfoldable arena_made : Result (ℕ × ℕ) SystemError × ArrayAllocator → Outcome ArrayAllocator
  unfolding new
  arena_made out = elim out.0 as (λ _. Outcome ArrayAllocator) [
    | err e ↦ Outcome.failed e (record h { heap = out.1 }) m
    | ok (index, ptr) ↦
        elim (new (h.arena_len * h.elem_size / h.elem_size) ptr h.elem_size h.elem_align m)
          as (λ _. Outcome ArrayAllocator) [
            | none ↦ Outcome.panic
            | some (arena, m') ↦ Outcome.done arena (record h { heap = out.1 }) m'
          ]
  ]

  -- How `new_arena` ends.
  pub new_arena-cases :
      0 < h.elem_size
      → ((node ≡ 0) × (new_arena h m ≡ Outcome.failed array_allocator_out_of_memory h m))
        ⊎ ((node ≢ 0)
            × ((new_arena h m ≡ Outcome.panic)
                ⊎ (new_arena h m ≡ Outcome.done arena_of heap_after arena_words)))
  unfolding new_arena new arena_made
  new_arena-cases pos = elim (ℕ_discrete node 0) [
    | yes z ↦ inl (z, ap arena_made (alloc-none h.heap m z))
    | no ne ↦ inr (
      ne,
      elim (Bool-cases (leb 8 h.elem_size && leb 8 h.elem_align)) [
        | inl fits ↦ inr (
            ap arena_made (alloc-some h.heap m ne)
            ∙ rw (mul-div_cancel h.arena_len pos, arena_made) (rw fits refl))
        | inr small ↦ inl (ap arena_made (alloc-some h.heap m ne) ∙ rw (small, arena_made) refl)
      ],
    )
  ]

  module _ (own : ℕ → Owner) (c : Owned h m own) (thread_id s0 : ℕ) (at : node ≡ address_of h s0)
      (block : IsBlock h own s0)
      (rest : Chain h.heap.start h.elem_size m (m node) (λ s. IsBlock h own s × (s0 ≢ s))) where
    abbrev pub given : ℕ → Owner
    given s = if leb s0 s && ltb s (s0 + h.arena_len) then in_arena thread_id else own s

    abbrev Outside : ℕ → Type 0
    Outside s = s0 ≤ s → s0 + h.arena_len ≤ s

    given-in : (s : ℕ) → s0 ≤ s → s < s0 + h.arena_len → given s ≡ in_arena thread_id
    given-in s le lt = if_true {b = leb s0 s && ltb s (s0 + h.arena_len)} _ _ (ground arith)

    given-out : (s : ℕ) → Outside s → given s ≡ own s
    given-out s out = if_false {b = leb s0 s && ltb s (s0 + h.arena_len)} _ _ (ground (arith, out))

    block-pool : (s : ℕ) → s0 ≤ s → s < s0 + h.arena_len → own s ≡ pool
    block-pool s le lt =
        let back : s0 + (s - s0) ≡ s = omega arith in
        ap own (sym back) ∙ (block.1 (s - s0) (omega arith)).0

    used-Outside : (s : ℕ) → own s ≢ pool → Outside s
    used-Outside s used le = elim (dec_lt s (s0 + h.arena_len)) [
      | yes lt ↦ absurd (used (block-pool s le lt))
      | no ge ↦ omega (arith, ge)
    ]

    other-Outside : (s j : ℕ) → IsBlock h own s → s0 ≢ s → j < h.arena_len → Outside (s + j)
    other-Outside s j b ne lt le = elim (dec_lt (s + j) (s0 + h.arena_len)) [
      | yes below ↦
          let (i, is_i) = b.0 in
          let (k, is_k) = block.0 in
          absurd (
            blocks_apart h.arena_len k i (s + j - s0) j
              (λ same. ne (is_k ∙ ap (λ x. x * h.arena_len) same ∙ sym is_i)) (omega arith) lt
              (omega (arith, is_i, is_k, le)))
      | no ge ↦ omega (arith, ge)
    ]

    abbrev LinkFacts : ℕ → Type 0
    LinkFacts ptr =
        (let (m', first) = link h.arena_len ptr h.elem_size m in
          Chain h.heap.start h.elem_size m' first (λ x. (s0 ≤ x) × (x < s0 + h.arena_len))
          × ((y : ℕ) → Outside y → m' (address_of h y) ≡ m (address_of h y)))

    linked : LinkFacts node
    linked =
        subst LinkFacts (sym at) (link-Chain h.heap.start h.elem_size s0 h.arena_len m c.some_size)

    pub given-arena :
        Chain h.heap.start h.elem_size arena_words arena_of.list_node
          (λ s. given s ≡ in_arena thread_id)
    given-arena =
        Chain-frame h.heap.start h.elem_size arena_words arena_words arena_of.list_node
          (λ x p. (refl, given-in x p.0 p.1)) linked.0

    mine-frame :
        (node' : ℕ) (o : Owner)
        → o ≢ pool
        → Chain h.heap.start h.elem_size m node' (λ s. own s ≡ o)
        → Chain h.heap.start h.elem_size arena_words node' (λ s. given s ≡ o)
    mine-frame node' o used = Chain-frame h.heap.start h.elem_size m arena_words node' (λ s p.
        let out = used-Outside s (λ e. used (sym p ∙ e)) in (linked.1 s out, given-out s out ∙ p))

    pub grow-Mine :
        (i : ℕ) (t : TlsAllocator) → Mine h m own i t → Mine heap_after arena_words given i t
    grow-Mine i t (arena, list) = (
      mine-frame t.arena.list_node (in_arena i) (λ e. cc (e)) arena,
      mine-frame t.free_list (in_list i) (λ e. cc (e)) list,
    )

    -- The slots of the block are the thread's; nothing else changes.
    pub grow-Grown : Grown h m own heap_after arena_words given
    grow-Grown = record {
      owned = record {
        some_size = c.some_size;
        some_len = c.some_len;
        within = λ s used. elim (Bool-cases (leb s0 s && ltb s (s0 + h.arena_len))) [
          | inl in_it ↦
              let le : s0 ≤ s = ground (arith, in_it) in
              let lt : s < s0 + h.arena_len = ground (arith, in_it) in
              omega (arith, (block.1 (s - s0) (omega (arith, le, lt))).1, le)
          | inr out ↦ c.within s (λ e. used (if_false _ _ out ∙ e))
        ];
        blocks =
            Chain-frame h.heap.start h.elem_size m arena_words (m node)
              (λ s p. (
                linked.1 s
                    (λ le. omega (arith, other-Outside s 0 p.0 p.1 c.some_len (omega (arith, le)))),
                (
                  p.0.0,
                  λ j lt.
                      let (free, low) = p.0.1 j lt in
                      (given-out (s + j) (other-Outside s j p.0 p.1 lt) ∙ free, low),
                ),
              ))
              rest;
        threads = λ i t e. grow-Mine i t (c.threads i t e);
      };
      shape = (refl, refl, refl);
      same = λ s. elim (Bool-cases (leb s0 s && ltb s (s0 + h.arena_len))) [
        | inl in_it ↦
            ap is_taken (if_true _ _ in_it)
            ∙ sym (ap is_taken (block-pool s (ground (arith, in_it)) (ground (arith, in_it))))
        | inr out ↦ ap is_taken (if_false _ _ out)
      ];
      words = λ s used. linked.1 s (used-Outside s (λ e. cc (used, e)));
    }
