-- ===== src/Alloc/Slots/Calls.antt =====
-- `append` and `delete` of src/utils/obj_alloc.rs keep the owners of the slots.
use mathlib.Core.Path.{subst}
use alchemy.Base.{
  ℕ, [], ◌<◌, ◌≡◌, ◌≢◌, refl, sym, ap, ◌∙◌, true, false, Option, none, some, Option-cases, put,
  put-self, put-other, inl, inr,
}
use alchemy.Alloc.{Memory, ArrayAllocator, TlsAllocator, new_tls, dealloc_tls, insert}
use alchemy.Alloc.Heap.{
  HeapArray, Outcome, set_tls, new_arena, append_loop, append, get_tls_allocator, delete,
  index_to_ptr,
}
use alchemy.Alloc.Chain.{Chain-frame, Chain-push, slots_apart}
use alchemy.Alloc.Owners.{
  Owner, pool, taken, in_arena, in_list, is_taken, Mine, Owned, address_of, Grown, SameShape,
  moved-Owned, moved-Chain, other-Chain,
}
use alchemy.Alloc.Grow.{new_arena-cases, arena_words, arena_of, heap_after}
use alchemy.Alloc.Slots.{Grown-trans, Ends, Grown-Ends}
use alchemy.Alloc.Slots.Rounds.{
  ArenaTaken, new_arena-ArenaTaken, no_slots, set_tls-Grown, loop-Ends,
}

module _ (thread_id : ℕ) where
  -- What `get_tls_allocator` ends with.
  unfoldable TlsEnds : HeapArray → Memory → (ℕ → Owner) → Outcome TlsAllocator → Type 0
  TlsEnds h m own Outcome.panic = Unit {0}
  TlsEnds h m own (Outcome.failed e h' m') = (own' : ℕ → Owner) × Grown h m own h' m' own'
  TlsEnds h m own (Outcome.done t h' m') =
      (own' : ℕ → Owner) × Grown h m own h' m' own' × Mine h' m' own' thread_id t

  unfoldable with_tls : Outcome ArrayAllocator → Outcome TlsAllocator
  with_tls out = elim out as (λ _. Outcome TlsAllocator) [
    | Outcome.panic ↦ Outcome.panic
    | Outcome.failed e h' m' ↦ Outcome.failed e h' m'
    | Outcome.done arena h' m' ↦
        Outcome.done (new_tls arena)
          (record h' { tls_mapping = put h'.tls_mapping thread_id (some (new_tls arena)) }) m'
  ]

  unfoldable mapped : HeapArray → Memory → Option TlsAllocator → Outcome TlsAllocator
  unfolding with_tls
  mapped h m t = elim t as (λ _. Outcome TlsAllocator) [
    | some t ↦ Outcome.done t h m
    | none ↦ with_tls (new_arena h m)
  ]

  mapped-get_tls :
      (h : HeapArray) (m : Memory)
      → get_tls_allocator thread_id h m ≡ mapped h m (h.tls_mapping thread_id)
  unfolding get_tls_allocator mapped with_tls
  mapped-get_tls h m = refl

  Grown-refl :
      {h : HeapArray} {m : Memory} {own : ℕ → Owner} → Owned h m own → Grown h m own h m own
  Grown-refl c = record {
    owned = c;
    shape = (refl, refl, refl);
    same = λ _. refl;
    words = λ _ _. refl;
  }

  get_tls-TlsEnds :
      (h : HeapArray) (m : Memory) (own : ℕ → Owner)
      → Owned h m own
      → TlsEnds h m own (get_tls_allocator thread_id h m)
  unfolding TlsEnds with_tls mapped ArenaTaken
  get_tls-TlsEnds h m own c =
      subst (TlsEnds h m own) (sym (mapped-get_tls h m))
        (elim (Option-cases (h.tls_mapping thread_id)) [
          | inr (t, there) ↦
              subst (λ x. TlsEnds h m own (mapped h m x)) (sym there)
                (own, Grown-refl c, c.threads thread_id t there)
          | inl missing ↦
              subst (λ x. TlsEnds h m own (mapped h m x)) (sym missing)
                (elim (new_arena-cases h m c.some_size) [
                  | inl (empty, e) ↦
                      subst (λ x. TlsEnds h m own (with_tls x)) (sym e) (own, Grown-refl c)
                  | inr (ne, inl e) ↦ subst (λ x. TlsEnds h m own (with_tls x)) (sym e) tt
                  | inr (ne, inr e) ↦
                      let (own', grown, mines) = new_arena-ArenaTaken h m own thread_id c ne in
                      let t = new_tls (arena_of h m) in
                      let mine : Mine (heap_after h m) (arena_words h m) own' thread_id t =
                        mines no_slots (([], refl, tt, tt), ([], refl, tt, tt)) in
                      let set =
                        set_tls-Grown thread_id (heap_after h m) (arena_words h m) own' t
                          grown.owned mine in
                      subst (λ x. TlsEnds h m own (with_tls x)) (sym e)
                        (own', Grown-trans grown set, mine)
                ])
        ])

module _ (thread_id item : ℕ) where
  unfoldable from_tls : ℕ → Outcome TlsAllocator → Option (Outcome ℕ)
  from_tls fuel out = elim out as (λ _. Option (Outcome ℕ)) [
    | Outcome.panic ↦ some Outcome.panic
    | Outcome.failed e h' m' ↦ some (Outcome.failed e h' m')
    | Outcome.done t h' m' ↦ append_loop fuel thread_id item t h' m'
  ]

  from_tls-Ends :
      (fuel : ℕ) (h : HeapArray) (m : Memory) (own : ℕ → Owner) (out : Outcome TlsAllocator)
      → TlsEnds thread_id h m own out
      → Ends h m own item (from_tls fuel out)
  unfolding TlsEnds from_tls
  from_tls-Ends fuel h m own Outcome.panic e = tt
  from_tls-Ends fuel h m own (Outcome.failed x h' m') e = e
  from_tls-Ends fuel h m own (Outcome.done t h' m') (own', g, mine) =
      Grown-Ends item _ g (loop-Ends thread_id item fuel t h' m' own' g.owned mine)

  -- Every slot has one owner, and the lists hold the slots of their owners. Then an `append` that returns
  -- an index gives that of a slot that was not taken, writes the item there, leaves the words
  -- of the taken slots, and takes and gives back no other; one that fails changes no taken slot. The owners
  -- and the lists agree after it.
  pub append-Ends :
      (fuel : ℕ) (h : HeapArray) (m : Memory) (own : ℕ → Owner)
      → Owned h m own
      → Ends h m own item (append fuel thread_id item h m)
  unfolding append from_tls
  append-Ends fuel h m own c =
      from_tls-Ends fuel h m own (get_tls_allocator thread_id h m)
        (get_tls-TlsEnds thread_id h m own c)

-- A slot that a caller held goes back to the running thread.
pub record Deleted (h : HeapArray) (m : Memory) (own : ℕ → Owner) (index : ℕ) (h' : HeapArray)
    (m' : Memory) : Type 0 where
  pub own' : ℕ → Owner
  pub owned : Owned h' m' own'
  pub shape : SameShape h h'
  pub frees : is_taken (own' index) ≡ false
  pub others : (s : ℕ) → index ≢ s → is_taken (own' s) ≡ is_taken (own s)
  pub words :
      (s : ℕ) → index ≢ s → is_taken (own s) ≡ true → m' (address_of h s) ≡ m (address_of h s)

pub is_taken-taken : (o : Owner) → is_taken o ≡ true → o ≡ taken
is_taken-taken taken e = refl
is_taken-taken pool e = cc (e)
is_taken-taken (in_arena i) e = cc (e)
is_taken-taken (in_list i) e = cc (e)

module _ (thread_id index : ℕ) where
  unfoldable given_back : HeapArray → Outcome TlsAllocator → Outcome (Unit {0})
  unfolding dealloc_tls index_to_ptr
  given_back h out = elim out as (λ _. Outcome (Unit {0})) [
    | Outcome.done t h' m' ↦
        let (t', m'') = dealloc_tls t (index_to_ptr h index) m' in
        Outcome.done tt (set_tls h' thread_id t') m''
    | Outcome.failed e h' m' ↦ Outcome.panic
    | Outcome.panic ↦ Outcome.panic
  ]

  abbrev pub DeleteEnds : HeapArray → Memory → (ℕ → Owner) → Outcome (Unit {0}) → Type 0
  DeleteEnds h m own (Outcome.done _ h' m') = Deleted h m own index h' m'
  DeleteEnds h m own (Outcome.failed e h' m') = Unit {0}
  DeleteEnds h m own Outcome.panic = Unit {0}

  given_back-Deleted :
      (h : HeapArray) (m : Memory) (own : ℕ → Owner) (t : TlsAllocator) (h' : HeapArray)
      (m' : Memory) (own' : ℕ → Owner)
      → Grown h m own h' m' own'
      → Mine h' m' own' thread_id t
      → own' index ≡ taken
      → Deleted h m own index
          (set_tls h' thread_id (record t { free_list = address_of h' index }))
          (put m' (address_of h' index) t.free_list)
  given_back-Deleted h m own t h' m' own' g (arena, list) held =
      let t' = record t { free_list = address_of h' index } in
      let o = in_list thread_id in
      let pos = g.owned.some_size in
      let without = λ (node : ℕ) (o' : Owner) (ne : own' index ≢ o').
        other-Chain h' thread_id m' own' pos index t.free_list o node o' ne in
      record {
        own' = put own' index o;
        owned =
            moved-Owned h' thread_id m' own' pos index t.free_list o t' g.owned (λ e. cc (e, held))
              (λ e. cc (e)) (λ i ne. ((λ e. cc (e, held)), λ e. cc (e, held)))
              (
                moved-Chain h' thread_id m' own' pos index t.free_list o t.arena.list_node
                    (in_arena thread_id)
                    (without t.arena.list_node (in_arena thread_id) (λ e. cc (e, held)) arena),
                Chain-push h'.heap.start h'.elem_size {P = λ s. put own' index o s ≡ o} m'
                    t.free_list index pos (put-self (λ x. x ≡ o) own' index refl)
                    (Chain-frame h'.heap.start h'.elem_size m' m' t.free_list
                      (λ s p. (refl, (put-other (λ x. x ≡ o) own' index s o p.1 p.0, p.1)))
                      (without t.free_list o (λ e. cc (e, held)) list)),
              );
        shape = g.shape;
        frees = put-self (λ x. is_taken x ≡ false) own' index refl;
        others =
            λ s ne. put-other (λ x. is_taken x ≡ is_taken (own s)) own' index s o ne (g.same s);
        words = λ s ne l.
            put-other (λ v. v ≡ m (address_of h s)) m' (address_of h' index) (address_of h s)
              t.free_list
              (rw (g.shape.0, g.shape.1)
                (slots_apart h.heap.start h.elem_size index s (subst (λ x. 0 < x) g.shape.1 pos)
                  ne))
              (g.words s l);
      }

  given_back-Ends :
      (h : HeapArray) (m : Memory) (own : ℕ → Owner) (out : Outcome TlsAllocator)
      → own index ≡ taken
      → TlsEnds thread_id h m own out
      → DeleteEnds h m own (given_back h out)
  unfolding given_back TlsEnds dealloc_tls insert index_to_ptr
  given_back-Ends h m own Outcome.panic held e = tt
  given_back-Ends h m own (Outcome.failed x h' m') held e = tt
  given_back-Ends h m own (Outcome.done t h' m') held (own', g, mine) =
      subst
        (λ p.
          Deleted h m own index (set_tls h' thread_id (record t { free_list = p }))
            (put m' p t.free_list))
        (rw (g.shape.0, g.shape.1) refl)
        (given_back-Deleted h m own t h' m' own' g mine
          (is_taken-taken (own' index) (g.same index ∙ ap is_taken held)))

  -- Every slot has one owner, and the lists hold the slots of their owners. Then a `delete` of a slot that
  -- is taken, if it returns, gives back that slot and no other, and leaves the words of the other taken slots; the
  -- owners and the lists agree after it.
  pub delete-Ends :
      (h : HeapArray) (m : Memory) (own : ℕ → Owner)
      → Owned h m own
      → own index ≡ taken
      → DeleteEnds h m own (delete thread_id index h m)
  unfolding delete given_back
  delete-Ends h m own c held =
      given_back-Ends h m own (get_tls_allocator thread_id h m) held
        (get_tls-TlsEnds thread_id h m own c)
