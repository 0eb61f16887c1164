-- ===== src/Alloc/Owners.antt =====
-- Who owns the slots of a `HeapArray` of src/utils/obj_alloc.rs: the heap, the arena or the free list of a
-- thread, or the caller that got the slot from `append` and has not given it to `delete`.
use alchemy.Base.{
  ℕ, ◌+◌, ◌*◌, ◌<◌, ◌≡◌, ◌≢◌, refl, sym, ap, ◌∙◌, arith, Bool, true, false, Option, some, put,
  put-self, put-other, ℕ_discrete,
}
use mathlib.Core.Path.{subst}
use alchemy.Alloc.{Memory, TlsAllocator}
use alchemy.Alloc.Heap.{HeapArray, set_tls}
use alchemy.Alloc.Chain.{Chain, Chain-frame, slots_apart, slot}

pub data Owner : Type 0 where
  pool taken : Owner
  in_arena in_list : ℕ → Owner

abbrev pub is_taken : Owner → Bool
is_taken taken = true
is_taken _ = false

-- The number of slots.
abbrev pub slots : HeapArray → ℕ
slots h = h.heap.cap * h.arena_len

-- A block of the heap that begins at a slot.
abbrev pub IsBlock : HeapArray → (ℕ → Owner) → ℕ → Type 0
IsBlock h own s =
    ((i : ℕ) × (s ≡ i * h.arena_len))
    × ((j : ℕ) → j < h.arena_len → (own (s + j) ≡ pool) × (s + j < slots h))

-- The allocator of a thread: the slots on its two lists are the thread's.
abbrev pub Mine : HeapArray → Memory → (ℕ → Owner) → (thread_id : ℕ) → TlsAllocator → Type 0
Mine h m own thread_id t =
    Chain h.heap.start h.elem_size m t.arena.list_node (λ s. own s ≡ in_arena thread_id)
    × Chain h.heap.start h.elem_size m t.free_list (λ s. own s ≡ in_list thread_id)

-- Every slot has one owner, and the lists hold the slots of their owners.
pub record Owned (h : HeapArray) (m : Memory) (own : ℕ → Owner) : Type 0 where
  pub some_size : 0 < h.elem_size
  pub some_len : 0 < h.arena_len
  pub within : (s : ℕ) → own s ≢ pool → s < slots h
  pub blocks : Chain h.heap.start h.elem_size m h.heap.list_node (IsBlock h own)
  pub threads : (i : ℕ) (t : TlsAllocator) → h.tls_mapping i ≡ some t → Mine h m own i t

abbrev pub address_of : HeapArray → ℕ → ℕ
address_of h s = slot h.heap.start h.elem_size s

-- The place and the sizes of the slots.
abbrev pub SameShape : HeapArray → HeapArray → Type 0
SameShape h h' =
    (h'.heap.start ≡ h.heap.start) × (h'.elem_size ≡ h.elem_size) × (slots h' ≡ slots h)

-- The words of the slots that are taken stay.
abbrev pub SameWords : HeapArray → (own : ℕ → Owner) → Memory → Memory → Type 0
SameWords h own m m' = (s : ℕ) → is_taken (own s) ≡ true → m' (address_of h s) ≡ m (address_of h s)

-- The same slots are taken after a call, and hold what they held.
pub record Grown (h : HeapArray) (m : Memory) (own : ℕ → Owner) (h' : HeapArray) (m' : Memory)
    (own' : ℕ → Owner) : Type 0 where
  pub owned : Owned h' m' own'
  pub shape : SameShape h h'
  pub same : (s : ℕ) → is_taken (own' s) ≡ is_taken (own s)
  pub words : SameWords h own m m'

module _ (h : HeapArray) (thread_id : ℕ) where
  set_tls-same : (t : TlsAllocator) → (set_tls h thread_id t).tls_mapping thread_id ≡ some t
  set_tls-same t = put-self (λ x. x ≡ some t) h.tls_mapping thread_id refl

  set_tls-other :
      (t : TlsAllocator) (i : ℕ)
      → thread_id ≢ i
      → (set_tls h thread_id t).tls_mapping i ≡ h.tls_mapping i
  set_tls-other t i ne =
      put-other (λ x. x ≡ h.tls_mapping i) h.tls_mapping thread_id i (some t) ne refl

  some-eq : (a b : TlsAllocator) → Path (Option TlsAllocator) (some a) (some b) → a ≡ b
  some-eq a b e = cc (e)

  -- What holds of the allocator of the thread and of those of the others, holds of all.
  pub set_tls-all :
      (P : ℕ → TlsAllocator → Type 0) (t : TlsAllocator)
      → P thread_id t
      → ((i : ℕ) (u : TlsAllocator) → thread_id ≢ i → h.tls_mapping i ≡ some u → P i u)
      → (i : ℕ) (u : TlsAllocator) → (set_tls h thread_id t).tls_mapping i ≡ some u
      → P i u
  set_tls-all P t p rest i u at = elim (ℕ_discrete thread_id i) [
    | yes e ↦
        let same : t ≡ u =
          some-eq t u (sym (set_tls-same t) ∙ ap (set_tls h thread_id t).tls_mapping e ∙ at) in
        subst (λ j. P j u) e (subst (P thread_id) same p)
    | no ne ↦ rest i u ne (sym (set_tls-other t i ne) ∙ at)
  ]

  pub set_tls-Owned :
      (m : Memory) (own : ℕ → Owner) (t : TlsAllocator)
      → Owned h m own
      → Mine h m own thread_id t
      → Owned (set_tls h thread_id t) m own
  set_tls-Owned m own t c mine = record {
    some_size = c.some_size;
    some_len = c.some_len;
    within = c.within;
    blocks = c.blocks;
    threads = set_tls-all (Mine h m own) t mine (λ i u ne at. c.threads i u at);
  }

  module _ (m : Memory) (own : ℕ → Owner) (pos : 0 < h.elem_size) (x v : ℕ) (o : Owner) where
    abbrev pub moved_words : Memory
    moved_words = put m (address_of h x) v

    there : (s : ℕ) → x ≢ s → put own x o s ≡ own s
    there s ne = put-other (λ z. z ≡ own s) own x s o ne refl

    kept : (s : ℕ) → x ≢ s → moved_words (address_of h s) ≡ m (address_of h s)
    kept s ne =
        put-other (λ z. z ≡ m (address_of h s)) m (address_of h x) (address_of h s) v
          (slots_apart h.heap.start h.elem_size x s pos ne) refl

    -- A list without the slot.
    pub moved-Chain :
        (node : ℕ) (o' : Owner)
        → Chain h.heap.start h.elem_size m node (λ s. (own s ≡ o') × (x ≢ s))
        → Chain h.heap.start h.elem_size moved_words node (λ s. put own x o s ≡ o')
    moved-Chain node o' =
        Chain-frame h.heap.start h.elem_size m moved_words node
          (λ s p. (kept s p.1, there s p.1 ∙ p.0))

    -- A list of another owner.
    pub other-Chain :
        (node : ℕ) (o' : Owner)
        → own x ≢ o'
        → Chain h.heap.start h.elem_size m node (λ s. own s ≡ o')
        → Chain h.heap.start h.elem_size m node (λ s. (own s ≡ o') × (x ≢ s))
    other-Chain node o' ne =
        Chain-frame h.heap.start h.elem_size m m node (λ s p. (refl, (p, λ e. ne (ap own e ∙ p))))

    -- The state after one slot passes between the thread and a caller: the slot's word is written, and every
    -- list that does not hold it stays.
    pub moved-Owned :
        (t : TlsAllocator)
        → Owned h m own
        → own x ≢ pool
        → o ≢ pool
        → ((i : ℕ) → thread_id ≢ i → (own x ≢ in_arena i) × (own x ≢ in_list i))
        → Mine h moved_words (put own x o) thread_id t
        → Owned (set_tls h thread_id t) moved_words (put own x o)
    moved-Owned t c ours used apart mine = record {
      some_size = pos;
      some_len = c.some_len;
      within = λ s. elim (ℕ_discrete x s) [
        | yes e ↦ λ _. rw (← e) (c.within x ours)
        | no ne ↦ λ u. c.within s (λ z. u (there s ne ∙ z))
      ];
      blocks =
          Chain-frame h.heap.start h.elem_size m moved_words h.heap.list_node
            (λ s p. (
              kept s (λ e. ours (ap own (e ∙ omega arith) ∙ (p.1 0 c.some_len).0)),
              (
                p.0,
                λ j lt.
                    let (free, low) = p.1 j lt in
                    (there (s + j) (λ e. ours (ap own e ∙ free)) ∙ free, low),
              ),
            ))
            c.blocks;
      threads = set_tls-all (Mine h moved_words (put own x o)) t mine (λ i u ne at.
          let (arena, list) = c.threads i u at in
          (
            moved-Chain u.arena.list_node (in_arena i)
                (other-Chain u.arena.list_node (in_arena i) (apart i ne).0 arena),
            moved-Chain u.free_list (in_list i)
                (other-Chain u.free_list (in_list i) (apart i ne).1 list),
          ));
    }

    -- The holder of a slot may write to it.
    pub written-Owned : Owned h m own → is_taken (own x) ≡ true → Owned h moved_words own
    written-Owned c held =
        let frame : (node : ℕ) (o' : Owner)
            → is_taken o' ≡ false
            → Chain h.heap.start h.elem_size m node (λ s. own s ≡ o')
            → Chain h.heap.start h.elem_size moved_words node (λ s. own s ≡ o') =
          λ node o' not_held.
            Chain-frame h.heap.start h.elem_size m moved_words node
              (λ s p. (kept s (λ e. held_apart o' not_held (ap own e ∙ p)), p)) in
        record {
          some_size = pos;
          some_len = c.some_len;
          within = c.within;
          blocks =
              Chain-frame h.heap.start h.elem_size m moved_words h.heap.list_node
                (λ s p. (
                  kept s
                      (λ e. held_apart pool refl (ap own (e ∙ omega arith) ∙ (p.1 0 c.some_len).0)),
                  p,
                ))
                c.blocks;
          threads = λ i t at.
              let (arena, list) = c.threads i t at in
              (
                frame t.arena.list_node (in_arena i) refl arena,
                frame t.free_list (in_list i) refl list,
              );
        }
      where
        held_apart : (o' : Owner) → is_taken o' ≡ false → own x ≢ o'
        held_apart o' not_held e = cc (held, not_held, ap is_taken e)
