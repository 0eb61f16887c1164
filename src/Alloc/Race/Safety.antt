-- ===== src/Alloc/Race/Safety.antt =====
-- No block is given twice (src/utils/obj_alloc.rs), as long as none is freed.
use mathlib.Core.Path.{subst}
use alchemy.Base.{
  ℕ, ◌+◌, ◌*◌, ◌<◌, ◌≤◌, ◌≡◌, ◌≢◌, ◌⊎◌, inl, inr, refl, sym, ap, ◌∙◌, arith, true, false, Option,
  none, some, put, put-self, put-other, ℕ_discrete, leb, ◌&&◌, Bool-cases, if_true, if_false,
}
use alchemy.Alloc.{Memory, ArrayAllocator, new, link}
use alchemy.Alloc.Chain.{Chain, Chain-frame, Chain-pop, slots_apart, slot, link-Chain}
use alchemy.Alloc.Race.{
  Pc, idle, loaded, exchanging, System, goto, Step, load, out_of_memory, load_next, exchange, again,
  write, free, Reach, start, later,
}

-- What a thread knows of the node it loaded: it is given by now, or still the head of the list.
abbrev Knows : System → Pc → Type 0
Knows s idle = Unit {0}
Knows s (loaded node) = (s.given node ≡ true) ⊎ (s.list_node ≡ node)
Knows s (exchanging node next) =
    (node ≢ 0) × ((s.given node ≡ true) ⊎ ((s.list_node ≡ node) × (s.memory node ≡ next)))

some-eq : {A : Type 0} (x y : A) → Path (Option A) (some x) (some y) → x ≡ y
some-eq x y e = cc (e)

module _ (cap addr size : ℕ) where
  -- The block is free, and within the memory.
  abbrev IsFree : System → ℕ → Type 0
  IsFree s x = (s.given (slot addr size x) ≡ false) × (x < cap)

  record Inv (s : System) : Type 0 where
    some_size : 0 < size
    blocks : Chain addr size s.memory s.list_node (IsFree s)
    knows : (i : ℕ) → Knows s (s.pc i)

  -- A thread moves on in its loop.
  goto-Inv : (s : System) (i : ℕ) (p : Pc) → Inv s → Knows s p → Inv (goto s i p)
  goto-Inv s i p c k = record {
    some_size = c.some_size;
    blocks = c.blocks;
    knows = λ j. elim (ℕ_discrete i j) [
      | yes e ↦ subst (λ x. Knows s (put s.pc i p x)) e (put-self (Knows s) s.pc i k)
      | no ne ↦ put-other (Knows s) s.pc i j p ne (c.knows j)
    ];
  }

  -- The block that an exchange takes is free, and the thread knows what comes after it.
  taken_block :
      (s : System) (i node next : ℕ)
      → Inv s
      → s.pc i ≡ exchanging node next
      → s.list_node ≡ node
      → (x : ℕ) × (node ≡ slot addr size x)
        × IsFree s x
        × (s.memory node ≡ next)
        × Chain addr size s.memory next (λ y. IsFree s y × (x ≢ y))
  taken_block s i node next c at head =
      let (some_node, known) = subst (Knows s) at (c.knows i) in
      let (x, is, unused, rest) =
        Chain-pop addr size s.memory s.list_node (λ z. some_node (sym head ∙ z)) c.blocks in
      let here : node ≡ slot addr size x = sym head ∙ is in
      let is_next : s.memory node ≡ next = elim known [
        | inl held ↦ cc (held, unused.0, ap s.given here)
        | inr (_, e) ↦ e
      ] in
      (
        x,
        here,
        unused,
        is_next,
        subst (λ n. Chain addr size s.memory n (λ y. IsFree s y × (x ≢ y)))
            (ap s.memory head ∙ is_next) rest,
      )

  -- The exchange that takes a block off the list.
  exchange-Inv :
      (s : System) (i node next : ℕ)
      → Inv s
      → s.pc i ≡ exchanging node next
      → s.list_node ≡ node
      → Inv (record s { list_node = next; given = put s.given node true; pc = put s.pc i idle })
  exchange-Inv s i node next c at head =
      let (x, here, unused, is_next, rest) = taken_block s i node next c at head in
      let s' = record s { list_node = next; given = put s.given node true; pc = put s.pc i idle } in
      record {
        some_size = c.some_size;
        blocks =
            Chain-frame addr size s.memory s.memory next
              (λ y p. (
                refl,
                (
                  put-other (λ b. b ≡ false) s.given node (slot addr size y) true
                      (λ e. slots_apart addr size x y c.some_size p.1 (sym here ∙ e)) p.0.0,
                  p.0.1,
                ),
              ))
              rest;
        knows = λ j. elim (ℕ_discrete i j) [
          | yes e ↦ subst (λ k. Knows s' (put s.pc i idle k)) e (put-self (Knows s') s.pc i tt)
          | no ne ↦ put-other (Knows s') s.pc i j idle ne (others (s.pc j) (c.knows j))
        ];
      }
    where
      now : (n : ℕ) → node ≡ n → put s.given node true n ≡ true
      now n e =
          subst (λ k. put s.given node true k ≡ true) e (put-self (λ b. b ≡ true) s.given node refl)

      still : (n : ℕ) → s.given n ≡ true → put s.given node true n ≡ true
      still n held = elim (ℕ_discrete node n) [
        | yes e ↦ now n e
        | no ne ↦ put-other (λ b. b ≡ true) s.given node n true ne held
      ]

      others :
          (p : Pc)
          → Knows s p
          → Knows
              (record s { list_node = next; given = put s.given node true; pc = put s.pc i idle })
              p
      others idle k = tt
      others (loaded n) (inl held) = inl (still n held)
      others (loaded n) (inr e) = inl (now n (sym head ∙ e))
      others (exchanging n m) (some_node, inl held) = (some_node, inl (still n held))
      others (exchanging n m) (some_node, inr (e, _)) = (some_node, inl (now n (sym head ∙ e)))

  write-Inv :
      (s : System) (block v : ℕ)
      → Inv s
      → s.given block ≡ true
      → Inv (record s { memory = put s.memory block v })
  write-Inv s block v c held = record {
    some_size = c.some_size;
    blocks =
        Chain-frame addr size s.memory (put s.memory block v) s.list_node
          (λ y p. (
            put-other (λ w. w ≡ s.memory (slot addr size y)) s.memory block (slot addr size y) v
                (λ e. cc (held, p.0, ap s.given e)) refl,
            p,
          ))
          c.blocks;
    knows = λ j. others (s.pc j) (c.knows j);
  }
    where
      others : (p : Pc) → Knows s p → Knows (record s { memory = put s.memory block v }) p
      others idle k = tt
      others (loaded n) k = k
      others (exchanging n m) (some_node, inl h) = (some_node, inl h)
      others (exchanging n m) (some_node, inr (e, is)) = elim (ℕ_discrete block n) [
        | yes same ↦ (some_node, inl (sym (ap s.given same) ∙ held))
        | no ne ↦ (some_node, inr (e, put-other (λ w. w ≡ m) s.memory block n v ne is))
      ]

  Step-Inv : {s t : System} → Step false s t → Inv s → Inv t
  Step-Inv {s} (load i at) c = goto-Inv s i (loaded s.list_node) c (inr refl)
  Step-Inv {s} (out_of_memory i at) c = goto-Inv s i idle c tt
  Step-Inv {s} (load_next i node at some_node) c =
      goto-Inv s i (exchanging node (s.memory node)) c (
        some_node,
        elim (subst (Knows s) at (c.knows i)) [ inl held ↦ inl held | inr e ↦ inr (e, refl) ],
      )
  Step-Inv {s} (exchange i node next at head) c = exchange-Inv s i node next c at head
  Step-Inv {s} (again i node next at moved) c = goto-Inv s i (loaded s.list_node) c (inr refl)
  Step-Inv {s} (write block v held) c = write-Inv s block v c held
  Step-Inv {s} (free block frees held) c = cc (frees)

  new-Inv :
      (align : ℕ) (m : Memory) (a : ArrayAllocator) (m' : Memory)
      → 0 < size
      → new cap addr size align m ≡ some (a, m')
      → Inv (record { list_node = a.list_node; memory = m'; given = λ _. false; pc = λ _. idle })
  unfolding new
  new-Inv align m a m' pos e =
      let words = (link cap addr size m).0 in
      let first = (link cap addr size m).1 in
      let fresh : Inv
          (record { list_node = first; memory = words; given = λ _. false; pc = λ _. idle }) =
        record {
          some_size = pos;
          blocks =
              Chain-frame addr size words words first (λ x p. (refl, (refl, omega (arith, p.1))))
                (subst
                  (λ p.
                    Chain addr size (link cap p size m).0 (link cap p size m).1
                      (λ x. (0 ≤ x) × (x < 0 + cap)))
                  (omega arith) (link-Chain addr size 0 cap m pos).0);
          knows = λ _. tt;
        } in
      elim (Bool-cases (leb 8 size && leb 8 align)) [
        | inl fits ↦
            let same : made ≡ (a, m') =
              some-eq made (a, m')
                (sym (if_true {b = leb 8 size && leb 8 align} (some made) none fits) ∙ e) in
            subst
              (λ x. Inv (record {
                list_node = x.0.list_node;
                memory = x.1;
                given = λ _. false;
                pc = λ _. idle;
              }))
              same fresh
        | inr small ↦ cc (sym (if_false {b = leb 8 size && leb 8 align} (some made) none small) ∙ e)
      ]
    where
      made : ArrayAllocator × Memory
      made = (
        record { cap = cap; start = addr; size = size; list_node = (link cap addr size m).1 },
        (link cap addr size m).0,
      )

  Reach-Inv : {s : System} → Reach false cap addr size s → Inv s
  Reach-Inv (start align m {a} {m'} pos e) = new-Inv align m a m' pos e
  Reach-Inv (later r st) = Step-Inv st (Reach-Inv r)

  -- As long as no block is freed, whatever the threads and the holders of blocks do: an exchange that succeeds gives
  -- a block of the allocator that nobody has been given.
  pub exchange-gives_once :
      (s : System) (i node next : ℕ)
      → Reach false cap addr size s
      → s.pc i ≡ exchanging node next
      → s.list_node ≡ node
      → (s.given node ≡ false) × ((x : ℕ) × (x < cap) × (node ≡ addr + x * size))
  exchange-gives_once s i node next r at head =
      let (x, here, unused, _, _) = taken_block s i node next (Reach-Inv r) at head in
      (ap s.given here ∙ unused.0, (x, unused.1, here))
