-- ===== src/Alloc/Slots/Reached.antt =====
-- Sequences of calls of a `HeapArray` (src/utils/obj_alloc.rs) by any threads. A call is one step; threads share the
-- heap only, whose exchange of the list head succeeds for one of them.
use mathlib.Core.Path.{subst}
use alchemy.Base.{
  ℕ, ◌*◌, ◌^◌, ◌<◌, ◌≤◌, ◌≡◌, ◌≢◌, sym, ap, ◌∙◌, arith, Bool, true, false, some, put, put-self,
  put-other, ℕ_discrete,
}
use alchemy.Rid.{SystemError}
use alchemy.Alloc.{Memory}
use alchemy.Alloc.Heap.{HeapArray, Outcome, append, delete, new_heap, capacity, index_to_ptr}
use alchemy.Alloc.Owners.{Owner, taken, is_taken, address_of, written-Owned}
use alchemy.Alloc.Slots.{Appended, Ends}
use alchemy.Alloc.Slots.Start.{Held, start-Held}
use alchemy.Alloc.Slots.Calls.{append-Ends, delete-Ends, DeleteEnds, Deleted, is_taken-taken}

-- The states of a heap of at most 2 ^ 32 slots and of its memory, with the slots that callers hold: they get them
-- from `append`, write to them, and give them to `delete`.
pub data Reach : HeapArray → Memory → (held : ℕ → Bool) → Type 0 where
  start :
      (arena_len elem_size elem_align arena_cnt ptr : ℕ) (m : Memory) {h : HeapArray} {m' : Memory}
      → 0 < arena_len
      → 0 < elem_size
      → arena_cnt * arena_len ≤ 2 ^ 32
      → new_heap arena_len elem_size elem_align arena_cnt ptr m ≡ some (h, m')
      → Reach h m' (λ _. false)
  appended :
      (fuel thread_id item index : ℕ) {h h' : HeapArray} {m m' : Memory} {held : ℕ → Bool}
      → Reach h m held
      → append fuel thread_id item h m ≡ some (Outcome.done index h' m')
      → Reach h' m' (put held index true)
  failed :
      (fuel thread_id item : ℕ) (error : SystemError) {h h' : HeapArray} {m m' : Memory}
      {held : ℕ → Bool}
      → Reach h m held
      → append fuel thread_id item h m ≡ some (Outcome.failed error h' m')
      → Reach h' m' held
  written :
      (index v : ℕ) {h : HeapArray} {m : Memory} {held : ℕ → Bool}
      → Reach h m held
      → held index ≡ true
      → Reach h (put m (index_to_ptr h index) v) held
  deleted :
      (thread_id index : ℕ) {h h' : HeapArray} {m m' : Memory} {held : ℕ → Bool}
      → Reach h m held
      → held index ≡ true
      → delete thread_id index h m ≡ Outcome.done tt h' m'
      → Reach h' m' (put held index false)

append-Held :
    (fuel thread_id item index : ℕ) (h h' : HeapArray) (m m' : Memory) (held : ℕ → Bool)
    → (x : Held h m held) → append fuel thread_id item h m ≡ some (Outcome.done index h' m')
    → (own' : ℕ → Owner) × (a : Appended h m x.own item index h' m' own') × (index ≡ a.got)
append-Held fuel thread_id item index h h' m m' held x e =
    let (own', a) =
      subst (Ends h m x.own item) e (append-Ends thread_id item fuel h m x.own x.owned) in
    (own', a, omega (arith, a.is_index, a.below, x.small))

delete-Held :
    (thread_id index : ℕ) (h h' : HeapArray) (m m' : Memory) (held : ℕ → Bool)
    → (x : Held h m held) → held index ≡ true
    → delete thread_id index h m ≡ Outcome.done tt h' m'
    → Deleted h m x.own index h' m'
delete-Held thread_id index h h' m m' held x holds e =
    subst (DeleteEnds thread_id index h m x.own) e (
      delete-Ends thread_id index h m x.own x.owned
        (is_taken-taken (x.own index) (x.same index ∙ holds)))

put-held :
    (own' : ℕ → Owner) (own : ℕ → Owner) (held : ℕ → Bool) (index : ℕ) (b : Bool)
    → is_taken (own' index) ≡ b
    → ((s : ℕ) → index ≢ s → is_taken (own' s) ≡ is_taken (own s))
    → ((s : ℕ) → is_taken (own s) ≡ held s)
    → (s : ℕ) → is_taken (own' s) ≡ put held index b s
put-held own' own held index b here others same s = elim (ℕ_discrete index s) [
  | yes e ↦ rw (← e) (put-self (λ x. is_taken (own' index) ≡ x) held index here)
  | no ne ↦ put-other (λ x. is_taken (own' s) ≡ x) held index s b ne (others s ne ∙ same s)
]

pub Reach-Held : {h : HeapArray} {m : Memory} {held : ℕ → Bool} → Reach h m held → Held h m held
unfolding index_to_ptr
Reach-Held (start arena_len elem_size elem_align arena_cnt ptr m some_len some_size small e) =
    start-Held arena_len elem_size elem_align arena_cnt ptr m _ _ some_len some_size small e
Reach-Held (appended fuel thread_id item index {h} {h'} {m} {m'} {held = held0} r e) =
    let x = Reach-Held r in
    let (own', a, at) = append-Held fuel thread_id item index h h' m m' held0 x e in
    record {
      own = own';
      owned = a.owned;
      same =
          put-held own' x.own held0 index true (ap (λ s. is_taken (own' s)) at ∙ a.gets)
            (λ s ne. a.others s (λ z. ne (at ∙ z))) x.same;
      small = rw a.shape.2 x.small;
    }
Reach-Held (failed fuel thread_id item error {h} {h'} {m} {m'} {held = held0} r e) =
    let x = Reach-Held r in
    let (own', g) =
      subst (Ends h m x.own item) e (append-Ends thread_id item fuel h m x.own x.owned) in
    record {
      own = own';
      owned = g.owned;
      same = λ s. g.same s ∙ x.same s;
      small = rw g.shape.2 x.small;
    }
Reach-Held (written index v {h} {m} {held = held0} r holds) =
    let x = Reach-Held r in
    record {
      own = x.own;
      owned =
          written-Owned h 0 m x.own x.owned.some_size index v taken x.owned (x.same index ∙ holds);
      same = x.same;
      small = x.small;
    }
Reach-Held (deleted thread_id index {h} {h'} {m} {m'} {held = held0} r holds e) =
    let x = Reach-Held r in
    let d = delete-Held thread_id index h h' m m' held0 x holds e in
    record {
      own = d.own';
      owned = d.owned;
      same = put-held d.own' x.own held0 index false d.frees d.others x.same;
      small = rw d.shape.2 x.small;
    }

-- Every state that calls of any threads lead to, of a heap of at most 2 ^ 32 slots: an `append` that returns an
-- index gives one below the capacity that no caller holds, its slot then holds the item, and the slots that
-- callers hold keep their words.
pub append-fresh :
    (h h' : HeapArray) (m m' : Memory) (held : ℕ → Bool) (fuel thread_id item index : ℕ)
    → Reach h m held
    → append fuel thread_id item h m ≡ some (Outcome.done index h' m')
    → (held index ≡ false)
      × (index < capacity h)
      × (m' (index_to_ptr h index) ≡ item)
      × ((i : ℕ) → held i ≡ true → m' (index_to_ptr h i) ≡ m (index_to_ptr h i))
unfolding capacity index_to_ptr
append-fresh h h' m m' held fuel thread_id item index r e =
    let x = Reach-Held r in
    let (own', a, at) = append-Held fuel thread_id item index h h' m m' held x e in
    (
      ap held at ∙ sym (x.same a.got) ∙ a.free,
      omega (arith, at, a.below),
      ap (λ i. m' (address_of h i)) at ∙ a.holds,
      λ i holds. a.words i (x.same i ∙ holds),
    )

-- The number of slots stays.
pub append-capacity :
    (h h' : HeapArray) (m m' : Memory) (held : ℕ → Bool) (fuel thread_id item index : ℕ)
    → Reach h m held
    → append fuel thread_id item h m ≡ some (Outcome.done index h' m')
    → capacity h' ≡ capacity h
unfolding capacity
append-capacity h h' m m' held fuel thread_id item index r e =
    (append-Held fuel thread_id item index h h' m m' held (Reach-Held r) e).1.shape.2
