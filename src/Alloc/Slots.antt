-- ===== src/Alloc/Slots.antt =====
-- What `append` of src/utils/obj_alloc.rs gives: a slot that nobody holds, whatever threads have called it before.
pub mod Rounds
pub mod Calls
pub mod Start
pub mod Reached
use mathlib.Core.Path.{subst}
use native.Mathlib.Nat.{mul-div_cancel}
use alchemy.Base.{
  ℕ, zero, suc, ◌+◌, ◌-◌, ◌*◌, ◌/◌, ◌%◌, ◌^◌, ◌<◌, ◌≡◌, ◌≢◌, refl, sym, ap, ◌∙◌, arith, Bool, true,
  false, Option, none, some, Result, ok, err, put, put-self, put-other, ℕ_discrete, ◌⊎◌, inl, inr,
  ◌==◌, if◌then◌else◌,
}
use alchemy.Rid.{SystemError, array_allocator_out_of_memory}
use alchemy.Alloc.{Memory, ArrayAllocator, TlsAllocator, alloc_tls, update_arena}
use alchemy.Alloc.Heap.{HeapArray, Outcome, set_tls, new_arena, append_loop, ptr_to_index}
use alchemy.Alloc.Chain.{Chain-pop, slots_apart}
use alchemy.Alloc.Owners.{
  Owner, pool, taken, in_arena, in_list, is_taken, slots, Mine, Owned, address_of, SameShape,
  SameWords, Grown, set_tls-Owned, moved_words, moved-Chain, other-Chain, moved-Owned,
}
use alchemy.Alloc.Pop.{alloc_tls-list, alloc_tls-arena, alloc_tls-none}
use alchemy.Alloc.Grow.{
  new_arena-cases, arena_words, arena_of, heap_after, given, given-arena, grow-Mine, grow-Grown,
}

-- A call that gives an index: that of a slot that was not taken and now is, and holds the item. No other slot is
-- taken or given back, and the taken ones keep their words.
pub record Appended (h : HeapArray) (m : Memory) (own : ℕ → Owner) (item index : ℕ) (h' : HeapArray)
    (m' : Memory) (own' : ℕ → Owner) : Type 0 where
  pub owned : Owned h' m' own'
  pub shape : SameShape h h'
  pub got : ℕ
  pub is_index : index ≡ got % 2 ^ 32
  pub below : got < slots h
  pub free : is_taken (own got) ≡ false
  pub gets : is_taken (own' got) ≡ true
  pub others : (s : ℕ) → got ≢ s → is_taken (own' s) ≡ is_taken (own s)
  pub holds : m' (address_of h got) ≡ item
  pub words : SameWords h own m m'

Grown-Appended :
    {h : HeapArray} {m : Memory} {own : ℕ → Owner} {item index : ℕ} {h1 : HeapArray} {m1 : Memory}
    {own1 : ℕ → Owner} {h' : HeapArray} {m' : Memory} {own' : ℕ → Owner}
    → Grown h m own h1 m1 own1
    → Appended h1 m1 own1 item index h' m' own'
    → Appended h m own item index h' m' own'
Grown-Appended g a = record {
  owned = a.owned;
  shape = (a.shape.0 ∙ g.shape.0, a.shape.1 ∙ g.shape.1, a.shape.2 ∙ g.shape.2);
  got = a.got;
  is_index = a.is_index;
  below = rw (← g.shape.2) a.below;
  free = sym (g.same a.got) ∙ a.free;
  gets = a.gets;
  others = λ s ne. a.others s ne ∙ g.same s;
  holds = rw (← g.shape.0, ← g.shape.1) a.holds;
  words = λ s l. rw (← g.shape.0, ← g.shape.1) (a.words s (g.same s ∙ l)) ∙ g.words s l;
}

Grown-trans :
    {h : HeapArray} {m : Memory} {own : ℕ → Owner} {h1 : HeapArray} {m1 : Memory} {own1 : ℕ → Owner}
    {h' : HeapArray} {m' : Memory} {own' : ℕ → Owner}
    → Grown h m own h1 m1 own1
    → Grown h1 m1 own1 h' m' own'
    → Grown h m own h' m' own'
Grown-trans g a = record {
  owned = a.owned;
  shape = (a.shape.0 ∙ g.shape.0, a.shape.1 ∙ g.shape.1, a.shape.2 ∙ g.shape.2);
  same = λ s. a.same s ∙ g.same s;
  words = λ s l. rw (← g.shape.0, ← g.shape.1) (a.words s (g.same s ∙ l)) ∙ g.words s l;
}

-- How `append` ends.
abbrev pub Ends : HeapArray → Memory → (ℕ → Owner) → (item : ℕ) → Option (Outcome ℕ) → Type 0
Ends h m own item none = Unit {0}
Ends h m own item (some Outcome.panic) = Unit {0}
Ends h m own item (some (Outcome.failed e h' m')) = (own' : ℕ → Owner) × Grown h m own h' m' own'
Ends h m own item (some (Outcome.done index h' m')) =
    (own' : ℕ → Owner) × Appended h m own item index h' m' own'

pub Grown-Ends :
    {h : HeapArray} {m : Memory} {own : ℕ → Owner} {h1 : HeapArray} {m1 : Memory} {own1 : ℕ → Owner}
    (item : ℕ) (out : Option (Outcome ℕ))
    → Grown h m own h1 m1 own1
    → Ends h1 m1 own1 item out
    → Ends h m own item out
Grown-Ends item none g e = tt
Grown-Ends item (some Outcome.panic) g e = tt
Grown-Ends item (some (Outcome.failed x h' m')) g (own', e) = (own', Grown-trans g e)
Grown-Ends item (some (Outcome.done index h' m')) g (own', e) = (own', Grown-Appended g e)

module _ (thread_id item : ℕ) where
  -- A slot of the thread is taken.
  pub take-Appended :
      (h : HeapArray) (m : Memory) (own : ℕ → Owner) (x ptr : ℕ) (t : TlsAllocator)
      → Owned h m own
      → ptr ≡ address_of h x
      → ((own x ≡ in_arena thread_id) ⊎ (own x ≡ in_list thread_id))
      → Mine h (put m (address_of h x) item) (put own x taken) thread_id t
      → Appended h m own item
          (ptr_to_index (set_tls h thread_id t) ptr)
          (set_tls h thread_id t)
          (put m ptr item)
          (put own x taken)
  unfolding ptr_to_index
  take-Appended h m own x ptr t c at from mine =
      subst
        (λ p.
          Appended h m own item ((p - h.heap.start) / h.elem_size % 2 ^ 32) (set_tls h thread_id t)
            (put m p item) (put own x taken))
        (sym at)
        (record {
          owned =
              moved-Owned h thread_id m own c.some_size x item taken t c ours (λ e. cc (e)) apart
                mine;
          shape = (refl, refl, refl);
          got = x;
          is_index =
              ap (λ d. d / h.elem_size % 2 ^ 32) (omega arith)
              ∙ ap (λ d. d % 2 ^ 32) (mul-div_cancel x c.some_size);
          below = c.within x ours;
          free = not_taken;
          gets = put-self (λ o. is_taken o ≡ true) own x refl;
          others = λ s ne. put-other (λ o. is_taken o ≡ is_taken (own s)) own x s taken ne refl;
          holds = put-self (λ v. v ≡ item) m (address_of h x) refl;
          words = λ s l. elim (ℕ_discrete x s) [
            | yes e ↦ absurd (false-ne_true (sym not_taken ∙ ap (λ z. is_taken (own z)) e ∙ l))
            | no ne ↦
                put-other (λ v. v ≡ m (address_of h s)) m (address_of h x) (address_of h s) item
                  (slots_apart h.heap.start h.elem_size x s c.some_size ne) refl
          ];
        })
    where
      ours : own x ≢ pool
      ours z = elim from [ inl e ↦ cc (z, e) | inr e ↦ cc (z, e) ]

      not_taken : is_taken (own x) ≡ false
      not_taken = elim from [ inl e ↦ ap is_taken e | inr e ↦ ap is_taken e ]

      apart : (i : ℕ) → thread_id ≢ i → (own x ≢ in_arena i) × (own x ≢ in_list i)
      apart i ne = elim from [
        | inl e ↦ ((λ z. ne (cc (z, e))), λ z. cc (z, e))
        | inr e ↦ ((λ z. cc (z, e)), λ z. ne (cc (z, e)))
      ]

      false-ne_true : Path Bool false true → ⊥
      false-ne_true e = cc (e)
