-- ===== src/Alloc/Slots/Start.antt =====
-- A new `HeapArray` (src/utils/obj_alloc.rs), of which no slot is held.
use mathlib.Core.Path.{subst}
use alchemy.Base.{
  ℕ, ◌*◌, ◌^◌, ◌<◌, ◌≤◌, ◌≡◌, refl, sym, ◌∙◌, arith, Bool, true, false, Option, none, some, leb,
  ◌&&◌, inl, inr, Bool-cases,
}
use native.Mathlib.Nat.{mul-le-mul_right}
use alchemy.Alloc.{Memory, new, link}
use alchemy.Alloc.Heap.{HeapArray, new_heap}
use alchemy.Alloc.Chain.{Chain-frame, link-blocks}
use alchemy.Alloc.Owners.{Owner, pool, is_taken, slots, IsBlock, Owned}

-- The slots that are taken are those that callers hold.
pub record Held (h : HeapArray) (m : Memory) (held : ℕ → Bool) : Type 0 where
  pub own : ℕ → Owner
  pub owned : Owned h m own
  pub same : (s : ℕ) → is_taken (own s) ≡ held s
  pub small : slots h ≤ 2 ^ 32

none-ne_some : {A : Type 0} (a : A) → ¬ Path (Option A) none (some a)
none-ne_some a e = cc (e)

some-eq : {A : Type 0} (a b : A) → Path (Option A) (some a) (some b) → a ≡ b
some-eq a b e = cc (e)

module _ (arena_len elem_size elem_align arena_cnt ptr : ℕ) (m : Memory) where
  new_heap-fits :
      leb 8 (arena_len * elem_size) && leb 8 elem_align ≡ true
      → new_heap arena_len elem_size elem_align arena_cnt ptr m
        ≡ some (
          record {
            arena_len = arena_len;
            elem_size = elem_size;
            elem_align = elem_align;
            heap = record {
              cap = arena_cnt;
              start = ptr;
              size = arena_len * elem_size;
              list_node = (link arena_cnt ptr (arena_len * elem_size) m).1;
            };
            tls_mapping = λ _. none;
          },
          (link arena_cnt ptr (arena_len * elem_size) m).0,
        )
  unfolding new_heap new
  new_heap-fits fits = rw (fits, new_heap) refl

  new_heap-fails :
      leb 8 (arena_len * elem_size) && leb 8 elem_align ≡ false
      → new_heap arena_len elem_size elem_align arena_cnt ptr m ≡ none
  unfolding new_heap new
  new_heap-fails fails = rw (fails, new_heap) refl

pub start-Held :
    (arena_len elem_size elem_align arena_cnt ptr : ℕ) (m : Memory) (h : HeapArray) (m' : Memory)
    → 0 < arena_len
    → 0 < elem_size
    → arena_cnt * arena_len ≤ 2 ^ 32
    → new_heap arena_len elem_size elem_align arena_cnt ptr m ≡ some (h, m')
    → Held h m' (λ _. false)
start-Held arena_len elem_size elem_align arena_cnt ptr m h m' some_len some_size small e =
    elim (Bool-cases (leb 8 (arena_len * elem_size) && leb 8 elem_align)) [
      | inr fails ↦ absurd (none-ne_some (h, m') (sym (not_made fails) ∙ e))
      | inl fits ↦
          let same = some-eq (made, words) (h, m') (sym (is_made fits) ∙ e) in
          subst (λ x. Held x.0 x.1 (λ _. false)) same made-Held
    ]
  where
    words : Memory
    words = (link arena_cnt ptr (arena_len * elem_size) m).0

    made : HeapArray
    made = record {
      arena_len = arena_len;
      elem_size = elem_size;
      elem_align = elem_align;
      heap = record {
        cap = arena_cnt;
        start = ptr;
        size = arena_len * elem_size;
        list_node = (link arena_cnt ptr (arena_len * elem_size) m).1;
      };
      tls_mapping = λ _. none;
    }

    is_made :
        leb 8 (arena_len * elem_size) && leb 8 elem_align ≡ true
        → new_heap arena_len elem_size elem_align arena_cnt ptr m ≡ some (made, words)
    is_made fits = new_heap-fits arena_len elem_size elem_align arena_cnt ptr m fits

    not_made :
        leb 8 (arena_len * elem_size) && leb 8 elem_align ≡ false
        → new_heap arena_len elem_size elem_align arena_cnt ptr m ≡ none
    not_made fails = new_heap-fails arena_len elem_size elem_align arena_cnt ptr m fails

    block : (s : ℕ) → (i : ℕ) × (s ≡ i * arena_len) × (i < arena_cnt) → IsBlock made (λ _. pool) s
    block s (i, at, lt) =
        ((i, at), λ j below. (refl, omega (arith, at, below, mul-le-mul_right arena_len lt)))

    made-Held : Held made words (λ _. false)
    made-Held = record {
      own = λ _. pool;
      owned = record {
        some_size = some_size;
        some_len = some_len;
        within = λ s used. absurd (used refl);
        blocks =
            Chain-frame ptr elem_size words words made.heap.list_node (λ s p. (refl, block s p))
              (link-blocks ptr elem_size arena_len arena_cnt m some_size some_len);
        threads = λ i t at. absurd (none-ne_some t at);
      };
      same = λ _. refl;
      small = small;
    }
