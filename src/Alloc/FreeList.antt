-- ===== src/Alloc/FreeList.antt =====
-- The free list of `ArrayAllocator` in src/utils/obj_alloc.rs, as the list of the indices in it.
use alchemy.Base.{
  ℕ, zero, suc, ◌+◌, ◌-◌, ◌*◌, ◌/◌, ◌≤◌, ◌<◌, ◌≡◌, ◌≢◌, refl, ◌∙◌, ap, arith, ◌&&◌, none, some, ok,
  err, put, put-self, put-other, List, [], ◌∷◌, length, leb, if_true, if_false, ==-ne,
}
use alchemy.Alloc.{Memory, ArrayAllocator, link, new, alloc, dealloc, get_by_index}
use mathlib.Core.Path.{subst}
use native.Mathlib.Nat.{mul-lt-mul_of_pos_right, mul-div_cancel}

-- The blocks on the list from `node` on are those of the given indices.
abbrev pub Holds : (start size : ℕ) → Memory → (node : ℕ) → List ℕ → Type 0
Holds start size m node [] = node ≡ 0
Holds start size m node (i ∷ is) = (node ≡ start + i * size) × Holds start size m (m node) is

-- The indices below a number, from the last on.
abbrev pub down_from : ℕ → List ℕ
down_from zero = []
down_from (suc n) = n ∷ down_from n

abbrev pub AllBelow : ℕ → List ℕ → Type 0
AllBelow n [] = Unit {0}
AllBelow n (i ∷ is) = (i < n) × AllBelow n is

pub blocks_apart : (start size i n : ℕ) → 0 < size → i < n → start + n * size ≢ start + i * size
blocks_apart start size i n pos lt e = omega (arith, mul-lt-mul_of_pos_right lt pos)

-- A write to a block that is not on the list leaves the list.
Holds-put :
    (start size : ℕ) (m : Memory) (node : ℕ) (is : List ℕ) (n v : ℕ)
    → 0 < size
    → AllBelow n is
    → Holds start size m node is
    → Holds start size (put m (start + n * size) v) node is
Holds-put start size m node [] n v pos below h = h
Holds-put start size m node (i ∷ is) n v pos (lt, below) (here, h) = (
  here,
  put-other (λ next. Holds start size (put m (start + n * size) v) next is) m (start + n * size)
      node v (rw here (blocks_apart start size i n pos lt))
      (Holds-put start size m (m node) is n v pos below h),
)

pub AllBelow-down_from : (n k : ℕ) → n ≤ k → AllBelow k (down_from n)
AllBelow-down_from zero k h = tt
AllBelow-down_from (suc n) k h = (omega arith, AllBelow-down_from n k (omega arith))

pub link-Holds :
    (cap addr size : ℕ) (m : Memory)
    → 0 < size
    → Holds addr size (link cap addr size m).0 (link cap addr size m).1 (down_from cap)
unfolding link
link-Holds zero addr size m pos = refl
link-Holds (suc i) addr size m pos =
    let before = link-Holds i addr size m pos in
    let m' = (link i addr size m).0 in
    (
      refl,
      put-self
          (λ next.
            Holds addr size (put m' (addr + i * size) (link i addr size m).1) next (down_from i))
          m' (addr + i * size)
          (Holds-put addr size m' (link i addr size m).1 (down_from i) i _ pos
            (AllBelow-down_from i i (omega arith)) before),
    )

-- `alloc` repeated: the indices it gives, in order, until it fails.
abbrev pub alloc_all : ℕ → ArrayAllocator → Memory → List ℕ × ArrayAllocator
alloc_all zero a m = ([], a)
alloc_all (suc n) a m =
    let (out, a') = alloc a m in
    let (rest, a'') = alloc_all n a' m in
    elim out [ err e ↦ ([], a') | ok (index, ptr) ↦ (index ∷ rest, a'') ]

index_of_block : (start size i : ℕ) → 0 < size → (start + i * size - start) / size ≡ i
index_of_block start size i pos = ap (λ x. x / size) (omega arith) ∙ mul-div_cancel i pos

-- `alloc` takes the first block of the list.
pub alloc-Holds :
    (a : ArrayAllocator) (m : Memory) (i : ℕ) (is : List ℕ)
    → 0 < a.start
    → 0 < a.size
    → Holds a.start a.size m a.list_node (i ∷ is)
    → alloc a m ≡ (ok (i, a.list_node), record a { list_node = m a.list_node })
unfolding alloc
alloc-Holds a m i is some_start pos (here, h) =
    if_false _ _ (==-ne a.list_node 0 (omega arith))
    ∙ ap (λ x. (ok (x, a.list_node), record a { list_node = m a.list_node }))
        (ap (λ x. (x - a.start) / a.size) here ∙ index_of_block a.start a.size i pos)

alloc_all-Holds :
    (is : List ℕ) (a : ArrayAllocator) (m : Memory)
    → 0 < a.start
    → 0 < a.size
    → Holds a.start a.size m a.list_node is
    → (alloc_all (suc (length is)) a m).0 ≡ is
unfolding alloc
alloc_all-Holds [] a m some_start pos h = rw (h) refl
alloc_all-Holds (i ∷ is) a m some_start pos h =
    ap
      (λ out.
        (let (rest, a'') = alloc_all (suc (length is)) out.1 m in
          (elim out.0 as (λ _. List ℕ × ArrayAllocator) [
            | err e ↦ ([], out.1)
            | ok (index, ptr) ↦ (index ∷ rest, a'')
          ]).0))
      (alloc-Holds a m i is some_start pos h)
    ∙ (ap (λ rest. i ∷ rest)
        (alloc_all-Holds is (record a { list_node = m a.list_node }) m some_start pos h.1))

-- The objects have at least 8 bytes and that alignment, and the memory does not begin at the
-- null pointer. Then `ArrayAllocator::new` succeeds, and `cap + 1` calls of `alloc` give each
-- index below `cap` once, from the last on, before one fails.
pub alloc_all-new :
    (cap addr size align : ℕ) (m : Memory)
    → 8 ≤ size
    → 8 ≤ align
    → 0 < addr
    → (a : ArrayAllocator) × (m' : Memory) × (new cap addr size align m ≡ some (a, m'))
      × ((alloc_all (suc cap) a m').0 ≡ down_from cap)
unfolding new
alloc_all-new cap addr size align m large aligned some_start =
    let m' = (link cap addr size m).0 in
    let a : ArrayAllocator = record {
      cap = cap;
      start = addr;
      size = size;
      list_node = (link cap addr size m).1;
    } in
    (
      a,
      m',
      if_true {b = leb 8 size && leb 8 align} (some (a, m')) none (ground arith),
      subst (λ n. (alloc_all (suc n) a m').0 ≡ down_from cap) (length-down_from cap)
          (alloc_all-Holds (down_from cap) a m' some_start (omega arith)
            (link-Holds cap addr size m (omega arith))),
    )
  where
    length-down_from : (n : ℕ) → length (down_from n) ≡ n
    length-down_from zero = refl
    length-down_from (suc n) = ap suc (length-down_from n)

-- The memory does not begin at the null pointer, and the objects have a size. Then the block
-- given back by its index is the next one that `alloc` gives, and the allocator is then as
-- before.
pub alloc-dealloc :
    (a : ArrayAllocator) (m : Memory) (i : ℕ)
    → 0 < a.start
    → 0 < a.size
    → (let (a', m') = dealloc a (get_by_index a i) m in alloc a' m' ≡ (ok (i, get_by_index a i), a))
unfolding alloc dealloc get_by_index
alloc-dealloc a m i some_start pos =
    let ptr : ℕ = a.start + i * a.size in
    if_false _ _ (==-ne ptr 0 (omega arith))
    ∙ ap (λ x. (ok (x, ptr), record a { list_node = put m ptr a.list_node ptr }))
        (index_of_block a.start a.size i pos)
    ∙ ap (λ x. (ok (i, ptr), record a { list_node = x }))
        (put-self (λ x. x ≡ a.list_node) m ptr refl)
