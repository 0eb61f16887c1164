-- ===== src/Alloc/Chain.antt =====
-- The lists of free blocks of src/utils/obj_alloc.rs, with a property that every block on a list has.
use alchemy.Base.{
  ℕ, zero, suc, ◌+◌, ◌*◌, ◌≤◌, ◌<◌, ◌≡◌, ◌≢◌, refl, sym, ap, ◌∙◌, arith, List, [], ◌∷◌, map, put,
  put-self, put-other, ◌==◌, ==-ne, if_false,
}
use mathlib.Core.Path.{subst}
use native.Mathlib.Nat.{mul-pos, eq_of_mul-eq-mul_right}
use alchemy.Alloc.{Memory, link}
use alchemy.Alloc.FreeList.{Holds, down_from, link-Holds}

abbrev pub All : (ℕ → Type 0) → List ℕ → Type 0
All P [] = Unit {0}
All P (x ∷ xs) = P x × All P xs

pub All-imp : {P Q : ℕ → Type 0} (xs : List ℕ) → ((x : ℕ) → P x → Q x) → All P xs → All Q xs
All-imp [] f a = tt
All-imp (x ∷ xs) f (p, a) = (f x p, All-imp xs f a)

All-both : (P Q : ℕ → Type 0) (xs : List ℕ) → All P xs → All Q xs → All (λ x. P x × Q x) xs
All-both P Q [] a b = tt
All-both P Q (x ∷ xs) (p, a) (q, b) = ((p, q), All-both P Q xs a b)

All-map : (P : ℕ → Type 0) (f : ℕ → ℕ) (xs : List ℕ) → All (λ x. P (f x)) xs → All P (map f xs)
All-map P f [] a = tt
All-map P f (x ∷ xs) (p, a) = (p, All-map P f xs a)

abbrev pub Distinct : List ℕ → Type 0
Distinct [] = Unit {0}
Distinct (x ∷ xs) = All (λ y. x ≢ y) xs × Distinct xs

Distinct-map :
    (f : ℕ → ℕ) (xs : List ℕ) → ((x y : ℕ) → f x ≡ f y → x ≡ y) → Distinct xs → Distinct (map f xs)
Distinct-map f [] inj d = tt
Distinct-map f (x ∷ xs) inj (a, d) =
    (All-map _ f xs (All-imp xs (λ y ne e. ne (inj x y e)) a), Distinct-map f xs inj d)

down_from-All : (n k : ℕ) → n ≤ k → All (λ x. x < k) (down_from n)
down_from-All zero k le = tt
down_from-All (suc n) k le = (omega arith, down_from-All n k (omega arith))

down_from-Distinct : (n : ℕ) → Distinct (down_from n)
down_from-Distinct zero = tt
down_from-Distinct (suc n) = (
  All-imp (down_from n) (λ y lt e. absurd (omega arith)) (down_from-All n n (omega arith)),
  down_from-Distinct n,
)

module _ (start size : ℕ) where
  abbrev pub slot : ℕ → ℕ
  slot x = start + x * size

  -- The list from `node` on is one of different blocks that have the property.
  abbrev pub Chain : Memory → (node : ℕ) → (ℕ → Type 0) → Type 0
  Chain m node P = (xs : List ℕ) × Holds start size m node xs × All P xs × Distinct xs

  Holds-frame :
      {P : ℕ → Type 0} (m m' : Memory) (node : ℕ) (xs : List ℕ)
      → ((x : ℕ) → P x → m' (slot x) ≡ m (slot x))
      → All P xs
      → Holds start size m node xs
      → Holds start size m' node xs
  Holds-frame m m' node [] same a h = h
  Holds-frame m m' node (x ∷ xs) same (p, a) (here, h) = (
    here,
    subst (λ next. Holds start size m' next xs) (ap m here ∙ sym (same x p) ∙ sym (ap m' here))
        (Holds-frame m m' (m node) xs same a h),
  )

  -- A list stays if its blocks keep their words.
  pub Chain-frame :
      {P Q : ℕ → Type 0} (m m' : Memory) (node : ℕ)
      → ((x : ℕ) → P x → (m' (slot x) ≡ m (slot x)) × Q x)
      → Chain m node P
      → Chain m' node Q
  Chain-frame m m' node f (xs, h, a, d) =
      (xs, Holds-frame m m' node xs (λ x p. (f x p).0) a h, All-imp xs (λ x p. (f x p).1) a, d)

  -- The first block of a list that is not empty.
  pub Chain-pop :
      {P : ℕ → Type 0} (m : Memory) (node : ℕ)
      → node ≢ 0
      → Chain m node P
      → (x : ℕ) × (node ≡ slot x) × P x × Chain m (m node) (λ y. P y × (x ≢ y))
  Chain-pop m node some_node ([], h, a, d) = absurd (some_node h)
  Chain-pop m node some_node ((x ∷ xs), (here, h), (p, a), (apart, d)) =
      (x, here, p, (xs, h, All-both _ _ xs a apart, d))

  pub slots_apart : (x y : ℕ) → 0 < size → x ≢ y → slot x ≢ slot y
  slots_apart x y pos ne e = ne (eq_of_mul-eq-mul_right size pos x y (omega (arith, e)))

  -- A block in front.
  pub Chain-push :
      {P : ℕ → Type 0} (m : Memory) (node x : ℕ)
      → 0 < size
      → P x
      → Chain m node (λ y. P y × (x ≢ y))
      → Chain (put m (slot x) node) (slot x) P
  Chain-push {P = P} m node x pos p (xs, h, a, d) =
      let m' = put m (slot x) node in
      let same : (y : ℕ) → P y × (x ≢ y) → m' (slot y) ≡ m (slot y) = λ y q.
        if_false {b = slot x == slot y} _ _ (==-ne (slot x) (slot y) (slots_apart x y pos q.1)) in
      (
        x ∷ xs,
        (
          refl,
          put-self (λ next. Holds start size m' next xs) m (slot x)
              (Holds-frame m m' node xs same a h),
        ),
        (p, All-imp xs (λ y q. q.0) a),
        (All-imp xs (λ y q. q.1) a, d),
      )

-- `new` writes to its blocks only.
link-other :
    (cap addr size : ℕ) (m : Memory) (a : ℕ)
    → ((j : ℕ) → j < cap → addr + j * size ≢ a)
    → (link cap addr size m).0 a ≡ m a
unfolding link
link-other zero addr size m a ne = refl
link-other (suc i) addr size m a ne =
    put-other (λ v. v ≡ m a) (link i addr size m).0 (addr + i * size) a _ (ne i (omega arith))
      (link-other i addr size m a (λ j lt. ne j (omega (arith, lt))))

Holds-shift :
    (start size s : ℕ) (m : Memory) (node : ℕ) (is : List ℕ)
    → Holds (start + s * size) size m node is
    → Holds start size m node (map (λ i. s + i) is)
Holds-shift start size s m node [] h = h
Holds-shift start size s m node (i ∷ is) (here, h) =
    (omega (arith, here), Holds-shift start size s m (m node) is h)

Holds-scale :
    (start size n : ℕ) (m : Memory) (node : ℕ) (is : List ℕ)
    → Holds start (n * size) m node is
    → Holds start size m node (map (λ i. i * n) is)
Holds-scale start size n m node [] h = h
Holds-scale start size n m node (i ∷ is) (here, h) =
    (omega (arith, here), Holds-scale start size n m (m node) is h)

-- The list that `new` makes of the blocks from block `s` on, and what it leaves.
pub link-Chain :
    (start size s n : ℕ) (m : Memory)
    → 0 < size
    → (let (m', node) = link n (start + s * size) size m in
        Chain start size m' node (λ x. (s ≤ x) × (x < s + n))
        × ((y : ℕ) → (s ≤ y → s + n ≤ y) → m' (start + y * size) ≡ m (start + y * size)))
link-Chain start size s n m pos = (
  (
    map (λ i. s + i) (down_from n),
    Holds-shift start size s _ _ (down_from n) (link-Holds n (start + s * size) size m pos),
    All-map _ (λ i. s + i) (down_from n)
        (All-imp (down_from n) (λ x lt. (omega arith, omega (arith, lt)))
          (down_from-All n n (omega arith))),
    Distinct-map (λ i. s + i) (down_from n) (λ x y e. omega (arith, e)) (down_from-Distinct n),
  ),
  λ y out. link-other n (start + s * size) size m (start + y * size) (λ j lt e.
      slots_apart start size (s + j) y pos
        (λ same. absurd (omega (arith, lt, same, out (omega (arith, same))))) (omega (arith, e))),
)

-- The list that `new` makes of blocks of `n` slots.
pub link-blocks :
    (start size n cap : ℕ) (m : Memory)
    → 0 < size
    → 0 < n
    → (let (m', node) = link cap start (n * size) m in
        Chain start size m' node (λ x. (i : ℕ) × (x ≡ i * n) × (i < cap)))
link-blocks start size n cap m pos some_len = (
  map (λ i. i * n) (down_from cap),
  Holds-scale start size n _ _ (down_from cap)
      (link-Holds cap start (n * size) m (mul-pos some_len pos)),
  All-map _ (λ i. i * n) (down_from cap)
      (All-imp (down_from cap) (λ i lt. (i, refl, lt)) (down_from-All cap cap (omega arith))),
  Distinct-map (λ i. i * n) (down_from cap) (λ x y e. eq_of_mul-eq-mul_right n some_len x y e)
      (down_from-Distinct cap),
)
