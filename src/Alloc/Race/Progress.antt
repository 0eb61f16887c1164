-- ===== src/Alloc/Race/Progress.antt =====
-- A thread in `alloc` of src/utils/obj_alloc.rs does not lose its exchanges for nothing: each time another call
-- has got on.
use mathlib.Core.Path.{subst}
use alchemy.Base.{
  ℕ, ◌+◌, ◌≤◌, ◌≡◌, refl, sym, arith, Bool, put, put-self, put-other, ℕ_discrete, ◌==◌, ==-ne,
  ==-refl, if◌then◌else◌,
}
use alchemy.Alloc.Race.{
  Pc, idle, loaded, exchanging, System, Step, load, out_of_memory, load_next, exchange, again,
  write, free, Reach, start, later,
}

-- One if the step is a failed exchange of thread `i`.
unfoldable pub fails_now : {frees : Bool} {s t : System} → ℕ → Step frees s t → ℕ
fails_now i (load j at) = 0
fails_now i (out_of_memory j at) = 0
fails_now i (load_next j node at some_node) = 0
fails_now i (exchange j node next at head) = 0
fails_now i (again j node next at moved) = if j == i then 1 else 0
fails_now i (write block v held) = 0
fails_now i (free block frees held) = 0

-- One if another thread gets a block in the step, or a block is freed.
unfoldable pub gets_on_now : {frees : Bool} {s t : System} → ℕ → Step frees s t → ℕ
gets_on_now i (load j at) = 0
gets_on_now i (out_of_memory j at) = 0
gets_on_now i (load_next j node at some_node) = 0
gets_on_now i (exchange j node next at head) = if j == i then 0 else 1
gets_on_now i (again j node next at moved) = 0
gets_on_now i (write block v held) = 0
gets_on_now i (free block frees held) = 1

-- The steps of a run that are failed exchanges of thread `i`.
unfoldable pub fails :
    {frees : Bool} {cap addr size : ℕ} {s : System} → ℕ → Reach frees cap addr size s → ℕ
unfolding fails_now
fails i (start align m pos e) = 0
fails i (later r st) = fails i r + fails_now i st

-- The steps of a run in which another thread gets a block, or a block is freed.
unfoldable pub gets_on :
    {frees : Bool} {cap addr size : ℕ} {s : System} → ℕ → Reach frees cap addr size s → ℕ
unfolding gets_on_now
gets_on i (start align m pos e) = 0
gets_on i (later r st) = gets_on i r + gets_on_now i st

-- One if the thread stands there with a node that is not the head of the list any more.
abbrev stale : (list_node : ℕ) → Pc → ℕ
stale list_node idle = 0
stale list_node (loaded node) = if list_node == node then 0 else 1
stale list_node (exchanging node next) = if list_node == node then 0 else 1

stale-one : (list_node : ℕ) (p : Pc) → stale list_node p ≤ 1
stale-one list_node idle = omega arith
stale-one list_node (loaded node) = ground arith
stale-one list_node (exchanging node next) = ground arith

-- A thread that moves to a place that is not stale, or was before.
put-stale :
    (list_node : ℕ) (pc : ℕ → Pc) (j i : ℕ) (p : Pc)
    → stale list_node p ≤ stale list_node (pc j)
    → stale list_node (put pc j p i) ≤ stale list_node (pc i)
put-stale list_node pc j i p less = elim (ℕ_discrete j i) [
  | yes e ↦
      subst (λ k. stale list_node (put pc j p k) ≤ stale list_node (pc k)) e
        (put-self (λ q. stale list_node q ≤ stale list_node (pc j)) pc j less)
  | no ne ↦ put-other (λ q. stale list_node q ≤ stale list_node (pc i)) pc j i p ne (omega arith)
]

head-fresh : (list_node n : ℕ) → stale list_node (loaded list_node) ≤ n
head-fresh list_node n = rw (==-refl list_node) (omega arith)

Step-stale :
    {frees : Bool} (i : ℕ) {s t : System} (st : Step frees s t)
    → fails_now i st + stale t.list_node (t.pc i) ≤ gets_on_now i st + stale s.list_node (s.pc i)
unfolding fails_now gets_on_now
Step-stale i {s} (load j at) =
    omega (arith, put-stale s.list_node s.pc j i (loaded s.list_node) (head-fresh s.list_node _))
Step-stale i {s} (out_of_memory j at) =
    omega (arith, put-stale s.list_node s.pc j i idle (omega arith))
Step-stale i {s} (load_next j node at some_node) =
    let same : stale s.list_node (loaded node) ≤ stale s.list_node (s.pc j) =
      subst (λ p. stale s.list_node (loaded node) ≤ stale s.list_node p) (sym at) (omega arith) in
    omega (arith, put-stale s.list_node s.pc j i (exchanging node (s.memory node)) same)
Step-stale i {s} (exchange j node next at head) = elim (ℕ_discrete j i) [
  | yes e ↦
      let gone : stale next (put s.pc j idle i) ≡ 0 =
        subst (λ k. stale next (put s.pc j idle k) ≡ 0) e
          (put-self (λ q. stale next q ≡ 0) s.pc j refl) in
      omega (arith, gone)
  | no ne ↦ rw (==-ne j i ne) (omega (arith, stale-one next (s.pc i)))
]
Step-stale i {s} (again j node next at moved) = elim (ℕ_discrete j i) [
  | yes e ↦
      let now : stale s.list_node (put s.pc j (loaded s.list_node) i) ≡ 0 =
        subst (λ k. stale s.list_node (put s.pc j (loaded s.list_node) k) ≡ 0) e
          (put-self (λ q. stale s.list_node q ≡ 0) s.pc j (rw (==-refl s.list_node) refl)) in
      let before : stale s.list_node (s.pc i) ≡ 1 =
        subst (λ k. stale s.list_node (s.pc k) ≡ 1) e
          (subst (λ q. stale s.list_node q ≡ 1) (sym at)
            (rw (==-ne s.list_node node moved) refl)) in
      ground (arith, now, before)
  | no ne ↦
      let less = put-stale s.list_node s.pc j i (loaded s.list_node) (head-fresh s.list_node _) in
      rw (==-ne j i ne) (omega (arith, less))
]
Step-stale i {s} (write block v held) = omega arith
Step-stale i {s} (free block frees held) = omega (arith, stale-one block (s.pc i))

Reach-stale :
    {frees : Bool} {cap addr size : ℕ} (i : ℕ) {s : System} (r : Reach frees cap addr size s)
    → fails i r + stale s.list_node (s.pc i) ≤ gets_on i r
unfolding fails gets_on
Reach-stale i (start align m pos e) = omega arith
Reach-stale i (later r st) = omega (arith, Reach-stale i r, Step-stale i st)

-- Along any run of threads and holders of blocks from a new allocator, with blocks freed or not, the exchange
-- of a thread fails at most as often as other threads get blocks and blocks are freed.
pub fails-gets_on :
    {frees : Bool} {cap addr size : ℕ} (i : ℕ) {s : System} (r : Reach frees cap addr size s)
    → fails i r ≤ gets_on i r
fails-gets_on i r = omega (arith, Reach-stale i r)
