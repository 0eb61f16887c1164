-- ===== src/Alloc/Race.antt =====
-- `ArrayAllocator::alloc` of src/utils/obj_alloc.rs run by any number of threads, one access to the shared
-- memory at a time, in any order.
pub mod Progress
pub mod Safety
use alchemy.Base.{ℕ, ◌<◌, ◌≡◌, ◌≢◌, Bool, true, false, Option, none, some, put}
use alchemy.Alloc.{Memory, ArrayAllocator, new}

-- Where a thread stands in the loop of `alloc`, with the node that it loaded last and the next one.
pub data Pc : Type 0 where
  idle : Pc
  loaded : (node : ℕ) → Pc
  exchanging : (node next : ℕ) → Pc

-- The list head, the memory, where the threads stand, and the blocks that callers got and have not freed.
pub record System : Type 0 where
  pub list_node : ℕ
  pub memory : Memory
  pub given : ℕ → Bool
  pub pc : ℕ → Pc

abbrev pub goto : System → ℕ → Pc → System
goto s i p = record s { pc = put s.pc i p }

-- One access of thread `i`, or of a caller to a block that it got. With `frees`, callers also free their
-- blocks: `dealloc`, whose accesses are one step here.
pub data Step (frees : Bool) (s : System) : System → Type 0 where
  load : (i : ℕ) → s.pc i ≡ idle → Step frees s (goto s i (loaded s.list_node))
  out_of_memory : (i : ℕ) → s.pc i ≡ loaded 0 → Step frees s (goto s i idle)
  load_next :
      (i node : ℕ)
      → s.pc i ≡ loaded node
      → node ≢ 0
      → Step frees s (goto s i (exchanging node (s.memory node)))
  exchange :
      (i node next : ℕ)
      → s.pc i ≡ exchanging node next
      → s.list_node ≡ node
      → Step frees s
          (record s { list_node = next; given = put s.given node true; pc = put s.pc i idle })
  again :
      (i node next : ℕ)
      → s.pc i ≡ exchanging node next
      → s.list_node ≢ node
      → Step frees s (goto s i (loaded s.list_node))
  write :
      (block v : ℕ)
      → s.given block ≡ true
      → Step frees s (record s { memory = put s.memory block v })
  free :
      (block : ℕ)
      → frees ≡ true
      → s.given block ≡ true
      → Step frees s (record s {
        list_node = block;
        memory = put s.memory block s.list_node;
        given = put s.given block false;
      })

-- What the steps lead to from a new allocator.
pub data Reach (frees : Bool) (cap addr size : ℕ) : System → Type 0 where
  start :
      (align : ℕ) (m : Memory) {a : ArrayAllocator} {m' : Memory}
      → 0 < size
      → new cap addr size align m ≡ some (a, m')
      → Reach frees cap addr size
          (record { list_node = a.list_node; memory = m'; given = λ _. false; pc = λ _. idle })
  later :
      {s t : System} → Reach frees cap addr size s → Step frees s t → Reach frees cap addr size t
