-- ===== src/PmHeap/Steps.antt =====
-- Calls of the heap (src/storage/pm_heap.rs) in any order.
use alchemy.Base.{
  ℕ, suc, ◌+◌, ◌%◌, ◌^◌, ◌≡◌, ◌<◌, ◌≤◌, Bool, true, false, Option, none, some, Result, ok, err,
  List, [], ◌∷◌, arith, length,
}
use alchemy.Map.{get}
use alchemy.Rid.{SystemError}
use alchemy.Mmap.{Os, create_and_map_pool}
use alchemy.PmHeap.{
  PmHeap, new_heap, keep_frame, in_pool, alloc_frame, removed, dealloc_at, dealloc_frame,
}
use alchemy.PmHeap.Frames.{
  HasFile, FilesOwned, new_heap-FilesOwned, count-FilesOwned, upsert-FilesOwned, erase-FilesOwned,
}

-- The calls.
pub data Step : Type 0 where
  alloc_call : ℕ → Step
  dealloc_call : ℕ → ℕ → Step

-- What calls keep, while the counter does not wrap.
pub record Kept (id : ℕ) (h : PmHeap) : Type 0 where
  pub owned : FilesOwned h
  pub counted : h.file_id ≤ id

module _ (os : Os) where
  -- The heap and the system after a call, which may have panicked.
  unfoldable pub step : Step → PmHeap → os.State → PmHeap × os.State
  step (alloc_call size) h s = let (_, h', s') = alloc_frame os size h s in (h', s')
  step (dealloc_call ptr size) h s = let (_, h', s') = dealloc_frame os ptr size h s in (h', s')

  unfoldable pub steps : List Step → PmHeap → os.State → PmHeap × os.State
  steps [] h s = (h, s)
  steps (call ∷ calls) h s = let (h', s') = step call h s in steps calls h' s'

  keep_frame-Kept :
      (id size : ℕ) (h : PmHeap) (r : Option (Result ℕ SystemError) × os.State)
      → h.file_id ≡ suc id
      → ((q path : ℕ) → HasFile h q path → path < id)
      → FilesOwned h
      → Kept (suc id) (keep_frame os id size h r).1
  keep_frame-Kept id size h (none, s) e new own = record { owned = own; counted = omega (arith, e) }
  keep_frame-Kept id size h (some (err x), s) e new own = record {
    owned = own;
    counted = omega (arith, e);
  }
  keep_frame-Kept id size h (some (ok p), s) e new own = record {
    owned = upsert-FilesOwned h id size p (omega (arith, e)) new own;
    counted = omega (arith, e);
  }

  in_pool-Kept :
      (size id : ℕ) (h : PmHeap) (r : Bool × os.State)
      → id + 1 < 2 ^ 64
      → Kept id h
      → Kept (suc id) (in_pool os size h r).1
  in_pool-Kept size id h (false, s) lt k = record {
    owned = k.owned;
    counted = omega (arith, k.counted);
  }
  in_pool-Kept size id h (true, s) lt k =
      let r = create_and_map_pool os h.file_id size none s in
      let moved = (h.file_id + 1) % 2 ^ 64 in
      let kept =
        keep_frame-Kept h.file_id size (record h { file_id = moved }) r (omega (arith, k.counted))
          k.owned.below (count-FilesOwned h moved (omega (arith, k.counted)) k.owned) in
      record { owned = kept.owned; counted = omega (arith, kept.counted, k.counted) }

  removed-Kept :
      (id : ℕ) (h : PmHeap) (r : Bool × os.State) → Kept id h → Kept id (removed os h r).1
  removed-Kept id h (true, s) k = k
  removed-Kept id h (false, s) k = k

  dealloc_at-Kept :
      (id ptr size : ℕ) (h : PmHeap) (s : os.State) (o : Option (ℕ × ℕ))
      → Kept id h
      → Kept id (dealloc_at os ptr size h s o).1
  dealloc_at-Kept id ptr size h s none k = k
  dealloc_at-Kept id ptr size h s (some (path, _)) k =
      removed-Kept id _ _ (record { owned = erase-FilesOwned h ptr k.owned; counted = k.counted })

  step-Kept :
      (id : ℕ) (call : Step) (h : PmHeap) (s : os.State)
      → id + 1 < 2 ^ 64
      → Kept id h
      → Kept (suc id) (step call h s).0
  unfolding step alloc_frame dealloc_frame
  step-Kept id (alloc_call size) h s lt k = in_pool-Kept size id h (os.create_dir_all s) lt k
  step-Kept id (dealloc_call ptr size) h s lt k =
      let kept = dealloc_at-Kept id ptr size h s (get h.file_mapping ptr) k in
      record { owned = kept.owned; counted = omega (arith, kept.counted) }

  steps-Kept :
      (id : ℕ) (calls : List Step) (h : PmHeap) (s : os.State)
      → id + length calls < 2 ^ 64
      → Kept id h
      → FilesOwned (steps calls h s).0
  unfolding steps
  steps-Kept id [] h s lt k = k.owned
  steps-Kept id (call ∷ calls) h s lt k =
      let (h', s') = step call h s in
      steps-Kept (suc id) calls h' s' (omega arith) (step-Kept id call h s (omega arith) k)

  -- After fewer than 2 ^ 64 calls of `alloc_frame` and `dealloc_frame` on a new heap, in any order and
  -- whatever the system answers, those that panic included, no two frames of the heap share a file,
  -- and every file of a frame has a number below the next one.
  pub steps-FilesOwned :
      (calls : List Step) (s : os.State)
      → length calls < 2 ^ 64
      → FilesOwned (steps calls new_heap s).0
  unfolding new_heap
  steps-FilesOwned calls s lt =
      steps-Kept 0 calls new_heap s (omega arith)
        (record { owned = new_heap-FilesOwned; counted = omega arith })
