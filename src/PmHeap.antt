-- ===== src/PmHeap.antt =====
-- The frames of src/storage/pm_heap.rs: each is a file of the pool, mapped into memory. The map from
-- addresses to files is that of a library; the number of a file stands for its path.
pub mod Frames
pub mod Steps
pub mod Release
use alchemy.Base.{
  ℕ, ◌+◌, ◌%◌, ◌^◌, ◌≡◌, refl, Bool, true, false, Option, none, some, Result, ok, err, List, [],
  ◌∷◌,
}
use alchemy.Rid.{SystemError}
use alchemy.Map.{Map, get, upsert, erase}
use alchemy.Mmap.{Os, create_and_map_pool}

pub record PmHeap : Type 0 where
  pub file_id : ℕ
  pub file_mapping : Map (ℕ × ℕ)

unfoldable pub new_heap : PmHeap
new_heap = record { file_id = 0; file_mapping = [] }

module _ (os : Os) where
  -- The answer of a call, `none` where it panics, with the heap and the system after it.
  abbrev pub Answer : Type 0 → Type 0
  Answer A = Option A × PmHeap × os.State

  abbrev pub keep_frame : ℕ → ℕ → PmHeap → Option (Result ℕ SystemError) × os.State → Answer ℕ
  keep_frame id size h (some (ok p), s) =
      (some p, record h { file_mapping = upsert (λ _. (id, size)) (id, size) h.file_mapping p }, s)
  keep_frame id size h (some (err e), s) = (none, h, s)
  keep_frame id size h (none, s) = (none, h, s)

  abbrev pub in_pool : ℕ → PmHeap → Bool × os.State → Answer ℕ
  in_pool size h (false, s) = (none, h, s)
  in_pool size h (true, s) =
      keep_frame h.file_id size (record h { file_id = (h.file_id + 1) % 2 ^ 64 })
        (create_and_map_pool os h.file_id size none s)

  unfoldable pub alloc_frame : ℕ → PmHeap → os.State → Answer ℕ
  alloc_frame size h s = in_pool size h (os.create_dir_all s)

  abbrev pub removed : PmHeap → Bool × os.State → Answer Unit
  removed h (true, s) = (some tt, h, s)
  removed h (false, s) = (none, h, s)

  abbrev pub dealloc_at : ℕ → ℕ → PmHeap → os.State → Option (ℕ × ℕ) → Answer Unit
  dealloc_at ptr size h s none = (none, h, s)
  dealloc_at ptr size h s (some (path, _)) =
      removed (record h { file_mapping = erase h.file_mapping ptr })
        (os.remove_file path (os.munmap ptr size s))

  unfoldable pub dealloc_frame : ℕ → ℕ → PmHeap → os.State → Answer Unit
  dealloc_frame ptr size h s = dealloc_at ptr size h s (get h.file_mapping ptr)
