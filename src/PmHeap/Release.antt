-- ===== src/PmHeap/Release.antt =====
-- A frame that is allocated and released again (src/storage/pm_heap.rs).
use alchemy.Base.{
  ℕ, ◌+◌, ◌%◌, ◌^◌, ◌≡◌, ◌≢◌, Bool, true, false, Option, none, some, Result, ok, err, sym, ap, ◌∙◌,
}
use alchemy.Map.{Map, get, erase, upsert, get-upsert_self, get-upsert_ne, get-erase_ne}
use alchemy.Rid.{SystemError}
use alchemy.Mmap.{Os, create_and_map_pool}
use alchemy.PmHeap.{PmHeap, keep_frame, in_pool, alloc_frame, removed, dealloc_at, dealloc_frame}
use alchemy.PmHeap.Frames.{updated-constant}

module _ (os : Os) where
  abbrev kept_in : ℕ → ℕ → PmHeap → ℕ → Map (ℕ × ℕ)
  kept_in id size h p = upsert (λ _. (id, size)) (id, size) h.file_mapping p

  keep_frame-some :
      (id size : ℕ) (h h' : PmHeap) (r : Option (Result ℕ SystemError) × os.State) (s' : os.State)
      (p : ℕ)
      → keep_frame os id size h r ≡ (some p, h', s')
      → h'.file_mapping ≡ kept_in id size h p
  keep_frame-some id size h h' (none, s) s' p e = cc (ap (λ x. x.0) e)
  keep_frame-some id size h h' (some (err x), s) s' p e = cc (ap (λ x. x.0) e)
  keep_frame-some id size h h' (some (ok q), s) s' p e =
      let same : q ≡ p = cc (ap (λ x. x.0) e) in
      sym (ap (λ x. x.1.file_mapping) e) ∙ ap (kept_in id size h) same

  in_pool-some :
      (size : ℕ) (h h' : PmHeap) (r : Bool × os.State) (s' : os.State) (p : ℕ)
      → in_pool os size h r ≡ (some p, h', s')
      → h'.file_mapping ≡ kept_in h.file_id size h p
  in_pool-some size h h' (false, s) s' p e = cc (ap (λ x. x.0) e)
  in_pool-some size h h' (true, s) s' p e =
      keep_frame-some h.file_id size (record h { file_id = (h.file_id + 1) % 2 ^ 64 }) h'
        (create_and_map_pool os h.file_id size none s) s' p e

  -- A frame that `alloc_frame` returned is there to be released: `dealloc_frame` unmaps it and
  -- removes the file that was created for it, and panics only if the system does not remove the file.
  -- The frames at other addresses are then those before the allocation.
  pub dealloc_frame-alloc_frame :
      (size : ℕ) (h h' : PmHeap) (s s' : os.State) (p : ℕ)
      → alloc_frame os size h s ≡ (some p, h', s')
      → (dealloc_frame os p size h' s'
          ≡ removed os
              (record h' { file_mapping = erase h'.file_mapping p })
              (os.remove_file h.file_id (os.munmap p size s')))
        × ((q : ℕ) → p ≢ q → get (erase h'.file_mapping p) q ≡ get h.file_mapping q)
  unfolding alloc_frame dealloc_frame
  dealloc_frame-alloc_frame size h h' s s' p e =
      let kept = in_pool-some size h h' (os.create_dir_all s) s' p e in
      let there : get h'.file_mapping p ≡ some (h.file_id, size) =
        ap (λ m. get m p) kept
        ∙ get-upsert_self (λ _. (h.file_id, size)) (h.file_id, size) h.file_mapping p
        ∙ ap some (updated-constant (h.file_id, size) (get h.file_mapping p)) in
      (
        ap (dealloc_at os p size h' s') there,
        λ q ne.
            get-erase_ne h'.file_mapping p q ne
            ∙ ap (λ m. get m q) kept
            ∙ get-upsert_ne (λ _. (h.file_id, size)) (h.file_id, size) h.file_mapping p q ne,
      )
