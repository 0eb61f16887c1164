-- ===== src/Tests/Memory.antt =====
-- The mapping of pools and the heap of frames on a small system.
use alchemy.Base.{
  ℕ, ◌+◌, ◌≡◌, ◌≢◌, refl, arith, true, none, some, ok, err, List, [], ◌∷◌, ◌⊎◌, if◌then◌else◌, ◌==◌,
  bit_and,
}
use alchemy.Rid.{mmap_fail}
use alchemy.Map.{get, erase, upsert}
use alchemy.Mmap.{
  Os, Call, create_and_map_pool, create_and_allocate_file, map_file, map_disk, map, map_nvm_builder,
  map_dram_builder, with_addr, with_file, nvm_file, disk_file, new_mapper, set_addr, set_flags,
  huge_page,
}
use alchemy.Mmap.Laws.{IsMapped, AllFail, create_and_map_pool-ok, create_and_map_pool-err}
use alchemy.PmHeap.{PmHeap, new_heap, alloc_frame, dealloc_frame, removed}
use alchemy.PmHeap.Frames.{FilesOwned}
use alchemy.PmHeap.Steps.{Step, alloc_call, dealloc_call, steps, steps-FilesOwned}
use alchemy.PmHeap.Release.{dealloc_frame-alloc_frame}

-- A system whose state is the next free address: it has neither persistent memory nor huge pages.
-- The flags stand for powers of two, and 1 is the mark of a failed mapping.
abbrev answer : Call → ℕ → ℕ × ℕ
answer c s = if bit_and c.flags 6 == 0 then (s, s + c.len) else (1, s)

abbrev small_os : Os
small_os = record {
  State = ℕ;
  map_huge_2mb = 0;
  map_fixed = 1;
  map_hugetlb = 2;
  map_sync = 4;
  map_shared_validate = 8;
  map_anonymous = 16;
  map_private = 32;
  prot_read = 1;
  prot_write = 2;
  map_failed = 1;
  open_file = λ path s. (some path, s);
  set_len = λ fd len s. (true, s);
  sync_all = λ fd s. (true, s);
  mmap = answer;
  munmap = λ addr len s. s;
  create_dir_all = λ s. (true, s);
  remove_file = λ path s. (true, s);
}

-- No system call maps anything.
abbrev full_os : Os
full_os = record small_os { mmap = λ c s. (1, s) }

pool_at : create_and_map_pool small_os 3 4096 none 8192 ≡ (some (ok 8192), 12288)
unfolding create_and_map_pool create_and_allocate_file map_file map_disk map map_nvm_builder
    map_dram_builder with_addr with_file nvm_file disk_file new_mapper set_addr set_flags huge_page
pool_at = refl

create_and_map_pool-ok_example : IsMapped small_os 4096 none 8192 12288
create_and_map_pool-ok_example = create_and_map_pool-ok small_os 3 4096 none 8192 12288 8192 pool_at

pool_full : create_and_map_pool full_os 3 4096 none 8192 ≡ (some (err mmap_fail), 8192)
unfolding create_and_map_pool create_and_allocate_file map_file map_disk map map_nvm_builder
    map_dram_builder with_addr with_file nvm_file disk_file new_mapper set_addr set_flags huge_page
pool_full = refl

create_and_map_pool-err_example :
    (create_and_allocate_file full_os 3 4096 8192 ≡ (some (err mmap_fail), 8192))
    ⊎ ((fd : ℕ) × (t : ℕ) × (create_and_allocate_file full_os 3 4096 8192 ≡ (some (ok fd), t))
        × AllFail full_os 4096 none fd t mmap_fail 8192)
create_and_map_pool-err_example =
    create_and_map_pool-err full_os 3 4096 none 8192 8192 mmap_fail pool_full

abbrev calls : List Step
calls = alloc_call 4096 ∷ alloc_call 64 ∷ dealloc_call 8192 4096 ∷ alloc_call 4096 ∷ []

steps-FilesOwned_example : FilesOwned (steps small_os calls new_heap 8192).0
steps-FilesOwned_example = steps-FilesOwned small_os calls 8192 (omega arith)

abbrev one_frame : PmHeap
one_frame = record { file_id = 1; file_mapping = (8192, (0, 4096)) ∷ [] }

allocated : alloc_frame small_os 4096 new_heap 8192 ≡ (some 8192, one_frame, 12288)
unfolding alloc_frame new_heap upsert create_and_map_pool create_and_allocate_file map_file map_disk
    map map_nvm_builder map_dram_builder with_addr with_file nvm_file disk_file new_mapper set_addr
    set_flags huge_page
allocated = refl

dealloc_frame-alloc_frame_example :
    (dealloc_frame small_os 8192 4096 one_frame 12288
      ≡ removed small_os
          (record one_frame { file_mapping = erase one_frame.file_mapping 8192 })
          (small_os.remove_file new_heap.file_id (small_os.munmap 8192 4096 12288)))
    × ((q : ℕ) → 8192 ≢ q → get (erase one_frame.file_mapping 8192) q ≡ get new_heap.file_mapping q)
dealloc_frame-alloc_frame_example =
    dealloc_frame-alloc_frame small_os 4096 new_heap one_frame 8192 12288 8192 allocated
