-- ===== src/Rid.antt =====
-- Record ids and errors: `Rid` of src/attribute_cache/mod.rs, and src/error.rs.
use alchemy.Base.{ℕ, ◌%◌, ◌^◌, ◌-◌, ◌≡◌, ◌<◌, arith}

-- A record id is its number, an offset into the table storage.
abbrev pub Rid : Type 0
Rid = ℕ

-- `u32::MAX`, reserved as a sentinel.
abbrev pub sentinel : ℕ
sentinel = 2 ^ 32 - 1

-- `Rid::from(usize)`: a cast to u32.
unfoldable pub rid_of_usize : ℕ → Rid
rid_of_usize id = id % 2 ^ 32

pub data TransactionError : Type 0 where
  read_lock_busy write_lock_busy upgrade_lock_busy index_not_found lock_busy user_abort :
      TransactionError

pub data SystemError : Type 0 where
  file_alloc mmap_fail mmap_mismatch_addr array_allocator_out_of_memory : SystemError

-- A number below 2 ^ 32 is its own record id.
pub rid_of_usize-small : (id : ℕ) → id < 2 ^ 32 → rid_of_usize id ≡ id
unfolding rid_of_usize
rid_of_usize-small id h = omega arith
