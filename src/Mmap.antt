-- ===== src/Mmap.antt =====
-- Memory mapping, src/utils/mmap.rs. The calls of the operating system are parameters: each takes
-- the state of the system and says what it returns. Closing a file is left out.
pub mod Laws
use alchemy.Base.{
  ℕ, ◌+◌, ◌≡◌, refl, Bool, true, false, Option, none, some, Result, ok, err, bit_or, ◌==◌,
  if◌then◌else◌,
}
use alchemy.Rid.{SystemError, file_alloc, mmap_fail, mmap_mismatch_addr}

-- The arguments of `libc::mmap`; the address 0 is the null pointer, and no descriptor is -1.
pub record Call : Type 0 where
  pub addr : ℕ
  pub len : ℕ
  pub prot : ℕ
  pub flags : ℕ
  pub fd : Option ℕ

-- The constants of libc and the calls. A path is the number of a file.
pub record Os : Type 1 where
  pub State : Type 0
  pub map_huge_2mb : ℕ
  pub map_fixed : ℕ
  pub map_hugetlb : ℕ
  pub map_sync : ℕ
  pub map_shared_validate : ℕ
  pub map_anonymous : ℕ
  pub map_private : ℕ
  pub prot_read : ℕ
  pub prot_write : ℕ
  pub map_failed : ℕ
  pub open_file : ℕ → State → Option ℕ × State
  pub set_len : ℕ → ℕ → State → Bool × State
  pub sync_all : ℕ → State → Bool × State
  pub mmap : Call → State → ℕ × State
  pub munmap : ℕ → ℕ → State → State
  pub create_dir_all : State → Bool × State
  pub remove_file : ℕ → State → Bool × State

pub record MemoryMapper : Type 0 where
  pub heap_size : ℕ
  pub addr : Option ℕ
  pub fd : Option ℕ
  pub flags : ℕ

module _ (os : Os) where
  -- The builder.
  unfoldable pub new_mapper : ℕ → MemoryMapper
  new_mapper size = record { heap_size = size; addr = none; fd = none; flags = os.map_huge_2mb }

  unfoldable pub set_addr : MemoryMapper → ℕ → MemoryMapper
  set_addr m a = record m { flags = bit_or m.flags os.map_fixed; addr = some a }

  unfoldable pub set_flags : MemoryMapper → ℕ → MemoryMapper
  set_flags m flags = record m { flags = bit_or m.flags flags }

  unfoldable pub huge_page : MemoryMapper → MemoryMapper
  huge_page m = record m { flags = bit_or m.flags os.map_hugetlb }

  unfoldable pub nvm_file : MemoryMapper → ℕ → MemoryMapper
  nvm_file m fd = record m {
    flags = bit_or m.flags (bit_or os.map_sync os.map_shared_validate);
    fd = some fd;
  }

  unfoldable pub disk_file : MemoryMapper → ℕ → MemoryMapper
  disk_file m fd = record m { fd = some fd }

  -- `if let Some(addr) = addr { builder = builder.addr(addr) }`.
  unfoldable pub with_addr : MemoryMapper → Option ℕ → MemoryMapper
  with_addr m none = m
  with_addr m (some a) = set_addr m a

  unfoldable pub with_file : MemoryMapper → Option ℕ → MemoryMapper
  with_file m none = m
  with_file m (some fd) = disk_file m fd

  unfoldable pub map_nvm_builder : ℕ → Option ℕ → ℕ → MemoryMapper
  map_nvm_builder size addr fd = with_addr (nvm_file (new_mapper size) fd) addr

  unfoldable pub map_dram_builder : ℕ → Option ℕ → Option ℕ → MemoryMapper
  map_dram_builder size addr fd =
      set_flags (with_addr (with_file (new_mapper size) fd) addr)
        (bit_or os.map_anonymous os.map_private)

  abbrev or_null : Option ℕ → ℕ
  or_null none = 0
  or_null (some a) = a

  abbrev pub call_of : MemoryMapper → Call
  call_of m = record {
    addr = or_null m.addr;
    len = m.heap_size;
    prot = bit_or os.prot_write os.prot_read;
    flags = m.flags;
    fd = m.fd;
  }

  -- The address that is checked: it was asked for, or any will do.
  abbrev pub check_addr : Option ℕ → ℕ → Result ℕ SystemError
  check_addr none mapped = ok mapped
  check_addr (some a) mapped = if mapped == a then ok mapped else err mmap_mismatch_addr

  abbrev pub check : MemoryMapper → ℕ → Result ℕ SystemError
  check m mapped = if mapped == os.map_failed then err mmap_fail else check_addr m.addr mapped

  unfoldable pub map : MemoryMapper → os.State → Result ℕ SystemError × os.State
  map m s = let (mapped, s') = os.mmap (call_of m) s in (check m mapped, s')

  -- `create_and_allocate_file`; `none` is the panic of `unwrap`.
  abbrev synced : ℕ → Bool × os.State → Option (Result ℕ SystemError) × os.State
  synced fd (true, s) = (some (ok fd), s)
  synced fd (false, s) = (none, s)

  abbrev sized : ℕ → Bool × os.State → Option (Result ℕ SystemError) × os.State
  sized fd (true, s) = synced fd (os.sync_all fd s)
  sized fd (false, s) = (some (err file_alloc), s)

  abbrev opened : ℕ → Option ℕ × os.State → Option (Result ℕ SystemError) × os.State
  opened size (none, s) = (some (err file_alloc), s)
  opened size (some fd, s) = sized fd (os.set_len fd size s)

  unfoldable pub create_and_allocate_file :
      ℕ → ℕ → os.State → Option (Result ℕ SystemError) × os.State
  create_and_allocate_file path size s = opened size (os.open_file path s)

  -- The match on a mapping: a failed one is followed by the next attempt.
  abbrev pub or_else :
      Result ℕ SystemError × os.State
      → (os.State → Result ℕ SystemError × os.State)
      → Result ℕ SystemError × os.State
  or_else (ok p, s) next = (ok p, s)
  or_else (err e, s) next = next s

  -- The attempts after the first: huge pages, then small pages.
  unfoldable pub map_disk : ℕ → Option ℕ → ℕ → os.State → Result ℕ SystemError × os.State
  map_disk size addr fd s =
      let builder = map_dram_builder size addr (some fd) in
      or_else (map (huge_page builder) s) (map builder)

  unfoldable pub map_file : ℕ → Option ℕ → ℕ → os.State → Result ℕ SystemError × os.State
  map_file size addr fd s = or_else (map (map_nvm_builder size addr fd) s) (map_disk size addr fd)

  abbrev pub with_created :
      ℕ
      → Option ℕ
      → Option (Result ℕ SystemError) × os.State
      → Option (Result ℕ SystemError) × os.State
  with_created size addr (none, s) = (none, s)
  with_created size addr (some (err e), s) = (some (err e), s)
  with_created size addr (some (ok fd), s) = let (r, s') = map_file size addr fd s in (some r, s')

  unfoldable pub create_and_map_pool :
      ℕ → ℕ → Option ℕ → os.State → Option (Result ℕ SystemError) × os.State
  create_and_map_pool path size addr s =
      with_created size addr (create_and_allocate_file path size s)
