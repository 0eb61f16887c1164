-- ===== src/Oid.antt =====
-- The lock word of a record, `LockedOid` of src/attribute_cache/clock_cache/oid.rs, as a number
-- below 2 ^ 64. A method that loads the word and then exchanges it takes both the loaded value and
-- the value that the exchange finds, since other threads may write in between; `spurious` says that
-- the weak exchange fails for no reason. Debug assertions are left out, as in a release build.
pub mod Layout
pub mod Methods
pub mod Loops
pub mod Threads
use alchemy.Base.{
  ℕ, zero, suc, ◌+◌, ◌-◌, ◌*◌, ◌/◌, ◌%◌, ◌^◌, bit_and, bit_or, Bool, true, false, not, ◌&&◌, Option,
  none, some, Result, ok, err, ltb, ◌==◌, if◌then◌else◌,
}
use alchemy.Rid.{Rid, TransactionError, read_lock_busy, write_lock_busy, lock_busy}

abbrev pub lock_mask : ℕ
lock_mask = 0xff00_0000_0000_0000

abbrev pub lock_writer : ℕ
lock_writer = 0x8000_0000_0000_0000

abbrev pub lock_reader : ℕ
lock_reader = 0x0100_0000_0000_0000

abbrev pub max_reader : ℕ
max_reader = (lock_mask - lock_writer) / lock_reader

abbrev pub cached_mask : ℕ
cached_mask = 0x00ff_0000_0000_0000

abbrev pub id_mask : ℕ
id_mask = 0x0000_0000_ffff_ffff

-- `!x` on usize.
abbrev pub not64 : ℕ → ℕ
not64 x = 2 ^ 64 - 1 - x

abbrev pub wrapping_add : ℕ → ℕ → ℕ
wrapping_add a b = (a + b) % 2 ^ 64

-- The new value of `fetch_sub`.
abbrev pub wrapping_sub : ℕ → ℕ → ℕ
wrapping_sub a b = (a + 2 ^ 64 - b) % 2 ^ 64

-- `compare_exchange_weak`: the verdict, with the value found on failure, and the memory after it.
abbrev pub compare_exchange_weak :
    (spurious : Bool) (cur expected new : ℕ) → Result (Unit {0}) ℕ × ℕ
compare_exchange_weak spurious cur expected new =
    if cur == expected && not spurious then (ok tt, new) else (err cur, cur)

unfoldable pub from_rid : Rid → ℕ
from_rid rid = rid

-- `none` is the failed assertion.
unfoldable pub from_cache : ℕ → Option ℕ
from_cache index = if bit_and index cached_mask == 0 then some (bit_or index cached_mask) else none

unfoldable pub write_locked : ℕ → Bool
write_locked val = not (bit_and val lock_writer == 0)

unfoldable pub has_lock : ℕ → Bool
has_lock val = not (bit_and val lock_mask == 0)

unfoldable pub read_lock_cnt : ℕ → ℕ
read_lock_cnt val = bit_and val lock_mask / lock_reader

unfoldable pub is_cached : ℕ → Bool
is_cached val = not (bit_and val cached_mask == 0)

unfoldable pub is_rid : ℕ → Bool
unfolding is_cached
is_rid val = not (is_cached val)

unfoldable pub to_cache_index : ℕ → ℕ
to_cache_index val = bit_and (bit_and val (not64 lock_mask)) (not64 cached_mask)

unfoldable pub to_rid : ℕ → Rid
to_rid val = bit_and (bit_and val (not64 lock_mask)) id_mask % 2 ^ 32

-- One round of the loop of `read`: `val` is the value read last, `cur` what this round finds. Either
-- the lock is taken, with `ok` of the memory, or the loop goes on with `err` of the value read.
unfoldable pub read_round : (val cur : ℕ) (spurious : Bool) → Result ℕ ℕ
unfolding write_locked
read_round val cur spurious =
    if write_locked val
    then err cur
    else elim (compare_exchange_weak spurious cur val (wrapping_add val lock_reader)).0 [
      | ok _ ↦ ok (wrapping_add val lock_reader)
      | err v ↦ err v
    ]

-- `read`, for a number of rounds; round `i` finds `memory i`.
unfoldable pub read_loop : ℕ → (memory : ℕ → ℕ) (spurious : ℕ → Bool) (val : ℕ) → Option ℕ
unfolding read_round
read_loop zero memory spurious val = none
read_loop (suc fuel) memory spurious val = elim (read_round val (memory 0) (spurious 0)) [
  | ok new ↦ some new
  | err v ↦ read_loop fuel (λ i. memory (suc i)) (λ i. spurious (suc i)) v
]

unfoldable pub try_read : (val cur : ℕ) (spurious : Bool) → Result (Unit {0}) TransactionError × ℕ
unfolding write_locked
try_read val cur spurious =
    if write_locked val
    then (err read_lock_busy, cur)
    else let (verdict, memory) =
        compare_exchange_weak spurious cur val (wrapping_add val lock_reader) in
      (elim verdict [ ok _ ↦ ok tt | err _ ↦ err lock_busy ], memory)

unfoldable pub read_unlock : ℕ → ℕ
read_unlock cur = wrapping_sub cur lock_reader

-- One round of the loop of `write`.
unfoldable pub write_round : (val cur : ℕ) (spurious : Bool) → Result ℕ ℕ
unfolding has_lock
write_round val cur spurious =
    if has_lock val
    then err cur
    else elim (compare_exchange_weak spurious cur val (bit_or val lock_writer)).0 [
      | ok _ ↦ ok (bit_or val lock_writer)
      | err v ↦ err v
    ]

unfoldable pub write_loop : ℕ → (memory : ℕ → ℕ) (spurious : ℕ → Bool) (val : ℕ) → Option ℕ
unfolding write_round
write_loop zero memory spurious val = none
write_loop (suc fuel) memory spurious val = elim (write_round val (memory 0) (spurious 0)) [
  | ok new ↦ some new
  | err v ↦ write_loop fuel (λ i. memory (suc i)) (λ i. spurious (suc i)) v
]

unfoldable pub try_write : (val cur : ℕ) (spurious : Bool) → Result (Unit {0}) TransactionError × ℕ
unfolding has_lock
try_write val cur spurious =
    if has_lock val
    then (err write_lock_busy, cur)
    else let (verdict, memory) = compare_exchange_weak spurious cur val (bit_or val lock_writer) in
      (elim verdict [ ok _ ↦ ok tt | err _ ↦ err lock_busy ], memory)

unfoldable pub write_unlock : ℕ → ℕ
write_unlock cur = wrapping_sub cur lock_writer

-- `OidWriteGuard::store_rid`: the value stored, from the value loaded.
unfoldable pub store_rid : Rid → ℕ → ℕ
store_rid rid val = bit_or (bit_and (bit_and val (not64 id_mask)) (not64 cached_mask)) rid

-- `OidWriteGuard::store_index`.
unfoldable pub store_index : ℕ → ℕ → ℕ
store_index new val = bit_or (bit_or (bit_and val (not64 id_mask)) cached_mask) new

-- `OidReadGuard::upgrade`: `ok` is a write guard, `err` gives the read guard back.
unfoldable pub upgrade : (val cur : ℕ) (spurious : Bool) → Result (Unit {0}) (Unit {0}) × ℕ
upgrade val cur spurious =
    if ltb 1 (bit_and val lock_mask / lock_reader)
    then (err tt, cur)
    else let write_lock = bit_or (bit_and val (not64 lock_mask)) lock_writer in
      let (verdict, memory) = compare_exchange_weak spurious cur val write_lock in
      (elim verdict [ ok _ ↦ ok tt | err _ ↦ err tt ], memory)
