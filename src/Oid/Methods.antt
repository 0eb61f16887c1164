-- ===== src/Oid/Methods.antt =====
-- What each method of oid.rs does to the fields of the word, on every branch.
use alchemy.Base.{
  ℕ, ◌+◌, ◌*◌, ◌/◌, ◌%◌, ◌^◌, ◌<◌, ◌≡◌, ◌≢◌, arith, Bool, true, false, not, ◌&&◌, ok, err, leb, ltb,
  ◌==◌, if◌then◌else◌,
}
use alchemy.Rid.{read_lock_busy, write_lock_busy, lock_busy}
use alchemy.Oid.{
  lock_reader, lock_writer, write_locked, has_lock, is_cached, is_rid, to_cache_index, to_rid,
  try_read, read_unlock, try_write, write_unlock, store_rid, store_index, upgrade,
}
use alchemy.Oid.Layout.{
  locks, spare, content, write_locked_lem, has_lock_lem, is_cached_lem, to_cache_index_lem,
  to_rid_lem, bit_or-lock_writer, bit_or-cached_mask, bit_or-ident, bit_and-not_id_mask,
  bit_and-not_cached_mask, bit_and-lock_mask, bit_and-not_lock_mask,
}

abbrev pub IsWord : ℕ → Type 0
IsWord w = w < 2 ^ 64

-- The loaded word fits 64 bits, and the word that the exchange finds does not count 127 locks.
-- Then `try_read` fails as busy on a loaded writer bit, fails otherwise if the exchange finds
-- another word or fails for no reason, and else adds one reader; a failure leaves the word.
pub try_read_lem :
    (val cur : ℕ) (spurious : Bool)
    → IsWord val
    → locks cur ≢ 127
    → try_read val cur spurious ≡ (
        if leb 128 (locks val)
        then (err read_lock_busy, cur)
        else if cur == val && not spurious
        then (ok tt, cur + lock_reader)
        else (err lock_busy, cur))
unfolding try_read
try_read_lem val cur spurious h n = ground (arith, write_locked_lem val)

-- On a word with 127 readers, `try_read` succeeds and leaves a word with the writer bit set,
-- although no writer holds it.
pub try_read_overflow :
    (val : ℕ)
    → IsWord val
    → locks val ≡ 127
    → ((try_read val val false).0 ≡ ok tt) × (write_locked (try_read val val false).1 ≡ true)
unfolding try_read
try_read_overflow val h e =
    ground (arith, write_locked_lem val, write_locked_lem ((val + lock_reader) % 2 ^ 64))

-- The loaded word fits 64 bits. Then `try_write` fails as busy on any loaded lock, fails
-- otherwise if the exchange finds another word or fails for no reason, and else sets the writer
-- bit; a failure leaves the word.
pub try_write_lem :
    (val cur : ℕ) (spurious : Bool)
    → IsWord val
    → try_write val cur spurious ≡ (
        if ltb 0 (locks val)
        then (err write_lock_busy, cur)
        else if cur == val && not spurious
        then (ok tt, cur + lock_writer)
        else (err lock_busy, cur))
unfolding try_write
try_write_lem val cur spurious h = ground (arith, has_lock_lem val, bit_or-lock_writer val)

-- On a word of 64 bits that no writer holds, `read_unlock` after a successful `try_read` gives
-- the word back.
pub read_unlock-try_read :
    (val : ℕ) → IsWord val → write_locked val ≡ false → read_unlock (try_read val val false).1 ≡ val
unfolding try_read read_unlock
read_unlock-try_read val h free = ground arith

-- On a word of 64 bits that nobody holds, `write_unlock` after a successful `try_write` gives
-- the word back.
pub write_unlock-try_write :
    (val : ℕ) → IsWord val → has_lock val ≡ false → write_unlock (try_write val val false).1 ≡ val
unfolding try_write write_unlock
write_unlock-try_write val h free = ground (arith, has_lock_lem val, bit_or-lock_writer val)

-- The loaded word fits 64 bits. Then `upgrade` gives the read guard back if the word counts
-- more than one lock, or if the exchange finds another word or fails for no reason; else the
-- writer bit replaces the reader, and the rest of the word stays.
pub upgrade_lem :
    (val cur : ℕ) (spurious : Bool)
    → IsWord val
    → upgrade val cur spurious ≡ (
        if ltb 1 (locks val)
        then (err tt, cur)
        else if cur == val && not spurious
        then (ok tt, content val + lock_writer)
        else (err tt, cur))
unfolding upgrade
upgrade_lem val cur spurious h =
    ground
      (arith, bit_and-lock_mask val, bit_and-not_lock_mask val, bit_or-lock_writer (content val))

-- The stored word as a sum of its fields.
pub store_rid_lem :
    (rid w : ℕ)
    → IsWord w
    → rid < 2 ^ 32
    → store_rid rid w ≡ locks w * 2 ^ 56 + spare w * 2 ^ 32 + rid
unfolding store_rid
store_rid_lem rid w h k = ground (
  arith,
  bit_and-not_id_mask w,
  bit_and-not_cached_mask (w / 2 ^ 32 * 2 ^ 32),
  bit_or-ident (locks w * 2 ^ 24 + spare w) rid,
)

pub store_index_lem :
    (index w : ℕ)
    → IsWord w
    → index < 2 ^ 32
    → store_index index w ≡ locks w * 2 ^ 56 + 255 * 2 ^ 48 + spare w * 2 ^ 32 + index
unfolding store_index
store_index_lem index w h k = ground (
  arith,
  bit_and-not_id_mask w,
  bit_or-cached_mask (w / 2 ^ 32 * 2 ^ 32),
  bit_or-ident (locks w * 2 ^ 24 + 255 * 2 ^ 16 + spare w) index,
)

-- In a word of 64 bits, a record id below 2 ^ 32 that `store_rid` stores is the one that
-- `to_rid` reads, the word says that it holds a record id, and the locks and the spare bits
-- stay.
pub store_rid-reads :
    (rid w : ℕ)
    → IsWord w
    → rid < 2 ^ 32
    → IsWord (store_rid rid w)
      × (is_rid (store_rid rid w) ≡ true)
      × (to_rid (store_rid rid w) ≡ rid)
      × (locks (store_rid rid w) ≡ locks w)
      × (spare (store_rid rid w) ≡ spare w)
unfolding is_rid
store_rid-reads rid w h k =
    ground
      (arith, store_rid_lem rid w, is_cached_lem (store_rid rid w), to_rid_lem (store_rid rid w))

-- In a word of 64 bits whose spare bits are clear, an index below 2 ^ 32 that `store_index`
-- stores is the one that `to_cache_index` reads, the word says that it holds a cache index, and
-- the locks and the spare bits stay.
pub store_index-reads :
    (index w : ℕ)
    → IsWord w
    → spare w ≡ 0
    → index < 2 ^ 32
    → IsWord (store_index index w)
      × (is_cached (store_index index w) ≡ true)
      × (to_cache_index (store_index index w) ≡ index)
      × (locks (store_index index w) ≡ locks w)
      × (spare (store_index index w) ≡ 0)
store_index-reads index w h e k = ground (
  arith,
  store_index_lem index w,
  is_cached_lem (store_index index w),
  to_cache_index_lem (store_index index w),
)
