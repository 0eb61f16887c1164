-- ===== src/Oid/Layout.antt =====
-- The fields of a lock word, and the masks of oid.rs as arithmetic on them: 8 bits of locks (a
-- writer bit above 7 bits of readers), 8 bits that tell a cache index from a record id, 16 spare
-- bits, and a 32-bit id.
use alchemy.Base.{
  ℕ, ◌+◌, ◌-◌, ◌*◌, ◌/◌, ◌%◌, ◌^◌, ◌<◌, ◌≡◌, arith, bit_and, bit_or, bit_and-split, bit_or-split,
  bit_and-ones, bit_and-field, bit_or-zero, zero-bit_or, leb, ltb, holds_up_to_get, holds_up_to,
  ◌==◌, true, refl, ==_iff,
}
use alchemy.Oid.{
  lock_mask, lock_writer, cached_mask, id_mask, not64, write_locked, has_lock, read_lock_cnt,
  is_cached, to_cache_index, to_rid,
}

abbrev pub locks : ℕ → ℕ
locks w = w / 2 ^ 56

abbrev pub tag : ℕ → ℕ
tag w = w / 2 ^ 48 % 256

abbrev pub spare : ℕ → ℕ
spare w = w / 2 ^ 32 % 2 ^ 16

abbrev pub ident : ℕ → ℕ
ident w = w % 2 ^ 32

-- All of a word below the locks.
abbrev pub content : ℕ → ℕ
content w = w % 2 ^ 56

pub bit_and-lock_mask : (w : ℕ) → w < 2 ^ 64 → bit_and w lock_mask ≡ locks w * 2 ^ 56
bit_and-lock_mask w h = omega (arith, bit_and-field 8 56 w)

pub bit_and-lock_writer : (w : ℕ) → w < 2 ^ 64 → bit_and w lock_writer ≡ locks w / 128 * 2 ^ 63
bit_and-lock_writer w h = omega (arith, bit_and-field 1 63 w)

pub bit_and-not_lock_mask : (w : ℕ) → bit_and w (not64 lock_mask) ≡ content w
bit_and-not_lock_mask w = bit_and-ones 56 w

pub bit_and-cached_mask : (w : ℕ) → bit_and w cached_mask ≡ tag w * 2 ^ 48
bit_and-cached_mask w = omega (arith, bit_and-field 8 48 w)

pub bit_and-id_mask : (w : ℕ) → bit_and w id_mask ≡ ident w
bit_and-id_mask w = bit_and-ones 32 w

pub bit_and-not_id_mask : (w : ℕ) → w < 2 ^ 64 → bit_and w (not64 id_mask) ≡ w / 2 ^ 32 * 2 ^ 32
bit_and-not_id_mask w h = omega (arith, bit_and-field 32 32 w)

pub bit_and-not_cached_mask :
    (w : ℕ) → w < 2 ^ 64 → bit_and w (not64 cached_mask) ≡ locks w * 2 ^ 56 + w % 2 ^ 48
bit_and-not_cached_mask w h = ground (
  arith,
  bit_and-split 56 (w / 2 ^ 56) 255 (w % 2 ^ 56) (2 ^ 48 - 1),
  bit_and-ones 8 (w / 2 ^ 56),
  bit_and-ones 48 (w % 2 ^ 56),
)

pub write_locked_lem : (w : ℕ) → w < 2 ^ 64 → write_locked w ≡ leb 128 (locks w)
unfolding write_locked
write_locked_lem w h = ground (arith, bit_and-lock_writer w)

pub has_lock_lem : (w : ℕ) → w < 2 ^ 64 → has_lock w ≡ ltb 0 (locks w)
unfolding has_lock
has_lock_lem w h = ground (arith, bit_and-lock_mask w)

pub read_lock_cnt_lem : (w : ℕ) → w < 2 ^ 64 → read_lock_cnt w ≡ locks w
unfolding read_lock_cnt
read_lock_cnt_lem w h = omega (arith, bit_and-lock_mask w h)

pub is_cached_lem : (w : ℕ) → is_cached w ≡ ltb 0 (tag w)
unfolding is_cached
is_cached_lem w = ground (arith, bit_and-cached_mask w)

pub to_cache_index_lem : (w : ℕ) → w < 2 ^ 64 → to_cache_index w ≡ w % 2 ^ 48
unfolding to_cache_index
to_cache_index_lem w h =
    ground (arith, bit_and-not_lock_mask w, bit_and-not_cached_mask (content w))

pub to_rid_lem : (w : ℕ) → to_rid w ≡ ident w
unfolding to_rid
to_rid_lem w = ground (arith, bit_and-not_lock_mask w, bit_and-id_mask (content w))

-- Setting the writer bit where it is clear adds it.
pub bit_or-lock_writer :
    (w : ℕ) → w < 2 ^ 64 → locks w < 128 → bit_or w lock_writer ≡ w + lock_writer
bit_or-lock_writer w h k = ground (arith, bit_or-split 63 0 1 w 0, bit_or-zero w)

full_byte : holds_up_to (λ b. bit_or b 255 == 255) 256 ≡ true
unfolding holds_up_to
full_byte = refl

bit_or-255 : (b : ℕ) → b < 256 → bit_or b 255 ≡ 255
bit_or-255 b h = (==_iff _ 255).0 (holds_up_to_get _ 256 b full_byte h)

-- Setting the tag fills its byte, whatever it held.
pub bit_or-cached_mask :
    (w : ℕ) → w < 2 ^ 64 → bit_or w cached_mask ≡ locks w * 2 ^ 56 + 255 * 2 ^ 48 + w % 2 ^ 48
bit_or-cached_mask w h = ground (
  arith,
  bit_or-split 56 (locks w) 0 (content w) cached_mask,
  bit_or-split 48 (tag w) 255 (w % 2 ^ 48) 0,
  bit_or-zero (locks w),
  bit_or-zero (w % 2 ^ 48),
  bit_or-255 (tag w),
)

-- An id is put below a word whose low 32 bits are clear.
pub bit_or-ident : (hi id : ℕ) → id < 2 ^ 32 → bit_or (hi * 2 ^ 32) id ≡ hi * 2 ^ 32 + id
bit_or-ident hi id h = ground (arith, bit_or-split 32 hi 0 0 id, bit_or-zero hi, zero-bit_or id)
