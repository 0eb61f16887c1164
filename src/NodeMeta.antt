-- ===== src/NodeMeta.antt =====
-- `NodeMeta` of src/attribute_cache/clock_cache/node_meta.rs: a hotness byte, a dirty bit and a
-- reference bit in one 32-bit word. Each method is a function on the word that it finds.
pub mod Layout
pub mod Laws
use alchemy.Base.{
  ℕ, ◌+◌, ◌-◌, ◌*◌, ◌/◌, ◌%◌, ◌^◌, bit_and, bit_or, Bool, true, false, not, ◌&&◌, ltb, leb, ◌==◌,
  if◌then◌else◌,
}

abbrev pub hotness_mask : ℕ
hotness_mask = 0xff00_0000

abbrev pub hotness_shift : ℕ
hotness_shift = 24

abbrev pub dirty_mask : ℕ
dirty_mask = 0x0010_0000

abbrev pub ref_mask : ℕ
ref_mask = 0x0001_0000

-- `!x` on u32.
abbrev pub not32 : ℕ → ℕ
not32 x = 2 ^ 32 - 1 - x

-- `NodeMeta::new`.
abbrev pub fresh : ℕ
fresh = 0

unfoldable pub hotness : ℕ → ℕ
hotness val = val / 2 ^ hotness_shift

unfoldable pub is_dirty : ℕ → Bool
is_dirty val = ltb 0 (bit_and val dirty_mask)

unfoldable pub set_dirty : ℕ → ℕ
set_dirty val = bit_or val dirty_mask

unfoldable pub set_ref : ℕ → ℕ
set_ref val = bit_or val ref_mask

unfoldable pub clear_ref : ℕ → ℕ
clear_ref val = bit_and val (not32 ref_mask)

-- The verdict, and the word after it.
unfoldable pub clear_if_set : ℕ → Bool × ℕ
clear_if_set val =
    if ltb 0 (bit_and val ref_mask) then (true, bit_and val (not32 ref_mask)) else (false, val)

unfoldable pub is_refed : ℕ → Bool
is_refed val = ltb 0 (bit_and val ref_mask)

-- The old hotness, and the word after it. The shift and the sum drop what does not fit 32 bits.
unfoldable pub inc_hotness : (amount val : ℕ) → ℕ × ℕ
inc_hotness amount val =
    (val / 2 ^ hotness_shift, (val + amount * 2 ^ hotness_shift % 2 ^ 32) % 2 ^ 32)

-- `val` is the word loaded and `cur` the one that the exchange finds. The verdict does not say whether the
-- exchange succeeds.
unfoldable pub try_dec_hotness : (amount val cur : ℕ) (spurious : Bool) → Bool × ℕ
try_dec_hotness amount val cur spurious =
    let amount_shifted : ℕ = amount * 2 ^ hotness_shift % 2 ^ 32 in
    if leb amount_shifted val
    then (
      true,
      if cur == val && not spurious
          then bit_or (bit_and val (not32 hotness_mask)) (val - amount_shifted)
          else cur,
    )
    else (false, cur)
