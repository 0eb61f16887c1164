-- ===== src/NodeMeta/Laws.antt =====
-- How the methods of node_meta.rs act on the three parts of the word.
use alchemy.Base.{
  ℕ, ◌+◌, ◌-◌, ◌*◌, ◌/◌, ◌%◌, ◌^◌, ◌≤◌, ◌<◌, ◌≡◌, refl, arith, true, false, bit_or-split,
  zero-bit_or, bit_or_self, leb,
}
use alchemy.NodeMeta.{
  fresh, hotness, is_dirty, set_dirty, set_ref, clear_if_set, is_refed, inc_hotness,
  try_dec_hotness,
}
use alchemy.NodeMeta.Layout.{
  bit_and-ref_mask, bit_and-dirty_mask, bit_and-not_ref_mask, bit_and-not_hotness_mask,
  bit_or-ref_mask, bit_or-dirty_mask,
}

-- On a word of 32 bits, `clear_if_set` says whether the reference bit was set, leaves it clear,
-- and keeps the hotness and the dirty bit.
pub clear_if_set_lem :
    (val : ℕ)
    → val < 2 ^ 32
    → ((clear_if_set val).0 ≡ is_refed val)
      × (is_refed (clear_if_set val).1 ≡ false)
      × (is_dirty (clear_if_set val).1 ≡ is_dirty val)
      × (hotness (clear_if_set val).1 ≡ hotness val)
      × ((clear_if_set val).1 < 2 ^ 32)
unfolding clear_if_set is_refed is_dirty hotness
clear_if_set_lem val h = ground (
  arith,
  bit_and-ref_mask val,
  bit_and-dirty_mask val,
  bit_and-not_ref_mask val,
  bit_and-ref_mask (clear_if_set val).1,
  bit_and-dirty_mask (clear_if_set val).1,
)

-- On a word of 32 bits whose reference bit is clear, `clear_if_set` after `set_ref` finds the
-- bit set and gives the word back.
pub clear_if_set-set_ref :
    (val : ℕ) → val < 2 ^ 32 → is_refed val ≡ false → clear_if_set (set_ref val) ≡ (true, val)
unfolding clear_if_set is_refed set_ref
clear_if_set-set_ref val h e = ground (
  arith,
  bit_and-ref_mask val,
  bit_or-ref_mask val,
  bit_and-ref_mask (set_ref val),
  bit_and-not_ref_mask (set_ref val),
)

-- In a word of 32 bits the hotness goes up modulo 256, the old one is returned, and the dirty
-- bit and the reference bit stay.
pub inc_hotness_lem :
    (amount val : ℕ)
    → val < 2 ^ 32
    → (hotness (inc_hotness amount val).1 ≡ (hotness val + amount) % 256)
      × ((inc_hotness amount val).0 ≡ hotness val)
      × (is_dirty (inc_hotness amount val).1 ≡ is_dirty val)
      × (is_refed (inc_hotness amount val).1 ≡ is_refed val)
unfolding inc_hotness hotness is_dirty is_refed
inc_hotness_lem amount val h = ground (
  arith,
  bit_and-dirty_mask val,
  bit_and-ref_mask val,
  bit_and-dirty_mask (inc_hotness amount val).1,
  bit_and-ref_mask (inc_hotness amount val).1,
)

-- With no other writer, on a word of 32 bits, and for an amount of one byte, `try_dec_hotness`
-- says no and changes nothing if the hotness is too low; otherwise it says yes, takes the
-- amount off the hotness and keeps the low 24 bits.
pub try_dec_hotness_lem :
    (amount val : ℕ)
    → amount < 256
    → val < 2 ^ 32
    → ((try_dec_hotness amount val val false).0 ≡ leb amount (hotness val))
      × ((amount ≤ hotness val)
          → (hotness (try_dec_hotness amount val val false).1 ≡ hotness val - amount)
            × ((try_dec_hotness amount val val false).1 % 2 ^ 24 ≡ val % 2 ^ 24))
      × ((hotness val < amount) → (try_dec_hotness amount val val false).1 ≡ val)
unfolding try_dec_hotness hotness
try_dec_hotness_lem amount val h k = ground (
  arith,
  bit_and-not_hotness_mask val,
  bit_or-split 24 0 ((val - amount * 2 ^ 24) / 2 ^ 24) (val % 2 ^ 24) (val % 2 ^ 24),
  zero-bit_or ((val - amount * 2 ^ 24) / 2 ^ 24),
  bit_or_self (val % 2 ^ 24),
)

-- A new word is clean, and `set_dirty` marks a word dirty and keeps its hotness and reference bit.
pub set_dirty_lem :
    (val : ℕ)
    → (is_dirty fresh ≡ false)
      × (is_dirty (set_dirty val) ≡ true)
      × (hotness (set_dirty val) ≡ hotness val)
      × (is_refed (set_dirty val) ≡ is_refed val)
unfolding is_dirty set_dirty hotness is_refed
set_dirty_lem val = (
  refl,
  ground (arith, bit_or-dirty_mask val, bit_and-dirty_mask (set_dirty val)),
  ground (arith, bit_or-dirty_mask val),
  ground (arith, bit_or-dirty_mask val, bit_and-ref_mask val, bit_and-ref_mask (set_dirty val)),
)
