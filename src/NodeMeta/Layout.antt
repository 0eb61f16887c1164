-- ===== src/NodeMeta/Layout.antt =====
-- The masks of node_meta.rs as arithmetic.
use alchemy.Base.{
  ℕ, zero, suc, refl, ◌+◌, ◌-◌, ◌*◌, ◌/◌, ◌%◌, ◌^◌, ◌<◌, ◌≡◌, arith, bit_and, bit_or, bit_and-split,
  bit_or-split, bit_and-ones, bit_and-field, bit_or-zero,
}
use alchemy.NodeMeta.{hotness_mask, dirty_mask, ref_mask, not32}

-- Bit 16 and bit 20 of a word.
abbrev pub ref_bit : ℕ → ℕ
ref_bit val = val / 2 ^ 16 % 2

abbrev pub dirty_bit : ℕ → ℕ
dirty_bit val = val / 2 ^ 20 % 2

pub bit_and-ref_mask : (val : ℕ) → bit_and val ref_mask ≡ ref_bit val * 2 ^ 16
bit_and-ref_mask val = omega (arith, bit_and-field 1 16 val)

pub bit_and-dirty_mask : (val : ℕ) → bit_and val dirty_mask ≡ dirty_bit val * 2 ^ 20
bit_and-dirty_mask val = omega (arith, bit_and-field 1 20 val)

pub bit_and-not_hotness_mask : (val : ℕ) → bit_and val (not32 hotness_mask) ≡ val % 2 ^ 24
bit_and-not_hotness_mask val = bit_and-ones 24 val

-- Clearing the bit takes it off.
pub bit_and-not_ref_mask :
    (val : ℕ) → val < 2 ^ 32 → bit_and val (not32 ref_mask) ≡ val - ref_bit val * 2 ^ 16
bit_and-not_ref_mask val h = ground (
  arith,
  bit_and-split 17 (val / 2 ^ 17) (2 ^ 15 - 1) (val % 2 ^ 17) (2 ^ 16 - 1),
  bit_and-ones 15 (val / 2 ^ 17),
  bit_and-ones 16 (val % 2 ^ 17),
)

bit_or-one : (a : ℕ) → a < 2 → bit_or a 1 ≡ 1
bit_or-one zero h = refl
bit_or-one (suc zero) h = refl
bit_or-one (suc (suc a)) h = absurd (omega arith)

-- Setting a bit that is clear adds it.
pub bit_or-ref_mask : (val : ℕ) → bit_or val ref_mask ≡ val + (1 - ref_bit val) * 2 ^ 16
bit_or-ref_mask val = ground (
  arith,
  bit_or-split 17 (val / 2 ^ 17) 0 (val % 2 ^ 17) ref_mask,
  bit_or-split 16 (ref_bit val) 1 (val % 2 ^ 16) 0,
  bit_or-one (ref_bit val),
  bit_or-zero (val / 2 ^ 17),
  bit_or-zero (val % 2 ^ 16),
)

pub bit_or-dirty_mask : (val : ℕ) → bit_or val dirty_mask ≡ val + (1 - dirty_bit val) * 2 ^ 20
bit_or-dirty_mask val = ground (
  arith,
  bit_or-split 21 (val / 2 ^ 21) 0 (val % 2 ^ 21) dirty_mask,
  bit_or-split 20 (dirty_bit val) 1 (val % 2 ^ 20) 0,
  bit_or-one (dirty_bit val),
  bit_or-zero (val / 2 ^ 21),
  bit_or-zero (val % 2 ^ 20),
)
