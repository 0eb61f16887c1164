-- ===== src/Base/Bits.antt =====
-- `&` and `|` of words cut into a high and a low part, at every width.
use Prim.Native.Nat.{ℕ, zero, suc, ◌+◌, ◌-◌, ◌*◌, ◌/◌, ◌%◌, ◌^◌, ◌≤◌, ◌<◌, min, max}
use Prim.Native.Nat.{bit_and, bit_or, digits, bitwise, bit_and-bitwise, bit_or-bitwise}
use mathlib.Core.Path.{◌≡◌, refl, ap}
use mathlib.Core.Bool.{Bool, true, ◌&&◌}
use native.Mathlib.Nat.{pow-suc, one-le-pow}
use native.Mathlib.Omega.{arith}

module _ (low : ℕ → ℕ) (bit : ℕ → ℕ → ℕ) where
  digits-fuel : (n m a b : ℕ) → a ≤ n → a ≤ m → digits low bit n a b ≡ digits low bit m a b
  digits-fuel zero zero a b p q = refl
  digits-fuel zero (suc m) zero b p q = refl
  digits-fuel zero (suc m) (suc a) b p q = absurd (omega arith)
  digits-fuel (suc n) zero zero b p q = refl
  digits-fuel (suc n) zero (suc a) b p q = absurd (omega arith)
  digits-fuel (suc n) (suc m) zero b p q = refl
  digits-fuel (suc n) (suc m) (suc a) b p q =
      omega (arith, digits-fuel n m (suc a / 2) (b / 2) (omega arith) (omega arith))

  bitwise-lowest :
      (a b : ℕ)
      → bitwise low bit (suc a) b
        ≡ bitwise low bit (suc a / 2) (b / 2) * 2 + bit (suc a % 2) (b % 2)
  bitwise-lowest a b =
      omega (arith, digits-fuel a (suc a / 2) (suc a / 2) (b / 2) (omega arith) (omega arith))

bit_and-lowest : (a b : ℕ) → bit_and a b ≡ bit_and (a / 2) (b / 2) * 2 + min (a % 2) (b % 2)
bit_and-lowest zero b = omega (arith, bit_and-bitwise 0 b, bit_and-bitwise 0 (b / 2))
bit_and-lowest (suc a) b = omega (
  arith,
  bit_and-bitwise (suc a) b,
  bit_and-bitwise (suc a / 2) (b / 2),
  bitwise-lowest (λ y. 0) min a b,
)

bit_or-lowest : (a b : ℕ) → bit_or a b ≡ bit_or (a / 2) (b / 2) * 2 + max (a % 2) (b % 2)
bit_or-lowest zero b = omega (arith, bit_or-bitwise 0 b, bit_or-bitwise 0 (b / 2))
bit_or-lowest (suc a) b = omega (
  arith,
  bit_or-bitwise (suc a) b,
  bit_or-bitwise (suc a / 2) (b / 2),
  bitwise-lowest (λ y. y) max a b,
)

shifted-suc : (q k : ℕ) → q * 2 ^ suc k ≡ 2 * (q * 2 ^ k)
shifted-suc q k = omega (arith, ap (λ (t : ℕ). q * t) (pow-suc 2 k))

-- Words whose low `k` bits are `r` and `s` are joined part by part.
pub bit_and-split :
    (k p q r s : ℕ)
    → r < 2 ^ k
    → s < 2 ^ k
    → bit_and (p * 2 ^ k + r) (q * 2 ^ k + s) ≡ bit_and p q * 2 ^ k + bit_and r s
bit_and-split zero p q r s hr hs =
    let er : r ≡ 0 = omega arith in let es : s ≡ 0 = omega arith in rw (er, es) (ground arith)
bit_and-split (suc k) p q r s hr hs = ground (
  arith,
  bit_and-lowest (p * 2 ^ suc k + r) (q * 2 ^ suc k + s),
  bit_and-lowest r s,
  shifted-suc p k,
  shifted-suc q k,
  shifted-suc (bit_and p q) k,
  pow-suc 2 k,
  bit_and-split k p q (r / 2) (s / 2),
)

pub bit_or-split :
    (k p q r s : ℕ)
    → r < 2 ^ k
    → s < 2 ^ k
    → bit_or (p * 2 ^ k + r) (q * 2 ^ k + s) ≡ bit_or p q * 2 ^ k + bit_or r s
bit_or-split zero p q r s hr hs =
    let er : r ≡ 0 = omega arith in let es : s ≡ 0 = omega arith in rw (er, es) (ground arith)
bit_or-split (suc k) p q r s hr hs = ground (
  arith,
  bit_or-lowest (p * 2 ^ suc k + r) (q * 2 ^ suc k + s),
  bit_or-lowest r s,
  shifted-suc p k,
  shifted-suc q k,
  shifted-suc (bit_or p q) k,
  pow-suc 2 k,
  bit_or-split k p q (r / 2) (s / 2),
)

bit_or-zero_bounded : (n a : ℕ) → a ≤ n → bit_or a 0 ≡ a
bit_or-zero_bounded n zero h = refl
bit_or-zero_bounded zero (suc a) h = absurd (omega arith)
bit_or-zero_bounded (suc n) (suc a) h =
    omega (arith, bit_or-lowest (suc a) 0, bit_or-zero_bounded n (suc a / 2) (omega arith))

pub bit_or-zero : (a : ℕ) → bit_or a 0 ≡ a
bit_or-zero a = bit_or-zero_bounded a a (omega arith)

bit_and-zero_bounded : (n a : ℕ) → a ≤ n → bit_and a 0 ≡ 0
bit_and-zero_bounded n zero h = refl
bit_and-zero_bounded zero (suc a) h = absurd (omega arith)
bit_and-zero_bounded (suc n) (suc a) h =
    omega (arith, bit_and-lowest (suc a) 0, bit_and-zero_bounded n (suc a / 2) (omega arith))

pub bit_and-zero : (a : ℕ) → bit_and a 0 ≡ 0
bit_and-zero a = bit_and-zero_bounded a a (omega arith)

bit_and-ones_below : (k r : ℕ) → r < 2 ^ k → bit_and r (2 ^ k - 1) ≡ r
bit_and-ones_below zero r h = let e : r ≡ 0 = omega arith in rw e refl
bit_and-ones_below (suc k) r h = ground (
  arith,
  bit_and-lowest r (2 ^ suc k - 1),
  one-le-pow k 2,
  pow-suc 2 k,
  bit_and-ones_below k (r / 2),
)

-- A mask of `k` low ones takes the remainder by `2 ^ k`.
pub bit_and-ones : (k a : ℕ) → bit_and a (2 ^ k - 1) ≡ a % 2 ^ k
bit_and-ones k a = ground (
  arith,
  one-le-pow k 2,
  bit_and-split k (a / 2 ^ k) 0 (a % 2 ^ k) (2 ^ k - 1),
  bit_and-zero (a / 2 ^ k),
  bit_and-ones_below k (a % 2 ^ k),
)

-- A mask of `j` ones above `k` zeros takes the bits from `k` to `k + j` of a word.
pub bit_and-field : (j k a : ℕ) → bit_and a ((2 ^ j - 1) * 2 ^ k) ≡ a / 2 ^ k % 2 ^ j * 2 ^ k
bit_and-field j k a = ground (
  arith,
  one-le-pow k 2,
  bit_and-split k (a / 2 ^ k) (2 ^ j - 1) (a % 2 ^ k) 0,
  bit_and-ones j (a / 2 ^ k),
  bit_and-zero (a % 2 ^ k),
)

zero-bit_or_bounded : (n a : ℕ) → a ≤ n → bit_or 0 a ≡ a
zero-bit_or_bounded n zero h = refl
zero-bit_or_bounded zero (suc a) h = absurd (omega arith)
zero-bit_or_bounded (suc n) (suc a) h =
    omega (arith, bit_or-lowest 0 (suc a), zero-bit_or_bounded n (suc a / 2) (omega arith))

pub zero-bit_or : (a : ℕ) → bit_or 0 a ≡ a
zero-bit_or a = zero-bit_or_bounded a a (omega arith)

bit_or_self_bounded : (n a : ℕ) → a ≤ n → bit_or a a ≡ a
bit_or_self_bounded n zero h = refl
bit_or_self_bounded zero (suc a) h = absurd (omega arith)
bit_or_self_bounded (suc n) (suc a) h =
    omega (arith, bit_or-lowest (suc a) (suc a), bit_or_self_bounded n (suc a / 2) (omega arith))

pub bit_or_self : (a : ℕ) → bit_or a a ≡ a
bit_or_self a = bit_or_self_bounded a a (omega arith)

-- A test that holds of each value in a small range, by evaluation.
unfoldable pub holds_up_to : (ℕ → Bool) → ℕ → Bool
holds_up_to test zero = true
holds_up_to test (suc k) = holds_up_to test k && test k

pub holds_up_to_get :
    (test : ℕ → Bool) (k v : ℕ) → holds_up_to test k ≡ true → v < k → test v ≡ true
unfolding holds_up_to
holds_up_to_get test zero v all below = absurd (omega arith)
holds_up_to_get test (suc k) v all below = ground (arith, holds_up_to_get test k v)
