-- ===== src/Base/Family.antt =====
-- Memory as a family of cells `ℕ → A`: a write to one cell, and sums over the first `n` cells.
use Prim.Native.Nat.{ℕ, zero, suc, ◌+◌, ◌≤◌, ◌<◌}
use mathlib.Core.Path.{◌≡◌, refl}
use mathlib.Core.Logic.{◌≢◌}
use native.Mathlib.Omega.{arith}
use native.Mathlib.Decide.{dec_lt}
use alchemy.Base.Tests.{◌==◌, if◌then◌else◌, ==-refl, ==-ne}

-- A write at `i`.
abbrev pub put {ℓ} : {A : Type ℓ} → (ℕ → A) → ℕ → A → ℕ → A
put f i a j = if i == j then a else f j

pub put-self {ℓ κ} :
    {A : Type ℓ} (P : A → Type κ) (f : ℕ → A) (i : ℕ) {a : A} → P a → P (put f i a i)
put-self P f i {a} h = rw (==-refl i) h

pub put-other {ℓ κ} :
    {A : Type ℓ} (P : A → Type κ) (f : ℕ → A) (i j : ℕ) (a : A) → i ≢ j → P (f j) → P (put f i a j)
put-other P f i j a ne h = rw (==-ne i j ne) h

module _ {A : Type 0} (w : A → ℕ) where
  -- The weights of the first `n` cells, added up.
  unfoldable pub total : ℕ → (ℕ → A) → ℕ
  total zero f = 0
  total (suc n) f = total n f + w (f n)

  total-put_outside : (n : ℕ) (f : ℕ → A) (i : ℕ) (a : A) → n ≤ i → total n (put f i a) ≡ total n f
  unfolding total
  total-put_outside zero f i a h = refl
  total-put_outside (suc n) f i a h = ground (arith, total-put_outside n f i a)

  pub total-put :
      (n : ℕ) (f : ℕ → A) (i : ℕ) (a : A) → i < n → total n (put f i a) + w (f i) ≡ total n f + w a
  unfolding total
  total-put zero f i a h = absurd (omega arith)
  total-put (suc n) f i a h = elim (dec_lt i n) [
    | yes below ↦ ground (arith, total-put n f i a below)
    | no last ↦ ground (arith, total-put_outside n f i a)
  ]

  -- One cell weighs no more than all.
  pub total-get : (n : ℕ) (f : ℕ → A) (i : ℕ) → i < n → w (f i) ≤ total n f
  unfolding total
  total-get zero f i h = absurd (omega arith)
  total-get (suc n) f i h = elim (dec_lt i n) [
    | yes below ↦ omega (arith, total-get n f i below)
    | no last ↦ ground arith
  ]

  -- Neither do two.
  pub total-get_two : (n : ℕ) (f : ℕ → A) (i j : ℕ) → i < j → j < n → w (f i) + w (f j) ≤ total n f
  unfolding total
  total-get_two zero f i j h k = absurd (omega arith)
  total-get_two (suc n) f i j h k = elim (dec_lt j n) [
    | yes below ↦ omega (arith, total-get_two n f i j h below)
    | no last ↦ ground (arith, total-get n f i)
  ]

  pub total-eq_zero : (n : ℕ) (f : ℕ → A) → ((i : ℕ) → w (f i) ≡ 0) → total n f ≡ 0
  unfolding total
  total-eq_zero zero f h = refl
  total-eq_zero (suc n) f h = omega (arith, total-eq_zero n f h, h n)
