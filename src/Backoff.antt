-- ===== src/Backoff.antt =====
-- `Backoff` of src/utils/backoff.rs: the step counter, with the hints to spin in a call and whether it yields.
use alchemy.Base.{
  ℕ, zero, suc, ◌+◌, ◌^◌, ◌≡◌, refl, arith, Bool, true, false, min, leb, ltb, if◌then◌else◌,
}

abbrev pub spin_limit : ℕ
spin_limit = 6

abbrev pub yield_limit : ℕ
yield_limit = 10

-- `spin`: the number of hints, and the step after it.
unfoldable pub spin : ℕ → ℕ × ℕ
spin step = (2 ^ min step spin_limit, if leb step spin_limit then step + 1 else step)

-- `snooze`: the number of hints, whether the thread yields, and the step after it.
unfoldable pub snooze : ℕ → ℕ × Bool × ℕ
snooze step =
    let step' = if leb step yield_limit then step + 1 else step in
    if leb step spin_limit then (2 ^ step, false, step') else (0, true, step')

unfoldable pub is_completed : ℕ → Bool
is_completed step = ltb yield_limit step

-- `snooze` called a number of times.
abbrev pub snoozes : ℕ → ℕ → ℕ
unfolding snooze
snoozes zero step = step
snoozes (suc n) step = (snooze (snoozes n step)).2

snoozes-from_zero : (n : ℕ) → snoozes n 0 ≡ min n 11
unfolding snooze
snoozes-from_zero zero = refl
snoozes-from_zero (suc n) = ground (arith, snoozes-from_zero n)

-- A new backoff is complete once `snooze` has been called eleven times, and not before.
pub is_completed-snoozes : (n : ℕ) → is_completed (snoozes n 0) ≡ leb 11 n
unfolding is_completed
is_completed-snoozes n = ground (arith, snoozes-from_zero n)
