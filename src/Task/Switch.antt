-- ===== src/Task/Switch.antt =====
-- The futures of src/async_task/task_switcher.rs and src/async_task/prefetcher.rs.
use alchemy.Base.{ℕ, zero, suc, ◌+◌, ◌/◌, refl, Bool, true, false, List, [], ◌∷◌, if◌then◌else◌}
use alchemy.Task.{Poll, pending, ready, Future, Takes}

pub record DummySwitcher : Type 0 where
  pub remaining : ℕ

unfoldable pub new_switcher : ℕ → DummySwitcher
new_switcher round = record { remaining = round }

abbrev poll_switcher : DummySwitcher → Poll Unit × DummySwitcher
poll_switcher s = elim s.remaining [
  | zero ↦ (ready tt, s)
  | suc n ↦ (pending, record { remaining = n })
]

instance abbrev pub switcher_future : Future DummySwitcher Unit
switcher_future = record { poll = poll_switcher }

-- A switcher of `n` rounds is pending for `n` polls.
pub switcher-Takes : (n : ℕ) → Takes n (new_switcher n) tt
unfolding new_switcher
switcher-Takes zero = refl
switcher-Takes (suc n) = (refl, switcher-Takes n)

pub record Prefetcher : Type 0 where
  pub is_first_poll : Bool

abbrev poll_prefetcher : Prefetcher → Poll Unit × Prefetcher
poll_prefetcher p =
    if p.is_first_poll then (pending, record { is_first_poll = false }) else (ready tt, p)

instance abbrev pub prefetcher_future : Future Prefetcher Unit
prefetcher_future = record { poll = poll_prefetcher }

abbrev pub cache_line_size : ℕ
cache_line_size = 64

-- `fetch_ptr`: the address that is prefetched, and the future.
unfoldable pub fetch_ptr : ℕ → List ℕ × Prefetcher
fetch_ptr addr = (addr ∷ [], record { is_first_poll = true })

-- The addresses that the loop of `fetch_ptr_n` prefetches in `k` rounds: `(0..size).step_by(64)` has
-- one round for each begun line.
unfoldable pub lines_from : ℕ → ℕ → List ℕ
lines_from zero addr = []
lines_from (suc k) addr = addr ∷ lines_from k (addr + cache_line_size)

unfoldable pub fetch_ptr_n : ℕ → ℕ → List ℕ × Prefetcher
fetch_ptr_n addr size =
    (lines_from ((size + 63) / cache_line_size) addr, record { is_first_poll = true })

pub record PrefetchRef (T : Type 0) : Type 0 where
  pub value : T
  pub fetched : Bool

unfoldable pub new_ref : {T : Type 0} → T → PrefetchRef T
new_ref v = record { value = v; fetched = false }

abbrev poll_ref : {T : Type 0} → PrefetchRef T → Poll T × PrefetchRef T
poll_ref p = if p.fetched then (ready p.value, p) else (pending, record p { fetched = true })

instance abbrev pub ref_future : {T : Type 0} → Future (PrefetchRef T) T
ref_future = record { poll = poll_ref }

-- A prefetching reference is pending once, and then gives the reference.
pub ref-Takes : {T : Type 0} (v : T) → Takes 1 (new_ref v) v
unfolding new_ref
ref-Takes v = (refl, refl)
