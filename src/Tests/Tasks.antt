-- ===== src/Tests/Tasks.antt =====
-- The executor at concrete tasks.
use alchemy.Base.{
  ℕ, zero, suc, ◌*◌, ◌<◌, ◌≤◌, ◌≡◌, ◌↔◌, refl, arith, Option, none, some, List, [], ◌∷◌, put, total,
  is_some, true, ◌==◌, if◌then◌else◌,
}
use mathlib.Core.Path.{subst}
use alchemy.Task.{Takes, block_on, block_on-returns}
use alchemy.Task.Switch.{DummySwitcher, new_switcher, switcher_future, switcher-Takes}
use alchemy.Task.Executor.{returned, new, spawn, run_ready_tasks, run_loop}
use alchemy.Task.Executor.Spawn.{spawn_all, spawn_full}
use alchemy.Task.Executor.Returns.{AllDone}
use alchemy.Task.Executor.Runs.{all_polls, Finishing, run_ready_tasks-spawn_all}

block_on-returns_example : block_on 4 (new_switcher 3) ≡ some tt
block_on-returns_example = block_on-returns 4 3 (new_switcher 3) tt (switcher-Takes 3) (omega arith)

-- A switcher of three rounds, and one of none.
abbrev switchers : List DummySwitcher
switchers = new_switcher 3 ∷ new_switcher 0 ∷ []

abbrev rounds_of : ℕ → ℕ
rounds_of i = if i == 0 then 3 else 0

switchers-Finishing : Finishing {F = DummySwitcher} 2 (λ _. tt) rounds_of switchers
switchers-Finishing zero task e =
    let h : new_switcher 3 ≡ task = cc in subst (λ t. Takes 3 t tt) h (switcher-Takes 3)
switchers-Finishing (suc zero) task e =
    let h : new_switcher 0 ≡ task = cc in subst (λ t. Takes 0 t tt) h (switcher-Takes 0)
switchers-Finishing (suc (suc i)) task e = cc

ten : all_polls 2 rounds_of * 2 ≤ 10
unfolding total
ten = omega arith

run_ready_tasks-spawn_all_example :
    (queue : ℕ → Option DummySwitcher) × (spawn_all 2 switchers (new 2) ≡ some queue)
    × (output : ℕ → Option Unit) × (left : ℕ → Option DummySwitcher) × (run_ready_tasks 2 10 queue
        ≡ some (returned output left))
    × AllDone {F = DummySwitcher} 2 (omega arith) (λ _. tt) output left
run_ready_tasks-spawn_all_example =
    run_ready_tasks-spawn_all 2 (λ _. tt) rounds_of switchers (omega arith) (omega arith) refl
      switchers-Finishing 10 ten

-- With 256 slots the count of finished tasks, 0, is `N as u8`, and the loop returns after one round.
returns_at_once :
    run_ready_tasks {F = DummySwitcher} {Out = Unit} 256 1 (λ i. some (new_switcher 3))
    ≡ some (returned (λ _. none) (put (λ i. some (new_switcher 3)) 0 (some (new_switcher 2))))
unfolding run_ready_tasks run_loop new_switcher
returns_at_once = refl

abbrev full_queue : ℕ → Option DummySwitcher
full_queue i = some (new_switcher i)

spawn_full_example :
    (spawn 2 full_queue (new_switcher 7) ≡ none) ↔ ((i : ℕ) → i < 2 → is_some (full_queue i) ≡ true)
spawn_full_example = spawn_full 2 full_queue (new_switcher 7)
