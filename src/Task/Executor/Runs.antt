-- ===== src/Task/Executor/Runs.antt =====
-- The executor of src/async_task/mod.rs used as a client does: spawn the tasks of a list, then run them.
use alchemy.Base.{
  ℕ, zero, suc, ◌*◌, ◌<◌, ◌≤◌, ◌≡◌, refl, Option, none, some, List, [], arith, total, length,
  get_elem?, sym, ap, ◌∙◌, get_elem?-below,
}
use mathlib.Core.Path.{subst}
use alchemy.Task.{Future, Takes}
use alchemy.Task.Executor.{returned, new, start, run_ready_tasks}
use alchemy.Task.Executor.Visits.{active, count, Slot}
use alchemy.Task.Executor.Returns.{AllDone, finishes}
use alchemy.Task.Executor.Spawn.{spawn_all, Holds-spawn_all}

-- The polls that all the tasks take together.
abbrev pub all_polls : ℕ → (ℕ → ℕ) → ℕ
all_polls n polls = total count n (λ i. suc (polls i))

module _ {F Out : Type 0} ⦃future : Future F Out⦄ (n : ℕ) (outs : ℕ → Out) (polls : ℕ → ℕ) where
  -- The task at each place of the list gives its output after its number of pending polls.
  abbrev pub Finishing : List F → Type 0
  Finishing tasks =
      (i : ℕ) (task : F) → get_elem? tasks i ≡ some task → Takes (polls i) task (outs i)

  start-Slot :
      (tasks : List F)
      → Finishing tasks
      → (i : ℕ) → i < length tasks
      → (written : Option Out) → Slot n outs (outs i) (get_elem? tasks i) written (suc (polls i))
  start-Slot tasks fin i lt written =
      let (task, e) = get_elem?-below tasks i lt in
      subst (λ o. Slot n outs (outs i) o written (suc (polls i))) (sym e)
        (polls i, refl, fin i task e)

  Holds-active :
      (tasks : List F) (queue : ℕ → Option F)
      → ((i : ℕ) → queue i ≡ get_elem? tasks i)
      → (i : ℕ) → i < length tasks
      → active (queue i) ≡ 1
  Holds-active tasks queue holds i lt =
      let (task, e) = get_elem?-below tasks i lt in ap active (holds i) ∙ ap active e

  all_active :
      (m : ℕ) (queue : ℕ → Option F)
      → ((i : ℕ) → i < m → active (queue i) ≡ 1)
      → total active m queue ≡ m
  unfolding total
  all_active zero queue all = refl
  all_active (suc m) queue all =
      omega (arith, all_active m queue (λ i lt. all i (omega arith)), all m (omega arith))

  -- A positive number of tasks below 256, one for each slot of the executor, each of which gives its
  -- output after some number of polls. Spawning them into a new executor does not panic, and
  -- `run_ready_tasks` returns the array of their outputs in the order in which they were spawned,
  -- and leaves the queue empty. It takes no more rounds of the loop than `n` for each poll.
  pub run_ready_tasks-spawn_all :
      (tasks : List F)
      → 0 < n
      → (small : n < 256) → length tasks ≡ n
      → Finishing tasks
      → (rounds : ℕ) → all_polls n polls * n ≤ rounds
      → (queue : ℕ → Option F) × (spawn_all n tasks (new n) ≡ some queue)
        × (output : ℕ → Option Out) × (left : ℕ → Option F) × (run_ready_tasks n rounds queue
            ≡ some (returned output left))
        × AllDone n small outs output left
  unfolding run_ready_tasks new
  run_ready_tasks-spawn_all tasks positive small size fin rounds le =
      let (queue, spawned, holds) =
        Holds-spawn_all n tasks [] (new n) (λ i. refl) (omega (arith, size)) in
      let full : total active n queue ≡ n =
        all_active n queue (λ i lt. Holds-active tasks queue holds i (omega (arith, size))) in
      let (output, left, runs, done) =
        finishes n small outs (all_polls n polls) (λ i. suc (polls i)) (start queue) refl
          (record {
            slot = λ i lt.
                subst (λ o. Slot n outs (outs i) o none (suc (polls i))) (sym (holds i))
                  (start-Slot tasks fin i (omega (arith, size)) none);
            counted = omega (arith, full);
            within = positive;
          })
          (omega (arith, full)) rounds le in
      (queue, spawned, output, left, runs, done)
