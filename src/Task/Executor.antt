-- ===== src/Task/Executor.antt =====
-- `Executor` of src/async_task/mod.rs: a queue of `n` slots that is polled round and round. The
-- queue and the array of outputs are families of which the code uses the first `n` cells, and
-- an output that is not yet written is `none`.

pub mod Visits
pub mod Spawn
pub mod Runs
pub mod Returns
use alchemy.Base.{
  ℕ, zero, suc, ◌+◌, ◌%◌, ◌<◌, ◌≡◌, refl, Bool, true, false, Option, none, some, List, [], ◌∷◌,
  arith, is_some, put, ltb, ◌==◌, if◌then◌else◌,
}
use alchemy.Task.{Poll, pending, ready, Future}

-- The locals of `run_ready_tasks`, with the queue.
pub record Run (F Out : Type 0) : Type 0 where
  pub task_queue : ℕ → Option F
  pub pos : ℕ
  pub ready_task : ℕ
  pub output : ℕ → Option Out

-- How the loop ends: with the array and the queue left, or at an index out of range.
pub data Outcome (F Out : Type 0) : Type 0 where
  returned : (ℕ → Option Out) → (ℕ → Option F) → Outcome F Out
  panicked : Outcome F Out

module _ {F : Type 0} (n : ℕ) where
  -- `Executor::new`: every slot is empty.
  unfoldable pub new : ℕ → Option F
  new i = none

  -- The loop of `spawn` with `k` slots left from `i`; `none` is the panic of a full queue.
  unfoldable pub spawn_from : ℕ → ℕ → (ℕ → Option F) → F → Option (ℕ → Option F)
  spawn_from zero i queue task = none
  spawn_from (suc k) i queue task =
      let rest = spawn_from k (i + 1) queue task in
      if is_some (queue i) then rest else some (put queue i (some task))

  unfoldable pub spawn : (ℕ → Option F) → F → Option (ℕ → Option F)
  spawn queue task = spawn_from n 0 queue task

-- The locals when the loop begins.
abbrev pub start : {F Out : Type 0} → (ℕ → Option F) → Run F Out
start queue = record { task_queue = queue; pos = 0; ready_task = 0; output = λ _. none }

module _ {F Out : Type 0} ⦃future : Future F Out⦄ (n : ℕ) where
  -- What a poll of the task at the position changes.
  abbrev pub settle : Run F Out → Poll Out × F → Run F Out
  settle r (pending, task) = record r { task_queue = put r.task_queue r.pos (some task) }
  settle r (ready out, task) = record r {
    task_queue = put r.task_queue r.pos none;
    ready_task = (r.ready_task + 1) % 256;
    output = put r.output r.pos (some out);
  }

  abbrev pub visit : Run F Out → Option F → Run F Out
  visit r none = r
  visit r (some task) = settle r (future.poll task)

  -- One round of the loop, after the poll: return, or the run at the next position.
  abbrev pub leave_or : Run F Out → Option (Outcome F Out) → Option (Outcome F Out)
  leave_or r rest = if r.ready_task == n % 256 then some (returned r.output r.task_queue) else rest

  abbrev pub next_pos : Run F Out → Run F Out
  next_pos r = record r { pos = (r.pos + 1) % n }

  -- The loop; `none` means that the rounds ran out.
  unfoldable pub run_loop : ℕ → Run F Out → Option (Outcome F Out)
  run_loop zero r = none
  run_loop (suc rounds) r =
      let r' = visit r (r.task_queue r.pos) in
      let rest = run_loop rounds (next_pos r') in
      if ltb r.pos n then leave_or r' rest else some panicked

  unfoldable pub run_ready_tasks : ℕ → (ℕ → Option F) → Option (Outcome F Out)
  run_ready_tasks rounds queue = run_loop rounds (start queue)
