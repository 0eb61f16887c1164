-- ===== src/Task.antt =====
-- Futures as the executor of src/async_task/mod.rs sees them, and `block_on`. The wakers of that file
-- do nothing, so a poll takes the future alone. The futures of the program are in Task/Switch, and the
-- executor of many tasks is in Task/Executor.
pub mod Switch
pub mod Executor
use alchemy.Base.{
  ℕ, zero, suc, ◌+◌, ◌<◌, ◌≡◌, refl, Option, none, some, arith, inl, inr, ◌⊎◌, sym, ap, ◌∙◌,
}

-- Rust's `Poll`.
pub data Poll (Out : Type 0) : Type 0 where
  pending : Poll Out
  ready : Out → Poll Out

-- A future: a poll changes it in place.
pub record Future (F Out : Type 0) : Type 0 where
  pub poll : F → Poll Out × F

pub Poll-cases : {Out : Type 0} (p : Poll Out) → (p ≡ pending) ⊎ ((out : Out) × (p ≡ ready out))
Poll-cases pending = inl refl
Poll-cases (ready out) = inr (out, refl)

abbrev after_poll : {Out : Type 0} → Poll Out → Option Out → Option Out
after_poll pending rest = rest
after_poll (ready out) rest = some out

module _ {F Out : Type 0} ⦃future : Future F Out⦄ where
  -- The future is pending for so many polls, and the poll after them gives the output.
  abbrev pub Takes : ℕ → F → Out → Type 0
  Takes zero task out = (future.poll task).0 ≡ ready out
  Takes (suc k) task out = ((future.poll task).0 ≡ pending) × Takes k (future.poll task).1 out

  -- `block_on`: `none` means that the rounds ran out.
  unfoldable pub block_on : ℕ → F → Option Out
  block_on zero task = none
  block_on (suc rounds) task =
      after_poll (future.poll task).0 (block_on rounds (future.poll task).1)

  -- `block_on` of a future that is pending for `k` polls returns its output, given any number of
  -- rounds above `k`.
  pub block_on-returns :
      (rounds k : ℕ) (task : F) (out : Out)
      → Takes k task out
      → k < rounds
      → block_on rounds task ≡ some out
  unfolding block_on
  block_on-returns zero k task out h lt = absurd (omega arith)
  block_on-returns (suc rounds) zero task out h lt = rw h refl
  block_on-returns (suc rounds) (suc k) task out (p, h) lt =
      rw p (block_on-returns rounds k (future.poll task).1 out h (omega arith))

  -- Whatever `block_on` returns is the output that the future gives after some number of polls
  -- below the number of rounds.
  pub block_on-Takes :
      (rounds : ℕ) (task : F) (out : Out)
      → block_on rounds task ≡ some out
      → (k : ℕ) × (k < rounds) × Takes k task out
  unfolding block_on
  block_on-Takes zero task out h = cc
  block_on-Takes (suc rounds) task out h = elim (Poll-cases (future.poll task).0) [
    | inl p ↦
        let rest = block_on rounds (future.poll task).1 in
        let (k, lt, takes) =
          block_on-Takes rounds (future.poll task).1 out
            (sym (ap (λ x. after_poll x rest) p) ∙ h) in
        (suc k, omega arith, (p, takes))
    | inr (o, p) ↦
        let e : some o ≡ some out =
          sym (ap (λ x. after_poll x (block_on rounds (future.poll task).1)) p) ∙ h in
        (0, omega arith, cc)
  ]
