-- ===== src/Task/Executor/Returns.antt =====
-- `run_ready_tasks` (src/async_task/mod.rs) returns when its queue is full of tasks that finish.
use mathlib.Core.Path.{subst}
use native.Mathlib.Nat.{mod-add-mod, mod-lt, mod-eq_of_lt}
use alchemy.Base.{
  ℕ, zero, suc, ◌+◌, ◌*◌, ◌%◌, ◌<◌, ◌≤◌, ◌≡◌, refl, Option, none, some, Option-cases, arith, put,
  total, total-put, total-get, ℕ_discrete, ap, ◌∙◌, inl, inr, ◌==◌, if_true, if_false, ltb,
}
use alchemy.Task.{pending, ready, Future, Takes}
use alchemy.Task.Executor.{Run, returned, panicked, settle, visit, leave_or, next_pos, run_loop}
use alchemy.Task.Executor.Visits.{
  active, count, total-positive, distance, Slot, Inv, settle-pending, settle-ready,
}

module _ {F Out : Type 0} ⦃future : Future F Out⦄ (n : ℕ) (small : n < 256) (outs : ℕ → Out) where
  Slot-done :
      (out : Out) (o : Option F) (written : Option Out) (k : ℕ)
      → active o ≡ 0
      → Slot n outs out o written k
      → (written ≡ some out) × (o ≡ none)
  Slot-done out none written k e (z, w) = (w, refl)
  Slot-done out (some task) written k e s = absurd (omega (arith, e))

  -- The array that is returned holds the output of each task, and the queue left is empty.
  abbrev pub AllDone : (ℕ → Option Out) → (ℕ → Option F) → Type 0
  AllDone output queue = (i : ℕ) → i < n → (output i ≡ some (outs i)) × (queue i ≡ none)

  abbrev pub Returned : ℕ → Run F Out → Type 0
  Returned rounds r =
      (output : ℕ → Option Out) × (queue : ℕ → Option F) × (run_loop n rounds r
        ≡ some (returned output queue))
      × AllDone output queue

  Inv-AllDone :
      (polls : ℕ → ℕ) (r : Run F Out)
      → Inv n outs polls r
      → r.ready_task ≡ n
      → AllDone r.output r.task_queue
  Inv-AllDone polls r inv all i lt =
      Slot-done (outs i) (r.task_queue i) (r.output i) (polls i)
        (omega (arith, total-get active n r.task_queue i lt, inv.counted, all)) (inv.slot i lt)

  run_loop-suc :
      (rounds : ℕ) (r r' : Run F Out)
      → r.pos < n
      → visit n r (r.task_queue r.pos) ≡ r'
      → run_loop n (suc rounds) r ≡ leave_or n r' (run_loop n rounds (next_pos n r'))
  unfolding run_loop
  run_loop-suc rounds r r' lt e =
      if_true {b = ltb r.pos n} _ (some panicked) (ground arith)
      ∙ ap (λ x. leave_or n x (run_loop n rounds (next_pos n x))) e

  -- One round: the poll leads to a run where every task is done, or the loop goes on from it.
  round_lem :
      (rounds : ℕ) (polls : ℕ → ℕ) (r r' : Run F Out)
      → r.pos < n
      → visit n r (r.task_queue r.pos) ≡ r'
      → Inv n outs polls r'
      → (0 < total active n r'.task_queue → Returned rounds (next_pos n r'))
      → Returned (suc rounds) r
  round_lem rounds polls r r' lt e inv on = elim (ℕ_discrete r'.ready_task n) [
    | yes all ↦ (
      r'.output,
      r'.task_queue,
      run_loop-suc rounds r r' lt e ∙ if_true {b = r'.ready_task == n % 256} _ _ (ground arith),
      Inv-AllDone polls r' inv all,
    )
    | no some_left ↦
        let (output, queue, runs, done) = on (omega (arith, inv.counted, some_left)) in
        (
          output,
          queue,
          run_loop-suc rounds r r' lt e
              ∙ if_false {b = r'.ready_task == n % 256} _ _ (ground arith)
              ∙ runs,
          done,
        )
  ]

module _ (F : Type 0) {Out : Type 0} ⦃future : Future F Out⦄ (n : ℕ) (small : n < 256)
    (outs : ℕ → Out) where
  -- What is shown for a number of polls that are left.
  abbrev Finishes : ℕ → Type 0
  Finishes left =
      (polls : ℕ → ℕ) (r : Run F Out)
      → total count n polls ≡ left
      → Inv n outs polls r
      → 0 < total active n r.task_queue
      → (rounds : ℕ) → left * n ≤ rounds
      → Returned n small outs rounds r

module _ {F Out : Type 0} ⦃future : Future F Out⦄ (n : ℕ) (small : n < 256) (outs : ℕ → Out) where
  next_pos-Inv :
      (polls : ℕ → ℕ) (r : Run F Out) → Inv n outs polls r → Inv n outs polls (next_pos n r)
  next_pos-Inv polls r inv = record {
    slot = inv.slot;
    counted = inv.counted;
    within = mod-lt (r.pos + 1) (omega (arith, inv.within));
  }

  -- The poll of a task, of which fewer polls are left.
  polled :
      (left : ℕ)
      → Finishes F n small outs left
      → (polls : ℕ → ℕ) (r : Run F Out) (task : F) (j : ℕ) → total count n polls ≡ suc left
      → Inv n outs polls r
      → r.task_queue r.pos ≡ some task
      → polls r.pos ≡ suc j
      → Takes j task (outs r.pos)
      → (rounds : ℕ) → left * n ≤ rounds
      → Returned n small outs (suc rounds) r
  polled left next polls r task zero sum inv here more takes rounds le =
      let inv' = settle-ready n outs polls r task (future.poll task).1 small inv here in
      let r' = settle n r (ready (outs r.pos), (future.poll task).1) in
      round_lem n small outs rounds (put polls r.pos 0) r r' inv.within
        (ap (visit n r) here ∙ ap (λ p. settle n r (p, (future.poll task).1)) takes) inv'
        (λ some_left.
          next (put polls r.pos 0) (next_pos n r')
            (omega (arith, total-put count n polls r.pos 0 inv.within, sum, more))
            (next_pos-Inv (put polls r.pos 0) r' inv') some_left rounds le)
  polled left next polls r task (suc j) sum inv here more (p, takes) rounds le =
      let t' = (future.poll task).1 in
      let inv' = settle-pending n outs polls r task j inv here more t' takes in
      let r' = settle n r (pending, t') in
      round_lem n small outs rounds (put polls r.pos (suc j)) r r' inv.within
        (ap (visit n r) here ∙ ap (λ p. settle n r (p, t')) p) inv'
        (λ some_left.
          next (put polls r.pos (suc j)) (next_pos n r')
            (omega (arith, total-put count n polls r.pos (suc j) inv.within, sum, more))
            (next_pos-Inv (put polls r.pos (suc j)) r' inv') some_left rounds le)

  at_task :
      (left : ℕ)
      → Finishes F n small outs left
      → (polls : ℕ → ℕ) (r : Run F Out) (task : F) → total count n polls ≡ suc left
      → Inv n outs polls r
      → r.task_queue r.pos ≡ some task
      → (rounds : ℕ) → left * n ≤ rounds
      → Returned n small outs (suc rounds) r
  at_task left next polls r task sum inv here rounds le =
      let (j, more, takes) =
        subst (λ o. Slot n outs (outs r.pos) o (r.output r.pos) (polls r.pos)) here
          (inv.slot r.pos inv.within) in
      polled left next polls r task j sum inv here more takes rounds le

  -- The loop walks over empty slots to a task at a distance `d`, and polls it.
  walk :
      (left : ℕ)
      → Finishes F n small outs left
      → (d : ℕ) (polls : ℕ → ℕ) (r : Run F Out) → total count n polls ≡ suc left
      → Inv n outs polls r
      → 0 < active (r.task_queue ((r.pos + d) % n))
      → (rounds : ℕ) → left * n + d < rounds
      → Returned n small outs rounds r
  walk left next d polls r sum inv there zero lt = absurd (omega arith)
  walk left next zero polls r sum inv there (suc rounds) lt =
      elim (Option-cases (r.task_queue r.pos)) [
        | inl empty ↦
            let here : (r.pos + 0) % n ≡ r.pos =
              ap (λ x. x % n) (omega arith) ∙ mod-eq_of_lt inv.within in
            absurd (omega (arith, there, ap (λ x. active (r.task_queue x)) here, ap active empty))
        | inr (task, here) ↦ at_task left next polls r task sum inv here rounds (omega arith)
      ]
  walk left next (suc d) polls r sum inv there (suc rounds) lt =
      elim (Option-cases (r.task_queue r.pos)) [
        | inl empty ↦
            let on : ((r.pos + 1) % n + d) % n ≡ (r.pos + suc d) % n =
              mod-add-mod (r.pos + 1) n d ∙ ap (λ x. x % n) (omega arith) in
            round_lem n small outs rounds polls r r inv.within (ap (visit n r) empty) inv
              (λ some_left.
                walk left next d polls (next_pos n r) sum (next_pos-Inv polls r inv)
                  (omega (arith, there, ap (λ x. active (r.task_queue x)) on)) rounds (omega arith))
        | inr (task, here) ↦ at_task left next polls r task sum inv here rounds (omega arith)
      ]

  -- A task in a slot has polls left.
  Slot-left :
      (out : Out) (o : Option F) (written : Option Out) (k : ℕ)
      → 0 < active o
      → Slot n outs out o written k
      → 0 < k
  Slot-left out none written k lt s = absurd (omega arith)
  Slot-left out (some task) written k lt (j, e, takes) = omega (arith, e)

  pub finishes : (left : ℕ) → Finishes F n small outs left
  finishes zero polls r sum inv some_left rounds le =
      let (i, lt, is) = total-positive active n r.task_queue some_left in
      absurd (
        omega (
          arith,
          sum,
          total-get count n polls i lt,
          Slot-left (outs i) (r.task_queue i) (r.output i) (polls i) is (inv.slot i lt),
        ))
  finishes (suc left) polls r sum inv some_left rounds le =
      let (i, lt, is) = total-positive active n r.task_queue some_left in
      let (d, near, there) = distance n r.pos i inv.within lt in
      walk left (finishes left) d polls r sum inv
        (omega (arith, is, ap (λ x. active (r.task_queue x)) there)) rounds (omega arith)
