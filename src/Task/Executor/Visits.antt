-- ===== src/Task/Executor/Visits.antt =====
-- The state of the loop of `run_ready_tasks` (src/async_task/mod.rs), slot by slot.
use alchemy.Base.{
  ℕ, zero, suc, ◌+◌, ◌-◌, ◌%◌, ◌<◌, ◌≡◌, ◌≢◌, refl, Option, none, some, arith, put, ==-refl, ==-ne,
  total, total-put, ℕ_discrete, dec_lt, ap, ◌∙◌,
}
use mathlib.Core.Path.{subst}
use native.Mathlib.Nat.{add-mod_right, mod-eq_of_lt}
use alchemy.Task.{pending, ready, Future, Takes}
use alchemy.Task.Executor.{Run, settle}

abbrev pub active : {F : Type 0} → Option F → ℕ
active none = 0
active (some _) = 1

abbrev pub count : ℕ → ℕ
count k = k

-- Some cell with a weight lies below a positive total.
pub total-positive :
    {A : Type 0} (w : A → ℕ) (n : ℕ) (f : ℕ → A)
    → 0 < total w n f
    → (i : ℕ) × (i < n) × (0 < w (f i))
unfolding total
total-positive w zero f h = absurd (omega arith)
total-positive w (suc n) f h = elim (dec_lt 0 (w (f n))) [
  | yes p ↦ (n, omega arith, p)
  | no q ↦ let (i, lt, p) = total-positive w n f (omega arith) in (i, omega arith, p)
]

-- The distance from a position to a slot, going round.
pub distance : (n pos i : ℕ) → pos < n → i < n → (d : ℕ) × (d < n) × ((pos + d) % n ≡ i)
distance n pos i p q = elim (dec_lt i pos) [
  | yes below ↦
      (i + n - pos, omega arith, ap (λ x. x % n) (omega arith) ∙ add-mod_right i n ∙ mod-eq_of_lt q)
  | no above ↦ (i - pos, omega arith, ap (λ x. x % n) (omega arith) ∙ mod-eq_of_lt q)
]

module _ {F Out : Type 0} ⦃future : Future F Out⦄ (n : ℕ) (outs : ℕ → Out) where
  -- A slot that is still to be polled `k` times, the last of which gives the output, or one that is
  -- done, with the output written.
  abbrev pub Slot : Out → Option F → Option Out → ℕ → Type 0
  Slot out none written k = (k ≡ 0) × (written ≡ some out)
  Slot out (some task) written k = (j : ℕ) × (k ≡ suc j) × Takes j task out

  pub record Inv (polls : ℕ → ℕ) (r : Run F Out) : Type 0 where
    pub slot : (i : ℕ) → i < n → Slot (outs i) (r.task_queue i) (r.output i) (polls i)
    pub counted : r.ready_task + total active n r.task_queue ≡ n
    pub within : r.pos < n

  -- Only the slot at `pos` changes.
  Slot-put :
      (queue : ℕ → Option F) (output output' : ℕ → Option Out) (polls : ℕ → ℕ) (pos k : ℕ)
      (o : Option F)
      → ((i : ℕ) → i < n → Slot (outs i) (queue i) (output i) (polls i))
      → ((i : ℕ) → pos ≢ i → output' i ≡ output i)
      → Slot (outs pos) o (output' pos) k
      → (i : ℕ) → i < n
      → Slot (outs i) (put queue pos o i) (output' i) (put polls pos k i)
  Slot-put queue output output' polls pos k o all others here i lt = elim (ℕ_discrete pos i) [
    | yes e ↦
        subst (λ x. Slot (outs x) (put queue pos o x) (output' x) (put polls pos k x)) e
          (rw (==-refl pos) here)
    | no ne ↦ rw (==-ne pos i ne, others i ne) (all i lt)
  ]

  -- A poll that leaves the task pending.
  pub settle-pending :
      (polls : ℕ → ℕ) (r : Run F Out) (task : F) (j : ℕ)
      → Inv polls r
      → r.task_queue r.pos ≡ some task
      → polls r.pos ≡ suc (suc j)
      → (t' : F) → Takes j t' (outs r.pos)
      → Inv (put polls r.pos (suc j)) (settle n r (pending, t'))
  settle-pending polls r task j inv here left t' takes = record {
    slot =
        Slot-put r.task_queue r.output r.output polls r.pos (suc j) (some t') inv.slot
          (λ i ne. refl) (j, refl, takes);
    counted = omega (
      arith,
      total-put active n r.task_queue r.pos (some t') inv.within,
      ap active here,
      inv.counted,
    );
    within = inv.within;
  }

  -- A poll that gives the output.
  pub settle-ready :
      (polls : ℕ → ℕ) (r : Run F Out) (task t' : F)
      → n < 256
      → Inv polls r
      → r.task_queue r.pos ≡ some task
      → Inv (put polls r.pos 0) (settle n r (ready (outs r.pos), t'))
  settle-ready polls r task t' small inv here = record {
    slot =
        Slot-put r.task_queue r.output (put r.output r.pos (some (outs r.pos))) polls r.pos 0 none
          inv.slot (λ i ne. rw (==-ne r.pos i ne) refl) (refl, rw (==-refl r.pos) refl);
    counted =
        omega (
          arith,
          total-put active n r.task_queue r.pos none inv.within,
          ap active here,
          inv.counted,
        );
    within = inv.within;
  }
