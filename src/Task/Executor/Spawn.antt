-- ===== src/Task/Executor/Spawn.antt =====
-- `spawn` (src/async_task/mod.rs), and a run of all the tasks that were spawned.
use alchemy.Base.{
  ℕ, zero, suc, ◌+◌, ◌<◌, ◌≤◌, ◌≡◌, ◌↔◌, refl, true, false, Option, none, some, List, [], ◌∷◌, ◌++◌,
  arith, is_some, put, ℕ_discrete, length, get_elem?, sym, ap, ◌∙◌, inl, inr, ◌⊎◌, ◌==◌,
  if◌then◌else◌, if_true, if_false, Bool-cases, ◌≢◌, length-append, get_elem?-is_some,
  get_elem?-length, get_elem?-append,
}
use mathlib.Core.List.{append-nil, append_assoc}
use alchemy.Task.Executor.{spawn_from, spawn}

abbrev and_spawn : {Q : Type 0} → Option Q → (Q → Option Q) → Option Q
and_spawn none rest = none
and_spawn (some queue) rest = rest queue

some≢none : {A : Type 0} {a : A} → some a ≢ none
some≢none e = cc

module _ {F : Type 0} where
  -- The slots from `i` up to `j` are taken.
  abbrev pub Taken : (ℕ → Option F) → ℕ → ℕ → Type 0
  Taken queue i j = (m : ℕ) → i ≤ m → m < j → is_some (queue m) ≡ true

  spawn_from-full :
      (n k i : ℕ) (queue : ℕ → Option F) (task : F)
      → Taken queue i (i + k)
      → spawn_from n k i queue task ≡ none
  unfolding spawn_from
  spawn_from-full n zero i queue task taken = refl
  spawn_from-full n (suc k) i queue task taken =
      if_true _ _ (taken i (omega arith) (omega arith))
      ∙ spawn_from-full n k (i + 1) queue task (λ m le lt. taken m (omega arith) (omega arith))

  spawn_from-free :
      (n k i j : ℕ) (queue : ℕ → Option F) (task : F)
      → i ≤ j
      → j < i + k
      → Taken queue i j
      → is_some (queue j) ≡ false
      → spawn_from n k i queue task ≡ some (put queue j (some task))
  unfolding spawn_from
  spawn_from-free n zero i j queue task le lt taken free = absurd (omega arith)
  spawn_from-free n (suc k) i j queue task le lt taken free = elim (ℕ_discrete i j) [
    | yes e ↦
        if_false _ _ (ap (λ x. is_some (queue x)) e ∙ free)
        ∙ ap (λ x. some (put queue x (some task))) e
    | no ne ↦
        if_true _ _ (taken i (omega arith) (omega arith))
        ∙ spawn_from-free n k (i + 1) j queue task (omega arith) (omega arith)
            (λ m le' lt'. taken m (omega arith) lt') free
  ]

  Taken-cons :
      (i j : ℕ) (queue : ℕ → Option F)
      → is_some (queue i) ≡ true
      → Taken queue (i + 1) j
      → Taken queue i j
  Taken-cons i j queue here taken m le lt = elim (ℕ_discrete i m) [
    | yes e ↦ ap (λ x. is_some (queue x)) (sym e) ∙ here
    | no ne ↦ taken m (omega arith) lt
  ]

  -- The first free slot, if there is one.
  first_free :
      (k i : ℕ) (queue : ℕ → Option F)
      → Taken queue i (i + k)
        ⊎ ((j : ℕ) × (i ≤ j) × (j < i + k) × Taken queue i j × (is_some (queue j) ≡ false))
  first_free zero i queue = inl (λ m le lt. absurd (omega arith))
  first_free (suc k) i queue = elim (Bool-cases (is_some (queue i))) [
    | inr free ↦ inr (i, omega arith, omega arith, (λ m le lt. absurd (omega arith)), free)
    | inl here ↦ elim (first_free k (i + 1) queue) [
      | inl all ↦ inl (Taken-cons i (i + suc k) queue here (λ m le lt. all m le (omega arith)))
      | inr (j, le, lt, taken, free) ↦
          inr (j, omega arith, omega arith, Taken-cons i j queue here taken, free)
    ]
  ]

  -- `spawn` puts the task into the first free slot and changes no other.
  pub spawn_lem :
      (n j : ℕ) (queue : ℕ → Option F) (task : F)
      → j < n
      → Taken queue 0 j
      → is_some (queue j) ≡ false
      → spawn n queue task ≡ some (put queue j (some task))
  unfolding spawn
  spawn_lem n j queue task lt taken free =
      spawn_from-free n n 0 j queue task (omega arith) (omega arith) taken free

  -- `spawn` panics exactly when every slot of the queue is taken.
  pub spawn_full :
      (n : ℕ) (queue : ℕ → Option F) (task : F)
      → (spawn n queue task ≡ none) ↔ ((i : ℕ) → i < n → is_some (queue i) ≡ true)
  unfolding spawn
  spawn_full n queue task = (
    λ e i lt. elim (first_free n 0 queue) [
      | inl all ↦ all i (omega arith) (omega arith)
      | inr (j, le, below, taken, free) ↦
          absurd (some≢none (sym (spawn_from-free n n 0 j queue task le below taken free) ∙ e))
    ],
    λ taken. spawn_from-full n n 0 queue task (λ m le lt. taken m (omega arith)),
  )

  -- `spawn` called for one task after another, as a client does.
  unfoldable pub spawn_all : ℕ → List F → (ℕ → Option F) → Option (ℕ → Option F)
  spawn_all n [] queue = some queue
  spawn_all n (task ∷ tasks) queue = and_spawn (spawn n queue task) (spawn_all n tasks)

  abbrev pub Holds : (ℕ → Option F) → List F → Type 0
  Holds queue tasks = (i : ℕ) → queue i ≡ get_elem? tasks i

  Holds-spawn :
      (n : ℕ) (queue : ℕ → Option F) (before : List F) (task : F)
      → Holds queue before
      → length before < n
      → (queue' : ℕ → Option F) × (spawn n queue task ≡ some queue')
        × Holds queue' (before ++ task ∷ [])
  Holds-spawn n queue before task holds room = (
    put queue (length before) (some task),
    spawn_lem n (length before) queue task room
        (λ m le lt. ap is_some (holds m) ∙ get_elem?-is_some before m lt)
        (ap is_some (holds (length before)) ∙ get_elem?-length before),
    λ i.
        ap (λ o. if length before == i then some task else o) (holds i)
        ∙ sym (get_elem?-append before task i),
  )

  pub Holds-spawn_all :
      (n : ℕ) (tasks before : List F) (queue : ℕ → Option F)
      → Holds queue before
      → length before + length tasks ≤ n
      → (queue' : ℕ → Option F) × (spawn_all n tasks queue ≡ some queue')
        × Holds queue' (before ++ tasks)
  unfolding spawn_all
  Holds-spawn_all n [] before queue holds le =
      (queue, refl, λ i. holds i ∙ ap (λ xs. get_elem? xs i) (sym (append-nil before)))
  Holds-spawn_all n (task ∷ tasks) before queue holds le =
      let (q, spawned, holds') = Holds-spawn n queue before task holds (omega arith) in
      let (q', all, holds'') =
        Holds-spawn_all n tasks (before ++ task ∷ []) q holds'
          (omega (arith, length-append before (task ∷ []), le)) in
      (
        q',
        ap (λ x. and_spawn x (spawn_all n tasks)) spawned ∙ all,
        λ i. holds'' i ∙ ap (λ xs. get_elem? xs i) (append_assoc before (task ∷ []) tasks),
      )
