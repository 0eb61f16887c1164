-- ===== src/Oid/Threads/Counts.antt =====
-- The word counts the guards: the invariant, and the sums that one move changes.
use alchemy.Base.{
  ℕ, zero, suc, ◌+◌, ◌-◌, ◌*◌, ◌^◌, ◌≤◌, ◌<◌, ◌≡◌, ◌≢◌, ◌⊎◌, refl, arith, put, total, total-put,
  total-get, total-get_two, dec_lt,
}
use alchemy.Oid.Layout.{locks}
use alchemy.Oid.Methods.{IsWord}
use alchemy.Oid.Threads.Defs.{
  Pc, idle, reading, try_reading, writing, try_writing, reader, upgrading, writer, storing_rid,
  storing_index,
}

abbrev pub reads : Pc → ℕ
reads reader = 1
reads (upgrading _) = 1
reads _ = 0

abbrev pub writes : Pc → ℕ
writes writer = 1
writes (storing_rid _ _) = 1
writes (storing_index _ _) = 1
writes _ = 0

abbrev rests : Pc → ℕ
rests p = 1 - (reads p + writes p)

-- Every thread reads, writes or rests.
total-all : (n : ℕ) (pc : ℕ → Pc) → total reads n pc + total writes n pc + total rests n pc ≡ n
unfolding total
total-all zero pc = refl
total-all (suc n) pc = ground (arith, total-all n pc)

pub total-reads-le : (n : ℕ) (pc : ℕ → Pc) → total reads n pc ≤ n
total-reads-le n pc = omega (arith, total-all n pc)

pub total-get_pair :
    (n : ℕ) (pc : ℕ → Pc) (i j : ℕ)
    → i < n
    → j < n
    → i ≢ j
    → writes (pc i) + writes (pc j) ≤ total writes n pc
total-get_pair n pc i j hi hj apart = elim (dec_lt i j) [
  | yes below ↦ total-get_two writes n pc i j below hj
  | no above ↦ omega (arith, total-get_two writes n pc j i (omega arith) hi)
]

-- What a thread's loaded value says about the word.
abbrev pub IsFresh : ℕ → Pc → Type 0
IsFresh m idle = Unit {0}
IsFresh m (reading val) = IsWord val
IsFresh m (try_reading val) = IsWord val
IsFresh m (writing val) = IsWord val
IsFresh m (try_writing val) = IsWord val
IsFresh m reader = Unit {0}
IsFresh m (upgrading val) = IsWord val
IsFresh m writer = Unit {0}
IsFresh m (storing_rid rid val) = (rid < 2 ^ 32) × (val ≡ m)
IsFresh m (storing_index index val) = (index < 2 ^ 32) × (val ≡ m)

pub record Inv (n m : ℕ) (pc : ℕ → Pc) : Type 0 where
  pub few : n ≤ 127
  pub word : IsWord m
  pub counted : locks m ≡ total reads n pc + 128 * total writes n pc
  pub exclusive : (total writes n pc ≡ 0) ⊎ ((total writes n pc ≡ 1) × (total reads n pc ≡ 0))
  pub fresh : (i : ℕ) → i < n → IsFresh m (pc i)

module _ {n m : ℕ} {pc : ℕ → Pc} (inv : Inv n m pc) (i : ℕ) (lt : i < n) where
  open inv use {few, word, counted, exclusive, fresh}

  -- Thread `i` goes from `p` to `p'`.
  pub record Mover (p p' : Pc) : Type 0 where
    pub own : IsFresh m p
    pub readers : total reads n (put pc i p') + reads p ≡ total reads n pc + reads p'
    pub writers : total writes n (put pc i p') + writes p ≡ total writes n pc + writes p'
    pub before : total reads n pc + total writes n pc ≤ n
    pub after : total reads n (put pc i p') + total writes n (put pc i p') ≤ n
    pub one_read : reads p ≤ total reads n pc
    pub one_write : writes p ≤ total writes n pc
    pub not_full : 1 ≤ reads p + writes p + (127 - total reads n pc)

  pub mover : (p' : Pc) → Mover (pc i) p'
  mover p' = record {
    own = fresh i lt;
    readers = total-put reads n pc i p' lt;
    writers = total-put writes n pc i p' lt;
    before = omega (arith, total-all n pc);
    after = omega (arith, total-all n (put pc i p'));
    one_read = total-get reads n pc i lt;
    one_write = total-get writes n pc i lt;
    not_full = omega (arith, total-all n pc, total-get rests n pc i lt);
  }
