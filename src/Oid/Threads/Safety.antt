-- ===== src/Oid/Threads/Safety.antt =====
-- What holds whatever the interleaving.
use alchemy.Base.{ℕ, ◌+◌, ◌^◌, ◌≤◌, ◌<◌, ◌≡◌, arith, total, total-get, false, ℕ_discrete}
use alchemy.Oid.{read_lock_cnt, write_locked}
use alchemy.Oid.Layout.{content, read_lock_cnt_lem, write_locked_lem}
use alchemy.Oid.Threads.Defs.{System, Step, pick, Reach}
use alchemy.Oid.Threads.Counts.{reads, writes, Inv, mover, total-get_pair, total-reads-le}
use alchemy.Oid.Threads.Moves.{Reach-Inv, Move-content}

-- At most 127 threads share a lock word that starts with no lock held. In every reachable state, a
-- thread that owns the write guard is the only thread that owns any guard.
pub write_guard-is_alone :
    {n content : ℕ} {s : System}
    → n ≤ 127
    → content < 2 ^ 56
    → Reach n content s
    → (i j : ℕ) → i < n
    → j < n
    → writes (s.pc i) ≡ 1
    → reads (s.pc j) + writes (s.pc j) ≡ 1
    → i ≡ j
write_guard-is_alone {n} {s} few small r i j hi hj wi hold = elim (ℕ_discrete i j) [
  | yes same ↦ same
  | no apart ↦ absurd (
      omega (
        arith,
        (Reach-Inv few small r).exclusive,
        total-get writes n s.pc i hi,
        total-get reads n s.pc j hj,
        total-get_pair n s.pc i j hi hj apart,
      ))
]

-- At most 127 threads share a lock word that starts with no lock held. In every reachable state in
-- which no thread owns the write guard, the count of readers in the word is the number of threads
-- that own a read guard, and the writer bit is clear.
pub read_lock_cnt-counts :
    {n content : ℕ} {s : System}
    → n ≤ 127
    → content < 2 ^ 56
    → Reach n content s
    → total writes n s.pc ≡ 0
    → (read_lock_cnt s.word ≡ total reads n s.pc) × (write_locked s.word ≡ false)
read_lock_cnt-counts {n} {s} few small r none =
    let inv : Inv n s.word s.pc = Reach-Inv few small r in
    ground (
      arith,
      read_lock_cnt_lem s.word,
      write_locked_lem s.word,
      inv.word,
      inv.counted,
      total-reads-le n s.pc,
    )

Step-content :
    {n : ℕ} {s t : System}
    → Inv n s.word s.pc
    → Step n s t
    → 1 ≤ total reads n s.pc
    → content t.word ≡ content s.word
Step-content inv (pick i {p = p'} lt mv) h = Move-content inv i lt mv (mover inv i lt p') h

-- At most 127 threads share a lock word that starts with no lock held. From a reachable state in
-- which some thread owns a read guard, no step of any thread changes the word below the lock bits:
-- the flag that tells a cache index from a record id, and the id, are stable for the reader.
pub read_guard-content_stable :
    {n content_0 : ℕ} {s t : System}
    → n ≤ 127
    → content_0 < 2 ^ 56
    → Reach n content_0 s
    → Step n s t
    → (j : ℕ) → j < n
    → reads (s.pc j) ≡ 1
    → content t.word ≡ content s.word
read_guard-content_stable {n} {s} few small r st j hj reading =
    Step-content (Reach-Inv few small r) st (omega (arith, total-get reads n s.pc j hj))
