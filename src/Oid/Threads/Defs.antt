-- ===== src/Oid/Threads/Defs.antt =====
-- Where a thread stands between two accesses of the shared word, with the value that it loaded last.
use alchemy.Base.{ℕ, ◌<◌, ◌^◌, ◌≡◌, Bool, ok, err, put}
use alchemy.Rid.{Rid, TransactionError}
use alchemy.Oid.{
  read_round, try_read, read_unlock, write_round, try_write, write_unlock, store_rid, store_index,
  upgrade,
}

pub data Pc : Type 0 where
  idle : Pc
  reading : (val : ℕ) → Pc  -- in the loop of `read`
  try_reading : (val : ℕ) → Pc
  writing : (val : ℕ) → Pc  -- in the loop of `write`
  try_writing : (val : ℕ) → Pc
  reader : Pc  -- owns an `OidReadGuard`
  upgrading : (val : ℕ) → Pc
  writer : Pc  -- owns an `OidWriteGuard`
  storing_rid : (rid : Rid) (val : ℕ) → Pc
  storing_index : (index val : ℕ) → Pc

-- One access of one thread to the word `m`. Which method a thread calls next is left open.
pub data Move (m : ℕ) : Pc → ℕ → Pc → Type 0 where
  read_load : Move m idle m (reading m)
  read_ok :
      {val new : ℕ} (spurious : Bool)
      → read_round val m spurious ≡ ok new
      → Move m (reading val) new reader
  read_again :
      {val v : ℕ} (spurious : Bool)
      → read_round val m spurious ≡ err v
      → Move m (reading val) m (reading v)
  try_read_load : Move m idle m (try_reading m)
  try_read_ok :
      {val new : ℕ} (spurious : Bool)
      → try_read val m spurious ≡ (ok tt, new)
      → Move m (try_reading val) new reader
  try_read_err :
      {val new : ℕ} (spurious : Bool) (e : TransactionError)
      → try_read val m spurious ≡ (err e, new)
      → Move m (try_reading val) new idle
  write_load : Move m idle m (writing m)
  write_ok :
      {val new : ℕ} (spurious : Bool)
      → write_round val m spurious ≡ ok new
      → Move m (writing val) new writer
  write_again :
      {val v : ℕ} (spurious : Bool)
      → write_round val m spurious ≡ err v
      → Move m (writing val) m (writing v)
  try_write_load : Move m idle m (try_writing m)
  try_write_ok :
      {val new : ℕ} (spurious : Bool)
      → try_write val m spurious ≡ (ok tt, new)
      → Move m (try_writing val) new writer
  try_write_err :
      {val new : ℕ} (spurious : Bool) (e : TransactionError)
      → try_write val m spurious ≡ (err e, new)
      → Move m (try_writing val) new idle
  read_drop : Move m reader (read_unlock m) idle
  write_drop : Move m writer (write_unlock m) idle
  upgrade_load : Move m reader m (upgrading m)
  upgrade_ok :
      {val new : ℕ} (spurious : Bool)
      → upgrade val m spurious ≡ (ok tt, new)
      → Move m (upgrading val) new writer
  upgrade_err :
      {val new : ℕ} (spurious : Bool)
      → upgrade val m spurious ≡ (err tt, new)
      → Move m (upgrading val) new reader
  rid_load : (rid : Rid) → rid < 2 ^ 32 → Move m writer m (storing_rid rid m)
  rid_store : {rid : Rid} {val : ℕ} → Move m (storing_rid rid val) (store_rid rid val) writer
  index_load : (index : ℕ) → index < 2 ^ 32 → Move m writer m (storing_index index m)
  index_store : {index val : ℕ} → Move m (storing_index index val) (store_index index val) writer

pub record System : Type 0 where
  pub word : ℕ
  pub pc : ℕ → Pc

-- One of `n` threads moves.
pub data Step (n : ℕ) (s : System) : System → Type 0 where
  pick :
      (i : ℕ) {m : ℕ} {p : Pc}
      → i < n
      → Move s.word (s.pc i) m p
      → Step n s (record { word = m; pc = put s.pc i p })

-- All threads start idle over a word that nobody holds.
abbrev pub init : ℕ → System
init content = record { word = content; pc = λ _. Pc.idle }

pub data Reach (n content : ℕ) : System → Type 0 where
  start : Reach n content (init content)
  later : {s t : System} → Reach n content s → Step n s t → Reach n content t
