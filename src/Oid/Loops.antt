-- ===== src/Oid/Loops.antt =====
-- The blocking loops `read` and `write`: what they return, and when they return.
use alchemy.Base.{
  ℕ, zero, suc, ◌+◌, ◌<◌, ◌≡◌, ◌≢◌, refl, arith, Bool, true, false, some, is_some, Result, ok, err,
  inl, inr, ◌⊎◌,
}
use alchemy.Oid.{
  lock_reader, lock_writer, write_locked, has_lock, read_round, read_loop, write_round, write_loop,
}
use alchemy.Oid.Layout.{locks, write_locked_lem, has_lock_lem, bit_or-lock_writer}
use alchemy.Oid.Methods.{IsWord}

Result-cases : {A E : Type 0} (r : Result A E) → ((a : A) × (r ≡ ok a)) ⊎ ((e : E) × (r ≡ err e))
Result-cases (ok a) = inl (a, refl)
Result-cases (err e) = inr (e, refl)

-- A round of `read` that takes the lock found no writer, and added a reader.
pub read_round-ok :
    (val cur new : ℕ) (spurious : Bool)
    → IsWord val
    → locks cur ≢ 127
    → read_round val cur spurious ≡ ok new
    → (cur ≡ val) × (locks cur < 127) × (new ≡ cur + lock_reader)
unfolding read_round
read_round-ok val cur new spurious h n e = ground (arith, write_locked_lem val)

-- A round that does not take it goes on with the value found.
pub read_round-err :
    (val cur v : ℕ) (spurious : Bool) → read_round val cur spurious ≡ err v → v ≡ cur
unfolding read_round
read_round-err val cur v spurious e = ground arith

pub write_round-ok :
    (val cur new : ℕ) (spurious : Bool)
    → IsWord val
    → write_round val cur spurious ≡ ok new
    → (cur ≡ val) × (locks cur ≡ 0) × (new ≡ cur + lock_writer)
unfolding write_round
write_round-ok val cur new spurious h e = ground (arith, has_lock_lem val, bit_or-lock_writer val)

pub write_round-err :
    (val cur v : ℕ) (spurious : Bool) → write_round val cur spurious ≡ err v → v ≡ cur
unfolding write_round
write_round-err val cur v spurious e = ground arith

-- The words found and the word loaded fit 64 bits, and none found counts 127 locks. If `read`
-- returns, it found a word with fewer than 127 readers and no writer in one of its rounds, and
-- left that word with one reader more.
pub read_loop-takes :
    (fuel : ℕ) (memory : ℕ → ℕ) (spurious : ℕ → Bool) (val : ℕ) {new : ℕ}
    → ((i : ℕ) → IsWord (memory i) × (locks (memory i) ≢ 127))
    → IsWord val
    → read_loop fuel memory spurious val ≡ some new
    → (i : ℕ) × (i < fuel) × (locks (memory i) < 127) × (new ≡ memory i + lock_reader)
unfolding read_loop
read_loop-takes zero memory spurious val words h e = ground arith
read_loop-takes (suc fuel) memory spurious val words h e =
    elim (Result-cases (read_round val (memory 0) (spurious 0))) [
      | inl (a, taken) ↦ (
        0,
        omega arith,
        ground (arith, read_round-ok val (memory 0) a (spurious 0), words 0),
        ground (arith, read_round-ok val (memory 0) a (spurious 0), words 0),
      )
      | inr (v, on) ↦
          let (i, below, free, out) =
            read_loop-takes fuel (λ i. memory (suc i)) (λ i. spurious (suc i)) v
              (λ i. words (suc i))
              (ground (arith, read_round-err val (memory 0) v (spurious 0), words 0))
              (rw (on, read_loop) at e) in
          (suc i, omega arith, free, out)
    ]

-- The words found and the word loaded fit 64 bits. If `write` returns, it found a word with no
-- lock in one of its rounds, and left that word with the writer bit set.
pub write_loop-takes :
    (fuel : ℕ) (memory : ℕ → ℕ) (spurious : ℕ → Bool) (val : ℕ) {new : ℕ}
    → ((i : ℕ) → IsWord (memory i))
    → IsWord val
    → write_loop fuel memory spurious val ≡ some new
    → (i : ℕ) × (i < fuel) × (locks (memory i) ≡ 0) × (new ≡ memory i + lock_writer)
unfolding write_loop
write_loop-takes zero memory spurious val words h e = ground arith
write_loop-takes (suc fuel) memory spurious val words h e =
    elim (Result-cases (write_round val (memory 0) (spurious 0))) [
      | inl (a, taken) ↦ (
        0,
        omega arith,
        ground (arith, write_round-ok val (memory 0) a (spurious 0)),
        ground (arith, write_round-ok val (memory 0) a (spurious 0)),
      )
      | inr (v, on) ↦
          let (i, below, free, out) =
            write_loop-takes fuel (λ i. memory (suc i)) (λ i. spurious (suc i)) v
              (λ i. words (suc i))
              (ground (arith, write_round-err val (memory 0) v (spurious 0), words 0))
              (rw (on, write_loop) at e) in
          (suc i, omega arith, free, out)
    ]

-- `read` returns, within the rounds up to then, once two rounds in a row find the same word
-- with no writer and the second exchange does not fail for no reason.
pub read_loop-returns :
    (i : ℕ) (memory : ℕ → ℕ) (spurious : ℕ → Bool) (val : ℕ)
    → write_locked (memory i) ≡ false
    → memory (suc i) ≡ memory i
    → spurious (suc i) ≡ false
    → is_some (read_loop (suc (suc i)) memory spurious val) ≡ true
unfolding read_loop read_round
read_loop-returns zero memory spurious val free same fair = ground arith
read_loop-returns (suc i) memory spurious val free same fair =
    ground (arith, read_loop-returns i (λ k. memory (suc k)) (λ k. spurious (suc k)) (memory 0))

-- `write` returns, within the rounds up to then, once two rounds in a row find the same word
-- with no lock and the second exchange does not fail for no reason.
pub write_loop-returns :
    (i : ℕ) (memory : ℕ → ℕ) (spurious : ℕ → Bool) (val : ℕ)
    → has_lock (memory i) ≡ false
    → memory (suc i) ≡ memory i
    → spurious (suc i) ≡ false
    → is_some (write_loop (suc (suc i)) memory spurious val) ≡ true
unfolding write_loop write_round
write_loop-returns zero memory spurious val free same fair = ground arith
write_loop-returns (suc i) memory spurious val free same fair =
    ground (arith, write_loop-returns i (λ k. memory (suc k)) (λ k. spurious (suc k)) (memory 0))
