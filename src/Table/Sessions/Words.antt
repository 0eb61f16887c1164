-- ===== src/Table/Sessions/Words.antt =====
-- Taking and dropping guards (src/attribute_cache/clock_cache/oid.rs) leaves what a lock word says below its locks.
use alchemy.Base.{ℕ, ◌%◌, ◌^◌, ◌≡◌, arith, Bool}
use alchemy.Oid.{try_read, try_write, read_unlock, write_unlock}
use alchemy.Oid.Layout.{has_lock_lem, bit_or-lock_writer}
use alchemy.Oid.Methods.{IsWord}

-- A word that differs in its locks only.
abbrev pub Relocks : ℕ → ℕ → Type 0
Relocks w w' = IsWord w → IsWord w' × (w' % 2 ^ 56 ≡ w % 2 ^ 56)

pub try_read-Relocks : (val cur : ℕ) (spurious : Bool) → Relocks cur (try_read val cur spurious).1
unfolding try_read
try_read-Relocks val cur spurious w = ground arith

pub try_write-Relocks : (val cur : ℕ) (spurious : Bool) → Relocks cur (try_write val cur spurious).1
unfolding try_write
try_write-Relocks val cur spurious w = ground (arith, has_lock_lem val, bit_or-lock_writer val)

pub read_unlock-Relocks : (cur : ℕ) → Relocks cur (read_unlock cur)
unfolding read_unlock
read_unlock-Relocks cur w = omega arith

pub write_unlock-Relocks : (cur : ℕ) → Relocks cur (write_unlock cur)
unfolding write_unlock
write_unlock-Relocks cur w = omega arith
