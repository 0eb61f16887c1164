-- ===== src/Tests/Words.antt =====
-- The lock words at concrete inputs.
use alchemy.Base.{◌^◌, ◌≡◌, arith, true, false, ok, ◌*◌}
use alchemy.Oid.{write_locked, try_read}
use alchemy.Oid.Methods.{try_read_overflow}

try_read_overflow_example :
    ((try_read (127 * 2 ^ 56) (127 * 2 ^ 56) false).0 ≡ ok tt)
    × (write_locked (try_read (127 * 2 ^ 56) (127 * 2 ^ 56) false).1 ≡ true)
try_read_overflow_example = try_read_overflow (127 * 2 ^ 56) (omega arith) (omega arith)
