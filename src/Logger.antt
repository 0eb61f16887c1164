-- ===== src/Logger.antt =====
-- The logger of src/log/mod.rs: positions in an endless log, of which two buffers in turn hold the
-- part that is not written to the file yet. Offsets are taken not to wrap at 64 bits.
pub mod Offsets
pub mod Bytes
pub mod Written
pub mod Stream
use alchemy.Base.{
  ℕ, ◌+◌, ◌-◌, ◌*◌, ◌/◌, ◌%◌, Bool, true, false, Option, none, some, Result, ok, err, ltb,
  if◌then◌else◌,
}

-- `Logger`, less the file and the bytes in the buffers.
pub record Logger : Type 0 where
  pub lsn : ℕ
  pub cur_offset : ℕ
  pub flushed_offset : ℕ
  pub buffer_size : ℕ
  pub should_stop : Bool

-- `Logger::with_buffer_size`, less the file.
abbrev pub with_buffer_size : ℕ → Logger
with_buffer_size buffer_size = record {
  lsn = 0;
  cur_offset = 0;
  flushed_offset = 0;
  buffer_size = buffer_size;
  should_stop = false;
}

-- `Logger::acquire_lsn`.
unfoldable pub acquire_lsn : Logger → ℕ × Logger
acquire_lsn l = (l.lsn, record l { lsn = l.lsn + 1 })

-- `Logger::try_flush_logs`: the buffer written to the file, with the offset before it; `none` is the
-- failed assertion.
unfoldable pub try_flush_logs : Logger → Option (Result (ℕ × ℕ) ℕ × Logger)
try_flush_logs l =
    let distance : ℕ = l.cur_offset - l.flushed_offset in
    if ltb distance l.buffer_size
    then some (err l.cur_offset, l)
    else if ltb distance (l.buffer_size * 2)
    then some (
      ok (l.flushed_offset / l.buffer_size % 2, l.flushed_offset),
      record l { flushed_offset = l.flushed_offset + l.buffer_size },
    )
    else none

-- `Logger::acquire_log_buffer`: the buffer and the offset in it of the slice.
unfoldable pub acquire_log_buffer : (size : ℕ) → Logger → (ℕ × ℕ) × Logger
acquire_log_buffer size l =
    let loc = l.cur_offset in
    ((loc / l.buffer_size % 2, loc % l.buffer_size), record l { cur_offset = loc + size })

-- `Logger::stop_logger`.
unfoldable pub stop_logger : Logger → Logger
stop_logger l = record l { should_stop = true }
