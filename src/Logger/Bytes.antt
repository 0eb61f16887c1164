-- ===== src/Logger/Bytes.antt =====
-- The bytes of the logger in src/log/mod.rs: the two buffers, and the file that they are flushed to.
use alchemy.Base.{
  ℕ, zero, suc, ◌+◌, ◌-◌, Bool, Option, none, some, Result, ok, err, List, length, get_or, leb, ltb,
  if◌then◌else◌, ◌==◌, ◌&&◌,
}
use alchemy.Backoff.{spin}
use alchemy.Logger.{Logger, with_buffer_size, try_flush_logs, acquire_log_buffer}

-- The logger with its memory. A buffer is a family of bytes: those from `buffer_size` on are the memory
-- behind it.
pub record Log : Type 0 where
  pub logger : Logger
  pub buffers : ℕ → ℕ → ℕ
  pub file : ℕ → ℕ
  pub file_len : ℕ

-- `with_buffer_size`: what the fresh memory holds is not known, and the file is new.
unfoldable pub new_log : ℕ → (ℕ → ℕ → ℕ) → Log
new_log size buffers = record {
  logger = with_buffer_size size;
  buffers = buffers;
  file = λ _. 0;
  file_len = 0;
}

-- The bytes of a buffer after `copy_from_slice` at an offset.
abbrev pub copied : List ℕ → ℕ → (ℕ → ℕ) → ℕ → ℕ
copied val offset bytes o =
    if leb offset o && ltb o (offset + length val) then get_or val (o - offset) 0 else bytes o

abbrev pub written_to : List ℕ → ℕ → ℕ → (ℕ → ℕ → ℕ) → ℕ → ℕ → ℕ
written_to val id offset buffers b = if id == b then copied val offset (buffers b) else buffers b

unfoldable pub append_log : List ℕ → Log → Log
append_log val log =
    let ((id, offset), l) = acquire_log_buffer (length val) log.logger in
    record log { logger = l; buffers = written_to val id offset log.buffers }

-- `write` appends as many bytes of the buffer to the file as it returns; an error, 0 here, is only
-- printed. `none` is the assertion on `fsync`.
unfoldable pub flush_buffer : (wrote : ℕ) (synced : Bool) → ℕ → Log → Option Log
flush_buffer wrote synced id log =
    if synced
    then some (record log {
      file = λ p.
          if leb log.file_len p && ltb p (log.file_len + wrote)
          then log.buffers id (p - log.file_len)
          else log.file p;
      file_len = log.file_len + wrote;
    })
    else none

-- What `try_flush_logs` returns, with the log after it.
abbrev pub after_flush : Logger → ℕ → Option Log → Option (Result ℕ ℕ × Log)
after_flush l flushed none = none
after_flush l flushed (some log) = some (ok flushed, record log { logger = l })

abbrev pub flush_at :
    (wrote : ℕ) (synced : Bool)
    → Log
    → Option (Result (ℕ × ℕ) ℕ × Logger)
    → Option (Result ℕ ℕ × Log)
flush_at wrote synced log none = none
flush_at wrote synced log (some (err offset, l)) = some (err offset, record log { logger = l })
flush_at wrote synced log (some (ok (id, flushed), l)) =
    after_flush l flushed (flush_buffer wrote synced id log)

-- `try_flush_logs` with its bytes.
unfoldable pub flush_logs : (wrote : ℕ) (synced : Bool) → Log → Option (Result ℕ ℕ × Log)
flush_logs wrote synced log = flush_at wrote synced log (try_flush_logs log.logger)

-- The step of the backoff after a round of `start_logger_thread`.
abbrev backoff_after : Result ℕ ℕ → ℕ → ℕ
backoff_after (err _) step = (spin step).1
backoff_after (ok _) step = 0

abbrev next_round : Option (Result ℕ ℕ × Log) → ℕ → (Log → ℕ → Option Log) → Option Log
next_round none step rest = none
next_round (some (r, log)) step rest = rest log (backoff_after r step)

-- The loop of `start_logger_thread`: each round, other threads change the log, and the system answers
-- the writes. It ends when it is told to stop; `none` is a panic, or the end of the rounds.
unfoldable pub logger_loop :
    ℕ → (others : ℕ → Log → Log) (wrote : ℕ → ℕ) (synced : ℕ → Bool) → Log → ℕ → Option Log
logger_loop zero others wrote synced log step = none
logger_loop (suc rounds) others wrote synced log step =
    let now = others rounds log in
    let rest =
      next_round (flush_logs (wrote rounds) (synced rounds) now) step
        (λ log' step'. logger_loop rounds others wrote synced log' step') in
    if now.logger.should_stop then some now else rest
